-- ===== src/Client/Handshake.antt =====
-- The registration of a client: HELLO from the client's name to the answer of
-- src/server_commands.c, and the answer into the client's flags.
pub mod Answer
pub mod Told
use rock_paper_scissors_batt.Base.{
  ℕ, ◌+◌, ◌^◌, ◌<◌, ◌≡◌, refl, sym, ap, subst, ◌∙◌, inl, inr, List, [], ◌∷◌, ◌++◌, none, some, true,
  false, arith, length, All, Option-cases, get_or-set_self,
}
use rock_paper_scissors_batt.Float.{Float}
use rock_paper_scissors_batt.State.{Player, ServerState, player, empty_slot}
use rock_paper_scissors_batt.Text.Bytes.{Bytes, codes, text}
use rock_paper_scissors_batt.Protocol.Framing.{frames}
use rock_paper_scissors_batt.Server.{Step}
use rock_paper_scissors_batt.Match.{is_lobby, reset_player_progress}
use rock_paper_scissors_batt.Commands.{handle_command, handle_hello_command, find_name, register}
use rock_paper_scissors_batt.Client.{ClientState}
use rock_paper_scissors_batt.Text.Clean.{all_clean}
use rock_paper_scissors_batt.Client.PlayerLine.{IsWord}
use rock_paper_scissors_batt.Client.Pump.{pump_client_network}
use rock_paper_scissors_batt.Client.Pump.Stream.{IsText, NoNewline, concat}
use rock_paper_scissors_batt.Client.Pump.Chunks.{IsChunk, arrives, pump_chunks}
use rock_paper_scissors_batt.Client.Snapshot.Clean.{clean-IsText}
use rock_paper_scissors_batt.Client.Snapshot.{handle_all}
use rock_paper_scissors_batt.Client.Handshake.Answer.{
  hello_parsed, welcome_lines, welcome_lines-Fit, hello_accepted, hello_refused,
}
use rock_paper_scissors_batt.Client.Handshake.Told.{IsTold, handle-duplicate, welcome-IsTold}

-- What the server's slot and the client hold after the answer to a HELLO.
pub data Settled (name : Bytes) (s : ServerState) (p : Player) (c : ClientState) : Type 0 where
  agreed :
      find_name name 0 s.players ≡ none
      → p.registered ≡ true
      → p.name ≡ name
      → IsTold name (is_lobby s.phase) c
      → Settled name s p c
  turned_down :
      (i : ℕ)
      → find_name name 0 s.players ≡ some i
      → p.registered ≡ false
      → c.name_registered ≡ false
      → c.name_check_pending ≡ false
      → Settled name s p c

-- The lines of an answer, in the slot's buffer, and what the client makes of them.
record Answered (now : Float) (name : Bytes) (s : ServerState) (p : Player) (c : ClientState)
    : Type 0 where
  pub lines : List Bytes
  pub texts : All IsText lines
  pub queued : p.outbuf ≡ frames lines
  pub settled : Settled name s p (handle_all now c lines)

accepted-Answered :
    (now : Float) (s : ServerState) (idx : ℕ) (name : Bytes) (c : ClientState)
    → IsWord name
    → c.pending_name ≡ name
    → (player s idx).id < 10 ^ 10
    → s.join_deadline < 10 ^ 10
    → (player s idx).outbuf ≡ []
    → find_name name 0 s.players ≡ none
    → Answered now name s
        (record (register (player s idx) name) {
          outbuf = (player s idx).outbuf ++ frames (welcome_lines s (player s idx).id);
        })
        c
unfolding register reset_player_progress handle_all
accepted-Answered now s idx name c w asked id deadline empty free = record {
  lines = welcome_lines s (player s idx).id;
  texts = (welcome_lines-Fit s (player s idx).id id deadline).texts;
  queued = ap (λ (b : Bytes). b ++ frames (welcome_lines s (player s idx).id)) empty;
  settled = agreed free refl refl (welcome-IsTold now s (player s idx).id name c w asked);
}

refused-Answered :
    (now : Float) (s : ServerState) (idx : ℕ) (name : Bytes) (c : ClientState) (i : ℕ)
    → (player s idx).registered ≡ false
    → (player s idx).outbuf ≡ []
    → find_name name 0 s.players ≡ some i
    → Answered now name s
        (record (player s idx) {
          outbuf = (player s idx).outbuf ++ frames (codes "ERROR duplicate_name" ∷ []);
        })
        c
unfolding handle_all text all_clean
refused-Answered now s idx name c i new empty taken = record {
  lines = codes "ERROR duplicate_name" ∷ [];
  texts = (clean-IsText (codes "ERROR duplicate_name") refl (omega arith), tt);
  queued = ap (λ (b : Bytes). b ++ frames (codes "ERROR duplicate_name" ∷ [])) empty;
  settled = turned_down i taken new (handle-duplicate now c).0 (handle-duplicate now c).1;
}

answer :
    (now : Float) (s : ServerState) (idx : ℕ) (name : Bytes) (c : ClientState)
    → idx < length s.players
    → IsWord name
    → c.pending_name ≡ name
    → (player s idx).registered ≡ false
    → (player s idx).id < 10 ^ 10
    → s.join_deadline < 10 ^ 10
    → (player s idx).outbuf ≡ []
    → Answered now name s (player (handle_hello_command s idx (some name)) idx) c
answer now s idx name c here w asked new id deadline empty =
    let room : length (player s idx).outbuf ≡ 0 = ap length empty in
    elim (Option-cases (find_name name 0 s.players)) [
      | inl free ↦
          subst (λ (p : Player). Answered now name s p c)
            (sym (
              ap (λ (t : ServerState). player t idx)
                (hello_accepted s idx name w new id deadline (omega arith) free)
              ∙ get_or-set_self s.players idx _ empty_slot here))
            (accepted-Answered now s idx name c w asked id deadline empty free)
      | inr (i, taken) ↦
          subst (λ (p : Player). Answered now name s p c)
            (sym (
              ap (λ (t : ServerState). player t idx)
                (hello_refused s idx name i w new (omega arith) taken)
              ∙ get_or-set_self s.players idx _ empty_slot here))
            (refused-Answered now s idx name c i new empty taken)
    ]

-- The line HELLO with a name of 1 to 31 bytes without blanks and NULs, from a client that waits for
-- this name and whose slot is not registered, is read by the server and answered, and however the
-- answer is cut on its way into pieces of 1 to 256 bytes, the client's pump returns in agreement with
-- the server. If no registered player has the name, the slot is registered under it, and the client
-- holds the same name, no longer waits, and may try to join exactly if the lobby is open. Otherwise
-- neither holds the client for registered, and it no longer waits. The output buffer of the slot and
-- the input buffer of the client are empty in front of the line, and the slot's id and the lobby's
-- deadline have at most ten digits.
pub hello_agrees :
    (re : Step) (now : Float) (s : ServerState) (idx : ℕ) (name : Bytes) (net : Player)
    (c : ClientState) (cs : List Bytes)
    → idx < length s.players
    → IsWord name
    → c.pending_name ≡ name
    → (player s idx).registered ≡ false
    → (player s idx).id < 10 ^ 10
    → s.join_deadline < 10 ^ 10
    → (player s idx).outbuf ≡ []
    → net.inbuf ≡ []
    → All IsChunk cs
    → concat cs ≡ (player (handle_hello_command s idx (some name)) idx).outbuf
    → let t = handle_hello_command s idx (some name) in
      (d : ClientState) × (handle_command re s idx (text "HELLO " ++ name) ≡ some t)
      × (pump_client_network (arrives now cs) net c ≡ some (net, d))
      × Settled name s (player t idx) d
hello_agrees re now s idx name net c cs here w asked new id deadline empty unread chunks bytes =
    let a = answer now s idx name c here w asked new id deadline empty in
    let n : length net.inbuf ≡ 0 = ap length unread in
    (
      handle_all now c a.lines,
      hello_parsed re s idx name w,
      pump_chunks now cs a.lines net c chunks a.texts (omega arith)
            (subst NoNewline (sym unread) tt)
            (ap (λ (b : Bytes). b ++ concat cs) unread ∙ bytes ∙ a.queued)
          ∙ λ i. some (record net { inbuf = sym unread i }, handle_all now c a.lines),
      a.settled,
    )

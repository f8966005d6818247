-- ===== src/Client/Snapshot/Delivered.antt =====
-- A snapshot on its way: from `queue_game_state_for_player` over the wire into the client's pump.
use rock_paper_scissors_batt.Base.{
  ℕ, ◌-◌, ◌<◌, ◌≡◌, refl, sym, ap, subst, ◌∙◌, List, [], ◌∷◌, ◌++◌, some, true, All, arith, length,
  take, take_all, get_or-set_self, map, replicate,
}
use rock_paper_scissors_batt.Float.{Float}
use rock_paper_scissors_batt.State.{
  Player, ServerState, player, empty_slot, max_players, player_is_admitted,
}
use rock_paper_scissors_batt.Text.Bytes.{Bytes, c_string}
use rock_paper_scissors_batt.Protocol.Framing.{frames}
use rock_paper_scissors_batt.Server.Lines.{state_lines}
use rock_paper_scissors_batt.Server.{queue_game_state_for_player}
use rock_paper_scissors_batt.Server.Snapshot.{queue_game_state-Whole, queue_lines-short}
use rock_paper_scissors_batt.Server.Slots.{Inv}
use rock_paper_scissors_batt.Match.Moves.{NamesDiffer}
use rock_paper_scissors_batt.Client.{ClientState, zero_client}
use rock_paper_scissors_batt.Client.PlayerLine.{IsWord}
use rock_paper_scissors_batt.Client.Pump.{pump_client_network}
use rock_paper_scissors_batt.Client.Pump.Stream.{IsText, NoNewline, concat, c_string-no_nul}
use rock_paper_scissors_batt.Client.Pump.Chunks.{IsChunk, arrives, pump_chunks}
use rock_paper_scissors_batt.Client.Snapshot.{handle_all, views}
use rock_paper_scissors_batt.Client.Snapshot.Players.{AllShown}
use rock_paper_scissors_batt.Client.Snapshot.Clean.{IsClean, state_lines-IsClean, clean-IsText}
use rock_paper_scissors_batt.Client.Snapshot.Told.{Tells}
use rock_paper_scissors_batt.Client.Snapshot.Shown.{shown_of_Inv, snapshot_shows, snapshot-Tells}
use rock_paper_scissors_batt.Text.Clean.{clean_bytes}

same_lines : (ls : List Bytes) → All IsClean ls → map c_string ls ≡ ls
same_lines [] h = refl
same_lines (l ∷ ls) (g, h) = λ i. c_string-no_nul l (clean_bytes l g).0 i ∷ same_lines ls h i

texts_of :
    (ls : List Bytes) → All IsClean ls → All (λ l. length (c_string l) < 254) ls → All IsText ls
texts_of [] h k = tt
texts_of (l ∷ ls) (g, h) (short, k) =
    let n : length (c_string l) ≡ length l = ap length (c_string-no_nul l (clean_bytes l g).0) in
    (clean-IsText l g (omega arith), texts_of ls h k)

take_lines : (n : ℕ) (ls : List Bytes) → n ≡ length ls → take n ls ≡ ls
take_lines n ls e = take_all n ls (omega arith)

-- The bytes that a successful snapshot leaves in an empty buffer.
sent_bytes :
    (s : ServerState) (i : ℕ)
    → i < length s.players
    → AllShown s.players
    → (queue_game_state_for_player s i).0 ≡ true
    → (player s i).outbuf ≡ []
    → (player (queue_game_state_for_player s i).1 i).outbuf ≡ frames (state_lines s (player s i))
sent_bytes s i here is ok empty =
    let (q, written, w) = queue_game_state-Whole s i in
    let ls = state_lines s (player s i) in
    let same = same_lines ls (state_lines-IsClean s (player s i) is) in
    ap (λ (t : ServerState). (player t i).outbuf) written
    ∙ ap (λ (p : Player). p.outbuf) (get_or-set_self s.players i q empty_slot here)
    ∙ ap (λ (p : Player). p.outbuf) w.queued
    ∙ ap (λ (b : Bytes). b ++ frames (take w.n (map c_string ls))) empty
    ∙ ap (λ (ks : List Bytes). frames (take w.n ks)) same
    ∙ ap frames (take_lines w.n ls (w.all ok))

sent_short :
    (s : ServerState) (i : ℕ)
    → (queue_game_state_for_player s i).0 ≡ true
    → All (λ l. length (c_string l) < 254) (state_lines s (player s i))
unfolding queue_game_state_for_player
sent_short s i ok = queue_lines-short (player s i) (state_lines s (player s i)) ok

-- A snapshot that the server queues for a client without pending output, cut anywhere on its way
-- into pieces of 1 to 256 bytes, makes the client's pump return with a view of the match: the table
-- is that of the admitted players in the order of their slots. In the lobby, in SETUP and in a
-- round the client has the flags and the deadline of that phase, and in REPICK its flags. When the
-- match is over, the client of an admitted player has its result, and that of any other player is
-- not told, so that its flag and its result stay as they were. The call succeeded, the server's
-- slots are in order, no two registered players have one name, a name is 1 to 31 bytes without
-- blanks and NULs, the client has nothing unread, and its clock stands.
pub snapshot_delivered :
    (now : Float) (s : ServerState) (i : ℕ) (net : Player) (c : ClientState) (cs : List Bytes)
    → Inv s
    → NamesDiffer s
    → ((k : ℕ) → player_is_admitted (player s k) ≡ true → IsWord (player s k).name)
    → i < max_players
    → (queue_game_state_for_player s i).0 ≡ true
    → (player s i).outbuf ≡ []
    → net.inbuf ≡ []
    → All IsChunk cs
    → concat cs ≡ (player (queue_game_state_for_player s i).1 i).outbuf
    → (t : ClientState) × (pump_client_network (arrives now cs) net c ≡ some (net, t))
      × (t.players
          ≡ views s.players ++ replicate (max_players - length (views s.players)) zero_client)
      × Tells s.phase now s (player s i) c t
snapshot_delivered now s i net c cs v d words here ok empty unread chunks bytes =
    let ls = state_lines s (player s i) in
    let is = shown_of_Inv s v words in
    let sent = sent_bytes s i (omega (arith, v.size)) is ok empty in
    let texts = texts_of ls (state_lines-IsClean s (player s i) is) (sent_short s i ok) in
    let n : length net.inbuf ≡ 0 = ap length unread in
    (
      handle_all now c ls,
      pump_chunks now cs ls net c chunks texts (omega arith) (subst NoNewline (sym unread) tt)
            (ap (λ (b : Bytes). b ++ concat cs) unread ∙ bytes ∙ sent)
          ∙ λ i. some (record net { inbuf = sym unread i }, handle_all now c ls),
      snapshot_shows now s (player s i) c v d words,
      snapshot-Tells now s (player s i) c v words,
    )

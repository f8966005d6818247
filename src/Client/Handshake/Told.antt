-- ===== src/Client/Handshake/Told.antt =====
-- The answer to HELLO as the client reads it: the lines of src/server_commands.c through
-- `handle_server_line` of src/client_text_messages.c.
use rock_paper_scissors_batt.Base.{
  ℕ, ◌≡◌, refl, sym, ap, subst, ◌∙◌, inl, inr, [], ◌∷◌, ◌++◌, Bool, true, false, ◌==◌,
  if◌then◌else◌, Bool-cases, take_all,
}
use rock_paper_scissors_batt.Float.{Float}
use rock_paper_scissors_batt.State.{ServerState}
use rock_paper_scissors_batt.Text.Bytes.{Bytes, text, bytes_eq, starts_with}
use rock_paper_scissors_batt.Text.Print.{print_nat, print_digits}
use rock_paper_scissors_batt.Text.Scan.{scan_text}
use rock_paper_scissors_batt.Text.Numbers.Whole.{scan_int-last}
use rock_paper_scissors_batt.Server.Lines.{seconds_left}
use rock_paper_scissors_batt.Match.{is_lobby, choose_spawn_line}
use rock_paper_scissors_batt.Commands.{lobby_status_lines}
use rock_paper_scissors_batt.Client.{ClientState, set_status, name_copy}
use rock_paper_scissors_batt.Client.Messages.{first_branch, scan_int_of}
use rock_paper_scissors_batt.Client.General.{
  parse_general_line, match_branches, error_branches, welcome_branch, welcomed, is_set,
  lobby_open_branch, setup_open_branch, choice_ok_branch, spawn_ok_branch,
}
use rock_paper_scissors_batt.Client.Dispatch.{
  dispatch_table, dispatch_from, line_matches, run_parser, handle_server_line,
}
use rock_paper_scissors_batt.Client.PlayerLine.{IsWord}
use rock_paper_scissors_batt.Client.Snapshot.{handle_all}
use rock_paper_scissors_batt.Client.Snapshot.Phases.{
  lobby_opened, lobby_shut, lobby_waiting, handle-lobby_open, handle_lobby_lines,
}
use rock_paper_scissors_batt.Client.Handshake.Answer.{welcome_lines}

-- The client holds that it is registered under a name.
pub record Knows (name : Bytes) (c : ClientState) : Type 0 where
  pub registered : c.name_registered ≡ true
  pub called : c.my_name ≡ name
  pub settled : c.name_check_pending ≡ false

handle-welcome :
    (now : Float) (id : ℕ) (c : ClientState)
    → handle_server_line now c (text "WELCOME " ++ print_nat id) ≡ welcomed c
unfolding handle_server_line dispatch_table dispatch_from line_matches run_parser starts_with
    bytes_eq text parse_general_line match_branches first_branch welcome_branch scan_int_of
    scan_text
handle-welcome now id c = rw (scan_int-last id) refl

handle_joining :
    (now : Float) (c : ClientState)
    → (handle_server_line now c (text "SPECTATING")
        ≡ set_status c (text "Spectating. Pick a type and click a tile if lobby is open."))
      × (handle_server_line now c (text "CHOOSE_TYPE") ≡ record c { can_attempt_join = true })
      × (handle_server_line now c choose_spawn_line ≡ record c { can_attempt_join = true })
unfolding handle_server_line dispatch_table dispatch_from line_matches run_parser starts_with
    bytes_eq text parse_general_line match_branches first_branch welcome_branch scan_int_of
    scan_text lobby_open_branch setup_open_branch choose_spawn_line print_nat print_digits
handle_joining now c = (refl, refl, refl)

pub handle-duplicate :
    (now : Float) (c : ClientState)
    → let d = handle_server_line now c (text "ERROR duplicate_name") in
      (d.name_registered ≡ false) × (d.name_check_pending ≡ false)
unfolding handle_server_line dispatch_table dispatch_from line_matches run_parser starts_with
    bytes_eq text parse_general_line match_branches error_branches first_branch welcome_branch
    scan_int_of scan_text lobby_open_branch setup_open_branch choice_ok_branch spawn_ok_branch
    set_status
handle-duplicate now c = (refl, refl)

copied : (name other : Bytes) → IsWord name → (if is_set name then name_copy name else other) ≡ name
copied [] other w = absurd (w.some_byte refl)
copied (n ∷ ns) other w = take_all 31 (n ∷ ns) w.fits

welcomed-Knows :
    (name : Bytes) (c : ClientState) → IsWord name → c.pending_name ≡ name → Knows name (welcomed c)
unfolding welcomed set_status
welcomed-Knows name c w e = record {
  registered = refl;
  called =
      ap (λ (n : Bytes). if is_set n then name_copy n else c.my_name) e ∙ copied name c.my_name w;
  settled = refl;
}

-- What the client is told about the lobby.
abbrev pub IsTold : Bytes → Bool → ClientState → Type 0
IsTold name joinable c = Knows name c × (c.can_attempt_join ≡ joinable)

handle_open_lobby :
    (now : Float) (c : ClientState) (l : Bytes)
    → handle_all now c (text "CHOOSE_TYPE" ∷ (choose_spawn_line ∷ (l ∷ [])))
      ≡ handle_server_line now (record c { can_attempt_join = true }) l
unfolding handle_all
handle_open_lobby now c l =
    ap (λ (d : ClientState). handle_server_line now (handle_server_line now d choose_spawn_line) l)
      (handle_joining now c).1
    ∙ ap (λ (d : ClientState). handle_server_line now d l)
        (handle_joining now (record c { can_attempt_join = true })).2

handle_shut_lobby :
    (now : Float) (c : ClientState) → handle_all now c (text "LOBBY_CLOSED" ∷ []) ≡ lobby_shut c
unfolding handle_all
handle_shut_lobby now c = (handle_lobby_lines now c).0

lobby-IsTold :
    (now : Float) (n : ℕ) (name : Bytes) (c : ClientState)
    → Knows name c
    → IsTold name true (lobby_waiting c)
      × IsTold name true (lobby_opened now n c)
      × IsTold name false (lobby_shut c)
unfolding lobby_waiting lobby_opened lobby_shut set_status
lobby-IsTold now n name c k = (
  (record { registered = k.registered; called = k.called; settled = k.settled }, refl),
  (record { registered = k.registered; called = k.called; settled = k.settled }, refl),
  (record { registered = k.registered; called = k.called; settled = k.settled }, refl),
)

status-IsTold :
    (now : Float) (s : ServerState) (name : Bytes) (c : ClientState)
    → Knows name c
    → IsTold name (is_lobby s.phase) (handle_all now c (lobby_status_lines s))
unfolding lobby_status_lines
status-IsTold now s name c k = elim (Bool-cases (is_lobby s.phase)) [
  | inr e ↦
      rw e
        (subst (IsTold name false) (sym (handle_shut_lobby now c)) (lobby-IsTold now 0 name c k).2)
  | inl e ↦ elim (Bool-cases (s.join_deadline == 0)) [
    | inl z ↦
        rw (e, z)
          (subst (IsTold name true)
            (sym (handle_open_lobby now c _ ∙ (handle_lobby_lines now joining).1))
            (lobby-IsTold now 0 name joining still).0)
    | inr z ↦
        rw (e, z)
          (subst (IsTold name true)
            (sym (handle_open_lobby now c _ ∙ handle-lobby_open now seconds joining))
            (lobby-IsTold now seconds name joining still).1)
  ]
]
  where
    joining : ClientState
    joining = record c { can_attempt_join = true }

    seconds : ℕ
    seconds = seconds_left s s.join_deadline

    still : Knows name joining
    still = record { registered = k.registered; called = k.called; settled = k.settled }

pub welcome-IsTold :
    (now : Float) (s : ServerState) (id : ℕ) (name : Bytes) (c : ClientState)
    → IsWord name
    → c.pending_name ≡ name
    → IsTold name (is_lobby s.phase) (handle_all now c (welcome_lines s id))
unfolding handle_all set_status
welcome-IsTold now s id name c w asked =
    let k = welcomed-Knows name c w asked in
    let greeted = (handle_joining now (welcomed c)).0 in
    subst
      (λ (d : ClientState).
        IsTold name (is_lobby s.phase)
          (handle_all now (handle_server_line now d (text "SPECTATING")) (lobby_status_lines s)))
      (sym (handle-welcome now id c))
      (subst
        (λ (d : ClientState).
          IsTold name (is_lobby s.phase) (handle_all now d (lobby_status_lines s)))
        (sym greeted)
        (status-IsTold now s name _
          (record { registered = k.registered; called = k.called; settled = k.settled })))

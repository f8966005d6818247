-- ===== src/Client/Ui/Main.antt =====
-- `main` of src/client_text.c: the arguments, the frames of the outer loop, and the end. `host` is
-- fixed in the source, and opening the connection, the terminal and the pause of a frame are left
-- out.
use rock_paper_scissors_batt.Base.{
  ℕ, List, [], ◌∷◌, ◌++◌, Option, none, some, Bool, true, false, not, ◌&&◌, if◌then◌else◌, ◌>>=◌,
}
use rock_paper_scissors_batt.Base.Int.{pos}
use rock_paper_scissors_batt.State.{Player, grid_w, grid_h, zero_player}
use rock_paper_scissors_batt.Text.Bytes.{Bytes, text}
use rock_paper_scissors_batt.Client.{ClientState, init_client_state}
use rock_paper_scissors_batt.Client.General.{is_set}
use rock_paper_scissors_batt.Client.Pump.{Ready, pump_client_network}
use rock_paper_scissors_batt.Client.Ui.{
  Key, AutoJoinConfig, Ui, send_command_checked, parse_choice_arg, parse_spawn_arg,
  maybe_send_hello,
}
use rock_paper_scissors_batt.Client.Ui.Keys.{
  request_state, if_sent, may_join, spawn_line, handle_keys,
}

-- After memset.
abbrev pub no_auto_join : AutoJoinConfig
no_auto_join = record {
  enabled = false;
  choice = 0;
  spawn_x = pos 0;
  spawn_y = pos 0;
  hello_sent = false;
  choice_sent = false;
  spawn_sent = false;
}

unfoldable pub parse_auto_join : Bytes → Bytes → Bytes → Option AutoJoinConfig
parse_auto_join choice x y = do
  c ← parse_choice_arg choice
  spawn_x ← parse_spawn_arg x (pos grid_w)
  spawn_y ← parse_spawn_arg y (pos grid_h)
  some (record no_auto_join { enabled = true; choice = c; spawn_x = spawn_x; spawn_y = spawn_y })

abbrev pub named : Bytes → Option AutoJoinConfig → Option (Bytes × AutoJoinConfig)
named name none = none
named name (some a) = some (name, a)

-- The name and the plan of the arguments behind the program's name; `none` where the usage is
-- printed.
unfoldable pub parse_args : List Bytes → Option (Bytes × AutoJoinConfig)
parse_args [] = some (text "player", no_auto_join)
parse_args (name ∷ []) = some (name, no_auto_join)
parse_args (choice ∷ x ∷ y ∷ []) = named (text "player") (parse_auto_join choice x y)
parse_args (name ∷ choice ∷ x ∷ y ∷ []) = named name (parse_auto_join choice x y)
parse_args _ = none

-- The state in front of the outer loop.
unfoldable pub start : (ℕ → Option ℕ) → ℕ → Bytes → AutoJoinConfig → Ui
start sends fd name plan = request_state sends (record {
  net = record zero_player { fd = fd };
  client = init_client_state name;
  auto_join = plan;
  running = true;
  cursor_x = pos 0;
  cursor_y = pos 0;
  name_edit_active = not plan.enabled;
  ch = none;
  sent = [];
  calls = 0;
})

unfoldable pub auto_hello : (ℕ → Option ℕ) → Ui → Ui
auto_hello sends u =
    let c = u.client in
    let v = maybe_send_hello sends u in
    if not c.name_registered
      && (not c.name_check_pending && (not u.auto_join.hello_sent && is_set c.name_input))
    then record v { auto_join = record v.auto_join { hello_sent = true } }
    else u

-- A plan's line went out: the flag of the plan, and the snapshot is asked for again.
unfoldable pub plan_sent : (AutoJoinConfig → AutoJoinConfig) → Bool × Ui → Ui
plan_sent f (false, u) = u
plan_sent f (true, u) = record (if_sent false (true, u)) { auto_join = f u.auto_join }

unfoldable pub auto_choice : (ℕ → Option ℕ) → Ui → Ui
auto_choice sends u =
    if not u.auto_join.choice_sent
    then plan_sent (λ a. record a { choice_sent = true })
        (send_command_checked sends u (text "CHOICE " ++ (u.auto_join.choice ∷ [])))
    else u

unfoldable pub auto_spawn : (ℕ → Option ℕ) → Ui → Ui
auto_spawn sends u =
    if u.client.choice_confirmed && not u.auto_join.spawn_sent
    then plan_sent (λ a. record a { spawn_sent = true })
        (send_command_checked sends u (spawn_line u.auto_join.spawn_x u.auto_join.spawn_y))
    else u

unfoldable pub auto_join_step : (ℕ → Option ℕ) → Ui → Ui
auto_join_step sends u =
    let v = auto_hello sends u in
    if u.auto_join.enabled
    then (if may_join v.client then auto_spawn sends (auto_choice sends v) else v)
    else u

unfoldable pub ask_state : (ℕ → Option ℕ) → Ui → Ui
ask_state sends u = if not u.client.state_request_sent then request_state sends u else u

-- What a frame meets: the answers for the pump, and the keys that wait.
pub record Frame : Type 0 where
  pub ready : List Ready
  pub keys : List Key

unfoldable pub after_pump : (ℕ → Option ℕ) → List Key → Ui → Player × ClientState → Ui
after_pump sends ks u (net, c) =
    handle_keys sends ks
      (ask_state sends (auto_join_step sends (record u { net = net; client = c })))

-- `none` means that the answers for the pump ran out.
unfoldable pub frame : (ℕ → Option ℕ) → Frame → Ui → Option Ui
frame sends f u = (do
  r ← pump_client_network f.ready u.net u.client
  some (after_pump sends f.keys u r))

-- Behind the outer loop.
unfoldable pub quit : (ℕ → Option ℕ) → Ui → Ui
quit sends u = (send_command_checked sends u (text "QUIT")).1

-- The outer loop, for the frames to come.
unfoldable pub run_frames : (ℕ → Option ℕ) → List Frame → Ui → Option Ui
run_frames sends [] u = some (if u.running then u else quit sends u)
run_frames sends (f ∷ fs) u = elim u.running [
  | false ↦ some (quit sends u)
  | true ↦ elim (frame sends f u) [ none ↦ none | some v ↦ run_frames sends fs v ]
]

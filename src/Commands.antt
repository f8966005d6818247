-- ===== src/Commands.antt =====
-- src/server_commands.c: the parser and the handlers of client lines, and new connections. A NULL
-- `args` is `none`. As in Server.antt, `re` stands for the calls of `reevaluate_state` from within
-- broadcasts. Replies whose failure the source casts to void are queued by `tell`.
pub mod Parse
pub mod Slots
pub mod Spawn
pub mod Grid
pub mod Names
pub mod Handlers
pub mod Dispatch
use rock_paper_scissors_batt.Base.{
  ℕ, zero, suc, ◌+◌, ◌-◌, List, [], ◌∷◌, ◌++◌, Option, none, some, Bool, true, false, not, ◌&&◌,
  ◌||◌, ltb, leb, ◌==◌, if◌then◌else◌, ◌>>=◌, get_or, set, take, length,
}
use rock_paper_scissors_batt.Base.Int.{ℤ, pos, negsuc}
use rock_paper_scissors_batt.Float.{Float, single, lt, le, eq, of_ℕ, to_int, negate}
use rock_paper_scissors_batt.State.{
  Player, ServerState, Phase, lobby_open, setup, round_active, repick, game_over, player, put,
  slots, empty_slot, player_is_registered, player_is_admitted, minus_one, zero_float, grid_w,
  grid_h, max_name_length,
}
use rock_paper_scissors_batt.Text.Bytes.{Bytes, text, c_string, bytes_eq}
use rock_paper_scissors_batt.Text.Print.{print_nat, print_float}
use rock_paper_scissors_batt.Text.Scan.{scan_word, scan_float}
use rock_paper_scissors_batt.Protocol.{queue_line}
use rock_paper_scissors_batt.Server.Lines.{seconds_left, lobby_open_line}
use rock_paper_scissors_batt.Server.{
  Step, drop_slot, drop_player, queue_game_state_for_player, all_alive_repicked, finish_repicks,
  reevaluate_state,
}
use rock_paper_scissors_batt.Match.{
  reset_player_progress, reset_match, choose_spawn_line, maybe_admit_player, drop_and_reevaluate,
  is_lobby,
}

abbrev pub is_repick : Phase → Bool
is_repick repick = true
is_repick _ = false

abbrev pub is_over : Phase → Bool
is_over game_over = true
is_over _ = false

abbrev pub blank : ℕ
blank = 32

-- char cmd[16]
abbrev pub cmd_size : ℕ
cmd_size = 16

-- What stands before and behind the first blank.
unfoldable pub split_at_blank : Bytes → Option (Bytes × Bytes)
split_at_blank [] = none
split_at_blank (c ∷ cs) =
    let rest = split_at_blank cs in
    if c == blank then some ([], cs) else (do (word, args) ← rest; some (c ∷ word, args))

unfoldable pub skip_blanks : Bytes → Bytes
skip_blanks [] = []
skip_blanks (c ∷ cs) = if c == blank then skip_blanks cs else c ∷ cs

-- NULL at the end of the line.
abbrev pub args_of : Bytes → Option Bytes
args_of [] = none
args_of (c ∷ cs) = some (c ∷ cs)

-- The command and its arguments; `none` is a return of 0.
unfoldable pub parse_command : ℕ → Bytes → Option (Bytes × Option Bytes)
parse_command cmd_sz [] = none
parse_command cmd_sz (c ∷ cs) = elim (split_at_blank (c ∷ cs)) [
  | none ↦ some (take (cmd_sz - 1) (c ∷ cs), none)
  | some (word, args) ↦
      if (length word == 0) || leb cmd_sz (length word)
      then none
      else some (word, args_of (skip_blanks args))
]

abbrev pub to_upper : ℕ → ℕ
to_upper c = if leb 97 c && leb c 122 then c - 97 + 65 else c

unfoldable pub parse_rps_choice_arg : Option Bytes → Option ℕ
parse_rps_choice_arg none = none
parse_rps_choice_arg (some []) = none
parse_rps_choice_arg (some (c ∷ d ∷ ds)) = none
parse_rps_choice_arg (some (c ∷ [])) =
    let choice = to_upper c in
    if not (choice == 82) && (not (choice == 80) && not (choice == 83)) then none else some choice

-- Lines are queued one after the other, whatever each call returns.
unfoldable pub tell : Player → List Bytes → Player
tell p [] = p
tell p (l ∷ ls) = tell (queue_line p l).1 ls

-- A reply to one slot.
unfoldable pub reply : ServerState → ℕ → Bytes → ServerState
reply s i line = put s i (queue_line (player s i) line).1

-- The error that `require_registered_not_admitted` queues where it returns 0.
unfoldable pub require_registered_not_admitted : Player → Option Bytes
require_registered_not_admitted p =
    if not p.registered
    then some (text "ERROR register_first")
    else if p.admitted
    then some (text "ERROR already_joined")
    else none

-- The lines of `queue_lobby_status_for_player`.
unfoldable pub lobby_status_lines : ServerState → List Bytes
lobby_status_lines s =
    if is_lobby s.phase
    then text "CHOOSE_TYPE"
      ∷ (choose_spawn_line
          ∷ ((if s.join_deadline == 0
                then text "LOBBY_WAITING"
                else lobby_open_line (seconds_left s s.join_deadline))
              ∷ []))
    else text "LOBBY_CLOSED" ∷ []

-- `find_name` from index `i` on; `none` is -1.
unfoldable pub find_name : Bytes → ℕ → List Player → Option ℕ
find_name name i [] = none
find_name name i (p ∷ ps) =
    let rest = find_name name (i + 1) ps in
    if player_is_registered p && bytes_eq p.name name then some i else rest

-- An int as a float.
unfoldable pub of_int : ℤ → Float
of_int (pos n) = of_ℕ single n
of_int (negsuc n) = negate (of_ℕ single (n + 1))

unfoldable pub spawn_taken : ServerState → ℤ → ℤ → ℕ → List ℕ → Bool
spawn_taken s x y ignore_idx [] = false
spawn_taken s x y ignore_idx (i ∷ is) =
    let rest = spawn_taken s x y ignore_idx is in
    let p = player s i in
    if i == ignore_idx
    then rest
    else if not (player_is_admitted p)
    then rest
    else if not p.spawn_chosen
    then rest
    else if eq p.x (of_int x) && eq p.y (of_int y)
    then true
    else rest

-- A slot for a new connection.
unfoldable pub init_player_slot : ℕ → ℕ → Player
init_player_slot fd id = record empty_slot {
  fd = fd;
  id = id;
  connected = true;
  x = minus_one;
  y = minus_one;
}

-- The first slot that is not connected, from index `i` on.
unfoldable pub free_slot : ℕ → List Player → Option ℕ
free_slot i [] = none
free_slot i (p ∷ ps) = let rest = free_slot (i + 1) ps in if not p.connected then some i else rest

-- The index, -1 being `none`, and the state.
unfoldable pub add_player : ServerState → ℕ → Option ℕ × ServerState
add_player s fd = elim (free_slot 0 s.players) [
  | none ↦ (none, s)
  | some i ↦ (
    some i,
    record s { players = set s.players i (init_player_slot fd s.next_id); next_id = s.next_id + 1 },
  )
]

-- sscanf(args, "%31s", name)
abbrev pub hello_name : Option Bytes → Option Bytes
hello_name none = none
hello_name (some args) = do (name, rest) ← scan_word (max_name_length - 1) args; some name

-- The registration in `handle_hello_command`.
unfoldable pub register : Player → Bytes → Player
register p name = reset_player_progress (record p { name = name; registered = true })

unfoldable pub welcome : ServerState → ℕ → Bytes → ServerState
welcome s idx name =
    let p = register (player s idx) name in
    put s idx
      (tell p ((text "WELCOME " ++ print_nat p.id) ∷ (text "SPECTATING" ∷ lobby_status_lines s)))

unfoldable pub handle_hello_command : ServerState → ℕ → Option Bytes → ServerState
handle_hello_command s idx args =
    if (player s idx).registered
    then reply s idx (text "ERROR already_registered")
    else elim (hello_name args) [
      | none ↦ reply s idx (text "ERROR usage_HELLO_name")
      | some name ↦ elim (find_name name 0 s.players) [
        | some i ↦ reply s idx (text "ERROR duplicate_name")
        | none ↦ welcome s idx name
      ]
    ]

-- sscanf(args, "%f %f", &x, &y)
abbrev pub spawn_args : Option Bytes → Option (Float × Float)
spawn_args none = none
spawn_args (some args) = do (x, rest) ← scan_float args; (y, rest) ← scan_float rest; some (x, y)

-- The test for "ERROR bad_spawn".
unfoldable pub off_grid : Float → Float → Bool
off_grid x y =
    lt x zero_float || (le (of_ℕ single grid_w) x || (lt y zero_float || le (of_ℕ single grid_h) y))

module _ (re : Step) where
  -- The choice is taken.
  unfoldable pub take_choice : ServerState → ℕ → ℕ → Option ServerState
  take_choice s idx choice =
      maybe_admit_player re
        (put s idx
          (queue_line (record (player s idx) { choice = choice; choice_chosen = true })
            (text "CHOICE_OK " ++ (choice ∷ []))).1)
        idx

  unfoldable pub handle_choice_command : ServerState → ℕ → Option Bytes → Option ServerState
  handle_choice_command s idx args = elim (require_registered_not_admitted (player s idx)) [
    | some err ↦ some (reply s idx err)
    | none ↦ elim (parse_rps_choice_arg args) [
      | none ↦ some (reply s idx (text "ERROR bad_choice"))
      | some choice ↦ take_choice s idx choice
    ]
  ]

  -- The spawn is taken.
  unfoldable pub take_spawn : ServerState → ℕ → Float → Float → Option ServerState
  take_spawn s idx x y =
      maybe_admit_player re
        (put s idx
          (queue_line (record (player s idx) { x = x; y = y; spawn_chosen = true })
            (text "SPAWN_OK " ++ (print_float 1 x ++ (text " " ++ print_float 1 y)))).1)
        idx

  unfoldable pub handle_spawn_command : ServerState → ℕ → Option Bytes → Option ServerState
  handle_spawn_command s idx args = elim (require_registered_not_admitted (player s idx)) [
    | some err ↦ some (reply s idx err)
    | none ↦ elim (spawn_args args) [
      | none ↦ some (reply s idx (text "ERROR usage_SPAWN_x_y"))
      | some (x, y) ↦
          if off_grid x y
          then some (reply s idx (text "ERROR bad_spawn"))
          else if spawn_taken s (to_int single x) (to_int single y) idx slots
          then some (reply s idx (text "ERROR spawn_taken"))
          else take_spawn s idx x y
    ]
  ]

  -- The repick is taken.
  unfoldable pub take_repick_of : ServerState → ℕ → ℕ → Option ServerState
  take_repick_of s idx choice =
      let t =
        put s idx
          (queue_line (record (player s idx) { repick_choice = choice; repick_submitted = true })
            (text "REPICK_OK " ++ (choice ∷ []))).1 in
      if all_alive_repicked t
      then finish_repicks re t
      else some (reply t idx (text "REPICK_WAITING"))

  unfoldable pub handle_repick_command : ServerState → ℕ → Option Bytes → Option ServerState
  handle_repick_command s idx args =
      let p = player s idx in
      if not (is_repick s.phase)
      then some (reply s idx (text "ERROR not_in_repick_phase"))
      else if not p.registered || (not p.admitted || not p.alive)
      then some (reply s idx (text "ERROR not_alive"))
      else if p.repick_submitted
      then some (reply s idx (text "ERROR already_repicked"))
      else elim (parse_rps_choice_arg args) [
        | none ↦ some (reply s idx (text "ERROR bad_choice"))
        | some choice ↦ take_repick_of s idx choice
      ]

  unfoldable pub handle_get_state_command : ServerState → ℕ → Option ServerState
  handle_get_state_command s idx =
      let r = queue_game_state_for_player s idx in
      if r.0 then some r.1 else drop_and_reevaluate re r.1 idx

  unfoldable pub handle_rematch_command : ServerState → ℕ → Option ServerState
  handle_rematch_command s idx =
      if not (is_over s.phase)
      then some (reply s idx (text "ERROR rematch_not_available"))
      else some (reset_match s)

  unfoldable pub handle_quit_command : ServerState → ℕ → Option ServerState
  handle_quit_command s idx = do t ← drop_player re s idx true; reevaluate_state re t

  -- The dispatch on the command.
  unfoldable pub dispatch : ServerState → ℕ → Bytes → Option Bytes → Option ServerState
  dispatch s idx cmd args =
      if bytes_eq cmd (text "HELLO")
      then some (handle_hello_command s idx args)
      else if bytes_eq cmd (text "GET_STATE")
      then handle_get_state_command s idx
      else if bytes_eq cmd (text "CHOICE")
      then handle_choice_command s idx args
      else if bytes_eq cmd (text "SPAWN")
      then handle_spawn_command s idx args
      else if bytes_eq cmd (text "REPICK")
      then handle_repick_command s idx args
      else if bytes_eq cmd (text "REMATCH")
      then handle_rematch_command s idx
      else if bytes_eq cmd (text "QUIT")
      then handle_quit_command s idx
      else some (reply s idx (text "ERROR bad_command"))

  unfoldable pub handle_command : ServerState → ℕ → Bytes → Option ServerState
  handle_command s idx line = elim (parse_command cmd_size (c_string line)) [
    | none ↦ some (reply s idx (text "ERROR bad_command"))
    | some (cmd, args) ↦ dispatch s idx cmd args
  ]

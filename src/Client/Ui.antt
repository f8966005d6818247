-- ===== src/Client/Ui.antt =====
-- src/client_text.c: the helpers of the terminal client and what `main` keeps. What ncurses and the
-- socket answer is an argument: a key is a code or one of the named keys of ncurses, and `sends k`
-- says how call number `k` of `send_line` ends: `none` where it takes the whole line and returns 0,
-- `some n` where it returns -1 behind the first `n` bytes.
pub mod Keys
pub mod Draw
pub mod Grid
pub mod Cells
pub mod Branches
pub mod Bounds
pub mod Inv
pub mod Commands
pub mod Main
pub mod Plan
pub mod Runs
use rock_paper_scissors_batt.Base.{
  ℕ, zero, suc, ◌+◌, ◌-◌, List, [], ◌∷◌, ◌++◌, Option, none, some, Bool, true, false, not, ◌&&◌,
  ◌||◌, ltb, leb, ◌==◌, if◌then◌else◌, ◌>>=◌, length, take,
}
use rock_paper_scissors_batt.Base.Int.{ℤ, pos, negsuc, ltb_ℤ}
use rock_paper_scissors_batt.Float.{Float, single, lt, add, to_int, of_ratio}
use rock_paper_scissors_batt.State.{Player, max_line, zero_float}
use rock_paper_scissors_batt.Text.Bytes.{Bytes, text, c_string}
use rock_paper_scissors_batt.Text.Scan.{scan_long}
use rock_paper_scissors_batt.Commands.{to_upper}
use rock_paper_scissors_batt.Protocol.{newline}
use rock_paper_scissors_batt.Client.{ClientState, set_status, name_copy}
use rock_paper_scissors_batt.Client.General.{is_set}

pub record AutoJoinConfig : Type 0 where
  pub enabled : Bool
  pub choice : ℕ
  pub spawn_x : ℤ
  pub spawn_y : ℤ
  pub hello_sent : Bool
  pub choice_sent : Bool
  pub spawn_sent : Bool

-- What `getch` returns.
pub data Key : Type 0 where
  code : ℕ → Key
  key_left key_right key_up key_down key_backspace key_enter : Key

-- What a line was sent for: the cursor, the name in the input field, the plan and the last key.
pub record Origin : Type 0 where
  pub column : ℤ
  pub row : ℤ
  pub name : Bytes
  pub plan : AutoJoinConfig
  pub key : Option Key

-- A call of `send_line`, with how it ended.
pub record Call : Type 0 where
  pub line : Bytes
  pub ended : Option ℕ
  pub origin : Origin

-- What a call leaves on the wire: the line and its newline, or a beginning of them.
abbrev pub on_wire : Call → Bytes
on_wire c = elim c.ended [ none ↦ c.line ++ (newline ∷ []) | some n ↦ take n c.line ]

-- The local variables of `main`, `ch` with no key in front of the first, and with the calls of `send_line` so far and their number.
pub record Ui : Type 0 where
  pub net : Player
  pub client : ClientState
  pub auto_join : AutoJoinConfig
  pub running : Bool
  pub cursor_x : ℤ
  pub cursor_y : ℤ
  pub name_edit_active : Bool
  pub ch : Option Key
  pub sent : List Call
  pub calls : ℕ

abbrev pub with_client : Ui → ClientState → Ui
with_client u c = record u { client = c }

abbrev pub origin_of : Ui → Origin
origin_of u = record {
  column = u.cursor_x;
  row = u.cursor_y;
  name = u.client.name_input;
  plan = u.auto_join;
  key = u.ch;
}

abbrev pub with_call : Ui → Bytes → Option ℕ → Ui
with_call u line ended = record u {
  sent = u.sent ++ (record { line = line; ended = ended; origin = origin_of u } ∷ []);
  calls = u.calls + 1;
}

-- The rest of `send_command_checked` behind its call of `send_line`.
unfoldable pub call_ended : Ui → Bytes → Option ℕ → Bool × Ui
call_ended u line none = (true, with_call u line none)
call_ended u line (some n) = (
  false,
  with_client (with_call u line (some n))
      (set_status u.client (text "Failed to send command to server.")),
)

-- An attempt to send; the flag is true where the C function returns 0. `send_line` refuses a line of
-- 254 bytes or more in front of its first byte.
unfoldable pub send_command_checked : (ℕ → Option ℕ) → Ui → Bytes → Bool × Ui
send_command_checked sends u line =
    let l = c_string line in
    if leb max_line (length line)
    then (false, with_client u (set_status u.client (text "Outgoing command was too long.")))
    else call_ended u l (if ltb (length l) (max_line - 2) then sends u.calls else some 0)

unfoldable pub is_valid_name_char : ℕ → Bool
is_valid_name_char c =
    (leb 48 c && leb c 57) || ((leb 65 c && leb c 90) || ((leb 97 c && leb c 122) || (c == b'_')))

-- `none` is a return of 0. The argument is a C string.
unfoldable pub parse_choice_arg : Bytes → Option ℕ
parse_choice_arg [] = none
parse_choice_arg (c ∷ d ∷ ds) = none
parse_choice_arg (c ∷ []) =
    let u = to_upper c in
    if not (u == b'R') && (not (u == b'P') && not (u == b'S')) then none else some u

-- What `strtol` leaves must be the end of the text.
unfoldable pub in_range : ℤ → ℤ × Bytes → Option ℤ
in_range max_exclusive (parsed, c ∷ cs) = none
in_range max_exclusive (parsed, []) =
    if ltb_ℤ parsed (pos 0) || not (ltb_ℤ parsed max_exclusive) then none else some parsed

unfoldable pub parse_spawn_arg : Bytes → ℤ → Option ℤ
parse_spawn_arg value max_exclusive = scan_long value >>= in_range max_exclusive

unfoldable pub clamp_int : ℤ → ℤ → ℤ → ℤ
clamp_int value min_value max_value =
    if ltb_ℤ value min_value then min_value else if ltb_ℤ max_value value then max_value else value

-- 0.5f
unfoldable pub one_half : Float
one_half = of_ratio single false 1 2

unfoldable pub to_grid_coord : Float → ℤ
to_grid_coord value =
    if lt value zero_float then negsuc 0 else to_int single (add single value one_half)

unfoldable pub choice_label : ℕ → Bytes
choice_label c =
    if c == b'R'
    then text "Rock"
    else if c == b'P'
    then text "Paper"
    else if c == b'S'
    then text "Scissors"
    else text "-"

-- The rest of `maybe_send_hello` behind its send.
unfoldable pub hello_result : Bool × Ui → Ui
hello_result (false, u) = u
hello_result (true, u) = with_client u (
    set_status (record u.client { name_check_pending = true; state_request_sent = false })
      (text "Checking name '" ++ (u.client.pending_name ++ text "'...")))

unfoldable pub maybe_send_hello : (ℕ → Option ℕ) → Ui → Ui
maybe_send_hello sends u =
    let c = u.client in
    let asked = with_client u (record c { pending_name = name_copy c.name_input }) in
    if c.name_registered || (c.name_check_pending || not (is_set c.name_input))
    then u
    else hello_result
        (send_command_checked sends asked (text "HELLO " ++ asked.client.pending_name))

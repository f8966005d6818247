-- ===== src/Client/Ui/Keys.antt =====
-- The keys of the terminal client: the inner loop of `main` of src/client_text.c. A branch is a
-- function that returns `none` where its test fails and the code goes on to the next.
use rock_paper_scissors_batt.Base.{
  ℕ, zero, suc, ◌+◌, ◌-◌, List, [], ◌∷◌, ◌++◌, Option, none, some, Bool, true, false, not, ◌&&◌,
  ◌||◌, ltb, ◌==◌, if◌then◌else◌, length, take,
}
use rock_paper_scissors_batt.Base.Int.{ℤ, pos, negsuc}
use rock_paper_scissors_batt.State.{max_name_length, grid_w, grid_h}
use rock_paper_scissors_batt.Text.Bytes.{Bytes, text}
use rock_paper_scissors_batt.Text.Print.{print_nat}
use rock_paper_scissors_batt.Commands.{to_upper}
use rock_paper_scissors_batt.Client.{ClientState}
use rock_paper_scissors_batt.Client.Ui.{
  Key, code, key_left, key_right, key_up, key_down, key_backspace, key_enter, Ui, with_client,
  send_command_checked, is_valid_name_char, clamp_int, maybe_send_hello,
}

abbrev pub is_code : ℕ → Key → Bool
is_code c (code d) = d == c
is_code c _ = false

abbrev pub is_backspace : Key → Bool
is_backspace key_backspace = true
is_backspace k = is_code 127 k || is_code 8 k

abbrev pub is_enter : Key → Bool
is_enter key_enter = true
is_enter k = is_code 10 k || is_code 13 k

-- x + 1 and x - 1 of an int.
abbrev pub next : ℤ → ℤ
next (pos n) = pos (n + 1)
next (negsuc zero) = pos 0
next (negsuc (suc n)) = negsuc n

abbrev pub previous : ℤ → ℤ
previous (pos zero) = negsuc 0
previous (pos (suc n)) = pos n
previous (negsuc n) = negsuc (n + 1)

-- %d of an int
unfoldable pub print_int : ℤ → Bytes
print_int (pos n) = print_nat n
print_int (negsuc n) = b'-' ∷ print_nat (n + 1)

-- state.state_request_sent is set or reset where the line went out.
unfoldable pub if_sent : Bool → Bool × Ui → Ui
if_sent flag (false, u) = u
if_sent flag (true, u) = with_client u (record u.client { state_request_sent = flag })

unfoldable pub request_state : (ℕ → Option ℕ) → Ui → Ui
request_state sends u = if_sent true (send_command_checked sends u (text "GET_STATE"))

-- A command behind which the snapshot is to be asked for again.
unfoldable pub send_and_refresh : (ℕ → Option ℕ) → Ui → Bytes → Ui
send_and_refresh sends u line = if_sent false (send_command_checked sends u line)

-- Registered, in an open lobby, and not in the match.
unfoldable pub may_join : ClientState → Bool
may_join c =
    c.name_registered
    && (not c.game_over && (c.can_attempt_join && (not c.joined_match && not c.repick_phase)))

abbrev pub with_name : Ui → Bytes → Ui
with_name u name = with_client u (record u.client { name_input = name })

-- The keys of the name edit mode.
unfoldable pub edit_name : (ℕ → Option ℕ) → Ui → Key → Option Ui
edit_name sends u k =
    let name = u.client.name_input in
    if is_code 27 k
    then some (record u { name_edit_active = false })
    else if is_backspace k
    then some (with_name u (take (length name - 1) name))
    else if is_enter k
    then some (maybe_send_hello sends u)
    else elim k [
      | code c ↦
          if is_valid_name_char c
          then some (
              if ltb (length name) (max_name_length - 1) then with_name u (name ++ (c ∷ [])) else u)
          else none
      | _ ↦ none
    ]

unfoldable pub move_cursor : Ui → Key → Option Ui
move_cursor u key_left =
    some (record u { cursor_x = clamp_int (previous u.cursor_x) (pos 0) (pos (grid_w - 1)) })
move_cursor u key_right =
    some (record u { cursor_x = clamp_int (next u.cursor_x) (pos 0) (pos (grid_w - 1)) })
move_cursor u key_up =
    some (record u { cursor_y = clamp_int (previous u.cursor_y) (pos 0) (pos (grid_h - 1)) })
move_cursor u key_down =
    some (record u { cursor_y = clamp_int (next u.cursor_y) (pos 0) (pos (grid_h - 1)) })
move_cursor u _ = none

abbrev pub is_kind : ℕ → Bool
is_kind c = to_upper c == b'R' || (to_upper c == b'P' || to_upper c == b'S')

unfoldable pub choose : (ℕ → Option ℕ) → Ui → Key → Option Ui
choose sends u (code c) =
    if not (is_kind c)
    then none
    else if not u.client.game_over && u.client.repick_phase
    then some (send_and_refresh sends u (text "REPICK " ++ (to_upper c ∷ [])))
    else if may_join u.client
    then some (send_and_refresh sends u (text "CHOICE " ++ (to_upper c ∷ [])))
    else none
choose sends u _ = none

unfoldable pub spawn_line : ℤ → ℤ → Bytes
spawn_line x y = text "SPAWN " ++ (print_int x ++ (32 ∷ print_int y))

unfoldable pub place : (ℕ → Option ℕ) → Ui → Key → Option Ui
place sends u k =
    if (is_code 32 k || is_enter k) && may_join u.client
    then some (
        if u.client.choice_confirmed
        then send_and_refresh sends u (spawn_line u.cursor_x u.cursor_y)
        else u)
    else none

abbrev pub when : Bool → Ui → Option Ui
when true u = some u
when false u = none

abbrev pub is_letter : ℕ → Key → Bool
is_letter c k = is_code c k || is_code (c - 32) k

unfoldable pub first_key : Ui → List (Option Ui) → Ui
first_key u [] = u
first_key u (none ∷ rest) = first_key u rest
first_key u (some v ∷ rest) = v

-- A key that is not Q.
unfoldable pub press : (ℕ → Option ℕ) → Ui → Key → Ui
press sends u k =
    let new = not u.client.name_registered in
    first_key u (
      when (is_letter b'g' k) (request_state sends u)
      ∷ (when (new && is_letter b'u' k) (record u { name_edit_active = not u.name_edit_active })
          ∷ ((if new && u.name_edit_active then edit_name sends u k else none)
              ∷ (move_cursor u k
                  ∷ (when (is_letter b'h' k && new) (maybe_send_hello sends u)
                      ∷ (when (is_letter b'm' k && u.client.game_over)
                            (send_and_refresh sends u (text "REMATCH"))
                          ∷ (choose sends u k ∷ (place sends u k ∷ []))))))))

-- The loop over the keys that wait.
unfoldable pub handle_keys : (ℕ → Option ℕ) → List Key → Ui → Ui
handle_keys sends [] u = u
handle_keys sends (k ∷ ks) u =
    let v = record u { ch = some k } in
    elim (is_letter b'q' k) [
      | true ↦ record v { running = false }
      | false ↦ handle_keys sends ks (press sends v k)
    ]

-- ===== src/Client/Messages.antt =====
-- src/client_text_messages.c: the parsers of the server's lines. `now` is the value that
-- `rps_now_seconds` has while a line is handled. A branch of a parser is a function that returns
-- `none` where its test fails and the next branch is tried.
use rock_paper_scissors_batt.Base.{
  ℕ, ◌+◌, ◌-◌, List, [], ◌∷◌, ◌++◌, Option, none, some, Bool, true, false, ◌||◌, ◌==◌,
  if◌then◌else◌, ◌>>=◌,
}
use rock_paper_scissors_batt.Base.Int.{ℤ, pos, negsuc, ltb_ℤ}
use rock_paper_scissors_batt.Float.{Float, double, add, of_ratio}
use rock_paper_scissors_batt.State.{zero_float, minus_one, max_name_length}
use rock_paper_scissors_batt.Text.Bytes.{Bytes, text, bytes_eq, starts_with}
use rock_paper_scissors_batt.Text.Scan.{
  skip_spaces, scan_text, scan_word, scan_char, scan_float, scan_int,
}
use rock_paper_scissors_batt.Client.{
  ClientPlayer, ClientState, set_status, clear_players, find_player, get_or_add_player,
  update_player,
}

-- The result of the first branch that applies.
unfoldable pub first_branch : ClientState → List (Option ClientState) → ClientState
first_branch s [] = s
first_branch s (none ∷ rest) = first_branch s rest
first_branch s (some t ∷ rest) = t

-- A branch of a test.
abbrev pub on : Bool → ClientState → Option ClientState
on true t = some t
on false t = none

-- now + seconds: the integer is converted to a double.
unfoldable pub end_time : Float → ℤ → Float
end_time now (pos n) = add double now (of_ratio double false n 1)
end_time now (negsuc n) = add double now (of_ratio double true (n + 1) 1)

-- %31s
abbrev pub scan_name : Bytes → Option (Bytes × Bytes)
scan_name cs = scan_word (max_name_length - 1) cs

-- %d alone behind a word and a blank.
unfoldable pub scan_int_of : Bytes → Bytes → Option ℤ
scan_int_of word line = (do rest ← scan_text word line; (n, rest) ← scan_int rest; some n)

-- %31s alone behind a word and a blank.
unfoldable pub scan_name_of : Bytes → Bytes → Option Bytes
scan_name_of word line = (do rest ← scan_text word line; (n, rest) ← scan_name rest; some n)

-- What "PLAYER %31s %c %f %f %d %d" reads.
pub record PlayerLine : Type 0 where
  pub name : Bytes
  pub choice : ℕ
  pub x : Float
  pub y : Float
  pub alive : ℤ
  pub waiting : ℤ

unfoldable pub scan_player : Bytes → Option PlayerLine
scan_player line = do
  rest ← scan_text (text "PLAYER") line
  (name, rest) ← scan_name rest
  (choice, rest) ← scan_char (skip_spaces rest)
  (x, rest) ← scan_float rest
  (y, rest) ← scan_float rest
  (alive, rest) ← scan_int rest
  (waiting, rest) ← scan_int rest
  some (record { name = name; choice = choice; x = x; y = y; alive = alive; waiting = waiting })

unfoldable pub show_player : PlayerLine → List ClientPlayer → List ClientPlayer
show_player l ps =
    let r = get_or_add_player ps l.name in
    update_player r.0
      (λ p. record p { choice = l.choice; x = l.x; y = l.y; alive = l.alive; waiting = l.waiting })
      r.1

unfoldable pub own_choice : PlayerLine → ClientState → ClientState
own_choice l s =
    if bytes_eq l.name s.my_name
    then (if l.choice == b'R' || (l.choice == b'P' || l.choice == b'S')
        then record s { selected_choice = l.choice }
        else s)
    else s

unfoldable pub player_branch : ClientState → Bytes → Option ClientState
player_branch s line = do
  l ← scan_player line
  some (own_choice l (record s { players = show_player l s.players }))

unfoldable pub round_start_branch : Float → ClientState → Bytes → Option ClientState
round_start_branch now s line = do
  rest ← scan_text (text "ROUND_START") line
  (round_no, rest) ← scan_int rest
  (seconds, rest) ← scan_int rest
  some (
      set_status
        (record s {
          repick_phase = false;
          round_end_time = if ltb_ℤ (pos 0) seconds then end_time now seconds else zero_float;
          setup_end_time = zero_float;
        })
        (text "Match started"))

-- What "PAIR %31s %31s %c %c WINNER %31s MOVE %f %f" reads, without the two kinds.
pub record PairLine : Type 0 where
  pub name1 : Bytes
  pub name2 : Bytes
  pub winner : Bytes
  pub move_x : Float
  pub move_y : Float

-- "PAIR %31s %31s %c %c", and what follows it.
unfoldable pub scan_pair : Bytes → Option (Bytes × Bytes × Bytes)
scan_pair line = do
  rest ← scan_text (text "PAIR") line
  (name1, rest) ← scan_name rest
  (name2, rest) ← scan_name rest
  (c1, rest) ← scan_char (skip_spaces rest)
  (c2, rest) ← scan_char (skip_spaces rest)
  some (name1, name2, rest)

unfoldable pub scan_winner : Bytes → Option PairLine
scan_winner line = do
  (name1, name2, rest) ← scan_pair line
  rest ← scan_text (text "WINNER") (skip_spaces rest)
  (winner, rest) ← scan_name rest
  rest ← scan_text (text "MOVE") (skip_spaces rest)
  (x, rest) ← scan_float rest
  (y, rest) ← scan_float rest
  some (record { name1 = name1; name2 = name2; winner = winner; move_x = x; move_y = y })

-- Both indexes are found before either player is changed.
unfoldable pub show_pair : PairLine → Bytes → List ClientPlayer → List ClientPlayer
show_pair l loser ps =
    update_player (find_player ps loser)
      (λ p. record p { alive = pos 0; waiting = pos 0; x = minus_one; y = minus_one })
      (update_player (find_player ps l.winner)
        (λ p. record p { x = l.move_x; y = l.move_y; alive = pos 1; waiting = pos 0 }) ps)

unfoldable pub winner_branch : ClientState → Bytes → Option ClientState
winner_branch s line = do
  l ← scan_winner line
  let loser = if bytes_eq l.winner l.name1 then l.name2 else l.name1
  some (
      set_status (record s { players = show_pair l loser s.players })
        (l.winner ++ (text " beat " ++ loser)))

-- The text behind the fourth conversion is not counted by `sscanf`, so it is not tested.
unfoldable pub tie_branch : ClientState → Bytes → Option ClientState
tie_branch s line = do
  (name1, name2, rest) ← scan_pair line
  some (set_status s (name1 ++ (text " and " ++ (name2 ++ text " tied"))))

unfoldable pub pair_branch : ClientState → Bytes → Option ClientState
pair_branch s line =
    if starts_with (text "PAIR ") line
    then elim (winner_branch s line) [ some t ↦ some t | none ↦ tie_branch s line ]
    else none

unfoldable pub bye_branch : ClientState → Bytes → Option ClientState
bye_branch s line = do
  name ← scan_name_of (text "BYE") line
  some (set_status s (name ++ text " got a bye"))

unfoldable pub game_over_result : Bytes → ClientState → ClientState
game_over_result word s =
    if bytes_eq word (text "WIN")
    then set_status (record s { match_result = pos 1 }) (text "You won. Press M for rematch.")
    else if bytes_eq word (text "LOSE")
    then set_status (record s { match_result = negsuc 0 }) (text "You lost. Press M for rematch.")
    else set_status (record s { match_result = pos 0 }) (text "Game over. Press M for rematch.")

unfoldable pub game_over_branch : ClientState → Bytes → Option ClientState
game_over_branch s line = do
  word ← scan_name_of (text "GAME_OVER") line
  some (game_over_result word (record s { game_over = true; round_end_time = zero_float }))

unfoldable pub parse_state_snapshot_line : Float → ClientState → Bytes → ClientState
parse_state_snapshot_line now s line = first_branch s (
    on (bytes_eq line (text "STATE_BEGIN")) (clear_players s)
    ∷ (on (bytes_eq line (text "STATE_END")) s
        ∷ (player_branch s line
            ∷ (round_start_branch now s line
                ∷ (on (bytes_eq line (text "REPICK_START")) (
                      set_status (record s { repick_phase = true })
                        (text "Repick phase. Press R, P, or S."))
                    ∷ (on (bytes_eq line (text "REPICK_DONE"))
                          (set_status (record s { repick_phase = false }) (text "Repick finished"))
                        ∷ (pair_branch s line
                            ∷ (bye_branch s line ∷ (game_over_branch s line ∷ [])))))))))

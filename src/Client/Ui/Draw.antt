-- ===== src/Client/Ui/Draw.antt =====
-- What the terminal client shows: the drawing functions of src/client_text.c, as the list of their
-- calls of `mvprintw`. Clearing and refreshing the screen are left out.
use rock_paper_scissors_batt.Base.{
  ℕ, zero, suc, ◌+◌, ◌-◌, ◌*◌, List, [], ◌∷◌, ◌++◌, Bool, true, false, not, ◌&&◌, ◌||◌, ltb, ◌==◌,
  if◌then◌else◌, length, replicate,
}
use rock_paper_scissors_batt.Base.Int.{ℤ, pos, eqb_ℤ, ltb_ℤ}
use rock_paper_scissors_batt.Float.{Float, double, lt, add, sub, to_int, of_ratio}
use rock_paper_scissors_batt.State.{grid_w, grid_h}
use rock_paper_scissors_batt.Text.Bytes.{Bytes, text}
use rock_paper_scissors_batt.Text.Print.{print_float}
use rock_paper_scissors_batt.Client.{ClientPlayer, ClientState}
use rock_paper_scissors_batt.Client.General.{is_set}
use rock_paper_scissors_batt.Client.Ui.{to_grid_coord, choice_label}
use rock_paper_scissors_batt.Client.Ui.Keys.{print_int}

-- A call of mvprintw: the row, the column and the text.
pub record Drawn : Type 0 where
  pub row : ℕ
  pub column : ℕ
  pub shown : Bytes

abbrev pub at : ℕ → ℕ → Bytes → Drawn
at y x line = record { row = y; column = x; shown = line }

-- An int that is not 0.
abbrev pub is_true : ℤ → Bool
is_true z = not (eqb_ℤ z (pos 0))

-- A player that the grid shows, and where.
abbrev pub is_at : ℕ → ℕ → ClientPlayer → Bool
is_at x y p =
    p.used
    && ((is_true p.alive || is_true p.waiting)
        && (eqb_ℤ (to_grid_coord p.x) (pos x) && eqb_ℤ (to_grid_coord p.y) (pos y)))

-- The loop over the players of a cell, which ends at the first that stands there.
unfoldable pub marker_at : ℕ → ℕ → List ClientPlayer → ℕ
marker_at x y [] = b'.'
marker_at x y (p ∷ ps) =
    let rest = marker_at x y ps in
    if is_at x y p then (if not (p.choice == 0) then p.choice else b'?') else rest

unfoldable pub cell_text : Bool → ℕ → Bytes
cell_text true marker = text "[" ++ (marker ∷ text "]")
cell_text false marker = text " " ++ (marker ∷ text " ")

unfoldable pub draw_cell : List ClientPlayer → ℕ → ℕ → ℤ → ℤ → ℕ → ℕ → Drawn
draw_cell ps top left cursor_x cursor_y y x =
    at (top + y) (left + x * 3)
      (cell_text (eqb_ℤ (pos x) cursor_x && eqb_ℤ (pos y) cursor_y) (marker_at x y ps))

-- `n` cells of a row from `x` on, and `n` rows from `y` on.
unfoldable pub draw_row : List ClientPlayer → ℕ → ℕ → ℤ → ℤ → ℕ → ℕ → ℕ → List Drawn
draw_row ps top left cx cy y x zero = []
draw_row ps top left cx cy y x (suc n) =
    draw_cell ps top left cx cy y x ∷ draw_row ps top left cx cy y (x + 1) n

unfoldable pub draw_rows : List ClientPlayer → ℕ → ℕ → ℤ → ℤ → ℕ → ℕ → List Drawn
draw_rows ps top left cx cy y zero = []
draw_rows ps top left cx cy y (suc n) =
    draw_row ps top left cx cy y 0 grid_w ++ draw_rows ps top left cx cy (y + 1) n

unfoldable pub draw_grid : ClientState → ℕ → ℕ → ℤ → ℤ → List Drawn
draw_grid c top left cursor_x cursor_y =
    at (top - 1) left (text "Grid (10x10)")
    ∷ draw_rows c.players top left cursor_x cursor_y 0 grid_h

-- %-<n>s and %<n>s
unfoldable pub pad_right : ℕ → Bytes → Bytes
pad_right n line = line ++ replicate (n - length line) 32

unfoldable pub pad_left : ℕ → Bytes → Bytes
pad_left n line = replicate (n - length line) 32 ++ line

unfoldable pub life : ClientPlayer → Bytes
life p =
    if is_true p.alive
    then text "alive"
    else if is_true p.waiting
    then text "waiting"
    else text "out"

-- "%-10s %-9s (%4.1f,%4.1f) %-7s"
unfoldable pub player_row : ClientPlayer → Bytes
player_row p =
    pad_right 10 p.name
    ++ (text " "
        ++ (pad_right 9 (choice_label p.choice)
            ++ (text " ("
                ++ (pad_left 4 (print_float 1 p.x)
                    ++ (text ","
                        ++ (pad_left 4 (print_float 1 p.y)
                            ++ (text ") " ++ pad_right 7 (life p))))))))

-- The loop with `n` rows left.
unfoldable pub draw_players : List ClientPlayer → ℕ → ℕ → ℕ → List Drawn
draw_players [] row left n = []
draw_players (p ∷ ps) row left zero = []
draw_players (p ∷ ps) row left (suc n) = elim p.used [
  | true ↦ at row left (player_row p) ∷ draw_players ps (row + 1) left n
  | false ↦ draw_players ps row left (suc n)
]

-- `max_rows` counts the heading.
unfoldable pub draw_player_list : ClientState → ℕ → ℕ → ℕ → List Drawn
draw_player_list c top left max_rows =
    at top left (text "Players") ∷ draw_players c.players (top + 1) left (max_rows - 1)

-- (int)(end - now + 0.999)
unfoldable pub seconds_to : Float → Float → ℤ
seconds_to now end =
    to_int double (add double (sub double end now) (of_ratio double false 999 1000))

abbrev pub line_if : Bool → Drawn → List Drawn
line_if true d = d ∷ []
line_if false d = []

unfoldable pub result_text : ℤ → Bytes
result_text r =
    if ltb_ℤ (pos 0) r
    then text "You won"
    else if ltb_ℤ r (pos 0)
    then text "You lost"
    else text "Game over"

unfoldable pub shown_name : ClientState → Bytes
shown_name c =
    if c.name_registered
    then c.my_name
    else if is_set c.pending_name
    then c.pending_name
    else text "(not registered)"

unfoldable pub draw_status : Float → ClientState → ℕ → ℕ → List Drawn
draw_status now c top left =
    at (top + 0) left (text "Status: " ++ c.status_text)
    ∷ (at (top + 1) left (text "You: " ++ shown_name c)
        ∷ (at (top + 2) left (text "Selected choice: " ++ choice_label c.selected_choice)
            ∷ (line_if (not c.game_over && lt now c.lobby_end_time) (
                  at (top + 3) left
                    (text "Join window: " ++ print_int (seconds_to now c.lobby_end_time)))
                ++ (line_if (not c.game_over && lt now c.setup_end_time) (
                      at (top + 4) left
                        (text "Setup time left: " ++ print_int (seconds_to now c.setup_end_time)))
                    ++ (line_if (not c.game_over && (not c.repick_phase && lt now c.round_end_time))
                          (at (top + 5) left
                            (text "Round timer: " ++ print_int (seconds_to now c.round_end_time)))
                        ++ (line_if c.repick_phase
                              (at (top + 7) left (text "REPICK PHASE: press R/P/S"))
                            ++ line_if c.game_over (
                                at (top + 8) left (
                                  result_text c.match_result
                                  ++ text " (press M for rematch)"))))))))

-- A base below 0 is 0.
unfoldable pub draw_controls : ℕ → ℕ → Bool → List Drawn
draw_controls rows left name_edit_active =
    let base = rows - 7 in
    at (base + 0) left
      (text "Controls: U(toggle name edit) Enter(send name/spawn) Space(spawn) Arrows(move cursor)")
    ∷ (at (base + 1) left (text "R/P/S(select type or repick) M(rematch) G(refresh) Q(quit)")
        ∷ (at (base + 2) left
              (text "Name edit: " ++ (if name_edit_active then text "ON" else text "OFF"))
            ∷ []))

unfoldable pub render_ui : Float → ℕ → ℕ → ClientState → ℤ → ℤ → Bool → List Drawn
render_ui now rows cols c cursor_x cursor_y name_edit_active =
    let head =
      at 0 2 (text "RPS Battle Royale - client_text (ncursesw)")
      ∷ (at 1 2 (
            text "Spawn cursor: ("
            ++ (print_int cursor_x ++ (text "," ++ (print_int cursor_y ++ text ")"))))
          ∷ (at 2 2 (
                text "Name input: "
                ++ (c.name_input ++ (if name_edit_active then text "_" else [])))
              ∷ [])) in
    if ltb rows 22 || ltb cols 108
    then head ++ (at 4 2 (text "Terminal too small. Resize to at least 108x22.") ∷ [])
    else head
      ++ (draw_grid c 5 2 cursor_x cursor_y
          ++ (draw_player_list c 5 38 (rows - 13)
              ++ (draw_status now c 5 78 ++ draw_controls rows 2 name_edit_active)))

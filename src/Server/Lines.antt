-- ===== src/Server/Lines.antt =====
-- The lines of src/server_state.c and how they are queued.
use rock_paper_scissors_batt.Base.{
  ℕ, ◌-◌, List, [], ◌∷◌, ◌++◌, Bool, true, false, not, ◌&&◌, ◌||◌, leb, ◌==◌, if◌then◌else◌, length,
  take,
}
use rock_paper_scissors_batt.State.{
  Player, ServerState, Phase, lobby_open, setup, round_active, repick, game_over,
  player_is_admitted, max_line, max_name_length, round_seconds,
}
use rock_paper_scissors_batt.Text.Bytes.{Bytes, text, c_string}
use rock_paper_scissors_batt.Text.Print.{print_nat, print_flag, print_float}
use rock_paper_scissors_batt.Protocol.{queue_line}

abbrev space : Bytes
space = 32 ∷ []

-- A negative difference counts as 0.
unfoldable pub seconds_left : ServerState → ℕ → ℕ
seconds_left s deadline = deadline - s.now

-- The line is printed into a local buffer first, and printed from there as a C string.
unfoldable pub queue_line_checked : Player → Bytes → Bool × Player
queue_line_checked p line =
    if leb max_line (length line) then (false, p) else queue_line p (c_string line)

-- What is left of a line in the buffer of `queue_broadcast`.
unfoldable pub broadcast_text : Bytes → Bytes
broadcast_text line = c_string (take (max_line - 1) line)

-- Lines queued one after another, up to the first that fails.
unfoldable pub queue_lines : Player → List Bytes → Bool × Player
queue_lines p [] = (true, p)
queue_lines p (l ∷ ls) =
    let r = queue_line_checked p l in
    let rest = queue_lines r.1 ls in if r.0 then rest else (false, r.1)

-- "PLAYER %s %c %.3f %.3f %d %d"
unfoldable pub player_line : Player → Bytes
player_line p =
    text "PLAYER "
    ++ (p.name
        ++ (space
            ++ (((if p.choice_chosen then p.choice else b'?') ∷ [])
                ++ (space
                    ++ (print_float 3 p.x
                        ++ (space
                            ++ (print_float 3 p.y
                                ++ (space
                                    ++ (print_flag p.alive
                                        ++ (space ++ print_flag p.waiting))))))))))

-- "ROUND_START %d %d"
unfoldable pub round_line : ℕ → ℕ → Bytes
round_line round_no seconds =
    text "ROUND_START " ++ (print_nat round_no ++ (space ++ print_nat seconds))

abbrev pub round_start_line : ℕ → Bytes
round_start_line round_no = round_line round_no round_seconds

-- "LOBBY_OPEN %d" and "LOBBY_OPEN %ld"
unfoldable pub lobby_open_line : ℕ → Bytes
lobby_open_line seconds = text "LOBBY_OPEN " ++ print_nat seconds

unfoldable pub setup_open_line : ℕ → Bytes
setup_open_line seconds = text "SETUP_OPEN " ++ print_nat seconds

-- "LEFT %s", from a buffer of MAX_NAME_LENGTH bytes.
unfoldable pub left_line : Bytes → Bytes
left_line name = text "LEFT " ++ take (max_name_length - 1) name

unfoldable pub joined_line : Bytes → Bytes
joined_line name = text "JOINED " ++ name

unfoldable pub player_won_match : Player → Bool
player_won_match p = player_is_admitted p && (p.alive || p.waiting)

-- What `queue_game_over_result` queues: one line, or none to a player without a name.
unfoldable pub game_over_lines : Player → List Bytes
game_over_lines p =
    if not p.connected || not p.registered
    then []
    else if player_won_match p
    then text "GAME_OVER WIN" ∷ []
    else if player_is_admitted p
    then text "GAME_OVER LOSE" ∷ []
    else text "GAME_OVER" ∷ []

unfoldable pub phase_lines : Phase → ServerState → Player → List Bytes
phase_lines lobby_open s dst =
    if s.join_deadline == 0
    then text "LOBBY_WAITING" ∷ []
    else lobby_open_line (seconds_left s s.join_deadline) ∷ []
phase_lines setup s dst =
    text "LOBBY_CLOSED" ∷ (setup_open_line (seconds_left s s.setup_deadline) ∷ [])
phase_lines round_active s dst =
    text "LOBBY_CLOSED" ∷ (round_line s.round_no (seconds_left s s.round_deadline) ∷ [])
phase_lines repick s dst = text "LOBBY_CLOSED" ∷ (text "REPICK_START" ∷ [])
phase_lines game_over s dst = game_over_lines dst

unfoldable pub player_lines : List Player → List Bytes
player_lines [] = []
player_lines (p ∷ ps) =
    let rest = player_lines ps in if player_is_admitted p then player_line p ∷ rest else rest

-- A whole snapshot for `dst`.
unfoldable pub state_lines : ServerState → Player → List Bytes
state_lines s dst =
    text "STATE_BEGIN"
    ∷ (phase_lines s.phase s dst ++ (player_lines s.players ++ (text "STATE_END" ∷ [])))

-- ===== src/Client/General.antt =====
-- `parse_general_line` of src/client_text_messages.c, branch by branch.
use rock_paper_scissors_batt.Base.{
  List, [], ◌∷◌, ◌++◌, Option, none, some, Bool, true, false, ◌||◌, ◌>>=◌, if◌then◌else◌,
}
use rock_paper_scissors_batt.Base.Int.{pos}
use rock_paper_scissors_batt.Float.{Float}
use rock_paper_scissors_batt.State.{zero_float}
use rock_paper_scissors_batt.Text.Bytes.{Bytes, text, bytes_eq, starts_with}
use rock_paper_scissors_batt.Text.Print.{print_float}
use rock_paper_scissors_batt.Text.Scan.{skip_spaces, scan_text, scan_char, scan_float, scan_long}
use rock_paper_scissors_batt.Client.{
  ClientState, set_status, name_copy, clear_players, find_player, update_player,
}
use rock_paper_scissors_batt.Client.Messages.{on, first_branch, end_time, scan_int_of, scan_name_of}

-- name[0] != '\0'
abbrev pub is_set : Bytes → Bool
is_set [] = false
is_set (c ∷ cs) = true

-- The name under which the server knows this client now.
unfoldable pub welcomed : ClientState → ClientState
welcomed s =
    let named = if is_set s.pending_name then name_copy s.pending_name else s.my_name in
    set_status (record s { my_name = named; name_registered = true; name_check_pending = false })
      (text "Registered as " ++ (if is_set named then named else s.pending_name))

unfoldable pub welcome_branch : ClientState → Bytes → Option ClientState
welcome_branch s line = do id ← scan_int_of (text "WELCOME") line; some (welcomed s)

unfoldable pub match_was_reset : ClientState → ClientState
match_was_reset s =
    set_status
      (record (clear_players s) {
        repick_phase = false;
        game_over = false;
        can_attempt_join = true;
        joined_match = false;
        choice_confirmed = false;
        spawn_confirmed = false;
        selected_choice = 0;
        lobby_end_time = zero_float;
        setup_end_time = zero_float;
        round_end_time = zero_float;
        match_result = pos 0;
      })
      (text "Match reset. You are spectating again.")

unfoldable pub lobby_open_branch : Float → ClientState → Bytes → Option ClientState
lobby_open_branch now s line = do
  rest ← scan_text (text "LOBBY_OPEN") line
  (seconds, rest) ← scan_long rest
  some (
      set_status (record s { can_attempt_join = true; lobby_end_time = end_time now seconds })
        (text "Lobby open. Choose type and click a spawn tile."))

unfoldable pub setup_open_branch : Float → ClientState → Bytes → Option ClientState
setup_open_branch now s line = do
  seconds ← scan_int_of (text "SETUP_OPEN") line
  some (
      set_status (record s { setup_end_time = end_time now seconds })
        (text "Setup locked. Waiting for admitted players."))

unfoldable pub choice_ok_branch : ClientState → Bytes → Option ClientState
choice_ok_branch s line = do
  rest ← scan_text (text "CHOICE_OK") line
  (choice, rest) ← scan_char (skip_spaces rest)
  some (
      set_status (record s { selected_choice = choice; choice_confirmed = true })
        (text "Choice confirmed: " ++ (choice ∷ [])))

unfoldable pub spawn_ok_branch : ClientState → Bytes → Option ClientState
spawn_ok_branch s line = do
  rest ← scan_text (text "SPAWN_OK") line
  (x, rest) ← scan_float rest
  (y, rest) ← scan_float rest
  some (
      set_status (record s { spawn_confirmed = true })
        (text "Spawn confirmed at ("
          ++ (print_float 1 x ++ (text "," ++ (print_float 1 y ++ text ")")))))

-- The branches of the ERROR lines that have a text of their own.
unfoldable pub error_branches : ClientState → Bytes → List (Option ClientState)
error_branches s line =
    on (starts_with (text "ERROR spawn_taken") line)
      (set_status (record s { spawn_confirmed = false }) (text "Spawn taken. Click another tile."))
    ∷ (on (starts_with (text "ERROR lobby_closed") line) (
          set_status (record s { can_attempt_join = false })
            (text "Too late to join this match. Spectating only."))
        ∷ (on (starts_with (text "ERROR already_joined") line)
              (set_status s (text "Already joined this match."))
            ∷ (on (starts_with (text "ERROR rematch_not_available") line)
                  (set_status s (text "Rematch only works after GAME_OVER."))
                ∷ (on (starts_with (text "ERROR duplicate_name") line) (
                      set_status (record s { name_check_pending = false; name_registered = false })
                        (text "Name is taken. Try another name."))
                    ∷ (on (starts_with (text "ERROR already_registered") line) (
                          set_status
                            (record s { name_check_pending = false; name_registered = true })
                            (text "Name already registered on this connection."))
                        ∷ (on (starts_with (text "ERROR register_first") line) (
                              set_status (record s { name_registered = false })
                                (text "Set your name first."))
                            ∷ []))))))

unfoldable pub joined_status : ClientState → Option Bytes → ClientState
joined_status s none = s
joined_status s (some name) = set_status s (name ++ text " joined the match")

unfoldable pub left_branch : ClientState → Bytes → Option ClientState
left_branch s line = do
  name ← scan_name_of (text "LEFT") line
  some (
      set_status
        (record s {
          players =
              update_player (find_player s.players name) (λ p. record p { used = false }) s.players;
        })
        (name ++ text " left"))

-- The branches in front of those of the ERROR lines.
unfoldable pub match_branches : Float → ClientState → Bytes → List (Option ClientState)
match_branches now s line =
    welcome_branch s line
    ∷ (on (bytes_eq line (text "MATCH_RESET")) (match_was_reset s)
        ∷ (on (bytes_eq line (text "SPECTATING"))
              (set_status s (text "Spectating. Pick a type and click a tile if lobby is open."))
            ∷ (on (bytes_eq line (text "LOBBY_WAITING")) (
                  set_status (record s { can_attempt_join = true; lobby_end_time = zero_float })
                    (text "Lobby idle. Be the first player to join."))
                ∷ (lobby_open_branch now s line
                    ∷ (on (bytes_eq line (text "LOBBY_CLOSED")) (
                          set_status
                            (record s { can_attempt_join = false; lobby_end_time = zero_float })
                            (text "Lobby closed. Spectating only."))
                        ∷ (setup_open_branch now s line
                            ∷ (on
                                  (bytes_eq line (text "CHOOSE_TYPE")
                                    || starts_with (text "CHOOSE_SPAWN") line)
                                  (record s { can_attempt_join = true })
                                ∷ (choice_ok_branch s line
                                    ∷ (spawn_ok_branch s line
                                        ∷ (on (bytes_eq line (text "JOINED_MATCH")) (
                                              set_status
                                                (record s {
                                                  joined_match = true;
                                                  can_attempt_join = false;
                                                })
                                                (text "You joined the current match."))
                                            ∷ (on (starts_with (text "WAITING_FOR_OTHERS") line) (
                                                  set_status s
                                                    (text "Waiting for other admitted players."))
                                                ∷ [])))))))))))

unfoldable pub last_branches : ClientState → Bytes → List (Option ClientState)
last_branches s line =
    on (starts_with (text "JOINED ") line) (joined_status s (scan_name_of (text "JOINED") line))
    ∷ (left_branch s line ∷ (on (starts_with (text "ERROR ") line) (set_status s line) ∷ []))

unfoldable pub parse_general_line : Float → ClientState → Bytes → ClientState
parse_general_line now s line =
    first_branch s (match_branches now s line ++ (error_branches s line ++ last_branches s line))

-- ===== src/Client/Snapshot/Phases.antt =====
-- The lines of a snapshot that tell the phase, from `phase_lines` to the client's flags and clocks.
use rock_paper_scissors_batt.Base.{ℕ, ◌≡◌, refl, ◌∷◌, ◌++◌, some, true, false, if◌then◌else◌}
use rock_paper_scissors_batt.Base.Int.{ℤ, pos, negsuc, ltb_ℤ}
use rock_paper_scissors_batt.Float.{Float}
use rock_paper_scissors_batt.State.{zero_float}
use rock_paper_scissors_batt.Text.Bytes.{Bytes, text, bytes_eq, starts_with}
use rock_paper_scissors_batt.Text.Print.{print_nat}
use rock_paper_scissors_batt.Text.Scan.{
  scan_text, scan_word, word_result, take_word, skip_spaces, to_long, wrap_int,
}
use rock_paper_scissors_batt.Text.Numbers.Whole.{
  scan_long-last, scan_int-last, scan_int-print_nat, blank-Stops,
}
use rock_paper_scissors_batt.Server.Lines.{lobby_open_line, setup_open_line, round_line}
use rock_paper_scissors_batt.Client.{ClientState, set_status}
use rock_paper_scissors_batt.Client.Messages.{
  first_branch, end_time, scan_int_of, scan_name_of, parse_state_snapshot_line, player_branch,
  scan_player, round_start_branch, pair_branch, bye_branch, game_over_branch, game_over_result,
}
use rock_paper_scissors_batt.Client.General.{
  parse_general_line, match_branches, lobby_open_branch, setup_open_branch, welcome_branch,
}
use rock_paper_scissors_batt.Client.Dispatch.{
  dispatch_table, dispatch_from, line_matches, run_parser, handle_server_line,
}

-- The value that `%d` reads where `n` was printed.
unfoldable pub int_of : ℕ → ℤ
int_of n = wrap_int (to_long false n)

unfoldable pub lobby_opened : Float → ℕ → ClientState → ClientState
lobby_opened now n c =
    set_status
      (record c { can_attempt_join = true; lobby_end_time = end_time now (to_long false n) })
      (text "Lobby open. Choose type and click a spawn tile.")

branch-lobby_open :
    (now : Float) (n : ℕ) (c : ClientState)
    → lobby_open_branch now c (lobby_open_line n) ≡ some (lobby_opened now n c)
unfolding lobby_open_branch lobby_open_line lobby_opened scan_text text
branch-lobby_open now n c = rw (scan_long-last n) refl

dispatch-lobby_open :
    (now : Float) (c t : ClientState) (rest : Bytes)
    → lobby_open_branch now c (text "LOBBY_OPEN " ++ rest) ≡ some t
    → handle_server_line now c (text "LOBBY_OPEN " ++ rest) ≡ t
unfolding handle_server_line dispatch_table dispatch_from line_matches run_parser starts_with
    bytes_eq text parse_general_line match_branches first_branch welcome_branch scan_int_of
    scan_text
dispatch-lobby_open now c t rest e = rw e refl

pub handle-lobby_open :
    (now : Float) (n : ℕ) (c : ClientState)
    → handle_server_line now c (lobby_open_line n) ≡ lobby_opened now n c
unfolding lobby_open_line
handle-lobby_open now n c = dispatch-lobby_open now c _ (print_nat n) (branch-lobby_open now n c)

unfoldable pub setup_opened : Float → ℕ → ClientState → ClientState
setup_opened now n c =
    set_status (record c { setup_end_time = end_time now (int_of n) })
      (text "Setup locked. Waiting for admitted players.")

branch-setup_open :
    (now : Float) (n : ℕ) (c : ClientState)
    → setup_open_branch now c (setup_open_line n) ≡ some (setup_opened now n c)
unfolding setup_open_branch setup_open_line setup_opened scan_int_of scan_text text int_of
branch-setup_open now n c = rw (scan_int-last n) refl

dispatch-setup_open :
    (now : Float) (c t : ClientState) (rest : Bytes)
    → setup_open_branch now c (text "SETUP_OPEN " ++ rest) ≡ some t
    → handle_server_line now c (text "SETUP_OPEN " ++ rest) ≡ t
unfolding handle_server_line dispatch_table dispatch_from line_matches run_parser starts_with
    bytes_eq text parse_general_line match_branches first_branch welcome_branch lobby_open_branch
    scan_int_of scan_text
dispatch-setup_open now c t rest e = rw e refl

pub handle-setup_open :
    (now : Float) (n : ℕ) (c : ClientState)
    → handle_server_line now c (setup_open_line n) ≡ setup_opened now n c
unfolding setup_open_line
handle-setup_open now n c = dispatch-setup_open now c _ (print_nat n) (branch-setup_open now n c)

unfoldable pub round_started : Float → ℕ → ClientState → ClientState
round_started now seconds c =
    set_status
      (record c {
        repick_phase = false;
        round_end_time =
            if ltb_ℤ (pos 0) (int_of seconds) then end_time now (int_of seconds) else zero_float;
        setup_end_time = zero_float;
      })
      (text "Match started")

branch-round_start :
    (now : Float) (round_no seconds : ℕ) (c : ClientState)
    → round_start_branch now c (round_line round_no seconds) ≡ some (round_started now seconds c)
unfolding round_start_branch round_line round_started scan_text text int_of
branch-round_start now round_no seconds c =
    rw
      (
        scan_int-print_nat round_no (32 ∷ print_nat seconds) (blank-Stops (print_nat seconds)),
        scan_int-last seconds,
      )
      refl

dispatch-round_start :
    (now : Float) (c t : ClientState) (rest : Bytes)
    → round_start_branch now c (text "ROUND_START " ++ rest) ≡ some t
    → handle_server_line now c (text "ROUND_START " ++ rest) ≡ t
unfolding handle_server_line dispatch_table dispatch_from line_matches run_parser starts_with
    bytes_eq text parse_state_snapshot_line first_branch player_branch scan_player scan_text
dispatch-round_start now c t rest e = rw e refl

pub handle-round_start :
    (now : Float) (round_no seconds : ℕ) (c : ClientState)
    → handle_server_line now c (round_line round_no seconds) ≡ round_started now seconds c
unfolding round_line
handle-round_start now round_no seconds c =
    dispatch-round_start now c _ _ (branch-round_start now round_no seconds c)

-- The lines without numbers.
unfoldable pub lobby_shut : ClientState → ClientState
lobby_shut c =
    set_status (record c { can_attempt_join = false; lobby_end_time = zero_float })
      (text "Lobby closed. Spectating only.")

unfoldable pub lobby_waiting : ClientState → ClientState
lobby_waiting c =
    set_status (record c { can_attempt_join = true; lobby_end_time = zero_float })
      (text "Lobby idle. Be the first player to join.")

pub handle_lobby_lines :
    (now : Float) (c : ClientState)
    → (handle_server_line now c (text "LOBBY_CLOSED") ≡ lobby_shut c)
      × (handle_server_line now c (text "LOBBY_WAITING") ≡ lobby_waiting c)
unfolding handle_server_line dispatch_table dispatch_from line_matches run_parser starts_with
    bytes_eq text parse_general_line match_branches first_branch welcome_branch lobby_open_branch
    scan_int_of scan_text lobby_shut lobby_waiting
handle_lobby_lines now c = (refl, refl)

unfoldable pub finished : ℤ → ClientState → ClientState
finished result c = record c {
  game_over = true;
  round_end_time = zero_float;
  match_result = result;
}

-- A line of the game's end that names a result is understood; the bare one is not.
pub handle_game_over_lines :
    (now : Float) (c : ClientState)
    → (handle_server_line now c (text "GAME_OVER WIN")
        ≡ set_status (finished (pos 1) c) (text "You won. Press M for rematch."))
      × (handle_server_line now c (text "GAME_OVER LOSE")
          ≡ set_status (finished (negsuc 0) c) (text "You lost. Press M for rematch."))
      × (handle_server_line now c (text "GAME_OVER") ≡ c)
unfolding handle_server_line dispatch_table dispatch_from line_matches run_parser starts_with
    bytes_eq text parse_state_snapshot_line first_branch player_branch scan_player scan_text
    round_start_branch pair_branch bye_branch game_over_branch game_over_result scan_name_of
    scan_word word_result take_word skip_spaces finished
handle_game_over_lines now c = (refl, refl, refl)

pub handle_repick_start :
    (now : Float) (c : ClientState)
    → handle_server_line now c (text "REPICK_START")
      ≡ set_status (record c { repick_phase = true }) (text "Repick phase. Press R, P, or S.")
unfolding handle_server_line dispatch_table dispatch_from line_matches run_parser starts_with
    bytes_eq text parse_state_snapshot_line first_branch player_branch scan_player scan_text
    round_start_branch
handle_repick_start now c = refl

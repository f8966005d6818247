-- ===== src/Tests/Client.antt =====
-- The client's properties at concrete matches.
use rock_paper_scissors_batt.Base.{
  ℕ, zero, suc, sym, ◌≡◌, ◌≢◌, refl, List, [], ◌∷◌, ◌++◌, none, some, true, false, arith, length,
  get_or, replicate, ◌-◌,
}
use rock_paper_scissors_batt.State.{
  Player, player, empty_slot, max_players, round_active, player_is_admitted, zero_player,
}
use rock_paper_scissors_batt.Text.Bytes.{Bytes, text, codes}
use rock_paper_scissors_batt.Text.Bytes.{c_string}
use rock_paper_scissors_batt.Text.Print.{
  print_flag, print_float, in_places, print_places, print_nat, print_digits, pad_digits, sign_text,
}
use rock_paper_scissors_batt.Float.{round_to}
use rock_paper_scissors_batt.Protocol.{newline, queue_line}
use rock_paper_scissors_batt.Server.Lines.{
  queue_lines, queue_line_checked, state_lines, phase_lines, seconds_left, player_lines,
  player_line, round_line,
}
use rock_paper_scissors_batt.Match.Moves.{NamesDiffer}
use rock_paper_scissors_batt.Server.{queue_game_state_for_player}
use rock_paper_scissors_batt.Client.{ClientState, init_client_state, zero_client}
use rock_paper_scissors_batt.Client.PlayerLine.{IsWord}
use rock_paper_scissors_batt.Client.Pump.{pump_client_network}
use rock_paper_scissors_batt.Client.Pump.Stream.{concat}
use rock_paper_scissors_batt.Client.Pump.Chunks.{arrives}
use rock_paper_scissors_batt.Client.Snapshot.{views}
use rock_paper_scissors_batt.Client.Snapshot.Told.{Tells}
use rock_paper_scissors_batt.Client.Snapshot.Delivered.{snapshot_delivered}
use rock_paper_scissors_batt.Client.Pump.Chunks.{pump_chunks}
use rock_paper_scissors_batt.Client.Pump.Ends.{Pumped, pump_client_network_ends}
use rock_paper_scissors_batt.Client.Pump.{input, select_interrupted, no_input}
use rock_paper_scissors_batt.Client.Pump.Stream.{IsText}
use rock_paper_scissors_batt.Client.Snapshot.Clean.{clean-IsText}
use rock_paper_scissors_batt.Client.Snapshot.{handle_all}
use rock_paper_scissors_batt.Client.Dispatch.{handle_server_line}
use rock_paper_scissors_batt.Client.Inv.{ClientInv, cleared-TableInv}
use rock_paper_scissors_batt.Client.Inv.Lines.{handle_server_line-ClientInv}
use rock_paper_scissors_batt.Text.Clean.{all_clean}
use rock_paper_scissors_batt.Protocol.{received}
use rock_paper_scissors_batt.Protocol.Framing.{frames}
use rock_paper_scissors_batt.Base.{◌+◌, ◌*◌}
use rock_paper_scissors_batt.Base.Int.{pos}
use rock_paper_scissors_batt.Text.Scan.{
  scan_long, scan_signed, scan_sign, scan_digits, digit_value, to_long, skip_spaces,
}
use rock_paper_scissors_batt.Client.Ui.{
  key_right, code, AutoJoinConfig, Ui, parse_choice_arg, parse_spawn_arg, in_range,
}
use rock_paper_scissors_batt.Client.Ui.Main.{
  no_auto_join, parse_args, parse_auto_join, Frame, run_frames, start,
}
use rock_paper_scissors_batt.Client.Ui.Inv.{UiInv}
use rock_paper_scissors_batt.Client.Ui.Runs.{client_runs}
use rock_paper_scissors_batt.Client.Ui.Draw.{Drawn, at, draw_grid}
use rock_paper_scissors_batt.Client.Ui.Grid.{Marks, CellText, draw_grid_cells}
use rock_paper_scissors_batt.State.{ServerState, lobby_open, player_is_registered}
use rock_paper_scissors_batt.Text.Bytes.{bytes_eq}
use rock_paper_scissors_batt.Text.Scan.{scan_word, word_result, take_word}
use rock_paper_scissors_batt.Match.{choose_spawn_line, reset_player_progress}
use rock_paper_scissors_batt.Match.Live.{nested}
use rock_paper_scissors_batt.Commands.{
  handle_command, handle_hello_command, find_name, welcome, register, tell, lobby_status_lines,
}
use rock_paper_scissors_batt.Client.Handshake.{Settled, hello_agrees}
use rock_paper_scissors_batt.Tests.{bob, two_players, arena, arena-Inv, one, nobody_on}

-- Bob's client and its connection.
abbrev net : Player
net = record zero_player { fd = 7 }

abbrev fresh : ClientState
fresh = init_client_state (text "bob")

-- The snapshot of the match of Ann and Bob, in two pieces.
abbrev pieces : List Bytes
pieces =
    (codes "STATE_BEGIN" ++ (newline ∷ codes "LOBBY_CLO"))
    ∷ ((codes "SED"
          ++ (newline
              ∷ (codes "ROUND_START 1 5"
                  ++ (newline
                      ∷ (codes "PLAYER ann R 1.000 1.000 1 0"
                          ++ (newline
                              ∷ (codes "PLAYER bob S 3.000 1.000 1 0"
                                  ++ (newline ∷ (codes "STATE_END" ++ (newline ∷ []))))))))))
        ∷ [])

ann-IsWord : IsWord (text "ann")
unfolding text
ann-IsWord = record {
  some_byte = λ e. cc;
  fits = omega arith;
  no_space = (refl, (refl, (refl, tt)));
  no_nul = ((λ e. ground arith), ((λ e. ground arith), ((λ e. ground arith), tt)));
}

bob-IsWord : IsWord (text "bob")
unfolding text
bob-IsWord = record {
  some_byte = λ e. cc;
  fits = omega arith;
  no_space = (refl, (refl, (refl, tt)));
  no_nul = ((λ e. ground arith), ((λ e. ground arith), ((λ e. ground arith), tt)));
}

nobody_admitted :
    (n k : ℕ) → player_is_admitted (get_or (replicate n empty_slot) k empty_slot) ≡ false
unfolding player_is_admitted
nobody_admitted n k = rw (nobody_on n k) refl

two_names :
    (k : ℕ)
    → player_is_admitted (get_or two_players k empty_slot) ≡ true
    → IsWord (get_or two_players k empty_slot).name
two_names zero h = ann-IsWord
two_names (suc zero) h = bob-IsWord
two_names (suc (suc k)) h = absurd (let off = nobody_admitted 30 k in cc)

two_differ : text "ann" ≢ text "bob"
unfolding text
two_differ e = ground (arith, e)

arena_names : NamesDiffer arena
arena_names zero zero ne a b e = ne refl
arena_names zero (suc zero) ne a b e = two_differ e
arena_names (suc zero) zero ne a b e = two_differ (sym e)
arena_names (suc zero) (suc zero) ne a b e = ne refl
arena_names (suc (suc i)) j ne (on, _) b e = let off = nobody_on 30 i in cc
arena_names i (suc (suc j)) ne a (on, _) e = let off = nobody_on 30 j in cc

snapshot_queued : (queue_game_state_for_player arena 1).0 ≡ true
unfolding queue_game_state_for_player queue_lines queue_line_checked state_lines phase_lines
    seconds_left player_lines player_line print_flag round_line text c_string print_float in_places
    print_places print_nat print_digits pad_digits sign_text round_to player_is_admitted queue_line
    empty_slot
snapshot_queued = refl

snapshot_bytes : concat pieces ≡ (player (queue_game_state_for_player arena 1).1 1).outbuf
unfolding queue_game_state_for_player queue_lines queue_line_checked state_lines phase_lines
    seconds_left player_lines player_line print_flag round_line text c_string print_float in_places
    print_places print_nat print_digits pad_digits sign_text round_to player_is_admitted queue_line
    empty_slot
snapshot_bytes = refl

snapshot_delivered_example :
    (t : ClientState) × (pump_client_network (arrives one pieces) net fresh ≡ some (net, t))
    × (t.players
        ≡ views two_players ++ replicate (max_players - length (views two_players)) zero_client)
    × Tells round_active one arena bob fresh t
snapshot_delivered_example =
    snapshot_delivered one arena 1 net fresh pieces arena-Inv arena_names two_names (omega arith)
      snapshot_queued refl refl ((omega arith, omega arith), ((omega arith, omega arith), tt))
      snapshot_bytes

-- Bob is there, and a second client asks for the name ann.
abbrev reception : ServerState
reception = record arena {
  phase = lobby_open;
  players = bob ∷ (record zero_player { connected = true; id = 2 } ∷ []);
}

abbrev asking : ClientState
asking = record fresh { pending_name = text "ann"; name_check_pending = true }

abbrev greeting : List Bytes
greeting =
    (codes "WELCOME 2" ++ (newline ∷ codes "SPECT"))
    ∷ ((codes "ATING"
          ++ (newline
              ∷ (codes "CHOOSE_TYPE"
                  ++ (newline
                      ∷ (codes "CHOOSE_SPAWN 10 10"
                          ++ (newline ∷ (codes "LOBBY_WAITING" ++ (newline ∷ []))))))))
        ∷ [])

greeting_bytes :
    concat greeting ≡ (player (handle_hello_command reception 1 (some (text "ann"))) 1).outbuf
unfolding handle_hello_command find_name welcome register tell lobby_status_lines text bytes_eq
    scan_word word_result take_word skip_spaces choose_spawn_line reset_player_progress print_nat
    print_digits queue_line player_is_registered
greeting_bytes = refl

hello_agrees_example :
    let t = handle_hello_command reception 1 (some (text "ann")) in
    (d : ClientState) × (handle_command nested reception 1 (text "HELLO " ++ text "ann") ≡ some t)
    × (pump_client_network (arrives one greeting) net asking ≡ some (net, d))
    × Settled (text "ann") reception (player t 1) d
hello_agrees_example =
    hello_agrees nested one reception 1 (text "ann") net asking greeting (omega arith) ann-IsWord
      refl refl (omega arith) (omega arith) refl refl
      ((omega arith, omega arith), ((omega arith, omega arith), tt)) greeting_bytes

fresh-ClientInv : ClientInv fresh
unfolding init_client_state text
fresh-ClientInv = record {
  table = cleared-TableInv;
  status_fits = omega arith;
  input_fits = omega arith;
  pending_fits = omega arith;
  mine_fits = omega arith;
}

abbrev bye : Bytes
bye = codes "LEFT ann"

bye_clean : IsText bye
unfolding all_clean
bye_clean = clean-IsText bye bye_bytes (omega arith)
  where
    bye_bytes : all_clean bye ≡ true
    bye_bytes = refl

pump_chunks_example :
    pump_client_network
      (arrives one ((codes "FT ann" ++ (newline ∷ [])) ∷ []))
      (record net { inbuf = codes "LE" })
      fresh
    ≡ some (net, handle_all one fresh (bye ∷ []))
unfolding frames
pump_chunks_example =
    pump_chunks one ((codes "FT ann" ++ (newline ∷ [])) ∷ []) (bye ∷ [])
      (record net { inbuf = codes "LE" }) fresh ((omega arith, omega arith), tt) (bye_clean, tt)
      (omega arith) ((λ e. ground arith), ((λ e. ground arith), tt)) refl

handle_server_line-ClientInv_example : ClientInv (handle_server_line one fresh bye)
handle_server_line-ClientInv_example = handle_server_line-ClientInv one fresh bye fresh-ClientInv

pump_client_network_ends_example : Pumped net (
    pump_client_network
      ((input one (received (codes "STATE_BEGIN")) ∷ (select_interrupted ∷ [])) ++ (no_input ∷ []))
      net
      fresh)
pump_client_network_ends_example =
    pump_client_network_ends
      (input one (received (codes "STATE_BEGIN")) ∷ (select_interrupted ∷ [])) net fresh
      (omega arith) fresh-ClientInv

-- The arguments `bob r 3 7`.
abbrev bobs_plan : AutoJoinConfig
bobs_plan = record no_auto_join { enabled = true; choice = 82; spawn_x = pos 3; spawn_y = pos 7 }

abbrev bobs_args : List Bytes
bobs_args = codes "bob" ∷ (codes "r" ∷ (codes "3" ∷ (codes "7" ∷ [])))

bobs_args_parsed : parse_args bobs_args ≡ some (codes "bob", bobs_plan)
unfolding parse_args parse_auto_join parse_choice_arg parse_spawn_arg in_range scan_long scan_signed
    scan_sign scan_digits digit_value to_long skip_spaces
bobs_args_parsed = refl

abbrev one_frame : List Frame
one_frame =
    record {
      ready = input one (received (codes "WELCOME 2" ++ (newline ∷ []))) ∷ (no_input ∷ []);
      keys = key_right ∷ (code b'q' ∷ []);
    }
    ∷ []

client_runs_example :
    (t : Ui) × (run_frames (λ k. none) one_frame (start (λ k. none) 7 (codes "bob") bobs_plan)
      ≡ some t)
    × UiInv t
client_runs_example =
    client_runs (λ k. none) 7 bobs_args (codes "bob") bobs_plan one_frame bobs_args_parsed
      ((input one (received (codes "WELCOME 2" ++ (newline ∷ []))) ∷ [], refl), tt)

abbrev nothing_drawn : Drawn
nothing_drawn = at 0 0 []

draw_grid_cells_example :
    (m : ℕ) × (line : Bytes) × (get_or
        (draw_grid fresh 5 2 (pos 3) (pos 7))
        (1 + (7 * 10 + 3))
        nothing_drawn
      ≡ record { row = 12; column = 11; shown = line })
    × CellText 3 7 (pos 3) (pos 7) m line
    × Marks 3 7 fresh.players m
draw_grid_cells_example =
    draw_grid_cells fresh 5 2 3 7 (pos 3) (pos 7) nothing_drawn (omega arith) (omega arith)

-- ===== src/Tests.antt =====
-- Runs of the models at fixed inputs, and the properties at concrete matches.
mod Client
use rock_paper_scissors_batt.Base.{
  ◌==◌, count_if, ℕ, zero, suc, ◌+◌, ◌*◌, ◌^◌, ◌<◌, ◌≤◌, ◌≡◌, ◌≢◌, ◌↔◌, ◌⊎◌, inl, inr, refl, List,
  [], ◌∷◌, ◌++◌, none, some, true, false, ◌&&◌, if◌then◌else◌, arith, length, get_or, replicate,
  set, occurrences, ltb,
}
use rock_paper_scissors_batt.Base.Int.{pos, negsuc, ltb_ℤ}
use rock_paper_scissors_batt.Float.{Float, nan, finite, single, sqrt, div, of_ℕ, of_ratio}
use rock_paper_scissors_batt.Text.Bytes.{Bytes, text, c_string}
use rock_paper_scissors_batt.Text.Print.{print_float}
use rock_paper_scissors_batt.Text.Scan.{scan_float, skip_spaces, take_word, scan_word}
use rock_paper_scissors_batt.State.{minus_one}
use rock_paper_scissors_batt.State.{
  put, game_over, Player, ServerState, lobby_open, round_active, repick, player, slots, max_players,
  zero_player, empty_slot, round_seconds, player_is_alive, player_is_admitted, max_line,
}
use rock_paper_scissors_batt.Game.{
  init_server_state, all_admitted_ready, all_alive_same_choice, admitted_count, active_alive_count,
  start_round, rps_result,
}
use rock_paper_scissors_batt.Game.Counts.{
  all_admitted_ready_iff, all_alive_same_choice_iff, start_round-Entered, Entered,
}
use rock_paper_scissors_batt.Game.Pairs.{
  build_pairs, outer_loop, inner_loop, keep_better, is_better, BestPair, dist2, candidate, collect,
}
use rock_paper_scissors_batt.Game.Pairs.Cover.{build_pairs_cover, members, bye_list}
use rock_paper_scissors_batt.Game.Pairs.Nearest.{IsPairOf, outer_loop_nearest}
use rock_paper_scissors_batt.Chase.{
  simulate_chase_tick, find_nearest_prey, prey_loop, is_prey, update_best, can_eat,
  count_choice_types_alive,
}
use rock_paper_scissors_batt.Chase.Choice.{
  IsChoice, OneKind, rps_result-can_eat, simulate_chase_tick-OneKind,
}
use rock_paper_scissors_batt.Chase.Tick.{Hunted, simulate_chase_tick-Hunted}
use rock_paper_scissors_batt.Protocol.{
  queue_line, newline, Send, sent, send_would_block, send_error, FlushRun, flush_player_output,
  would_block, received, read_into_player_buffer, pop_line, line_length, find_newline,
  player_has_pending_output,
}
use rock_paper_scissors_batt.Protocol.{send_line, gives}
use rock_paper_scissors_batt.Protocol.SendLine.{Sends, send_line-Sends}
use rock_paper_scissors_batt.Protocol.Buffers.{
  FitsBuffers, queue_line_lem, WasRead, read_into_player_buffer_lem, pop_line_bounds,
}
use rock_paper_scissors_batt.Protocol.Framing.{
  IsLine, frames, queue_all, pop_all, framing_roundtrip,
}
use rock_paper_scissors_batt.Protocol.Flush.{
  FlushSpec, flush_player_output-FlushSpec, flush_player_output_ends,
}
use rock_paper_scissors_batt.Server.Snapshot.{Whole, queue_game_state-Whole}
use rock_paper_scissors_batt.Server.{
  queue_game_state_for_player, reevaluate_state, reevaluate_at, count_alive_choice_types,
  queue_broadcast, queue_each,
}
use rock_paper_scissors_batt.Server.Lines.{broadcast_text, state_lines}
use rock_paper_scissors_batt.Server.Slots.{SlotInv, Inv, Goes, fd_count}
use rock_paper_scissors_batt.Server.Knot.{reevaluate_state_ends}
use rock_paper_scissors_batt.Server.Counts.{count_choice_types-agree}
use rock_paper_scissors_batt.Match.{
  advance_match_timers, close_lobby_if_needed, maybe_admit_player, resolve_round, reset_match,
}
use rock_paper_scissors_batt.Match.Moves.{Moves, NamesDiffer}
use rock_paper_scissors_batt.Match.Phases.{IsStarted}
use rock_paper_scissors_batt.Match.Live.{
  nested, advance_match_timers_ends, close_lobby_starts, maybe_admit_player_ends,
}
use rock_paper_scissors_batt.Commands.{
  off_grid, handle_command, parse_command, args_of, cmd_size, blank, skip_blanks, add_player,
  init_player_slot, spawn_taken, parse_rps_choice_arg,
}
use rock_paper_scissors_batt.Match.Resolve.{Resolved, resolve_round_ends}
use rock_paper_scissors_batt.Match.Rematch.{reset_match-IsOut}
use rock_paper_scissors_batt.Loop.Select.{build_select_sets_lem, reads_on, writes_on, Bounded}
use rock_paper_scissors_batt.Match.Deadline.{broadcast_clears_deadline}
use rock_paper_scissors_batt.Commands.Grid.{OnAxis, off_grid_iff}
use rock_paper_scissors_batt.Commands.Slots.{add_player_first_free}
use rock_paper_scissors_batt.Commands.Spawn.{Takes, spawn_taken_iff}
use rock_paper_scissors_batt.Commands.Parse.{
  blanks, parse_command_roundtrip, parse_rps_choice_arg-IsChoice,
}
use rock_paper_scissors_batt.Commands.Dispatch.{handle_command_ends}
use rock_paper_scissors_batt.Loop.{
  build_select_sets, Pass, selected, interrupted, accepted, run, Main,
}
use rock_paper_scissors_batt.Loop.Runs.{opened_in, server_runs, start_main, Left}

-- 1.0 and 3.0
abbrev one : Float
one = finite false ((2 ^ 149))

abbrev three : Float
three = finite false ((3 * 2 ^ 149))

abbrev ann : Player
ann = record zero_player {
  fd = 5;
  id = 1;
  connected = true;
  registered = true;
  admitted = true;
  alive = true;
  in_round = true;
  choice_chosen = true;
  spawn_chosen = true;
  name = text "ann";
  choice = 82;
  x = one;
  y = one;
}

abbrev bob : Player
bob = record ann { fd = 6; id = 2; name = text "bob"; choice = 83; x = three }

abbrev two_players : List Player
two_players = ann ∷ (bob ∷ replicate 30 empty_slot)

-- Ann and Bob in a round.
abbrev arena : ServerState
arena = record {
  players = two_players;
  next_id = 3;
  round_no = 1;
  phase = round_active;
  join_deadline = 0;
  setup_deadline = 0;
  round_deadline = 65;
  now = 60;
  closed = [];
}

-- The same two in a lobby whose time is up.
abbrev lobby : ServerState
lobby = record arena { phase = lobby_open; join_deadline = 60 }

ann-SlotInv : SlotInv ann
ann-SlotInv = record {
  admitted_ready = λ h. (refl, refl, refl);
  alive_admitted = λ h. refl;
  waiting_admitted = λ h. refl;
  chosen = λ h. inl refl;
  repicked = λ h. absurd (cc);
  fits = record { in_fits = omega arith; out_fits = omega arith };
}

bob-SlotInv : SlotInv bob
bob-SlotInv = record {
  admitted_ready = λ h. (refl, refl, refl);
  alive_admitted = λ h. refl;
  waiting_admitted = λ h. refl;
  chosen = λ h. inr (inr refl);
  repicked = λ h. absurd (cc);
  fits = record { in_fits = omega arith; out_fits = omega arith };
}

nobody_on : (n k : ℕ) → (get_or (replicate n empty_slot) k empty_slot).connected ≡ false
unfolding empty_slot
nobody_on zero k = refl
nobody_on (suc n) zero = refl
nobody_on (suc n) (suc k) = nobody_on n k

two-SlotInv :
    (k : ℕ)
    → (get_or two_players k empty_slot).connected ≡ true
    → SlotInv (get_or two_players k empty_slot)
two-SlotInv zero h = ann-SlotInv
two-SlotInv (suc zero) h = bob-SlotInv
two-SlotInv (suc (suc k)) h = absurd (let off = nobody_on 30 k in cc)

arena-Inv : Inv arena
arena-Inv = record { size = refl; each = two-SlotInv }

lobby-Inv : Inv lobby
lobby-Inv = record { size = refl; each = two-SlotInv }

-- A client connects and says HELLO.
abbrev hello_pass : Pass
hello_pass = selected (record {
  now = 7;
  clock = one;
  accept = accepted 5;
  readable = λ fd. true;
  writable = λ fd. false;
  recv = λ i. received (text "HELLO ann" ++ (newline ∷ []));
  send = λ i k. send_would_block;
})

abbrev passes : List Pass
passes = hello_pass ∷ (interrupted ∷ [])

-- Runs.
print_one : print_float 1 one ≡ text "1.0"
unfolding print_float text
print_one = refl

sqrt_two : sqrt single (of_ℕ single 2) ≡ finite false 1009216504673232904412793275744242370726592512
unfolding sqrt of_ℕ
sqrt_two = refl

a_third :
    div single (of_ℕ single 1) (of_ℕ single 3)
    ≡ finite false 237874622540209291029265650395220177558962176
unfolding div of_ℕ
a_third = refl

print_tenth : print_float 3 (of_ratio single false 1 10) ≡ text "0.100"
unfolding print_float of_ratio text
print_tenth = refl

scan_one : scan_float (text " 1.0 2") ≡ some (one, text " 2")
unfolding scan_float skip_spaces text
scan_one = refl

scan_name : scan_word 31 (text "  ann x") ≡ some (text "ann", text " x")
unfolding scan_word skip_spaces take_word text
scan_name = refl

rock_beats_scissors : find_nearest_prey arena 0 ≡ some 1
unfolding find_nearest_prey player_is_alive prey_loop is_prey empty_slot can_eat update_best
rock_beats_scissors = refl

-- The properties at these inputs.
server_runs_example :
    (m : Main) × (finished : List Pass) × (rest : List Pass) × (run nested true passes
        (start_main 7 one)
      ≡ some m)
    × (finished ++ rest ≡ passes)
    × ((rest ≡ []) ⊎ Left true m)
    × Inv m.state
    × NamesDiffer m.state
    × (m.state.phase ≢ repick)
    × ((v : ℕ) → fd_count v m.state ≡ occurrences v (opened_in finished))
server_runs_example = server_runs 7 one true passes

handle_command_ends_example :
    (t : ServerState) × (handle_command nested arena 1 (text "QUIT") ≡ some t) × Moves arena t
handle_command_ends_example = handle_command_ends arena 1 (text "QUIT") arena-Inv

advance_match_timers_ends_example :
    (last' : Float) × (t : ServerState) × (advance_match_timers nested three one one arena
      ≡ some (last', t))
    × Moves arena t
advance_match_timers_ends_example = advance_match_timers_ends arena three one one arena-Inv

close_lobby_starts_example :
    (t : ServerState) × (close_lobby_if_needed nested lobby ≡ some t) × Moves lobby t × IsStarted t
close_lobby_starts_example = close_lobby_starts lobby lobby-Inv refl (λ e. cc) (omega arith)

reevaluate_state_ends_example :
    (t : ServerState) × (reevaluate_state (reevaluate_at max_players) arena ≡ some t) × Goes arena t
reevaluate_state_ends_example = reevaluate_state_ends arena arena-Inv

simulate_chase_tick-Hunted_example : Hunted arena (simulate_chase_tick arena one).1
simulate_chase_tick-Hunted_example = simulate_chase_tick-Hunted arena one

simulate_chase_tick-OneKind_example :
    ((simulate_chase_tick arena one).0 ≡ true) ↔ OneKind (simulate_chase_tick arena one).1
simulate_chase_tick-OneKind_example = simulate_chase_tick-OneKind arena one

build_pairs_cover_example :
    let r = build_pairs arena 16 in
    ((v : ℕ)
      → occurrences v (members r.0) + occurrences v (bye_list r.1)
        ≡ (if player_is_alive (player arena v) && (player arena v).in_round then 1 else 0))
    × (length (collect 0 arena.players) ≡ 2 * length r.0 + length (bye_list r.1))
build_pairs_cover_example = build_pairs_cover arena 16 (omega arith)

abbrev nearest_two : BestPair
nearest_two = record { i = 0; j = 1; a = 0; b = 1; d = dist2 ann bob }

outer_loop_nearest_example :
    IsPairOf arena (0 ∷ (1 ∷ [])) (candidate arena 0 1 0 1)
    × ((k l : ℕ)
        → k < l
        → l < 2
        → let c = candidate arena k l (get_or (0 ∷ (1 ∷ [])) k 0) (get_or (0 ∷ (1 ∷ [])) l 0) in
          (ltb_ℤ c.d (dist2 ann bob) ≡ false)
          × (c.d ≡ dist2 ann bob → ltb (player arena c.a).id 1 ≡ false)
          × (c.d ≡ dist2 ann bob → (player arena c.a).id ≡ 1 → ltb (player arena c.b).id 2 ≡ false))
unfolding outer_loop inner_loop keep_better is_better
outer_loop_nearest_example = outer_loop_nearest arena (0 ∷ (1 ∷ [])) nearest_two refl

abbrev hi : Bytes
hi = 104 ∷ (105 ∷ [])

hi_no_return : (k : ℕ) → get_or hi k 0 ≢ 13
hi_no_return zero e = ground arith
hi_no_return (suc zero) e = ground arith
hi_no_return (suc (suc k)) e = ground arith

hi-IsLine : IsLine hi
hi-IsLine = record {
  no_newline = ((λ e. ground arith), ((λ e. ground arith), tt));
  no_return = λ k h. hi_no_return k;
  short = omega arith;
}

framing_roundtrip_example :
    (sender' : Player) × (queue_all ann (hi ∷ (hi ∷ [])) ≡ some sender')
    × (pop_all 3 max_line (record bob { inbuf = sender'.outbuf }) ≡ (hi ∷ (hi ∷ []), bob))
unfolding frames
framing_roundtrip_example =
    framing_roundtrip ann bob (hi ∷ (hi ∷ [])) (hi-IsLine, (hi-IsLine, tt)) (omega arith) refl refl

abbrev full_bob : Player
full_bob = record bob { outbuf = 1 ∷ (2 ∷ (3 ∷ [])) }

abbrev two_sends : List Send
two_sends = sent 2 ∷ (send_would_block ∷ [])

flush_player_output-FlushSpec_example :
    FlushSpec full_bob
      (record { result = would_block; after = record bob { outbuf = 3 ∷ [] }; wire = 1 ∷ (2 ∷ []) })
unfolding flush_player_output player_has_pending_output
flush_player_output-FlushSpec_example = flush_player_output-FlushSpec two_sends full_bob _ refl

flush_player_output_ends_example :
    (r : FlushRun) × (flush_player_output (sent 1 ∷ (sent 1 ∷ (send_error ∷ []))) full_bob ≡ some r)
flush_player_output_ends_example =
    flush_player_output_ends (sent 1 ∷ (sent 1 ∷ (send_error ∷ []))) full_bob (omega arith)

queue_line_lem_example :
    let r = queue_line full_bob hi in
    ((r.0 ≡ true)
      × (2 < 254)
      × (3 + 2 < 8192)
      × (r.1 ≡ record full_bob { outbuf = full_bob.outbuf ++ (hi ++ (newline ∷ [])) }))
    ⊎ ((r.0 ≡ false) × ((254 ≤ 2) ⊎ (8192 ≤ 3 + 2)) × (r.1 ≡ full_bob))
queue_line_lem_example = queue_line_lem full_bob hi

abbrev talking : Player
talking = record ann { inbuf = hi ++ (13 ∷ (newline ∷ hi)) }

pop_line_bounds_example :
    (length hi < max_line)
    × (length hi < length talking.inbuf)
    × (record ann { inbuf = hi } ≡ record talking { inbuf = hi })
unfolding pop_line line_length find_newline
pop_line_bounds_example =
    pop_line_bounds max_line talking (record ann { inbuf = hi }) hi (omega arith) refl

read_into_player_buffer_lem_example :
    WasRead (received hi) talking (read_into_player_buffer (received hi) talking)
    × FitsBuffers (read_into_player_buffer (received hi) talking).1
read_into_player_buffer_lem_example =
    read_into_player_buffer_lem (received hi) talking
      (record { in_fits = omega arith; out_fits = omega arith })

add_player_first_free_example :
    ((add_player arena 9 ≡ (none, arena))
      × ((k : ℕ) → k < length arena.players → (player arena k).connected ≡ true))
    ⊎ ((i : ℕ) × (add_player arena 9 ≡ (
      some i,
      record arena {
        players =
            set arena.players i (record zero_player {
              fd = 9;
              id = 3;
              connected = true;
              x = minus_one;
              y = minus_one;
            });
        next_id = 3 + 1;
      },
    ))
        × (i < length arena.players)
        × ((player arena i).connected ≡ false)
        × ((j : ℕ) → j < i → (player arena j).connected ≡ true))
add_player_first_free_example = add_player_first_free arena 9

spawn_taken_iff_example :
    (spawn_taken arena (pos 1) (pos 1) 1 slots ≡ true)
    ↔ ((k : ℕ) × (k < max_players) × Takes arena (pos 1) (pos 1) 1 k)
spawn_taken_iff_example = spawn_taken_iff arena (pos 1) (pos 1) 1

parse_command_roundtrip_example :
    parse_command cmd_size ((83 ∷ []) ++ (blank ∷ blanks 1 hi)) ≡ some (83 ∷ [], args_of hi)
unfolding skip_blanks
parse_command_roundtrip_example =
    parse_command_roundtrip 83 [] hi 1 ((λ e. ground arith), tt) (omega arith) refl

rps_result-can_eat_example :
    ((rps_result 82 83 ≡ pos 1) ↔ (can_eat 82 83 ≡ true))
    × ((rps_result 82 83 ≡ negsuc 0) ↔ (can_eat 83 82 ≡ true))
    × ((rps_result 82 83 ≡ pos 0) ↔ (◌≡◌ {A = ℕ} 82 83))
rps_result-can_eat_example = rps_result-can_eat 82 83 (inl refl) (inr (inr refl))

count_choice_types-agree_example : count_choice_types_alive arena ≡ count_alive_choice_types arena
count_choice_types-agree_example = count_choice_types-agree arena

all_admitted_ready_iff_example : (all_admitted_ready arena ≡ true) ↔ (
    (2 ≤ admitted_count arena)
    × ((k : ℕ)
        → player_is_admitted (player arena k) ≡ true
        → ((player arena k).choice_chosen ≡ true) × ((player arena k).spawn_chosen ≡ true)))
all_admitted_ready_iff_example = all_admitted_ready_iff arena

all_alive_same_choice_iff_example : (all_alive_same_choice arena ≡ true) ↔ (
    (2 ≤ active_alive_count arena)
    × ((j k : ℕ)
        → player_is_alive (player arena j) ≡ true
        → player_is_alive (player arena k) ≡ true
        → (player arena j).choice ≡ (player arena k).choice))
all_alive_same_choice_iff_example = all_alive_same_choice_iff arena

start_round-Entered_example :
    let t = start_round arena in
    (t.phase ≡ round_active)
    × (t.round_no ≡ 1 + 1)
    × (t.round_deadline ≡ 60 + round_seconds)
    × ((k : ℕ) → Entered (player arena k) (player t k))
    × (length t.players ≡ 32)
    × (t ≡ record arena {
      phase = t.phase;
      round_no = t.round_no;
      round_deadline = t.round_deadline;
      players = t.players;
    })
start_round-Entered_example = start_round-Entered arena

maybe_admit_player_ends_example :
    (t : ServerState) × (maybe_admit_player nested lobby 0 ≡ some t) × Moves lobby t
maybe_admit_player_ends_example = maybe_admit_player_ends lobby 0 lobby-Inv

resolve_round_ends_example :
    (t : ServerState) × (resolve_round nested arena ≡ some t) × Resolved arena t
resolve_round_ends_example = resolve_round_ends arena arena-Inv

-- A lobby in which nobody is admitted, and Bob's output buffer is full.
abbrev slow_lobby : ServerState
slow_lobby = record lobby {
  players = set (replicate 32 empty_slot) 3 (record zero_player {
    fd = 6;
    connected = true;
    registered = true;
    outbuf = replicate 8192 65;
  });
}

broadcast_clears_deadline_example :
    (t : ServerState) × (queue_broadcast nested (text "LOBBY_OPEN 60") slow_lobby ≡ some t)
    × (t.phase ≡ lobby_open)
    × (t.join_deadline ≡ 0)
unfolding queue_each queue_line empty_slot player_is_admitted admitted_count count_if broadcast_text
    c_string text
broadcast_clears_deadline_example =
    broadcast_clears_deadline slow_lobby (text "LOBBY_OPEN 60") refl refl refl

reset_match-IsOut_example :
    let t = reset_match (record arena { phase = game_over }) in
    (t.phase ≡ lobby_open)
    × (t.join_deadline ≡ 0)
    × (t.setup_deadline ≡ 0)
    × (t.round_deadline ≡ 0)
    × (t.round_no ≡ 0)
    × ((k : ℕ) → k < max_players → player_is_admitted (player t k) ≡ false)
reset_match-IsOut_example = reset_match-IsOut (record arena { phase = game_over })

build_select_sets_lem_example :
    let sets = build_select_sets 3 arena in
    ((v : ℕ) → occurrences v sets.readfds ≡ (if 3 == v then 1 else 0) + reads_on v arena.players)
    × ((v : ℕ) → occurrences v sets.writefds ≡ writes_on v arena.players)
    × Bounded sets
build_select_sets_lem_example = build_select_sets_lem 3 arena

queue_game_state-Whole_example :
    let r = queue_game_state_for_player arena 1 in
    (q : Player) × (r.1 ≡ put arena 1 q) × Whole bob (state_lines arena bob) (r.0, q)
queue_game_state-Whole_example = queue_game_state-Whole arena 1

off_grid_iff_example : (off_grid three nan ≡ false) ↔ (OnAxis three × OnAxis nan)
off_grid_iff_example = off_grid_iff three nan

abbrev hi_sends : List Send
hi_sends = sent 1 ∷ (sent 1 ∷ (send_error ∷ []))

send_line-Sends_example :
    Sends (hi ++ (newline ∷ [])) (send_line hi_sends hi)
    × (254 ≤ length hi → send_line hi_sends hi ≡ gives false)
send_line-Sends_example = send_line-Sends hi_sends hi (omega arith)

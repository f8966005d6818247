-- ===== src/Game.antt =====
-- src/game.c: the computations of a match. `build_pairs` is in the child Pairs.
pub mod Counts
pub mod Pairs
use rock_paper_scissors_batt.Base.{
  ℕ, zero, suc, ◌+◌, List, [], ◌∷◌, Bool, true, false, not, ◌&&◌, ◌||◌, map, leb, ◌==◌,
  if◌then◌else◌, count_if, replicate,
}
use rock_paper_scissors_batt.Base.Int.{ℤ, pos, negsuc}
use rock_paper_scissors_batt.State.{
  Player, ServerState, Phase, lobby_open, round_active, zero_player, max_players, round_seconds,
  player_is_admitted, player_is_alive,
}

abbrev pub rock : ℕ
rock = b'R'

abbrev pub paper : ℕ
paper = b'P'

abbrev pub scissors : ℕ
scissors = b'S'

-- The state of a new process; `now` is the first reading of the clock. `srand` is left out:
-- nothing draws a random number.
unfoldable pub init_server_state : ℕ → ServerState
init_server_state now = record {
  players = replicate max_players zero_player;
  next_id = 1;
  round_no = 0;
  phase = lobby_open;
  join_deadline = 0;
  setup_deadline = 0;
  round_deadline = 0;
  now = now;
  closed = [];
}

unfoldable pub admitted_count : ServerState → ℕ
admitted_count s = count_if player_is_admitted s.players

unfoldable pub active_alive_count : ServerState → ℕ
active_alive_count s = count_if player_is_alive s.players

-- The loop of `all_admitted_ready`, with the count so far.
unfoldable pub ready_loop : ℕ → List Player → Bool
ready_loop count [] = leb 2 count
ready_loop count (p ∷ ps) =
    let next = ready_loop (if player_is_admitted p then count + 1 else count) ps in
    if player_is_admitted p && (not p.choice_chosen || not p.spawn_chosen) then false else next

unfoldable pub all_admitted_ready : ServerState → Bool
all_admitted_ready s = ready_loop 0 s.players

-- The loop of `all_alive_same_choice`: whether a later alive player differs from `first`, and
-- whether one was seen. `none` is the early `return 0`.
unfoldable pub same_loop : Bool → ℕ → List Player → Bool
same_loop seen first [] = seen
same_loop seen first (p ∷ ps) =
    let next =
      same_loop (seen || player_is_alive p)
        (if player_is_alive p && not seen then p.choice else first) ps in
    if player_is_alive p && (seen && not (p.choice == first)) then false else next

unfoldable pub all_alive_same_choice : ServerState → Bool
all_alive_same_choice s = same_loop false 0 s.players && leb 2 (active_alive_count s)

-- The body of the loop of `start_round`.
unfoldable pub enter_round : Player → Player
enter_round p =
    let q = record p { in_round = false; repick_submitted = false; repick_choice = 0 } in
    if player_is_admitted p && (p.alive || p.waiting)
    then (if p.waiting
        then record q { alive = true; waiting = false; in_round = true }
        else record q { in_round = true })
    else q

unfoldable pub start_round : ServerState → ServerState
start_round s = record s {
  phase = round_active;
  round_no = s.round_no + 1;
  round_deadline = s.now + round_seconds;
  players = map enter_round s.players;
}

unfoldable pub rps_result : ℕ → ℕ → ℤ
rps_result a b =
    if a == b
    then pos 0
    else if (a == rock && b == scissors)
        || ((a == scissors && b == paper) || (a == paper && b == rock))
    then pos 1
    else negsuc 0

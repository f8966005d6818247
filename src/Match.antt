-- ===== src/Match.antt =====
-- src/server_state.c: admission, the timers, a new match, and the resolution of a round. As in
-- Server.antt, `re` stands for the calls of `reevaluate_state` from within broadcasts.
pub mod Moves
pub mod Ends
pub mod Phases
pub mod Timers
pub mod Live
pub mod Rematch
pub mod Writes
pub mod Resolve
pub mod Deadline
use rock_paper_scissors_batt.Base.{
  ℕ, zero, suc, ◌+◌, List, [], ◌∷◌, ◌++◌, Option, none, some, Bool, true, false, not, ◌&&◌, ◌||◌,
  map, ltb, leb, ◌==◌, if◌then◌else◌, ◌>>=◌,
}
use rock_paper_scissors_batt.Base.Int.{ℤ, pos, negsuc}
use rock_paper_scissors_batt.Float.{Float, double, sub, lt, to_single}
use rock_paper_scissors_batt.State.{
  Player, ServerState, Pair, Phase, lobby_open, setup, round_active, game_over, player, put, slots,
  player_is_registered, player_is_admitted, minus_one, join_window_seconds, setup_seconds,
  max_players, grid_w, grid_h,
}
use rock_paper_scissors_batt.Text.Bytes.{Bytes, text}
use rock_paper_scissors_batt.Text.Print.{print_nat, print_float}
use rock_paper_scissors_batt.Game.{
  admitted_count, active_alive_count, all_admitted_ready, all_alive_same_choice, rps_result,
}
use rock_paper_scissors_batt.Game.Pairs.{build_pairs}
use rock_paper_scissors_batt.Chase.{simulate_chase_tick}
use rock_paper_scissors_batt.Server.Lines.{
  queue_line_checked, queue_lines, lobby_open_line, setup_open_line, joined_line,
}
use rock_paper_scissors_batt.Server.{
  Step, drop_slot, drop_player, queue_broadcast, broadcast_game_state, broadcast_positions,
  end_game, start_active_round, begin_repicks, reevaluate_state,
}

abbrev pub is_lobby : Phase → Bool
is_lobby lobby_open = true
is_lobby _ = false

abbrev pub is_setup : Phase → Bool
is_setup setup = true
is_setup _ = false

abbrev pub is_active : Phase → Bool
is_active round_active = true
is_active _ = false

-- "CHOOSE_SPAWN %d %d"
unfoldable pub choose_spawn_line : Bytes
choose_spawn_line = text "CHOOSE_SPAWN " ++ (print_nat grid_w ++ (text " " ++ print_nat grid_h))

reset_lines : List Bytes
reset_lines =
    text "MATCH_RESET"
    ∷ (text "SPECTATING" ∷ (text "CHOOSE_TYPE" ∷ (choose_spawn_line ∷ (text "LOBBY_WAITING" ∷ []))))

-- The assignments that `reset_match` and `reset_player_progress` both make.
unfoldable pub reset_player_progress : Player → Player
reset_player_progress p = record p {
  admitted = false;
  alive = false;
  waiting = false;
  in_round = false;
  choice_chosen = false;
  spawn_chosen = false;
  repick_submitted = false;
  repick_choice = 0;
  choice = 0;
  x = minus_one;
  y = minus_one;
}

unfoldable pub reset_slot : ServerState → ℕ → ServerState
unfolding reset_lines
reset_slot s i =
    let r = queue_lines (reset_player_progress (player s i)) reset_lines in
    if player_is_registered (player s i)
    then (if r.0 then put s i r.1 else drop_slot (put s i r.1) i)
    else s

unfoldable pub reset_each : List ℕ → ServerState → ServerState
reset_each [] s = s
reset_each (i ∷ is) s = reset_each is (reset_slot s i)

unfoldable pub reset_match : ServerState → ServerState
reset_match s = reset_each slots (record s {
  phase = lobby_open;
  join_deadline = 0;
  setup_deadline = 0;
  round_deadline = 0;
  round_no = 0;
})

-- "PAIR %s %s %c %c" and what follows.
unfoldable pub pair_line : Player → Player → Bytes → Bytes
pair_line a b rest =
    text "PAIR "
    ++ (a.name
        ++ (text " "
            ++ (b.name
                ++ (text " " ++ ((a.choice ∷ []) ++ (text " " ++ ((b.choice ∷ []) ++ rest)))))))

unfoldable pub winner_text : Player → Bytes
winner_text w =
    text " WINNER "
    ++ (w.name ++ (text " MOVE " ++ (print_float 3 w.x ++ (text " " ++ print_float 3 w.y))))

-- A winner moves to the loser's place, and the loser leaves the board.
unfoldable pub move_to : Player → Player → Player
move_to w l = record w { x = l.x; y = l.y }

unfoldable pub lose : Player → Player
lose p = record p { alive = false; in_round = false; x = minus_one; y = minus_one }

unfoldable pub leave_round : Player → Player
leave_round p = record p { in_round = false }

-- if (p->connected) queue "ELIMINATED lost", and drop the player if that fails.
unfoldable pub tell_loser : ServerState → ℕ → ServerState
tell_loser s i =
    let r = queue_line_checked (player s i) (text "ELIMINATED lost") in
    if (player s i).connected then (if r.0 then put s i r.1 else drop_slot (put s i r.1) i) else s

module _ (re : Step) where
  -- drop_player(s, idx, 0); reevaluate_state(s);
  unfoldable pub drop_and_reevaluate : ServerState → ℕ → Option ServerState
  drop_and_reevaluate s idx = reevaluate_state re (drop_slot s idx)

  -- queue_line_checked for a slot; a failure drops the player.
  unfoldable pub queue_or_drop : ServerState → ℕ → Bytes → Option ServerState
  queue_or_drop s idx line =
      let r = queue_line_checked (player s idx) line in
      if r.0 then some (put s idx r.1) else drop_and_reevaluate (put s idx r.1) idx

  -- The end of `maybe_admit_player`. The slot is written whether or not it is still connected.
  unfoldable pub admit : ServerState → ℕ → Option ServerState
  admit s idx =
      let p = record (player s idx) { admitted = true; waiting = true } in
      let r = queue_line_checked p (text "JOINED_MATCH") in
      let t = put s idx r.1 in
      if r.0
      then (do t ← queue_broadcast re (joined_line p.name) t; broadcast_game_state re t)
      else drop_and_reevaluate t idx

  -- `maybe_admit_player` in the open lobby.
  unfoldable pub admit_in_lobby : ServerState → ℕ → Option ServerState
  admit_in_lobby s idx =
      if s.join_deadline == 0
      then (do
        t ←
            queue_broadcast re (lobby_open_line join_window_seconds)
              (record s { join_deadline = s.now + join_window_seconds })
        admit t idx)
      else if leb s.join_deadline s.now
      then queue_or_drop s idx (text "ERROR lobby_closed")
      else admit s idx

  unfoldable pub maybe_admit_player : ServerState → ℕ → Option ServerState
  maybe_admit_player s idx =
      let p = player s idx in
      if not p.connected || not p.registered
      then some s
      else if p.admitted
      then some s
      else if not p.choice_chosen || not p.spawn_chosen
      then some s
      else if is_lobby s.phase
      then admit_in_lobby s idx
      else queue_or_drop s idx (text "ERROR lobby_closed")

  -- What follows the two broadcasts of `close_lobby_if_needed`.
  unfoldable pub lobby_closed : Step
  lobby_closed s =
      if ltb (admitted_count s) 2
      then some (end_game s)
      else if all_admitted_ready s
      then start_active_round re s
      else queue_broadcast re (text "WAITING_FOR_OTHERS") s

  unfoldable pub close_lobby_if_needed : Step
  close_lobby_if_needed s =
      if not (is_lobby s.phase)
      then some s
      else if s.join_deadline == 0
      then some s
      else if ltb s.now s.join_deadline
      then some s
      else (do
        t ←
            queue_broadcast re (text "LOBBY_CLOSED")
              (record s { phase = setup; setup_deadline = s.now + setup_seconds })
        t ← queue_broadcast re (setup_open_line setup_seconds) t
        lobby_closed t)

  -- The loop of `expire_unready_setup_players`.
  unfoldable pub expire_each : List ℕ → Step
  expire_each [] s = some s
  expire_each (i ∷ is) s = do
    let p = player s i
    t ←
        if player_is_admitted p && (not p.choice_chosen || not p.spawn_chosen)
        then drop_player re s i true
        else some s
    expire_each is t

  -- What follows the loop.
  unfoldable pub setup_expired : Step
  setup_expired s =
      if ltb (admitted_count s) 2
      then some (end_game s)
      else if all_admitted_ready s
      then start_active_round re s
      else some s

  unfoldable pub expire_unready_setup_players : Step
  expire_unready_setup_players s =
      if not (is_setup s.phase)
      then some s
      else if s.setup_deadline == 0
      then some s
      else if ltb s.now s.setup_deadline
      then some s
      else (do t ← expire_each slots s; setup_expired t)

  -- A tick of the chase, and its broadcast.
  unfoldable pub chase_tick : Float → Step
  chase_tick chase_tick_seconds s = do
    let r = simulate_chase_tick s (to_single chase_tick_seconds)
    t ← broadcast_positions re r.1
    if r.0 then reevaluate_state re t else some t

  -- With the new value of *last_chase_tick.
  unfoldable pub advance_match_timers :
      Float → Float → Float → ServerState → Option (Float × ServerState)
  advance_match_timers clock last_chase_tick chase_tick_seconds s = do
    t ← close_lobby_if_needed s
    t ← expire_unready_setup_players t
    if not (is_active t.phase) || lt (sub double clock last_chase_tick) chase_tick_seconds
        then some (last_chase_tick, t)
        else (do u ← chase_tick chase_tick_seconds t; some (clock, u))

  -- A pair whose winner is at `w` and whose loser is at `l`.
  unfoldable pub settle_pair : ServerState → Pair → ℕ → ℕ → Option ServerState
  unfolding pair_line winner_text
  settle_pair s pair w l = do
    let t = put (put s w (move_to (player s w) (player s l))) l (lose (player s l))
    u ←
        queue_broadcast re
          (pair_line (player t pair.a) (player t pair.b) (winner_text (player t w))) t
    some (tell_loser u l)

  unfoldable pub resolve_pair : ServerState → Pair → Option ServerState
  unfolding pair_line
  resolve_pair s pair = elim (rps_result (player s pair.a).choice (player s pair.b).choice) [
    | negsuc n ↦ settle_pair s pair pair.b pair.a
    | pos zero ↦ queue_broadcast re (pair_line (player s pair.a) (player s pair.b) (text " TIE")) s
    | pos (suc n) ↦ settle_pair s pair pair.a pair.b
  ]

  unfoldable pub resolve_pairs : List Pair → Step
  resolve_pairs [] s = some s
  resolve_pairs (p ∷ ps) s = do t ← resolve_pair s p; resolve_pairs ps t

  unfoldable pub announce_bye : Option ℕ → Step
  announce_bye none s = some s
  announce_bye (some i) s = queue_broadcast re (text "BYE " ++ (player s i).name) s

  -- What follows the last broadcast of `resolve_round`.
  unfoldable pub next_round : Step
  next_round s =
      if leb (active_alive_count s) 1
      then some (end_game s)
      else if all_alive_same_choice s
      then begin_repicks re s
      else start_active_round re s

  unfoldable pub resolve_round : Step
  resolve_round s = do
    let r = build_pairs s 16
    t ← resolve_pairs r.0 s
    t ← announce_bye r.1 t
    t ← broadcast_positions re (record t { players = map leave_round t.players })
    next_round t

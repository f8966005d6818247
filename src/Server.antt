-- ===== src/Server.antt =====
-- src/server_state.c: broadcasts, snapshots and the phases of a match. A broadcast that cannot
-- queue its line drops the player and calls `reevaluate_state`, which may broadcast in turn: the
-- functions take that call, `re`, as an argument, and `reevaluate_at` ties the knot on fuel. Each
-- nested call comes after a drop, so as many levels as there are connected players are enough.
pub mod Lines
pub mod Slots
pub mod Queue
pub mod Knot
pub mod Counts
pub mod Snapshot
use rock_paper_scissors_batt.Base.{
  ℕ, zero, suc, ◌+◌, ◌-◌, List, [], ◌∷◌, ◌++◌, Option, none, some, Bool, true, false, not, ◌&&◌,
  ◌||◌, map, ltb, leb, ◌==◌, if◌then◌else◌, ◌>>=◌, get_or, set, length,
}
use rock_paper_scissors_batt.State.{
  Player, ServerState, Phase, lobby_open, setup, round_active, repick, game_over, player, put,
  slots, empty_slot, player_is_registered, player_is_admitted, player_is_alive, join_window_seconds,
  setup_seconds,
}
use rock_paper_scissors_batt.Text.Bytes.{Bytes, text}
use rock_paper_scissors_batt.Game.{
  rock, paper, scissors, admitted_count, active_alive_count, all_admitted_ready, start_round,
}
use rock_paper_scissors_batt.Protocol.{queue_line}
use Lines.{
  queue_line_checked, queue_lines, broadcast_text, state_lines, game_over_lines, player_line,
  round_start_line, lobby_open_line, setup_open_line, left_line, joined_line,
}

-- queue_line for a slot of the state.
unfoldable pub queue_each : Bytes → List ℕ → ServerState → List ℕ × ServerState
queue_each line [] s = ([], s)
queue_each line (i ∷ is) s =
    let r = queue_line (player s i) line in
    let (drops, t) = queue_each line is (if (player s i).connected then put s i r.1 else s) in
    (if (player s i).connected && not r.0 then i ∷ drops else drops, t)

-- drop_player(s, idx, 0): the socket is closed and the slot cleared.
unfoldable pub drop_slot : ServerState → ℕ → ServerState
drop_slot s idx =
    if (player s idx).connected
    then record s { players = set s.players idx empty_slot; closed = (player s idx).fd ∷ s.closed }
    else s

unfoldable pub drop_all : List ℕ → ServerState → ServerState
drop_all [] s = s
drop_all (i ∷ is) s = drop_all is (drop_slot s i)

abbrev pub Step : Type 0
Step = ServerState → Option ServerState

abbrev pub is_empty : List ℕ → Bool
is_empty [] = true
is_empty (x ∷ xs) = false

-- queue_game_state_for_player for the slot `i`. The lines are read off the state before the first
-- is queued; queueing changes nothing that they show.
unfoldable pub queue_game_state_for_player : ServerState → ℕ → Bool × ServerState
queue_game_state_for_player s i =
    let r = queue_lines (player s i) (state_lines s (player s i)) in (r.0, put s i r.1)

unfoldable pub snapshot_slot : ServerState → ℕ → Bool × ServerState
snapshot_slot s i =
    let r = queue_game_state_for_player s i in
    if player_is_registered (player s i)
    then (if r.0 then (false, r.1) else (true, drop_slot r.1 i))
    else (false, s)

-- The loop of `broadcast_game_state`, with the flag `dropped`.
unfoldable pub snapshot_each : List ℕ → Bool → ServerState → Bool × ServerState
snapshot_each [] dropped s = (dropped, s)
snapshot_each (i ∷ is) dropped s =
    let r = snapshot_slot s i in snapshot_each is (dropped || r.0) r.1

unfoldable pub end_game_slot : ServerState → ℕ → ServerState
end_game_slot s i =
    let p = player s i in
    let r = queue_lines p (game_over_lines p) in
    if p.connected then (if r.0 then put s i r.1 else drop_slot (put s i r.1) i) else s

unfoldable pub end_game_each : List ℕ → ServerState → ServerState
end_game_each [] s = s
end_game_each (i ∷ is) s = end_game_each is (end_game_slot s i)

unfoldable pub end_game : ServerState → ServerState
end_game s = end_game_each slots (record s { phase = game_over })

-- The loop of `all_alive_repicked`, with whether anyone was alive so far.
unfoldable pub repicked_loop : Bool → List Player → Bool
repicked_loop seen [] = seen
repicked_loop seen (p ∷ ps) =
    let rest = repicked_loop (seen || player_is_alive p) ps in
    if player_is_alive p && not p.repick_submitted then false else rest

unfoldable pub all_alive_repicked : ServerState → Bool
all_alive_repicked s = repicked_loop false s.players

unfoldable pub take_repick : Player → Player
take_repick p =
    if player_is_alive p
    then record p { choice = p.repick_choice; repick_submitted = false; repick_choice = 0 }
    else p

unfoldable pub clear_repick : Player → Player
clear_repick p = record p { in_round = false; repick_submitted = false; repick_choice = 0 }

-- has_r, has_p and has_s of `count_alive_choice_types`.
pub record Kinds : Type 0 where
  pub has_r : Bool
  pub has_p : Bool
  pub has_s : Bool

unfoldable pub note_kind : Kinds → Player → Kinds
note_kind t p =
    if not (player_is_alive p)
    then t
    else if p.choice == rock
    then record t { has_r = true }
    else if p.choice == paper
    then record t { has_p = true }
    else if p.choice == scissors
    then record t { has_s = true }
    else t

unfoldable pub kinds_loop : Kinds → List Player → Kinds
kinds_loop t [] = t
kinds_loop t (p ∷ ps) = kinds_loop (note_kind t p) ps

abbrev pub one_if : Bool → ℕ
one_if true = 1
one_if false = 0

unfoldable pub count_alive_choice_types : ServerState → ℕ
count_alive_choice_types s =
    let t = kinds_loop (record { has_r = false; has_p = false; has_s = false }) s.players in
    one_if t.has_r + one_if t.has_p + one_if t.has_s

unfoldable pub reevaluate_lobby_open : ServerState → ServerState
reevaluate_lobby_open s = if admitted_count s == 0 then record s { join_deadline = 0 } else s

unfoldable pub reevaluate_round_active : ServerState → ServerState
reevaluate_round_active s =
    if leb (active_alive_count s) 1 || leb (count_alive_choice_types s) 1 then end_game s else s

module _ (re : Step) where
  unfoldable pub queue_broadcast : Bytes → Step
  queue_broadcast line s =
      let (drops, t) = queue_each (broadcast_text line) slots s in
      if is_empty drops then some t else re (drop_all drops t)

  unfoldable pub broadcast_game_state : Step
  broadcast_game_state s =
      let (dropped, t) = snapshot_each slots false s in if dropped then re t else some t

  unfoldable pub positions_loop : List ℕ → Step
  positions_loop [] s = some s
  positions_loop (i ∷ is) s = do
    t ←
        if player_is_admitted (player s i)
        then queue_broadcast (player_line (player s i)) s
        else some s
    positions_loop is t

  unfoldable pub broadcast_positions : Step
  broadcast_positions s = positions_loop slots s

  unfoldable pub start_active_round : Step
  start_active_round s = do
    let t = start_round s
    t ← queue_broadcast (round_start_line t.round_no) t
    broadcast_positions t

  unfoldable pub finish_repicks : Step
  finish_repicks s = do
    t ← queue_broadcast (text "REPICK_DONE") (record s { players = map take_repick s.players })
    t ← broadcast_positions t
    start_active_round t

  unfoldable pub begin_repicks : Step
  begin_repicks s = do
    t ←
        queue_broadcast (text "REPICK_START")
          (record s { phase = repick; players = map clear_repick s.players })
    broadcast_positions t

  unfoldable pub drop_player : ServerState → ℕ → Bool → Option ServerState
  drop_player s idx announce =
      if announce && ((player s idx).connected && (player s idx).registered)
      then (do
        t ← queue_broadcast (left_line (player s idx).name) (drop_slot s idx)
        broadcast_game_state t)
      else some (drop_slot s idx)

  unfoldable pub reevaluate_setup : Step
  reevaluate_setup s =
      if ltb (admitted_count s) 2
      then some (end_game s)
      else if all_admitted_ready s
      then start_active_round s
      else some s

  unfoldable pub reevaluate_repick : Step
  reevaluate_repick s =
      if leb (active_alive_count s) 1
      then some (end_game s)
      else if all_alive_repicked s
      then finish_repicks s
      else some s

  unfoldable pub reevaluate_phase : Phase → Step
  reevaluate_phase lobby_open s = some (reevaluate_lobby_open s)
  reevaluate_phase setup s = reevaluate_setup s
  reevaluate_phase repick s = reevaluate_repick s
  reevaluate_phase round_active s = some (reevaluate_round_active s)
  reevaluate_phase game_over s = some s

  unfoldable pub reevaluate_state : Step
  reevaluate_state s = reevaluate_phase s.phase s

-- The calls of `reevaluate_state` from within broadcasts, nested at most `n` deep.
unfoldable pub reevaluate_at : ℕ → Step
reevaluate_at zero s = none
reevaluate_at (suc n) s = reevaluate_state (reevaluate_at n) s

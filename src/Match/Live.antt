-- ===== src/Match/Live.antt =====
-- The timers and the admission of src/server_state.c with their nested calls of
-- `reevaluate_state` tied.
use rock_paper_scissors_batt.Base.{ℕ, ◌≡◌, ◌≢◌, ◌≤◌, refl, Option, some, List, [], ◌∷◌}
use rock_paper_scissors_batt.Float.{Float}
use rock_paper_scissors_batt.State.{ServerState, lobby_open, slots, max_players}
use rock_paper_scissors_batt.Server.Slots.{Inv}
use rock_paper_scissors_batt.Server.Knot.{reevaluate_at-Settles}
use rock_paper_scissors_batt.Server.{Step, reevaluate_at}
use rock_paper_scissors_batt.Match.Moves.{
  Moves, Moves-refl, Moves-trans, fields-Moves, Ends_some, few_connected,
}
use rock_paper_scissors_batt.Match.Ends.{maybe_admit_player-Ends, reset_slot-Moves}
use rock_paper_scissors_batt.Match.Phases.{IsStarted, close_lobby-IsStarted}
use rock_paper_scissors_batt.Match.Timers.{Advanced, advanced, advance-Advanced}
use rock_paper_scissors_batt.Match.{
  maybe_admit_player, close_lobby_if_needed, advance_match_timers, reset_each, reset_match,
}

-- One level of nested calls for each slot.
abbrev pub nested : Step
nested = reevaluate_at max_players

-- On slots that are in order the timers return, whatever the three clock values are (not a number
-- included). The slots stay in order, no connection is added, each lost socket was closed once,
-- and REPICK is not entered.
pub advance_match_timers_ends :
    (s : ServerState) (clock last seconds : Float)
    → Inv s
    → (last' : Float) × (t : ServerState) × (advance_match_timers nested clock last seconds s
        ≡ some (last', t))
      × Moves s t
advance_match_timers_ends s clock last seconds v = result (
    advance-Advanced nested max_players (reevaluate_at-Settles max_players) clock last seconds s v
      (few_connected s v))
  where
    result :
        {r : Option (Float × ServerState)}
        → Advanced s r
        → (last' : Float) × (t : ServerState) × (r ≡ some (last', t)) × Moves s t
    result (advanced {last = last'} {t} m) = (last', t, refl, m)

-- On slots that are in order, in an open lobby whose deadline is set and has passed,
-- `close_lobby_if_needed` returns in a round or with the game over: it never stays in SETUP, since
-- everyone admitted is ready. The slots stay in order.
pub close_lobby_starts :
    (s : ServerState)
    → Inv s
    → s.phase ≡ lobby_open
    → s.join_deadline ≢ 0
    → s.join_deadline ≤ s.now
    → (t : ServerState) × (close_lobby_if_needed nested s ≡ some t) × Moves s t × IsStarted t
close_lobby_starts s v lobby timed late = Ends_some (
    close_lobby-IsStarted nested max_players (reevaluate_at-Settles max_players) s v
      (few_connected s v) lobby timed late)

-- On slots that are in order `maybe_admit_player` returns for every index, on every branch and
-- whoever is dropped by its broadcasts, and the slots stay in order.
pub maybe_admit_player_ends :
    (s : ServerState) (i : ℕ)
    → Inv s
    → (t : ServerState) × (maybe_admit_player nested s i ≡ some t) × Moves s t
maybe_admit_player_ends s i v =
    let (t, e, m, _) = Ends_some (
      maybe_admit_player-Ends nested max_players (reevaluate_at-Settles max_players) s i v
        (few_connected s v)) in
    (t, e, m)

reset_each-Moves : (is : List ℕ) (s : ServerState) → Inv s → Moves s (reset_each is s)
unfolding reset_each
reset_each-Moves [] s v = Moves-refl v
reset_each-Moves (i ∷ is) s v =
    let m = reset_slot-Moves s i v in Moves-trans m (reset_each-Moves is _ m.inv)

pub reset_match-Moves : (s : ServerState) → Inv s → Moves s (reset_match s)
unfolding reset_match
reset_match-Moves s v =
    let t : ServerState = record s {
      phase = lobby_open;
      join_deadline = 0;
      setup_deadline = 0;
      round_deadline = 0;
      round_no = 0;
    } in
    let m = fields-Moves s t v refl (λ h e. cc) in Moves-trans m (reset_each-Moves slots t m.inv)

-- ===== src/Commands/Dispatch.antt =====
-- REPICK, GET_STATE, REMATCH, QUIT and `handle_command` of src/server_commands.c.
use rock_paper_scissors_batt.Base.{
  ℕ, ◌≤◌, ◌≡◌, refl, [], ◌∷◌, ◌++◌, Option, none, some, Bool, true, false, not, ◌||◌, if◌then◌else◌,
  arith,
}
use rock_paper_scissors_batt.Text.Bytes.{Bytes, text, bytes_eq, c_string}
use rock_paper_scissors_batt.State.{ServerState, player, put, max_players}
use rock_paper_scissors_batt.Chase.Choice.{IsChoice}
use rock_paper_scissors_batt.Protocol.{queue_line}
use rock_paper_scissors_batt.Server.Slots.{Inv, Goes, connected_count}
use rock_paper_scissors_batt.Server.Queue.{queue_line-Queued, queue_lines-Queued, put-Queued-Goes}
use rock_paper_scissors_batt.Server.Knot.{
  Yields-bind, Settles, finish_repicks-Yields, drop_player-Yields, reevaluate_state-Yields,
  reevaluate_at-Settles,
}
use rock_paper_scissors_batt.Server.{
  Step, drop_player, queue_game_state_for_player, all_alive_repicked, finish_repicks,
  reevaluate_state,
}
use rock_paper_scissors_batt.Match.Moves.{
  Moves, Moves-of_Goes, Ends, ends, Any, Ends-after, Ends_of_Yields, Ends_some, few_connected,
}
use rock_paper_scissors_batt.Match.Ends.{Queued-Moves, drop_and_reevaluate-Yields}
use rock_paper_scissors_batt.Match.Live.{nested, reset_match-Moves}
use rock_paper_scissors_batt.Match.{reset_match, drop_and_reevaluate}
use rock_paper_scissors_batt.Commands.Parse.{parse_rps_choice_arg-IsChoice}
use rock_paper_scissors_batt.Commands.{
  is_repick, is_over, parse_command, cmd_size, parse_rps_choice_arg, reply, handle_hello_command,
  handle_choice_command, handle_spawn_command, take_repick_of, handle_repick_command,
  handle_get_state_command, handle_rematch_command, handle_quit_command, dispatch, handle_command,
}
use rock_paper_scissors_batt.Commands.Names.{reply-Ends, hello-Moves}
use rock_paper_scissors_batt.Commands.Handlers.{repick-SlotInv, choice-Ends, spawn-Ends}

queue_state-Goes : (s : ServerState) (i : ℕ) → Inv s → Goes s (queue_game_state_for_player s i).1
unfolding queue_game_state_for_player
queue_state-Goes s i v = put-Queued-Goes s i _ v (queue_lines-Queued (player s i) _)

module _ (re : Step) (n : ℕ) (settles : Settles re n) where
  take_repick-Ends :
      (s : ServerState) (i c : ℕ)
      → IsChoice c
      → Inv s
      → connected_count s ≤ n
      → Ends s Any (take_repick_of re s i c)
  unfolding take_repick_of
  take_repick-Ends s i c is_choice v few =
      let f = m.fewer in Ends-after m (split (all_alive_repicked t) refl)
    where
      t : ServerState
      t =
          put s i
            (queue_line (record (player s i) { repick_choice = c; repick_submitted = true })
              (text "REPICK_OK " ++ (c ∷ []))).1

      m : Moves s t
      m =
          Queued-Moves s i (record (player s i) { repick_choice = c; repick_submitted = true }) _ v
            refl refl refl (refl, refl) (λ on. repick-SlotInv (player s i) c is_choice)
            (queue_line-Queued _ (text "REPICK_OK " ++ (c ∷ [])))

      split :
          (b : Bool)
          → all_alive_repicked t ≡ b
          → Ends t Any (if b then finish_repicks re t else some (reply t i (text "REPICK_WAITING")))
      split false e = reply-Ends t i _ m.inv
      split true e =
          let f = m.fewer in
          Ends_of_Yields (finish_repicks-Yields re n settles t e m.inv (omega arith)) (λ u g. tt)

  repick-Ends :
      (s : ServerState) (i : ℕ) (args : Option Bytes)
      → Inv s
      → connected_count s ≤ n
      → Ends s Any (handle_repick_command re s i args)
  unfolding handle_repick_command
  repick-Ends s i args v few =
      split (not (is_repick s.phase))
        (not (player s i).registered || (not (player s i).admitted || not (player s i).alive))
        (player s i).repick_submitted (parse_rps_choice_arg args) refl
    where
      split :
          (a b c : Bool) (choice : Option ℕ)
          → parse_rps_choice_arg args ≡ choice
          → Ends s Any (
              if a
              then some (reply s i (text "ERROR not_in_repick_phase"))
              else if b
              then some (reply s i (text "ERROR not_alive"))
              else if c
              then some (reply s i (text "ERROR already_repicked"))
              else elim choice [
                | none ↦ some (reply s i (text "ERROR bad_choice"))
                | some k ↦ take_repick_of re s i k
              ])
      split true b c choice e = reply-Ends s i _ v
      split false true c choice e = reply-Ends s i _ v
      split false false true choice e = reply-Ends s i _ v
      split false false false none e = reply-Ends s i _ v
      split false false false (some k) e =
          take_repick-Ends s i k (parse_rps_choice_arg-IsChoice args k e) v few

  get_state-Ends :
      (s : ServerState) (i : ℕ)
      → Inv s
      → connected_count s ≤ n
      → Ends s Any (handle_get_state_command re s i)
  unfolding handle_get_state_command
  get_state-Ends s i v few = split (queue_game_state_for_player s i).0
    where
      g : Goes s (queue_game_state_for_player s i).1
      g = queue_state-Goes s i v

      split :
          (b : Bool)
          → Ends s Any (
              if b
              then some (queue_game_state_for_player s i).1
              else drop_and_reevaluate re (queue_game_state_for_player s i).1 i)
      split true = ends (Moves-of_Goes g) tt
      split false =
          let f = g.fewer in
          Ends-after (Moves-of_Goes g) (
            Ends_of_Yields (drop_and_reevaluate-Yields re n settles _ i g.inv (omega arith))
              (λ u h. tt))

  rematch-Ends : (s : ServerState) (i : ℕ) → Inv s → Ends s Any (handle_rematch_command re s i)
  unfolding handle_rematch_command
  rematch-Ends s i v = split (not (is_over s.phase))
    where
      split :
          (b : Bool)
          → Ends s Any (
              if b
              then some (reply s i (text "ERROR rematch_not_available"))
              else some (reset_match s))
      split true = reply-Ends s i _ v
      split false = ends (reset_match-Moves s v) tt

  pub quit-Ends :
      (s : ServerState) (i : ℕ)
      → Inv s
      → connected_count s ≤ n
      → Ends s Any (handle_quit_command re s i)
  unfolding handle_quit_command
  quit-Ends s i v few =
      Ends_of_Yields
        (Yields-bind (drop_player re s i true) (reevaluate_state re)
          (drop_player-Yields re n settles s i true v few)
          λ t g. let f = g.fewer in reevaluate_state-Yields re n settles t g.inv (omega arith))
        (λ t g. tt)

  dispatch-Ends :
      (s : ServerState) (i : ℕ) (cmd : Bytes) (args : Option Bytes)
      → Inv s
      → connected_count s ≤ n
      → Ends s Any (dispatch re s i cmd args)
  unfolding dispatch
  dispatch-Ends s i cmd args v few =
      split (bytes_eq cmd (text "HELLO")) (bytes_eq cmd (text "GET_STATE"))
        (bytes_eq cmd (text "CHOICE")) (bytes_eq cmd (text "SPAWN")) (bytes_eq cmd (text "REPICK"))
        (bytes_eq cmd (text "REMATCH")) (bytes_eq cmd (text "QUIT"))
    where
      split :
          (a b c d e f g : Bool)
          → Ends s Any (
              if a
              then some (handle_hello_command s i args)
              else if b
              then handle_get_state_command re s i
              else if c
              then handle_choice_command re s i args
              else if d
              then handle_spawn_command re s i args
              else if e
              then handle_repick_command re s i args
              else if f
              then handle_rematch_command re s i
              else if g
              then handle_quit_command re s i
              else some (reply s i (text "ERROR bad_command")))
      split true b c d e f g = ends (hello-Moves s i args v) tt
      split false true c d e f g = get_state-Ends s i v few
      split false false true d e f g = choice-Ends re n settles s i args v few
      split false false false true e f g = spawn-Ends re n settles s i args v few
      split false false false false true f g = repick-Ends s i args v few
      split false false false false false true g = rematch-Ends s i v
      split false false false false false false true = quit-Ends s i v few
      split false false false false false false false = reply-Ends s i _ v

  pub command-Ends :
      (s : ServerState) (i : ℕ) (line : Bytes)
      → Inv s
      → connected_count s ≤ n
      → Ends s Any (handle_command re s i line)
  unfolding handle_command
  command-Ends s i line v few = split (parse_command cmd_size (c_string line))
    where
      split :
          (r : Option (Bytes × Option Bytes))
          → Ends s Any (elim r [
            | none ↦ some (reply s i (text "ERROR bad_command"))
            | some (cmd, args) ↦ dispatch re s i cmd args
          ])
      split none = reply-Ends s i _ v
      split (some (cmd, args)) = dispatch-Ends s i cmd args v few

-- On slots that are in order `handle_command` returns for every line of bytes and every index,
-- registered or not. The slots stay in order, no connection is added, each lost socket was closed
-- once, names that were apart stay apart, and REPICK is not entered.
pub handle_command_ends :
    (s : ServerState) (i : ℕ) (line : Bytes)
    → Inv s
    → (t : ServerState) × (handle_command nested s i line ≡ some t) × Moves s t
handle_command_ends s i line v =
    let (t, e, m, _) = Ends_some (
      command-Ends nested max_players (reevaluate_at-Settles max_players) s i line v
        (few_connected s v)) in
    (t, e, m)

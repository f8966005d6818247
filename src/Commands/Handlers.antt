-- ===== src/Commands/Handlers.antt =====
-- The handlers of CHOICE and SPAWN of src/server_commands.c.
use rock_paper_scissors_batt.Base.{
  ℕ, ◌≤◌, ◌≡◌, refl, [], ◌∷◌, ◌++◌, Option, none, some, Bool, true, false, if◌then◌else◌, arith,
}
use rock_paper_scissors_batt.Float.{Float, single, to_int}
use rock_paper_scissors_batt.Text.Bytes.{Bytes, text}
use rock_paper_scissors_batt.Text.Print.{print_float}
use rock_paper_scissors_batt.State.{Player, ServerState, player, slots}
use rock_paper_scissors_batt.Chase.Choice.{IsChoice}
use rock_paper_scissors_batt.Server.Slots.{SlotInv, Inv, connected_count}
use rock_paper_scissors_batt.Server.Queue.{queue_line-Queued}
use rock_paper_scissors_batt.Server.Knot.{Settles}
use rock_paper_scissors_batt.Server.{Step}
use rock_paper_scissors_batt.Match.Moves.{Ends, Any, Ends-after}
use rock_paper_scissors_batt.Match.Ends.{Queued-Moves, maybe_admit_player-Ends}
use rock_paper_scissors_batt.Commands.Parse.{parse_rps_choice_arg-IsChoice}
use rock_paper_scissors_batt.Commands.{
  parse_rps_choice_arg, reply, require_registered_not_admitted, spawn_taken, spawn_args, off_grid,
  take_choice, handle_choice_command, take_spawn, handle_spawn_command,
}
use rock_paper_scissors_batt.Commands.Names.{reply-Ends}

choice-SlotInv :
    (p : Player) (c : ℕ)
    → p.admitted ≡ false
    → IsChoice c
    → SlotInv p
    → SlotInv (record p { choice = c; choice_chosen = true })
choice-SlotInv p c out is_choice v = record {
  admitted_ready = λ h. absurd (cc);
  alive_admitted = v.alive_admitted;
  waiting_admitted = v.waiting_admitted;
  chosen = λ h. is_choice;
  repicked = v.repicked;
  fits = let f = v.fits in record { in_fits = f.in_fits; out_fits = f.out_fits };
}

spawn-SlotInv :
    (p : Player) (x y : Float)
    → p.admitted ≡ false
    → SlotInv p
    → SlotInv (record p { x = x; y = y; spawn_chosen = true })
spawn-SlotInv p x y out v = record {
  admitted_ready = λ h. absurd (cc);
  alive_admitted = v.alive_admitted;
  waiting_admitted = v.waiting_admitted;
  chosen = v.chosen;
  repicked = v.repicked;
  fits = let f = v.fits in record { in_fits = f.in_fits; out_fits = f.out_fits };
}

pub repick-SlotInv :
    (p : Player) (c : ℕ)
    → IsChoice c
    → SlotInv p
    → SlotInv (record p { repick_choice = c; repick_submitted = true })
repick-SlotInv p c is_choice v = record {
  admitted_ready = v.admitted_ready;
  alive_admitted = v.alive_admitted;
  waiting_admitted = v.waiting_admitted;
  chosen = v.chosen;
  repicked = λ h. is_choice;
  fits = let f = v.fits in record { in_fits = f.in_fits; out_fits = f.out_fits };
}

require_none :
    (p : Player)
    → require_registered_not_admitted p ≡ none
    → (p.registered ≡ true) × (p.admitted ≡ false)
unfolding require_registered_not_admitted
require_none p h = ground arith

module _ (re : Step) (n : ℕ) (settles : Settles re n) where
  take_choice-Ends :
      (s : ServerState) (i c : ℕ)
      → (player s i).admitted ≡ false
      → IsChoice c
      → Inv s
      → connected_count s ≤ n
      → Ends s Any (take_choice re s i c)
  unfolding take_choice
  take_choice-Ends s i c out is_choice v few =
      let m =
        Queued-Moves s i (record (player s i) { choice = c; choice_chosen = true }) _ v refl refl
          refl (refl, refl) (λ on. choice-SlotInv (player s i) c out is_choice)
          (queue_line-Queued _ (text "CHOICE_OK " ++ (c ∷ []))) in
      let f = m.fewer in Ends-after m (maybe_admit_player-Ends re n settles _ i m.inv (omega arith))

  pub choice-Ends :
      (s : ServerState) (i : ℕ) (args : Option Bytes)
      → Inv s
      → connected_count s ≤ n
      → Ends s Any (handle_choice_command re s i args)
  unfolding handle_choice_command
  choice-Ends s i args v few =
      split (require_registered_not_admitted (player s i)) (parse_rps_choice_arg args) refl refl
    where
      split :
          (err : Option Bytes) (choice : Option ℕ)
          → require_registered_not_admitted (player s i) ≡ err
          → parse_rps_choice_arg args ≡ choice
          → Ends s Any (elim err [
            | some e ↦ some (reply s i e)
            | none ↦ elim choice [
              | none ↦ some (reply s i (text "ERROR bad_choice"))
              | some c ↦ take_choice re s i c
            ]
          ])
      split (some e) choice h k = reply-Ends s i e v
      split none none h k = reply-Ends s i _ v
      split none (some c) h k =
          take_choice-Ends s i c (require_none (player s i) h).1
            (parse_rps_choice_arg-IsChoice args c k) v few

  take_spawn-Ends :
      (s : ServerState) (i : ℕ) (x y : Float)
      → (player s i).admitted ≡ false
      → Inv s
      → connected_count s ≤ n
      → Ends s Any (take_spawn re s i x y)
  unfolding take_spawn
  take_spawn-Ends s i x y out v few =
      let m =
        Queued-Moves s i (record (player s i) { x = x; y = y; spawn_chosen = true }) _ v refl refl
          refl (refl, refl) (λ on. spawn-SlotInv (player s i) x y out)
          (queue_line-Queued _
            (text "SPAWN_OK " ++ (print_float 1 x ++ (text " " ++ print_float 1 y)))) in
      let f = m.fewer in Ends-after m (maybe_admit_player-Ends re n settles _ i m.inv (omega arith))

  pub spawn-Ends :
      (s : ServerState) (i : ℕ) (args : Option Bytes)
      → Inv s
      → connected_count s ≤ n
      → Ends s Any (handle_spawn_command re s i args)
  unfolding handle_spawn_command
  spawn-Ends s i args v few =
      split (require_registered_not_admitted (player s i)) (spawn_args args) refl
    where
      checked :
          (x y : Float)
          → (player s i).admitted ≡ false
          → (a b : Bool)
          → Ends s Any (
              if a
              then some (reply s i (text "ERROR bad_spawn"))
              else if b
              then some (reply s i (text "ERROR spawn_taken"))
              else take_spawn re s i x y)
      checked x y out true b = reply-Ends s i _ v
      checked x y out false true = reply-Ends s i _ v
      checked x y out false false = take_spawn-Ends s i x y out v few

      split :
          (err : Option Bytes) (at : Option (Float × Float))
          → require_registered_not_admitted (player s i) ≡ err
          → Ends s Any (elim err [
            | some e ↦ some (reply s i e)
            | none ↦ elim at [
              | none ↦ some (reply s i (text "ERROR usage_SPAWN_x_y"))
              | some (x, y) ↦
                  if off_grid x y
                  then some (reply s i (text "ERROR bad_spawn"))
                  else if spawn_taken s (to_int single x) (to_int single y) i slots
                  then some (reply s i (text "ERROR spawn_taken"))
                  else take_spawn re s i x y
            ]
          ])
      split (some e) at h = reply-Ends s i e v
      split none none h = reply-Ends s i _ v
      split none (some (x, y)) h =
          checked x y (require_none (player s i) h).1 (off_grid x y)
            (spawn_taken s (to_int single x) (to_int single y) i slots)

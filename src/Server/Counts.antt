-- ===== src/Server/Counts.antt =====
-- The two counts of living kinds, in src/chase_simulation.c and in src/server_state.c.
use rock_paper_scissors_batt.Base.{
  ◌≡◌, refl, List, [], ◌∷◌, Bool, true, false, not, ◌==◌, if◌then◌else◌, arith,
}
use rock_paper_scissors_batt.State.{Player, ServerState, player_is_alive}
use rock_paper_scissors_batt.Game.{rock, paper, scissors}
use rock_paper_scissors_batt.Chase.{Types, note_type, types_loop, count_choice_types_alive}
use rock_paper_scissors_batt.Server.{Kinds, note_kind, kinds_loop, count_alive_choice_types}

as_kinds : Types → Kinds
as_kinds t = record { has_r = t.has_r; has_p = t.has_p; has_s = t.has_s }

note_same : (t : Types) (p : Player) → note_kind (as_kinds t) p ≡ as_kinds (note_type t p)
unfolding note_type note_kind as_kinds
note_same t p =
    split (not (player_is_alive p)) (p.choice == rock) (p.choice == paper) (p.choice == scissors)
      (ground arith)
  where
    split :
        (dead r pa sc : Bool)
        → (pa ≡ true → sc ≡ true → ⊥)
        → (if dead
            then as_kinds t
            else if r
            then record (as_kinds t) { has_r = true }
            else if pa
            then record (as_kinds t) { has_p = true }
            else if sc
            then record (as_kinds t) { has_s = true }
            else as_kinds t)
          ≡ as_kinds (
              if dead
              then t
              else if r
              then record t { has_r = true }
              else if sc
              then record t { has_s = true }
              else if pa
              then record t { has_p = true }
              else t)
    split true r pa sc h = refl
    split false true pa sc h = refl
    split false false true true h = absurd (h refl refl)
    split false false true false h = refl
    split false false false true h = refl
    split false false false false h = refl

loop_same : (t : Types) (ps : List Player) → kinds_loop (as_kinds t) ps ≡ as_kinds (types_loop t ps)
unfolding types_loop kinds_loop
loop_same t [] = refl
loop_same t (p ∷ ps) = rw (note_same t p) (loop_same (note_type t p) ps)

-- The chase and the match count the same living kinds.
pub count_choice_types-agree :
    (s : ServerState) → count_choice_types_alive s ≡ count_alive_choice_types s
unfolding count_choice_types_alive count_alive_choice_types as_kinds
count_choice_types-agree s =
    rw (loop_same (record { has_r = false; has_s = false; has_p = false }) s.players) (omega arith)

-- ===== src/Chase.antt =====
-- src/chase_simulation.c: in each tick every living player moves toward the nearest player that it
-- can eat, and eliminates it on contact. `float` arithmetic rounds after each operation.
pub mod Choice
pub mod Prey
pub mod Tick
use rock_paper_scissors_batt.Base.{
  ℕ, zero, suc, ◌+◌, List, [], ◌∷◌, Option, none, some, Bool, true, false, not, ◌&&◌, ◌||◌, leb,
  ◌==◌, if◌then◌else◌,
}
use rock_paper_scissors_batt.Float.{
  Float, finite, single, sub, add, mul, div, sqrt, lt, le, of_ratio,
}
use rock_paper_scissors_batt.State.{
  Player, ServerState, player, put, slots, zero_float, minus_one, empty_slot, player_is_alive,
}
use rock_paper_scissors_batt.Game.{rock, paper, scissors}

-- 0.8f and 0.5f.
unfoldable pub chase_speed : Float
chase_speed = of_ratio single false 8 10

unfoldable pub capture_radius : Float
capture_radius = of_ratio single false 5 10

unfoldable pub can_eat : ℕ → ℕ → Bool
can_eat eater prey =
    if eater == rock
    then prey == scissors
    else if eater == scissors
    then prey == paper
    else if eater == paper
    then prey == rock
    else false

-- sqrtf(dx * dx + dy * dy)
unfoldable pub norm : Float → Float → Float
norm dx dy = sqrt single (add single (mul single dx dx) (mul single dy dy))

unfoldable pub distance : Player → Player → Float
distance hunter candidate = norm (sub single candidate.x hunter.x) (sub single candidate.y hunter.y)

-- The tests of `find_nearest_prey` that let a candidate at index `i` through.
unfoldable pub is_prey : ℕ → Player → ℕ → Player → Bool
is_prey hunter_idx hunter i candidate =
    player_is_alive candidate
    && (not (i == hunter_idx)
        && (not (candidate.choice == hunter.choice) && can_eat hunter.choice candidate.choice))

-- best_prey_idx and best_dist; `none` is best_prey_idx == -1.
pub record Best : Type 0 where
  pub idx : ℕ
  pub dist : Float

unfoldable pub update_best : Option Best → ℕ → Float → Option Best
update_best none i d = some (record { idx = i; dist = d })
update_best (some b) i d = if lt d b.dist then some (record { idx = i; dist = d }) else some b

-- The loop from index `i` on.
unfoldable pub prey_loop : ℕ → Player → Option Best → ℕ → List Player → Option Best
prey_loop hunter_idx hunter best i [] = best
prey_loop hunter_idx hunter best i (p ∷ ps) =
    prey_loop hunter_idx hunter
      (if is_prey hunter_idx hunter i p then update_best best i (distance hunter p) else best)
      (i + 1) ps

abbrev pub best_idx : Option Best → Option ℕ
best_idx none = none
best_idx (some b) = some b.idx

-- `none` stands for -1.
unfoldable pub find_nearest_prey : ServerState → ℕ → Option ℕ
find_nearest_prey s hunter_idx =
    if player_is_alive (player s hunter_idx)
    then best_idx (prey_loop hunter_idx (player s hunter_idx) none 0 s.players)
    else none

-- has_r, has_s and has_p.
pub record Types : Type 0 where
  pub has_r : Bool
  pub has_s : Bool
  pub has_p : Bool

unfoldable pub note_type : Types → Player → Types
note_type t p =
    if not (player_is_alive p)
    then t
    else if p.choice == rock
    then record t { has_r = true }
    else if p.choice == scissors
    then record t { has_s = true }
    else if p.choice == paper
    then record t { has_p = true }
    else t

unfoldable pub types_loop : Types → List Player → Types
types_loop t [] = t
types_loop t (p ∷ ps) = types_loop (note_type t p) ps

abbrev pub one_if : Bool → ℕ
one_if true = 1
one_if false = 0

unfoldable pub count_choice_types_alive : ServerState → ℕ
count_choice_types_alive s =
    let t = types_loop (record { has_r = false; has_s = false; has_p = false }) s.players in
    one_if t.has_r + one_if t.has_s + one_if t.has_p

unfoldable pub eliminate : Player → Player
eliminate p = record p { alive = false; x = minus_one; y = minus_one }

-- hunter->x += ux * move_dist, and the same for y.
unfoldable pub advance : Float → Player → Player → Player
advance dt hunter prey =
    let dx = sub single prey.x hunter.x in
    let dy = sub single prey.y hunter.y in
    let dist = distance hunter prey in
    let full = mul single chase_speed dt in
    let move_dist = if lt dist full then dist else full in
    record hunter {
      x = add single hunter.x (mul single (div single dx dist) move_dist);
      y = add single hunter.y (mul single (div single dy dist) move_dist);
    }

-- dist <= CAPTURE_RADIUS
unfoldable pub in_reach : Player → Player → Bool
in_reach hunter prey = le (distance hunter prey) capture_radius

-- A hunter at `i` with its prey at `j`: contact, or a move and a second look.
unfoldable pub chase : Float → ServerState → ℕ → ℕ → ServerState
chase dt s i j =
    let hunter = player s i in
    let prey = player s j in
    let moved = put s i (advance dt hunter prey) in
    if in_reach hunter prey
    then put s j (eliminate prey)
    else if in_reach (player moved i) (player moved j)
    then put moved j (eliminate (player moved j))
    else moved

unfoldable pub chase_target : Float → ServerState → ℕ → Option ℕ → ServerState
chase_target dt s i none = s
chase_target dt s i (some j) = chase dt s i j

-- The body of the loop of `simulate_chase_tick`.
unfoldable pub hunt : Float → ℕ → ServerState → ServerState
hunt dt i s =
    if player_is_alive (player s i) then chase_target dt s i (find_nearest_prey s i) else s

unfoldable pub hunt_all : Float → List ℕ → ServerState → ServerState
hunt_all dt [] s = s
hunt_all dt (i ∷ is) s = hunt_all dt is (hunt dt i s)

-- The flag says that at most one type is left.
unfoldable pub simulate_chase_tick : ServerState → Float → Bool × ServerState
simulate_chase_tick s dt_seconds =
    let dt = if lt dt_seconds zero_float then zero_float else dt_seconds in
    let after = hunt_all dt slots s in (leb (count_choice_types_alive after) 1, after)

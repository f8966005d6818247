-- ===== src/Chase/Prey.antt =====
-- `find_nearest_prey` of src/chase_simulation.c and what it returns.
use rock_paper_scissors_batt.Base.{
  ℕ, zero, suc, ◌+◌, ◌≡◌, ◌≢◌, refl, sym, subst, ◌⊎◌, inl, inr, List, [], ◌∷◌, Option, none, some,
  Bool, true, false, arith, get_or, if◌then◌else◌, Bool-cases,
}
use rock_paper_scissors_batt.Float.{Float, lt}
use rock_paper_scissors_batt.Float.Order.{lt_irrefl, lt_trans}
use rock_paper_scissors_batt.State.{Player, ServerState, player, empty_slot, player_is_alive}
use rock_paper_scissors_batt.Chase.{
  can_eat, Best, update_best, prey_loop, is_prey, distance, find_nearest_prey, best_idx,
}

-- A candidate at distance `d` is not nearer than the best one.
abbrev NotCloser : Float → Option Best → Type 0
NotCloser d none = ⊥
NotCloser d (some b) = lt d b.dist ≡ false

NotCloser-update :
    (best : Option Best) (i : ℕ) (d e : Float)
    → NotCloser d best
    → NotCloser d (update_best best i e)
unfolding update_best
NotCloser-update none i d e h = absurd h
NotCloser-update (some b) i d e h = ground (arith, lt_trans d e b.dist)

NotCloser-update_self :
    (best : Option Best) (i : ℕ) (d : Float) → NotCloser d (update_best best i d)
unfolding update_best
NotCloser-update_self none i d = lt_irrefl d
NotCloser-update_self (some b) i d = ground (arith, lt_irrefl d)

updated :
    (best : Option Best) (i : ℕ) (d : Float) (b : Best)
    → update_best best i d ≡ some b
    → (best ≡ some b) ⊎ ((b.idx ≡ i) × (b.dist ≡ d))
unfolding update_best
updated none i d b e = inr (ground arith)
updated (some c) i d b e = ground arith

module _ (h : ℕ) (hunter : Player) where
  abbrev next : Option Best → ℕ → Player → Option Best
  next best i p = if is_prey h hunter i p then update_best best i (distance hunter p) else best

  -- What was not nearer stays not nearer.
  loop_keeps :
      (ps : List Player) (best : Option Best) (i : ℕ) (d : Float)
      → NotCloser d best
      → NotCloser d (prey_loop h hunter best i ps)
  unfolding prey_loop
  loop_keeps [] best i d n = n
  loop_keeps (p ∷ ps) best i d n =
      loop_keeps ps (next best i p) (i + 1) d (keep (is_prey h hunter i p))
    where
      keep : (b : Bool) → NotCloser d (if b then update_best best i (distance hunter p) else best)
      keep true = NotCloser-update best i d (distance hunter p) n
      keep false = n

  not-prey-empty : (j : ℕ) → is_prey h hunter j empty_slot ≡ true → ⊥
  unfolding is_prey player_is_alive empty_slot
  not-prey-empty j t = cc

  loop_nearest :
      (ps : List Player) (best : Option Best) (i k j : ℕ)
      → i + k ≡ j
      → is_prey h hunter j (get_or ps k empty_slot) ≡ true
      → NotCloser (distance hunter (get_or ps k empty_slot)) (prey_loop h hunter best i ps)
  unfolding prey_loop
  loop_nearest [] best i k j e t = absurd (not-prey-empty j t)
  loop_nearest (p ∷ ps) best i zero j e t =
      loop_keeps ps (next best i p) (i + 1) (distance hunter p)
        (rw t' (NotCloser-update_self best i (distance hunter p)))
    where
      t' : is_prey h hunter i p ≡ true
      t' = subst (λ n. is_prey h hunter n p ≡ true) (omega arith) t
  loop_nearest (p ∷ ps) best i (suc k) j e t =
      loop_nearest ps (next best i p) (i + 1) k j (omega arith) t

  -- A prey at index `i + k`, and its distance.
  abbrev Found : ℕ → List Player → Best → Type 0
  Found i ps b =
      (k : ℕ) × (b.idx ≡ i + k)
      × (is_prey h hunter b.idx (get_or ps k empty_slot) ≡ true)
      × (b.dist ≡ distance hunter (get_or ps k empty_slot))

  loop-Found :
      (ps : List Player) (best : Option Best) (i : ℕ) (b : Best)
      → prey_loop h hunter best i ps ≡ some b
      → (best ≡ some b) ⊎ Found i ps b
  unfolding prey_loop
  loop-Found [] best i b e = inl e
  loop-Found (p ∷ ps) best i b e = elim (loop-Found ps (next best i p) (i + 1) b e) [
    | inl old ↦ split (is_prey h hunter i p) refl old
    | inr (k, at, prey, far) ↦ inr (suc k, omega arith, prey, far)
  ]
    where
      split :
          (t : Bool)
          → is_prey h hunter i p ≡ t
          → (if t then update_best best i (distance hunter p) else best) ≡ some b
          → (best ≡ some b) ⊎ Found i (p ∷ ps) b
      split false _ old = inl old
      split true prey old = elim (updated best i (distance hunter p) b old) [
        | inl kept ↦ inl kept
        | inr (at, far) ↦
            inr (0, omega arith, subst (λ n. is_prey h hunter n p ≡ true) (sym at) prey, far)
      ]

-- What the tests of the loop say of a prey.
pub is_prey_parts :
    (h : ℕ) (hunter : Player) (i : ℕ) (p : Player)
    → is_prey h hunter i p ≡ true
    → (player_is_alive p ≡ true) × (i ≢ h) × (can_eat hunter.choice p.choice ≡ true)
unfolding is_prey
is_prey_parts h hunter i p e = ground arith

-- What the search answers for a living hunter.
pub data Answer (s : ServerState) (h : ℕ) : Option ℕ → Type 0 where
  nothing : ((k : ℕ) → is_prey h (player s h) k (player s k) ≡ false) → Answer s h none
  nearest :
      {j : ℕ}
      → is_prey h (player s h) j (player s j) ≡ true
      → ((k : ℕ)
          → is_prey h (player s h) k (player s k) ≡ true
          → lt (distance (player s h) (player s k)) (distance (player s h) (player s j)) ≡ false)
      → Answer s h (some j)

pub find_nearest_prey-Answer :
    (s : ServerState) (h : ℕ)
    → player_is_alive (player s h) ≡ true
    → Answer s h (find_nearest_prey s h)
unfolding find_nearest_prey
find_nearest_prey-Answer s h alive =
    rw alive (answer (prey_loop h (player s h) none 0 s.players) refl)
  where
    answer :
        (r : Option Best) → prey_loop h (player s h) none 0 s.players ≡ r → Answer s h (best_idx r)
    answer none e = nothing λ k. elim (Bool-cases (is_prey h (player s h) k (player s k))) [
      | inl prey ↦ absurd (
          subst (NotCloser (distance (player s h) (player s k))) e
            (loop_nearest h (player s h) s.players none 0 k k (omega arith) prey))
      | inr other ↦ other
    ]
    answer (some b) e = elim (loop-Found h (player s h) s.players none 0 b e) [
      | inl no_best ↦ absurd (cc)
      | inr (k, at, prey, far) ↦
          let at' : b.idx ≡ k = omega arith in
          nearest (rw at' (rw at' at prey)) λ m other.
            let near : lt (distance (player s h) (player s m)) b.dist ≡ false =
              subst (NotCloser (distance (player s h) (player s m))) e
                (loop_nearest h (player s h) s.players none 0 m m (omega arith) other) in
            rw at' (rw far at near)
    ]

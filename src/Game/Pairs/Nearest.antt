-- ===== src/Game/Pairs/Nearest.antt =====
-- Which pair a round of the loop of `build_pairs` in src/game.c takes.
use rock_paper_scissors_batt.Base.{
  ℕ, zero, suc, ◌+◌, ◌<◌, ◌≡◌, refl, ap, List, [], ◌∷◌, Option, none, some, true, false, ltb, arith,
  length, get_or, Bool-cases, inl, inr, subst,
}
use rock_paper_scissors_batt.Base.Int.{ℤ, ltb_ℤ, eqb_ℤ, pos, negsuc}
use rock_paper_scissors_batt.State.{ServerState, player}
use rock_paper_scissors_batt.Game.Pairs.{
  BestPair, candidate, is_better, keep_better, inner_loop, outer_loop, dist2,
}

module _ (s : ServerState) where
  -- A candidate that the loops would not take in place of the best pair.
  abbrev NotBetter : BestPair → Option BestPair → Type 0
  NotBetter c none = ⊥
  NotBetter c (some best) = is_better s c (some best) ≡ false

  better_irrefl : (c : BestPair) → is_better s c (some c) ≡ false
  unfolding is_better
  better_irrefl c = ground arith

  better_trans :
      (c d e : BestPair)
      → is_better s c (some d) ≡ true
      → is_better s d (some e) ≡ true
      → is_better s c (some e) ≡ true
  unfolding is_better
  better_trans c d e p q = ground arith

  NotBetter-keep :
      (c d : BestPair) (best : Option BestPair)
      → NotBetter c best
      → NotBetter c (keep_better s best d)
  unfolding keep_better
  NotBetter-keep c d none h = absurd h
  NotBetter-keep c d (some best) h = elim (Bool-cases (is_better s d (some best))) [
    | inr e ↦ rw e h
    | inl e ↦ rw e (elim (Bool-cases (is_better s c (some d))) [
      | inr f ↦ f
      | inl f ↦ absurd (let g = better_trans c d best f e in cc)
    ])
  ]

  NotBetter-keep_self : (c : BestPair) (best : Option BestPair) → NotBetter c (keep_better s best c)
  unfolding keep_better is_better
  NotBetter-keep_self c none = better_irrefl c
  NotBetter-keep_self c (some best) = elim (Bool-cases (is_better s c (some best))) [
    | inl e ↦ rw e (better_irrefl c)
    | inr e ↦ rw e e
  ]

  inner_keeps :
      (c : BestPair) (i a j : ℕ) (best : Option BestPair) (ys : List ℕ)
      → NotBetter c best
      → NotBetter c (inner_loop s i a best j ys)
  unfolding inner_loop
  inner_keeps c i a j best [] h = h
  inner_keeps c i a j best (y ∷ ys) h =
      inner_keeps c i a (j + 1) _ ys (NotBetter-keep c (candidate s i j a y) best h)

  outer_keeps :
      (c : BestPair) (i : ℕ) (best : Option BestPair) (ys : List ℕ)
      → NotBetter c best
      → NotBetter c (outer_loop s best i ys)
  unfolding outer_loop
  outer_keeps c i best [] h = h
  outer_keeps c i best (y ∷ ys) h = outer_keeps c (i + 1) _ ys (inner_keeps c i y (i + 1) best ys h)

  inner_covers :
      (i a j : ℕ) (best : Option BestPair) (ys : List ℕ) (k m : ℕ)
      → j + k ≡ m
      → k < length ys
      → NotBetter (candidate s i m a (get_or ys k 0)) (inner_loop s i a best j ys)
  unfolding inner_loop
  inner_covers i a j best [] k m e h = absurd (omega arith)
  inner_covers i a j best (y ∷ ys) zero m e h = inner_keeps (candidate s i m a y) i a (j + 1) _ ys (
      subst (λ n. NotBetter (candidate s i n a y) (keep_better s best (candidate s i j a y)))
        (omega arith) (NotBetter-keep_self (candidate s i j a y) best))
  inner_covers i a j best (y ∷ ys) (suc k) m e h =
      inner_covers i a (j + 1) _ ys k m (omega arith) (omega arith)

  outer_covers :
      (i : ℕ) (best : Option BestPair) (ys : List ℕ) (k l p q : ℕ)
      → i + k ≡ p
      → i + l ≡ q
      → k < l
      → l < length ys
      → NotBetter (candidate s p q (get_or ys k 0) (get_or ys l 0)) (outer_loop s best i ys)
  unfolding outer_loop
  outer_covers i best [] k l p q e f lt h = absurd (omega arith)
  outer_covers i best (y ∷ ys) k zero p q e f lt h = absurd (omega arith)
  outer_covers i best (y ∷ ys) zero (suc l) p q e f lt h =
      outer_keeps (candidate s p q y (get_or ys l 0)) (i + 1) _ ys (
        subst
          (λ n. NotBetter (candidate s n q y (get_or ys l 0)) (inner_loop s i y best (i + 1) ys))
          (omega arith) (inner_covers i y (i + 1) best ys l q (omega arith) (omega arith)))
  outer_covers i best (y ∷ ys) (suc k) (suc l) p q e f lt h =
      outer_covers (i + 1) _ ys k l p q (omega arith) (omega arith) (omega arith) (omega arith)

  -- A pair of the unmatched players at two places, the first in front of the second, with its
  -- distance.
  pub record IsPairOf (xs : List ℕ) (c : BestPair) : Type 0 where
    pub ordered : c.i < c.j
    pub within : c.j < length xs
    pub first : get_or xs c.i 0 ≡ c.a
    pub second : get_or xs c.j 0 ≡ c.b
    pub measured : c.d ≡ dist2 (player s c.a) (player s c.b)

  abbrev IsPicked : List ℕ → Option BestPair → Type 0
  IsPicked xs none = Unit
  IsPicked xs (some c) = IsPairOf xs c

  IsPicked-keep :
      (xs : List ℕ) (best : Option BestPair) (c : BestPair)
      → IsPicked xs best
      → IsPairOf xs c
      → IsPicked xs (keep_better s best c)
  unfolding keep_better
  IsPicked-keep xs best c h k = elim (Bool-cases (is_better s c best)) [
    | inl e ↦ rw e k
    | inr e ↦ rw e h
  ]

  -- `ys` are the entries of `xs` from `n` on.
  abbrev IsRest : List ℕ → ℕ → List ℕ → Type 0
  IsRest xs n ys =
      (n + length ys ≡ length xs) × ((k : ℕ) → k < length ys → get_or xs (n + k) 0 ≡ get_or ys k 0)

  IsRest-next : (xs : List ℕ) (n y : ℕ) (ys : List ℕ) → IsRest xs n (y ∷ ys) → IsRest xs (n + 1) ys
  IsRest-next xs n y ys (size, same) = (
    omega arith,
    λ k h.
        subst (λ (m : ℕ). get_or xs m 0 ≡ get_or ys k 0) (omega arith) (same (suc k) (omega arith)),
  )

  IsRest-head : (xs : List ℕ) (n y : ℕ) (ys : List ℕ) → IsRest xs n (y ∷ ys) → get_or xs n 0 ≡ y
  IsRest-head xs n y ys (size, same) =
      subst (λ (m : ℕ). get_or xs m 0 ≡ y) (omega arith) (same 0 (omega arith))

  inner-IsPicked :
      (xs : List ℕ) (i a j : ℕ) (best : Option BestPair) (ys : List ℕ)
      → get_or xs i 0 ≡ a
      → i < j
      → IsRest xs j ys
      → IsPicked xs best
      → IsPicked xs (inner_loop s i a best j ys)
  unfolding inner_loop
  inner-IsPicked xs i a j best [] e lt rest h = h
  inner-IsPicked xs i a j best (y ∷ ys) e lt rest h =
      inner-IsPicked xs i a (j + 1) _ ys e (omega arith) (IsRest-next xs j y ys rest) (
        IsPicked-keep xs best (candidate s i j a y) h (
          let size = rest.0 in
          record {
            ordered = lt;
            within = omega arith;
            first = e;
            second = IsRest-head xs j y ys rest;
            measured = refl;
          }))

  outer-IsPicked :
      (xs : List ℕ) (i : ℕ) (best : Option BestPair) (ys : List ℕ)
      → IsRest xs i ys
      → IsPicked xs best
      → IsPicked xs (outer_loop s best i ys)
  unfolding outer_loop
  outer-IsPicked xs i best [] rest h = h
  outer-IsPicked xs i best (y ∷ ys) rest h =
      let next = IsRest-next xs i y ys rest in
      outer-IsPicked xs (i + 1) _ ys next
        (inner-IsPicked xs i y (i + 1) best ys (IsRest-head xs i y ys rest) (omega arith) next h)

eqb_ℤ_refl : (a : ℤ) → eqb_ℤ a a ≡ true
eqb_ℤ_refl (pos n) = ground arith
eqb_ℤ_refl (negsuc n) = ground arith

not-is_better :
    (s : ServerState) (c best : BestPair)
    → is_better s c (some best) ≡ false
    → (ltb_ℤ c.d best.d ≡ false)
      × (c.d ≡ best.d → ltb (player s c.a).id (player s best.a).id ≡ false)
      × (c.d ≡ best.d
          → (player s c.a).id ≡ (player s best.a).id
          → ltb (player s c.b).id (player s best.b).id ≡ false)
unfolding is_better
not-is_better s c best h =
    (ground arith, λ e. ground (arith, eqb_ℤ_refl c.d), λ e f. ground (arith, eqb_ℤ_refl c.d))

-- The pair that a round of the loop takes is one of the unmatched players at two places, the first in
-- front of the second, with the code's distance between them, and no other pair of unmatched
-- players at places `k` < `l` is nearer, or as near with a smaller first id, or as near with the same
-- first id and a smaller second one.
pub outer_loop_nearest :
    (s : ServerState) (xs : List ℕ) (best : BestPair)
    → outer_loop s none 0 xs ≡ some best
    → IsPairOf s xs best
      × ((k l : ℕ)
          → k < l
          → l < length xs
          → let c = candidate s k l (get_or xs k 0) (get_or xs l 0) in
            (ltb_ℤ c.d best.d ≡ false)
            × (c.d ≡ best.d → ltb (player s c.a).id (player s best.a).id ≡ false)
            × (c.d ≡ best.d
                → (player s c.a).id ≡ (player s best.a).id
                → ltb (player s c.b).id (player s best.b).id ≡ false))
outer_loop_nearest s xs best e = (
  subst (IsPicked s xs) e (
      outer-IsPicked s xs 0 none xs
        ((omega arith), λ k h. ap (λ (m : ℕ). get_or xs m 0) (omega arith)) tt),
  λ k l lt h. not-is_better s (candidate s k l (get_or xs k 0) (get_or xs l 0)) best (
      subst (NotBetter s (candidate s k l (get_or xs k 0) (get_or xs l 0))) e
        (outer_covers s 0 none xs k l k l (omega arith) (omega arith) lt h)),
)

-- ===== src/Game/Pairs/Cover.antt =====
-- Whom `build_pairs` of src/game.c pairs.
use rock_paper_scissors_batt.Base.{
  ℕ, zero, suc, ◌+◌, ◌*◌, ◌<◌, ◌≤◌, ◌≡◌, refl, ap, List, [], ◌∷◌, Option, none, some, Bool, true,
  false, ◌&&◌, leb, leb→le, arith, occurrences, length, get_or, if◌then◌else◌,
}
use rock_paper_scissors_batt.State.{Player, ServerState, Pair, player, player_is_alive, empty_slot}
use rock_paper_scissors_batt.State.Slots.{alive-empty}
use rock_paper_scissors_batt.Game.Pairs.{
  BestPair, Pairing, with_pair, is_better, keep_better, inner_loop, outer_loop, remove_at,
  pair_loop, bye_of, collect, build_pairs,
}

-- The best pair stands at two places of the list, the first before the second.
pub record Places (xs : List ℕ) (c : BestPair) : Type 0 where
  pub first : c.i < c.j
  pub second : c.j < length xs
  pub at_i : c.a ≡ get_or xs c.i 0
  pub at_j : c.b ≡ get_or xs c.j 0

length-remove_at : (k : ℕ) (xs : List ℕ) → k < length xs → suc (length (remove_at k xs)) ≡ length xs
unfolding remove_at
length-remove_at k [] h = absurd (omega arith)
length-remove_at zero (x ∷ xs) h = refl
length-remove_at (suc k) (x ∷ xs) h = omega (arith, length-remove_at k xs (omega arith))

occurrences-remove_at :
    (v k : ℕ) (xs : List ℕ)
    → k < length xs
    → occurrences v xs ≡ occurrences v (get_or xs k 0 ∷ remove_at k xs)
unfolding remove_at occurrences
occurrences-remove_at v k [] h = absurd (omega arith)
occurrences-remove_at v zero (x ∷ xs) h = refl
occurrences-remove_at v (suc k) (x ∷ xs) h =
    omega (arith, occurrences-remove_at v k xs (omega arith))

get_or-remove_at : (i j : ℕ) (xs : List ℕ) → i < j → get_or (remove_at j xs) i 0 ≡ get_or xs i 0
unfolding remove_at
get_or-remove_at i j [] h = refl
get_or-remove_at i zero (x ∷ xs) h = absurd (omega arith)
get_or-remove_at zero (suc j) (x ∷ xs) h = refl
get_or-remove_at (suc i) (suc j) (x ∷ xs) h = get_or-remove_at i j xs (omega arith)

occurrences-take_pair :
    (v : ℕ) (xs : List ℕ) (c : BestPair)
    → Places xs c
    → occurrences v xs ≡ occurrences v (c.a ∷ (c.b ∷ remove_at c.i (remove_at c.j xs)))
unfolding occurrences
occurrences-take_pair v xs c p =
    rw (p.at_i, p.at_j, ← get_or-remove_at c.i c.j xs p.first)
      (let first = p.first in
        omega (
          arith,
          occurrences-remove_at v c.j xs p.second,
          occurrences-remove_at v c.i (remove_at c.j xs)
              (omega (arith, length-remove_at c.j xs p.second)),
        ))

length-take_pair :
    (xs : List ℕ) (c : BestPair)
    → Places xs c
    → length (remove_at c.i (remove_at c.j xs)) + 2 ≡ length xs
length-take_pair xs c p =
    let first = p.first in
    let one = length-remove_at c.j xs p.second in
    omega (arith, one, length-remove_at c.i (remove_at c.j xs) (omega arith))

-- `ys` is what stands from place `i` on.
record Suffix (xs : List ℕ) (i : ℕ) (ys : List ℕ) : Type 0 where
  len : i + length ys ≡ length xs
  same : (k m : ℕ) → i + k ≡ m → get_or ys k 0 ≡ get_or xs m 0

Suffix-tail : (xs : List ℕ) (i y : ℕ) (ys : List ℕ) → Suffix xs i (y ∷ ys) → Suffix xs (i + 1) ys
Suffix-tail xs i y ys s = record {
  len = let l = s.len in omega arith;
  same = λ k m e. s.same (suc k) m (omega arith);
}

abbrev OptPlaces : List ℕ → Option BestPair → Type 0
OptPlaces xs none = Unit
OptPlaces xs (some c) = Places xs c

abbrev IsFound : Option BestPair → Type 0
IsFound none = ⊥
IsFound (some c) = Unit

module _ (s : ServerState) where
  keep_better-Places :
      (xs : List ℕ) (best : Option BestPair) (c : BestPair)
      → OptPlaces xs best
      → Places xs c
      → OptPlaces xs (keep_better s best c)
  unfolding keep_better
  keep_better-Places xs best c old new = pick (is_better s c best)
    where
      pick : (t : Bool) → OptPlaces xs (if t then some c else best)
      pick true = new
      pick false = old

  keep_better-IsFound : (best : Option BestPair) (c : BestPair) → IsFound (keep_better s best c)
  unfolding keep_better is_better
  keep_better-IsFound none c = tt
  keep_better-IsFound (some best) c = pick (is_better s c (some best))
    where
      pick : (t : Bool) → IsFound (if t then some c else some best)
      pick true = tt
      pick false = tt

  inner-IsFound :
      (i a j : ℕ) (best : Option BestPair) (ys : List ℕ)
      → IsFound best
      → IsFound (inner_loop s i a best j ys)
  unfolding inner_loop
  inner-IsFound i a j best [] h = h
  inner-IsFound i a j best (y ∷ ys) h = inner-IsFound i a (j + 1) _ ys (keep_better-IsFound best _)

  outer-IsFound :
      (i : ℕ) (best : Option BestPair) (ys : List ℕ)
      → IsFound best
      → IsFound (outer_loop s best i ys)
  unfolding outer_loop
  outer-IsFound i best [] h = h
  outer-IsFound i best (y ∷ ys) h = outer-IsFound (i + 1) _ ys (inner-IsFound i y (i + 1) best ys h)

  -- Two participants or more: a best pair is found.
  outer_finds : (xs : List ℕ) → 2 ≤ length xs → IsFound (outer_loop s none 0 xs)
  unfolding outer_loop inner_loop
  outer_finds [] h = absurd (omega arith)
  outer_finds (x ∷ []) h = absurd (omega arith)
  outer_finds (x ∷ (y ∷ ys)) h =
      outer-IsFound _ _ (y ∷ ys) (inner-IsFound _ _ _ _ ys (keep_better-IsFound none _))

  inner-Places :
      (xs : List ℕ) (i a j : ℕ) (best : Option BestPair) (ys : List ℕ)
      → Suffix xs j ys
      → i < j
      → a ≡ get_or xs i 0
      → OptPlaces xs best
      → OptPlaces xs (inner_loop s i a best j ys)
  unfolding inner_loop
  inner-Places xs i a j best [] suf lt e h = h
  inner-Places xs i a j best (y ∷ ys) suf lt e h =
      inner-Places xs i a (j + 1) _ ys (Suffix-tail xs j y ys suf) (omega arith) e (
        keep_better-Places xs best _ h (record {
          first = lt;
          second = let l = suf.len in omega arith;
          at_i = e;
          at_j = suf.same 0 j (omega arith);
        }))

  outer-Places :
      (xs : List ℕ) (i : ℕ) (best : Option BestPair) (ys : List ℕ)
      → Suffix xs i ys
      → OptPlaces xs best
      → OptPlaces xs (outer_loop s best i ys)
  unfolding outer_loop
  outer-Places xs i best [] suf h = h
  outer-Places xs i best (y ∷ ys) suf h =
      let tail = Suffix-tail xs i y ys suf in
      outer-Places xs (i + 1) _ ys tail
        (inner-Places xs i y (i + 1) best ys tail (omega arith) (suf.same 0 i (omega arith)) h)

  outer_loop-Places : (xs : List ℕ) → OptPlaces xs (outer_loop s none 0 xs)
  outer_loop-Places xs =
      outer-Places xs 0 none xs
        (record { len = omega arith; same = λ k m e. ap (λ n. get_or xs n 0) (omega arith) }) tt

-- The indexes of some pairs, in order.
pub members : List Pair → List ℕ
members [] = []
members (p ∷ ps) = p.a ∷ (p.b ∷ members ps)

abbrev pub bye_list : Option ℕ → List ℕ
bye_list none = []
bye_list (some i) = i ∷ []

-- What the while loop leaves: every index as often as before, and fewer than two unpaired.
record Paired (xs : List ℕ) (r : Pairing) : Type 0 where
  same : (v : ℕ) → occurrences v xs ≡ occurrences v (members r.pairs) + occurrences v r.unmatched
  lens : length xs ≡ 2 * length r.pairs + length r.unmatched
  few : length r.unmatched ≤ 1

module _ (s : ServerState) where
  pair_loop-Paired :
      (left : ℕ) (xs : List ℕ) → length xs ≤ 2 * left + 1 → Paired xs (pair_loop s left xs)
  unfolding pair_loop members occurrences
  pair_loop-Paired zero xs h = record {
    same = λ v. omega arith;
    lens = omega arith;
    few = omega arith;
  }
  pair_loop-Paired (suc left) xs h =
      split (leb 2 (length xs)) refl (outer_loop s none 0 xs) (outer_loop-Places s xs)
        (λ two. outer_finds s xs (leb→le _ _ two)) λ ys short. pair_loop-Paired left ys short
    where
      split :
          (two : Bool)
          → leb 2 (length xs) ≡ two
          → (best : Option BestPair) → OptPlaces xs best
          → (leb 2 (length xs) ≡ true → IsFound best)
          → ((ys : List ℕ) → length ys ≤ 2 * left + 1 → Paired ys (pair_loop s left ys))
          → Paired xs (elim two [
            | false ↦ record { pairs = []; unmatched = xs }
            | true ↦ elim best [
              | none ↦ record { pairs = []; unmatched = xs }
              | some c ↦
                  with_pair
                    (record { a = c.a; b = c.b })
                    (pair_loop s left (remove_at c.i (remove_at c.j xs)))
            ]
          ])
      split false two best p f ih = record {
        same = λ v. omega arith;
        lens = omega arith;
        few = ground arith;
      }
      split true two none p f ih = absurd (f two)
      split true two (some c) p f ih =
          let ys : List ℕ = remove_at c.i (remove_at c.j xs) in
          let l = length-take_pair xs c p in
          let r = ih ys (omega arith) in
          record {
            same = λ v. omega (arith, occurrences-take_pair v xs c p, r.same v);
            lens = omega (arith, r.lens);
            few = r.few;
          }

abbrev takes_part : Player → Bool
takes_part p = player_is_alive p && p.in_round

collect_above : (v i : ℕ) (ps : List Player) → v < i → occurrences v (collect i ps) ≡ 0
unfolding collect occurrences
collect_above v i [] h = refl
collect_above v i (p ∷ ps) h = ground (arith, collect_above v (i + 1) ps)

occurrences-collect :
    (v i k : ℕ) (ps : List Player)
    → i + k ≡ v
    → occurrences v (collect i ps) ≡ (if takes_part (get_or ps k empty_slot) then 1 else 0)
unfolding collect occurrences
occurrences-collect v i k [] e = rw alive-empty refl
occurrences-collect v i zero (p ∷ ps) e = ground (arith, collect_above v (i + 1) ps)
occurrences-collect v i (suc k) (p ∷ ps) e = ground (arith, occurrences-collect v (i + 1) k ps)

length-collect-le : (i : ℕ) (ps : List Player) → length (collect i ps) ≤ length ps
unfolding collect
length-collect-le i [] = omega arith
length-collect-le i (p ∷ ps) = ground (arith, length-collect-le (i + 1) ps)

bye_of_lem : (xs : List ℕ) → length xs ≤ 1 → bye_list (bye_of xs) ≡ xs
unfolding bye_of
bye_of_lem [] h = refl
bye_of_lem (x ∷ []) h = refl
bye_of_lem (x ∷ (y ∷ ys)) h = absurd (omega arith)

-- With room for half the slots (the server passes 16 for 32), every player that is alive and in the
-- round stands in exactly one pair or has the bye, nobody else does, and the bye is given only if
-- the number of those players is odd.
pub build_pairs_cover :
    (s : ServerState) (max_pairs : ℕ)
    → length s.players ≤ 2 * max_pairs + 1
    → let r = build_pairs s max_pairs in
      ((v : ℕ)
        → occurrences v (members r.0) + occurrences v (bye_list r.1)
          ≡ (if player_is_alive (player s v) && (player s v).in_round then 1 else 0))
      × (length (collect 0 s.players) ≡ 2 * length r.0 + length (bye_list r.1))
unfolding build_pairs
build_pairs_cover s n h =
    rw (bye_of_lem _ done.few) (
      λ v. omega (arith, done.same v, occurrences-collect v 0 v s.players (omega arith)),
      done.lens,
    )
  where
    done : Paired (collect 0 s.players) (pair_loop s n (collect 0 s.players))
    done = pair_loop-Paired s n _ (omega (arith, length-collect-le 0 s.players))

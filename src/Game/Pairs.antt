-- ===== src/Game/Pairs.antt =====
-- `build_pairs` of src/game.c, and its distance `dist2`.
pub mod Nearest
pub mod Cover
use rock_paper_scissors_batt.Base.{
  ℕ, zero, suc, ◌+◌, List, [], ◌∷◌, Option, none, some, Bool, true, false, ◌&&◌, ◌||◌, ltb, leb,
  ◌==◌, if◌then◌else◌, length,
}
use rock_paper_scissors_batt.Base.Int.{ℤ, ltb_ℤ, eqb_ℤ}
use rock_paper_scissors_batt.Float.{single, sub, add, mul, to_int}
use rock_paper_scissors_batt.State.{Player, ServerState, Pair, player, player_is_alive}

unfoldable pub dist2 : Player → Player → ℤ
dist2 a b =
    let dx = sub single a.x b.x in
    let dy = sub single a.y b.y in to_int single (add single (mul single dx dx) (mul single dy dy))

-- The first loop: the indexes, from `i` on, of the players that take part in the round.
unfoldable pub collect : ℕ → List Player → List ℕ
collect i [] = []
collect i (p ∷ ps) =
    let rest = collect (i + 1) ps in if player_is_alive p && p.in_round then i ∷ rest else rest

-- best_i, best_j and best_d, with unmatched[best_i] and unmatched[best_j].
pub record BestPair : Type 0 where
  pub i : ℕ
  pub j : ℕ
  pub d : ℤ
  pub a : ℕ
  pub b : ℕ

-- The test of the inner loop.
unfoldable pub is_better : ServerState → BestPair → Option BestPair → Bool
is_better s c none = true
is_better s c (some best) =
    ltb_ℤ c.d best.d
    || (eqb_ℤ c.d best.d
        && (ltb (player s c.a).id (player s best.a).id
            || ((player s c.a).id == (player s best.a).id
                && ltb (player s c.b).id (player s best.b).id)))

unfoldable pub keep_better : ServerState → Option BestPair → BestPair → Option BestPair
keep_better s best c = if is_better s c best then some c else best

abbrev pub candidate : ServerState → ℕ → ℕ → ℕ → ℕ → BestPair
candidate s i j a b = record { i = i; j = j; d = dist2 (player s a) (player s b); a = a; b = b }

-- for (int j …): `b ∷ rest` are unmatched[j], unmatched[j + 1], …
unfoldable pub inner_loop : ServerState → ℕ → ℕ → Option BestPair → ℕ → List ℕ → Option BestPair
inner_loop s i a best j [] = best
inner_loop s i a best j (b ∷ rest) =
    inner_loop s i a (keep_better s best (candidate s i j a b)) (j + 1) rest

-- for (int i …): `a ∷ rest` are unmatched[i], unmatched[i + 1], …
unfoldable pub outer_loop : ServerState → Option BestPair → ℕ → List ℕ → Option BestPair
outer_loop s best i [] = best
outer_loop s best i (a ∷ rest) = outer_loop s (inner_loop s i a best (i + 1) rest) (i + 1) rest

-- unmatched[k], unmatched[k + 1], … move down over unmatched[at].
unfoldable pub remove_at : ℕ → List ℕ → List ℕ
remove_at at [] = []
remove_at zero (x ∷ xs) = xs
remove_at (suc at) (x ∷ xs) = x ∷ remove_at at xs

pub record Pairing : Type 0 where
  pub pairs : List Pair
  pub unmatched : List ℕ

abbrev pub with_pair : Pair → Pairing → Pairing
with_pair p r = record r { pairs = p ∷ r.pairs }

-- The while loop; `left` is max_pairs - pair_count. The case without a best pair does not arise.
unfoldable pub pair_loop : ServerState → ℕ → List ℕ → Pairing
pair_loop s zero unmatched = record { pairs = []; unmatched = unmatched }
pair_loop s (suc left) unmatched = elim (leb 2 (length unmatched)) [
  | false ↦ record { pairs = []; unmatched = unmatched }
  | true ↦ elim (outer_loop s none 0 unmatched) [
    | none ↦ record { pairs = []; unmatched = unmatched }
    | some best ↦
        with_pair (record { a = best.a; b = best.b })
          (pair_loop s left (remove_at best.i (remove_at best.j unmatched)))
  ]
]

-- *bye_index; `none` is -1.
unfoldable pub bye_of : List ℕ → Option ℕ
bye_of [] = none
bye_of (x ∷ []) = some x
bye_of (x ∷ (y ∷ ys)) = none

unfoldable pub build_pairs : ServerState → ℕ → List Pair × Option ℕ
build_pairs s max_pairs =
    let r = pair_loop s max_pairs (collect 0 s.players) in (r.pairs, bye_of r.unmatched)

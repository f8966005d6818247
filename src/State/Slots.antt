-- ===== src/State/Slots.antt =====
-- Reading and writing the slots of `ServerState` (src/common.h), one slot and all slots.
use rock_paper_scissors_batt.Base.{
  ℕ, zero, suc, ◌+◌, ◌<◌, ◌≤◌, ◌≡◌, refl, sym, ap, List, [], ◌∷◌, Bool, true, false, arith, length,
  get_or, set, map, count_if, if◌then◌else◌, Bool-cases, inl, inr,
}
use rock_paper_scissors_batt.State.{
  Player, empty_slot, player_is_alive, player_is_admitted, player_is_registered,
}

pub lt-length_of_connected :
    (xs : List Player) (i : ℕ) → (get_or xs i empty_slot).connected ≡ true → i < length xs
unfolding empty_slot
lt-length_of_connected [] i h = cc
lt-length_of_connected (x ∷ xs) zero h = omega arith
lt-length_of_connected (x ∷ xs) (suc i) h = omega (arith, lt-length_of_connected xs i h)

pub alive-empty : player_is_alive empty_slot ≡ false
unfolding player_is_alive empty_slot
alive-empty = refl

pub connected-empty : empty_slot.connected ≡ false
unfolding empty_slot
connected-empty = refl

pub admitted-empty : player_is_admitted empty_slot ≡ false
unfolding player_is_admitted empty_slot
admitted-empty = refl

pub connected_of_alive : (p : Player) → player_is_alive p ≡ true → p.connected ≡ true
unfolding player_is_alive
connected_of_alive p h = ground arith

pub connected_of_registered : (p : Player) → player_is_registered p ≡ true → p.connected ≡ true
unfolding player_is_registered
connected_of_registered p h = ground arith

pub admitted_of_alive : (p : Player) → player_is_alive p ≡ true → player_is_admitted p ≡ true
unfolding player_is_alive player_is_admitted
admitted_of_alive p h = ground arith

pub lt-length_of_alive :
    (xs : List Player) (i : ℕ) → player_is_alive (get_or xs i empty_slot) ≡ true → i < length xs
lt-length_of_alive xs i h = lt-length_of_connected xs i (connected_of_alive _ h)

-- A write relates each slot to its new value, if it does so at its own index.
pub set-each :
    (R : Player → Player → Type 0)
    → ((p : Player) → R p p)
    → (xs : List Player) (i : ℕ) (p : Player) → R (get_or xs i empty_slot) p
    → (k : ℕ) → R (get_or xs k empty_slot) (get_or (set xs i p) k empty_slot)
set-each R r [] i p h k = r empty_slot
set-each R r (x ∷ xs) zero p h zero = h
set-each R r (x ∷ xs) zero p h (suc k) = r _
set-each R r (x ∷ xs) (suc i) p h zero = r x
set-each R r (x ∷ xs) (suc i) p h (suc k) = set-each R r xs i p h k

pub map-each :
    (R : Player → Player → Type 0) (f : Player → Player)
    → R empty_slot empty_slot
    → ((p : Player) → R p (f p))
    → (xs : List Player) → (k : ℕ) → R (get_or xs k empty_slot) (get_or (map f xs) k empty_slot)
map-each R f e r [] k = e
map-each R f e r (x ∷ xs) zero = r x
map-each R f e r (x ∷ xs) (suc k) = map-each R f e r xs k

-- A slot that counts is found among those that are counted.
pub count_if-pos :
    (t : Player → Bool) (xs : List Player) (k : ℕ)
    → t empty_slot ≡ false
    → t (get_or xs k empty_slot) ≡ true
    → 0 < count_if t xs
unfolding count_if
count_if-pos t [] k e h = cc
count_if-pos t (x ∷ xs) zero e h = ground arith
count_if-pos t (x ∷ xs) (suc k) e h = omega (arith, count_if-pos t xs k e h)

pub count_if_found :
    (t : Player → Bool) (xs : List Player)
    → 0 < count_if t xs
    → (k : ℕ) × (t (get_or xs k empty_slot) ≡ true)
unfolding count_if
count_if_found t [] h = absurd (omega arith)
count_if_found t (x ∷ xs) h = elim (Bool-cases (t x)) [
  | inl e ↦ (0, e)
  | inr e ↦ let (k, found) = count_if_found t xs (ground arith) in (suc k, found)
]

-- A test that fails wherever another does counts no more.
pub count_if_mono :
    (t : Player → Bool) (f : Player → Player) (xs : List Player)
    → ((p : Player) → t (f p) ≡ true → t p ≡ true)
    → count_if t (map f xs) ≤ count_if t xs
unfolding count_if
count_if_mono t f [] h = omega arith
count_if_mono t f (x ∷ xs) h = ground (arith, h x, count_if_mono t f xs h)

pub count_if-set :
    (t : Player → Bool) (xs : List Player) (i : ℕ) (p : Player)
    → i < length xs
    → count_if t (set xs i p) + (if t (get_or xs i empty_slot) then 1 else 0)
      ≡ count_if t xs + (if t p then 1 else 0)
unfolding count_if
count_if-set t [] i p h = absurd (omega arith)
count_if-set t (x ∷ xs) zero p h = omega arith
count_if-set t (x ∷ xs) (suc i) p h = omega (arith, count_if-set t xs i p (omega arith))

-- A write that keeps the answer of a test keeps its count.
pub count_if-set_same :
    (t : Player → Bool) (xs : List Player) (i : ℕ) (p : Player)
    → t p ≡ t (get_or xs i empty_slot)
    → count_if t (set xs i p) ≡ count_if t xs
unfolding count_if
count_if-set_same t [] i p h = refl
count_if-set_same t (x ∷ xs) zero p h = rw h
count_if-set_same t (x ∷ xs) (suc i) p h = rw (count_if-set_same t xs i p h)

pub count_if-map_same :
    (t : Player → Bool) (f : Player → Player) (xs : List Player)
    → ((p : Player) → t (f p) ≡ t p)
    → count_if t (map f xs) ≡ count_if t xs
unfolding count_if
count_if-map_same t f [] h = refl
count_if-map_same t f (x ∷ xs) h = rw (h x, count_if-map_same t f xs h)

pub length-map : (f : Player → Player) (xs : List Player) → length (map f xs) ≡ length xs
length-map f [] = refl
length-map f (x ∷ xs) = ap suc (length-map f xs)

pub count_if-le : (t : Player → Bool) (xs : List Player) → count_if t xs ≤ length xs
unfolding count_if
count_if-le t [] = omega arith
count_if-le t (x ∷ xs) = ground (arith, count_if-le t xs)

pub get_or-map :
    (f : Player → Player) (xs : List Player) (k : ℕ)
    → f empty_slot ≡ empty_slot
    → get_or (map f xs) k empty_slot ≡ f (get_or xs k empty_slot)
get_or-map f [] k e = sym e
get_or-map f (x ∷ xs) zero e = refl
get_or-map f (x ∷ xs) (suc k) e = get_or-map f xs k e

pub count_if_pointwise :
    (t : Player → Bool) (xs ys : List Player)
    → length ys ≡ length xs
    → ((k : ℕ) → t (get_or ys k empty_slot) ≡ t (get_or xs k empty_slot))
    → count_if t ys ≡ count_if t xs
unfolding count_if
count_if_pointwise t [] [] e h = refl
count_if_pointwise t [] (y ∷ ys) e h = absurd (omega arith)
count_if_pointwise t (x ∷ xs) [] e h = absurd (omega arith)
count_if_pointwise t (x ∷ xs) (y ∷ ys) e h =
    rw (h 0, count_if_pointwise t xs ys (omega arith) (λ k. h (suc k)))

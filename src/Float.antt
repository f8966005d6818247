-- ===== src/Float.antt =====
-- The C types `float` and `double`, which src/game.c, src/chase_simulation.c and
-- src/server_state.c compute with: IEEE 754 values as signed magnitudes, with rounding to the
-- nearest even value written out. A finite value is a whole number of units, and a unit is the
-- smallest positive value of its format (2^-149 for `float`, 2^-1074 for `double`).
pub mod Order
use rock_paper_scissors_batt.Base.{
  ℕ, zero, suc, ◌+◌, ◌-◌, ◌*◌, ◌/◌, ◌%◌, ◌^◌, Bool, true, false, not, ◌&&◌, ◌||◌, ltb, leb, ◌==◌,
  if◌then◌else◌,
}
use rock_paper_scissors_batt.Base.Int.{ℤ, pos, negsuc, neg_ℕ}

pub record Format : Type 0 where
  -- Bits of the significand.
  pub precision : ℕ
  -- A unit is 2 ^ -scale.
  pub scale : ℕ
  -- Finite magnitudes stay below 2 ^ top units.
  pub top : ℕ

abbrev pub single : Format
single = record { precision = 24; scale = 149; top = 277 }

abbrev pub double : Format
double = record { precision = 53; scale = 1074; top = 2098 }

pub data Float : Type 0 where
  -- The sign (true is minus) and the magnitude in units.
  finite : Bool → ℕ → Float
  inf : Bool → Float
  nan : Float

-- The number of binary digits of `n`; `fuel` at least `n` is enough.
bit_length : ℕ → ℕ → ℕ
bit_length zero n = 0
bit_length (suc fuel) n = elim (n == 0) [ true ↦ 0 | false ↦ suc (bit_length fuel (n / 2)) ]

-- num / den, rounded to a multiple of `step`, ties to the even multiple.
unfoldable pub round_to : ℕ → ℕ → ℕ → ℕ
round_to step num den =
    let m = num / (den * step) in
    let twice = 2 * (num - m * (den * step)) in
    if ltb (den * step) twice || (twice == den * step) && (m % 2 == 1)
    then (m + 1) * step
    else m * step

-- num / den units as a value of the format.
round : Format → Bool → ℕ → ℕ → Float
unfolding bit_length round_to
round fmt sign num den =
    let whole = num / den in
    let step = 2 ^ (bit_length whole whole - fmt.precision) in
    let mag = round_to step num den in if ltb mag (2 ^ fmt.top) then finite sign mag else inf sign

abbrev pub xor_sign : Bool → Bool → Bool
xor_sign true b = not b
xor_sign false b = b

pub negate : Float → Float
negate (finite s m) = finite (not s) m
negate (inf s) = inf (not s)
negate nan = nan

-- The sum of two finite values. An exact zero is +0, but the sum of two negative zeros is -0.
add_finite : Format → Bool → ℕ → Bool → ℕ → Float
unfolding round
add_finite fmt true a true b = round fmt true (a + b) 1
add_finite fmt false a false b = round fmt false (a + b) 1
add_finite fmt false a true b =
    if ltb a b then round fmt true (b - a) 1 else round fmt false (a - b) 1
add_finite fmt true a false b =
    if ltb b a then round fmt true (a - b) 1 else round fmt false (b - a) 1

unfoldable pub add : Format → Float → Float → Float
unfolding add_finite
add fmt (finite s a) (finite t b) = add_finite fmt s a t b
add fmt (inf s) (inf t) = if xor_sign s t then nan else inf s
add fmt (inf s) (finite t b) = inf s
add fmt (finite s a) (inf t) = inf t
add fmt nan y = nan
add fmt (finite s a) nan = nan
add fmt (inf s) nan = nan

unfoldable pub sub : Format → Float → Float → Float
unfolding add negate
sub fmt x y = add fmt x (negate y)

unfoldable pub mul : Format → Float → Float → Float
unfolding round
mul fmt (finite s a) (finite t b) = round fmt (xor_sign s t) (a * b) (2 ^ fmt.scale)
mul fmt (inf s) (inf t) = inf (xor_sign s t)
mul fmt (inf s) (finite t b) = if b == 0 then nan else inf (xor_sign s t)
mul fmt (finite s a) (inf t) = if a == 0 then nan else inf (xor_sign s t)
mul fmt nan y = nan
mul fmt (finite s a) nan = nan
mul fmt (inf s) nan = nan

unfoldable pub div : Format → Float → Float → Float
unfolding round
div fmt (finite s a) (finite t b) =
    if b == 0
    then (if a == 0 then nan else inf (xor_sign s t))
    else round fmt (xor_sign s t) (a * 2 ^ fmt.scale) b
div fmt (inf s) (inf t) = nan
div fmt (inf s) (finite t b) = inf (xor_sign s t)
div fmt (finite s a) (inf t) = finite (xor_sign s t) 0
div fmt nan y = nan
div fmt (finite s a) nan = nan
div fmt (inf s) nan = nan

-- The integer square root, one binary digit of the root for two of `n`; `fuel` at least `n` is
-- enough.
isqrt : ℕ → ℕ → ℕ
isqrt zero n = 0
isqrt (suc fuel) n = elim (n == 0) [
  | true ↦ 0
  | false ↦ let r = 2 * isqrt fuel (n / 4) in if leb ((r + 1) * (r + 1)) n then r + 1 else r
]

-- The root of a * 2 ^ scale has more digits than the significand keeps, so the half unit that
-- stands for an inexact root decides the rounding.
sqrt_finite : Format → ℕ → Float
unfolding round isqrt
sqrt_finite fmt a =
    let n = a * 2 ^ fmt.scale in
    let r = isqrt n n in round fmt false (if r * r == n then 2 * r else 2 * r + 1) 2

unfoldable pub sqrt : Format → Float → Float
unfolding sqrt_finite
sqrt fmt (finite false a) = sqrt_finite fmt a
sqrt fmt (finite true a) = if a == 0 then finite true 0 else nan
sqrt fmt (inf false) = inf false
sqrt fmt (inf true) = nan
sqrt fmt nan = nan

-- x < y
unfoldable pub lt : Float → Float → Bool
lt (finite false a) (finite false b) = ltb a b
lt (finite true a) (finite true b) = ltb b a
lt (finite true a) (finite false b) = ltb 0 (a + b)
lt (finite false a) (finite true b) = false
lt (finite s a) (inf t) = not t
lt (inf s) (finite t b) = s
lt (inf true) (inf false) = true
lt (inf true) (inf true) = false
lt (inf false) (inf t) = false
lt nan y = false
lt (finite s a) nan = false
lt (inf s) nan = false

-- x == y
unfoldable pub eq : Float → Float → Bool
eq (finite false a) (finite false b) = a == b
eq (finite true a) (finite true b) = a == b
eq (finite true a) (finite false b) = a + b == 0
eq (finite false a) (finite true b) = a + b == 0
eq (inf s) (inf t) = not (xor_sign s t)
eq (finite s a) (inf t) = false
eq (inf s) (finite t b) = false
eq nan y = false
eq (finite s a) nan = false
eq (inf s) nan = false

-- x <= y
unfoldable pub le : Float → Float → Bool
unfolding lt eq
le x y = lt x y || eq x y

abbrev pub is_nan : Float → Bool
is_nan nan = true
is_nan _ = false

-- A decimal numerator over a power of ten, as the compiler and `scanf` read it.
unfoldable pub of_ratio : Format → Bool → ℕ → ℕ → Float
unfolding round
of_ratio fmt s num den = round fmt s (num * 2 ^ fmt.scale) den

unfoldable pub of_ℕ : Format → ℕ → Float
unfolding of_ratio
of_ℕ fmt n = of_ratio fmt false n 1

-- (float)x for a double x.
unfoldable pub to_single : Float → Float
unfolding round
to_single (finite s m) = round single s m (2 ^ (1074 - 149))
to_single (inf s) = inf s
to_single nan = nan

-- INT_MIN, what a conversion of a value outside `int` gives on x86-64. (C leaves it undefined.)
abbrev pub int_min : ℤ
int_min = negsuc (2 ^ 31 - 1)

-- (int)x for a float x: the fraction is dropped.
unfoldable pub to_int : Format → Float → ℤ
to_int fmt (finite s m) =
    let n = m / 2 ^ fmt.scale in if ltb n (2 ^ 31) then (if s then neg_ℕ n else pos n) else int_min
to_int fmt (inf s) = int_min
to_int fmt nan = int_min

-- ===== src/Text/Print.antt =====
-- The `printf` conversions of the sources: `%d`, `%ld`, `%c`, `%s`, `%.1f` and `%.3f`.
use rock_paper_scissors_batt.Base.{
  ℕ, zero, suc, ◌+◌, ◌*◌, ◌/◌, ◌%◌, ◌^◌, [], ◌∷◌, ◌++◌, Bool, true, false, ltb,
}
use rock_paper_scissors_batt.Float.{Float, finite, inf, nan, single, round_to}
use rock_paper_scissors_batt.Text.Bytes.{Bytes, codes}

-- The decimal digits of `n` before `acc`; `fuel` above `n` is enough.
unfoldable pub print_digits : ℕ → ℕ → Bytes → Bytes
print_digits zero n acc = acc
print_digits (suc fuel) n acc = elim (ltb n 10) [
  | true ↦ (48 + n) ∷ acc
  | false ↦ print_digits fuel (n / 10) ((48 + n % 10) ∷ acc)
]

-- %d of a number that is not negative
unfoldable pub print_nat : ℕ → Bytes
unfolding print_digits
print_nat n = print_digits (suc n) n []

-- %d of a flag
unfoldable pub print_flag : Bool → Bytes
print_flag true = 49 ∷ []
print_flag false = 48 ∷ []

-- Exactly `k` digits, with leading zeros.
unfoldable pub pad_digits : ℕ → ℕ → Bytes
pad_digits zero n = []
pad_digits (suc k) n = pad_digits k (n / 10) ++ ((48 + n % 10) ∷ [])

unfoldable pub sign_text : Bool → Bytes
sign_text true = 45 ∷ []
sign_text false = []

-- m units in units of the last place: the exact value, rounded to the nearest, ties to even.
unfoldable pub in_places : ℕ → ℕ → ℕ
unfolding round_to
in_places places m = round_to 1 (m * 10 ^ places) (2 ^ single.scale)

-- A number of units of the last place.
unfoldable pub print_places : ℕ → ℕ → Bytes
unfolding print_nat pad_digits
print_places places n = print_nat (n / 10 ^ places) ++ (46 ∷ pad_digits places (n % 10 ^ places))

-- %.<places>f of a float
unfoldable pub print_float : ℕ → Float → Bytes
unfolding in_places print_places sign_text
print_float places (finite s m) = sign_text s ++ print_places places (in_places places m)
print_float places (inf s) = sign_text s ++ codes "inf"
print_float places nan = codes "nan"

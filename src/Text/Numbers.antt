-- ===== src/Text/Numbers.antt =====
-- Numbers that are printed and read again: `%d` and `%.3f` of Text/Print.antt and Text/Scan.antt.
pub mod Decimal
pub mod Whole
pub mod Length
use rock_paper_scissors_batt.Base.{
  ℕ, zero, suc, ◌+◌, ◌*◌, ◌/◌, ◌%◌, ◌^◌, ◌<◌, ◌≡◌, refl, sym, ◌∙◌, ap, [], ◌∷◌, ◌++◌, Option, some,
  Bool, true, false, ltb, ltb→lt, lt→ltb, arith, inl, inr, Bool-cases, if◌then◌else◌,
}
use mathlib.Core.List.{append_assoc}
use native.Mathlib.Nat.{mul_assoc, pow-suc}
use rock_paper_scissors_batt.Text.Bytes.{Bytes}
use rock_paper_scissors_batt.Text.Print.{print_digits, print_nat, pad_digits}
use rock_paper_scissors_batt.Text.Scan.{Digits, scan_digits, digit_value}

digit_value_lem : (d : ℕ) → d < 10 → digit_value (48 + d) ≡ d
unfolding digit_value
digit_value_lem d h = ground arith

scan_digit :
    (v c d : ℕ) (cs : Bytes)
    → d < 10
    → scan_digits 10 v c ((48 + d) ∷ cs) ≡ scan_digits 10 (v * 10 + d) (c + 1) cs
unfolding scan_digits
scan_digit v c d cs h = rw (digit_value_lem d h, lt→ltb d 10 h) refl

pub print_digits-append :
    (fuel n : ℕ) (acc rest : Bytes)
    → print_digits fuel n acc ++ rest ≡ print_digits fuel n (acc ++ rest)
unfolding print_digits
print_digits-append zero n acc rest = refl
print_digits-append (suc fuel) n acc rest = elim (Bool-cases (ltb n 10)) [
  | inl e ↦ rw (e, print_digits) refl
  | inr e ↦ rw (e, print_digits) (print_digits-append fuel (n / 10) ((48 + n % 10) ∷ acc) rest)
]

times_ten : (v k : ℕ) → v * 10 ^ suc k ≡ v * 10 ^ k * 10
times_ten v k = ap (λ (p : ℕ). v * p) (pow-suc 10 k) ∙ sym (mul_assoc v (10 ^ k) 10)

-- Reading goes over the digits of `n`, whatever was read before.
pub scan-print_digits :
    (fuel n v c : ℕ) (acc : Bytes)
    → n < fuel
    → (k : ℕ) × (0 < k)
      × (scan_digits 10 v c (print_digits fuel n acc) ≡ scan_digits 10 (v * 10 ^ k + n) (c + k) acc)
unfolding print_digits
scan-print_digits zero n v c acc h = absurd (omega arith)
scan-print_digits (suc fuel) n v c acc h = elim (Bool-cases (ltb n 10)) [
  | inl e ↦ (1, omega arith, rw (e, print_digits) (scan_digit v c n acc (ltb→lt n 10 e)))
  | inr e ↦
      let (k, _, ih) = scan-print_digits fuel (n / 10) v c ((48 + n % 10) ∷ acc) (ground arith) in
      (
        suc k,
        omega arith,
        rw (e, print_digits)
            (ih ∙ scan_digit (v * 10 ^ k + n / 10) (c + k) (n % 10) acc (omega arith) ∙ λ i.
              scan_digits 10 (value k i) (counted k i) acc),
      )
]
  where
    value : (k : ℕ) → (v * 10 ^ k + n / 10) * 10 + n % 10 ≡ v * 10 ^ suc k + n
    value k = omega (arith, times_ten v k)

    counted : (k : ℕ) → c + k + 1 ≡ c + suc k
    counted k = omega arith

-- As many digits as were padded to.
pub scan-pad_digits :
    (k n v c : ℕ) (rest : Bytes)
    → n < 10 ^ k
    → scan_digits 10 v c (pad_digits k n ++ rest) ≡ scan_digits 10 (v * 10 ^ k + n) (c + k) rest
unfolding pad_digits
scan-pad_digits zero n v c rest h = λ i. scan_digits 10 (value i) (counted i) rest
  where
    value : v ≡ v * 1 + n
    value = omega arith

    counted : c ≡ c + 0
    counted = omega arith
scan-pad_digits (suc k) n v c rest h =
    ap (scan_digits 10 v c) (append_assoc (pad_digits k (n / 10)) ((48 + n % 10) ∷ []) rest)
    ∙ scan-pad_digits k (n / 10) v c ((48 + n % 10) ∷ rest) (omega (arith, times_ten 1 k))
    ∙ scan_digit (v * 10 ^ k + n / 10) (c + k) (n % 10) rest (omega arith)
    ∙ λ i. scan_digits 10 (value i) (counted i) rest
  where
    value : (v * 10 ^ k + n / 10) * 10 + n % 10 ≡ v * 10 ^ suc k + n
    value = omega (arith, times_ten v k)

    counted : c + k + 1 ≡ c + suc k
    counted = omega arith

-- ===== src/Text/Numbers/Length.antt =====
-- How long the decimal digits of a number are.
use rock_paper_scissors_batt.Base.{
  ℕ, zero, suc, ◌+◌, ◌/◌, ◌%◌, ◌^◌, ◌<◌, ◌≤◌, ◌≡◌, inl, inr, ◌∷◌, [], true, ltb, arith, length,
  Bool-cases,
}
use rock_paper_scissors_batt.Text.Bytes.{Bytes}
use rock_paper_scissors_batt.Text.Print.{print_digits, print_nat}

length-print_digits :
    (k fuel n : ℕ) (acc : Bytes)
    → n < 10 ^ suc k
    → length (print_digits fuel n acc) ≤ suc k + length acc
unfolding print_digits
length-print_digits k zero n acc h = omega arith
length-print_digits zero (suc fuel) n acc h =
    let e : ltb n 10 ≡ true = ground arith in rw (e, length) (omega arith)
length-print_digits (suc k) (suc fuel) n acc h = elim (Bool-cases (ltb n 10)) [
  | inl e ↦ rw (e, length) (omega arith)
  | inr e ↦
      let rest = length-print_digits k fuel (n / 10) ((48 + n % 10) ∷ acc) (omega arith) in
      rw (e, length) (omega arith)
]

-- A number below 10 ^ k, with k at least 1, is printed in at most k digits.
pub length-print_nat : (k n : ℕ) → n < 10 ^ suc k → length (print_nat n) ≤ suc k
unfolding print_nat
length-print_nat k n h = let l = length-print_digits k (suc n) n [] h in omega arith

-- ===== src/Text/Numbers/Whole.antt =====
-- `%d` of a natural number read by `%d` and `%ld`.
use rock_paper_scissors_batt.Base.{
  ℕ, zero, suc, ◌+◌, ◌*◌, ◌/◌, ◌%◌, ◌^◌, ◌<◌, ◌≡◌, refl, sym, ◌∙◌, ap, [], ◌∷◌, ◌++◌, some, false,
  ltb, ltb→lt, arith, inl, inr, Bool-cases, ◌==◌,
}
use mathlib.Core.List.{append-nil}
use rock_paper_scissors_batt.Base.Int.{pos}
use rock_paper_scissors_batt.Text.Bytes.{Bytes}
use rock_paper_scissors_batt.Text.Print.{print_digits, print_nat}
use rock_paper_scissors_batt.Text.Scan.{
  digit_value, scan_digits, skip_spaces, scan_sign, scan_signed, scan_long, scan_int, to_long,
  wrap_int,
}
use rock_paper_scissors_batt.Text.Numbers.{print_digits-append, scan-print_digits}

pub record StartsWithDigit (cs : Bytes) : Type 0 where
  pub digit : ℕ
  pub rest : Bytes
  pub is : cs ≡ (48 + digit) ∷ rest
  pub digit_lt : digit < 10

print_digits-StartsWithDigit :
    (fuel n : ℕ) (acc : Bytes) → n < fuel → StartsWithDigit (print_digits fuel n acc)
unfolding print_digits
print_digits-StartsWithDigit zero n acc h = absurd (omega arith)
print_digits-StartsWithDigit (suc fuel) n acc h = elim (Bool-cases (ltb n 10)) [
  | inl e ↦
      rw (e, print_digits) (record { digit = n; rest = acc; is = refl; digit_lt = ltb→lt n 10 e })
  | inr e ↦
      rw (e, print_digits)
        (print_digits-StartsWithDigit fuel (n / 10) ((48 + n % 10) ∷ acc) (ground arith))
]

print_nat-StartsWithDigit : (n : ℕ) (rest : Bytes) → StartsWithDigit (print_nat n ++ rest)
unfolding print_nat
print_nat-StartsWithDigit n rest =
    rw print_digits-append (print_digits-StartsWithDigit (suc n) n rest (omega arith))

digit-skip_spaces : {cs : Bytes} → StartsWithDigit cs → skip_spaces (32 ∷ cs) ≡ cs
unfolding skip_spaces
digit-skip_spaces d = let u = d.digit_lt in rw d.is (ground arith)

digit-scan_sign : {cs : Bytes} → StartsWithDigit cs → scan_sign cs ≡ (false, cs)
unfolding scan_sign
digit-scan_sign d = let u = d.digit_lt in rw d.is (ground arith)

-- Where digits end.
abbrev pub Stops : Bytes → Type 0
Stops rest = (v c : ℕ) → scan_digits 10 v c rest ≡ record { value = v; count = c; rest = rest }

scan-digits_of :
    (n : ℕ) (rest : Bytes)
    → Stops rest
    → (k : ℕ) × (0 < k)
      × (scan_digits 10 0 0 (print_nat n ++ rest) ≡ record { value = n; count = k; rest = rest })
unfolding print_nat
scan-digits_of n rest stops =
    let (k, positive, read) = scan-print_digits (suc n) n 0 0 rest (omega arith) in
    (
      k,
      positive,
      ap (scan_digits 10 0 0) (print_digits-append (suc n) n [] rest)
          ∙ read
          ∙ stops (0 * 10 ^ k + n) (0 + k)
          ∙ λ i. record { value = from_zero k i; count = counted k i; rest = rest },
    )
  where
    from_zero : (k : ℕ) → 0 * 10 ^ k + n ≡ n
    from_zero k = omega arith

    counted : (k : ℕ) → 0 + k ≡ k
    counted k = omega arith

-- A printed number behind a blank.
pub scan_long-print_nat :
    (n : ℕ) (rest : Bytes)
    → Stops rest
    → scan_long (32 ∷ (print_nat n ++ rest)) ≡ some (to_long false n, rest)
unfolding scan_long scan_signed
scan_long-print_nat n rest stops =
    let d = print_nat-StartsWithDigit n rest in
    let (k, positive, read) = scan-digits_of n rest stops in
    let counted : (k == 0) ≡ false = ground arith in
    rw (digit-skip_spaces d, digit-scan_sign d, read, counted) refl

pub scan_int-print_nat :
    (n : ℕ) (rest : Bytes)
    → Stops rest
    → scan_int (32 ∷ (print_nat n ++ rest)) ≡ some (wrap_int (to_long false n), rest)
unfolding scan_int
scan_int-print_nat n rest stops = rw (scan_long-print_nat n rest stops) refl

pub end-Stops : Stops []
unfolding scan_digits
end-Stops v c = refl

pub blank-Stops : (rest : Bytes) → Stops (32 ∷ rest)
unfolding scan_digits digit_value
blank-Stops rest v c = refl

-- A number at the end of a line.
pub scan_long-last : (n : ℕ) → scan_long (32 ∷ print_nat n) ≡ some (to_long false n, [])
scan_long-last n =
    ap (λ (cs : Bytes). scan_long (32 ∷ cs)) (sym (append-nil (print_nat n)))
    ∙ scan_long-print_nat n [] end-Stops

pub scan_int-last : (n : ℕ) → scan_int (32 ∷ print_nat n) ≡ some (wrap_int (to_long false n), [])
unfolding scan_int
scan_int-last n = rw (scan_long-last n) refl

-- A number that `int` holds is read as itself.
pub int_small : (n : ℕ) → n < 2 ^ 31 → wrap_int (to_long false n) ≡ pos n
unfolding wrap_int to_long
int_small n h = rw (to_long_small n h) (wrap_small n h)
  where
    to_long_small : (n : ℕ) → n < 2 ^ 31 → to_long false n ≡ pos n
    to_long_small n h = ground arith

    wrap_small : (n : ℕ) → n < 2 ^ 31 → wrap_int (pos n) ≡ pos n
    wrap_small n h = ground arith

-- ===== src/Text/Numbers/Decimal.antt =====
-- `%.3f` read by `%f`.
use rock_paper_scissors_batt.Base.{
  ℕ, zero, suc, ◌+◌, ◌-◌, ◌*◌, ◌/◌, ◌%◌, ◌^◌, ◌<◌, ◌≤◌, ◌≡◌, refl, ◌∙◌, ap, [], ◌∷◌, ◌++◌, none,
  some, Bool, true, false, ltb, ltb→lt, arith, inl, inr, Bool-cases, ◌==◌,
}
use mathlib.Core.List.{append_assoc}
use rock_paper_scissors_batt.Float.{Float, finite, inf, nan, single, of_ratio}
use rock_paper_scissors_batt.Text.Bytes.{Bytes, codes}
use rock_paper_scissors_batt.Text.Print.{
  print_digits, print_nat, pad_digits, sign_text, in_places, print_places, print_float,
}
use rock_paper_scissors_batt.Text.Scan.{
  digit_value, scan_digits, skip_spaces, scan_sign, scan_unsigned, scan_number, scan_fraction,
  scan_exponent, scaled, after_token, scan_infinity, scan_float,
}
use rock_paper_scissors_batt.Text.Numbers.{print_digits-append, scan-print_digits, scan-pad_digits}

-- A digit, and a digit or a point behind it.
pub record IsDecimal (cs : Bytes) : Type 0 where
  pub digit : ℕ
  pub next : ℕ
  pub rest : Bytes
  pub is : cs ≡ (48 + digit) ∷ (next ∷ rest)
  pub digit_lt : digit < 10
  pub le_next : 46 ≤ next
  pub next_lt : next < 58

pub print_digits-IsDecimal :
    (fuel n a : ℕ) (acc : Bytes)
    → n < fuel
    → 46 ≤ a
    → a < 58
    → IsDecimal (print_digits fuel n (a ∷ acc))
unfolding print_digits
print_digits-IsDecimal zero n a acc h l u = absurd (omega arith)
print_digits-IsDecimal (suc fuel) n a acc h l u = elim (Bool-cases (ltb n 10)) [
  | inl e ↦
      rw (e, print_digits)
        (record {
          digit = n;
          next = a;
          rest = acc;
          is = refl;
          digit_lt = ltb→lt n 10 e;
          le_next = l;
          next_lt = u;
        })
  | inr e ↦
      rw (e, print_digits)
        (print_digits-IsDecimal fuel (n / 10) (48 + n % 10) (a ∷ acc) (ground arith) (omega arith)
          (omega arith))
]

decimal-skip_spaces : {cs : Bytes} → IsDecimal cs → skip_spaces cs ≡ cs
unfolding skip_spaces
decimal-skip_spaces d = let u = d.digit_lt in rw d.is (ground arith)

decimal-scan_sign : {cs : Bytes} → IsDecimal cs → scan_sign cs ≡ (false, cs)
unfolding scan_sign
decimal-scan_sign d = let u = d.digit_lt in rw d.is (ground arith)

decimal-scan_unsigned :
    {cs : Bytes} (s : Bool) → IsDecimal cs → scan_unsigned (s, cs) ≡ scan_number 10 101 10 s cs
unfolding scan_unsigned after_token
decimal-scan_unsigned {cs} s d = rw (no_nan, no_inf, no_hex) refl
  where
    no_nan : after_token (codes "nan") cs ≡ none
    no_nan = let u = d.digit_lt in rw d.is (ground arith)

    no_inf : after_token (codes "inf") cs ≡ none
    no_inf = let u = d.digit_lt in rw d.is (ground arith)

    no_hex : after_token (codes "0x") cs ≡ none
    no_hex = let u = d.digit_lt in let l = d.le_next in let v = d.next_lt in rw d.is (ground arith)

-- Digits of a whole part, a point, three digits and a blank.
scan_number_lem :
    (s : Bool) (cs frac rest : Bytes) (q r k : ℕ)
    → 0 < k
    → scan_digits 10 0 0 cs ≡ record { value = q; count = k; rest = 46 ∷ frac }
    → scan_digits 10 q k frac ≡ record { value = r; count = k + 3; rest = 32 ∷ rest }
    → scan_number 10 101 10 s cs ≡ some (of_ratio single s r (10 ^ 3), 32 ∷ rest)
unfolding scan_number scan_fraction scan_exponent scaled
scan_number_lem s cs frac rest q r k h whole all =
    rw (whole, all, some_digits) (λ i. some (of_ratio single s (same i) (10 ^ three i), 32 ∷ rest))
  where
    some_digits : (k + 3 == 0) ≡ false
    some_digits = ground arith

    same : r * 1 ≡ r
    same = omega arith

    three : k + 3 - k ≡ 3
    three = omega arith

-- The value that a reader finds where `x` was printed with three digits behind the point.
unfoldable pub printed_value : Float → Float
printed_value (finite s m) = of_ratio single s (in_places 3 m) (10 ^ 3)
printed_value (inf s) = inf s
printed_value nan = nan

unsigned_decimal : ℕ → Bytes → Bytes
unsigned_decimal n rest =
    print_nat (n / 10 ^ 3) ++ (46 ∷ (pad_digits 3 (n % 10 ^ 3) ++ (32 ∷ rest)))

unsigned_decimal-IsDecimal : (n : ℕ) (rest : Bytes) → IsDecimal (unsigned_decimal n rest)
unfolding unsigned_decimal print_nat
unsigned_decimal-IsDecimal n rest = rw print_digits-append (
    print_digits-IsDecimal (suc (n / 10 ^ 3)) (n / 10 ^ 3) 46 _ (omega arith) (omega arith)
      (omega arith))

scan-unsigned_decimal :
    (s : Bool) (n : ℕ) (rest : Bytes)
    → scan_number 10 101 10 s (unsigned_decimal n rest)
      ≡ some (of_ratio single s n (10 ^ 3), 32 ∷ rest)
unfolding unsigned_decimal print_nat scan_digits digit_value
scan-unsigned_decimal s n rest =
    let frac = pad_digits 3 (n % 10 ^ 3) ++ (32 ∷ rest) in
    let (k, positive, whole) =
      scan-print_digits (suc (n / 10 ^ 3)) (n / 10 ^ 3) 0 0 (46 ∷ frac) (omega arith) in
    scan_number_lem s _ frac rest (n / 10 ^ 3) n k positive
      (ap (scan_digits 10 0 0) (print_digits-append (suc (n / 10 ^ 3)) (n / 10 ^ 3) [] (46 ∷ frac))
        ∙ whole
        ∙ λ i. record { value = from_zero k i; count = counted k i; rest = 46 ∷ frac })
      (scan-pad_digits 3 (n % 10 ^ 3) (n / 10 ^ 3) k (32 ∷ rest) (omega arith) ∙ λ i. record {
        value = joined i;
        count = k + 3;
        rest = 32 ∷ rest;
      })
  where
    from_zero : (k : ℕ) → 0 * 10 ^ k + n / 10 ^ 3 ≡ n / 10 ^ 3
    from_zero k = omega arith

    counted : (k : ℕ) → 0 + k ≡ k
    counted k = omega arith

    joined : n / 10 ^ 3 * 10 ^ 3 + n % 10 ^ 3 ≡ n
    joined = omega arith

places-decimal : (n : ℕ) (rest : Bytes) → print_places 3 n ++ (32 ∷ rest) ≡ unsigned_decimal n rest
unfolding print_places unsigned_decimal
places-decimal n rest =
    append_assoc (print_nat (n / 10 ^ 3)) (46 ∷ pad_digits 3 (n % 10 ^ 3)) (32 ∷ rest)

scan_minus : {cs : Bytes} → IsDecimal cs → scan_float (45 ∷ cs) ≡ scan_number 10 101 10 true cs
unfolding scan_float skip_spaces scan_sign
scan_minus d = decimal-scan_unsigned true d

scan_inf :
    (rest : Bytes)
    → scan_float (print_float 3 (inf false) ++ (32 ∷ rest)) ≡ some (inf false, 32 ∷ rest)
unfolding scan_float print_float sign_text skip_spaces scan_sign scan_unsigned after_token
    scan_infinity
scan_inf rest = refl

scan_minus_inf :
    (rest : Bytes)
    → scan_float (print_float 3 (inf true) ++ (32 ∷ rest)) ≡ some (inf true, 32 ∷ rest)
unfolding scan_float print_float sign_text skip_spaces scan_sign scan_unsigned after_token
    scan_infinity
scan_minus_inf rest = refl

scan_nan : (rest : Bytes) → scan_float (print_float 3 nan ++ (32 ∷ rest)) ≡ some (nan, 32 ∷ rest)
unfolding scan_float print_float skip_spaces scan_sign scan_unsigned after_token
scan_nan rest = refl

-- `%f` reads what `%.3f` printed, up to a blank: the printed value, infinities and NaN included.
pub scan_float-print_float :
    (x : Float) (rest : Bytes)
    → scan_float (print_float 3 x ++ (32 ∷ rest)) ≡ some (printed_value x, 32 ∷ rest)
unfolding scan_float print_float printed_value sign_text
scan_float-print_float (finite false m) rest =
    let n = in_places 3 m in
    let d = unsigned_decimal-IsDecimal n rest in
    rw
      (
        places-decimal n rest,
        decimal-skip_spaces d,
        decimal-scan_sign d,
        decimal-scan_unsigned false d,
      )
      (scan-unsigned_decimal false n rest)
scan_float-print_float (finite true m) rest =
    let n = in_places 3 m in
    rw (places-decimal n rest, scan_minus (unsigned_decimal-IsDecimal n rest))
      (scan-unsigned_decimal true n rest)
scan_float-print_float (inf false) rest = scan_inf rest
scan_float-print_float (inf true) rest = scan_minus_inf rest
scan_float-print_float nan rest = scan_nan rest

-- ===== src/Text/Clean.antt =====
-- Bytes that stay within a line: no NUL, no newline and no carriage return. What `printf` writes of
-- a number is of these.
use rock_paper_scissors_batt.Base.{
  ℕ, zero, suc, ◌+◌, ◌/◌, ◌%◌, ◌^◌, ◌<◌, ◌≡◌, ◌≢◌, refl, [], ◌∷◌, ◌++◌, Bool, true, false, not,
  ◌&&◌, ◌||◌, ltb, ltb→lt, ◌==◌, All, arith, length, get_or, inl, inr, Bool-cases,
}
use rock_paper_scissors_batt.Float.{Float, finite, inf, nan}
use rock_paper_scissors_batt.Text.Bytes.{Bytes}
use rock_paper_scissors_batt.Text.Print.{
  print_digits, print_nat, print_flag, pad_digits, sign_text, print_places, print_float,
}

abbrev pub is_clean : ℕ → Bool
is_clean c = not (c == 0 || (c == 10 || c == 13))

unfoldable pub all_clean : Bytes → Bool
all_clean [] = true
all_clean (c ∷ cs) = is_clean c && all_clean cs

pub clean-append :
    (xs ys : Bytes) → all_clean xs ≡ true → all_clean ys ≡ true → all_clean (xs ++ ys) ≡ true
unfolding all_clean
clean-append [] ys h k = k
clean-append (x ∷ xs) ys h k = ground (arith, clean-append xs ys)

digit-clean : (d : ℕ) (cs : Bytes) → d < 10 → all_clean cs ≡ true → all_clean ((48 + d) ∷ cs) ≡ true
unfolding all_clean
digit-clean d cs h k = ground arith

print_digits-clean :
    (fuel n : ℕ) (acc : Bytes) → all_clean acc ≡ true → all_clean (print_digits fuel n acc) ≡ true
unfolding print_digits
print_digits-clean zero n acc h = h
print_digits-clean (suc fuel) n acc h = elim (Bool-cases (ltb n 10)) [
  | inl e ↦ rw (e, print_digits) (digit-clean n acc (ltb→lt n 10 e) h)
  | inr e ↦
      rw (e, print_digits)
        (print_digits-clean fuel (n / 10) _ (digit-clean (n % 10) acc (omega arith) h))
]

pub print_nat-clean : (n : ℕ) → all_clean (print_nat n) ≡ true
unfolding print_nat all_clean
print_nat-clean n = print_digits-clean (suc n) n [] refl

pad_digits-clean : (k n : ℕ) → all_clean (pad_digits k n) ≡ true
unfolding pad_digits all_clean
pad_digits-clean zero n = refl
pad_digits-clean (suc k) n =
    clean-append (pad_digits k (n / 10)) ((48 + n % 10) ∷ []) (pad_digits-clean k (n / 10))
      (digit-clean (n % 10) [] (omega arith) refl)

pub print_flag-clean : (b : Bool) → all_clean (print_flag b) ≡ true
unfolding print_flag all_clean
print_flag-clean true = refl
print_flag-clean false = refl

print_places-clean : (k n : ℕ) → all_clean (print_places k n) ≡ true
unfolding print_places all_clean
print_places-clean k n =
    clean-append (print_nat (n / 10 ^ k)) (46 ∷ pad_digits k (n % 10 ^ k))
      (print_nat-clean (n / 10 ^ k)) (pad_digits-clean k (n % 10 ^ k))

pub print_float-clean : (k : ℕ) (x : Float) → all_clean (print_float k x) ≡ true
unfolding print_float all_clean sign_text
print_float-clean k (finite true m) = print_places-clean k _
print_float-clean k (finite false m) = print_places-clean k _
print_float-clean k (inf true) = refl
print_float-clean k (inf false) = refl
print_float-clean k nan = refl

-- What the test says of the bytes.
pub clean_bytes :
    (l : Bytes)
    → all_clean l ≡ true
    → All (λ c. c ≢ 0) l × All (λ c. c ≢ 10) l × All (λ c. c ≢ 13) l
unfolding all_clean
clean_bytes [] h = (tt, tt, tt)
clean_bytes (c ∷ cs) h =
    let (a, b, d) = clean_bytes cs (ground arith) in
    (((λ e. ground arith), a), ((λ e. ground arith), b), ((λ e. ground arith), d))

pub get_or-All : (l : Bytes) (k : ℕ) → All (λ c. c ≢ 13) l → k < length l → get_or l k 0 ≢ 13
get_or-All [] k h n = absurd (omega arith)
get_or-All (c ∷ cs) zero (ne, h) n = ne
get_or-All (c ∷ cs) (suc k) (ne, h) n = get_or-All cs k h (omega arith)

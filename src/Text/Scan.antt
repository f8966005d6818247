-- ===== src/Text/Scan.antt =====
-- The `scanf` conversions of the sources: `%31s`, `%f`, `%c`, `%d` and `%ld`, in the C locale.
use rock_paper_scissors_batt.Base.{
  ℕ, zero, suc, ◌+◌, ◌-◌, ◌*◌, ◌%◌, ◌^◌, ◌>>=◌, [], ◌∷◌, Option, none, some, Bool, true, false,
  ◌&&◌, ltb, leb, ◌==◌, if◌then◌else◌,
}
use rock_paper_scissors_batt.Base.Int.{ℤ, pos, negsuc, neg_ℕ}
use rock_paper_scissors_batt.Float.{Float, inf, nan, single, of_ratio}
use rock_paper_scissors_batt.Text.Bytes.{Bytes, codes, is_space}

unfoldable pub skip_spaces : Bytes → Bytes
skip_spaces [] = []
skip_spaces (c ∷ cs) = if is_space c then skip_spaces cs else c ∷ cs

-- At most `n` bytes up to the next space, and what follows them.
unfoldable pub take_word : ℕ → Bytes → Bytes × Bytes
take_word zero cs = ([], cs)
take_word (suc n) [] = ([], [])
take_word (suc n) (c ∷ cs) =
    let (word, rest) = take_word n cs in if is_space c then ([], c ∷ cs) else (c ∷ word, rest)

unfoldable pub word_result : Bytes × Bytes → Option (Bytes × Bytes)
word_result ([], rest) = none
word_result (c ∷ word, rest) = some (c ∷ word, rest)

-- %<width>s; `none` is a matching failure.
unfoldable pub scan_word : ℕ → Bytes → Option (Bytes × Bytes)
unfolding word_result
scan_word width cs = word_result (take_word width (skip_spaces cs))

abbrev pub lower : ℕ → ℕ
lower c = if leb 65 c && leb c 90 then c + 32 else c

-- The rest behind `token`, whatever the case of the letters.
unfoldable pub after_token : Bytes → Bytes → Option Bytes
after_token [] cs = some cs
after_token (t ∷ ts) [] = none
after_token (t ∷ ts) (c ∷ cs) = if lower c == t then after_token ts cs else none

unfoldable pub digit_value : ℕ → ℕ
digit_value c =
    if leb 48 c && leb c 57
    then c - 48
    else if leb 97 (lower c) && leb (lower c) 102
    then lower c - 87
    else 99

pub record Digits : Type 0 where
  pub value : ℕ
  pub count : ℕ
  pub rest : Bytes

-- Digits of the base, behind those that made `value`.
unfoldable pub scan_digits : ℕ → ℕ → ℕ → Bytes → Digits
scan_digits base value count [] = record { value = value; count = count; rest = [] }
scan_digits base value count (c ∷ cs) =
    let more = scan_digits base (value * base + digit_value c) (count + 1) cs in
    if ltb (digit_value c) base
    then more
    else record { value = value; count = count; rest = c ∷ cs }

-- A sign, and what follows it.
unfoldable pub scan_sign : Bytes → Bool × Bytes
scan_sign [] = (false, [])
scan_sign (c ∷ cs) =
    if c == 45 then (true, cs) else if c == 43 then (false, cs) else (false, c ∷ cs)

-- num * base ^ e / den, for an exponent of either sign.
unfoldable pub scaled : Bool → ℕ → ℕ → ℕ → Bool → ℕ → Float
unfolding of_ratio
scaled s base num den true e = of_ratio single s num (den * base ^ e)
scaled s base num den false e = of_ratio single s (num * base ^ e) den

-- The digits behind an exponent mark: one at least.
unfoldable pub exponent_digits : Bool → ℕ → ℕ → ℕ → Bool × Bytes → Option (Float × Bytes)
unfolding scaled scan_digits digit_value
exponent_digits s base num den (minus, cs) =
    let d = scan_digits 10 0 0 cs in
    if d.count == 0 then none else some (scaled s base num den minus d.value, d.rest)

unfoldable pub scan_exponent : ℕ → Bool → ℕ → ℕ → ℕ → Bytes → Option (Float × Bytes)
unfolding exponent_digits scan_sign
scan_exponent mark s base num den [] = some (scaled s base num den false 0, [])
scan_exponent mark s base num den (c ∷ cs) =
    if lower c == mark
    then exponent_digits s base num den (scan_sign cs)
    else some (scaled s base num den false 0, c ∷ cs)

unfoldable pub scan_fraction : ℕ → Digits → Digits
unfolding scan_digits digit_value
scan_fraction base whole = elim whole.rest [
  | [] ↦ whole
  | c ∷ cs ↦ if c == 46 then scan_digits base whole.value whole.count cs else whole
]

-- Digits, a point and digits, then an exponent of `power` behind `mark`.
unfoldable pub scan_number : ℕ → ℕ → ℕ → Bool → Bytes → Option (Float × Bytes)
unfolding scan_fraction scan_exponent
scan_number base mark power s cs =
    let whole = scan_digits base 0 0 cs in
    let all = scan_fraction base whole in
    if all.count == 0
    then none
    else scan_exponent mark s power all.value (base ^ (all.count - whole.count)) all.rest

-- "inf" or "infinity": an "i" behind "inf" must go on to "infinity".
unfoldable pub scan_infinity : Bool → Bytes → Option (Float × Bytes)
unfolding after_token
scan_infinity s [] = some (inf s, [])
scan_infinity s (c ∷ cs) =
    if lower c == 105
    then (do rest ← after_token (codes "nity") cs; some (inf s, rest))
    else some (inf s, c ∷ cs)

unfoldable pub scan_unsigned : Bool × Bytes → Option (Float × Bytes)
unfolding scan_infinity scan_number
scan_unsigned (s, cs) = elim (after_token (codes "nan") cs) [
  | some rest ↦ some (nan, rest)
  | none ↦ elim (after_token (codes "inf") cs) [
    | some rest ↦ scan_infinity s rest
    | none ↦ elim (after_token (codes "0x") cs) [
      | some rest ↦ scan_number 16 112 2 s rest
      | none ↦ scan_number 10 101 10 s cs
    ]
  ]
]

-- %f; `none` is a matching failure.
unfoldable pub scan_float : Bytes → Option (Float × Bytes)
unfolding scan_unsigned
scan_float cs = scan_unsigned (scan_sign (skip_spaces cs))

-- Text of the format other than blanks, which the input must repeat.
unfoldable pub scan_text : Bytes → Bytes → Option Bytes
scan_text [] cs = some cs
scan_text (t ∷ ts) [] = none
scan_text (t ∷ ts) (c ∷ cs) = if t == c then scan_text ts cs else none

-- %c
unfoldable pub scan_char : Bytes → Option (ℕ × Bytes)
scan_char [] = none
scan_char (c ∷ cs) = some (c, cs)

-- What `strtol` returns: a value out of range is cut to the range of `long`.
unfoldable pub to_long : Bool → ℕ → ℤ
to_long true n = if leb n (2 ^ 63) then neg_ℕ n else negsuc (2 ^ 63 - 1)
to_long false n = if ltb n (2 ^ 63) then pos n else pos (2 ^ 63 - 1)

-- (int)x for a long x.
unfoldable pub wrap_int : ℤ → ℤ
wrap_int (pos n) = let m = n % 2 ^ 32 in if ltb m (2 ^ 31) then pos m else negsuc (2 ^ 32 - 1 - m)
wrap_int (negsuc n) =
    let m = n % 2 ^ 32 in if ltb m (2 ^ 31) then negsuc m else pos (2 ^ 32 - 1 - m)

unfoldable pub scan_signed : Bool × Bytes → Option (ℤ × Bytes)
unfolding scan_digits digit_value to_long
scan_signed (minus, cs) =
    let d = scan_digits 10 0 0 cs in
    if d.count == 0 then none else some (to_long minus d.value, d.rest)

-- %ld
unfoldable pub scan_long : Bytes → Option (ℤ × Bytes)
unfolding scan_signed scan_sign
scan_long cs = scan_signed (scan_sign (skip_spaces cs))

-- %d
unfoldable pub scan_int : Bytes → Option (ℤ × Bytes)
unfolding scan_long wrap_int
scan_int cs = (do (n, rest) ← scan_long cs; some (wrap_int n, rest))

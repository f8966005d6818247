-- ===== src/Client/Pump/Stream.antt =====
-- A stream of framed lines, cut anywhere.
use rock_paper_scissors_batt.Base.{
  ℕ, ◌+◌, ◌<◌, ◌≤◌, ◌≡◌, ◌≢◌, refl, sym, ap, subst, ◌∙◌, ◌⊎◌, inl, inr, List, [], ◌∷◌, ◌++◌, none,
  false, All, arith, length, length-append, ◌==◌,
}
use mathlib.Core.List.{append_assoc}
use rock_paper_scissors_batt.Text.Bytes.{Bytes, c_string}
use rock_paper_scissors_batt.Protocol.{newline, find_newline}
use rock_paper_scissors_batt.Protocol.Framing.{IsLine, frames}

-- A line that arrives as it was sent: no newline, no NUL, no carriage return at its end, and at most
-- 253 bytes.
pub record IsText (line : Bytes) : Type 0 where
  pub is_line : IsLine line
  pub no_nul : All (λ c. c ≢ 0) line

abbrev pub NoNewline : Bytes → Type 0
NoNewline = All (λ c. c ≢ newline)

abbrev pub concat : List Bytes → Bytes
concat [] = []
concat (c ∷ cs) = c ++ concat cs

pub c_string-no_nul : (l : Bytes) → All (λ c. c ≢ 0) l → c_string l ≡ l
unfolding c_string
c_string-no_nul [] h = refl
c_string-no_nul (c ∷ cs) (ne, h) =
    let e : (c == 0) ≡ false = ground arith in rw e (ap (◌∷◌ c) (c_string-no_nul cs h))

pub find_newline-none : (i : ℕ) (b : Bytes) → NoNewline b → find_newline i b ≡ none
unfolding find_newline
find_newline-none i [] h = refl
find_newline-none i (c ∷ cs) (ne, h) =
    let e : (c == newline) ≡ false = ground arith in rw e (find_newline-none (i + 1) cs h)

-- Where the bytes read so far end: inside the first line, or behind it.
cut :
    (xs ys l rest : Bytes)
    → xs ++ ys ≡ l ++ (newline ∷ rest)
    → ((r : Bytes) × (l ≡ xs ++ r))
      ⊎ ((xs' : Bytes) × (xs ≡ l ++ (newline ∷ xs')) × (xs' ++ ys ≡ rest))
cut [] ys l rest e = inl (l, refl)
cut (x ∷ xs) ys [] rest e = inr (xs, cc, cc)
cut (x ∷ xs) ys (c ∷ l) rest e = elim (cut xs ys l rest (cc)) [
  | inl (r, f) ↦ inl (r, cc)
  | inr (xs', f, g) ↦ inr (xs', cc, g)
]

All-prefix : (xs ys : Bytes) → NoNewline (xs ++ ys) → NoNewline xs
All-prefix [] ys h = tt
All-prefix (x ∷ xs) ys (ne, h) = (ne, All-prefix xs ys h)

-- Bytes read so far: whole lines, and the beginning of the next.
pub record Split (xs ys : Bytes) (ls : List Bytes) : Type 0 where
  pub done : List Bytes
  pub left : List Bytes
  pub part : Bytes
  pub lines : ls ≡ done ++ left
  pub read : xs ≡ frames done ++ part
  pub more : part ++ ys ≡ frames left
  pub open_line : NoNewline part
  pub short : length part < 254
  pub texts : All IsText done
  pub texts_left : All IsText left

joined :
    (l xs : Bytes) (done : List Bytes) (part : Bytes)
    → xs ≡ frames done ++ part
    → l ++ (newline ∷ xs) ≡ frames (l ∷ done) ++ part
unfolding frames
joined l xs done part e =
    ap (λ (b : Bytes). l ++ (newline ∷ b)) e
    ∙ sym (append_assoc l (newline ∷ []) (frames done ++ part))
    ∙ sym (append_assoc (l ++ (newline ∷ [])) (frames done) part)

pub stream-Split :
    (xs ys : Bytes) (ls : List Bytes) → All IsText ls → xs ++ ys ≡ frames ls → Split xs ys ls
unfolding frames
stream-Split [] ys ls t e = record {
  done = [];
  left = ls;
  part = [];
  lines = refl;
  read = refl;
  more = e;
  open_line = tt;
  short = omega arith;
  texts = tt;
  texts_left = t;
}
stream-Split (x ∷ xs) ys [] t e = absurd (cc)
stream-Split (x ∷ xs) ys (l ∷ ls) (t, ts) e =
    elim (cut (x ∷ xs) ys l (frames ls) (e ∙ append_assoc l (newline ∷ []) (frames ls))) [
      | inl (r, f) ↦
          let short = t.is_line.short in
          let n : length l ≡ length ((x ∷ xs) ++ r) = ap length f in
          record {
            done = [];
            left = l ∷ ls;
            part = x ∷ xs;
            lines = refl;
            read = refl;
            more = e;
            open_line = All-prefix (x ∷ xs) r (subst NoNewline f t.is_line.no_newline);
            short = omega (arith, length-append (x ∷ xs) r);
            texts = tt;
            texts_left = (t, ts);
          }
      | inr (xs', f, g) ↦
          let k = stream-Split xs' ys ls ts g in
          record {
            done = l ∷ k.done;
            left = k.left;
            part = k.part;
            lines = ap (◌∷◌ l) k.lines;
            read = f ∙ joined l xs' k.done k.part k.read;
            more = k.more;
            open_line = k.open_line;
            short = k.short;
            texts = (t, k.texts);
            texts_left = k.texts_left;
          }
    ]

pub length-frames : (ls : List Bytes) → length ls ≤ length (frames ls)
unfolding frames
length-frames [] = omega arith
length-frames (l ∷ ls) = omega (
  arith,
  length-frames ls,
  length-append (l ++ (newline ∷ [])) (frames ls),
  length-append l (newline ∷ []),
)

pub no_line_left : (ls : List Bytes) → NoNewline (frames ls) → ls ≡ []
unfolding frames
no_line_left [] h = refl
no_line_left (l ∷ ls) h = absurd (inside l (frames ls) h)
  where
    inside : (l rest : Bytes) → NoNewline ((l ++ (newline ∷ [])) ++ rest) → ⊥
    inside [] rest (ne, h) = ne refl
    inside (c ∷ cs) rest (ne, h) = inside cs rest h

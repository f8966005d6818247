-- ===== src/Protocol/Framing.antt =====
-- Lines over the byte stream of src/protocol.c, from `queue_line` to `pop_line`.
use rock_paper_scissors_batt.Base.{
  ℕ, zero, suc, ◌+◌, ◌-◌, ◌<◌, ◌≤◌, ◌≡◌, ◌≢◌, refl, sym, ap, ◌∙◌, List, [], ◌∷◌, ◌++◌, Option, none,
  some, true, arith, All, length, take, drop, get_or, length-append, if◌then◌else◌,
}
use mathlib.Core.List.{append_assoc, append-nil}
use rock_paper_scissors_batt.State.{Player, max_line}
use rock_paper_scissors_batt.Text.Bytes.{Bytes}
use rock_paper_scissors_batt.Protocol.{
  newline, carriage_return, queue_line, find_newline, line_length, pop_line,
}

-- A line that survives the framing: no newline, no carriage return at its end, and short enough
-- for `queue_line`.
pub record IsLine (line : Bytes) : Type 0 where
  pub no_newline : All (λ c. c ≢ newline) line
  pub no_return : (k : ℕ) → suc k ≡ length line → get_or line k 0 ≢ carriage_return
  pub short : length line < 254

find_newline-append :
    (i : ℕ) (line rest : Bytes)
    → All (λ c. c ≢ newline) line
    → find_newline i (line ++ (newline ∷ rest)) ≡ some (i + length line)
unfolding find_newline
find_newline-append i [] rest h = ground arith
find_newline-append i (c ∷ cs) rest h = ground (arith, find_newline-append (i + 1) cs rest h.1)

take-append : (xs ys : Bytes) (n : ℕ) → n ≡ length xs → take n (xs ++ ys) ≡ xs
take-append [] ys zero e = refl
take-append [] ys (suc n) e = absurd (omega arith)
take-append (x ∷ xs) ys zero e = absurd (omega arith)
take-append (x ∷ xs) ys (suc n) e = rw (take-append xs ys n (omega arith))

drop-append : (xs ys : Bytes) (n : ℕ) → n ≡ length xs → drop n (xs ++ ys) ≡ ys
drop-append [] ys zero e = refl
drop-append [] ys (suc n) e = absurd (omega arith)
drop-append (x ∷ xs) ys zero e = absurd (omega arith)
drop-append (x ∷ xs) ys (suc n) e = drop-append xs ys n (omega arith)

drop_line : (xs ys : Bytes) (c n : ℕ) → n ≡ length xs + 1 → drop n (xs ++ (c ∷ ys)) ≡ ys
drop_line xs ys c zero e = absurd (omega arith)
drop_line [] ys c (suc n) e = rw (drop_none n (omega arith)) refl
  where
    drop_none : (n : ℕ) → n ≡ 0 → drop n ys ≡ ys
    drop_none zero e = refl
    drop_none (suc n) e = absurd (omega arith)
drop_line (x ∷ xs) ys c (suc n) e = drop_line xs ys c n (omega arith)

get_or-append : (xs ys : Bytes) (k : ℕ) → k < length xs → get_or (xs ++ ys) k 0 ≡ get_or xs k 0
get_or-append [] ys k h = absurd (omega arith)
get_or-append (x ∷ xs) ys zero h = refl
get_or-append (x ∷ xs) ys (suc k) h = get_or-append xs ys k (omega arith)

line_length_lem :
    (out_sz : ℕ) (line rest : Bytes)
    → IsLine line
    → length line < out_sz
    → line_length out_sz (line ++ (newline ∷ rest)) (length line) ≡ length line
unfolding line_length
line_length_lem out_sz line rest is fits =
    ground
      (arith, get_or-append line (newline ∷ rest) (length line - 1), is.no_return (length line - 1))

-- A whole line at the front of the input comes out as it was sent, and what follows it stays.
pub pop_line-frame :
    (out_sz : ℕ) (p : Player) (line rest : Bytes)
    → IsLine line
    → length line < out_sz
    → p.inbuf ≡ line ++ (newline ∷ rest)
    → pop_line out_sz p ≡ some (line, record p { inbuf = rest })
unfolding pop_line
pop_line-frame out_sz p line rest is fits e =
    rw (found, pop_line) (λ i. some (taken i, record p { inbuf = dropped i }))
  where
    found : find_newline 0 p.inbuf ≡ some (length line)
    found =
        ap (find_newline 0) e
        ∙ find_newline-append 0 line rest is.no_newline
        ∙ ap some (omega arith)

    len : line_length out_sz p.inbuf (length line) ≡ length line
    len = ap (λ b. line_length out_sz b (length line)) e ∙ line_length_lem out_sz line rest is fits

    taken : take (line_length out_sz p.inbuf (length line)) p.inbuf ≡ line
    taken = ap (take _) e ∙ take-append line (newline ∷ rest) _ len

    dropped : drop (length line + 1) p.inbuf ≡ rest
    dropped = ap (drop _) e ∙ drop_line line rest newline _ refl

-- The bytes of some lines, framed.
unfoldable pub frames : List Bytes → Bytes
frames [] = []
frames (l ∷ ls) = (l ++ (newline ∷ [])) ++ frames ls

-- Lines queued in order; `none` if one does not fit.
pub queue_all : Player → List Bytes → Option Player
queue_all p [] = some p
queue_all p (l ∷ ls) = let (done, q) = queue_line p l in if done then queue_all q ls else none

-- while (pop_line(…)) for at most `fuel` rounds.
pub pop_all : ℕ → ℕ → Player → List Bytes × Player
pop_all zero out_sz p = ([], p)
pop_all (suc fuel) out_sz p = elim (pop_line out_sz p) [
  | none ↦ ([], p)
  | some (line, q) ↦ let (lines, r) = pop_all fuel out_sz q in (line ∷ lines, r)
]

pub queue_line_fits :
    (p : Player) (l : Bytes)
    → IsLine l
    → length p.outbuf + length (l ++ (newline ∷ [])) ≤ 8192
    → queue_line p l ≡ (true, record p { outbuf = p.outbuf ++ (l ++ (newline ∷ [])) })
unfolding queue_line
queue_line_fits p l is room = let short = is.short in ground (arith, length-append l (newline ∷ []))

queue_all-frames :
    (p : Player) (ls : List Bytes)
    → All IsLine ls
    → length p.outbuf + length (frames ls) ≤ 8192
    → (q : Player) × (queue_all p ls ≡ some q) × (q.outbuf ≡ p.outbuf ++ frames ls)
unfolding queue_all frames
queue_all-frames p [] is room = (p, refl, sym (append-nil p.outbuf))
queue_all-frames p (l ∷ ls) is room =
    let p' : Player = record p { outbuf = p.outbuf ++ (l ++ (newline ∷ [])) } in
    let n = length-append (l ++ (newline ∷ [])) (frames ls) in
    let m = length-append p.outbuf (l ++ (newline ∷ [])) in
    let (q, done, out) = queue_all-frames p' ls is.1 (omega arith) in
    (
      q,
      rw (queue_line_fits p l is.0 (omega arith)) done,
      out ∙ append_assoc p.outbuf (l ++ (newline ∷ [])) (frames ls),
    )

pub pop_line-none :
    (out_sz : ℕ) (p : Player) → find_newline 0 p.inbuf ≡ none → pop_line out_sz p ≡ none
unfolding pop_line
pop_line-none out_sz p e = ground arith

pop_all-frames :
    (q : Player) (ls : List Bytes) (fuel : ℕ)
    → All IsLine ls
    → length ls < fuel
    → q.inbuf ≡ frames ls
    → pop_all fuel max_line q ≡ (ls, record q { inbuf = [] })
unfolding pop_all frames find_newline
pop_all-frames q ls zero is h e = absurd (omega arith)
pop_all-frames q [] (suc fuel) is h e =
    rw (pop_line-none max_line q (ap (find_newline 0) e), pop_all)
      (λ i. ([], record q { inbuf = e i }))
pop_all-frames q (l ∷ ls) (suc fuel) is h e =
    let short = is.0.short in
    rw
      (
        pop_line-frame max_line q l (frames ls) is.0 (omega arith)
            (e ∙ append_assoc l (newline ∷ []) (frames ls)),
        pop_all,
      )
      (rw (pop_all-frames (record q { inbuf = frames ls }) ls fuel is.1 (omega arith) refl) refl)

-- Lines queued into an empty buffer and delivered to an empty one come out as the same lines in the
-- same order, with nothing left over: the lines hold no newline and do not end in a carriage return,
-- each is at most 253 bytes, and with their newlines they fit 8192 bytes.
pub framing_roundtrip :
    (sender receiver : Player) (ls : List Bytes)
    → All IsLine ls
    → length (frames ls) ≤ 8192
    → sender.outbuf ≡ []
    → receiver.inbuf ≡ []
    → (sender' : Player) × (queue_all sender ls ≡ some sender')
      × (pop_all (suc (length ls)) max_line (record receiver { inbuf = sender'.outbuf })
          ≡ (ls, receiver))
framing_roundtrip p q ls is room e f =
    let n : length p.outbuf ≡ 0 = ap length e in
    let (p', done, out) = queue_all-frames p ls is (omega arith) in
    (
      p',
      done,
      pop_all-frames (record q { inbuf = p'.outbuf }) ls (suc (length ls)) is (omega arith)
            (out ∙ ap (λ b. b ++ frames ls) e)
          ∙ λ i. (ls, record q { inbuf = sym f i }),
    )

-- ===== src/Client/Inv/Branches.antt =====
-- Branches of the client's parsers that keep its state in order, and the names that they read.
use rock_paper_scissors_batt.Base.{
  ℕ, zero, suc, ◌<◌, ◌≤◌, ◌≡◌, refl, ap, subst, inl, inr, List, [], ◌∷◌, Option, none, some, Bool,
  true, false, ◌>>=◌, All, arith, length, Bool-cases,
}
use rock_paper_scissors_batt.State.{max_name_length}
use rock_paper_scissors_batt.Text.Bytes.{Bytes, text, is_space}
use rock_paper_scissors_batt.Text.Scan.{
  skip_spaces, take_word, word_result, scan_word, scan_text, scan_char, scan_float, scan_int,
}
use rock_paper_scissors_batt.Client.{ClientState}
use rock_paper_scissors_batt.Client.Messages.{on, first_branch, scan_name, scan_player}
use rock_paper_scissors_batt.Client.Inv.{ClientInv}

-- A result, if there is one, has a property.
abbrev pub Holds {ℓ} : {A : Type ℓ} → (A → Type 0) → Option A → Type 0
Holds P none = Unit
Holds P (some a) = P a

pub Holds-bind {ℓ κ} :
    {A : Type ℓ} {B : Type κ} (P : B → Type 0) (o : Option A) (f : A → Option B)
    → ((a : A) → o ≡ some a → Holds P (f a))
    → Holds P (o >>= f)
Holds-bind P none f h = tt
Holds-bind P (some a) f h = h a refl

pub Holds-some {ℓ} :
    {A : Type ℓ} (P : A → Type 0) (o : Option A) (a : A) → Holds P o → o ≡ some a → P a
Holds-some P none a h e = absurd (cc)
Holds-some P (some b) a h e = subst (Holds P) e h

-- A branch that applies leaves the state in order.
abbrev pub Good : Option ClientState → Type 0
Good = Holds ClientInv

pub first_branch-Inv :
    (s : ClientState) (os : List (Option ClientState))
    → ClientInv s
    → All Good os
    → ClientInv (first_branch s os)
unfolding first_branch
first_branch-Inv s [] v h = v
first_branch-Inv s (none ∷ os) v (_, h) = first_branch-Inv s os v h
first_branch-Inv s (some t ∷ os) v (g, _) = g

pub on-Good : (b : Bool) (t : ClientState) → ClientInv t → Good (on b t)
on-Good true t v = v
on-Good false t v = tt

take_word-short : (n : ℕ) (cs : Bytes) → length (take_word n cs).0 ≤ n
unfolding take_word
take_word-short zero cs = omega arith
take_word-short (suc n) [] = omega arith
take_word-short (suc n) (c ∷ cs) = elim (Bool-cases (is_space c)) [
  | inl e ↦ rw e (omega arith)
  | inr e ↦ rw e (omega (arith, take_word-short n cs))
]

word_result_lem : (r : Bytes × Bytes) (w rest : Bytes) → word_result r ≡ some (w, rest) → w ≡ r.0
unfolding word_result
word_result_lem ([], cs) w rest e = absurd (cc)
word_result_lem (c ∷ word, cs) w rest e = cc

-- A name that was read fits its buffer.
scan_name-short : (cs w rest : Bytes) → scan_name cs ≡ some (w, rest) → length w < max_name_length
unfolding scan_word
scan_name-short cs w rest e =
    let same = word_result_lem (take_word 31 (skip_spaces cs)) w rest e in
    let short = take_word-short 31 (skip_spaces cs) in
    let n : length w ≡ length (take_word 31 (skip_spaces cs)).0 = ap length same in omega arith

pub scan_player-short :
    (line : Bytes) → Holds (λ l. length l.name < max_name_length) (scan_player line)
unfolding scan_player
scan_player-short line = Holds-bind _ (scan_text (text "PLAYER") line) _ λ rest _.
    Holds-bind _ (scan_name rest) _ λ (name, rest') e.
      Holds-bind _ (scan_char (skip_spaces rest')) _ λ (choice, rest) _.
        Holds-bind _ (scan_float rest) _ λ (x, rest) _.
          Holds-bind _ (scan_float rest) _ λ (y, rest) _.
            Holds-bind _ (scan_int rest) _ λ (alive, rest) _.
              Holds-bind _ (scan_int rest) _ λ (waiting, rest) _. scan_name-short _ name rest' e

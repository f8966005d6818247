-- ===== src/Client/PlayerLine.antt =====
-- A PLAYER line from the server's `player_line` to the client's `scan_player`.
use rock_paper_scissors_batt.Base.{
  ℕ, zero, suc, ◌≤◌, ◌≡◌, ◌≢◌, refl, ◌∙◌, [], ◌∷◌, ◌++◌, some, Bool, true, false, All, arith,
  length, if◌then◌else◌,
}
use rock_paper_scissors_batt.Base.Int.{ℤ, pos}
use rock_paper_scissors_batt.Float.{Float}
use rock_paper_scissors_batt.State.{Player}
use rock_paper_scissors_batt.Text.Bytes.{Bytes, text, is_space}
use rock_paper_scissors_batt.Text.Print.{print_flag, print_float}
use rock_paper_scissors_batt.Text.Scan.{
  skip_spaces, take_word, scan_word, word_result, scan_text, scan_char, scan_float, scan_int,
  scan_long, scan_signed, scan_sign, scan_digits, digit_value, to_long, wrap_int,
}
use rock_paper_scissors_batt.Text.Numbers.Decimal.{printed_value, scan_float-print_float}
use rock_paper_scissors_batt.Server.Lines.{player_line}
use rock_paper_scissors_batt.Client.Messages.{PlayerLine, scan_player}

-- A name that `%31s` reads whole.
pub record IsWord (name : Bytes) : Type 0 where
  pub some_byte : name ≢ []
  pub fits : length name ≤ 31
  pub no_space : All (λ c. is_space c ≡ false) name
  pub no_nul : All (λ c. c ≢ 0) name

take_word_lem :
    (n : ℕ) (name rest : Bytes)
    → length name ≤ n
    → All (λ c. is_space c ≡ false) name
    → take_word n (name ++ (32 ∷ rest)) ≡ (name, 32 ∷ rest)
unfolding take_word
take_word_lem zero [] rest h a = refl
take_word_lem zero (c ∷ cs) rest h a = absurd (omega arith)
take_word_lem (suc n) [] rest h a = refl
take_word_lem (suc n) (c ∷ cs) rest h a = rw (take_word_lem n cs rest (omega arith) a.1, a.0) refl

skip_spaces_lem : (c : ℕ) (cs : Bytes) → is_space c ≡ false → skip_spaces (c ∷ cs) ≡ c ∷ cs
unfolding skip_spaces
skip_spaces_lem c cs h = rw h refl

-- A word behind a blank and in front of another.
scan_word_lem :
    (name rest : Bytes)
    → IsWord name
    → scan_word 31 (32 ∷ (name ++ (32 ∷ rest))) ≡ some (name, 32 ∷ rest)
unfolding scan_word skip_spaces word_result
scan_word_lem [] rest w = absurd (w.some_byte refl)
scan_word_lem (c ∷ cs) rest w =
    rw
      (
        skip_spaces_lem c (cs ++ (32 ∷ rest)) w.no_space.0,
        take_word_lem 31 (c ∷ cs) rest w.fits w.no_space,
      )
      refl

abbrev pub flag_value : Bool → ℤ
flag_value true = pos 1
flag_value false = pos 0

-- A flag behind a blank: one digit, with a blank or nothing behind it.
scan_flags :
    (a b : Bool)
    → (scan_int (32 ∷ (print_flag a ++ (32 ∷ print_flag b)))
        ≡ some (flag_value a, 32 ∷ print_flag b))
      × (scan_int (32 ∷ print_flag b) ≡ some (flag_value b, []))
unfolding scan_int scan_long scan_signed scan_sign scan_digits digit_value to_long wrap_int
    skip_spaces print_flag
scan_flags true true = (refl, refl)
scan_flags true false = (refl, refl)
scan_flags false true = (refl, refl)
scan_flags false false = (refl, refl)

blank-scan_float : (cs : Bytes) → scan_float (32 ∷ cs) ≡ scan_float cs
unfolding scan_float skip_spaces
blank-scan_float cs = refl

scan_coordinate :
    (x : Float) (rest : Bytes)
    → scan_float (32 ∷ (print_float 3 x ++ (32 ∷ rest))) ≡ some (printed_value x, 32 ∷ rest)
scan_coordinate x rest =
    blank-scan_float (print_float 3 x ++ (32 ∷ rest)) ∙ scan_float-print_float x rest

abbrev pub shown_choice : Player → ℕ
shown_choice p = if p.choice_chosen then p.choice else b'?'

-- What the client reads in a player's line.
unfoldable pub read_player : Player → PlayerLine
read_player p = record {
  name = p.name;
  choice = shown_choice p;
  x = printed_value p.x;
  y = printed_value p.y;
  alive = flag_value p.alive;
  waiting = flag_value p.waiting;
}

scan_shown_choice :
    (c : ℕ) (rest : Bytes)
    → is_space c ≡ false
    → scan_char (skip_spaces (32 ∷ (c ∷ rest))) ≡ some (c, rest)
unfolding scan_char skip_spaces
scan_shown_choice c rest h = rw h refl

pub scan-player_line :
    (p : Player)
    → IsWord p.name
    → is_space (shown_choice p) ≡ false
    → scan_player (player_line p) ≡ some (read_player p)
unfolding scan_player player_line read_player scan_text text
scan-player_line p w h =
    rw
      (
        scan_word_lem p.name _ w,
        scan_shown_choice (shown_choice p) _ h,
        scan_coordinate p.x _,
        scan_coordinate p.y _,
        (scan_flags p.alive p.waiting).0,
        (scan_flags p.alive p.waiting).1,
      )
      refl

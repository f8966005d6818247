-- ===== src/Commands/Parse.antt =====
-- `parse_command` and `parse_rps_choice_arg` of src/server_commands.c.
use rock_paper_scissors_batt.Base.{
  ℕ, zero, suc, ◌<◌, ◌≡◌, ◌≢◌, refl, [], ◌∷◌, ◌++◌, Option, none, some, false, ◌||◌, leb, ◌==◌,
  arith, length,
}
use rock_paper_scissors_batt.Text.Bytes.{Bytes}
use rock_paper_scissors_batt.Chase.Choice.{IsChoice}
use rock_paper_scissors_batt.Commands.{
  blank, split_at_blank, skip_blanks, args_of, parse_command, parse_rps_choice_arg, cmd_size,
}

abbrev pub NoBlank : Bytes → Type 0
NoBlank [] = Unit {0}
NoBlank (c ∷ cs) = (c ≢ blank) × NoBlank cs

split_word : (w rest : Bytes) → NoBlank w → split_at_blank (w ++ (blank ∷ rest)) ≡ some (w, rest)
unfolding split_at_blank
split_word [] rest h = refl
split_word (c ∷ w) rest (ne, h) = rw (split_word w rest h, not_blank) refl
  where
    not_blank : (c == blank) ≡ false
    not_blank = ground arith

-- `n` blanks.
abbrev pub blanks : ℕ → Bytes → Bytes
blanks zero cs = cs
blanks (suc n) cs = blank ∷ blanks n cs

skip_blanks-blanks : (n : ℕ) (cs : Bytes) → skip_blanks cs ≡ cs → skip_blanks (blanks n cs) ≡ cs
unfolding skip_blanks
skip_blanks-blanks zero cs h = h
skip_blanks-blanks (suc n) cs h = skip_blanks-blanks n cs h

-- A command word of 1 to 15 bytes without blanks, any number of blanks from one on, and arguments
-- that do not start with a blank are read back as that word and those arguments, NULL where there
-- are none.
pub parse_command_roundtrip :
    (c : ℕ) (w args : Bytes) (n : ℕ)
    → NoBlank (c ∷ w)
    → length (c ∷ w) < cmd_size
    → skip_blanks args ≡ args
    → parse_command cmd_size ((c ∷ w) ++ (blank ∷ blanks n args)) ≡ some (c ∷ w, args_of args)
unfolding parse_command
parse_command_roundtrip c w args n h short stop =
    rw (split_word (c ∷ w) (blanks n args) h, fits, skip_blanks-blanks n args stop, parse_command)
      refl
  where
    fits : ((length (c ∷ w) == 0) || leb cmd_size (length (c ∷ w))) ≡ false
    fits = ground arith

-- What `parse_rps_choice_arg` returns is one of the three kinds in upper case.
pub parse_rps_choice_arg-IsChoice :
    (args : Option Bytes) (c : ℕ) → parse_rps_choice_arg args ≡ some c → IsChoice c
unfolding parse_rps_choice_arg
parse_rps_choice_arg-IsChoice none c h = cc
parse_rps_choice_arg-IsChoice (some []) c h = cc
parse_rps_choice_arg-IsChoice (some (a ∷ b ∷ bs)) c h = cc
parse_rps_choice_arg-IsChoice (some (a ∷ [])) c h = ground arith

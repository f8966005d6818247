-- ===== src/Client/Ui/Commands.antt =====
-- The lines that the client sends, as the parser of src/server_commands.c reads them.
use rock_paper_scissors_batt.Base.{
  ℕ, ◌<◌, ◌≡◌, refl, ◌⊎◌, inl, inr, [], ◌∷◌, ◌++◌, Option, none, some, true, false, subst, sym, ap,
  take,
}
use rock_paper_scissors_batt.Base.Int.{pos}
use rock_paper_scissors_batt.Float.{single, of_ratio}
use rock_paper_scissors_batt.Text.Print.{print_nat}
use rock_paper_scissors_batt.Text.Bytes.{Bytes, codes, text, c_string}
use rock_paper_scissors_batt.Chase.Choice.{IsChoice}
use rock_paper_scissors_batt.Commands.{
  parse_command, split_at_blank, skip_blanks, args_of, to_upper, cmd_size, parse_rps_choice_arg,
  spawn_args, off_grid,
}
use rock_paper_scissors_batt.Client.{name_copy}
use rock_paper_scissors_batt.Client.Ui.{Origin, code}
use rock_paper_scissors_batt.Client.Ui.Keys.{spawn_line, print_int}
use rock_paper_scissors_batt.Client.Pump.Stream.{c_string-no_nul}
use rock_paper_scissors_batt.Text.Clean.{all_clean, clean-append, clean_bytes, print_nat-clean}
use rock_paper_scissors_batt.Client.Ui.Cells.{digit_value_of, IsCoordinate, pick, ten_coordinates}

-- The words of the commands without arguments.
abbrev pub IsPlain : Bytes → Type 0
IsPlain w = (w ≡ text "GET_STATE") ⊎ (w ≡ text "REMATCH") ⊎ (w ≡ text "QUIT")

-- The two places that a spawn is sent from: the cursor and the plan.
abbrev pub IsPlace : Origin → ℕ → ℕ → Type 0
IsPlace o x y =
    ((o.column ≡ pos x) × (o.row ≡ pos y)) ⊎ ((o.plan.spawn_x ≡ pos x) × (o.plan.spawn_y ≡ pos y))

-- The key whose upper case is a kind.
abbrev pub IsPressed : Origin → ℕ → Type 0
IsPressed o kind = (c : ℕ) × (o.key ≡ some (code c)) × (to_upper c ≡ kind)

-- What the server makes of a line, and what it was sent for.
pub data IsUnderstood (o : Origin) (l : Bytes) : Type 0 where
  plain : {w : Bytes} → IsPlain w → parse_command cmd_size l ≡ some (w, none) → IsUnderstood o l
  hello :
      parse_command cmd_size l
        ≡ some (text "HELLO", args_of (skip_blanks (c_string (take 31 o.name))))
      → IsUnderstood o l
  choice :
      {c : ℕ} {args : Option Bytes}
      → IsChoice c
      → (o.plan.choice ≡ c) ⊎ IsPressed o c
      → parse_command cmd_size l ≡ some (text "CHOICE", args)
      → parse_rps_choice_arg args ≡ some c
      → IsUnderstood o l
  repick :
      {c : ℕ} {args : Option Bytes}
      → IsChoice c
      → IsPressed o c
      → parse_command cmd_size l ≡ some (text "REPICK", args)
      → parse_rps_choice_arg args ≡ some c
      → IsUnderstood o l
  spawn :
      {x y : ℕ} {args : Option Bytes}
      → IsPlace o x y
      → parse_command cmd_size l ≡ some (text "SPAWN", args)
      → spawn_args args ≡ some (of_ratio single false x 1, of_ratio single false y 1)
      → off_grid (of_ratio single false x 1) (of_ratio single false y 1) ≡ false
      → IsUnderstood o l

pub get_state-IsUnderstood : {o : Origin} → IsUnderstood o (c_string (text "GET_STATE"))
unfolding parse_command split_at_blank c_string text
get_state-IsUnderstood = plain (inl refl) refl

pub rematch-IsUnderstood : {o : Origin} → IsUnderstood o (c_string (text "REMATCH"))
unfolding parse_command split_at_blank c_string text
rematch-IsUnderstood = plain (inr (inl refl)) refl

pub quit-IsUnderstood : {o : Origin} → IsUnderstood o (c_string (text "QUIT"))
unfolding parse_command split_at_blank c_string text
quit-IsUnderstood = plain (inr (inr refl)) refl

pub hello-IsUnderstood :
    (o : Origin) → IsUnderstood o (c_string (text "HELLO " ++ name_copy o.name))
unfolding parse_command split_at_blank c_string text
hello-IsUnderstood o = hello refl

pub choice-IsUnderstood :
    {o : Origin} (c : ℕ)
    → IsChoice c
    → (o.plan.choice ≡ c) ⊎ IsPressed o c
    → IsUnderstood o (c_string (text "CHOICE " ++ (c ∷ [])))
unfolding parse_command split_at_blank skip_blanks c_string text parse_rps_choice_arg
choice-IsUnderstood {o} c (inl e) from = rw e (
    choice {c = 82} {args = some (82 ∷ [])} (inl refl)
      (subst (λ (k : ℕ). (o.plan.choice ≡ k) ⊎ IsPressed o k) e from) refl refl)
choice-IsUnderstood {o} c (inr (inl e)) from = rw e (
    choice {c = 80} {args = some (80 ∷ [])} (inr (inl refl))
      (subst (λ (k : ℕ). (o.plan.choice ≡ k) ⊎ IsPressed o k) e from) refl refl)
choice-IsUnderstood {o} c (inr (inr e)) from = rw e (
    choice {c = 83} {args = some (83 ∷ [])} (inr (inr refl))
      (subst (λ (k : ℕ). (o.plan.choice ≡ k) ⊎ IsPressed o k) e from) refl refl)

pub repick-IsUnderstood :
    {o : Origin} (c : ℕ)
    → IsChoice c
    → IsPressed o c
    → IsUnderstood o (c_string (text "REPICK " ++ (c ∷ [])))
unfolding parse_command split_at_blank skip_blanks c_string text parse_rps_choice_arg
repick-IsUnderstood {o} c (inl e) from = rw e (
    repick {c = 82} {args = some (82 ∷ [])} (inl refl) (subst (λ (k : ℕ). IsPressed o k) e from)
      refl refl)
repick-IsUnderstood {o} c (inr (inl e)) from = rw e (
    repick {c = 80} {args = some (80 ∷ [])} (inr (inl refl))
      (subst (λ (k : ℕ). IsPressed o k) e from) refl refl)
repick-IsUnderstood {o} c (inr (inr e)) from = rw e (
    repick {c = 83} {args = some (83 ∷ [])} (inr (inr refl))
      (subst (λ (k : ℕ). IsPressed o k) e from) refl refl)

spawn_line-whole : (x y : ℕ) → c_string (spawn_line (pos x) (pos y)) ≡ spawn_line (pos x) (pos y)
unfolding spawn_line print_int text all_clean
spawn_line-whole x y =
    let line = codes "SPAWN " ++ (print_nat x ++ (32 ∷ print_nat y)) in
    c_string-no_nul line (clean_bytes line clean).0
  where
    clean : all_clean (codes "SPAWN " ++ (print_nat x ++ (32 ∷ print_nat y))) ≡ true
    clean =
        clean-append (codes "SPAWN ") (print_nat x ++ (32 ∷ print_nat y)) refl
          (clean-append (print_nat x) (32 ∷ print_nat y) (print_nat-clean x) (print_nat-clean y))

spawn_line-parsed :
    (x y : ℕ)
    → IsCoordinate x
    → parse_command cmd_size (spawn_line (pos x) (pos y))
      ≡ some (text "SPAWN", some (print_nat x ++ (32 ∷ print_nat y)))
unfolding spawn_line print_int parse_command split_at_blank text
spawn_line-parsed x y c = ap (λ (a : Option Bytes). some (codes "SPAWN", a)) (c.args (print_nat y))

spawn_args_read :
    (x y : ℕ)
    → IsCoordinate x
    → IsCoordinate y
    → spawn_args (some (print_nat x ++ (32 ∷ print_nat y)))
      ≡ some (digit_value_of x, digit_value_of y)
spawn_args_read x y c d = rw (c.first (print_nat y), d.second) refl

coordinates_on_grid :
    (x y : ℕ)
    → IsCoordinate x
    → IsCoordinate y
    → off_grid (digit_value_of x) (digit_value_of y) ≡ false
unfolding off_grid
coordinates_on_grid x y c d = rw (c.not_low, c.not_high, d.not_low, d.not_high) refl

-- A cell of the grid is sent so that the server reads a spawn on the grid.
pub spawn-IsUnderstood :
    {o : Origin} (x y : ℕ)
    → x < 10
    → y < 10
    → IsPlace o x y
    → IsUnderstood o (c_string (spawn_line (pos x) (pos y)))
spawn-IsUnderstood {o} x y hx hy from =
    let c = pick IsCoordinate 10 x ten_coordinates hx in
    let d = pick IsCoordinate 10 y ten_coordinates hy in
    subst (IsUnderstood o) (sym (spawn_line-whole x y))
      (spawn from (spawn_line-parsed x y c) (spawn_args_read x y c d) (coordinates_on_grid x y c d))

-- ===== src/Commands/Grid.antt =====
-- The range test of SPAWN in src/server_commands.c.
use rock_paper_scissors_batt.Base.{ℕ, ◌*◌, ◌^◌, ◌<◌, ◌≡◌, ◌↔◌, refl, Bool, true, false, ◌||◌, arith}
use rock_paper_scissors_batt.Float.{Float, finite, inf, nan, single, lt, eq, le, of_ℕ}
use rock_paper_scissors_batt.State.{zero_float}
use rock_paper_scissors_batt.Commands.{off_grid}

-- Ten grid units, in units of 2 ^ -149.
abbrev pub ten_units : ℕ
ten_units = 10 * 2 ^ 149

-- A coordinate on the grid: from 0 (or -0) up to, not including, 10; or no number at all.
pub OnAxis : Float → Type 0
OnAxis (finite true m) = m ≡ 0
OnAxis (finite false m) = m < ten_units
OnAxis (inf s) = ⊥
OnAxis nan = Unit {0}

ten_lem : of_ℕ single 10 ≡ finite false ten_units
unfolding of_ℕ
ten_lem = refl

-- The comparisons with 0 and with `n` units of one coordinate.
axis_iff :
    (n : ℕ) (x : Float)
    → n ≡ ten_units
    → ((lt x zero_float ≡ false) × (le (finite false n) x ≡ false)) ↔ OnAxis x
unfolding lt le eq OnAxis
axis_iff n (finite true m) e = ground arith
axis_iff n (finite false m) e = ground arith
axis_iff n (inf true) e = (λ (a, b). absurd (cc), λ h. absurd h)
axis_iff n (inf false) e = (λ (a, b). absurd (cc), λ h. absurd h)
axis_iff n nan e = (λ h. tt, λ h. (refl, refl))

all_false :
    (a b c d : Bool)
    → ((a || (b || (c || d))) ≡ false) ↔ (((a ≡ false) × (b ≡ false)) × ((c ≡ false) × (d ≡ false)))
all_false a b c d = ground arith

-- `SPAWN` takes a position exactly when each coordinate, as a float, is from 0 up to but not
-- including 10, or is not a number.
pub off_grid_iff : (x y : Float) → (off_grid x y ≡ false) ↔ (OnAxis x × OnAxis y)
unfolding off_grid
off_grid_iff x y =
    let parts =
      all_false (lt x zero_float) (le (finite false ten_units) x) (lt y zero_float)
        (le (finite false ten_units) y) in
    rw ten_lem (
      λ h.
          let (a, b) = parts.0 h in
          ((axis_iff ten_units x refl).0 a, (axis_iff ten_units y refl).0 b),
      λ (a, b). parts.1 ((axis_iff ten_units x refl).1 a, (axis_iff ten_units y refl).1 b),
    )

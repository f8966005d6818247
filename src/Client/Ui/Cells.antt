-- ===== src/Client/Ui/Cells.antt =====
-- The ten coordinates of the grid, printed by the client and read by the server's `sscanf`.
use rock_paper_scissors_batt.Base.{
  ℕ, zero, suc, ◌<◌, ◌≡◌, refl, inl, inr, [], ◌∷◌, ◌++◌, some, false, Bool-cases, subst, arith,
  ◌==◌,
}
use rock_paper_scissors_batt.Float.{Float, single, of_ratio, of_ℕ, lt, le, eq}
use rock_paper_scissors_batt.State.{zero_float, grid_w}
use rock_paper_scissors_batt.Text.Print.{print_nat, print_digits}
use rock_paper_scissors_batt.Text.Scan.{
  scan_float, scan_unsigned, scan_sign, skip_spaces, after_token, scan_number, scan_digits,
  digit_value, scan_fraction, scan_exponent, scaled,
}
use rock_paper_scissors_batt.Text.Bytes.{Bytes}
use rock_paper_scissors_batt.Commands.{args_of, skip_blanks}

abbrev pub digit_value_of : ℕ → Float
digit_value_of d = of_ratio single false d 1

-- What the server reads of a coordinate, the first or the second.
pub record IsCoordinate (d : ℕ) : Type 0 where
  pub args :
      (rest : Bytes)
      → args_of (skip_blanks (print_nat d ++ (32 ∷ rest))) ≡ some (print_nat d ++ (32 ∷ rest))
  pub first :
      (rest : Bytes) → scan_float (print_nat d ++ (32 ∷ rest)) ≡ some (digit_value_of d, 32 ∷ rest)
  pub second : scan_float (32 ∷ print_nat d) ≡ some (digit_value_of d, [])
  pub not_low : lt (digit_value_of d) zero_float ≡ false
  pub not_high : le (of_ℕ single grid_w) (digit_value_of d) ≡ false

abbrev pub AllBelow : (ℕ → Type 0) → ℕ → Type 0
AllBelow P zero = Unit
AllBelow P (suc n) = P n × AllBelow P n

pub pick : (P : ℕ → Type 0) (n d : ℕ) → AllBelow P n → d < n → P d
pick P zero d h l = absurd (omega arith)
pick P (suc n) d (p, h) l = elim (Bool-cases (d == n)) [
  | inl e ↦ let same : n ≡ d = ground arith in subst P same p
  | inr e ↦ pick P n d h (ground arith)
]

pub ten_coordinates : AllBelow IsCoordinate 10
unfolding skip_blanks print_nat print_digits scan_float scan_unsigned scan_sign skip_spaces
    after_token scan_number scan_digits digit_value scan_fraction scan_exponent scaled of_ratio of_ℕ
    lt le eq
ten_coordinates = (
  record {
    args = λ rest. refl;
    first = λ rest. refl;
    second = refl;
    not_low = refl;
    not_high = refl;
  },
  (
    record {
      args = λ rest. refl;
      first = λ rest. refl;
      second = refl;
      not_low = refl;
      not_high = refl;
    },
    (
      record {
        args = λ rest. refl;
        first = λ rest. refl;
        second = refl;
        not_low = refl;
        not_high = refl;
      },
      (
        record {
          args = λ rest. refl;
          first = λ rest. refl;
          second = refl;
          not_low = refl;
          not_high = refl;
        },
        (
          record {
            args = λ rest. refl;
            first = λ rest. refl;
            second = refl;
            not_low = refl;
            not_high = refl;
          },
          (
            record {
              args = λ rest. refl;
              first = λ rest. refl;
              second = refl;
              not_low = refl;
              not_high = refl;
            },
            (
              record {
                args = λ rest. refl;
                first = λ rest. refl;
                second = refl;
                not_low = refl;
                not_high = refl;
              },
              (
                record {
                  args = λ rest. refl;
                  first = λ rest. refl;
                  second = refl;
                  not_low = refl;
                  not_high = refl;
                },
                (
                  record {
                    args = λ rest. refl;
                    first = λ rest. refl;
                    second = refl;
                    not_low = refl;
                    not_high = refl;
                  },
                  (
                    record {
                      args = λ rest. refl;
                      first = λ rest. refl;
                      second = refl;
                      not_low = refl;
                      not_high = refl;
                    },
                    tt,
                  ),
                ),
              ),
            ),
          ),
        ),
      ),
    ),
  ),
)

-- ===== src/Float/Order.antt =====
-- The order of floating-point values, NaN included.
use rock_paper_scissors_batt.Base.{◌≡◌, true, false, arith}
use rock_paper_scissors_batt.Float.{Float, finite, inf, nan, lt}

pub lt_irrefl : (x : Float) → lt x x ≡ false
unfolding lt
lt_irrefl (finite true m) = ground arith
lt_irrefl (finite false m) = ground arith
lt_irrefl (inf true) = ground arith
lt_irrefl (inf false) = ground arith
lt_irrefl nan = ground arith

pub lt_trans : (x y z : Float) → lt x y ≡ true → lt y z ≡ true → lt x z ≡ true
unfolding lt
lt_trans x y z p q = ground arith

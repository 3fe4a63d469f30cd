-- ===== src/Alert/Rate/Bounds.antt =====
-- The token bucket over calls at one time.
use health_monitor_sre_engin.Common.{ℕ, zero, suc, ◌+◌, ◌<◌, true, false, ◌≡◌, if◌then◌else◌}
use health_monitor_sre_engin.Alert.Rate.{Floats, RateLimiter, allow}

-- What IEEE 754 gives for numbers that are not NaN: less is irreflexive, a number that is not above 0 is less than
-- 1, and one that is not above k is not above k + 1, adding the refill of no time is exact, and, since rounding is monotonic and whole numbers up to
-- 2 ^ 53 are exact, a number that is at most k + 1 is at most k after 1 is subtracted.
pub record IsFloat {F : Type 0} (ops : Floats F) : Type 0 where
  pub irreflexive : (x : F) → ops.less x x ≡ false
  pub below_one : (x : F) → ops.less (ops.of_int 0) x ≡ false → ops.less x (ops.of_int 1) ≡ true
  pub no_refill :
      (bound x : F) (rate : ℕ)
      → ops.less bound (ops.plus x (ops.times (ops.seconds 0) (ops.of_int rate))) ≡ ops.less bound x
  pub weaken :
      (k : ℕ) (x : F) → ops.less (ops.of_int k) x ≡ false → ops.less (ops.of_int (suc k)) x ≡ false
  pub one_less :
      (k : ℕ) (x : F)
      → k < 9007199254740992
      → ops.less (ops.of_int (suc k)) x ≡ false
      → ops.less (ops.of_int k) (ops.minus x (ops.of_int 1)) ≡ false

module _ {F : Type 0} (ops : Floats F) where
  -- how many of a number of calls at one time are allowed
  unfoldable pub allowed_at : ℕ → ℕ → RateLimiter F → ℕ
  allowed_at zero now r = 0
  allowed_at (suc n) now r =
      (if (allow ops now r).0 then 1 else 0) + allowed_at n now (allow ops now r).1

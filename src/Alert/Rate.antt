-- ===== src/Alert/Rate.antt =====
-- internal/alert/ratelimit.go: the token bucket. The arithmetic of float64 is a parameter, with its rounding.
-- time.Now is the argument `now`; it is monotonic. A nil limiter, which allows everything, is left out.
pub mod Bounds
use health_monitor_sre_engin.Common.{ℕ, ◌-◌, leb, Bool, true, false, if◌then◌else◌}

-- float64 without its NaNs
pub record Floats (F : Type 0) : Type 0 where
  pub of_int : ℕ → F
  pub plus : F → F → F
  pub minus : F → F → F
  pub times : F → F → F
  pub less : F → F → Bool
  -- time.Duration.Seconds of a number of nanoseconds
  pub seconds : ℕ → F

pub record RateLimiter (F : Type 0) : Type 0 where
  pub rate : ℕ
  pub burst : ℕ
  pub tokens : F
  pub last : ℕ

module _ {F : Type 0} (ops : Floats F) where
  -- NewRateLimiter; a negative rate or burst acts as 0
  unfoldable pub new_rate_limiter : ℕ → ℕ → ℕ → RateLimiter F
  new_rate_limiter rate burst now =
      let b = if leb burst 0 then rate else burst in
      record { rate = rate; burst = b; tokens = ops.of_int b; last = now }

  abbrev pub cap : F → F → F
  cap limit n = if ops.less limit n then limit else n

  -- the tokens at a time, before the call takes one
  abbrev pub refilled : ℕ → RateLimiter F → F
  refilled now r =
      let elapsed = ops.seconds (now - r.last) in
      cap (ops.of_int r.burst) (ops.plus r.tokens (ops.times elapsed (ops.of_int r.rate)))

  -- Allow: the answer, and the limiter after it
  unfoldable pub allow : ℕ → RateLimiter F → Bool × RateLimiter F
  allow now r =
      let tokens = refilled now r in
      if leb r.rate 0
      then (true, r)
      else if ops.less tokens (ops.of_int 1)
      then (false, record r { tokens = tokens; last = now })
      else (true, record r { tokens = ops.minus tokens (ops.of_int 1); last = now })

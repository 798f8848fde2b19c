-- ===== src/Http/Retry/Backoff.antt =====
-- The wait between two attempts: bounds of the clamped delay and of the jitter on top of it.
use email_platform_services.Common.{ℕ, ◌+◌, ◌*◌, ◌≤◌, ◌<◌, ◌≡◌, ◌^◌, arith}
use email_platform_services.Http.Types.{RetryPolicy}
use email_platform_services.Http.Retry.{Doubles, backoff_delay, backoff_with_jitter}

module _ (policy : RetryPolicy) (ordered : policy.backoff_min_ms ≤ policy.backoff_max_ms) where
  pub backoff_delay_bounds :
      (n : ℕ)
      → (policy.backoff_min_ms ≤ backoff_delay n policy)
        × (backoff_delay n policy ≤ policy.backoff_max_ms)
  unfolding backoff_delay
  backoff_delay_bounds n = omega arith

  halved : (d unit r : ℕ) → r < unit → (r * d ≤ d * unit) × (d * unit + d * unit ≡ 2 * d * unit)
  halved d unit r h = grind arith

  times_unit : (a b unit : ℕ) → a ≤ b → a * unit ≤ b * unit
  times_unit a b unit h = grind arith

  -- With `0 < backoffMinMs <= backoffMaxMs < 2 ^ 52`, the wait is at least half of the clamped delay
  -- and at most the whole of it, so at least half of `backoffMinMs` and at most `backoffMaxMs`, also
  -- as doubles round it. Waits are in parts of 1 / (2 * unit) of a millisecond.
  pub backoff_with_jitter_bounds :
      (doubles : Doubles) (r n : ℕ)
      → r < doubles.unit
      → 0 < policy.backoff_min_ms
      → policy.backoff_max_ms < 2 ^ 52
      → (policy.backoff_min_ms * doubles.unit ≤ backoff_with_jitter doubles r n policy)
        × (backoff_delay n policy * doubles.unit ≤ backoff_with_jitter doubles r n policy)
        × (backoff_with_jitter doubles r n policy ≤ 2 * backoff_delay n policy * doubles.unit)
        × (backoff_with_jitter doubles r n policy ≤ 2 * policy.backoff_max_ms * doubles.unit)
  unfolding backoff_with_jitter
  backoff_with_jitter_bounds doubles r n h positive small =
      let d = backoff_delay n policy in
      let (low, high) = backoff_delay_bounds n in
      let (below, whole) = halved d doubles.unit r h in
      let half = doubles.round_halves d (omega arith) in
      let full = doubles.round_halves (2 * d) (omega arith) in
      let jitter = doubles.round_monotone (r * d) (d * doubles.unit) below in
      let jittered = doubles.round (r * d) in
      let floor =
        doubles.round_monotone (d * doubles.unit) (d * doubles.unit + jittered) (omega arith) in
      let ceiling =
        doubles.round_monotone (d * doubles.unit + jittered) (2 * d * doubles.unit) (omega arith) in
      let least = times_unit policy.backoff_min_ms d doubles.unit low in
      let most = times_unit (2 * d) (2 * policy.backoff_max_ms) doubles.unit (omega arith) in
      (omega arith, omega arith, omega arith, omega arith)

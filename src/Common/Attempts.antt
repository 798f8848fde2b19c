-- ===== src/Common/Attempts.antt =====
-- The states and outcomes of an attempt that is made again and again.
use Prim.Native.Nat.{ℕ, zero, suc}
use email_platform_services.Common.Results.{Outcome}

module _ {A S : Type 0} (attempt : S → Outcome A × S) where
  -- The state after so many attempts, and the outcome of the next.
  abbrev pub state_after : ℕ → S → S
  state_after zero s = s
  state_after (suc k) s = state_after k (attempt s).1

  abbrev pub outcome_at : ℕ → S → Outcome A
  outcome_at k s = (attempt (state_after k s)).0

-- ===== src/Common/Int.antt =====
-- Differences of two native numbers that may be negative, such as a clock that was set back.
use Prim.Native.Nat.{ℕ, ◌-◌}
use email_platform_services.Common.Tests.{leb, if◌then◌else◌}

-- `negsuc n` is -(n + 1).
pub data ℤ : Type 0 where
  pos : ℕ → ℤ
  negsuc : ℕ → ℤ

abbrev pub sub_ℕ : ℕ → ℕ → ℤ
sub_ℕ a b = if leb b a then pos (a - b) else negsuc (b - a - 1)

-- ===== src/Base/Int.antt =====
-- Signed integers over the native numbers, under the library's names.
use pg_replicate.Base.Tests.{leb, if◌then◌else◌}
use Prim.Native.Nat.{ℕ, ◌-◌}

-- `negsuc n` is -(n + 1).
pub data ℤ : Type 0 where
  pos : ℕ → ℤ
  negsuc : ℕ → ℤ

-- The negative of a number.
abbrev pub negate : ℕ → ℤ
negate n = if leb n 0 then pos 0 else negsuc (n - 1)

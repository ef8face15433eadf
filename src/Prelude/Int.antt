-- ===== src/Prelude/Int.antt =====
-- The signed 64-bit arguments of the source: `negsuc n` is -(n + 1).
use Prim.Native.Nat.{ℕ, ◌^◌, ◌-◌}

pub data ℤ : Type 0 where
  pos : ℕ → ℤ
  negsuc : ℕ → ℤ

-- `math.MaxInt64`
abbrev pub max_int64 : ℕ
max_int64 = 2 ^ 63 - 1

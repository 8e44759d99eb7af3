-- ===== src/Prelude/Int.antt =====
-- Signed integers over the native numbers: what an int16 or an int32 read from the wire stands for.
use Prim.Native.Nat.{ℕ, ◌-◌}
use tssdgo.Prelude.Tests.{ltb, if◌then◌else◌}

-- `negsuc n` is -(n + 1).
pub data ℤ : Type 0 where
  pos : ℕ → ℤ
  negsuc : ℕ → ℤ

-- The number that a two's complement pattern stands for, over 2 ^ 16 and over 2 ^ 32 patterns.
abbrev pub signed16 : ℕ → ℤ
signed16 w = if ltb w 0x8000 then pos w else negsuc (0x10000 - w - 1)

abbrev pub signed32 : ℕ → ℤ
signed32 w = if ltb w 0x80000000 then pos w else negsuc (0x100000000 - w - 1)

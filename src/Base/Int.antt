-- ===== src/Base/Int.antt =====
-- C's `int` results. `negsuc n` is -(n + 1).
use Prim.Native.Nat.{ℕ, ◌-◌, ◌<◌}
use mathlib.Core.Path.{◌≡◌}
use native.Mathlib.Omega.{arith}
use flowstatd.Base.Tests.{ltb, if◌then◌else◌}

pub data ℤ : Type 0 where
  pos : ℕ → ℤ
  negsuc : ℕ → ℤ

-- The `int` that a 32-bit pattern stands for.
abbrev pub signed32 : ℕ → ℤ
signed32 w = if ltb w 0x8000_0000 then pos w else negsuc (0x1_0000_0000 - w - 1)

pub signed32_small : (w : ℕ) → w < 0x8000_0000 → signed32 w ≡ pos w
signed32_small w h = ground arith

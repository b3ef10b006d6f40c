-- ===== src/Base/Int.antt =====
-- Go's `int` as a signed integer; `negsuc n` is -(n + 1).
use Prim.Native.Nat.{ℕ}
use mathlib.Core.Bool.{Bool, true}
use go_clarinet.Base.Tests.{ltb}

pub data ℤ : Type 0 where
  pos : ℕ → ℤ
  negsuc : ℕ → ℤ

-- How many rounds `for i := 0; i < z` makes; also the `z` of a slice bound that is known to be positive.
abbrev pub to_ℕ : ℤ → ℕ
to_ℕ (pos n) = n
to_ℕ (negsuc n) = 0

abbrev pub lt_one : ℤ → Bool
lt_one (pos n) = ltb n 1
lt_one (negsuc n) = true

-- `len > z`
abbrev pub exceeds : ℕ → ℤ → Bool
exceeds len (pos n) = ltb n len
exceeds len (negsuc n) = true

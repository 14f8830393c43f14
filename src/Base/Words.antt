-- ===== src/Base/Words.antt =====
-- `int` on a machine of 64 bits, where a product may wrap.
use Prim.Native.Nat.{ℕ, ◌-◌, ◌^◌, ◌%◌}
use mathlib.Core.Bool.{Bool, true, false}
use tspack.Base.Tests.{ℤ, pos, negsuc, ltb, if◌then◌else◌}

-- The number whose bit pattern a word is.
abbrev pub signed_int : ℕ → ℤ
signed_int w = if ltb w (2 ^ 63) then pos w else negsuc (2 ^ 64 - w - 1)

-- A number that is not negative, as an `int`.
abbrev pub wrap_int : ℕ → ℤ
wrap_int n = signed_int (n % 2 ^ 64)

abbrev pub ltb_ℤ : ℤ → ℤ → Bool
ltb_ℤ (pos a) (pos b) = ltb a b
ltb_ℤ (pos a) (negsuc b) = false
ltb_ℤ (negsuc a) (pos b) = true
ltb_ℤ (negsuc a) (negsuc b) = ltb b a

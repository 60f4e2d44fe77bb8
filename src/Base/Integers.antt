-- ===== src/Base/Integers.antt =====
-- Signed integers over the native numbers, under the library's names.
use Prim.Native.Nat.{ℕ, ◌<◌, ◌+◌, ◌-◌, ◌%◌, ◌^◌}
use mathlib.Core.Bool.{Bool, true, false}
use mathlib.Core.Path.{◌≡◌, refl, ap}
use mathlib.Core.Logic.{◌≢◌}
use native.Mathlib.Omega.{arith}
use winx.Base.Tests.{ltb, leb, if◌then◌else◌, lt→ltb}

-- `negsuc n` is -(n + 1).
pub data ℤ : Type 0 where
  pos : ℕ → ℤ
  negsuc : ℕ → ℤ

-- the difference of two numbers
pub diff : ℕ → ℕ → ℤ
diff m n = if leb n m then pos (m - n) else negsuc (n - m - 1)

infixl 65 ◌+ℤ◌
pub ◌+ℤ◌ : ℤ → ℤ → ℤ
pos m +ℤ pos n = pos (m + n)
pos m +ℤ negsuc n = diff m (n + 1)
negsuc m +ℤ pos n = diff n (m + 1)
negsuc m +ℤ negsuc n = negsuc (m + n + 1)

-- `(int32_t)n`
pub pos-+ℤ : (m n : ℕ) → pos m +ℤ pos n ≡ pos (m + n)
unfolding ◌+ℤ◌
pos-+ℤ m n = refl

pub to_int32 : ℕ → ℤ
to_int32 n = let w = n % 2 ^ 32 in if ltb w (2 ^ 31) then pos w else negsuc (2 ^ 32 - 1 - w)

pub fits_int32 : ℤ → Bool
fits_int32 (pos n) = ltb n (2 ^ 31)
fits_int32 (negsuc n) = ltb n (2 ^ 31)

pub to_int32-small : (n : ℕ) → n < 2 ^ 31 → to_int32 n ≡ pos n
unfolding to_int32
to_int32-small n small =
    let e : n % 2 ^ 32 ≡ n = omega arith in rw (e, lt→ltb n (2 ^ 31) small) refl

pub fits_int32-pos : (n : ℕ) → n < 2 ^ 31 → fits_int32 (pos n) ≡ true
unfolding fits_int32
fits_int32-pos n small = lt→ltb n (2 ^ 31) small

magnitude : ℤ → ℕ
magnitude (pos n) = n
magnitude (negsuc n) = n

pub pos-injective : {m n : ℕ} → pos m ≡ pos n → m ≡ n
unfolding magnitude
pos-injective e = ap magnitude e

is_negative : ℤ → Bool
is_negative (pos n) = false
is_negative (negsuc n) = true

pub pos≢negsuc : (m n : ℕ) → pos m ≢ negsuc n
unfolding is_negative
pos≢negsuc m n e = absurd (ground (arith, ap is_negative e))

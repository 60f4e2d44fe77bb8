-- ===== src/Base/Words.antt =====
-- `|` of a shifted word and a smaller one, for every shift.
use Prim.Native.Nat.{max, digits, bit_or-bitwise}
use native.Mathlib.Nat.{pow-suc}
use winx.Base.{ℕ, zero, suc, ◌+◌, ◌*◌, ◌/◌, ◌%◌, ◌^◌, ◌≤◌, ◌<◌, bit_or, ◌≡◌, refl, ap, ◌∙◌, arith}

abbrev or_digits : ℕ → ℕ → ℕ → ℕ
or_digits n a b = digits (λ b. b) max n a b

-- The count of digits to go does not matter once it covers the first word.
or_digits_enough : (a b n m : ℕ) → a ≤ m → a ≤ n → or_digits m a b ≡ or_digits n a b
or_digits_enough zero b zero zero p q = refl
or_digits_enough zero b zero (suc m) p q = refl
or_digits_enough zero b (suc n) zero p q = refl
or_digits_enough zero b (suc n) (suc m) p q = refl
or_digits_enough (suc a) b zero m p q = absurd (omega arith)
or_digits_enough (suc a) b (suc n) zero p q = absurd (omega arith)
or_digits_enough (suc a) b (suc n) (suc m) p q =
    let rest = or_digits_enough (suc a / 2) (b / 2) n m (omega arith) (omega arith) in
    omega (arith, rest)

zero-bit_or : (b : ℕ) → bit_or 0 b ≡ b
zero-bit_or b = bit_or-bitwise 0 b

-- the lowest digit apart from the others
bit_or-half : (x y : ℕ) → bit_or x y ≡ max (x % 2) (y % 2) + 2 * bit_or (x / 2) (y / 2)
bit_or-half zero y = omega (arith, zero-bit_or (y / 2), zero-bit_or y)
bit_or-half (suc x) y =
    let whole = bit_or-bitwise (suc x) y in
    let halves = bit_or-bitwise (suc x / 2) (y / 2) in
    let enough = or_digits_enough (suc x / 2) (y / 2) (suc x / 2) x (omega arith) (omega arith) in
    omega (arith, whole, halves, enough)

bit_or-zero_below : (n a : ℕ) → a ≤ n → bit_or a 0 ≡ a
bit_or-zero_below n zero h = refl
bit_or-zero_below zero (suc a) h = absurd (omega arith)
bit_or-zero_below (suc n) (suc a) h =
    omega (arith, bit_or-half (suc a) 0, bit_or-zero_below n (suc a / 2) (omega arith))

-- `(q << k) | r` is a sum where `r` has at most `k` bits.
pub bit_or-shifted : (k q r : ℕ) → r < 2 ^ k → bit_or (q * 2 ^ k) r ≡ q * 2 ^ k + r
bit_or-shifted zero q r small =
    let z : r ≡ 0 = omega arith in
    rw z (bit_or-zero_below (q * 2 ^ 0) (q * 2 ^ 0) (omega arith) ∙ omega arith)
bit_or-shifted (suc k) q r small =
    let twice : q * 2 ^ suc k ≡ 2 * (q * 2 ^ k) =
      omega (arith, ap (λ (t : ℕ). q * t) (pow-suc 2 k)) in
    omega (
      arith,
      bit_or-half (q * 2 ^ suc k) r,
      twice,
      ap (λ (t : ℕ). bit_or t (r / 2)) (half-double (q * 2 ^ suc k) (q * 2 ^ k) twice),
      bit_or-shifted k q (r / 2) (omega (arith, pow-suc 2 k)),
    )
  where
    half-double : (a b : ℕ) → a ≡ 2 * b → a / 2 ≡ b
    half-double a b h = omega arith

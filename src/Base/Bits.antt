-- ===== src/Base/Bits.antt =====
-- Facts about the bits of a byte, checked for every value.
use winx.Base.{
  ℕ, zero, suc, ◌-◌, ◌%◌, ◌^◌, ◌<◌, bit_and, bit_or, ◌≡◌, refl, Bool, true, false, ◌&&◌, not, arith,
  ltb, ◌==◌, if◌then◌else◌,
}

unfoldable pub every : (ℕ → Bool) → ℕ → Bool
every test zero = true
every test (suc bound) = if test bound then every test bound else false

pub every-at : (test : ℕ → Bool) (bound i : ℕ) → i < bound → every test bound ≡ true → test i ≡ true
unfolding every
every-at test zero i below table = absurd (omega arith)
every-at test (suc bound) i below table = ground (arith, every-at test bound i)

-- `(b & (1 << k)) != 0`
abbrev pub bit : ℕ → ℕ → Bool
bit b k = not (bit_and b (2 ^ k) == 0)

-- `b | (1 << k)` and `b & ~(1 << k)`, on a byte
abbrev pub bit_on : ℕ → ℕ → ℕ
bit_on b k = bit_or b (2 ^ k)

abbrev pub bit_off : ℕ → ℕ → ℕ
bit_off b k = bit_and b (255 - 2 ^ k)

abbrev iff : Bool → Bool → Bool
iff true b = b
iff false b = not b

iff→eq : (a b : Bool) → iff a b ≡ true → a ≡ b
iff→eq a b h = ground arith

-- A test on a byte and two of its bit positions that passes the table holds in general.
table_sound :
    (p : ℕ → ℕ → ℕ → Bool)
    → every (λ b. every (λ k. every (p b k) 8) 8) 256 ≡ true
    → (b k j : ℕ) → b < 256
    → k < 8
    → j < 8
    → p b k j ≡ true
table_sound p t b k j hb hk hj = every-at (p b k) 8 j hj (
    every-at (λ k. every (p b k) 8) 8 k hk
      (every-at (λ b. every (λ k. every (p b k) 8) 8) 256 b hb t))

on_test : ℕ → ℕ → ℕ → Bool
on_test b k j = iff (bit (bit_on b k) j) (if j == k then true else bit b j)

off_test : ℕ → ℕ → ℕ → Bool
off_test b k j = iff (bit (bit_off b k) j) (if j == k then false else bit b j)

size_test : ℕ → ℕ → ℕ → Bool
size_test b k j = ltb (bit_on b k) 256 && ltb (bit_off b k) 256

on_table : every (λ b. every (λ k. every (on_test b k) 8) 8) 256 ≡ true
unfolding every on_test
on_table = refl

off_table : every (λ b. every (λ k. every (off_test b k) 8) 8) 256 ≡ true
unfolding every off_test
off_table = refl

size_table : every (λ b. every (λ k. every (size_test b k) 8) 8) 256 ≡ true
unfolding every size_test
size_table = refl

module _ (b k j : ℕ) (hb : b < 256) (hk : k < 8) (hj : j < 8) where
  pub bit-bit_on : bit (bit_on b k) j ≡ (if j == k then true else bit b j)
  unfolding on_test
  bit-bit_on = iff→eq _ _ (table_sound on_test on_table b k j hb hk hj)

  pub bit-bit_off : bit (bit_off b k) j ≡ (if j == k then false else bit b j)
  unfolding off_test
  bit-bit_off = iff→eq _ _ (table_sound off_test off_table b k j hb hk hj)

module _ (b k : ℕ) (hb : b < 256) (hk : k < 8) where
  sizes : size_test b k 0 ≡ true
  sizes = table_sound size_test size_table b k 0 hb hk (omega arith)

  pub bit_on-lt : bit_on b k < 256
  unfolding size_test
  bit_on-lt = let h = sizes in ground arith

  pub bit_off-lt : bit_off b k < 256
  unfolding size_test
  bit_off-lt = let h = sizes in ground arith

zero_test : ℕ → Bool
zero_test k = not (bit 0 k)

zero_table : every zero_test 8 ≡ true
unfolding every zero_test
zero_table = refl

pub bit-zero : (k : ℕ) → k < 8 → bit 0 k ≡ false
unfolding zero_test
bit-zero k h = let e = every-at zero_test 8 k h zero_table in ground arith

nibble_test : ℕ → Bool
nibble_test b = bit_and b 15 == b % 16

nibble_table : every nibble_test 256 ≡ true
unfolding every nibble_test
nibble_table = refl

-- `b & 15` on a byte
pub bit_and-nibble : (b : ℕ) → b < 256 → bit_and b 15 ≡ b % 16
unfolding nibble_test
bit_and-nibble b h = let e = every-at nibble_test 256 b h nibble_table in ground arith

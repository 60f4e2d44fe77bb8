-- ===== src/Bitmap/Laws.antt =====
-- Setting, clearing and testing bits of kernel/bitmap.c.
use winx.Base.{
  ℕ, ◌+◌, ◌*◌, ◌/◌, ◌%◌, ◌≤◌, ◌<◌, ◌≡◌, refl, inl, inr, false, not, arith, ltb, ◌==◌, if◌then◌else◌,
  Bool-cases, update, done, halted,
}
use winx.Base.Bits.{bit-zero, bit_on, bit_off, bit-bit_on, bit-bit_off, bit_on-lt, bit_off-lt}
use winx.CString.Write.{fill-Outside, fill-inside}
use winx.Bitmap.{init, Bitmap, scan_test, set}

-- Every cell holds a byte.
abbrev pub IsBytes : Bitmap → Type 0
IsBytes btmp = (a : ℕ) → btmp.bits a < 256

abbrev pub total_bits : Bitmap → ℕ
total_bits btmp = 8 * btmp.btmp_bytes_len

-- what `bitmap_set` leaves behind
unfoldable pub with_bit : Bitmap → ℕ → ℕ → Bitmap
with_bit btmp i value = record btmp {
  bits = update btmp.bits (i / 8) (
      if value == 0
      then bit_off (btmp.bits (i / 8)) (i % 8)
      else bit_on (btmp.bits (i / 8)) (i % 8));
}

pub set-eq-with_bit :
    (btmp : Bitmap) (i value : ℕ) → value < 2 → set btmp i value ≡ done (with_bit btmp i value)
unfolding set with_bit
set-eq-with_bit btmp i value h = ground arith

pub len-with_bit :
    (btmp : Bitmap) (i value : ℕ) → (with_bit btmp i value).btmp_bytes_len ≡ btmp.btmp_bytes_len
unfolding with_bit
len-with_bit btmp i value = refl

pub IsBytes-with_bit :
    (btmp : Bitmap) (i value : ℕ) → IsBytes btmp → IsBytes (with_bit btmp i value)
unfolding with_bit
IsBytes-with_bit btmp i value h a = ground (
  arith,
  h a,
  bit_on-lt (btmp.bits (i / 8)) (i % 8) (h (i / 8)),
  bit_off-lt (btmp.bits (i / 8)) (i % 8) (h (i / 8)),
)

pub scan_test-with_bit :
    (btmp : Bitmap) (i value j : ℕ)
    → IsBytes btmp
    → scan_test (with_bit btmp i value) j ≡ (if j == i then not (value == 0) else scan_test btmp j)
unfolding scan_test with_bit
scan_test-with_bit btmp i value j h = ground (
  arith,
  bit-bit_on (btmp.bits (i / 8)) (i % 8) (j % 8) (h (i / 8)) (omega arith) (omega arith),
  bit-bit_off (btmp.bits (i / 8)) (i % 8) (j % 8) (h (i / 8)) (omega arith) (omega arith),
)

-- On a map of bytes `bitmap_set` with the value 0 or 1 changes exactly the bit that it names, and
-- keeps the length and the cells bytes.
pub set_lem :
    (btmp : Bitmap) (i value : ℕ)
    → IsBytes btmp
    → value < 2
    → (btmp' : Bitmap) × (set btmp i value ≡ done btmp')
      × ((j : ℕ) → scan_test btmp' j ≡ (if j == i then not (value == 0) else scan_test btmp j))
      × (btmp'.btmp_bytes_len ≡ btmp.btmp_bytes_len)
      × IsBytes btmp'
set_lem btmp i value h v = (
  with_bit btmp i value,
  set-eq-with_bit btmp i value v,
  λ j. scan_test-with_bit btmp i value j h,
  len-with_bit btmp i value,
  IsBytes-with_bit btmp i value h,
)

-- `bitmap_set` halts on any other value.
pub set-halted : (btmp : Bitmap) (i value : ℕ) → 2 ≤ value → set btmp i value ≡ halted
unfolding set
set-halted btmp i value h = ground arith

-- After `bitmap_init` every bit of the map is free.
pub scan_test-init : (btmp : Bitmap) (i : ℕ) → i < total_bits btmp → scan_test (init btmp) i ≡ false
unfolding scan_test init
scan_test-init btmp i h =
    let e = fill-inside 0 0 btmp.bits btmp.btmp_bytes_len (i / 8) (omega arith) in
    let z : 0 + i / 8 ≡ i / 8 = omega arith in
    let e' = rw z at e in rw e' (bit-zero (i % 8) (omega arith))

pub len-init : (btmp : Bitmap) → (init btmp).btmp_bytes_len ≡ btmp.btmp_bytes_len
unfolding init
len-init btmp = refl

pub IsBytes-init : (btmp : Bitmap) → IsBytes btmp → IsBytes (init btmp)
unfolding init
IsBytes-init btmp h a = elim (Bool-cases (ltb a btmp.btmp_bytes_len)) [
  | inl lt ↦
      let e = fill-inside 0 0 btmp.bits btmp.btmp_bytes_len a (ground arith) in
      let z : 0 + a ≡ a = omega arith in let e' = rw z at e in rw e' (omega arith)
  | inr ge ↦ rw (fill-Outside 0 0 btmp.bits btmp.btmp_bytes_len a (inr (ground arith))) (h a)
]

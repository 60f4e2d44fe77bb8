-- ===== src/Bitmap/Taking.antt =====
-- The lowest free bit of a map of kernel/bitmap.c, found by `bitmap_scan` and taken by `bitmap_set`.
use winx.Base.{
  ℕ, zero, suc, ◌+◌, ◌*◌, ◌^◌, ◌≤◌, ◌<◌, ◌≡◌, refl, ap, ◌∙◌, ◌≢◌, ◌⊎◌, inl, inr, true, false,
  Option, none, some, arith, ◌==◌, if◌then◌else◌, Bool-cases, done,
}
use winx.Bitmap.{Bitmap, scan_test, scan, set}
use winx.Bitmap.Laws.{
  IsBytes, total_bits, with_bit, set-eq-with_bit, len-with_bit, IsBytes-with_bit,
  scan_test-with_bit,
}
use winx.Bitmap.Scan.{scan_lem, IsFirstRun}

-- the free bits among the first `n`
unfoldable pub free_below : Bitmap → ℕ → ℕ
free_below btmp zero = 0
free_below btmp (suc n) = (if scan_test btmp n then 0 else 1) + free_below btmp n

abbrev pub free_bits : Bitmap → ℕ
free_bits btmp = free_below btmp (total_bits btmp)

free_below-zero :
    (btmp : Bitmap) (n : ℕ) → ((i : ℕ) → i < n → scan_test btmp i ≢ false) → free_below btmp n ≡ 0
unfolding free_below
free_below-zero btmp zero used = refl
free_below-zero btmp (suc n) used = elim (Bool-cases (scan_test btmp n)) [
  | inl h ↦ rw h (omega (arith, free_below-zero btmp n (λ i b. used i (omega arith))))
  | inr h ↦ absurd (used n (omega arith) h)
]

pub free_below-all :
    (btmp : Bitmap) (n : ℕ) → ((i : ℕ) → i < n → scan_test btmp i ≡ false) → free_below btmp n ≡ n
unfolding free_below
free_below-all btmp zero free = refl
free_below-all btmp (suc n) free =
    rw (free n (omega arith), free_below-all btmp n (λ i b. free i (omega arith))) (omega arith)

-- Bits that agree below `n` are as free.
free_below-same :
    (btmp btmp' : Bitmap) (n : ℕ)
    → ((j : ℕ) → j < n → scan_test btmp' j ≡ scan_test btmp j)
    → free_below btmp' n ≡ free_below btmp n
unfolding free_below
free_below-same btmp btmp' zero same = refl
free_below-same btmp btmp' (suc n) same =
    rw (same n (omega arith), free_below-same btmp btmp' n (λ j h. same j (omega arith))) refl

free_below-taken :
    (btmp btmp' : Bitmap) (n b : ℕ)
    → b < n
    → scan_test btmp b ≡ false
    → ((j : ℕ) → scan_test btmp' j ≡ (if j == b then true else scan_test btmp j))
    → free_below btmp' n + 1 ≡ free_below btmp n
unfolding free_below
free_below-taken btmp btmp' zero b below free taken = absurd (omega arith)
free_below-taken btmp btmp' (suc n) b below free taken = elim (Bool-cases (n == b)) [
  | inl here ↦
      let rest = free_below-same btmp btmp' n (λ j h. ground (arith, taken j)) in
      ground (arith, taken n, rest)
  | inr other ↦
      let rest = free_below-taken btmp btmp' n b (ground arith) free taken in
      ground (arith, taken n, rest)
]

-- a bit that has been taken: it was the lowest free one, and is the only change
pub record Takes (btmp : Bitmap) (b : ℕ) (btmp' : Bitmap) : Type 0 where
  pub inside : b < total_bits btmp
  pub was_free : scan_test btmp b ≡ false
  pub lowest : (j : ℕ) → j < b → scan_test btmp j ≡ true
  pub taken : (j : ℕ) → scan_test btmp' j ≡ (if j == b then true else scan_test btmp j)
  pub length : btmp'.btmp_bytes_len ≡ btmp.btmp_bytes_len
  pub bytes : IsBytes btmp'
  pub fewer : free_bits btmp' + 1 ≡ free_bits btmp

one_free :
    (btmp : Bitmap) (i j : ℕ)
    → scan_test btmp i ≡ false
    → i ≤ j
    → j < i + 1
    → scan_test btmp j ≡ false
one_free btmp i j free a b = let e : j ≡ i = omega arith in ap (scan_test btmp) e ∙ free

Takes-with_bit :
    (btmp : Bitmap) (b : ℕ)
    → IsBytes btmp
    → IsFirstRun btmp 1 (some b)
    → Takes btmp b (with_bit btmp b 1)
Takes-with_bit btmp b bytes (run, first) =
    let free : scan_test btmp b ≡ false = run.1 b (omega arith) (omega arith) in
    let taken = λ (j : ℕ). scan_test-with_bit btmp b 1 j bytes in
    record {
      inside = omega (arith, run.0);
      was_free = free;
      lowest = λ j h. elim (Bool-cases (scan_test btmp j)) [
        | inl used ↦ used
        | inr unused ↦
            absurd (first j h (omega (arith, run.0), λ i a c. one_free btmp j i unused a c))
      ];
      taken = taken;
      length = len-with_bit btmp b 1;
      bytes = IsBytes-with_bit btmp b 1 bytes;
      fewer =
          ap (λ n. free_below (with_bit btmp b 1) (8 * n) + 1) (len-with_bit btmp b 1)
          ∙ free_below-taken btmp (with_bit btmp b 1) (total_bits btmp) b (omega (arith, run.0))
              free taken;
    }

-- what allocation comes to
abbrev pub Found : Bitmap → Type 0
Found btmp =
    ((free_bits btmp ≡ 0) × (scan btmp 1 ≡ done none))
    ⊎ ((b : ℕ) × (btmp' : Bitmap) × (scan btmp 1 ≡ done (some b))
        × (set btmp b 1 ≡ done btmp')
        × Takes btmp b btmp')

pub scan-set : (btmp : Bitmap) → btmp.btmp_bytes_len ≤ 2 ^ 28 → IsBytes btmp → Found btmp
scan-set btmp small bytes = found (scan_lem btmp 1 small (omega arith))
  where
    found : ((r : Option ℕ) × (scan btmp 1 ≡ done r) × IsFirstRun btmp 1 r) → Found btmp
    found (none, e, full) = inl (
      free_below-zero btmp (total_bits btmp)
          (λ i h free. full i (omega arith, λ j a b. one_free btmp i j free a b)),
      e,
    )
    found (some b, e, run) = inr (
      b,
      with_bit btmp b 1,
      e,
      set-eq-with_bit btmp b 1 (omega arith),
      Takes-with_bit btmp b bytes run,
    )

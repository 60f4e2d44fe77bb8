-- ===== src/CString/Compare.antt =====
-- strcmp and memcmp of impl/string.c.
use winx.Base.{
  ℕ, zero, suc, ◌<◌, ◌≡◌, ◌≢◌, refl, ◌↔◌, List, [], ◌∷◌, arith, ◌==◌, if◌then◌else◌, length, done,
  ℤ, pos, negsuc, slice,
}
use winx.CString.{Memory, null, char_lt, sign, compare_strings, strcmp, compare_bytes, memcmp}
use winx.CString.Holds.{Holds}

-- the order of `strcmp` on strings: by signed bytes, and by the NUL where one of them ends
unfoldable pub order : List ℕ → List ℕ → ℤ
order [] [] = pos 0
order [] (d ∷ t) = sign 0 d
order (c ∷ s) [] = sign c 0
order (c ∷ s) (d ∷ t) = if c == d then order s t else sign c d

pub compare_strings-order :
    (fuel : ℕ) (m : Memory) (a b : ℕ) (s t : List ℕ)
    → Holds m a s
    → Holds m b t
    → length s < fuel
    → compare_strings fuel m a b ≡ done (order s t)
unfolding compare_strings order
compare_strings-order zero m a b s t h k f = absurd (omega arith)
compare_strings-order (suc fuel) m a b [] [] h k f = ground arith
compare_strings-order (suc fuel) m a b [] (d ∷ t) h k f = ground arith
compare_strings-order (suc fuel) m a b (c ∷ s) [] h k f = ground arith
compare_strings-order (suc fuel) m a b (c ∷ s) (d ∷ t) h k f =
    ground (arith, compare_strings-order fuel m (suc a) (suc b) s t h.3 k.3)

sign-ne : (c d : ℕ) → c < 256 → d < 256 → c ≢ d → sign c d ≢ pos 0
sign-ne c d hc hd ne = ground arith

order-eq :
    (m : Memory) (a b : ℕ) (s t : List ℕ) → Holds m a s → Holds m b t → order s t ≡ pos 0 → s ≡ t
unfolding order
order-eq m a b [] [] h k e = refl
order-eq m a b [] (d ∷ t) h k e = absurd (sign-ne 0 d (omega arith) k.2 (λ x. k.1 (ground arith)) e)
order-eq m a b (c ∷ s) [] h k e = absurd (sign-ne c 0 h.2 (omega arith) h.1 e)
order-eq m a b (c ∷ s) (d ∷ t) h k e =
    ground (arith, sign-ne c d h.2 k.2, order-eq m (suc a) (suc b) s t h.3 k.3)

order_refl : (s : List ℕ) → order s s ≡ pos 0
unfolding order
order_refl [] = refl
order_refl (c ∷ s) = ground (arith, order_refl s)

-- Given enough fuel for the first string, `strcmp` returns 0 exactly when the two strings are the
-- same, and otherwise the sign of their first difference.
pub strcmp-order :
    (fuel : ℕ) (m : Memory) (a b : ℕ) (s t : List ℕ)
    → a ≢ null
    → b ≢ null
    → Holds m a s
    → Holds m b t
    → length s < fuel
    → (strcmp fuel m a b ≡ done (order s t)) × ((order s t ≡ pos 0) ↔ (s ≡ t))
unfolding strcmp
strcmp-order fuel m a b s t na nb h k f = (
  ground (arith, compare_strings-order fuel m a b s t h k f),
  (order-eq m a b s t h k, λ e. rw e (order_refl t)),
)

-- the first difference of two byte sequences of one length, as `memcmp` reports it
unfoldable pub difference : List ℕ → List ℕ → ℤ
difference (c ∷ s) (d ∷ t) =
    if c == d then difference s t else (if char_lt d c then pos 1 else negsuc 0)
difference _ _ = pos 0

compare_bytes-difference :
    (m : Memory) (a b size : ℕ)
    → compare_bytes m a b size ≡ difference (slice m a size) (slice m b size)
unfolding compare_bytes difference
compare_bytes-difference m a b zero = refl
compare_bytes-difference m a b (suc size) =
    ground (arith, compare_bytes-difference m (suc a) (suc b) size)

difference-eq :
    (m : Memory) (a b size : ℕ)
    → difference (slice m a size) (slice m b size) ≡ pos 0
    → slice m a size ≡ slice m b size
unfolding difference
difference-eq m a b zero e = refl
difference-eq m a b (suc size) e = ground (arith, difference-eq m (suc a) (suc b) size)

difference_refl : (s : List ℕ) → difference s s ≡ pos 0
unfolding difference
difference_refl [] = refl
difference_refl (c ∷ s) = ground (arith, difference_refl s)

-- Unless both pointers are NULL, `memcmp` returns the sign of the first difference of the two byte
-- ranges, and 0 exactly when they hold the same bytes.
pub memcmp-difference :
    (m : Memory) (a b size : ℕ)
    → a ≢ null
    → (memcmp m a b size ≡ done (difference (slice m a size) (slice m b size)))
      × ((difference (slice m a size) (slice m b size) ≡ pos 0) ↔ (slice m a size ≡ slice m b size))
unfolding memcmp
memcmp-difference m a b size na = (
  ground (arith, compare_bytes-difference m a b size),
  (difference-eq m a b size, λ e. rw e (difference_refl (slice m b size))),
)

-- ===== src/CString/Scan.antt =====
-- strlen, strchr, strrchr and strchrs of impl/string.c on a string that memory holds.
use winx.Base.{
  ℕ, zero, suc, ◌+◌, ◌%◌, ◌^◌, ◌<◌, ◌≡◌, ◌≢◌, refl, ap, ◌∙◌, ◌⊎◌, inl, inr, Option, none, some,
  List, [], ◌∷◌, ◌++◌, arith, ◌==◌, if◌then◌else◌, Bool-cases, length, done, ==→eq,
}
use winx.CString.{
  Memory, null, past_end, strlen, find_char, strchr, find_last, strrchr, count_char, strchrs,
}
use winx.CString.Holds.{Holds, Without}

pub past_end_lem :
    (fuel : ℕ) (m : Memory) (p : ℕ) (s : List ℕ)
    → Holds m p s
    → length s < fuel
    → past_end fuel m p ≡ done (suc (p + length s))
unfolding past_end
past_end_lem zero m p s h f = absurd (omega arith)
past_end_lem (suc fuel) m p [] h f = ground arith
past_end_lem (suc fuel) m p (c ∷ s) h f = ground (arith, past_end_lem fuel m (suc p) s)

-- Given enough fuel `strlen` returns the number of bytes before the NUL, for every string shorter
-- than 2^32 bytes.
pub strlen_lem :
    (fuel : ℕ) (m : Memory) (str : ℕ) (s : List ℕ)
    → str ≢ null
    → Holds m str s
    → length s < fuel
    → length s < 2 ^ 32
    → strlen fuel m str ≡ done (length s)
unfolding strlen
strlen_lem fuel m str s ne h f small = ground (arith, past_end_lem fuel m str s)

-- where `ch` stands first in `s`, if `s` begins at `p`
abbrev pub IsFirst : ℕ → ℕ → List ℕ → Option ℕ → Type 0
IsFirst ch p s r =
    ((r ≡ none) × Without ch s)
    ⊎ ((before : List ℕ) × (after : List ℕ) × (s ≡ before ++ ch ∷ after)
        × Without ch before
        × (r ≡ some (p + length before)))

-- where `ch` stands last
abbrev pub IsLast : ℕ → ℕ → List ℕ → Option ℕ → Type 0
IsLast ch p s r =
    ((r ≡ none) × Without ch s)
    ⊎ ((before : List ℕ) × (after : List ℕ) × (s ≡ before ++ ch ∷ after)
        × Without ch after
        × (r ≡ some (p + length before)))

abbrev Found : ℕ → Memory → ℕ → ℕ → List ℕ → Type 0
Found fuel m p ch s = (r : Option ℕ) × (find_char fuel m p ch ≡ done r) × IsFirst ch p s r

IsFirst-cons :
    (ch p c : ℕ) (s : List ℕ) (r : Option ℕ)
    → c ≢ ch
    → IsFirst ch (suc p) s r
    → IsFirst ch p (c ∷ s) r
IsFirst-cons ch p c s r ne (inl (e, w)) = inl (e, (ne, w))
IsFirst-cons ch p c s r ne (inr (before, after, e, w, e')) =
    inr (c ∷ before, after, ap (◌∷◌ c) e, (ne, w), e' ∙ ap some (omega arith))

find_char_lem :
    (fuel : ℕ) (m : Memory) (p ch : ℕ) (s : List ℕ)
    → Holds m p s
    → length s < fuel
    → Found fuel m p ch s
unfolding find_char
find_char_lem zero m p ch s h f = absurd (omega arith)
find_char_lem (suc fuel) m p ch [] h f = (none, ground arith, inl (refl, tt))
find_char_lem (suc fuel) m p ch (c ∷ s) h f = elim (Bool-cases (c == ch)) [
  | inl e ↦
      (some p, ground arith, inr ([], s, ground (arith, ==→eq c ch e), tt, ap some (omega arith)))
  | inr ne ↦
      let (r, e, first) = find_char_lem fuel m (suc p) ch s h.3 (omega arith) in
      (r, ground arith, IsFirst-cons ch p c s r (ground arith) first)
]

-- `strchr` returns the address of the first byte of the string that is `ch`, or NULL exactly when
-- the string has none, given enough fuel.
pub strchr_lem :
    (fuel : ℕ) (m : Memory) (str ch : ℕ) (s : List ℕ)
    → str ≢ null
    → Holds m str s
    → length s < fuel
    → (r : Option ℕ) × (strchr fuel m str ch ≡ done r) × IsFirst ch str s r
unfolding strchr
strchr_lem fuel m str ch s ne h f =
    let (r, e, first) = find_char_lem fuel m str ch s h f in (r, ground arith, first)

-- the last `ch` of the bytes read so far, or of the rest of the string
abbrev Latest : ℕ → ℕ → List ℕ → Option ℕ → Option ℕ → Type 0
Latest ch p s last_char r =
    ((r ≡ last_char) × Without ch s)
    ⊎ ((before : List ℕ) × (after : List ℕ) × (s ≡ before ++ ch ∷ after)
        × Without ch after
        × (r ≡ some (p + length before)))

Latest-hit :
    (ch p : ℕ) (s : List ℕ) (last_char r : Option ℕ)
    → Latest ch (suc p) s (some p) r
    → Latest ch p (ch ∷ s) last_char r
Latest-hit ch p s last_char r (inl (e, w)) = inr ([], s, refl, w, e ∙ ap some (omega arith))
Latest-hit ch p s last_char r (inr (before, after, e, w, e')) =
    inr (ch ∷ before, after, ap (◌∷◌ ch) e, w, e' ∙ ap some (omega arith))

Latest-miss :
    (ch p c : ℕ) (s : List ℕ) (last_char r : Option ℕ)
    → c ≢ ch
    → Latest ch (suc p) s last_char r
    → Latest ch p (c ∷ s) last_char r
Latest-miss ch p c s last_char r ne (inl (e, w)) = inl (e, (ne, w))
Latest-miss ch p c s last_char r ne (inr (before, after, e, w, e')) =
    inr (c ∷ before, after, ap (◌∷◌ c) e, w, e' ∙ ap some (omega arith))

find_last_lem :
    (fuel : ℕ) (m : Memory) (p ch : ℕ) (s : List ℕ) (last_char : Option ℕ)
    → Holds m p s
    → length s < fuel
    → (r : Option ℕ) × (find_last fuel m p ch last_char ≡ done r) × Latest ch p s last_char r
unfolding find_last
find_last_lem zero m p ch s l h f = absurd (omega arith)
find_last_lem (suc fuel) m p ch [] l h f = (l, ground arith, inl (refl, tt))
find_last_lem (suc fuel) m p ch (c ∷ s) l h f = elim (Bool-cases (c == ch)) [
  | inl e ↦
      let (r, e', last) = find_last_lem fuel m (suc p) ch s (some p) h.3 (omega arith) in
      let same : c ≡ ch = ==→eq c ch e in (r, ground arith, rw same (Latest-hit ch p s l r last))
  | inr ne ↦
      let (r, e', last) = find_last_lem fuel m (suc p) ch s l h.3 (omega arith) in
      (r, ground arith, Latest-miss ch p c s l r (ground arith) last)
]

-- `strrchr` returns the address of the last byte of the string that is `ch`, or NULL exactly when
-- the string has none, given enough fuel.
pub strrchr_lem :
    (fuel : ℕ) (m : Memory) (str ch : ℕ) (s : List ℕ)
    → str ≢ null
    → Holds m str s
    → length s < fuel
    → (r : Option ℕ) × (strrchr fuel m str ch ≡ done r) × IsLast ch str s r
unfolding strrchr
strrchr_lem fuel m str ch s ne h f =
    let (r, e, last) = find_last_lem fuel m str ch s none h f in (r, ground arith, last)

unfoldable pub count : ℕ → List ℕ → ℕ
count ch [] = 0
count ch (c ∷ s) = (if c == ch then 1 else 0) + count ch s

count_char_lem :
    (fuel : ℕ) (m : Memory) (p ch : ℕ) (s : List ℕ) (ch_cnt : ℕ)
    → Holds m p s
    → length s < fuel
    → ch_cnt < 2 ^ 32
    → count_char fuel m p ch ch_cnt ≡ done ((ch_cnt + count ch s) % 2 ^ 32)
unfolding count_char count
count_char_lem zero m p ch s n h f small = absurd (omega arith)
count_char_lem (suc fuel) m p ch [] n h f small = ground arith
count_char_lem (suc fuel) m p ch (c ∷ s) n h f small = elim (Bool-cases (c == ch)) [
  | inl e ↦
      ground (
        arith,
        count_char_lem fuel m (suc p) ch s ((n + 1) % 2 ^ 32) h.3 (omega arith) (omega arith),
      )
  | inr ne ↦ ground (arith, count_char_lem fuel m (suc p) ch s n h.3 (omega arith) small)
]

-- `strchrs` counts the bytes of the string that are `ch`, modulo 2^32, given enough fuel.
pub strchrs-count :
    (fuel : ℕ) (m : Memory) (str ch : ℕ) (s : List ℕ)
    → str ≢ null
    → Holds m str s
    → length s < fuel
    → strchrs fuel m str ch ≡ done (count ch s % 2 ^ 32)
unfolding strchrs
strchrs-count fuel m str ch s ne h f =
    ground (arith, count_char_lem fuel m str ch s 0 h f (omega arith))

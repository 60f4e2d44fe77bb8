-- ===== src/CString/Write.antt =====
-- memset, memcpy, strcpy and strcat of impl/string.c: what they write, and that they write nothing
-- else.
use winx.Base.{
  ℕ, zero, suc, ◌+◌, ◌%◌, ◌≤◌, ◌<◌, ◌≡◌, refl, ◌∙◌, ◌≢◌, ◌⊎◌, inl, List, [], ◌∷◌, ◌++◌, arith,
  length, update, done,
}
use winx.CString.{Memory, null, fill, memset, copy, memcpy, copy_string, strcpy, strcat}
use winx.CString.Holds.{Holds}
use winx.CString.Scan.{past_end_lem}

-- `a` lies outside the `n` addresses from `p` on
abbrev pub Outside : ℕ → ℕ → ℕ → Type 0
Outside p n a = (a < p) ⊎ (p + n ≤ a)

pub fill-Outside :
    (dst value : ℕ) (m : Memory) (size a : ℕ) → Outside dst size a → fill dst value m size a ≡ m a
unfolding fill
fill-Outside dst value m zero a o = refl
fill-Outside dst value m (suc size) a o =
    ground (arith, fill-Outside (suc dst) value (update m dst value) size a (omega arith))

pub fill-inside :
    (dst value : ℕ) (m : Memory) (size i : ℕ) → i < size → fill dst value m size (dst + i) ≡ value
unfolding fill
fill-inside dst value m zero i h = absurd (omega arith)
fill-inside dst value m (suc size) zero h =
    ground
      (arith, fill-Outside (suc dst) value (update m dst value) size (dst + 0) (inl (omega arith)))
fill-inside dst value m (suc size) (suc i) h =
    let e : dst + suc i ≡ suc dst + i = omega arith in
    rw e (fill-inside (suc dst) value (update m dst value) size i (omega arith))

-- `memset` to a pointer that is not NULL sets each of the `size` bytes to the value, cut to a byte,
-- and leaves every other byte as it was.
pub memset_lem :
    (m : Memory) (dst value size : ℕ)
    → dst ≢ null
    → (m' : Memory) × (memset m dst value size ≡ done m')
      × ((i : ℕ) → i < size → m' (dst + i) ≡ value % 256)
      × ((a : ℕ) → Outside dst size a → m' a ≡ m a)
unfolding memset
memset_lem m dst value size ne = (
  fill dst (value % 256) m size,
  ground arith,
  fill-inside dst (value % 256) m size,
  fill-Outside dst (value % 256) m size,
)

pub copy-Outside :
    (dst src : ℕ) (m : Memory) (size a : ℕ) → Outside dst size a → copy dst src m size a ≡ m a
unfolding copy
copy-Outside dst src m zero a o = refl
copy-Outside dst src m (suc size) a o =
    ground (arith, copy-Outside (suc dst) (suc src) (update m dst (m src)) size a (omega arith))

copy-inside :
    (dst src : ℕ) (m : Memory) (size i : ℕ)
    → (dst ≤ src) ⊎ (src + size ≤ dst)
    → i < size
    → copy dst src m size (dst + i) ≡ m (src + i)
unfolding copy
copy-inside dst src m zero i o h = absurd (omega arith)
copy-inside dst src m (suc size) zero o h =
    let e : dst + 0 ≡ dst = omega arith in
    let e' : src + 0 ≡ src = omega arith in
    rw (e, e')
      (ground (
        arith,
        copy-Outside (suc dst) (suc src) (update m dst (m src)) size dst (inl (omega arith)),
      ))
copy-inside dst src m (suc size) (suc i) o h =
    let e : dst + suc i ≡ suc dst + i = omega arith in
    let e' : src + suc i ≡ suc src + i = omega arith in
    rw (e, e')
      (copy-inside (suc dst) (suc src) (update m dst (m src)) size i (omega arith) (omega arith)
        ∙ ground arith)

-- `memcpy` between pointers that are not NULL puts the `size` bytes that stood at `src` at `dst`,
-- also where the ranges overlap with `dst` not above `src`, and leaves every other byte as it was.
pub memcpy_lem :
    (m : Memory) (dst src size : ℕ)
    → dst ≢ null
    → src ≢ null
    → (dst ≤ src) ⊎ (src + size ≤ dst)
    → (m' : Memory) × (memcpy m dst src size ≡ done m')
      × ((i : ℕ) → i < size → m' (dst + i) ≡ m (src + i))
      × ((a : ℕ) → Outside dst size a → m' a ≡ m a)
unfolding memcpy
memcpy_lem m dst src size nd ns o = (
  copy dst src m size,
  ground arith,
  λ i h. copy-inside dst src m size i o h,
  copy-Outside dst src m size,
)

-- A string survives a change of memory outside the bytes that it takes.
pub Holds-frame :
    (m m' : Memory) (p : ℕ) (s : List ℕ)
    → Holds m p s
    → ((a : ℕ) → p ≤ a → a ≤ p + length s → m' a ≡ m a)
    → Holds m' p s
Holds-frame m m' p [] h same = same p (omega arith) (omega arith) ∙ h
Holds-frame m m' p (c ∷ s) h same = (
  same p (omega arith) (omega arith) ∙ h.0,
  h.1,
  h.2,
  Holds-frame m m' (suc p) s h.3 (λ a l u. same a (omega arith) (omega arith)),
)

-- Where a new string takes the place of the NUL, the two make one string.
Holds-append :
    (m m' : Memory) (p : ℕ) (s t : List ℕ)
    → Holds m p s
    → ((a : ℕ) → p ≤ a → a < p + length s → m' a ≡ m a)
    → Holds m' (p + length s) t
    → Holds m' p (s ++ t)
Holds-append m m' p [] t h same k = let e : p + 0 ≡ p = omega arith in rw e at k
Holds-append m m' p (c ∷ s) t h same k =
    let e : p + suc (length s) ≡ suc p + length s = omega arith in
    (
      same p (omega arith) (omega arith) ∙ h.0,
      h.1,
      h.2,
      Holds-append m m' (suc p) s t h.3 (λ a l u. same a (omega arith) (omega arith)) (rw e at k),
    )

copy_string_lem :
    (fuel : ℕ) (m : Memory) (dst src : ℕ) (s : List ℕ)
    → Holds m src s
    → length s < fuel
    → (dst ≤ src) ⊎ (src + length s < dst)
    → (m' : Memory) × (copy_string fuel m dst src ≡ done m')
      × Holds m' dst s
      × ((a : ℕ) → Outside dst (suc (length s)) a → m' a ≡ m a)
unfolding copy_string
copy_string_lem zero m dst src s h f o = absurd (omega arith)
copy_string_lem (suc fuel) m dst src [] h f o =
    (update m dst (m src), ground arith, ground arith, λ a out. ground arith)
copy_string_lem (suc fuel) m dst src (c ∷ s) h f o =
    let (m', e, held, same) =
      copy_string_lem fuel (update m dst (m src)) (suc dst) (suc src) s
        (Holds-frame m (update m dst (m src)) (suc src) s h.3 (λ a l u. ground arith)) (omega arith)
        (omega arith) in
    (m', ground arith, (ground (arith, same dst), h.1, h.2, held), λ a out. ground (arith, same a))

-- Between pointers that are not NULL, with enough fuel, `strcpy` leaves at `dst` the string that
-- stood at `src` and writes nothing beyond its NUL; the destination may overlap the source only
-- from below.
pub strcpy_lem :
    (fuel : ℕ) (m : Memory) (dst src : ℕ) (s : List ℕ)
    → dst ≢ null
    → src ≢ null
    → Holds m src s
    → length s < fuel
    → (dst ≤ src) ⊎ (src + length s < dst)
    → (m' : Memory) × (strcpy fuel m dst src ≡ done (dst, m'))
      × Holds m' dst s
      × ((a : ℕ) → Outside dst (suc (length s)) a → m' a ≡ m a)
unfolding strcpy
strcpy_lem fuel m dst src s nd ns h f o =
    let (m', e, held, same) = copy_string_lem fuel m dst src s h f o in
    (m', ground arith, held, same)

-- Between pointers that are not NULL, with enough fuel, `strcat` leaves at `dst` the string that
-- stood there followed by the one at `src`, and writes only behind the old one; the source lies
-- wholly before the end of the first string or behind the bytes that are written.
pub strcat-append :
    (fuel : ℕ) (m : Memory) (dst src : ℕ) (s t : List ℕ)
    → dst ≢ null
    → src ≢ null
    → Holds m dst s
    → Holds m src t
    → length s < fuel
    → length t < fuel
    → (src + length t < dst + length s) ⊎ (dst + length s ≤ src)
    → (m' : Memory) × (strcat fuel m dst src ≡ done (dst, m'))
      × Holds m' dst (s ++ t)
      × ((a : ℕ) → Outside (dst + length s) (suc (length t)) a → m' a ≡ m a)
unfolding strcat
strcat-append fuel m dst src s t nd ns h k f g o =
    let (m', e, held, same) = copy_string_lem fuel m (dst + length s) src t k g (omega arith) in
    (
      m',
      ground (arith, past_end_lem fuel m dst s h f),
      Holds-append m m' dst s t h (λ a l u. same a (inl (omega arith))) held,
      same,
    )

-- ===== src/Links/Segments.antt =====
-- What a linked list of kernel/list.c holds, as a sequence of elements.
use winx.Base.{ℕ, ◌≡◌, refl, ◌∙◌, true, false, List, [], ◌∷◌, ◌++◌, arith, if◌then◌else◌}
use winx.Thread
use winx.Thread.Valid.{Distinct}
use winx.Links.{Links, LinkedList}

-- From `a` the elements `xs` follow in order, and then `b`, with the pointers back as well.
abbrev pub Seg : Links → ℕ → List ℕ → ℕ → Type 0
Seg m a [] b = (m.next a ≡ b) × (m.prev b ≡ a)
Seg m a (x ∷ xs) b = (m.next a ≡ x) × (m.prev x ≡ a) × Seg m x xs b

abbrev pub nodes : LinkedList → List ℕ → List ℕ
nodes list xs = list.head ∷ xs ++ list.tail ∷ []

-- The list holds `xs`; no element is there twice or is a sentinel.
abbrev pub IsList : Links → LinkedList → List ℕ → Type 0
IsList m list xs = Seg m list.head xs list.tail × Distinct (nodes list xs)

-- the element before the end of a segment, and the one behind its start
abbrev pub last : ℕ → List ℕ → ℕ
last a [] = a
last a (x ∷ xs) = last x xs

abbrev pub first : List ℕ → ℕ → ℕ
first [] b = b
first (x ∷ xs) b = x

pub last-has : (a : ℕ) (xs : List ℕ) → Thread.elem_find (a ∷ xs) (last a xs) ≡ true
last-has a [] = ground arith
last-has a (x ∷ xs) = ground (arith, last-has x xs)

pub prev-Seg : (m : Links) (a : ℕ) (xs : List ℕ) (b : ℕ) → Seg m a xs b → m.prev b ≡ last a xs
prev-Seg m a [] b s = s.1
prev-Seg m a (x ∷ xs) b s = prev-Seg m x xs b s.2

pub next-Seg : (m : Links) (a : ℕ) (xs : List ℕ) (b : ℕ) → Seg m a xs b → m.next a ≡ first xs b
next-Seg m a [] b s = s.0
next-Seg m a (x ∷ xs) b s = s.0

pub Seg-append :
    (m : Links) (a : ℕ) (xs : List ℕ) (y : ℕ) (ys : List ℕ) (b : ℕ)
    → Seg m a xs y
    → Seg m y ys b
    → Seg m a (xs ++ y ∷ ys) b
Seg-append m a [] y ys b s t = (s.0, s.1, t)
Seg-append m a (x ∷ xs) y ys b s t = (s.0, s.1, Seg-append m x xs y ys b s.2 t)

pub Seg-split :
    (m : Links) (a : ℕ) (xs : List ℕ) (y : ℕ) (ys : List ℕ) (b : ℕ)
    → Seg m a (xs ++ y ∷ ys) b
    → Seg m a xs y × Seg m y ys b
Seg-split m a [] y ys b s = ((s.0, s.1), s.2)
Seg-split m a (x ∷ xs) y ys b s = let (t, u) = Seg-split m x xs y ys b s.2 in ((s.0, s.1, t), u)

-- Pointers that a change leaves alone keep a segment.
pub Seg-kept :
    (m m' : Links) (a : ℕ) (xs : List ℕ) (b : ℕ)
    → Seg m a xs b
    → ((c : ℕ) → Thread.elem_find (a ∷ xs) c ≡ true → m'.next c ≡ m.next c)
    → ((c : ℕ) → Thread.elem_find (xs ++ b ∷ []) c ≡ true → m'.prev c ≡ m.prev c)
    → Seg m' a xs b
Seg-kept m m' a [] b s n p = (n a (ground arith) ∙ s.0, p b (ground arith) ∙ s.1)
Seg-kept m m' a (x ∷ xs) b s n p = (
  n a (ground arith) ∙ s.0,
  p x (ground arith) ∙ s.1,
  Seg-kept m m' x xs b s.2 (λ c h. n c (ground (arith, h))) (λ c h. p c (ground (arith, h))),
)

pub elem_find-append :
    (xs ys : List ℕ) (c : ℕ)
    → Thread.elem_find (xs ++ ys) c
      ≡ (if Thread.elem_find xs c then true else Thread.elem_find ys c)
elem_find-append [] ys c = refl
elem_find-append (x ∷ xs) ys c = ground (arith, elem_find-append xs ys c)

abbrev pub Apart : List ℕ → List ℕ → Type 0
Apart xs ys = (c : ℕ) → Thread.elem_find xs c ≡ true → Thread.elem_find ys c ≡ false

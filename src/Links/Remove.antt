-- ===== src/Links/Remove.antt =====
-- `list_remove` and `list_pop` of kernel/list.c on the sequence of a list.
use winx.Base.{
  ℕ, ◌≡◌, refl, sym, ap, subst, ◌∙◌, inl, inr, true, false, List, [], ◌∷◌, ◌++◌, arith, ◌==◌,
  if◌then◌else◌, Bool-cases, ==→eq,
}
use mathlib.Core.List.{append_assoc, append-nil}
use winx.Thread
use winx.Thread.Valid.{Distinct}
use winx.Links.{Links, LinkedList, list_remove, list_pop}
use winx.Links.Segments.{
  Seg, nodes, IsList, last, first, last-has, prev-Seg, next-Seg, Seg-append, Seg-split, Seg-kept,
  elem_find-append,
}
use winx.Links.Change.{OnlyIn, apart-has, Distinct-split, Distinct-front}

module _ (m : Links) (x : ℕ) where
  next-removed : (c : ℕ) → (list_remove m x).next c ≡ (if c == m.prev x then m.next x else m.next c)
  unfolding list_remove
  next-removed c = refl

  prev-removed : (c : ℕ) → (list_remove m x).prev c ≡ (if c == m.next x then m.prev x else m.prev c)
  unfolding list_remove
  prev-removed c = elim (Bool-cases (x == m.prev x)) [
    | inl loop ↦ rw loop refl
    | inr other ↦ rw other refl
  ]

  -- the part in front of the element, up to the one behind it
  Seg-removed :
      (a : ℕ) (xs : List ℕ)
      → Seg m a xs x
      → Distinct (a ∷ xs)
      → Thread.elem_find xs (m.next x) ≡ false
      → Seg (list_remove m x) a xs (m.next x)
  Seg-removed a [] s d out =
      (ground (arith, next-removed a, s.1), ground (arith, prev-removed (m.next x), s.1))
  Seg-removed a (y ∷ ys) s d out =
      let p : m.prev x ≡ last y ys = prev-Seg m y ys x s.2 in
      (
        ground (arith, next-removed a, p, last-has y ys, d.0, s.0),
        ground (arith, prev-removed y, s.1, out),
        Seg-removed y ys s.2 d.1 (ground (arith, out)),
      )

  -- the part behind it
  Seg-rest :
      (y : ℕ) (ys : List ℕ) (b : ℕ)
      → Seg m y ys b
      → m.next x ≡ y
      → Thread.elem_find (y ∷ ys) (m.prev x) ≡ false
      → Thread.elem_find (ys ++ b ∷ []) y ≡ false
      → Seg (list_remove m x) y ys b
  Seg-rest y ys b s e out out' =
      Seg-kept m (list_remove m x) y ys b s
        (λ c h. next-removed c ∙ rw (apart-has (y ∷ ys) c (m.prev x) h out) refl)
        (λ c h. prev-removed c ∙ rw (e, apart-has (ys ++ b ∷ []) c y h out') refl)

  OnlyIn-removed :
      (xs : List ℕ)
      → Thread.elem_find xs (m.prev x) ≡ true
      → Thread.elem_find xs (m.next x) ≡ true
      → OnlyIn xs m (list_remove m x)
  OnlyIn-removed xs h h' c out = (
    next-removed c ∙ ground (arith, apart-has xs (m.prev x) c h out),
    prev-removed c ∙ ground (arith, apart-has xs (m.next x) c h' out),
  )

Distinct-back : (xs ys : List ℕ) → Distinct (xs ++ ys) → Distinct ys
Distinct-back [] ys d = d
Distinct-back (x ∷ xs) ys d = Distinct-back xs ys d.1

Distinct-apart :
    (xs ys : List ℕ) (c : ℕ)
    → Distinct (xs ++ ys)
    → Thread.elem_find xs c ≡ true
    → Thread.elem_find ys c ≡ false
Distinct-apart [] ys c d h = ground (arith, h)
Distinct-apart (x ∷ xs) ys c d h = elim (Bool-cases (x == c)) [
  | inl here ↦
      ap (Thread.elem_find ys) (sym (==→eq x c here))
      ∙ ground (arith, d.0, elem_find-append xs ys x)
  | inr other ↦ Distinct-apart xs ys c d.1 (ground (arith, h, other))
]

first-has : (ys : List ℕ) (b : ℕ) → Thread.elem_find (ys ++ b ∷ []) (first ys b) ≡ true
first-has [] b = ground arith
first-has (y ∷ ys) b = ground arith

-- the list as two segments around the element
module _ (m : Links) (a : ℕ) (xs : List ℕ) (x : ℕ) (ys : List ℕ) (b : ℕ) (s : Seg m a xs x)
    (t : Seg m x ys b) (d : Distinct (a ∷ xs ++ x ∷ (ys ++ b ∷ []))) where
  -- the neighbours of the element
  before-has : Thread.elem_find (a ∷ xs) (m.prev x) ≡ true
  before-has = ap (Thread.elem_find (a ∷ xs)) (prev-Seg m a xs x s) ∙ last-has a xs

  behind-has : Thread.elem_find (ys ++ b ∷ []) (m.next x) ≡ true
  behind-has = ap (Thread.elem_find (ys ++ b ∷ [])) (next-Seg m x ys b t) ∙ first-has ys b

  front : Distinct (a ∷ xs)
  front = Distinct-front (a ∷ xs) (x ∷ (ys ++ b ∷ [])) d

  behind-apart : Thread.elem_find xs (m.next x) ≡ false
  behind-apart = elim (Bool-cases (Thread.elem_find xs (m.next x))) [
    | inl h ↦
        absurd
          (ground (arith, h, behind-has, Distinct-apart (a ∷ xs) (x ∷ (ys ++ b ∷ [])) (m.next x) d))
    | inr h ↦ h
  ]

  to_next : Seg (list_remove m x) a xs (m.next x)
  to_next = Seg-removed m x a xs s front behind-apart

  OnlyIn-around : OnlyIn (a ∷ xs ++ x ∷ (ys ++ b ∷ [])) m (list_remove m x)
  OnlyIn-around =
      OnlyIn-removed m x (a ∷ xs ++ x ∷ (ys ++ b ∷ []))
        (ground (arith, elem_find-append (a ∷ xs) (x ∷ (ys ++ b ∷ [])) (m.prev x), before-has))
        (ground (arith, elem_find-append (a ∷ xs) (x ∷ (ys ++ b ∷ [])) (m.next x), behind-has))

  Distinct-around : Distinct (a ∷ xs ++ (ys ++ b ∷ []))
  Distinct-around = (Distinct-split (a ∷ xs) x (ys ++ b ∷ []) d).1

joined :
    (m : Links) (a : ℕ) (xs : List ℕ) (x : ℕ) (ys : List ℕ) (b : ℕ)
    → Seg m a xs x
    → Seg m x ys b
    → Distinct (a ∷ xs ++ x ∷ (ys ++ b ∷ []))
    → Seg (list_remove m x) a (xs ++ ys) b
joined m a xs x [] b s t d =
    subst (λ zs. Seg (list_remove m x) a zs b) (sym (append-nil xs))
      (subst (Seg (list_remove m x) a xs) t.0 (to_next m a xs x [] b s t d))
joined m a xs x (y ∷ ys) b s t d =
    let back : Distinct (x ∷ y ∷ (ys ++ b ∷ [])) =
      Distinct-back (a ∷ xs) (x ∷ y ∷ (ys ++ b ∷ [])) d in
    let out =
      Distinct-apart (a ∷ xs) (x ∷ y ∷ (ys ++ b ∷ [])) (m.prev x) d
        (before-has m a xs x (y ∷ ys) b s t d) in
    Seg-append (list_remove m x) a xs y ys b
      (subst (Seg (list_remove m x) a xs) t.0 (to_next m a xs x (y ∷ ys) b s t d))
      (Seg-rest m x y ys b t.2 t.0
        (ground (arith, out, elem_find-append (y ∷ ys) (b ∷ []) (m.prev x))) back.1.0)

-- `list_remove` takes an element out of its list, and changes nothing outside the list.
pub list_remove_lem :
    (m : Links) (plist : LinkedList) (xs : List ℕ) (elem : ℕ) (ys : List ℕ)
    → IsList m plist (xs ++ elem ∷ ys)
    → IsList (list_remove m elem) plist (xs ++ ys)
      × OnlyIn (nodes plist (xs ++ elem ∷ ys)) m (list_remove m elem)
list_remove_lem m plist xs x ys (s, d) =
    let (t, u) = Seg-split m plist.head xs x ys plist.tail s in
    let all : nodes plist (xs ++ x ∷ ys) ≡ plist.head ∷ xs ++ x ∷ (ys ++ plist.tail ∷ []) =
      ap (λ zs. plist.head ∷ zs) (append_assoc xs (x ∷ ys) (plist.tail ∷ [])) in
    let less : nodes plist (xs ++ ys) ≡ plist.head ∷ xs ++ (ys ++ plist.tail ∷ []) =
      ap (λ zs. plist.head ∷ zs) (append_assoc xs ys (plist.tail ∷ [])) in
    let d' = subst Distinct all d in
    (
      (
        joined m plist.head xs x ys plist.tail t u d',
        subst Distinct (sym less) (Distinct-around m plist.head xs x ys plist.tail t u d'),
      ),
      subst (λ zs. OnlyIn zs m (list_remove m x)) (sym all)
          (OnlyIn-around m plist.head xs x ys plist.tail t u d'),
    )

-- `list_pop` of a list that is not empty gives its first element and takes it out.
pub list_pop_lem :
    (m : Links) (plist : LinkedList) (x : ℕ) (xs : List ℕ)
    → IsList m plist (x ∷ xs)
    → (m' : Links) × (list_pop m plist ≡ (m', x))
      × IsList m' plist xs
      × OnlyIn (nodes plist (x ∷ xs)) m m'
unfolding list_pop
list_pop_lem m plist x xs h =
    let (held, only) = list_remove_lem m plist [] x xs h in
    (list_remove m x, ap (λ e. (list_remove m e, e)) h.0.0, held, only)

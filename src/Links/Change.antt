-- ===== src/Links/Change.antt =====
-- `list_insert_before`, `list_push` and `list_append` of kernel/list.c on the sequence of a list.
use winx.Base.{
  ℕ, ◌≡◌, refl, sym, ap, subst, ◌∙◌, ◌≢◌, inl, inr, true, false, List, [], ◌∷◌, ◌++◌, arith, ◌==◌,
  if◌then◌else◌, Bool-cases, ==→eq,
}
use mathlib.Core.List.{append_assoc}
use winx.Thread
use winx.Thread.Valid.{Distinct}
use winx.Links.{Links, LinkedList, list_init, list_insert_before, list_push, list_append}
use winx.Links.Segments.{
  Seg, nodes, IsList, last, first, last-has, prev-Seg, next-Seg, Seg-append, Seg-kept,
  elem_find-append,
}

-- No element outside `xs` has changed.
abbrev pub OnlyIn : List ℕ → Links → Links → Type 0
OnlyIn xs m m' =
    (c : ℕ) → Thread.elem_find xs c ≡ false → (m'.next c ≡ m.next c) × (m'.prev c ≡ m.prev c)

pub list_init_lem :
    (m : Links) (list : LinkedList)
    → list.head ≢ list.tail
    → IsList (list_init m list) list [] × OnlyIn (nodes list []) m (list_init m list)
unfolding list_init
list_init_lem m list apart = (
  ((ground arith, ground arith), (ground arith, (refl, tt))),
  λ c h. (ground arith, ground arith),
)

-- one that is in the sequence, and one that is not
pub apart-has :
    (xs : List ℕ) (c e : ℕ)
    → Thread.elem_find xs c ≡ true
    → Thread.elem_find xs e ≡ false
    → (c == e) ≡ false
apart-has xs c e h h' = elim (Bool-cases (c == e)) [
  | inl same ↦ absurd (ground (arith, h', sym (ap (Thread.elem_find xs) (==→eq c e same)), h))
  | inr other ↦ other
]

module _ (m : Links) (before elem : ℕ) (other : before ≢ elem) where
  next-inserted :
      (c : ℕ)
      → (list_insert_before m before elem).next c
        ≡ (if c == elem then before else if c == m.prev before then elem else m.next c)
  unfolding list_insert_before
  next-inserted c = refl

  prev-inserted :
      (c : ℕ)
      → (list_insert_before m before elem).prev c
        ≡ (if c == before then elem else if c == elem then m.prev before else m.prev c)
  unfolding list_insert_before
  prev-inserted c = refl

  -- the part in front of the new element
  Seg-inserted :
      (a : ℕ) (xs : List ℕ)
      → Seg m a xs before
      → Distinct (a ∷ xs)
      → Thread.elem_find (a ∷ xs) elem ≡ false
      → Thread.elem_find xs before ≡ false
      → Seg (list_insert_before m before elem) a xs elem
  Seg-inserted a [] s d out out' =
      (ground (arith, next-inserted a, s.1, out), ground (arith, prev-inserted elem, s.1, other))
  Seg-inserted a (x ∷ xs) s d out out' =
      let p : m.prev before ≡ last x xs = prev-Seg m x xs before s.2 in
      (
        ground (arith, next-inserted a, p, last-has x xs, d.0, s.0, out),
        ground (arith, prev-inserted x, s.1, out, out'),
        Seg-inserted x xs s.2 d.1 (ground (arith, out)) (ground (arith, out')),
      )

  Seg-elem : Seg (list_insert_before m before elem) elem [] before
  Seg-elem = (ground (arith, next-inserted elem), ground (arith, prev-inserted before))

  -- the part behind `before`
  Seg-behind :
      (ys : List ℕ) (b : ℕ)
      → Seg m before ys b
      → Distinct (before ∷ ys ++ b ∷ [])
      → Thread.elem_find (before ∷ ys ++ b ∷ []) elem ≡ false
      → Thread.elem_find (before ∷ ys) (m.prev before) ≡ false
      → Seg (list_insert_before m before elem) before ys b
  Seg-behind ys b s d out out' =
      Seg-kept m (list_insert_before m before elem) before ys b s
        (λ c h.
          let far : (c == elem) ≡ false =
            apart-has (before ∷ ys) c elem h
              (ground (arith, elem_find-append (before ∷ ys) (b ∷ []) elem)) in
          let far' : (c == m.prev before) ≡ false =
            apart-has (before ∷ ys) c (m.prev before) h out' in
          next-inserted c ∙ rw (far, far') refl)
        (λ c h.
          let far : (c == elem) ≡ false = apart-has (ys ++ b ∷ []) c elem h (ground (arith, out)) in
          let far' : (c == before) ≡ false = apart-has (ys ++ b ∷ []) c before h d.0 in
          prev-inserted c ∙ rw (far, far') refl)

  -- all that has changed
  OnlyIn-inserted :
      (xs : List ℕ)
      → Thread.elem_find xs elem ≡ true
      → Thread.elem_find xs before ≡ true
      → Thread.elem_find xs (m.prev before) ≡ true
      → OnlyIn xs m (list_insert_before m before elem)
  OnlyIn-inserted xs h h' h'' c out =
      let far : (elem == c) ≡ false = apart-has xs elem c h out in
      let far' : (before == c) ≡ false = apart-has xs before c h' out in
      let far'' : (m.prev before == c) ≡ false = apart-has xs (m.prev before) c h'' out in
      (
        ground (arith, next-inserted c, far, far', far''),
        ground (arith, prev-inserted c, far, far', far''),
      )

pub elem_find-insert :
    (xs : List ℕ) (e : ℕ) (ys : List ℕ) (c : ℕ)
    → Thread.elem_find (xs ++ e ∷ ys) c ≡ (if e == c then true else Thread.elem_find (xs ++ ys) c)
elem_find-insert [] e ys c = refl
elem_find-insert (x ∷ xs) e ys c = ground (arith, elem_find-insert xs e ys c)

Distinct-insert :
    (xs : List ℕ) (e : ℕ) (ys : List ℕ)
    → Distinct (xs ++ ys)
    → Thread.elem_find (xs ++ ys) e ≡ false
    → Distinct (xs ++ e ∷ ys)
Distinct-insert [] e ys d out = (out, d)
Distinct-insert (x ∷ xs) e ys d out = (
  ground (arith, elem_find-insert xs e ys x, d.0, out),
  Distinct-insert xs e ys d.1 (ground (arith, out)),
)

pub Distinct-split :
    (xs : List ℕ) (e : ℕ) (ys : List ℕ)
    → Distinct (xs ++ e ∷ ys)
    → (Thread.elem_find (xs ++ ys) e ≡ false) × Distinct (xs ++ ys)
Distinct-split [] e ys d = (d.0, d.1)
Distinct-split (x ∷ xs) e ys d =
    let (out, rest) = Distinct-split xs e ys d.1 in
    (
      ground (arith, out, d.0, elem_find-insert xs e ys x),
      (ground (arith, d.0, elem_find-insert xs e ys x), rest),
    )

pub Distinct-front : (xs ys : List ℕ) → Distinct (xs ++ ys) → Distinct xs
Distinct-front [] ys d = tt
Distinct-front (x ∷ xs) ys d =
    (ground (arith, d.0, elem_find-append xs ys x), Distinct-front xs ys d.1)

push_at :
    (m : Links) (plist : LinkedList) (xs : List ℕ) (elem : ℕ)
    → IsList m plist xs
    → Thread.elem_find (nodes plist xs) elem ≡ false
    → let m' = list_insert_before m (first xs plist.tail) elem in
      IsList m' plist (elem ∷ xs) × OnlyIn (nodes plist (elem ∷ xs)) m m'
push_at m plist [] elem (s, d) new =
    let other : plist.tail ≢ elem = λ e. ground (arith, e, new) in
    let at_front =
      Seg-inserted m plist.tail elem other plist.head [] s (refl, tt) (ground (arith, new)) refl in
    (
      (
        Seg-append (list_insert_before m plist.tail elem) plist.head [] elem [] plist.tail at_front
            (Seg-elem m plist.tail elem other),
        Distinct-insert (plist.head ∷ []) elem (plist.tail ∷ []) d new,
      ),
      OnlyIn-inserted m plist.tail elem other (nodes plist (elem ∷ [])) (ground arith)
          (ground arith) (ground (arith, s.1)),
    )
push_at m plist (y ∷ ys) elem (s, d) new =
    let other : y ≢ elem = λ e. ground (arith, e, new) in
    let at_front =
      Seg-inserted m y elem other plist.head [] (s.0, s.1) (refl, tt) (ground (arith, new)) refl in
    let behind =
      Seg-behind m y elem other ys plist.tail s.2 d.1 (ground (arith, new))
        (ground (arith, d.0, s.1, elem_find-append (y ∷ ys) (plist.tail ∷ []) plist.head)) in
    let at = Seg-elem m y elem other in
    (
      (
        Seg-append (list_insert_before m y elem) plist.head [] elem (y ∷ ys) plist.tail at_front
            (at.0, at.1, behind),
        Distinct-insert (plist.head ∷ []) elem (y ∷ ys ++ plist.tail ∷ []) d new,
      ),
      OnlyIn-inserted m y elem other (nodes plist (elem ∷ y ∷ ys)) (ground arith) (ground arith)
          (ground (arith, s.1)),
    )

-- `list_push` of a new element puts it in front of the others, and changes nothing outside the list.
pub list_push_lem :
    (m : Links) (plist : LinkedList) (xs : List ℕ) (elem : ℕ)
    → IsList m plist xs
    → Thread.elem_find (nodes plist xs) elem ≡ false
    → IsList (list_push m plist elem) plist (elem ∷ xs)
      × OnlyIn (nodes plist (elem ∷ xs)) m (list_push m plist elem)
unfolding list_push
list_push_lem m plist xs elem h new =
    subst
      (λ b.
        let m' = list_insert_before m b elem in
        IsList m' plist (elem ∷ xs) × OnlyIn (nodes plist (elem ∷ xs)) m m')
      (sym (next-Seg m plist.head xs plist.tail h.0)) (push_at m plist xs elem h new)

-- `list_append` of a new element puts it behind the others, and changes nothing outside the list.
pub list_append_lem :
    (m : Links) (plist : LinkedList) (xs : List ℕ) (elem : ℕ)
    → IsList m plist xs
    → Thread.elem_find (nodes plist xs) elem ≡ false
    → IsList (list_append m plist elem) plist (xs ++ elem ∷ [])
      × OnlyIn (nodes plist (xs ++ elem ∷ [])) m (list_append m plist elem)
unfolding list_append
list_append_lem m plist xs elem (s, d) new =
    let has = elem_find-append (plist.head ∷ xs) (plist.tail ∷ []) in
    let other : plist.tail ≢ elem = λ e. ground (arith, e, new, has elem) in
    let all : nodes plist (xs ++ elem ∷ []) ≡ plist.head ∷ xs ++ elem ∷ plist.tail ∷ [] =
      ap (λ zs. plist.head ∷ zs) (append_assoc xs (elem ∷ []) (plist.tail ∷ [])) in
    let p : m.prev plist.tail ≡ last plist.head xs = prev-Seg m plist.head xs plist.tail s in
    let at_front =
      Seg-inserted m plist.tail elem other plist.head xs s
        (Distinct-front (plist.head ∷ xs) (plist.tail ∷ []) d) (ground (arith, new, has elem))
        (ground (
          arith,
          (Distinct-split (plist.head ∷ xs) plist.tail [] d).0,
          elem_find-append (plist.head ∷ xs) [] plist.tail,
        )) in
    (
      (
        Seg-append (list_insert_before m plist.tail elem) plist.head xs elem [] plist.tail at_front
            (Seg-elem m plist.tail elem other),
        subst Distinct (sym all) (Distinct-insert (plist.head ∷ xs) elem (plist.tail ∷ []) d new),
      ),
      subst (λ zs. OnlyIn zs m (list_insert_before m plist.tail elem)) (sym all)
          (OnlyIn-inserted m plist.tail elem other (plist.head ∷ xs ++ elem ∷ plist.tail ∷ [])
            (ground (arith, elem_find-insert (plist.head ∷ xs) elem (plist.tail ∷ []) elem))
            (ground (
              arith,
              elem_find-insert (plist.head ∷ xs) elem (plist.tail ∷ []) plist.tail,
              has plist.tail,
            ))
            (ground (
              arith,
              elem_find-insert (plist.head ∷ xs) elem (plist.tail ∷ []) (m.prev plist.tail),
              has (m.prev plist.tail),
              p,
              last-has plist.head xs,
            ))),
    )

-- ===== src/Links/Search.antt =====
-- The loops of kernel/list.c: `elem_find`, `list_traversal` and `list_len` on the sequence of a list.
use winx.Base.{
  ℕ, zero, suc, ◌+◌, ◌%◌, ◌^◌, ◌<◌, ◌≡◌, refl, ap, ◌∙◌, inl, inr, Bool, false, Option, none, some,
  List, [], ◌∷◌, arith, ◌==◌, if◌then◌else◌, Bool-cases, ==-refl, ne→==, length, done,
}
use winx.Thread
use winx.Links.{
  Links, LinkedList, list_empty, find_from, elem_find, traverse_from, list_traversal, count_from,
  list_len,
}
use winx.Links.Segments.{elem_find-append, Seg, IsList, first, next-Seg}
use winx.Links.Change.{Distinct-split}

-- the first element of which the function holds
abbrev pub first_that : List ℕ → (ℕ → Bool) → Option ℕ
first_that [] func = none
first_that (x ∷ xs) func = if func x then some x else first_that xs func

module _ (m : Links) (plist : LinkedList) where
  find_from_lem :
      (fuel a : ℕ) (xs : List ℕ) (obj_elem : ℕ)
      → Seg m a xs plist.tail
      → Thread.elem_find xs plist.tail ≡ false
      → length xs < fuel
      → find_from fuel m plist obj_elem (first xs plist.tail) ≡ done (Thread.elem_find xs obj_elem)
  unfolding find_from
  find_from_lem zero a xs obj_elem s out h = absurd (omega (arith, h))
  find_from_lem (suc fuel) a [] obj_elem s out h = rw (==-refl plist.tail) refl
  find_from_lem (suc fuel) a (x ∷ xs) obj_elem s out h =
      let other : (x == plist.tail) ≡ false = ground (arith, out) in
      let rest = find_from_lem fuel x xs obj_elem s.2 (ground (arith, out)) (omega (arith, h)) in
      elim (Bool-cases (x == obj_elem)) [
        | inl found ↦ rw (other, found) refl
        | inr not_yet ↦ rw (other, not_yet, next-Seg m x xs plist.tail s.2) rest
      ]

  traverse_from_lem :
      (fuel a : ℕ) (xs : List ℕ) (func : ℕ → Bool)
      → Seg m a xs plist.tail
      → Thread.elem_find xs plist.tail ≡ false
      → length xs < fuel
      → traverse_from fuel m plist func (first xs plist.tail) ≡ done (first_that xs func)
  unfolding traverse_from
  traverse_from_lem zero a xs func s out h = absurd (omega (arith, h))
  traverse_from_lem (suc fuel) a [] func s out h = rw (==-refl plist.tail) refl
  traverse_from_lem (suc fuel) a (x ∷ xs) func s out h =
      let other : (x == plist.tail) ≡ false = ground (arith, out) in
      let rest = traverse_from_lem fuel x xs func s.2 (ground (arith, out)) (omega (arith, h)) in
      elim (Bool-cases (func x)) [
        | inl found ↦ rw (other, found) refl
        | inr not_yet ↦ rw (other, not_yet, next-Seg m x xs plist.tail s.2) rest
      ]

  count_from_lem :
      (fuel a : ℕ) (xs : List ℕ) (n : ℕ)
      → Seg m a xs plist.tail
      → Thread.elem_find xs plist.tail ≡ false
      → length xs < fuel
      → n < 2 ^ 32
      → count_from fuel m plist (first xs plist.tail) n ≡ done ((n + length xs) % 2 ^ 32)
  unfolding count_from
  count_from_lem zero a xs n s out h small = absurd (omega (arith, h))
  count_from_lem (suc fuel) a [] n s out h small =
      rw (==-refl plist.tail) (ap done (omega (arith, small)))
  count_from_lem (suc fuel) a (x ∷ xs) n s out h small =
      let other : (x == plist.tail) ≡ false = ground (arith, out) in
      let rest =
        count_from_lem fuel x xs ((n + 1) % 2 ^ 32) s.2 (ground (arith, out)) (omega (arith, h))
          (omega arith) in
      rw (other, next-Seg m x xs plist.tail s.2) (rest ∙ ap done (omega arith))

  tail-out : (xs : List ℕ) → IsList m plist xs → Thread.elem_find xs plist.tail ≡ false
  tail-out xs h = ground (
    arith,
    (Distinct-split (plist.head ∷ xs) plist.tail [] h.1).0,
    elem_find-append xs [] plist.tail,
  )

  list_empty_lem : (xs : List ℕ) → IsList m plist xs → list_empty m plist ≡ (length xs == 0)
  unfolding list_empty
  list_empty_lem [] h = ground (arith, h.0.0)
  list_empty_lem (x ∷ xs) h = ground (arith, h.0.0, tail-out (x ∷ xs) h)

traversal_lem :
    (m : Links) (plist : LinkedList) (xs : List ℕ) (fuel : ℕ) (func : ℕ → Bool)
    → IsList m plist xs
    → length xs < fuel
    → list_traversal fuel m plist func ≡ done (first_that xs func)
unfolding list_traversal
traversal_lem m plist [] fuel func h enough = rw (list_empty_lem m plist [] h) refl
traversal_lem m plist (x ∷ xs) fuel func h enough =
    let some_elem : (length (x ∷ xs) == 0) ≡ false = ne→== (suc (length xs)) 0 (omega arith) in
    rw (list_empty_lem m plist (x ∷ xs) h, some_elem, h.0.0)
      (traverse_from_lem m plist fuel plist.head (x ∷ xs) func h.0 (tail-out m plist (x ∷ xs) h)
        enough)

-- The searches of a list that holds `xs`, with fuel for a round more than it has elements, find what
-- is in `xs`: `elem_find` whether an element is, `list_traversal` the first for which the function
-- holds, `list_len` how many there are, as a uint32_t, and `list_empty` whether there are none.
pub searches_lem :
    (m : Links) (plist : LinkedList) (xs : List ℕ) (fuel : ℕ)
    → IsList m plist xs
    → length xs < fuel
    → ((obj_elem : ℕ) → elem_find fuel m plist obj_elem ≡ done (Thread.elem_find xs obj_elem))
      × ((func : ℕ → Bool) → list_traversal fuel m plist func ≡ done (first_that xs func))
      × (list_len fuel m plist ≡ done (length xs % 2 ^ 32))
      × (list_empty m plist ≡ (length xs == 0))
unfolding elem_find list_len
searches_lem m plist xs fuel h enough =
    let out = tail-out m plist xs h in
    let e : m.next plist.head ≡ first xs plist.tail = next-Seg m plist.head xs plist.tail h.0 in
    (
      λ obj_elem. rw e (find_from_lem m plist fuel plist.head xs obj_elem h.0 out enough),
      λ func. traversal_lem m plist xs fuel func h enough,
      rw e (
          count_from_lem m plist fuel plist.head xs 0 h.0 out enough (omega arith)
          ∙ ap done (omega arith)),
      list_empty_lem m plist xs h,
    )

-- ===== src/Links.antt =====
-- kernel/list.c: doubly linked lists through the elements that they hold. An element is its address,
-- and a heap has the two pointers of each. 0 is NULL. Turning interrupts off and on again around a
-- change is not part of it.
pub mod Segments
pub mod Change
pub mod Remove
pub mod Search
mod Examples
use winx.Base.{
  ℕ, zero, suc, ◌+◌, ◌-◌, ◌*◌, ◌/◌, ◌%◌, ◌^◌, ◌≤◌, ◌<◌, min, bit_and, bit_or, ◌≡◌, refl, sym, ap,
  ap₂, subst, ◌∙◌, fun_ext, ◌≢◌, ◌↔◌, ◌⊎◌, inl, inr, Bool, true, false, not, ◌&&◌, ◌||◌, Option,
  none, some, List, [], ◌∷◌, ◌++◌, arith, ltb, leb, ◌==◌, if◌then◌else◌, Bool-cases, Option-cases,
  ==→eq, ==-refl, ne→==, lt→ltb, le→ltb, length, get_or, length-append, update, slice, Run, done,
  halted, unfinished, ◌>>=◌, ◌>>◌, assert, le→leb, lt→leb, leb→le, leb→lt, ltb→lt, ltb→le, Ends,
  Ends->>=, Ends-assert, Ends-any,
}
use winx.Base.{Run}

-- `prev` and `next` of the element at an address
pub record Links : Type 0 where
  pub prev : ℕ → ℕ
  pub next : ℕ → ℕ

-- `struct list`: the addresses of its two sentinels
pub record LinkedList : Type 0 where
  pub head : ℕ
  pub tail : ℕ

unfoldable pub list_init : Links → LinkedList → Links
list_init m list = record {
  prev = update (update m.prev list.head 0) list.tail list.head;
  next = update (update m.next list.head list.tail) list.tail 0;
}

unfoldable pub list_insert_before : Links → ℕ → ℕ → Links
list_insert_before m before elem = record {
  prev = update (update m.prev elem (m.prev before)) before elem;
  next = update (update m.next (m.prev before) elem) elem before;
}

pub list_push : Links → LinkedList → ℕ → Links
list_push m plist elem = list_insert_before m (m.next plist.head) elem

pub list_append : Links → LinkedList → ℕ → Links
list_append m plist elem = list_insert_before m plist.tail elem

unfoldable pub list_remove : Links → ℕ → Links
list_remove m pelem =
    let next' = update m.next (m.prev pelem) (m.next pelem) in
    record { prev = update m.prev (next' pelem) (m.prev pelem); next = next' }

pub list_pop : Links → LinkedList → Links × ℕ
list_pop m plist = (list_remove m (m.next plist.head), m.next plist.head)

pub list_empty : Links → LinkedList → Bool
list_empty m plist = m.next plist.head == plist.tail

-- the loop of `elem_find` from `elem` on
pub find_from : ℕ → Links → LinkedList → ℕ → ℕ → Run Bool
find_from zero m plist obj_elem elem = unfinished
find_from (suc fuel) m plist obj_elem elem =
    let rest = find_from fuel m plist obj_elem (m.next elem) in
    if elem == plist.tail then done false else if elem == obj_elem then done true else rest

pub elem_find : ℕ → Links → LinkedList → ℕ → Run Bool
elem_find fuel m plist obj_elem = find_from fuel m plist obj_elem (m.next plist.head)

-- the loop of `list_traversal`; `func elem` is the call with its second argument
pub traverse_from : ℕ → Links → LinkedList → (ℕ → Bool) → ℕ → Run (Option ℕ)
traverse_from zero m plist func elem = unfinished
traverse_from (suc fuel) m plist func elem =
    let rest = traverse_from fuel m plist func (m.next elem) in
    if elem == plist.tail then done none else if func elem then done (some elem) else rest

-- `none` is NULL.
pub list_traversal : ℕ → Links → LinkedList → (ℕ → Bool) → Run (Option ℕ)
list_traversal fuel m plist func =
    if list_empty m plist then done none else traverse_from fuel m plist func (m.next plist.head)

-- the loop of `list_len`
pub count_from : ℕ → Links → LinkedList → ℕ → ℕ → Run ℕ
count_from zero m plist elem length = unfinished
count_from (suc fuel) m plist elem length =
    let rest = count_from fuel m plist (m.next elem) ((length + 1) % 2 ^ 32) in
    if elem == plist.tail then done length else rest

pub list_len : ℕ → Links → LinkedList → Run ℕ
list_len fuel m plist = count_from fuel m plist (m.next plist.head) 0

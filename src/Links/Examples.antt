-- ===== src/Links/Examples.antt =====
-- Tests of the linked lists of kernel/list.c.
use winx.Base.{ℕ, ◌≡◌, refl, Bool, false, [], ◌∷◌, arith, done}
use winx.Thread
use winx.Links.{
  Links, LinkedList, list_init, list_append, list_remove, list_empty, elem_find, list_traversal,
  list_len,
}
use winx.Links.Segments.{IsList, nodes}
use winx.Links.Change.{OnlyIn, list_init_lem, list_append_lem}
use winx.Links.Remove.{list_remove_lem}
use winx.Links.Search.{searches_lem, first_that}

abbrev nowhere : Links
nowhere = record { prev = λ a. 0; next = λ a. 0 }

abbrev ready : LinkedList
ready = record { head = 100; tail = 108 }

abbrev no_elems : Links
no_elems = list_init nowhere ready

abbrev one_elem : Links
one_elem = list_append no_elems ready 500

abbrev two_elems : Links
two_elems = list_append one_elem ready 600

none_held : IsList no_elems ready []
none_held = (list_init_lem nowhere ready (λ e. absurd (omega (arith, e)))).0

one_held : IsList one_elem ready (500 ∷ [])
one_held = (list_append_lem no_elems ready [] 500 none_held refl).0

list_append_lem_example :
    IsList two_elems ready (500 ∷ 600 ∷ [])
    × OnlyIn (nodes ready (500 ∷ 600 ∷ [])) one_elem two_elems
list_append_lem_example = list_append_lem one_elem ready (500 ∷ []) 600 one_held refl

list_remove_lem_example :
    IsList (list_remove two_elems 600) ready (500 ∷ [])
    × OnlyIn (nodes ready (500 ∷ 600 ∷ [])) two_elems (list_remove two_elems 600)
list_remove_lem_example =
    list_remove_lem two_elems ready (500 ∷ []) 600 [] list_append_lem_example.0

searches_lem_example :
    ((obj_elem : ℕ)
      → elem_find 3 two_elems ready obj_elem ≡ done (Thread.elem_find (500 ∷ 600 ∷ []) obj_elem))
    × ((func : ℕ → Bool)
        → list_traversal 3 two_elems ready func ≡ done (first_that (500 ∷ 600 ∷ []) func))
    × (list_len 3 two_elems ready ≡ done 2)
    × (list_empty two_elems ready ≡ false)
searches_lem_example =
    searches_lem two_elems ready (500 ∷ 600 ∷ []) 3 list_append_lem_example.0 (omega arith)

-- ===== src/Tests/Links.antt =====
-- A list at 100 with the one element 200.
use os_pint_os_project.Base.{ℕ, Option, none, some, List, [], ◌∷◌, ltb, update, ◌≡◌, arith, refl}
use os_pint_os_project.Base.Check.{◌>>=◌}
use os_pint_os_project.Sequence.{insert_ordered}
use os_pint_os_project.Links.{
  Links, list_init, list_push_back, list_insert, list_remove, list_end, list_begin, list_next,
  list_prev, list_splice, list_empty, splice_range, is_interior, is_tail, is_head, removed,
}
use os_pint_os_project.Links.Represent.{Holds}
use os_pint_os_project.Links.Operations.{list_remove-Holds}
use os_pint_os_project.Links.Traverse.{list_insert_ordered-Holds}
use os_pint_os_project.Links.Loops.{
  list_insert_ordered, list_sort, sort_loop, pass_loop, find_end_of_run, run_loop, inplace_merge,
  merge_loop, is_sorted, is_sorted_loop, list_reverse, reverse_loop, swap, list_size, size_loop,
}

abbrev links : Links
links = record {
  prev = update (update (update (λ _. 0) 100 0) 108 200) 200 100;
  next = update (update (update (λ _. 0) 100 200) 108 0) 200 108;
}

links-Holds : Holds links 100 (200 ∷ [])
links-Holds = record {
  linked = ground arith;
  once = ground arith;
  ne_null = ground arith;
  first = refl;
  last = refl;
}

list_insert_ordered-Holds_example :
    (h' : Links) × (list_insert_ordered 100 150 ltb links ≡ some h')
    × Holds h' 100 (insert_ordered ltb 150 (200 ∷ []))
list_insert_ordered-Holds_example =
    list_insert_ordered-Holds 100 150 ltb (200 ∷ []) links-Holds (omega arith) (ground arith)
      (omega arith)

list_remove-Holds_example :
    (list_remove 200 links ≡ some (108, removed 200 links)) × Holds (removed 200 links) 100 []
list_remove-Holds_example = list_remove-Holds 100 [] [] 200 links-Holds

-- 300, 150 and 250 in a list at 100.
abbrev three : Option Links
three = do
  h0 ← list_init 100 (record { prev = λ _. 0; next = λ _. 0 })
  h1 ← list_push_back 100 300 h0
  h2 ← list_push_back 100 150 h1
  list_push_back 100 250 h2

abbrev contents : Option Links → Option (List ℕ)
contents (some h) = some (
    h.next 100
    ∷ h.next (h.next 100)
    ∷ h.next (h.next (h.next 100))
    ∷ h.next (h.next (h.next (h.next 100)))
    ∷ [])
contents none = none

sorted : contents (three >>= list_sort 100 ltb) ≡ some (150 ∷ 250 ∷ 300 ∷ 108 ∷ [])
unfolding list_init list_push_back list_end list_insert list_begin list_next list_prev list_remove
    list_splice splice_range list_empty is_interior is_tail is_head list_sort sort_loop pass_loop
    find_end_of_run run_loop inplace_merge merge_loop is_sorted is_sorted_loop
sorted = refl

reversed : contents (three >>= list_reverse 100) ≡ some (250 ∷ 150 ∷ 300 ∷ 108 ∷ [])
unfolding list_init list_push_back list_end list_insert list_begin list_next list_prev list_empty
    is_interior is_tail is_head list_reverse reverse_loop swap
reversed = refl

counted : (three >>= list_size 100) ≡ some 3
unfolding list_init list_push_back list_end list_insert list_begin list_next is_interior is_tail
    is_head list_size size_loop
counted = refl

-- ===== src/Tests/Stdlib.antt =====
-- Sorting and searching an array of three numbers, the first at index 1.
use os_pint_os_project.Base.{
  ℕ, zero, suc, ◌<◌, ◌≤◌, Option, none, some, List, [], ◌∷◌, ltb, if◌then◌else◌, get_or, ℤ, pos,
  negsuc, ◌≡◌, arith, refl,
}
use os_pint_os_project.Stdlib.{
  sort, sort_loop, build_loop, heapify, heapify_loop, max_index, do_compare, do_swap, binary_search,
}
use os_pint_os_project.Stdlib.Heap.{Ranked, Swapped}
use os_pint_os_project.Stdlib.Sort.{Sorted, sort-Sorted}
use os_pint_os_project.Stdlib.Search.{Compares, Found, binary_search-Found}

abbrev compare_numbers : ℕ → ℕ → ℤ
compare_numbers x y = if ltb x y then negsuc 0 else if ltb y x then pos 1 else pos 0

abbrev numbers : ℕ → ℕ
numbers k = get_or (0 ∷ 5 ∷ 3 ∷ 9 ∷ []) k 0

abbrev identity : ℕ → ℕ
identity x = x

numbers-Ranked : Ranked compare_numbers identity
numbers-Ranked = record { above = λ x y. ground arith }

sort-Sorted_example :
    (b : ℕ → ℕ) × (sort 100 3 4 compare_numbers numbers ≡ some b)
    × Sorted identity 3 b
    × Swapped 3 b numbers
sort-Sorted_example =
    sort-Sorted identity compare_numbers numbers-Ranked 100 3 4 numbers (omega arith) (omega arith)

abbrev firsts : Option (ℕ → ℕ) → List ℕ
firsts (some b) = b 1 ∷ b 2 ∷ b 3 ∷ []
firsts none = []

sorted : firsts (sort 100 3 4 compare_numbers numbers) ≡ 3 ∷ 5 ∷ 9 ∷ []
unfolding sort sort_loop build_loop heapify heapify_loop max_index do_compare do_swap
sorted = refl

abbrev in_order : ℕ → ℕ
in_order k = get_or (3 ∷ 5 ∷ 9 ∷ []) k 0

five-Compares : Compares compare_numbers 5 5 identity
five-Compares = record { below = λ x. ground arith; above = λ x. ground arith }

in_order_lem : (p q : ℕ) → p ≤ q → q < 3 → in_order p ≤ in_order q
in_order_lem zero zero h l = omega arith
in_order_lem zero (suc zero) h l = omega arith
in_order_lem zero (suc (suc zero)) h l = omega arith
in_order_lem (suc zero) (suc zero) h l = omega arith
in_order_lem (suc zero) (suc (suc zero)) h l = omega arith
in_order_lem (suc (suc zero)) (suc (suc zero)) h l = omega arith
in_order_lem (suc p) zero h l = absurd (omega arith)
in_order_lem (suc (suc p)) (suc zero) h l = absurd (omega arith)
in_order_lem p (suc (suc (suc q))) h l = absurd (omega arith)
in_order_lem (suc (suc (suc p))) (suc (suc zero)) h l = absurd (omega arith)

binary_search-Found_example :
    (o : Option ℕ) × (binary_search compare_numbers 5 3 in_order ≡ some o) × Found 5 in_order 0 3 o
binary_search-Found_example =
    binary_search-Found compare_numbers 5 5 identity five-Compares in_order 3 in_order_lem

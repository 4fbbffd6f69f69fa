-- ===== src/Stdlib.antt =====
-- lib/stdlib.c: sorting and searching in arrays. An array is a function from indices to its elements
-- of SIZE bytes each; `compare` is the comparison with its auxiliary data. `none` is a failed ASSERT.
pub mod Heap
pub mod Sort
pub mod Search
pub mod Atoi
use os_pint_os_project.Base.{
  ℕ, zero, suc, ◌+◌, ◌-◌, ◌*◌, ◌/◌, Bool, true, false, not, ◌&&◌, ◌||◌, Option, none, some, ltb,
  leb, ◌==◌, if◌then◌else◌, ℤ, pos, negsuc, ◌≡◌,
}
use os_pint_os_project.Base.Check.{◌>>=◌, ◌>>◌, assert}

abbrev pub positive : ℤ → Bool
positive (pos zero) = false
positive (pos (suc n)) = true
positive (negsuc n) = false

abbrev pub negative : ℤ → Bool
negative (pos n) = false
negative (negsuc n) = true

module _ {A : Type 0} where
  -- The elements at two indices exchanged.
  unfoldable pub do_swap : (a_idx b_idx : ℕ) → (ℕ → A) → ℕ → A
  do_swap a_idx b_idx array k =
      if k == a_idx then array b_idx else if k == b_idx then array a_idx else array k

  unfoldable pub do_compare : (A → A → ℤ) → (ℕ → A) → (a_idx b_idx : ℕ) → ℤ
  do_compare compare array a_idx b_idx = compare (array a_idx) (array b_idx)

  -- The index of the largest element among `i` and its children.
  unfoldable pub max_index : (A → A → ℤ) → (ℕ → A) → (i cnt : ℕ) → ℕ
  unfolding do_compare
  max_index compare array i cnt =
      let left = 2 * i in
      let right = 2 * i + 1 in
      let max = if leb left cnt && positive (do_compare compare array left i) then left else i in
      if leb right cnt && positive (do_compare compare array right max) then right else max

  -- The loop on fuel: a round moves down the heap, so `cnt` rounds are enough.
  unfoldable pub heapify_loop : (n : ℕ) → (A → A → ℤ) → (i cnt : ℕ) → (ℕ → A) → ℕ → A
  heapify_loop zero compare i cnt array = array
  heapify_loop (suc n) compare i cnt array =
      let max = max_index compare array i cnt in
      let rest = heapify_loop n compare max cnt (do_swap i max array) in
      if max == i then array else rest

  unfoldable pub heapify : (A → A → ℤ) → (i cnt : ℕ) → (ℕ → A) → ℕ → A
  heapify compare i cnt array = heapify_loop cnt compare i cnt array

  -- `for (; i > 0; i--)`
  unfoldable pub build_loop : (A → A → ℤ) → (i cnt : ℕ) → (ℕ → A) → ℕ → A
  build_loop compare zero cnt array = array
  build_loop compare (suc i) cnt array =
      build_loop compare i cnt (heapify compare (suc i) cnt array)

  -- `for (; i > 1; i--)`
  unfoldable pub sort_loop : (A → A → ℤ) → (i : ℕ) → (ℕ → A) → ℕ → A
  sort_loop compare zero array = array
  sort_loop compare (suc zero) array = array
  sort_loop compare (suc (suc i)) array =
      sort_loop compare (suc i) (heapify compare 1 (suc i) (do_swap 1 (suc (suc i)) array))

  -- `address` is where the array stands; its first element has the index 1.
  unfoldable pub sort : (address cnt size : ℕ) → (A → A → ℤ) → (ℕ → A) → Option (ℕ → A)
  sort address cnt size compare array = do
    assert (not (address == 0) || cnt == 0)
    assert (ltb 0 size)
    some (sort_loop compare cnt (build_loop compare (cnt / 2) cnt array))

  unfoldable pub qsort : (address cnt size : ℕ) → (A → A → ℤ) → (ℕ → A) → Option (ℕ → A)
  qsort address cnt size compare array = sort address cnt size compare array

-- The loop of binary_search on fuel, with indices from 0: `none` if it has not ended. The result is an
-- index, or an inner `none` for NULL.
module _ {K A : Type 0} where
  unfoldable pub search_loop :
      (n : ℕ) → (K → A → ℤ) → K → (first last : ℕ) → (ℕ → A) → Option (Option ℕ)
  search_loop zero compare key first last array = none
  search_loop (suc n) compare key first last array =
      let middle = first + (last - first) / 2 in
      let cmp = compare key (array middle) in
      let lower = search_loop n compare key first middle array in
      let upper = search_loop n compare key (middle + 1) last array in
      if ltb first last
      then (if negative cmp then lower else if positive cmp then upper else some (some middle))
      else some none

  unfoldable pub binary_search : (K → A → ℤ) → K → (cnt : ℕ) → (ℕ → A) → Option (Option ℕ)
  binary_search compare key cnt array = search_loop (cnt + 1) compare key 0 cnt array

  unfoldable pub bsearch : (K → A → ℤ) → K → (cnt : ℕ) → (ℕ → A) → Option (Option ℕ)
  bsearch compare key cnt array = binary_search compare key cnt array

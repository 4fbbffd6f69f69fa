-- ===== src/Stdlib/Sort.antt =====
-- What sort leaves in the array.
use os_pint_os_project.Base.{
  ℕ, zero, suc, ◌+◌, ◌/◌, ◌<◌, ◌≤◌, some, ℤ, ◌≡◌, ◌≢◌, inl, inr, arith, ◌==◌, ltb, Bool-cases,
}
use os_pint_os_project.Stdlib.{do_swap, heapify, build_loop, sort_loop, sort}
use os_pint_os_project.Stdlib.Heap.{
  Ranked, Swapped, done, swap, Swapped-trans, Swapped-le, Swapped-outside, Swapped-bound,
  IsHeapFrom, Sifted, heapify-Sifted,
}

-- From 1 to `cnt` the ranks do not fall.
abbrev pub Sorted : {A : Type 0} → (A → ℕ) → (cnt : ℕ) → (ℕ → A) → Type 0
Sorted rank cnt a = (p q : ℕ) → 1 ≤ p → p ≤ q → q ≤ cnt → rank (a p) ≤ rank (a q)

module _ {A : Type 0} (rank : A → ℕ) (compare : A → A → ℤ) (r : Ranked compare rank) where
  build_loop-Sifted :
      (i cnt : ℕ) (a : ℕ → A)
      → IsHeapFrom rank (i + 1) cnt a
      → Sifted rank compare r 1 cnt a (build_loop compare i cnt a)
  unfolding build_loop
  build_loop-Sifted zero cnt a h = (λ j p q s. h j p q (omega arith), done)
  build_loop-Sifted (suc i) cnt a h =
      let (heap, swaps) =
        heapify-Sifted rank compare r (suc i) cnt a (omega arith)
          (λ j p q s. h j p q (omega arith)) in
      let (heap', swaps') =
        build_loop-Sifted i cnt (heapify compare (suc i) cnt a)
          (λ j p q s. heap j p q (omega arith)) in
      (heap', Swapped-trans cnt _ _ a swaps swaps')

  -- The root of a heap has the highest rank.
  root_most :
      (n cnt : ℕ) (a : ℕ → A)
      → IsHeapFrom rank 1 cnt a
      → (j : ℕ) → 1 ≤ j
      → j ≤ cnt
      → j ≤ n
      → rank (a j) ≤ rank (a 1)
  root_most zero cnt a h j p q f = absurd (omega arith)
  root_most (suc n) cnt a h j p q f = elim (Bool-cases (j == 1)) [
    | inl root ↦ ground (arith, root)
    | inr below ↦
        let over : 2 ≤ j = ground (arith, below, p) in
        omega (
          arith,
          h j over q (omega arith),
          root_most n cnt a h (j / 2) (omega arith) (omega arith) (omega arith),
        )
  ]

  -- The elements behind `i` are in their places.
  abbrev SortedBehind : (i cnt : ℕ) → (ℕ → A) → Type 0
  SortedBehind i cnt a = (p q : ℕ) → 1 ≤ p → p ≤ q → i < q → q ≤ cnt → rank (a p) ≤ rank (a q)

  module _ (i cnt : ℕ) (a : ℕ → A) (heap : IsHeapFrom rank 1 (suc (suc i)) a)
      (fits : suc (suc i) ≤ cnt) (behind : SortedBehind (suc (suc i)) cnt a) where
    swapped : ℕ → A
    swapped = do_swap 1 (suc (suc i)) a

    round : ℕ → A
    unfolding swapped
    round = heapify compare 1 (suc i) swapped

    round-Sifted : Sifted rank compare r 1 (suc i) swapped round
    unfolding swapped round do_swap
    round-Sifted =
        heapify-Sifted rank compare r 1 (suc i) swapped (omega arith)
          (λ j p q s. ground (arith, heap j))

    -- The ranks in the part that is left are bounded by what bounded them before.
    front :
        (m : ℕ)
        → ((k : ℕ) → 1 ≤ k → k ≤ suc (suc i) → rank (a k) ≤ m)
        → (k : ℕ) → 1 ≤ k
        → k ≤ suc i
        → rank (round k) ≤ m
    unfolding swapped do_swap
    front m h =
        Swapped-bound rank (suc i) round m swapped round-Sifted.1
          (λ k p q. ground (arith, h k, h (suc (suc i))))

    last : rank (round (suc (suc i))) ≡ rank (a 1)
    unfolding swapped do_swap
    last =
        let same : round (suc (suc i)) ≡ swapped (suc (suc i)) =
          Swapped-outside rank (suc i) round swapped round-Sifted.1 (suc (suc i)) (omega arith) in
        rw same (ground arith)

    past : (k : ℕ) → suc (suc i) < k → rank (round k) ≡ rank (a k)
    unfolding swapped do_swap
    past k l =
        let same : round k ≡ swapped k =
          Swapped-outside rank (suc i) round swapped round-Sifted.1 k (omega arith) in
        rw same (ground arith)

    round-SortedBehind : SortedBehind (suc i) cnt round
    round-SortedBehind p q s t u v = elim (Bool-cases (q == suc (suc i))) [
      | inl at_last ↦ elim (Bool-cases (p == q)) [
        | inl same ↦ ground (arith, same)
        | inr lower ↦
            let is : q ≡ suc (suc i) = ground (arith, at_last) in
            let l : p ≤ suc i = ground (arith, lower, at_last, t) in
            rw is (
              omega (
                arith,
                last,
                front (rank (a 1)) (λ k f g. root_most (suc (suc i)) (suc (suc i)) a heap k f g g) p
                    s l,
              ))
      ]
      | inr further ↦
          let over : suc (suc i) < q = ground (arith, further, u) in
          elim (Bool-cases (ltb p (suc (suc i)))) [
            | inl lower ↦ omega (
              arith,
              past q over,
              front (rank (a q)) (λ k f g. behind k q f (omega arith) over v) p s
                  (ground (arith, lower)),
            )
            | inr upper ↦ elim (Bool-cases (p == suc (suc i))) [
              | inl at_p ↦
                  let is : p ≡ suc (suc i) = ground (arith, at_p) in
                  rw is (
                    omega (arith, last, past q over, behind 1 q (omega arith) (omega arith) over v))
              | inr above ↦
                  let l : suc (suc i) < p = ground (arith, above, upper) in
                  omega (arith, past q over, past p l, behind p q s t over v)
            ]
          ]
    ]

  sort_loop-Sorted :
      (i cnt : ℕ) (a : ℕ → A)
      → IsHeapFrom rank 1 i a
      → i ≤ cnt
      → SortedBehind i cnt a
      → Sorted rank cnt (sort_loop compare i a) × Swapped cnt (sort_loop compare i a) a
  unfolding sort_loop heapify round swapped
  sort_loop-Sorted zero cnt a heap f b = (λ p q s t u. b p q s t (omega arith) u, done)
  sort_loop-Sorted (suc zero) cnt a heap f b = (λ p q s t u. one p q s t u, done)
    where
      one : (p q : ℕ) → 1 ≤ p → p ≤ q → q ≤ cnt → rank (a p) ≤ rank (a q)
      one p q s t u = elim (Bool-cases (q == 1)) [
        | inl is ↦ let same : p ≡ q = ground (arith, is) in rw same (omega arith)
        | inr over ↦ b p q s t (ground (arith, over)) u
      ]
  sort_loop-Sorted (suc (suc i)) cnt a heap f b =
      let (heap', swaps) = round-Sifted i cnt a heap f b in
      let (sorted, swaps') =
        sort_loop-Sorted (suc i) cnt (round i cnt a heap f b) heap' (omega arith)
          (round-SortedBehind i cnt a heap f b) in
      (
        sorted,
        swap a 1 (suc (suc i)) (omega arith) (omega arith) (omega arith) f
            (Swapped-trans cnt _ _ _ (Swapped-le (suc i) cnt _ _ (omega arith) swaps) swaps'),
      )

  -- For a comparison that orders the elements by some rank, elements of at least one byte and an
  -- array that is not NULL, `sort` ends with no failed assertion. The array is then in the order of
  -- the ranks, and it comes from the old one by exchanging elements of it.
  pub sort-Sorted :
      (address cnt size : ℕ) (a : ℕ → A)
      → address ≢ 0
      → 0 < size
      → (b : ℕ → A) × (sort address cnt size compare a ≡ some b)
        × Sorted rank cnt b
        × Swapped cnt b a
  unfolding sort
  sort-Sorted address cnt size a ne pos_size =
      let (heap, swaps) = build_loop-Sifted (cnt / 2) cnt a (λ j p q s. absurd (omega arith)) in
      let (sorted, swaps') =
        sort_loop-Sorted cnt cnt (build_loop compare (cnt / 2) cnt a) heap (omega arith)
          (λ p q s t u v. absurd (omega arith)) in
      (
        sort_loop compare cnt (build_loop compare (cnt / 2) cnt a),
        ground arith,
        sorted,
        Swapped-trans cnt _ _ a swaps swaps',
      )

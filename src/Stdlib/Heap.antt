-- ===== src/Stdlib/Heap.antt =====
-- The heap order that heapify restores. A comparison orders the elements by a number, their rank.
use os_pint_os_project.Base.{
  ℕ, zero, suc, ◌+◌, ◌*◌, ◌/◌, ◌<◌, ◌≤◌, ltb, ◌==◌, ℤ, ◌≡◌, ◌≢◌, ◌⊎◌, inl, inr, arith, refl, ◌∙◌,
  Bool-cases,
}
use os_pint_os_project.Stdlib.{positive, do_swap, do_compare, max_index, heapify_loop, heapify}

-- The comparison says of two elements which has the higher rank.
pub record Ranked {A : Type 0} (compare : A → A → ℤ) (rank : A → ℕ) : Type 0 where
  pub above : (x y : A) → positive (compare x y) ≡ ltb (rank y) (rank x)

-- `b` comes from `a` by exchanging elements with indices from 1 to `cnt`.
pub data Swapped {A : Type 0} (cnt : ℕ) (b : ℕ → A) : (ℕ → A) → Type 0 where
  done : Swapped cnt b b
  swap :
      (a : ℕ → A) (i j : ℕ)
      → 1 ≤ i
      → i ≤ cnt
      → 1 ≤ j
      → j ≤ cnt
      → Swapped cnt b (do_swap i j a)
      → Swapped cnt b a

pub Swapped-trans :
    {A : Type 0} (cnt : ℕ) (b c a : ℕ → A) → Swapped cnt b a → Swapped cnt c b → Swapped cnt c a
Swapped-trans cnt b c a done t = t
Swapped-trans cnt b c a (swap _ i j p q r s u) t =
    swap a i j p q r s (Swapped-trans cnt b c (do_swap i j a) u t)

pub Swapped-le : {A : Type 0} (m n : ℕ) (b a : ℕ → A) → m ≤ n → Swapped m b a → Swapped n b a
Swapped-le m n b a h done = done
Swapped-le m n b a h (swap _ i j p q r s u) =
    swap a i j p (omega arith) r (omega arith) (Swapped-le m n b (do_swap i j a) h u)

module _ {A : Type 0} (rank : A → ℕ) where
  pub Swapped-outside : (cnt : ℕ) (b a : ℕ → A) → Swapped cnt b a → (k : ℕ) → cnt < k → b k ≡ a k
  unfolding do_swap
  Swapped-outside cnt b a done k l = refl
  Swapped-outside cnt b a (swap _ i j p q r s u) k l =
      Swapped-outside cnt b (do_swap i j a) u k l ∙ ground arith

  -- A bound on the ranks stays one.
  pub Swapped-bound :
      (cnt : ℕ) (b : ℕ → A) (m : ℕ) (a : ℕ → A)
      → Swapped cnt b a
      → ((k : ℕ) → 1 ≤ k → k ≤ cnt → rank (a k) ≤ m)
      → (k : ℕ) → 1 ≤ k
      → k ≤ cnt
      → rank (b k) ≤ m
  unfolding do_swap
  Swapped-bound cnt b m a done h k p q = h k p q
  Swapped-bound cnt b m a (swap _ i j o r s t u) h k p q =
      Swapped-bound cnt b m (do_swap i j a) u (λ z f g. ground (arith, h i, h j, h z)) k p q

  -- Every edge of the tree whose upper end is `lo` or later is in order.
  abbrev pub IsHeapFrom : (lo cnt : ℕ) → (ℕ → A) → Type 0
  IsHeapFrom lo cnt a = (j : ℕ) → 2 ≤ j → j ≤ cnt → lo ≤ j / 2 → rank (a j) ≤ rank (a (j / 2))

  -- Only the edges below `i` may be out of order.
  record DownInv (lo cnt i : ℕ) (a : ℕ → A) : Type 0 where
    edges : (j : ℕ) → 2 ≤ j → j ≤ cnt → lo ≤ j / 2 → j / 2 ≢ i → rank (a j) ≤ rank (a (j / 2))
    bridged : (j : ℕ) → 2 ≤ j → j ≤ cnt → j / 2 ≡ i → lo ≤ i / 2 → rank (a j) ≤ rank (a (i / 2))

  -- `m` is `i` or the child of it with the higher rank.
  record IsMax (cnt i m : ℕ) (a : ℕ → A) : Type 0 where
    place : (m ≡ i) ⊎ ((m / 2 ≡ i) × (i < m) × (m ≤ cnt) × (rank (a i) < rank (a m)))
    most : (j : ℕ) → j ≤ cnt → j / 2 ≡ i → rank (a j) ≤ rank (a m)

  module _ (compare : A → A → ℤ) (r : Ranked compare rank) where
    max_index-IsMax : (cnt i : ℕ) (a : ℕ → A) → 1 ≤ i → IsMax cnt i (max_index compare a i cnt) a
    unfolding max_index do_compare
    max_index-IsMax cnt i a h =
        let left = r.above (a (2 * i)) (a i) in
        let right = r.above (a (2 * i + 1)) (a i) in
        let across = r.above (a (2 * i + 1)) (a (2 * i)) in
        record {
          place = ground (arith, left, right, across);
          most = λ j p q. most j p (omega arith);
        }
      where
        most :
            (j : ℕ)
            → j ≤ cnt
            → (j ≡ 2 * i) ⊎ (j ≡ 2 * i + 1)
            → rank (a j) ≤ rank (a (max_index compare a i cnt))
        most j p q = ground (
          arith,
          r.above (a (2 * i)) (a i),
          r.above (a (2 * i + 1)) (a i),
          r.above (a (2 * i + 1)) (a (2 * i)),
        )

    -- `b` holds the elements of `a`, in order from `lo` on.
    abbrev pub Sifted : (lo cnt : ℕ) → (a b : ℕ → A) → Type 0
    Sifted lo cnt a b = IsHeapFrom lo cnt b × Swapped cnt b a

    do_swap-DownInv :
        (lo cnt i m : ℕ) (a : ℕ → A)
        → 1 ≤ lo
        → DownInv lo cnt i a
        → m / 2 ≡ i
        → i < m
        → m ≤ cnt
        → rank (a i) < rank (a m)
        → ((j : ℕ) → j ≤ cnt → j / 2 ≡ i → rank (a j) ≤ rank (a m))
        → DownInv lo cnt m (do_swap i m a)
    unfolding do_swap
    do_swap-DownInv lo cnt i m a h v half below fits lt most = record {
      edges = λ j p q s t. ground (arith, v.edges j, v.bridged m, v.bridged j, most j, half);
      bridged = λ j p q s t. ground (arith, v.edges j, half);
    }

    heapify_loop-Sifted :
        (n lo cnt i : ℕ) (a : ℕ → A)
        → 1 ≤ lo
        → lo ≤ i
        → cnt ≤ n + i
        → DownInv lo cnt i a
        → Sifted lo cnt a (heapify_loop n compare i cnt a)
    unfolding heapify_loop
    heapify_loop-Sifted zero lo cnt i a h g f v = (λ j p q s. ground (arith, v.edges j), done)
    heapify_loop-Sifted (suc n) lo cnt i a h g f v =
        let x = max_index-IsMax cnt i a (omega arith) in
        elim (Bool-cases (max_index compare a i cnt == i)) [
          | inl ends ↦
              let at_i : max_index compare a i cnt ≡ i = ground (arith, ends) in
              rw ends (
                (λ j p q s. elim (Bool-cases (j / 2 == i)) [
                  | inl child ↦ ground (arith, child, at_i, x.most j)
                  | inr other ↦ ground (arith, other, v.edges j)
                ]),
                done,
              )
          | inr moves ↦ elim x.place [
            | inl same ↦ absurd (ground (arith, moves))
            | inr (half, below, fits, lt) ↦
                let m = max_index compare a i cnt in
                let (heap, swaps) =
                  heapify_loop-Sifted n lo cnt m (do_swap i m a) h (omega arith) (omega arith)
                    (do_swap-DownInv lo cnt i m a h v half below fits lt x.most) in
                rw moves (heap, swap a i m (omega arith) (omega arith) (omega arith) fits swaps)
          ]
        ]

    -- heapify extends the part in order by the element at `lo`.
    pub heapify-Sifted :
        (lo cnt : ℕ) (a : ℕ → A)
        → 1 ≤ lo
        → IsHeapFrom (lo + 1) cnt a
        → Sifted lo cnt a (heapify compare lo cnt a)
    unfolding heapify
    heapify-Sifted lo cnt a h v =
        heapify_loop-Sifted cnt lo cnt lo a h (omega arith) (omega arith) (record {
          edges = λ j p q s t. v j p q (omega arith);
          bridged = λ j p q s t. absurd (omega arith);
        })

-- ===== src/Stdlib/Search.antt =====
-- What binary_search finds.
use os_pint_os_project.Base.{
  ℕ, zero, suc, ◌+◌, ◌-◌, ◌/◌, ◌<◌, ◌≤◌, Option, some, none, ℤ, ◌≡◌, ◌≢◌, ◌⊎◌, inl, inr, arith,
  refl, ltb, Bool-cases,
}
use os_pint_os_project.Stdlib.{positive, negative, search_loop, binary_search}

-- The comparison of a key with an element is that of the number `k` with the element's rank.
pub record Compares {K A : Type 0} (compare : K → A → ℤ) (key : K) (k : ℕ) (rank : A → ℕ)
    : Type 0 where
  pub below : (x : A) → negative (compare key x) ≡ ltb k (rank x)
  pub above : (x : A) → positive (compare key x) ≡ ltb (rank x) k

-- A place from `first` up to `last` with the rank `k`, or no such place.
pub data Found (k : ℕ) (rank : ℕ → ℕ) (first last : ℕ) : Option ℕ → Type 0 where
  at : (m : ℕ) → first ≤ m → m < last → rank m ≡ k → Found k rank first last (some m)
  nowhere : ((m : ℕ) → first ≤ m → m < last → rank m ≢ k) → Found k rank first last none

Found-wider :
    (k : ℕ) (rank : ℕ → ℕ) (first last f l : ℕ) (o : Option ℕ)
    → first ≤ f
    → l ≤ last
    → ((m : ℕ) → first ≤ m → m < last → (m < f) ⊎ (l ≤ m) → rank m ≢ k)
    → Found k rank f l o
    → Found k rank first last o
Found-wider k rank first last f l o g h out (at m p q e) = at m (omega arith) (omega arith) e
Found-wider k rank first last f l o g h out (nowhere n) = nowhere (λ m p q. go m p q)
  where
    go : (m : ℕ) → first ≤ m → m < last → rank m ≢ k
    go m p q = elim (Bool-cases (ltb m f)) [
      | inl low ↦ out m p q (inl (ground (arith, low)))
      | inr high ↦ elim (Bool-cases (ltb m l)) [
        | inl inside ↦ n m (ground (arith, high)) (ground (arith, inside))
        | inr over ↦ out m p q (inr (ground (arith, over)))
      ]
    ]

module _ {K A : Type 0} (compare : K → A → ℤ) (key : K) (k : ℕ) (rank : A → ℕ)
    (c : Compares compare key k rank) (a : ℕ → A) where
  -- The loop ends, with the result found.
  Ends : (n first last : ℕ) → Type 0
  Ends n first last =
      (o : Option ℕ) × (search_loop n compare key first last a ≡ some o)
      × Found k (λ i. rank (a i)) first last o

  search_loop-Found :
      (n first last : ℕ)
      → first ≤ last
      → last < n + first
      → ((p q : ℕ) → p ≤ q → q < last → rank (a p) ≤ rank (a q))
      → Ends n first last
  unfolding search_loop Ends
  search_loop-Found zero first last g f sorted = absurd (omega arith)
  search_loop-Found (suc n) first last g f sorted =
      let middle = first + (last - first) / 2 in
      elim (Bool-cases (ltb first last)) [
        | inr empty ↦ (none, rw empty refl, nowhere (λ m p q. absurd (ground (arith, empty))))
        | inl some_left ↦
            let l : first < last = ground (arith, some_left) in
            elim (Bool-cases (negative (compare key (a middle)))) [
              | inl less ↦
                  let lt : k < rank (a middle) = ground (arith, less, c.below (a middle)) in
                  let (o, runs, found) =
                    search_loop-Found n first middle (omega arith) (omega arith)
                      (λ p q s t. sorted p q s (omega arith)) in
                  (
                    o,
                    rw (some_left, less) runs,
                    Found-wider k (λ i. rank (a i)) first last first middle o (omega arith)
                        (omega arith) (λ m p q w e. absurd (above_middle m middle w p q lt e))
                        found,
                  )
              | inr not_less ↦ elim (Bool-cases (positive (compare key (a middle)))) [
                | inl more ↦
                    let gt : rank (a middle) < k = ground (arith, more, c.above (a middle)) in
                    let (o, runs, found) =
                      search_loop-Found n (middle + 1) last (omega arith) (omega arith) sorted in
                    (
                      o,
                      rw (some_left, not_less, more) runs,
                      Found-wider k (λ i. rank (a i)) first last (middle + 1) last o (omega arith)
                          (omega arith)
                          (λ m p q w e. absurd (below_middle m middle w q gt e (omega arith)))
                          found,
                    )
                | inr not_more ↦ (
                  some middle,
                  rw (some_left, not_less, not_more) refl,
                  at middle (omega arith) (omega arith)
                      (ground (arith, not_less, not_more, c.below (a middle), c.above (a middle))),
                )
              ]
            ]
      ]
    where
      above_middle :
          (m middle : ℕ)
          → (m < first) ⊎ (middle ≤ m)
          → first ≤ m
          → m < last
          → k < rank (a middle)
          → rank (a m) ≡ k
          → ⊥
      above_middle m middle (inl w) p q lt e = omega arith
      above_middle m middle (inr w) p q lt e = omega (arith, sorted middle m w q)

      below_middle :
          (m middle : ℕ)
          → (m < middle + 1) ⊎ (last ≤ m)
          → m < last
          → rank (a middle) < k
          → rank (a m) ≡ k
          → middle < last
          → ⊥
      below_middle m middle (inl w) q gt e l = omega (arith, sorted m middle (omega arith) l)
      below_middle m middle (inr w) q gt e l = omega arith

  -- In an array of `cnt` elements in the order of their ranks, with a comparison of the key that goes
  -- by the ranks, the loop of `binary_search` ends within `cnt + 1` tests of its condition, and gives
  -- an index below `cnt` whose element has the rank of the key, or NULL if there is none.
  pub binary_search-Found :
      (cnt : ℕ)
      → ((p q : ℕ) → p ≤ q → q < cnt → rank (a p) ≤ rank (a q))
      → (o : Option ℕ) × (binary_search compare key cnt a ≡ some o)
        × Found k (λ i. rank (a i)) 0 cnt o
  unfolding binary_search Ends
  binary_search-Found cnt sorted =
      search_loop-Found (cnt + 1) 0 cnt (omega arith) (omega arith) sorted

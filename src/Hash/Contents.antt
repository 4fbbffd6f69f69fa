-- ===== src/Hash/Contents.antt =====
-- What insertion, replacement and deletion do to the set of the elements of a table.
use os_pint_os_project.Base.{
  ℕ, Bool, true, false, not, ◌&&◌, ◌||◌, Option, none, some, ◌==◌, ◌≡◌, inl, inr, arith, refl, sym,
  ◌∙◌, ap, Bool-cases, ==_refl,
}
use os_pint_os_project.Hash.{
  Hash, bucket_idx, find_bucket, find_elem, insert_elem, remove_elem, rehash, hash_find,
  hash_insert, hash_replace, hash_delete,
}
use os_pint_os_project.Hash.Invariant.{Keyed, bucket_idx-key, Valid, member}
use os_pint_os_project.Hash.Rehash.{rehash-Valid}
use os_pint_os_project.Hash.Table.{
  Finds, found, absent, is, hash_find-Finds, inserted-Valid, inserted-member, removed-Valid,
  removed-member,
}

abbrev pub is_none : Option ℕ → Bool
is_none none = true
is_none (some x) = false

module _ (hash : ℕ → ℕ) (less : ℕ → ℕ → Bool) (key : ℕ → ℕ) (k : Keyed hash less key)
    (has_memory : Bool) (h : Hash) (v : Valid hash key h) (e : ℕ) where
  -- The element that the operations look up first.
  old_of : Option ℕ
  old_of = find_elem less (h.buckets (find_bucket hash h e)) e

  old_of-Finds : Finds hash key h e old_of
  unfolding old_of hash_find
  old_of-Finds = hash_find-Finds hash less key k h v e

  -- Both after a change that keeps the invariant.
  rehashed :
      (h1 : Hash) (m : ℕ → Bool)
      → Valid hash key h1
      → ((x : ℕ) → member hash h1 x ≡ m x)
      → Valid hash key (rehash hash has_memory h1)
        × ((x : ℕ) → member hash (rehash hash has_memory h1) x ≡ m x)
  rehashed h1 m w s =
      let (w', s') = rehash-Valid hash less key k h1 w has_memory in (w', λ x. s' x ∙ s x)

  -- In a table in order `hash_insert` returns the element with the new element's key, or NULL if there
  -- is none; then, and only then, the new element is one more element of the table. The table is in
  -- order again, whether or not memory for a new number of buckets was there.
  pub hash_insert-member :
      (old : Option ℕ) × (h' : Hash) × (hash_insert hash less has_memory h e ≡ (old, h'))
      × Finds hash key h e old
      × Valid hash key h'
      × ((x : ℕ) → member hash h' x ≡ (member hash h x || (is_none old && x == e)))
  unfolding hash_insert old_of
  hash_insert-member = go old_of refl old_of-Finds
    where
      go :
          (o : Option ℕ)
          → old_of ≡ o
          → Finds hash key h e o
          → (old : Option ℕ) × (h' : Hash) × (hash_insert hash less has_memory h e ≡ (old, h'))
            × Finds hash key h e old
            × Valid hash key h'
            × ((x : ℕ) → member hash h' x ≡ (member hash h x || (is_none old && x == e)))
      go (some y) q f =
          let (w, s) =
            rehashed h (λ x. member hash h x || (false && x == e)) v (λ x. ground arith) in
          (some y, rehash hash has_memory h, rw q refl, f, w, s)
      go none q (absent out) =
          let h1 = insert_elem h (find_bucket hash h e) e in
          let (w, s) =
            rehashed h1 (λ x. member hash h x || (true && x == e))
              (inserted-Valid hash less key k h v e out)
              (λ x. inserted-member hash less key k h v e x ∙ ground arith) in
          (none, rehash hash has_memory h1, rw q refl, absent out, w, s)

  -- In a table in order `hash_delete` takes the element with the key of `e` out and returns it, or
  -- returns NULL and changes nothing if there is none. The table is in order again.
  pub hash_delete-member :
      (old : Option ℕ) × (h' : Hash) × (hash_delete hash less has_memory h e ≡ (old, h'))
      × Finds hash key h e old
      × Valid hash key h'
      × ((x : ℕ) → member hash h' x ≡ (member hash h x && not (is old x)))
  unfolding hash_delete old_of
  hash_delete-member = go old_of refl old_of-Finds
    where
      go :
          (o : Option ℕ)
          → old_of ≡ o
          → Finds hash key h e o
          → (old : Option ℕ) × (h' : Hash) × (hash_delete hash less has_memory h e ≡ (old, h'))
            × Finds hash key h e old
            × Valid hash key h'
            × ((x : ℕ) → member hash h' x ≡ (member hash h x && not (is old x)))
      go none q f = (none, h, rw q refl, f, v, λ x. ground arith)
      go (some y) q (found _ m s) =
          let (w, t) =
            rehashed (remove_elem h y) (λ x. member hash h x && not (y == x))
              (removed-Valid hash less key k h v y m) (removed-member hash less key k h v y) in
          (some y, rehash hash has_memory (remove_elem h y), rw q refl, found y m s, w, t)

  -- No other element has the key of the one that is taken out.
  gone :
      (x y : ℕ)
      → key x ≡ key e
      → key y ≡ key e
      → member hash h y ≡ true
      → (member hash h x && not (y == x)) ≡ false
  gone x y r s m = elim (Bool-cases (member hash h x)) [
    | inr out ↦ rw out refl
    | inl inside ↦
        let q = bucket_idx-key hash less key k h.bucket_cnt x y (r ∙ sym s) in
        let same : x ≡ y =
          v.keys (bucket_idx hash h.bucket_cnt y) x y (rw (← q) inside) m (r ∙ sym s) in
        rw (inside, same, ==_refl y) refl
  ]

  -- In a table in order `hash_replace` puts the element in the place of the one with its key, which it
  -- returns, or adds it and returns NULL if there is none. The table is in order again.
  pub hash_replace-member :
      (old : Option ℕ) × (h' : Hash) × (hash_replace hash less has_memory h e ≡ (old, h'))
      × Finds hash key h e old
      × Valid hash key h'
      × ((x : ℕ) → member hash h' x ≡ ((x == e) || (member hash h x && not (is old x))))
  unfolding hash_replace old_of remove_elem find_bucket
  hash_replace-member = go old_of refl old_of-Finds
    where
      go :
          (o : Option ℕ)
          → old_of ≡ o
          → Finds hash key h e o
          → (old : Option ℕ) × (h' : Hash) × (hash_replace hash less has_memory h e ≡ (old, h'))
            × Finds hash key h e old
            × Valid hash key h'
            × ((x : ℕ) → member hash h' x ≡ ((x == e) || (member hash h x && not (is old x))))
      go none q (absent out) =
          let h1 = insert_elem h (find_bucket hash h e) e in
          let (w, s) =
            rehashed h1 (λ x. (x == e) || (member hash h x && not false))
              (inserted-Valid hash less key k h v e out)
              (λ x. inserted-member hash less key k h v e x ∙ ground arith) in
          (none, rehash hash has_memory h1, rw q refl, absent out, w, s)
      go (some y) q (found _ m s) =
          let h1 = remove_elem h y in
          let v1 = removed-Valid hash less key k h v y m in
          let s1 = removed-member hash less key k h v y in
          let h2 = insert_elem h1 (find_bucket hash h1 e) e in
          let (w, t) =
            rehashed h2 (λ x. (x == e) || (member hash h x && not (y == x)))
              (inserted-Valid hash less key k h1 v1 e (λ x r. s1 x ∙ gone x y r s m))
              (λ x. inserted-member hash less key k h1 v1 e x ∙ ap (λ b. (x == e) || b) (s1 x)) in
          (some y, rehash hash has_memory h2, rw q refl, found y m s, w, t)

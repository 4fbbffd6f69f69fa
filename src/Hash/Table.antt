-- ===== src/Hash/Table.antt =====
-- The operations of a table against the set of its elements.
use os_pint_os_project.Base.{
  ℕ, zero, suc, ◌+◌, Bool, true, false, not, ◌&&◌, ◌||◌, Option, none, some, List, [], ◌∷◌, length,
  ltb, ◌==◌, if◌then◌else◌, ◌≡◌, ◌≢◌, inl, inr, arith, refl, sym, ◌∙◌, ap, Bool-cases,
}
use os_pint_os_project.Base.Members.{has}
use os_pint_os_project.Sequence.{remove}
use os_pint_os_project.Sequence.Remove.{has-remove, Nodup-remove}
use os_pint_os_project.Hash.{
  Hash, bucket_idx, find_bucket, find_elem, insert_elem, remove_elem, hash_find,
}
use os_pint_os_project.Hash.Invariant.{
  Keyed, bucket_idx-key, Valid, member, total, power_pos, bucket_idx-lt, total-update,
}

length-remove :
    (e : ℕ) (es : List ℕ) → length (remove e es) + (if has e es then 1 else 0) ≡ length es
unfolding remove
length-remove e [] = refl
length-remove e (y ∷ es) = ground (arith, length-remove e es)

-- An element that stands in bucket `p` only leaves one element fewer.
total-remove :
    (n p e : ℕ) (b : ℕ → List ℕ)
    → has e (b p) ≡ true
    → ((i : ℕ) → has e (b i) ≡ true → p ≡ i)
    → total n (λ i. remove e (b i)) + (if ltb p n then 1 else 0) ≡ total n b
total-remove zero p e b m only = ground arith
total-remove (suc n) p e b m only = elim (Bool-cases (p == n)) [
  | inl here ↦
      let q : p ≡ n = ground (arith, here) in
      let m' : has e (b n) ≡ true = rw (← q) m in
      ground (arith, q, m', length-remove e (b n), total-remove n p e b m only)
  | inr other ↦ ground (arith, other, only n, length-remove e (b n), total-remove n p e b m only)
]

-- Whether the result of a search is this element.
abbrev pub is : Option ℕ → ℕ → Bool
is none x = false
is (some y) x = y == x

-- What a search for the key of `e` gives: the element with the key, or NULL if there is none.
pub data Finds (hash key : ℕ → ℕ) (h : Hash) (e : ℕ) : Option ℕ → Type 0 where
  found : (x : ℕ) → member hash h x ≡ true → key x ≡ key e → Finds hash key h e (some x)
  absent : ((x : ℕ) → key x ≡ key e → member hash h x ≡ false) → Finds hash key h e none

module _ (hash : ℕ → ℕ) (less : ℕ → ℕ → Bool) (key : ℕ → ℕ) (k : Keyed hash less key) where
  data InBucket (e : ℕ) (es : List ℕ) : Option ℕ → Type 0 where
    there : (x : ℕ) → has x es ≡ true → key x ≡ key e → InBucket e es (some x)
    nowhere : ((x : ℕ) → has x es ≡ true → key x ≢ key e) → InBucket e es none

  InBucket-cons :
      (y e : ℕ) (es : List ℕ) (o : Option ℕ)
      → key y ≢ key e
      → InBucket e es o
      → InBucket e (y ∷ es) o
  InBucket-cons y e es _ ne (there x m q) = there x (ground (arith, m)) q
  InBucket-cons y e es _ ne (nowhere n) = nowhere (λ x m. go x m)
    where
      go : (x : ℕ) → has x (y ∷ es) ≡ true → key x ≢ key e
      go x m = elim (Bool-cases (y == x)) [
        | inl is ↦ let q : y ≡ x = ground (arith, is) in λ r. ne (ap key q ∙ r)
        | inr other ↦ n x (ground (arith, m, other))
      ]

  find_elem-InBucket : (es : List ℕ) (e : ℕ) → InBucket e es (find_elem less es e)
  unfolding find_elem
  find_elem-InBucket [] e = nowhere (λ x m. cc)
  find_elem-InBucket (y ∷ es) e = elim (Bool-cases (not (less y e) && not (less e y))) [
    | inl equal ↦
        rw equal (there y (ground arith) (ground (arith, equal, k.by_key y e, k.by_key e y)))
    | inr differ ↦ rw differ (
        InBucket-cons y e es (find_elem less es e)
          (λ q. ground (arith, q, differ, k.by_key y e, k.by_key e y)) (find_elem-InBucket es e))
  ]

  module _ (h : Hash) (v : Valid hash key h) where
    Finds-bucket :
        (e : ℕ) (o : Option ℕ)
        → InBucket e (h.buckets (bucket_idx hash h.bucket_cnt e)) o
        → Finds hash key h e o
    Finds-bucket e _ (there x m q) =
        found x (rw (bucket_idx-key hash less key k h.bucket_cnt x e q) m) q
    Finds-bucket e _ (nowhere n) = absent (λ x q. elim (Bool-cases (member hash h x)) [
      | inl m ↦ absurd (n x (rw (← bucket_idx-key hash less key k h.bucket_cnt x e q) m) q)
      | inr m ↦ m
    ])

    -- `hash_find` gives the element of the table with the key of `e`, or NULL if there is none.
    pub hash_find-Finds : (e : ℕ) → Finds hash key h e (hash_find hash less h e)
    unfolding hash_find find_bucket
    hash_find-Finds e = Finds-bucket e _ (find_elem-InBucket _ e)

    -- A new element with a new key.
    pub inserted-Valid :
        (e : ℕ)
        → ((x : ℕ) → key x ≡ key e → member hash h x ≡ false)
        → Valid hash key (insert_elem h (find_bucket hash h e) e)
    unfolding insert_elem find_bucket
    inserted-Valid e out =
        let i = bucket_idx hash h.bucket_cnt e in
        let l = bucket_idx-lt hash h.bucket_cnt e (power_pos h.bucket_cnt v.power) in
        record {
          power = v.power;
          placed = λ j x m. ground (arith, m, v.placed j x);
          once = λ j. elim (Bool-cases (i == j)) [
            | inl here ↦ rw here (out e refl, v.once i)
            | inr other ↦ rw other (v.once j)
          ];
          keys = λ j a b m n q. ground (
            arith,
            m,
            n,
            q,
            v.keys j a b,
            v.keys i a b,
            out a,
            out b,
            v.placed i a,
            v.placed i b,
            v.placed j a,
            v.placed j b,
            sym q,
          );
          counted =
              omega (arith, total-update h.bucket_cnt i h.buckets (e ∷ h.buckets i) l, v.counted);
        }

    pub inserted-member :
        (e x : ℕ)
        → member hash (insert_elem h (find_bucket hash h e) e) x ≡ ((x == e) || member hash h x)
    unfolding insert_elem find_bucket
    inserted-member e x = ground arith

    pub removed-Valid : (e : ℕ) → member hash h e ≡ true → Valid hash key (remove_elem h e)
    unfolding remove_elem
    removed-Valid e m =
        let i = bucket_idx hash h.bucket_cnt e in
        let l = bucket_idx-lt hash h.bucket_cnt e (power_pos h.bucket_cnt v.power) in
        record {
          power = v.power;
          placed = λ j x g. v.placed j x (was j x g);
          once = λ j. Nodup-remove e (h.buckets j) (v.once j);
          keys = λ j a b g f q. v.keys j a b (was j a g) (was j b f) q;
          counted = ground (
            arith,
            l,
            total-remove h.bucket_cnt i e h.buckets m (λ j g. v.placed j e g),
            v.counted,
          );
        }
      where
        was : (j x : ℕ) → has x (remove e (h.buckets j)) ≡ true → has x (h.buckets j) ≡ true
        was j x g = ground (arith, g, has-remove e x (h.buckets j) (v.once j))

    pub removed-member :
        (e x : ℕ) → member hash (remove_elem h e) x ≡ (member hash h x && not (e == x))
    unfolding remove_elem
    removed-member e x =
        has-remove e x (h.buckets (bucket_idx hash h.bucket_cnt x))
          (v.once (bucket_idx hash h.bucket_cnt x))

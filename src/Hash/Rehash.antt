-- ===== src/Hash/Rehash.antt =====
-- Moving every element to its bucket among a new number of buckets.
use os_pint_os_project.Base.{
  ℕ, zero, suc, ◌+◌, ◌<◌, Bool, true, false, not, ◌&&◌, ◌||◌, List, [], ◌∷◌, length, ltb, leb, ◌==◌,
  update, ◌≡◌, inl, inr, arith, refl, sym, ◌∙◌, ap, Bool-cases,
}
use os_pint_os_project.Base.Members.{has, Nodup}
use os_pint_os_project.Hash.{
  Hash, is_power_of_2, new_bucket_cnt, bucket_idx, move_bucket, move_loop, rehash, empty_buckets,
}
use os_pint_os_project.Hash.Invariant.{
  Keyed, bucket_idx-key, Valid, member, total, power_pos, bucket_idx-lt, new_bucket_cnt-power,
  total-update, total_empty,
}

has-other : (e x : ℕ) (es : List ℕ) → has e es ≡ false → has x es ≡ true → (e == x) ≡ false
has-other e x es out m = elim (Bool-cases (e == x)) [
  | inl is ↦
      let q : e ≡ x = ground (arith, is) in
      cc (let f : true ≡ false = sym m ∙ ap (λ z. has z es) (sym q) ∙ out in f)
  | inr other ↦ other
]

has_move_step :
    (x e j : ℕ) (f : ℕ → ℕ) (fresh : ℕ → List ℕ) (es : List ℕ)
    → (has x (update fresh (f e) (e ∷ fresh (f e)) j) || (has x es && f x == j))
      ≡ (has x (fresh j) || (has x (e ∷ es) && f x == j))
has_move_step x e j f fresh es = ground arith

module _ (hash : ℕ → ℕ) (cnt : ℕ) where
  has-move_bucket :
      (es : List ℕ) (fresh : ℕ → List ℕ) (x j : ℕ)
      → has x (move_bucket hash cnt es fresh j)
        ≡ (has x (fresh j) || (has x es && bucket_idx hash cnt x == j))
  unfolding move_bucket
  has-move_bucket [] fresh x j = ground arith
  has-move_bucket (e ∷ es) fresh x j =
      has-move_bucket es _ x j ∙ has_move_step x e j (bucket_idx hash cnt) fresh es

  total-move_bucket :
      (es : List ℕ) (fresh : ℕ → List ℕ)
      → 0 < cnt
      → total cnt (move_bucket hash cnt es fresh) ≡ total cnt fresh + length es
  unfolding move_bucket
  total-move_bucket [] fresh h = omega arith
  total-move_bucket (e ∷ es) fresh h =
      let i = bucket_idx hash cnt e in
      omega (
        arith,
        total-move_bucket es (update fresh i (e ∷ fresh i)) h,
        total-update cnt i fresh (e ∷ fresh i) (bucket_idx-lt hash cnt e h),
      )

  Nodup-move_bucket :
      (es : List ℕ) (fresh : ℕ → List ℕ)
      → Nodup es
      → ((j : ℕ) → Nodup (fresh j))
      → ((x j : ℕ) → has x es ≡ true → has x (fresh j) ≡ false)
      → (j : ℕ) → Nodup (move_bucket hash cnt es fresh j)
  unfolding move_bucket
  Nodup-move_bucket [] fresh n f d j = f j
  Nodup-move_bucket (e ∷ es) fresh n f d j =
      let i = bucket_idx hash cnt e in
      Nodup-move_bucket es (update fresh i (e ∷ fresh i)) n.1
        (λ k. elim (Bool-cases (i == k)) [
          | inl here ↦ rw here (d e i (ground arith), f i)
          | inr there ↦ rw there (f k)
        ])
        (λ x k m. apart e x i k es (d x k) (d x i) n.0 m) j
    where
      apart :
          (e x i k : ℕ) (es : List ℕ)
          → (has x (e ∷ es) ≡ true → has x (fresh k) ≡ false)
          → (has x (e ∷ es) ≡ true → has x (fresh i) ≡ false)
          → has e es ≡ false
          → has x es ≡ true
          → has x (update fresh i (e ∷ fresh i) k) ≡ false
      apart e x i k es dk di out m = ground (arith, dk, di, has-other e x es out m)

-- Whether an element stands in one of `n` buckets from `i` on, and how many stand there.
some_has : ℕ → ℕ → (ℕ → List ℕ) → ℕ → Bool
some_has zero i old x = false
some_has (suc n) i old x = has x (old i) || some_has n (i + 1) old x

sum_from : ℕ → ℕ → (ℕ → List ℕ) → ℕ
sum_from zero i old = 0
sum_from (suc n) i old = length (old i) + sum_from n (i + 1) old

sum_from-total : (n i : ℕ) (old : ℕ → List ℕ) → sum_from n i old + total i old ≡ total (i + n) old
unfolding sum_from
sum_from-total zero i old =
    let e : i ≡ i + 0 = omega arith in omega (arith, ap (λ k. total k old) e)
sum_from-total (suc n) i old =
    let next : total (i + 1) old ≡ length (old i) + total i old =
      let e : i + 1 ≡ suc i = omega arith in ap (λ k. total k old) e in
    let e : i + 1 + n ≡ i + suc n = omega arith in
    omega (arith, sum_from-total n (i + 1) old, next, ap (λ k. total k old) e)

module _ (hash : ℕ → ℕ) (cnt : ℕ) (old : ℕ → List ℕ) where
  has-move_loop :
      (n i : ℕ) (fresh : ℕ → List ℕ) (x j : ℕ)
      → has x (move_loop hash cnt n i old fresh j)
        ≡ (has x (fresh j) || (some_has n i old x && bucket_idx hash cnt x == j))
  unfolding move_loop some_has
  has-move_loop zero i fresh x j = ground arith
  has-move_loop (suc n) i fresh x j = ground (
    arith,
    has-move_loop n (i + 1) (move_bucket hash cnt (old i) fresh) x j,
    has-move_bucket hash cnt (old i) fresh x j,
  )

  total-move_loop :
      (n i : ℕ) (fresh : ℕ → List ℕ)
      → 0 < cnt
      → total cnt (move_loop hash cnt n i old fresh) ≡ total cnt fresh + sum_from n i old
  unfolding move_loop sum_from
  total-move_loop zero i fresh h = omega arith
  total-move_loop (suc n) i fresh h = omega (
    arith,
    total-move_loop n (i + 1) (move_bucket hash cnt (old i) fresh) h,
    total-move_bucket hash cnt (old i) fresh h,
  )

  -- In the old buckets `place` says where an element stands.
  module _ (place : ℕ → ℕ) (placed : (i e : ℕ) → has e (old i) ≡ true → place e ≡ i)
      (once : (i : ℕ) → Nodup (old i)) where
    some_has-place :
        (n i x : ℕ)
        → some_has n i old x ≡ (has x (old (place x)) && (leb i (place x) && ltb (place x) (i + n)))
    unfolding some_has
    some_has-place zero i x = ground arith
    some_has-place (suc n) i x = elim (Bool-cases (place x == i)) [
      | inl here ↦
          let e : place x ≡ i = ground (arith, here) in
          rw e (ground (arith, some_has-place n (i + 1) x, e))
      | inr there ↦ ground (arith, some_has-place n (i + 1) x, placed i x, there)
    ]

    Nodup-move_loop :
        (n i : ℕ) (fresh : ℕ → List ℕ)
        → ((j : ℕ) → Nodup (fresh j))
        → ((x j : ℕ) → has x (fresh j) ≡ true → place x < i)
        → (j : ℕ) → Nodup (move_loop hash cnt n i old fresh j)
    unfolding move_loop
    Nodup-move_loop zero i fresh f d j = f j
    Nodup-move_loop (suc n) i fresh f d j =
        Nodup-move_loop n (i + 1) (move_bucket hash cnt (old i) fresh)
          (Nodup-move_bucket hash cnt (old i) fresh (once i) f
            (λ x k m. ground (arith, d x k, placed i x m)))
          (λ x k m.
            ground (arith, m, has-move_bucket hash cnt (old i) fresh x k, d x k, placed i x))
          j

module _ (hash : ℕ → ℕ) (less : ℕ → ℕ → Bool) (key : ℕ → ℕ) (k : Keyed hash less key) (h : Hash)
    (v : Valid hash key h) where
  moved : ℕ → ℕ → List ℕ
  moved cnt = move_loop hash cnt h.bucket_cnt 0 h.buckets empty_buckets

  -- Each element stands in its new bucket.
  has-moved : (cnt x j : ℕ) → has x (moved cnt j) ≡ (member hash h x && bucket_idx hash cnt x == j)
  unfolding moved
  has-moved cnt x j =
      let in_old = bucket_idx-lt hash h.bucket_cnt x (power_pos h.bucket_cnt v.power) in
      ground (
        arith,
        has-move_loop hash cnt h.buckets h.bucket_cnt 0 empty_buckets x j,
        some_has-place hash cnt h.buckets (bucket_idx hash h.bucket_cnt) v.placed v.once
            h.bucket_cnt 0 x,
        in_old,
      )

  module _ (cnt : ℕ) (power : is_power_of_2 cnt ≡ true) where
    table : Hash
    table = record { elem_cnt = h.elem_cnt; bucket_cnt = cnt; buckets = moved cnt }

    moved-placed : (i e : ℕ) → has e (moved cnt i) ≡ true → bucket_idx hash cnt e ≡ i
    moved-placed i e m = ground (arith, m, has-moved cnt e i)

    was_member : (i e : ℕ) → has e (moved cnt i) ≡ true → member hash h e ≡ true
    was_member i e m = ground (arith, m, has-moved cnt e i)

    moved-keys :
        (i a b : ℕ)
        → has a (moved cnt i) ≡ true
        → has b (moved cnt i) ≡ true
        → key a ≡ key b
        → a ≡ b
    moved-keys i a b m n e =
        let same = bucket_idx-key hash less key k h.bucket_cnt a b e in
        v.keys (bucket_idx hash h.bucket_cnt a) a b (was_member i a m) (rw same (was_member i b n))
          e

    moved-Valid : Valid hash key table
    unfolding table moved
    moved-Valid = record {
      power = power;
      placed = moved-placed;
      once = moved-Nodup;
      keys = moved-keys;
      counted = moved-total;
    }
      where
        moved-Nodup : (j : ℕ) → Nodup (moved cnt j)
        moved-Nodup j =
            Nodup-move_loop hash cnt h.buckets (bucket_idx hash h.bucket_cnt) v.placed v.once
              h.bucket_cnt 0 empty_buckets (λ i. tt) (λ x i m. cc) j

        moved-total : total cnt (moved cnt) ≡ h.elem_cnt
        moved-total =
            let e : 0 + h.bucket_cnt ≡ h.bucket_cnt = omega arith in
            omega (
              arith,
              total-move_loop hash cnt h.buckets h.bucket_cnt 0 empty_buckets (power_pos cnt power),
              total_empty cnt,
              sum_from-total h.bucket_cnt 0 h.buckets,
              ap (λ n. total n h.buckets) e,
              v.counted,
            )

    moved-member : (x : ℕ) → member hash table x ≡ member hash h x
    unfolding table
    moved-member x = ground (arith, has-moved cnt x (bucket_idx hash cnt x))

  -- rehash keeps the invariant and the elements.
  pub rehash-Valid :
      (has_memory : Bool)
      → Valid hash key (rehash hash has_memory h)
        × ((x : ℕ) → member hash (rehash hash has_memory h) x ≡ member hash h x)
  unfolding rehash table moved
  rehash-Valid has_memory =
      let cnt = new_bucket_cnt h.elem_cnt in
      elim (Bool-cases (cnt == h.bucket_cnt || not has_memory)) [
        | inl stays ↦ rw stays (v, λ x. refl)
        | inr grows ↦
            let power = new_bucket_cnt-power h.elem_cnt in
            rw grows (moved-Valid cnt power, moved-member cnt power)
      ]

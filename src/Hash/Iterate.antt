-- ===== src/Hash/Iterate.antt =====
-- The iteration over a table.
use os_pint_os_project.Base.{
  ℕ, zero, suc, ◌+◌, ◌-◌, ◌<◌, ◌≤◌, Option, none, some, List, [], ◌∷◌, ◌++◌, length, ltb, ◌≡◌, inl,
  inr, arith, refl, subst, ap, Bool-cases,
}
use os_pint_os_project.Hash.{
  Hash, HashIterator, clear_loop, hash_apply, hash_first, hash_next, hash_cur, next_loop,
}

abbrev pub met : Option ℕ → List ℕ → List ℕ
met none rest = []
met (some e) rest = e ∷ rest

-- `while (hash_next (&i)) ... hash_cur (&i)`, for `n` rounds: the elements met.
unfoldable pub collect : ℕ → HashIterator → Hash → List ℕ
collect zero i h = []
collect (suc n) i h = let i' = hash_next i h in let rest = collect n i' h in met (hash_cur i') rest

-- The elements behind a place in a bucket.
abbrev left : Hash → (bucket : ℕ) → List ℕ → List ℕ
left h bucket es = es ++ clear_loop (h.bucket_cnt - bucket - 1) (bucket + 1) h.buckets

-- A step over the elements that are left.
data Stepped (h : Hash) (i : HashIterator) : List ℕ → Type 0 where
  over : i.elem ≡ none → Stepped h i []
  on :
      (e : ℕ) (r : List ℕ)
      → i.elem ≡ some e
      → i.bucket < h.bucket_cnt
      → left h i.bucket i.behind ≡ r
      → Stepped h i (e ∷ r)

next_loop-Stepped :
    (h : Hash) (n bucket : ℕ) (es : List ℕ)
    → bucket < h.bucket_cnt
    → h.bucket_cnt ≤ bucket + 1 + n
    → Stepped h (next_loop n bucket es h) (left h bucket es)
unfolding next_loop clear_loop
next_loop-Stepped h n bucket (e ∷ es) p q = on e (left h bucket es) refl p refl
next_loop-Stepped h zero bucket [] p q =
    let ends : h.bucket_cnt - bucket - 1 ≡ 0 = omega arith in rw ends (over refl)
next_loop-Stepped h (suc n) bucket [] p q = elim (Bool-cases (ltb (bucket + 1) h.bucket_cnt)) [
  | inl more ↦
      let l : bucket + 1 < h.bucket_cnt = ground (arith, more) in
      let first : h.bucket_cnt - bucket - 1 ≡ suc (h.bucket_cnt - (bucket + 1) - 1) = omega arith in
      rw (more, first) (next_loop-Stepped h n (bucket + 1) (h.buckets (bucket + 1)) l (omega arith))
  | inr last ↦
      let ends : h.bucket_cnt - bucket - 1 ≡ 0 = ground (arith, last) in rw (last, ends) (over refl)
]

collect-left :
    (h : Hash) (n : ℕ) (i : HashIterator) (rest : List ℕ)
    → i.bucket < h.bucket_cnt
    → left h i.bucket i.behind ≡ rest
    → length rest < n
    → collect n i h ≡ rest
unfolding collect hash_next hash_cur
collect-left h zero i rest p e f = absurd (omega arith)
collect-left h (suc n) i rest p e f =
    go rest
      (subst (Stepped h (next_loop h.bucket_cnt i.bucket i.behind h)) e
        (next_loop-Stepped h h.bucket_cnt i.bucket i.behind p (omega arith)))
      f (collect-left h n)
  where
    go :
        (rest : List ℕ)
        → Stepped h (next_loop h.bucket_cnt i.bucket i.behind h) rest
        → length rest < suc n
        → ((i' : HashIterator) (r : List ℕ)
            → i'.bucket < h.bucket_cnt
            → left h i'.bucket i'.behind ≡ r
            → length r < n
            → collect n i' h ≡ r)
        → collect (suc n) i h ≡ rest
    go _ (over e) f ih = rw e refl
    go _ (on x r e l s) f ih = rw e (ap (λ zs. x ∷ zs) (ih _ r l s (omega arith)))

-- In a table with a bucket, going through it by `hash_first`, `hash_next` and `hash_cur` meets the
-- elements that `hash_apply` passes to its action, in the same order, and then ends.
pub collect-apply :
    (h : Hash) (n : ℕ)
    → 0 < h.bucket_cnt
    → length (hash_apply h) < n
    → collect n (hash_first h) h ≡ hash_apply h
unfolding hash_first hash_apply clear_loop
collect-apply h n p f =
    let all : left h 0 (h.buckets 0) ≡ clear_loop h.bucket_cnt 0 h.buckets =
      from_first h.bucket_cnt p in
    collect-left h n _ _ p all f
  where
    from_first :
        (m : ℕ)
        → 0 < m
        → h.buckets 0 ++ clear_loop (m - 0 - 1) (0 + 1) h.buckets ≡ clear_loop m 0 h.buckets
    from_first zero q = absurd (omega arith)
    from_first (suc m) q =
        let e : suc m - 0 - 1 ≡ m = omega arith in
        ap (λ k. h.buckets 0 ++ clear_loop k 1 h.buckets) e

-- ===== src/Random/Permutation.antt =====
-- The array of the generator is a permutation of the bytes.
use os_pint_os_project.Base.{
  ℕ, zero, suc, ◌+◌, ◌%◌, ◌<◌, ◌≤◌, Bool, true, false, if◌then◌else◌, update, ◌≡◌, ◌⊎◌, inl, inr,
  arith, refl, sym, ◌∙◌,
}
use os_pint_os_project.Random.{
  Random, swap_byte, fill_loop, seed_loop, random_init, random_byte, bytes_loop, random_bytes,
}

-- Every byte stands at one of the 256 places, and at one only.
pub record Permuted (s : ℕ → ℕ) : Type 0 where
  pub byte : (a : ℕ) → a < 256 → s a < 256
  pub once : (a b : ℕ) → a < 256 → b < 256 → s a ≡ s b → a ≡ b

swap_byte-Permuted :
    (a b : ℕ) (s : ℕ → ℕ) → a < 256 → b < 256 → Permuted s → Permuted (swap_byte a b s)
unfolding swap_byte
swap_byte-Permuted a b s p q v = record {
  byte = λ c l. ground (arith, v.byte c l, v.byte a p, v.byte b q);
  once = λ c d l m e.
      ground
        (arith, e, v.once c d l m, v.once a d p m, v.once b d q m, v.once c a l p, v.once c b l q);
}

fill_loop-id :
    (n i : ℕ) (s : ℕ → ℕ)
    → ((a : ℕ) → a < i → s a ≡ a)
    → (a : ℕ) → a < i + n
    → fill_loop n i s a ≡ a
unfolding fill_loop
fill_loop-id zero i s h a l = h a (omega arith)
fill_loop-id (suc n) i s h a l =
    fill_loop-id n (i + 1) (update s i i) (λ b g. ground (arith, h b)) a (omega arith)

seed_loop-Permuted :
    (n i j seed : ℕ) (s : ℕ → ℕ) → i + n ≤ 256 → Permuted s → Permuted (seed_loop n i j seed s)
unfolding seed_loop
seed_loop-Permuted zero i j seed s h v = v
seed_loop-Permuted (suc n) i j seed s h v =
    seed_loop-Permuted n (i + 1) _ seed _ (omega arith)
      (swap_byte-Permuted i _ s (omega arith) (omega arith) v)

-- From any state and for any seed `random_init` leaves a permutation of the 256 bytes.
pub random_init-Permuted : (seed : ℕ) (r : Random) → Permuted (random_init seed r).s
unfolding random_init
random_init-Permuted seed r =
    seed_loop-Permuted 256 0 0 seed (fill_loop 256 0 r.s) (omega arith) (record {
      byte = λ a l. ground (arith, fill_loop-id 256 0 r.s (λ b g. absurd (omega arith)) a l);
      once = λ a b l m e. ground (
        arith,
        e,
        fill_loop-id 256 0 r.s (λ c g. absurd (omega arith)) a l,
        fill_loop-id 256 0 r.s (λ c g. absurd (omega arith)) b m,
      );
    })

random_byte-Permuted :
    (r : Random) → Permuted r.s → ((random_byte r).0 < 256) × Permuted (random_byte r).1.s
unfolding random_byte
random_byte-Permuted r v =
    let i = (r.s_i + 1) % 256 in
    let j = (r.s_j + r.s i) % 256 in
    let v' = swap_byte-Permuted i j r.s (omega arith) (omega arith) v in
    (v'.byte _ (omega arith), v')

-- What `size` bytes written at `buf` leave: bytes there, and the rest of the memory.
pub record Filled (buf size : ℕ) (m m' : ℕ → ℕ) : Type 0 where
  pub inside : (j : ℕ) → buf ≤ j → j < buf + size → m' j < 256
  pub outside : (j : ℕ) → (j < buf) ⊎ (buf + size ≤ j) → m' j ≡ m j

bytes_loop-Filled :
    (size buf : ℕ) (m : ℕ → ℕ) (r : Random)
    → Permuted r.s
    → Filled buf size m (bytes_loop size buf m r).0 × Permuted (bytes_loop size buf m r).1.s
unfolding bytes_loop
bytes_loop-Filled zero buf m r v =
    (record { inside = λ j p q. absurd (omega arith); outside = λ j p. refl }, v)
bytes_loop-Filled (suc size) buf m r v =
    let (small, v') = random_byte-Permuted r v in
    let m1 = update m buf (random_byte r).0 in
    let (f, w) = bytes_loop-Filled size (buf + 1) m1 (random_byte r).1 v' in
    (
      record {
        inside = λ j p q. ground (arith, small, f.inside j, f.outside j);
        outside = λ j p. ground (arith, p, f.outside j);
      },
      w,
    )

-- Whether the generator still has to be initialized or its array is a permutation of the bytes,
-- `random_bytes` writes `size` bytes below 256 at the buffer and no other, and the array is a
-- permutation afterwards.
pub random_bytes-Filled :
    (buf size : ℕ) (m : ℕ → ℕ) (r : Random)
    → (r.inited ≡ false) ⊎ Permuted r.s
    → Filled buf size m (random_bytes buf size m r).0 × Permuted (random_bytes buf size m r).1.s
unfolding random_bytes
random_bytes-Filled buf size m r ready =
    bytes_loop-Filled size buf m _ (started r.inited refl ready)
  where
    started :
        (b : Bool)
        → r.inited ≡ b
        → (r.inited ≡ false) ⊎ Permuted r.s
        → Permuted (if b then r else random_init 0 r).s
    started false e h = random_init-Permuted 0 r
    started true e (inl n) = absurd (cc (let f : true ≡ false = sym e ∙ n in f))
    started true e (inr v) = v

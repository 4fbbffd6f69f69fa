-- ===== src/Strings/Compare.antt =====
-- The comparison of blocks and of strings.
use os_pint_os_project.Base.{
  ℕ, zero, suc, ◌+◌, ◌<◌, some, ℤ, pos, negsuc, ◌≡◌, ◌≢◌, arith, inl, inr, ==_refl, ne→==, lt→ltb,
  le→ltb, compare_cases,
}
use os_pint_os_project.Strings.{Memory, null, memcmp, memcmp_loop}

-- What a comparison of the `size` bytes at `a` and `b` says: they agree, or the first that differ
-- are in this order.
pub data Compared (m : Memory) (a b size : ℕ) : ℤ → Type 0 where
  same : ((i : ℕ) → i < size → m (a + i) ≡ m (b + i)) → Compared m a b size (pos 0)
  above :
      (i : ℕ)
      → i < size
      → ((j : ℕ) → j < i → m (a + j) ≡ m (b + j))
      → m (b + i) < m (a + i)
      → Compared m a b size (pos 1)
  below :
      (i : ℕ)
      → i < size
      → ((j : ℕ) → j < i → m (a + j) ≡ m (b + j))
      → m (a + i) < m (b + i)
      → Compared m a b size (negsuc 0)

-- Equal bytes put in front.
agree :
    (m : Memory) (a b i : ℕ)
    → m a ≡ m b
    → ((j : ℕ) → j < i → m (a + 1 + j) ≡ m (b + 1 + j))
    → (j : ℕ) → j < suc i
    → m (a + j) ≡ m (b + j)
agree m a b i e h zero l = ground (arith, e)
agree m a b i e h (suc j) l = ground (arith, h j)

Compared-step :
    (m : Memory) (a b size : ℕ)
    → m a ≡ m b
    → (z : ℤ) → Compared m (a + 1) (b + 1) size z
    → Compared m a b (suc size) z
Compared-step m a b size e z (same h) = same (agree m a b size e h)
Compared-step m a b size e z (above i l h g) =
    above (suc i) (omega arith) (agree m a b i e h) (ground (arith, g))
Compared-step m a b size e z (below i l h g) =
    below (suc i) (omega arith) (agree m a b i e h) (ground (arith, g))

memcmp_loop-Compared : (size a b : ℕ) (m : Memory) → Compared m a b size (memcmp_loop size a b m)
unfolding memcmp_loop
memcmp_loop-Compared zero a b m = same (λ i l. absurd (omega arith))
memcmp_loop-Compared (suc size) a b m = elim (compare_cases (m a) (m b)) [
  | inl lt ↦
      rw (ne→== (m a) (m b) (omega arith), le→ltb (m b) (m a) (omega arith))
        (below 0 (omega arith) (λ j l. absurd (omega arith)) (ground (arith, lt)))
  | inr (inl e) ↦
      rw (e, ==_refl (m b))
        (Compared-step m a b size e (memcmp_loop size (a + 1) (b + 1) m)
          (memcmp_loop-Compared size (a + 1) (b + 1) m))
  | inr (inr gt) ↦
      rw (ne→== (m a) (m b) (omega arith), lt→ltb (m b) (m a) gt)
        (above 0 (omega arith) (λ j l. absurd (omega arith)) (ground (arith, gt)))
]

-- With no address NULL `memcmp` ends with no failed assertion. Its result is 0 if the blocks agree,
-- and otherwise positive or negative as the first bytes that differ are ordered.
pub memcmp-Compared :
    (a b size : ℕ) (m : Memory)
    → a ≢ null
    → b ≢ null
    → (z : ℤ) × (memcmp a b size m ≡ some z) × Compared m a b size z
unfolding memcmp
memcmp-Compared a b size m p q =
    (memcmp_loop size a b m, ground arith, memcmp_loop-Compared size a b m)

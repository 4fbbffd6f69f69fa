-- ===== src/Strings/Bounded.antt =====
-- What strlcpy and strlcat leave in memory.
use os_pint_os_project.Base.{
  ℕ, zero, suc, ◌+◌, ◌-◌, ◌<◌, ◌≤◌, ◌^◌, some, List, [], ◌∷◌, ◌++◌, if◌then◌else◌, update, length,
  take, ◌≡◌, ◌≢◌, ◌⊎◌, inl, inr, arith, refl, sym, ◌∙◌, ltb, true, Bool-cases, lt→ltb, le→ltb,
  subst,
}
use os_pint_os_project.Strings.{Memory, null}
use os_pint_os_project.Strings.Copies.{memcpy-copied}
use os_pint_os_project.Strings.Copy.{copy_and_end, bounded, strlcpy, strlcat}
use os_pint_os_project.Strings.View.{StringAt, strlen-length, moved}

-- The memory agrees with `m` outside the `size` bytes at `p`.
abbrev pub Within : (p size : ℕ) → Memory → Memory → Type 0
Within p size m m' = (j : ℕ) → (j < p) ⊎ (p + size ≤ j) → m' j ≡ m j

-- A string depends on its own bytes only.
pub StringAt-agree :
    (m m' : Memory) (s : List ℕ) (p q : ℕ)
    → ((i : ℕ) → i ≤ length s → m' (q + i) ≡ m (p + i))
    → StringAt m p s
    → StringAt m' q s
StringAt-agree m m' [] p q same h = ground (arith, h, same 0)
StringAt-agree m m' (c ∷ s) p q same (e, ne, h) = (
  ground (arith, e, same 0),
  ne,
  StringAt-agree m m' s (p + 1) (q + 1) (λ i l. ground (arith, same (i + 1))) h,
)

-- The first `n` bytes of a string and a null byte after them are a string.
StringAt-take :
    (m m' : Memory) (s : List ℕ) (n p q : ℕ)
    → n ≤ length s
    → ((i : ℕ) → i < n → m' (q + i) ≡ m (p + i))
    → m' (q + n) ≡ 0
    → StringAt m p s
    → StringAt m' q (take n s)
StringAt-take m m' s zero p q l same ends h = ground (arith, ends)
StringAt-take m m' [] (suc n) p q l same ends h = absurd (omega arith)
StringAt-take m m' (c ∷ s) (suc n) p q l same ends (e, ne, h) = (
  ground (arith, e, same 0),
  ne,
  StringAt-take m m' s n (p + 1) (q + 1) (omega arith) (λ i g. ground (arith, same (i + 1)))
      (ground (arith, ends)) h,
)

StringAt-append :
    (m m' : Memory) (s t : List ℕ) (p : ℕ)
    → StringAt m p s
    → ((i : ℕ) → i < length s → m' (p + i) ≡ m (p + i))
    → StringAt m' (p + length s) t
    → StringAt m' p (s ++ t)
StringAt-append m m' [] t p h same k = moved m' t (omega arith) k
StringAt-append m m' (c ∷ s) t p (e, ne, h) same k = (
  ground (arith, e, same 0),
  ne,
  StringAt-append m m' s t (p + 1) h (λ i l. ground (arith, same (i + 1)))
      (moved m' t (omega arith) k),
)

-- The number of bytes that fit.
abbrev pub cut : ℕ → ℕ → ℕ
cut src_len room = if ltb src_len room then src_len else room

take-nil : (n : ℕ) → ◌≡◌ {A = List ℕ} (take n []) []
take-nil zero = refl
take-nil (suc n) = refl

take-cut : (s : List ℕ) (room : ℕ) → take (cut (length s) room) s ≡ take room s
take-cut [] room = take-nil (cut 0 room) ∙ sym (take-nil room)
take-cut (c ∷ s) zero = rw (le→ltb (suc (length s)) 0 (omega arith)) refl
take-cut (c ∷ s) (suc room) = elim (Bool-cases (ltb (length s) room)) [
  | inl h ↦ ground (arith, take-cut s room)
  | inr h ↦ ground (arith, take-cut s room)
]

-- The destination of `size` bytes and the source string of length `n` do not overlap.
abbrev pub Apart : (dst size src n : ℕ) → Type 0
Apart dst size src n = (dst + size ≤ src) ⊎ (src + n < dst)

Apart-weaken : (dst size src n k : ℕ) → Apart dst size src n → k ≤ n → (dst ≤ src) ⊎ (src + k ≤ dst)
Apart-weaken dst size src n k (inl h) l = inl (omega arith)
Apart-weaken dst size src n k (inr h) l = inr (omega arith)

copy_and_end-take :
    (dst src n size : ℕ) (m : Memory) (s : List ℕ)
    → dst ≢ null
    → src ≢ null
    → StringAt m src s
    → n ≤ length s
    → n < size
    → Apart dst size src (length s)
    → (m' : Memory) × (copy_and_end dst src n m ≡ some m')
      × StringAt m' dst (take n s)
      × Within dst size m m'
unfolding copy_and_end
copy_and_end-take dst src n size m s p q h l fits apart =
    let (m1, runs, is) =
      memcpy-copied dst src n m p q (Apart-weaken dst size src (length s) n apart l) in
    (
      update m1 (dst + n) 0,
      ground (arith, runs),
      StringAt-take m (update m1 (dst + n) 0) s n src dst l (λ i g. ground (arith, is (dst + i)))
          (ground arith) h,
      λ j out. ground (arith, is j, out),
    )

bounded-take :
    (dst src size room : ℕ) (m : Memory) (s : List ℕ)
    → dst ≢ null
    → src ≢ null
    → StringAt m src s
    → room < size
    → Apart dst size src (length s)
    → (m' : Memory) × (bounded true dst src (length s) room m ≡ some m')
      × StringAt m' dst (take room s)
      × Within dst size m m'
unfolding bounded
bounded-take dst src size room m s p q h fits apart =
    let n = cut (length s) room in
    let (m', runs, at, within) =
      copy_and_end-take dst src n size m s p q h (ground arith) (ground arith) apart in
    (m', runs, subst (StringAt m' dst) (take-cut s room) at, within)

-- With room for at least the null byte and a destination apart from the source, `strlcpy` ends with
-- no failed assertion and returns the source's length. The destination is the string of the
-- source's first `size - 1` bytes, of all if there are fewer, and no byte outside the `size` given
-- changes.
pub strlcpy-take :
    (dst src size : ℕ) (m : Memory) (s : List ℕ)
    → dst ≢ null
    → src ≢ null
    → StringAt m src s
    → src + length s < 2 ^ 32
    → 0 < size
    → Apart dst size src (length s)
    → (m' : Memory) × (strlcpy dst src size m ≡ some (length s, m'))
      × StringAt m' dst (take (size - 1) s)
      × Within dst size m m'
unfolding strlcpy
strlcpy-take dst src size m s p q h small room apart =
    let (m', runs, at, within) =
      bounded-take dst src size (size - 1) m s p q h (omega arith) apart in
    (m', ground (arith, lt→ltb 0 size room, strlen-length src m s h q small, runs), at, within)

-- When the destination's string and its null byte lie in the `size` bytes given, apart from the
-- source, `strlcat` ends with no failed assertion and returns the sum of the lengths. The
-- destination is its string with the source's first bytes behind it, as many as there is room for
-- before the null byte, and no byte outside the `size` given changes.
pub strlcat-append :
    (dst src size : ℕ) (m : Memory) (t s : List ℕ)
    → dst ≢ null
    → src ≢ null
    → StringAt m dst t
    → StringAt m src s
    → dst + length t < 2 ^ 32
    → src + length s < 2 ^ 32
    → length t < size
    → Apart dst size src (length s)
    → (m' : Memory) × (strlcat dst src size m ≡ some (length s + length t, m'))
      × StringAt m' dst (t ++ take (size - length t - 1) s)
      × Within dst size m m'
unfolding strlcat
strlcat-append dst src size m t s p q k h small small' fits apart =
    let room = size - length t - 1 in
    let (m', runs, at, within) =
      bounded-take (dst + length t) src (size - length t) room m s (omega arith) q h (omega arith)
        (nearer apart) in
    (
      m',
      ground (
        arith,
        lt→ltb 0 size (omega arith),
        lt→ltb (length t) size fits,
        strlen-length src m s h q small',
        strlen-length dst m t k p small,
        runs,
      ),
      StringAt-append m m' t (take room s) dst k (λ i l. within (dst + i) (inl (omega arith))) at,
      λ j out. within j (further j out),
    )
  where
    nearer : Apart dst size src (length s) → Apart (dst + length t) (size - length t) src (length s)
    nearer (inl g) = inl (omega arith)
    nearer (inr g) = inr (omega arith)

    further :
        (j : ℕ)
        → (j < dst) ⊎ (dst + size ≤ j)
        → (j < dst + length t) ⊎ (dst + length t + (size - length t) ≤ j)
    further j (inl g) = inl (omega arith)
    further j (inr g) = inr (omega arith)

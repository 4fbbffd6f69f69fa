-- ===== src/Random.antt =====
-- lib/random.c: the generator of random bytes. The array `s` is a function from its indices.
pub mod Permutation
use os_pint_os_project.Base.{
  ℕ, zero, suc, ◌+◌, ◌-◌, ◌*◌, ◌/◌, ◌%◌, ◌^◌, Bool, true, false, if◌then◌else◌, update, ltb,
}

pub record Random : Type 0 where
  pub s : ℕ → ℕ
  pub s_i : ℕ
  pub s_j : ℕ
  pub inited : Bool

-- The bytes at `a` and `b` of the array exchanged.
unfoldable pub swap_byte : (a b : ℕ) → (ℕ → ℕ) → ℕ → ℕ
swap_byte a b s = update (update s a (s b)) b (s a)

-- `for (; i < 256; i++) s[i] = i;` with `n` rounds left.
unfoldable pub fill_loop : (n i : ℕ) → (ℕ → ℕ) → ℕ → ℕ
fill_loop zero i s = s
fill_loop (suc n) i s = fill_loop n (i + 1) (update s i i)

-- Byte `k` of the seed.
abbrev pub seed_byte : (seed k : ℕ) → ℕ
seed_byte seed k = (seed / (2 ^ 8) ^ k) % 2 ^ 8

-- The loop that mixes in the seed, with `n` rounds left.
unfoldable pub seed_loop : (n i j seed : ℕ) → (ℕ → ℕ) → ℕ → ℕ
unfolding swap_byte
seed_loop zero i j seed s = s
seed_loop (suc n) i j seed s =
    let j' = (j + (s i + seed_byte seed (i % 4))) % 2 ^ 8 in
    seed_loop n (i + 1) j' seed (swap_byte i j' s)

unfoldable pub random_init : (seed : ℕ) → Random → Random
unfolding fill_loop seed_loop
random_init seed r = record {
  s = seed_loop 256 0 0 seed (fill_loop 256 0 r.s);
  s_i = 0;
  s_j = 0;
  inited = true;
}

-- One round of random_bytes: the byte and the state.
unfoldable pub random_byte : Random → ℕ × Random
unfolding swap_byte
random_byte r =
    let i = (r.s_i + 1) % 2 ^ 8 in
    let j = (r.s_j + r.s i) % 2 ^ 8 in
    let s' = swap_byte i j r.s in
    let s_k = (s' i + s' j) % 2 ^ 8 in (s' s_k, record r { s = s'; s_i = i; s_j = j })

unfoldable pub bytes_loop : (size buf : ℕ) → (ℕ → ℕ) → Random → (ℕ → ℕ) × Random
unfolding random_byte
bytes_loop zero buf m r = (m, r)
bytes_loop (suc size) buf m r =
    let (byte, r') = random_byte r in bytes_loop size (buf + 1) (update m buf byte) r'

-- The memory that holds the buffer at `buf`, and the state.
unfoldable pub random_bytes : (buf size : ℕ) → (ℕ → ℕ) → Random → (ℕ → ℕ) × Random
random_bytes buf size m r = bytes_loop size buf m (if r.inited then r else random_init 0 r)

-- The local variable `ul` is the buffer, lowest byte first.
unfoldable pub random_ulong : Random → ℕ × Random
random_ulong r =
    let (m, r') = random_bytes 0 4 (λ _. 0) r in
    (m 0 + m 1 * 2 ^ 8 + m 2 * 2 ^ 16 + m 3 * 2 ^ 24, r')

-- ===== src/Strings/Copies.antt =====
-- What the loops of memcpy, memmove and memset leave in memory.
use os_pint_os_project.Base.{
  ℕ, zero, suc, ◌+◌, ◌-◌, ◌≤◌, ◌&&◌, ◌⊎◌, inl, inr, some, ltb, leb, if◌then◌else◌, update, ◌≡◌, ◌≢◌,
  arith, refl, Bool-cases,
}
use os_pint_os_project.Strings.{Memory, null, copy_up, copy_down, memcpy, memmove}

-- The memory `m` with the `size` bytes at `src` copied to `dst`, all read before any is written.
abbrev pub copied : (dst src size : ℕ) → Memory → Memory
copied dst src size m j = if leb dst j && ltb j (dst + size) then m (src + (j - dst)) else m j

-- Upwards, from a source that is not below the destination, no byte is written before it is read.
copy_up-copied :
    (size dst src : ℕ) (m : Memory)
    → dst ≤ src
    → (j : ℕ) → copy_up size dst src m j ≡ copied dst src size m j
unfolding copy_up
copy_up-copied zero dst src m h j = ground arith
copy_up-copied (suc size) dst src m h j =
    ground (arith, copy_up-copied size (dst + 1) (src + 1) (update m dst (m src)) (omega arith) j)

-- Nor where the source ends before the destination starts.
copy_up-disjoint :
    (size dst src : ℕ) (m : Memory)
    → src + size ≤ dst
    → (j : ℕ) → copy_up size dst src m j ≡ copied dst src size m j
unfolding copy_up
copy_up-disjoint zero dst src m h j = ground arith
copy_up-disjoint (suc size) dst src m h j =
    ground (arith, copy_up-disjoint size (dst + 1) (src + 1) (update m dst (m src)) (omega arith) j)

-- Downwards, from a source that is not above the destination; `d` and `e` are the ends.
copy_down-copied :
    (size dst src d e : ℕ) (m : Memory)
    → src ≤ dst
    → d ≡ dst + size
    → e ≡ src + size
    → (j : ℕ) → copy_down size d e m j ≡ copied dst src size m j
unfolding copy_down
copy_down-copied zero dst src d e m h p q j = ground arith
copy_down-copied (suc size) dst src d e m h p q j = ground (
  arith,
  copy_down-copied size dst src (d - 1) (e - 1) (update m (d - 1) (m (e - 1))) h (omega arith)
      (omega arith) j,
)

-- `memmove` ends with no failed assertion when no address is NULL. The destination holds the bytes that the source
-- held before, also where the two overlap, and no other byte changes. The address returned is the
-- end of the destination if it lies below the source, and its start otherwise.
pub memmove-copied :
    (dst src size : ℕ) (m : Memory)
    → dst ≢ null
    → src ≢ null
    → (r : ℕ) × (m' : Memory) × (memmove dst src size m ≡ some (r, m'))
      × (r ≡ (if ltb dst src then dst + size else dst))
      × ((j : ℕ) → m' j ≡ copied dst src size m j)
unfolding memmove
memmove-copied dst src size m p q = elim (Bool-cases (ltb dst src)) [
  | inl below ↦ (
    dst + size,
    copy_up size dst src m,
    ground (arith, below),
    rw below refl,
    copy_up-copied size dst src m (ground (arith, below)),
  )
  | inr above ↦ (
    dst + size - size,
    copy_down size (dst + size) (src + size) m,
    ground (arith, above),
    ground (arith, above),
    copy_down-copied size dst src (dst + size) (src + size) m (ground (arith, above)) refl refl,
  )
]

-- When the destination does not lie above the source, or starts after the source's end, `memcpy`
-- copies the source's bytes and changes no other. It returns the start of the destination.
pub memcpy-copied :
    (dst src size : ℕ) (m : Memory)
    → dst ≢ null
    → src ≢ null
    → (dst ≤ src) ⊎ (src + size ≤ dst)
    → (m' : Memory) × (memcpy dst src size m ≡ some (dst, m'))
      × ((j : ℕ) → m' j ≡ copied dst src size m j)
unfolding memcpy
memcpy-copied dst src size m p q apart =
    (copy_up size dst src m, ground arith, copy_up-apart size dst src m apart)
  where
    copy_up-apart :
        (size dst src : ℕ) (m : Memory)
        → (dst ≤ src) ⊎ (src + size ≤ dst)
        → (j : ℕ) → copy_up size dst src m j ≡ copied dst src size m j
    copy_up-apart size dst src m (inl h) = copy_up-copied size dst src m h
    copy_up-apart size dst src m (inr h) = copy_up-disjoint size dst src m h

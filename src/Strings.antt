-- ===== src/Strings.antt =====
-- lib/string.c: the functions on blocks of bytes. Memory is a function from addresses to bytes; a
-- block does not wrap around the address space. `none` is a failed ASSERT.
pub mod Copies
pub mod Search
pub mod Compare
pub mod View
pub mod Copy
pub mod Bounded
use os_pint_os_project.Base.{
  ℕ, zero, suc, ◌+◌, ◌-◌, ◌%◌, ◌^◌, Bool, not, ◌||◌, Option, none, some, ltb, ◌==◌, if◌then◌else◌,
  update, ℤ, pos, negsuc,
}
use os_pint_os_project.Base.Check.{◌>>=◌, ◌>>◌, assert}

abbrev pub Memory : Type 0
Memory = ℕ → ℕ

abbrev pub null : ℕ
null = 0

-- `ASSERT (p != NULL || size == 0)`
abbrev pub usable : ℕ → ℕ → Bool
usable p size = not (p == null) || size == 0

-- `while (size-- > 0) *dst++ = *src++;`
unfoldable pub copy_up : ℕ → ℕ → ℕ → Memory → Memory
copy_up zero dst src m = m
copy_up (suc size) dst src m = copy_up size (dst + 1) (src + 1) (update m dst (m src))

-- `while (size-- > 0) *--dst = *--src;`
unfoldable pub copy_down : ℕ → ℕ → ℕ → Memory → Memory
copy_down zero dst src m = m
copy_down (suc size) dst src m =
    copy_down size (dst - 1) (src - 1) (update m (dst - 1) (m (src - 1)))

-- The address returned and the memory.
unfoldable pub memcpy : (dst src size : ℕ) → Memory → Option (ℕ × Memory)
memcpy dst src size m = do
  assert (usable dst size)
  assert (usable src size)
  some (dst, copy_up size dst src m)

-- It returns `dst` after the loop has moved it.
unfoldable pub memmove : (dst src size : ℕ) → Memory → Option (ℕ × Memory)
memmove dst src size m = do
  assert (usable dst size)
  assert (usable src size)
  if ltb dst src
      then some (dst + size, copy_up size dst src m)
      else some (dst + size - size, copy_down size (dst + size) (src + size) m)

unfoldable pub memcmp_loop : ℕ → ℕ → ℕ → Memory → ℤ
memcmp_loop zero a b m = pos 0
memcmp_loop (suc size) a b m =
    let rest = memcmp_loop size (a + 1) (b + 1) m in
    if not (m a == m b) then if ltb (m b) (m a) then pos 1 else negsuc 0 else rest

unfoldable pub memcmp : (a b size : ℕ) → Memory → Option ℤ
memcmp a b size m = do assert (usable a size); assert (usable b size); some (memcmp_loop size a b m)

unfoldable pub memchr_loop : ℕ → ℕ → ℕ → Memory → ℕ
memchr_loop zero block ch m = null
memchr_loop (suc size) block ch m =
    let rest = memchr_loop size (block + 1) ch m in if m block == ch then block else rest

-- `ch` becomes an unsigned char.
unfoldable pub memchr : (block ch size : ℕ) → Memory → Option ℕ
memchr block ch size m = do assert (usable block size); some (memchr_loop size block (ch % 2 ^ 8) m)

unfoldable pub fill : ℕ → ℕ → ℕ → Memory → Memory
fill zero dst value m = m
fill (suc size) dst value m = fill size (dst + 1) value (update m dst (value % 2 ^ 8))

unfoldable pub memset : (dst value size : ℕ) → Memory → Option (ℕ × Memory)
memset dst value size m = do assert (usable dst size); some (dst, fill size dst value m)

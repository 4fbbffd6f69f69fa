-- ===== src/Links.antt =====
-- lib/kernel/list.c: doubly linked lists. An element is an address with two links; a list at `l` is
-- its head element at `l` and its tail element 8 bytes further on. `none` is a failed ASSERT.
pub mod Chain
pub mod Represent
pub mod Operations
pub mod Loops
pub mod Traverse
use os_pint_os_project.Base.{
  ℕ, ◌+◌, Bool, true, not, ◌&&◌, ◌||◌, Option, some, ◌==◌, if◌then◌else◌, update, ◌≡◌, ◌≢◌, arith,
}
use os_pint_os_project.Base.Check.{◌>>=◌, ◌>>◌, assert}

pub record Links : Type 0 where
  pub prev : ℕ → ℕ
  pub next : ℕ → ℕ

abbrev pub null : ℕ
null = 0

abbrev pub set_prev : (e p : ℕ) → Links → Links
set_prev e p h = record h { prev = update h.prev e p }

abbrev pub set_next : (e p : ℕ) → Links → Links
set_next e p h = record h { next = update h.next e p }

unfoldable pub is_head : ℕ → Links → Bool
is_head e h = not (e == null) && (h.prev e == null && not (h.next e == null))

unfoldable pub is_interior : ℕ → Links → Bool
is_interior e h = not (e == null) && (not (h.prev e == null) && not (h.next e == null))

unfoldable pub is_tail : ℕ → Links → Bool
is_tail e h = not (e == null) && (not (h.prev e == null) && h.next e == null)

abbrev pub tail_of : ℕ → ℕ
tail_of l = l + 8

unfoldable pub list_init : ℕ → Links → Option Links
list_init l h = do
  assert (not (l == null))
  some (
      set_next (tail_of l) null
        (set_prev (tail_of l) l (set_next l (tail_of l) (set_prev l null h))))

unfoldable pub list_begin : ℕ → Links → Option ℕ
list_begin l h = assert (not (l == null)) >> some (h.next l)

unfoldable pub list_next : ℕ → Links → Option ℕ
unfolding is_head is_interior
list_next e h = assert (is_head e h || is_interior e h) >> some (h.next e)

unfoldable pub list_end : ℕ → Option ℕ
list_end l = assert (not (l == null)) >> some (tail_of l)

unfoldable pub list_rbegin : ℕ → Links → Option ℕ
list_rbegin l h = assert (not (l == null)) >> some (h.prev (tail_of l))

unfoldable pub list_prev : ℕ → Links → Option ℕ
list_prev e h = assert (is_interior e h || is_tail e h) >> some (h.prev e)

unfoldable pub list_rend : ℕ → Option ℕ
list_rend l = assert (not (l == null)) >> some l

unfoldable pub list_head : ℕ → Option ℕ
list_head l = assert (not (l == null)) >> some l

unfoldable pub list_tail : ℕ → Option ℕ
list_tail l = assert (not (l == null)) >> some (tail_of l)

-- The four assignments, each on what the one before leaves.
unfoldable pub list_insert : (before elem : ℕ) → Links → Option Links
list_insert before elem h = do
  assert (is_interior before h || is_tail before h)
  assert (not (elem == null))
  h1 ← some (set_prev elem (h.prev before) h)
  h2 ← some (set_next elem before h1)
  h3 ← some (set_next (h2.prev before) elem h2)
  some (set_prev before elem h3)

-- list_splice on a range that is not empty, from `first` to `end`.
unfoldable pub splice_range : (before first end : ℕ) → Links → Option Links
splice_range before first end h = do
  assert (is_interior first h)
  assert (is_interior end h)
  h1 ← some (set_next (h.prev first) (h.next end) h)
  h2 ← some (set_prev (h1.next end) (h1.prev first) h1)
  h3 ← some (set_prev first (h2.prev before) h2)
  h4 ← some (set_next end before h3)
  h5 ← some (set_next (h4.prev before) first h4)
  some (set_prev before end h5)

unfoldable pub list_splice : (before first last : ℕ) → Links → Option Links
list_splice before first last h = do
  assert (is_interior before h || is_tail before h)
  if first == last then some h else (list_prev last h >>= λ end. splice_range before first end h)

unfoldable pub list_push_front : (l elem : ℕ) → Links → Option Links
list_push_front l elem h = list_begin l h >>= λ e. list_insert e elem h

unfoldable pub list_push_back : (l elem : ℕ) → Links → Option Links
list_push_back l elem h = list_end l >>= λ e. list_insert e elem h

-- The element after the one removed, and the links.
unfoldable pub list_remove : ℕ → Links → Option (ℕ × Links)
list_remove elem h = do
  assert (is_interior elem h)
  h1 ← some (set_next (h.prev elem) (h.next elem) h)
  h2 ← some (set_prev (h1.next elem) (h1.prev elem) h1)
  some (h2.next elem, h2)

unfoldable pub list_empty : ℕ → Links → Option Bool
list_empty l h = do b ← list_begin l h; e ← list_end l; some (b == e)

unfoldable pub list_front : ℕ → Links → Option ℕ
list_front l h = do empty ← list_empty l h; assert (not empty); some (h.next l)

unfoldable pub list_back : ℕ → Links → Option ℕ
list_back l h = do empty ← list_empty l h; assert (not empty); some (h.prev (tail_of l))

unfoldable pub list_pop_front : ℕ → Links → Option (ℕ × Links)
list_pop_front l h = do front ← list_front l h; (_, h') ← list_remove front h; some (front, h')

unfoldable pub list_pop_back : ℕ → Links → Option (ℕ × Links)
list_pop_back l h = do back ← list_back l h; (_, h') ← list_remove back h; some (back, h')

abbrev pub inserted : (b elem : ℕ) → Links → Links
inserted b elem h =
    let h2 = set_next elem b (set_prev elem (h.prev b) h) in
    set_prev b elem (set_next (h2.prev b) elem h2)

abbrev pub removed : ℕ → Links → Links
removed elem h =
    let h1 = set_next (h.prev elem) (h.next elem) h in set_prev (h1.next elem) (h1.prev elem) h1

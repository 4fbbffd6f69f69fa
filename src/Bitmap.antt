-- ===== src/Bitmap.antt =====
-- lib/kernel/bitmap.c: an array of bits in an array of 32-bit elements (`unsigned long`).
pub mod Scan
pub mod Ranges
pub mod View
use Prim.Native.Nat.{bit_and, bit_or, bit_xor}
use os_pint_os_project.Base.{
  ℕ, zero, suc, ◌+◌, ◌-◌, ◌*◌, ◌/◌, ◌%◌, ◌^◌, Bool, true, false, not, Option, none, some, List, [],
  ltb, leb, ◌==◌, if◌then◌else◌, get_elem?, set, replicate,
}
use os_pint_os_project.Base.Check.{◌>>=◌, ◌>>◌, assert}

pub record Bitmap : Type 0 where
  pub bit_cnt : ℕ
  pub bits : List ℕ

abbrev pub elem_bits : ℕ
elem_bits = 32

-- SIZE_MAX
abbrev pub bitmap_error : ℕ
bitmap_error = 2 ^ 32 - 1

unfoldable pub elem_idx : ℕ → ℕ
elem_idx bit_idx = bit_idx / elem_bits

unfoldable pub bit_mask : ℕ → ℕ
bit_mask bit_idx = 2 ^ (bit_idx % elem_bits)

unfoldable pub elem_cnt : ℕ → ℕ
elem_cnt bit_cnt = ((bit_cnt + elem_bits - 1) % 2 ^ 32) / elem_bits

-- `sizeof (elem_type)` is 4.
unfoldable pub byte_cnt : ℕ → ℕ
unfolding elem_cnt
byte_cnt bit_cnt = 4 * elem_cnt bit_cnt

-- The mask of the bits in use in the last element.
unfoldable pub last_mask : Bitmap → ℕ
last_mask b =
    let last_bits = b.bit_cnt % elem_bits in
    if last_bits == 0 then 2 ^ 32 - 1 else 2 ^ last_bits - 1

-- `b->bits[idx] = f (b->bits[idx])`
unfoldable pub change : Bitmap → ℕ → (ℕ → ℕ) → Option Bitmap
change b idx f = do e ← get_elem? b.bits idx; some (record b { bits = set b.bits idx (f e) })

unfoldable pub bitmap_size : Bitmap → ℕ
bitmap_size b = b.bit_cnt

unfoldable pub bitmap_mark : Bitmap → ℕ → Option Bitmap
unfolding elem_idx bit_mask change
bitmap_mark b bit_idx = change b (elem_idx bit_idx) (λ e. bit_or e (bit_mask bit_idx))

-- `~mask` in 32 bits
unfoldable pub bitmap_reset : Bitmap → ℕ → Option Bitmap
unfolding elem_idx bit_mask change
bitmap_reset b bit_idx =
    change b (elem_idx bit_idx) (λ e. bit_and e (2 ^ 32 - 1 - bit_mask bit_idx))

unfoldable pub bitmap_flip : Bitmap → ℕ → Option Bitmap
unfolding elem_idx bit_mask change
bitmap_flip b bit_idx = change b (elem_idx bit_idx) (λ e. bit_xor e (bit_mask bit_idx))

unfoldable pub bitmap_set : Bitmap → ℕ → Bool → Option Bitmap
bitmap_set b idx value = do
  assert (ltb idx b.bit_cnt)
  if value then bitmap_mark b idx else bitmap_reset b idx

unfoldable pub bitmap_test : Bitmap → ℕ → Option Bool
unfolding elem_idx bit_mask
bitmap_test b idx = do
  assert (ltb idx b.bit_cnt)
  e ← get_elem? b.bits (elem_idx idx)
  some (not (bit_and e (bit_mask idx) == 0))

-- The assertions on a range of bits. `start + cnt` is a `size_t`.
abbrev pub check_range : Bitmap → ℕ → ℕ → Option (Unit {0})
check_range b start cnt =
    assert (leb start b.bit_cnt) >> assert (leb ((start + cnt) % 2 ^ 32) b.bit_cnt)

-- The loops over a range recur on the rounds left; `at` is `start + i`.
unfoldable pub set_loop : ℕ → ℕ → Bool → Bitmap → Option Bitmap
set_loop zero at value b = some b
set_loop (suc n) at value b = do b' ← bitmap_set b at value; set_loop n (at + 1) value b'

unfoldable pub bitmap_set_multiple : Bitmap → ℕ → ℕ → Bool → Option Bitmap
bitmap_set_multiple b start cnt value = do check_range b start cnt; set_loop cnt start value b

unfoldable pub bitmap_set_all : Bitmap → Bool → Option Bitmap
unfolding bitmap_size
bitmap_set_all b value = bitmap_set_multiple b 0 (bitmap_size b) value

abbrev pub same : Bool → Bool → Bool
same true v = v
same false v = not v

unfoldable pub count_loop : ℕ → ℕ → Bool → ℕ → Bitmap → Option ℕ
count_loop zero at value value_cnt b = some value_cnt
count_loop (suc n) at value value_cnt b = do
  t ← bitmap_test b at
  count_loop n (at + 1) value (if same t value then value_cnt + 1 else value_cnt) b

unfoldable pub bitmap_count : Bitmap → ℕ → ℕ → Bool → Option ℕ
bitmap_count b start cnt value = do check_range b start cnt; count_loop cnt start value 0 b

unfoldable pub contains_loop : ℕ → ℕ → Bool → Bitmap → Option Bool
contains_loop zero at value b = some false
contains_loop (suc n) at value b = do
  t ← bitmap_test b at
  if same t value then some true else contains_loop n (at + 1) value b

unfoldable pub bitmap_contains : Bitmap → ℕ → ℕ → Bool → Option Bool
bitmap_contains b start cnt value = do check_range b start cnt; contains_loop cnt start value b

unfoldable pub bitmap_any : Bitmap → ℕ → ℕ → Option Bool
bitmap_any b start cnt = bitmap_contains b start cnt true

unfoldable pub bitmap_none : Bitmap → ℕ → ℕ → Option Bool
bitmap_none b start cnt = do c ← bitmap_contains b start cnt true; some (not c)

unfoldable pub bitmap_all : Bitmap → ℕ → ℕ → Option Bool
bitmap_all b start cnt = do c ← bitmap_contains b start cnt false; some (not c)

-- The rounds are those of `for (i = start; i <= last; i++)`.
unfoldable pub scan_loop : ℕ → ℕ → ℕ → Bool → Bitmap → Option ℕ
scan_loop zero i cnt value b = some bitmap_error
scan_loop (suc n) i cnt value b = do
  c ← bitmap_contains b i cnt (not value)
  if c then scan_loop n (i + 1) cnt value b else some i

unfoldable pub bitmap_scan : Bitmap → ℕ → ℕ → Bool → Option ℕ
bitmap_scan b start cnt value = do
  assert (leb start b.bit_cnt)
  if leb cnt b.bit_cnt
      then scan_loop (b.bit_cnt - cnt + 1 - start) start cnt value b
      else some bitmap_error

-- The flip of the group that was found, if one was.
flip_group : Bitmap → ℕ → Bool → ℕ → Option (Bitmap × ℕ)
flip_group b cnt value idx =
    if idx == bitmap_error
    then some (b, idx)
    else do b' ← bitmap_set_multiple b idx cnt (not value); some (b', idx)

unfoldable pub bitmap_scan_and_flip : Bitmap → ℕ → ℕ → Bool → Option (Bitmap × ℕ)
unfolding flip_group
bitmap_scan_and_flip b start cnt value = do
  idx ← bitmap_scan b start cnt value
  flip_group b cnt value idx

cleared : ℕ → List ℕ → Option (Option Bitmap)
cleared bit_cnt storage = do
  b ← bitmap_set_all (record { bit_cnt = bit_cnt; bits = storage }) false
  some (some b)

elements : ℕ → Option (List ℕ) → Option (Option Bitmap)
unfolding cleared
elements bit_cnt (some storage) = cleared bit_cnt storage
elements bit_cnt none = if bit_cnt == 0 then cleared bit_cnt [] else some none

-- The arguments say what the two calls of `malloc` give: room for the struct, and the elements with
-- whatever they held. The inner `none` is a null pointer.
unfoldable pub bitmap_create : Bool → Option (List ℕ) → ℕ → Option (Option Bitmap)
unfolding elements
bitmap_create has_struct storage bit_cnt =
    if has_struct then elements bit_cnt storage else some none

-- `sizeof (struct bitmap)` is 8.
unfoldable pub bitmap_buf_size : ℕ → ℕ
unfolding byte_cnt
bitmap_buf_size bit_cnt = 8 + byte_cnt bit_cnt

-- The elements are what the block holds behind the struct.
unfoldable pub bitmap_create_in_buf :
    (bit_cnt : ℕ) → (held : List ℕ) → (block_size : ℕ) → Option Bitmap
unfolding bitmap_buf_size
bitmap_create_in_buf bit_cnt held block_size = do
  assert (leb (bitmap_buf_size bit_cnt) block_size)
  bitmap_set_all (record { bit_cnt = bit_cnt; bits = held }) false

-- ===== src/Palloc.antt =====
-- threads/palloc.c: the pages of two pools, a bit of a map for each. `none` is PANIC or a failed
-- ASSERT. A call is a step of its own: the lock of a pool, which keeps other threads away from the map
-- while it is scanned, is left out. Addresses do not wrap: a pool ends below 2 ^ 32.
pub mod Get
pub mod Free
pub mod Init
use os_pint_os_project.Base.{
  List, ℕ, ◌+◌, ◌-◌, ◌*◌, ◌/◌, ◌%◌, Bool, true, false, not, ◌&&◌, ◌||◌, Option, none, some, ltb,
  leb, ◌==◌, if◌then◌else◌,
}
use os_pint_os_project.Base.Check.{◌>>=◌, ◌>>◌, assert}
use os_pint_os_project.Bitmap.{
  Bitmap, bitmap_error, bitmap_size, bitmap_buf_size, bitmap_create_in_buf, bitmap_scan_and_flip,
  bitmap_set_multiple, bitmap_all,
}
use os_pint_os_project.Pagedir.{ptov}
use os_pint_os_project.Strings.{Memory, memset}

abbrev pub null : ℕ
null = 0

abbrev pub pg_size : ℕ
pg_size = 4096

abbrev pub pg_no : ℕ → ℕ
pg_no va = va / 4096

pub record Pool : Type 0 where
  pub used_map : Bitmap
  pub base : ℕ

pub record Pools : Type 0 where
  pub kernel_pool : Pool
  pub user_pool : Pool

-- The pool that PAL_USER stands for.
abbrev pub pool : (user : Bool) → Pools → Pool
pool true ps = ps.user_pool
pool false ps = ps.kernel_pool

abbrev pub set_pool : (user : Bool) → Pool → Pools → Pools
set_pool true p ps = record ps { user_pool = p }
set_pool false p ps = record ps { kernel_pool = p }

-- What is done with the pages, or NULL: they are filled with zeros for PAL_ZERO, and for PAL_ASSERT
-- the kernel panics where there are none.
unfoldable pub hand_out : (zero must : Bool) → (pages page_cnt : ℕ) → Memory → Option (ℕ × Memory)
hand_out zero must pages page_cnt mem =
    let filled = (do (_, mem') ← memset pages 0 (pg_size * page_cnt) mem; some (pages, mem')) in
    if not (pages == null)
    then (if zero then filled else some (pages, mem))
    else if must
    then none
    else some (null, mem)

-- The flags are PAL_USER, PAL_ZERO and PAL_ASSERT.
unfoldable pub palloc_get_multiple :
    (user zero must : Bool) (page_cnt : ℕ) → Pools → Memory → Option (ℕ × Pools × Memory)
unfolding hand_out
palloc_get_multiple user zero must page_cnt ps mem =
    let p = pool user ps in
    let given = (do
      (used, page_idx) ← bitmap_scan_and_flip p.used_map 0 page_cnt false
      (pages, mem') ←
          hand_out zero must
            (if page_idx == bitmap_error then null else p.base + pg_size * page_idx) page_cnt mem
      some (pages, set_pool user (record p { used_map = used }) ps, mem')) in
    if page_cnt == 0 then some (null, ps, mem) else given

unfoldable pub palloc_get_page :
    (user zero must : Bool) → Pools → Memory → Option (ℕ × Pools × Memory)
unfolding palloc_get_multiple
palloc_get_page user zero must ps mem = palloc_get_multiple user zero must 1 ps mem

unfoldable pub page_from_pool : Pool → (page : ℕ) → Bool
unfolding bitmap_size
page_from_pool p page =
    let start_page = pg_no p.base in
    leb start_page (pg_no page) && ltb (pg_no page) (start_page + bitmap_size p.used_map)

-- The bytes are overwritten and the bits cleared.
unfoldable pub give_back :
    (user : Bool) → (pages page_cnt : ℕ) → Pools → Memory → Option (Pools × Memory)
give_back user pages page_cnt ps mem = do
  let p = pool user ps
  let page_idx = pg_no pages - pg_no p.base
  (_, mem') ← memset pages 204 (pg_size * page_cnt) mem
  used ← bitmap_all p.used_map page_idx page_cnt
  assert used
  map' ← bitmap_set_multiple p.used_map page_idx page_cnt false
  some (set_pool user (record p { used_map = map' }) ps, mem')

-- `none` stands for NOT_REACHED, too.
unfoldable pub palloc_free_multiple :
    (pages page_cnt : ℕ) → Pools → Memory → Option (Pools × Memory)
unfolding page_from_pool give_back
palloc_free_multiple pages page_cnt ps mem =
    let freed =
      if page_from_pool ps.kernel_pool pages
      then give_back false pages page_cnt ps mem
      else if page_from_pool ps.user_pool pages
      then give_back true pages page_cnt ps mem
      else none in
    (do
      assert (pages % pg_size == 0)
      if (pages == null) || (page_cnt == 0) then some (ps, mem) else freed)

unfoldable pub palloc_free_page : (page : ℕ) → Pools → Memory → Option (Pools × Memory)
unfolding palloc_free_multiple
palloc_free_page page ps mem = palloc_free_multiple page 1 ps mem

-- `held` is what the memory of the map holds. The number of pages is printed, which is left out.
unfoldable pub init_pool : (base page_cnt : ℕ) → (held : List ℕ) → Option Pool
unfolding bitmap_buf_size bitmap_create_in_buf
init_pool base page_cnt held = do
  let bm_pages = (bitmap_buf_size page_cnt + pg_size - 1) / pg_size
  assert (leb bm_pages page_cnt)
  used ← bitmap_create_in_buf (page_cnt - bm_pages) held (bm_pages * pg_size)
  some (record { used_map = used; base = base + bm_pages * pg_size })

unfoldable pub palloc_init :
    (user_page_limit init_ram_pages : ℕ) → (kernel_held user_held : List ℕ) → Option Pools
unfolding ptov init_pool
palloc_init user_page_limit init_ram_pages kernel_held user_held = do
  free_start ← ptov (1024 * 1024)
  free_end ← ptov (init_ram_pages * pg_size)
  let free_pages = (free_end - free_start) / pg_size
  let user_pages = if ltb user_page_limit (free_pages / 2) then user_page_limit else free_pages / 2
  let kernel_pages = free_pages - user_pages
  k ← init_pool free_start kernel_pages kernel_held
  u ← init_pool (free_start + kernel_pages * pg_size) user_pages user_held
  some (record { kernel_pool = k; user_pool = u })

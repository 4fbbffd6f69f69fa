-- ===== src/Palloc/Init.antt =====
-- Setting the pools up.
use os_pint_os_project.Base.{
  List, length, ℕ, ◌+◌, ◌-◌, ◌*◌, ◌/◌, ◌%◌, ◌^◌, ◌≤◌, true, false, some, ltb, leb, if◌then◌else◌,
  ◌≡◌, ◌≢◌, arith, refl, le→leb, lt→ltb,
}
use os_pint_os_project.Bitmap.{
  Bitmap, elem_cnt, byte_cnt, bitmap_size, bitmap_buf_size, bitmap_set_all, bitmap_create_in_buf,
}
use os_pint_os_project.Bitmap.View.{Valid, bitmap_set_multiple-Sets}
use os_pint_os_project.Bitmap.Scan.{AllAre}
use os_pint_os_project.Pagedir.{ptov, phys_base}
use os_pint_os_project.Palloc.{Pool, Pools, init_pool, palloc_init}
use os_pint_os_project.Palloc.Get.{InOrder}
use os_pint_os_project.Palloc.Free.{Apart}

-- The pages of the map of a pool.
abbrev pub bm_pages : ℕ → ℕ
bm_pages page_cnt = (8 + 4 * ((page_cnt + 32 - 1) % 2 ^ 32 / 32) + 4096 - 1) / 4096

-- A pool of `page_cnt` pages from `base` on, less those of its map, all free.
pub record Fresh (base page_cnt : ℕ) (p : Pool) : Type 0 where
  pub in_order : InOrder p
  pub place : p.base ≡ base + bm_pages page_cnt * 4096
  pub size : p.used_map.bit_cnt + bm_pages page_cnt ≡ page_cnt
  pub free : AllAre p.used_map 0 p.used_map.bit_cnt false

pub init_pool-Fresh :
    (base page_cnt : ℕ) (held : List ℕ)
    → base % 4096 ≡ 0
    → base ≢ 0
    → base + 4096 * page_cnt ≤ 4294967296
    → page_cnt ≢ 0
    → page_cnt ≤ 32 * length held
    → (p : Pool) × init_pool base page_cnt held ≡ some p × Fresh base page_cnt p
unfolding init_pool bitmap_create_in_buf bitmap_buf_size byte_cnt elem_cnt bitmap_set_all
    bitmap_size
init_pool-Fresh base page_cnt held even ne inside some_pages room =
    let b : Bitmap = record { bit_cnt = page_cnt - bm_pages page_cnt; bits = held } in
    let v : Valid b = record { room = omega arith; small = omega arith } in
    let (used, runs, sets) =
      bitmap_set_multiple-Sets b 0 (page_cnt - bm_pages page_cnt) false v (omega arith) in
    let fits : leb (bm_pages page_cnt) page_cnt ≡ true =
      le→leb (bm_pages page_cnt) page_cnt (omega arith) in
    let block : leb (8 + 4 * ((page_cnt - bm_pages page_cnt + 32 - 1) % 2 ^ 32 / 32))
          (bm_pages page_cnt * 4096)
        ≡ true =
      le→leb (8 + 4 * ((page_cnt - bm_pages page_cnt + 32 - 1) % 2 ^ 32 / 32))
        (bm_pages page_cnt * 4096) (omega arith) in
    (
      record { used_map = used; base = base + bm_pages page_cnt * 4096 },
      rw (fits, block, runs) refl,
      record {
        in_order = record {
          valid = sets.valid;
          aligned = omega arith;
          ne_null = omega arith;
          inside = omega (arith, sets.same_cnt);
        };
        place = refl;
        size = omega (arith, sets.same_cnt);
        free = λ j h g. ground (arith, sets.bits j, sets.same_cnt);
      },
    )

-- What palloc_init promises.
pub record Ready (user_page_limit : ℕ) (ps : Pools) : Type 0 where
  pub apart : Apart ps
  pub kernel_free : AllAre ps.kernel_pool.used_map 0 ps.kernel_pool.used_map.bit_cnt false
  pub user_free : AllAre ps.user_pool.used_map 0 ps.user_pool.used_map.bit_cnt false
  pub limit : ps.user_pool.used_map.bit_cnt ≤ user_page_limit

-- With at least two pages behind the first megabyte and at most 1 GB of memory, a limit that is not 0,
-- and room for a bit for each page in the memory of the maps, palloc_init passes its assertions and
-- does not panic: the pools are in order and apart, all their pages are free, and the user pool has
-- at most as many as the limit.
pub palloc_init-Ready :
    (user_page_limit init_ram_pages : ℕ) (kernel_held user_held : List ℕ)
    → 258 ≤ init_ram_pages
    → init_ram_pages ≤ 262144
    → user_page_limit ≢ 0
    → init_ram_pages ≤ 32 * length kernel_held
    → init_ram_pages ≤ 32 * length user_held
    → (ps : Pools) × palloc_init user_page_limit init_ram_pages kernel_held user_held ≡ some ps
      × Ready user_page_limit ps
unfolding palloc_init ptov
palloc_init-Ready limit n kernel_held user_held lo hi some_limit k_room u_room =
    let free_pages = (n * 4096 + phys_base - (1048576 + phys_base)) / 4096 in
    let user_pages = if ltb limit (free_pages / 2) then limit else free_pages / 2 in
    let pages : free_pages ≡ n - 256 = omega arith in
    let some_user : user_pages ≢ 0 = ground arith in
    let few_user : user_pages ≤ free_pages / 2 = ground arith in
    let in_limit : user_pages ≤ limit = ground arith in
    let below : ltb (n * 4096) phys_base ≡ true = lt→ltb (n * 4096) phys_base (omega arith) in
    let kernel_pages = free_pages - user_pages in
    let (k, k_runs, kf) =
      init_pool-Fresh (1048576 + phys_base) kernel_pages kernel_held (omega arith) (omega arith)
        (omega arith) (omega arith) (omega arith) in
    let (u, u_runs, uf) =
      init_pool-Fresh (1048576 + phys_base + kernel_pages * 4096) user_pages user_held (omega arith)
        (omega arith) (omega arith) some_user (omega arith) in
    (
      record { kernel_pool = k; user_pool = u },
      rw (below, k_runs, u_runs) refl,
      record {
        apart = record {
          kernel = kf.in_order;
          user = uf.in_order;
          behind = omega (arith, kf.place, kf.size, uf.place);
        };
        kernel_free = kf.free;
        user_free = uf.free;
        limit = omega (arith, uf.size);
      },
    )

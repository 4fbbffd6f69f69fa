-- ===== src/Palloc/Get.antt =====
-- Taking pages from a pool.
use os_pint_os_project.Base.{
  ℕ, zero, suc, ◌+◌, ◌*◌, ◌%◌, ◌≤◌, Bool, true, false, ◌&&◌, Option, none, some, ltb, leb,
  if◌then◌else◌, ◌≡◌, ◌≢◌, arith, refl, ◌∙◌, ne→==,
}
use os_pint_os_project.Base.Check.{◌>>=◌}
use os_pint_os_project.Bitmap.{Bitmap, bitmap_error, bitmap_scan_and_flip}
use os_pint_os_project.Bitmap.View.{Valid, Sets}
use os_pint_os_project.Bitmap.Scan.{AllAre, Claimed, claimed, full, bitmap_scan_and_flip-Claimed}
use os_pint_os_project.Strings.{Memory, memset, fill}
use os_pint_os_project.Palloc.{null, Pool, Pools, pool, set_pool, hand_out, palloc_get_multiple}

-- A pool lies in the kernel's memory, with a bit for each page.
pub record InOrder (p : Pool) : Type 0 where
  pub valid : Valid p.used_map
  pub aligned : p.base % 4096 ≡ 0
  pub ne_null : p.base ≢ 0
  pub inside : p.base + 4096 * p.used_map.bit_cnt ≤ 4294967296

-- There are no `cnt` free pages in a row.
abbrev pub NoRoom : Pool → (cnt : ℕ) → Type 0
NoRoom p cnt = (s : ℕ) → s + cnt ≤ p.used_map.bit_cnt → ¬ AllAre p.used_map s cnt false

-- What taking `cnt` pages comes to.
pub data Taken (user cleared must : Bool) (cnt : ℕ) (ps : Pools) (mem : Memory)
    : Option (ℕ × Pools × Memory) → Type 0 where
  got :
      (s : ℕ) (used : Bitmap) (mem' : Memory)
      → s + cnt ≤ (pool user ps).used_map.bit_cnt
      → AllAre (pool user ps).used_map s cnt false
      → Sets (pool user ps).used_map s cnt true used
      → ((a : ℕ)
          → mem' a ≡ (
              if cleared
                && (leb ((pool user ps).base + 4096 * s) a
                    && ltb a ((pool user ps).base + 4096 * s + 4096 * cnt))
              then 0
              else mem a))
      → Taken user cleared must cnt ps mem (
          some (
            (pool user ps).base + 4096 * s,
            set_pool user (record (pool user ps) { used_map = used }) ps,
            mem',
          ))
  no_pages :
      must ≡ false
      → NoRoom (pool user ps) cnt
      → Taken user cleared must cnt ps mem (some (null, ps, mem))
  panic : must ≡ true → NoRoom (pool user ps) cnt → Taken user cleared must cnt ps mem none

fill-filled :
    (n dst : ℕ) (mem : Memory) (a : ℕ)
    → fill n dst 0 mem a ≡ (if leb dst a && ltb a (dst + n) then 0 else mem a)
unfolding fill
fill-filled zero dst mem a = ground arith
fill-filled (suc n) dst mem a = fill-filled n (dst + 1) _ a ∙ ground arith

hand_out-filled :
    (cleared must : Bool) (pages cnt : ℕ) (mem : Memory)
    → pages ≢ 0
    → (mem' : Memory) × hand_out cleared must pages cnt mem ≡ some (pages, mem')
      × ((a : ℕ)
          → mem' a ≡ (if cleared && (leb pages a && ltb a (pages + 4096 * cnt)) then 0 else mem a))
unfolding hand_out memset
hand_out-filled true must pages cnt mem h =
    (fill (4096 * cnt) pages 0 mem, rw (ne→== pages 0 h) refl, fill-filled (4096 * cnt) pages mem)
hand_out-filled false must pages cnt mem h = (mem, rw (ne→== pages 0 h) refl, λ a. refl)

same_pools : (user : Bool) (ps : Pools) → set_pool user (pool user ps) ps ≡ ps
same_pools true ps = refl
same_pools false ps = refl

-- On a pool in order and a number of pages that is not 0, palloc_get_multiple takes free pages of the
-- pool in a row, marks exactly these, gives the address of the first, clears their bytes for PAL_ZERO
-- and no other byte; or there are no such pages, and it gives NULL and changes nothing, or panics for
-- PAL_ASSERT.
pub palloc_get_multiple-Taken :
    (user cleared must : Bool) (cnt : ℕ) (ps : Pools) (mem : Memory)
    → InOrder (pool user ps)
    → cnt ≢ 0
    → Taken user cleared must cnt ps mem (palloc_get_multiple user cleared must cnt ps mem)
unfolding palloc_get_multiple
palloc_get_multiple-Taken user cleared must cnt ps mem o h =
    let (b, s, runs, c) =
      bitmap_scan_and_flip-Claimed (pool user ps).used_map 0 cnt false o.valid (omega arith) in
    decide b s runs c
  where
    no_room :
        (must : Bool)
        → NoRoom (pool user ps) cnt
        → Taken user cleared must cnt ps mem (
            (if must then none else some (null, mem)) >>= λ (pages, mem').
            some (pages, set_pool user (pool user ps) ps, mem'))
    no_room true f = panic refl f
    no_room false f = rw (same_pools user ps) (no_pages refl f)

    decide :
        (b : Bitmap) (s : ℕ)
        → bitmap_scan_and_flip (pool user ps).used_map 0 cnt false ≡ some (b, s)
        → Claimed (pool user ps).used_map 0 cnt false b s
        → Taken user cleared must cnt ps mem (palloc_get_multiple user cleared must cnt ps mem)
    decide b s runs (full e nowhere same) =
        rw (runs, ne→== cnt 0 h, e, same) (no_room must (λ t g. nowhere t (omega arith) g))
    decide b s runs (claimed ne lo hi all before sets) =
        let some_pages : (pool user ps).base + 4096 * s ≢ 0 = omega (arith, o.ne_null) in
        let (mem', given, bytes) =
          hand_out-filled cleared must ((pool user ps).base + 4096 * s) cnt mem some_pages in
        rw (runs, ne→== cnt 0 h, ne→== s bitmap_error ne, given) (got s b mem' hi all sets bytes)

-- ===== src/Palloc/Free.antt =====
-- Giving pages back.
use os_pint_os_project.Base.{
  ℕ, ◌+◌, ◌-◌, ◌*◌, ◌/◌, ◌%◌, ◌≤◌, Bool, true, false, Option, none, some, ◌==◌, ◌≡◌, ◌≢◌, arith,
  refl, subst, ne→==, ==_iff,
}
use os_pint_os_project.Bitmap.{Bitmap, bitmap_size}
use os_pint_os_project.Bitmap.View.{at, Sets, bitmap_set_multiple-Sets}
use os_pint_os_project.Bitmap.Scan.{AllAre}
use os_pint_os_project.Bitmap.Ranges.{Sets-back, bitmap_all-true}
use os_pint_os_project.Strings.{Memory, memset, fill}
use os_pint_os_project.Palloc.{
  null, Pool, Pools, pool, set_pool, page_from_pool, give_back, palloc_get_multiple,
  palloc_free_multiple,
}
use os_pint_os_project.Palloc.Get.{InOrder, Taken, got, no_pages, panic, palloc_get_multiple-Taken}

-- The pools are in order, the user pool behind the kernel pool.
pub record Apart (ps : Pools) : Type 0 where
  pub kernel : InOrder ps.kernel_pool
  pub user : InOrder ps.user_pool
  pub behind : ps.kernel_pool.base + 4096 * ps.kernel_pool.used_map.bit_cnt ≤ ps.user_pool.base

-- The pools lie where they did and have the same pages in use.
pub record SamePages (ps ps' : Pools) : Type 0 where
  pub bases : (user : Bool) → (pool user ps').base ≡ (pool user ps).base
  pub pages : (user : Bool) (j : ℕ) → at (pool user ps').used_map j ≡ at (pool user ps).used_map j

module _ (p : Pool) (s cnt : ℕ) (used : Bitmap) (mem : Memory) (o : InOrder p) (some_cnt : cnt ≢ 0)
    (hi : s + cnt ≤ p.used_map.bit_cnt) (free : AllAre p.used_map s cnt false)
    (sets : Sets p.used_map s cnt true used) where
  -- The pool after the pages were taken.
  taken : Pool
  taken = record p { used_map = used }

  gives :
      (user : Bool) (ps : Pools)
      → pool user ps ≡ taken
      → (map' : Bitmap) × (mem' : Memory) × give_back user (p.base + 4096 * s) cnt ps mem
          ≡ some (set_pool user (record p { used_map = map' }) ps, mem')
        × Sets used s cnt false map'
  unfolding give_back memset taken
  gives user ps is =
      let (map', runs, sets') =
        bitmap_set_multiple-Sets used s cnt false sets.valid (omega (arith, sets.same_cnt)) in
      let idx : (p.base + 4096 * s) / 4096 - p.base / 4096 ≡ s = omega (arith, o.aligned) in
      let set : AllAre used s cnt true = λ j h g. ground (arith, sets.bits j) in
      let all = bitmap_all-true used s cnt sets.valid (omega (arith, sets.same_cnt)) set in
      let ne : p.base + 4096 * s ≢ 0 = omega (arith, o.ne_null) in
      (
        map',
        fill (4096 * cnt) (p.base + 4096 * s) 204 mem,
        rw (is, idx, all, runs, ne→== (p.base + 4096 * s) 0 ne) refl,
        sets',
      )

  from_pool : page_from_pool taken (p.base + 4096 * s) ≡ true
  unfolding page_from_pool bitmap_size taken
  from_pool = ground (arith, o.aligned, sets.same_cnt)

-- What giving back comes to, after `r` was the result of taking pages.
abbrev Returns : (cnt : ℕ) → Pools → Option (ℕ × Pools × Memory) → Type 0
Returns cnt ps none = ℕ
Returns cnt ps (some (pages, ps1, mem1)) =
    pages ≢ null
    → (ps2 : Pools) × (mem2 : Memory) × palloc_free_multiple pages cnt ps1 mem1 ≡ some (ps2, mem2)
      × SamePages ps ps2

-- A page of the user pool is not in the kernel pool.
other_pool :
    (ps : Pools) (s : ℕ)
    → Apart ps
    → page_from_pool ps.kernel_pool (ps.user_pool.base + 4096 * s) ≡ false
unfolding page_from_pool bitmap_size
other_pool ps s a = ground (arith, a.kernel.aligned, a.user.aligned, a.behind)

same_but :
    (user : Bool) (ps : Pools) (map' : Bitmap)
    → ((j : ℕ) → at map' j ≡ at (pool user ps).used_map j)
    → SamePages ps (set_pool user (record (pool user ps) { used_map = map' }) ps)
same_but user ps map' e = record { bases = bases user; pages = same_pages user e }
  where
    bases :
        (user u : Bool)
        → (pool u (set_pool user (record (pool user ps) { used_map = map' }) ps)).base
          ≡ (pool u ps).base
    bases true true = refl
    bases true false = refl
    bases false true = refl
    bases false false = refl

    same_pages :
        (user : Bool)
        → ((j : ℕ) → at map' j ≡ at (pool user ps).used_map j)
        → (u : Bool) (j : ℕ)
        → at (pool u (set_pool user (record (pool user ps) { used_map = map' }) ps)).used_map j
          ≡ at (pool u ps).used_map j
    same_pages true e true j = e j
    same_pages true e false j = refl
    same_pages false e true j = refl
    same_pages false e false j = e j

in_order : (user : Bool) (ps : Pools) → Apart ps → InOrder (pool user ps)
in_order true ps a = a.user
in_order false ps a = a.kernel

Taken-Returns :
    (user cleared must : Bool) (cnt : ℕ) (ps : Pools) (mem : Memory)
    → Apart ps
    → cnt ≢ 0
    → (r : Option (ℕ × Pools × Memory)) → Taken user cleared must cnt ps mem r
    → Returns cnt ps r
unfolding palloc_free_multiple taken
Taken-Returns user cleared must cnt ps mem a h r (no_pages e f) = λ ne. absurd (ne refl)
Taken-Returns user cleared must cnt ps mem a h r (panic e f) = 0
Taken-Returns false cleared must cnt ps mem a h r (got s used mem' hi free sets bytes) = λ ne.
    let p = ps.kernel_pool in
    let ps1 = set_pool false (record p { used_map = used }) ps in
    let (map', mem2, runs, back) = gives p s cnt used mem' a.kernel h hi free sets false ps1 refl in
    let even : ((p.base + 4096 * s) % 4096 == 0) ≡ true =
      (==_iff ((p.base + 4096 * s) % 4096) 0).1 (omega (arith, a.kernel.aligned)) in
    (
      set_pool false (record p { used_map = map' }) ps,
      mem2,
      rw
          (
            ne→== (p.base + 4096 * s) 0 ne,
            ne→== cnt 0 h,
            even,
            from_pool p s cnt used mem' a.kernel h hi free sets,
          )
          runs,
      same_but false ps map' (Sets-back free sets back),
    )
Taken-Returns true cleared must cnt ps mem a h r (got s used mem' hi free sets bytes) = λ ne.
    let p = ps.user_pool in
    let ps1 = set_pool true (record p { used_map = used }) ps in
    let (map', mem2, runs, back) = gives p s cnt used mem' a.user h hi free sets true ps1 refl in
    let even : ((p.base + 4096 * s) % 4096 == 0) ≡ true =
      (==_iff ((p.base + 4096 * s) % 4096) 0).1 (omega (arith, a.user.aligned)) in
    (
      set_pool true (record p { used_map = map' }) ps,
      mem2,
      rw
          (
            ne→== (p.base + 4096 * s) 0 ne,
            ne→== cnt 0 h,
            even,
            other_pool ps s a,
            from_pool p s cnt used mem' a.user h hi free sets,
          )
          runs,
      same_but true ps map' (Sets-back free sets back),
    )

-- If palloc_get_multiple gives pages of one of two pools that lie apart, then palloc_free_multiple on
-- them passes its assertions, finds their pool, and leaves the same pages in use in both pools as
-- before.
pub free-get :
    (user cleared must : Bool) (cnt : ℕ) (ps : Pools) (mem : Memory) (pages : ℕ) (ps1 : Pools)
    (mem1 : Memory)
    → Apart ps
    → cnt ≢ 0
    → palloc_get_multiple user cleared must cnt ps mem ≡ some (pages, ps1, mem1)
    → pages ≢ null
    → (ps2 : Pools) × (mem2 : Memory) × palloc_free_multiple pages cnt ps1 mem1 ≡ some (ps2, mem2)
      × SamePages ps ps2
free-get user cleared must cnt ps mem pages ps1 mem1 a h e = subst (Returns cnt ps) e (
    Taken-Returns user cleared must cnt ps mem a h _
      (palloc_get_multiple-Taken user cleared must cnt ps mem (in_order user ps a) h))

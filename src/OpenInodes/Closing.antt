-- ===== src/OpenInodes/Closing.antt =====
-- Closing an inode: the last closer takes it off the list and frees the blocks of a removed one.
use os_pint_os_project.Base.{
  ℕ, ◌+◌, ◌-◌, ◌/◌, ◌<◌, ◌≤◌, Bool, true, false, ◌&&◌, ◌||◌, some, ◌==◌, ltb, leb, if◌then◌else◌,
  update, ◌≡◌, ◌≢◌, inl, inr, arith, refl, sym, ap, ◌∙◌, Bool-cases, ne→==,
}
use os_pint_os_project.Base.Members.{has}
use os_pint_os_project.Sequence.{remove}
use os_pint_os_project.Sequence.Remove.{has-remove, Nodup-remove}
use os_pint_os_project.Bitmap.{Bitmap}
use os_pint_os_project.Bitmap.View.{at, Valid}
use os_pint_os_project.Bitmap.Scan.{AllAre}
use os_pint_os_project.FreeMap.{FreeMap}
use os_pint_os_project.FreeMap.Allocate.{Writable, FileKept, free_map_release-Released}
use os_pint_os_project.Inode.{Inode, Block}
use os_pint_os_project.Inode.Kept.{blocks, Kept-same, Kept-Kept}
use os_pint_os_project.OpenInodes.{FileSystem, null, bytes_to_sectors, deallocate, inode_close}
use os_pint_os_project.OpenInodes.Opening.{Opened}

-- An inode's sector and its blocks lie on the device, apart and in use.
pub record InUse (i : Inode) (b : Bitmap) : Type 0 where
  pub sector_used : at b i.sector ≡ true
  pub blocks_used : AllAre b i.start (bytes_to_sectors i.len) true
  pub sector_inside : i.sector < b.bit_cnt
  pub blocks_inside : i.start + bytes_to_sectors i.len ≤ b.bit_cnt
  pub apart : (leb i.start i.sector && ltb i.sector (i.start + bytes_to_sectors i.len)) ≡ false

-- The map `b'` is `b` with an inode's sector and blocks free.
pub Freed : Inode → Bitmap → Bitmap → Type 0
Freed i b b' =
    (t : ℕ)
    → at b' t ≡ (
        if (i.sector == t) || (leb i.start t && ltb t (i.start + bytes_to_sectors i.len))
        then false
        else at b t)

-- The file of the map is open and can be written.
pub record MapOpen (fs : FileSystem) : Type 0 where
  pub is_open : fs.free_map.file ≢ null
  pub writable : Writable fs.free_map fs.inodes fs.device

abbrev pub one_less : ℕ → FileSystem → FileSystem
one_less a fs = record fs {
  inodes = update fs.inodes a (record (fs.inodes a) { open_cnt = (fs.inodes a).open_cnt - 1 });
}

abbrev pub taken_off : ℕ → FileSystem → FileSystem
taken_off a fs = record (one_less a fs) { open_inodes = remove a fs.open_inodes }

chosen : {A : Type 0} {c : Bool} (x y : A) → c ≡ true → (if c then x else y) ≡ x
chosen x y h = rw h refl

-- What closing an inode comes to.
pub data ClosedAs (fs : FileSystem) (a : ℕ) (fs' : FileSystem) : Type 0 where
  others : 1 < (fs.inodes a).open_cnt → fs' ≡ one_less a fs → ClosedAs fs a fs'
  last :
      (fs.inodes a).open_cnt ≡ 1
      → (fs.inodes a).removed ≡ false
      → fs' ≡ taken_off a fs
      → ClosedAs fs a fs'
  freed :
      (fs.inodes a).open_cnt ≡ 1
      → (fs.inodes a).removed ≡ true
      → fs' ≡ (record (taken_off a fs) { free_map = fs'.free_map; device = fs'.device })
      → Valid fs'.free_map.map
      → Freed (fs.inodes a) fs.free_map.map fs'.free_map.map
      → FileKept fs.free_map fs.inodes fs.device fs'.device
      → ClosedAs fs a fs'

deallocate-Freed :
    (i : Inode) (fs : FileSystem)
    → Valid fs.free_map.map
    → InUse i fs.free_map.map
    → MapOpen fs
    → (f : FreeMap) × (d : Block) × (deallocate i fs
        ≡ some (record fs { free_map = f; device = d }))
      × Valid f.map
      × Freed i fs.free_map.map f.map
      × FileKept fs.free_map fs.inodes fs.device d
unfolding deallocate Freed
deallocate-Freed i fs v u o =
    let (m1, d1, runs1, r1) =
      free_map_release-Released fs.free_map i.sector 1 fs.inodes fs.device v
        (omega (arith, u.sector_inside))
        (λ t p q. let is : t ≡ i.sector = omega arith in rw is u.sector_used) o.is_open
        o.writable in
    let wr : Writable m1 fs.inodes d1 = record {
      fits = rw (r1.same_file, r1.kept.same_size) o.writable.fits;
      native = r1.kept.same_type ∙ o.writable.native;
    } in
    let (m2, d2, runs2, r2) =
      free_map_release-Released m1 i.start (bytes_to_sectors i.len) fs.inodes d1 r1.sets.valid
        (omega (arith, u.blocks_inside, r1.sets.same_cnt))
        (λ t p q. ground (arith, r1.sets.bits t, u.blocks_used t p q, u.apart))
        (λ z. o.is_open (sym r1.same_file ∙ z)) wr in
    let kept2 : FileKept fs.free_map fs.inodes d1 d2 =
      Kept-same (ap (λ f. (fs.inodes f).start) r1.same_file)
        (ap (λ f. blocks (fs.inodes f)) r1.same_file) r2.kept in
    (
      m2,
      d2,
      rw (runs1, runs2) refl,
      r2.sets.valid,
      λ t. ground (arith, r1.sets.bits t, r2.sets.bits t),
      Kept-Kept r1.kept kept2,
    )

module _ (a : ℕ) (fs : FileSystem) (v : Opened fs) (m : has a fs.open_inodes ≡ true)
    (allowed : (fs.inodes a).deny_write_cnt < (fs.inodes a).open_cnt) where
  same_sector : (c : ℕ) → (fs.inodes c).sector ≡ ((one_less a fs).inodes c).sector
  same_sector c = ground arith

  one_less-Opened : 1 < (fs.inodes a).open_cnt → Opened (one_less a fs)
  one_less-Opened more = record {
    openers = λ c p. ground (arith, more, v.openers c p);
    denies = λ c p. ground (arith, allowed, v.denies c p);
    single = λ c d p q e. v.single c d p q (same_sector c ∙ e ∙ sym (same_sector d));
    once = v.once;
    ne_null = v.ne_null;
  }

  stays :
      (c : ℕ)
      → has c (remove a fs.open_inodes) ≡ true
      → (has c fs.open_inodes ≡ true) × ((a == c) ≡ false)
  stays c p =
      let q = has-remove a c fs.open_inodes v.once in (ground (arith, p, q), ground (arith, p, q))

  taken_off-Opened :
      (f : FreeMap) (d : Block) → Opened (record (taken_off a fs) { free_map = f; device = d })
  taken_off-Opened f d = record {
    openers = λ c p. let (h, ne) = stays c p in ground (arith, ne, v.openers c h);
    denies = λ c p. let (h, ne) = stays c p in ground (arith, ne, v.denies c h);
    single = λ c d p q e.
        v.single c d (stays c p).0 (stays d q).0 (same_sector c ∙ e ∙ sym (same_sector d));
    once = Nodup-remove a fs.open_inodes v.once;
    ne_null = ground (arith, has-remove a null fs.open_inodes v.once, v.ne_null);
  }

  -- The place of an inode is not changed.
  same_place :
      (c : ℕ)
      → (((one_less a fs).inodes c).start ≡ (fs.inodes c).start)
        × (((one_less a fs).inodes c).len ≡ (fs.inodes c).len)
  same_place c = (ground arith, ground arith)

  taken_off-MapOpen : MapOpen fs → MapOpen (taken_off a fs)
  taken_off-MapOpen o =
      let (s, l) = same_place fs.free_map.file in
      record {
        is_open = o.is_open;
        writable = record { fits = rw (s, l) o.writable.fits; native = o.writable.native };
      }

  not_null : (a == null) ≡ false
  not_null =
      ne→== a null
        (λ z. cc (let f : true ≡ false = sym m ∙ ap (λ w. has w fs.open_inodes) z ∙ v.ne_null in f))

  -- With the open inodes and the map in order, closing an open inode, by an opener that does not deny
  -- writes, passes its checks and leaves the open inodes in order; if it was removed, its sectors are
  -- in use and the free map's file is open and can be written. While others have it open only its count
  -- changes; the last takes it off the list, and frees its sector and its blocks, and no other, just
  -- when it was removed, which writes no sector of the device but those of the free map's file.
  pub inode_close-Opened :
      Valid fs.free_map.map
      → ((fs.inodes a).removed ≡ true → InUse (fs.inodes a) fs.free_map.map)
      → ((fs.inodes a).removed ≡ true → MapOpen fs)
      → (fs' : FileSystem) × (inode_close a fs ≡ some fs') × ClosedAs fs a fs' × Opened fs'
  unfolding inode_close deallocate
  inode_close-Opened w used map_open = elim (Bool-cases ((fs.inodes a).open_cnt == 1)) [
    | inl one ↦ elim (Bool-cases (fs.inodes a).removed) [
      | inl gone ↦
          let (f, d, runs, w', free, kept) =
            deallocate-Freed (fs.inodes a) (taken_off a fs) w (used gone)
              (taken_off-MapOpen (map_open gone)) in
          let (s, l) = same_place fs.free_map.file in
          let file_kept : FileKept fs.free_map fs.inodes fs.device d =
            Kept-same s (ap (λ n. (n + 511) / 512) l) kept in
          (
            record (taken_off a fs) { free_map = f; device = d },
            rw (not_null, one) (chosen _ _ gone ∙ runs),
            freed (ground (arith, one)) gone refl w' free file_kept,
            taken_off-Opened f d,
          )
      | inr kept ↦ (
        taken_off a fs,
        rw (not_null, one, kept) refl,
        last (ground (arith, one)) kept refl,
        taken_off-Opened fs.free_map fs.device,
      )
    ]
    | inr more ↦
        let some_more : 1 < (fs.inodes a).open_cnt = ground (arith, more, v.openers a m) in
        (one_less a fs, rw (not_null, more) refl, others some_more refl, one_less-Opened some_more)
  ]

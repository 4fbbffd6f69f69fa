-- ===== src/FreeMap/Allocate.antt =====
-- Allocation and release of sectors against the view of the map as a set of sectors.
use os_pint_os_project.Base.{
  ℕ, suc, ◌+◌, ◌≤◌, Bool, true, false, Option, none, some, ◌==◌, ◌≡◌, ◌≢◌, arith, refl, Bool-cases,
  inl, inr, ne→==,
}
use os_pint_os_project.Bitmap.{Bitmap, bitmap_error, bitmap_scan_and_flip, bitmap_all, byte_cnt}
use os_pint_os_project.Bitmap.View.{at, Valid, Sets, bitmap_set_multiple-Sets}
use os_pint_os_project.Bitmap.Scan.{
  AllAre, Contains, Claimed, claimed, full, bitmap_scan_and_flip-Claimed, bitmap_contains-Contains,
}
use os_pint_os_project.Bitmap.Ranges.{Sets-back, bitmap_all-true}
use os_pint_os_project.File.{file_write_at}
use os_pint_os_project.Inode.{Inode, Block}
use os_pint_os_project.Inode.Read.{Fits}
use os_pint_os_project.Inode.Kept.{Kept, blocks, inode_write_at-Kept}
use os_pint_os_project.FreeMap.{
  FreeMap, null, bit_bytes, bitmap_write, write_map, store_group, free_map_allocate,
  free_map_release,
}

-- The same sectors are in use.
abbrev pub SameSectors : FreeMap → FreeMap → Type 0
SameSectors m m' = (j : ℕ) → at m'.map j ≡ at m.map j

-- The file of the map lies on a device that the kernel may write.
pub record Writable (m : FreeMap) (inodes : ℕ → Inode) (d : Block) : Type 0 where
  pub fits : Fits (inodes m.file) d
  pub native : d.foreign ≡ false

-- Only sectors of the map's file are written.
abbrev pub FileKept : FreeMap → (ℕ → Inode) → Block → Block → Type 0
FileKept m inodes d d' = Kept (inodes m.file).start (blocks (inodes m.file)) d d'

-- What an allocation of `cnt` sectors comes to: with a file, the map that is new was written to it.
pub data Allocated (m : FreeMap) (cnt : ℕ) (inodes : ℕ → Inode) (d : Block) (m' : FreeMap)
    (r : Option ℕ) (d' : Block) : Type 0 where
  got :
      (s : ℕ)
      → r ≡ some s
      → s + cnt ≤ m.map.bit_cnt
      → AllAre m.map s cnt false
      → Sets m.map s cnt true m'.map
      → (m.file ≡ null → d' ≡ d)
      → (m.file ≢ null
          → (bitmap_write (m.mallocs 0) m'.map (inodes m.file) d ≡ some (true, d'))
            × FileKept m inodes d d')
      → Allocated m cnt inodes d m' r d'
  no_room :
      r ≡ none
      → ((s : ℕ) → s + cnt ≤ m.map.bit_cnt → ¬ AllAre m.map s cnt false)
      → SameSectors m m'
      → Valid m'.map
      → d' ≡ d
      → Allocated m cnt inodes d m' r d'
  not_written :
      (s : ℕ) (b : Bitmap)
      → Sets m.map s cnt true b
      → r ≡ none
      → m.file ≢ null
      → bitmap_write (m.mallocs 0) b (inodes m.file) d ≡ some (false, d')
      → SameSectors m m'
      → Valid m'.map
      → FileKept m inodes d d'
      → Allocated m cnt inodes d m' r d'

bitmap_write-Kept :
    (has_memory : Bool) (b : Bitmap) (i : Inode) (d : Block)
    → Fits i d
    → d.foreign ≡ false
    → (ok : Bool) × (d' : Block) × (bitmap_write has_memory b i d ≡ some (ok, d'))
      × Kept i.start (blocks i) d d'
unfolding bitmap_write file_write_at
bitmap_write-Kept has_memory b i d f native =
    let (k, d', runs, kept) =
      inode_write_at-Kept has_memory i (bit_bytes b) (byte_cnt b.bit_cnt) 0 d f native in
    (k == byte_cnt b.bit_cnt, d', rw runs refl, kept)

-- The map after its file was written.
abbrev next_malloc : FreeMap → FreeMap
next_malloc m = record m { mallocs = λ n. m.mallocs (suc n) }

-- The result of an allocation, and what it comes to.
AllocatesTo : FreeMap → ℕ → (ℕ → Inode) → Block → Type 0
AllocatesTo m cnt inodes d =
    (m' : FreeMap) × (r : Option ℕ) × (d' : Block) × (free_map_allocate m cnt inodes d
      ≡ some (m', r, d'))
    × Allocated m cnt inodes d m' r d'

module _ (m : FreeMap) (cnt : ℕ) (inodes : ℕ → Inode) (d : Block) (w : Valid m.map)
    (writable : m.file ≢ null → Writable m inodes d) where
  -- The row was flipped in `b`.
  found :
      (b : Bitmap) (s : ℕ)
      → bitmap_scan_and_flip m.map 0 cnt false ≡ some (b, s)
      → s ≢ bitmap_error
      → s + cnt ≤ m.map.bit_cnt
      → AllAre m.map s cnt false
      → Sets m.map s cnt true b
      → AllocatesTo m cnt inodes d
  unfolding free_map_allocate store_group write_map AllocatesTo
  found b s runs ne hi all sets = elim (Bool-cases (m.file == null)) [
    | inl closed ↦ (
      record m { map = b },
      some s,
      d,
      rw (runs, ne→== s bitmap_error ne, closed) refl,
      got s refl hi all sets (λ e. refl) (λ e. absurd (e (ground (arith, closed)))),
    )
    | inr opened ↦
        let is_open : m.file ≢ null = ground (arith, opened) in
        let wr = writable is_open in
        let (ok, d', writes, kept) =
          bitmap_write-Kept (m.mallocs 0) b (inodes m.file) d wr.fits wr.native in
        elim (Bool-cases ok) [
          | inl fine ↦ (
            next_malloc (record m { map = b }),
            some s,
            d',
            rw (runs, ne→== s bitmap_error ne, opened, writes, fine) refl,
            got s refl hi all sets (λ e. absurd (is_open e)) (λ e. (rw (← fine) writes, kept)),
          )
          | inr bad ↦
              let (b', back, sets') =
                bitmap_set_multiple-Sets b s cnt false sets.valid (omega (arith, sets.same_cnt)) in
              (
                next_malloc (record m { map = b' }),
                none,
                d',
                rw (runs, ne→== s bitmap_error ne, opened, writes, bad, back) refl,
                not_written s b sets refl is_open (rw (← bad) writes) (Sets-back all sets sets')
                    sets'.valid kept,
              )
        ]
  ]

  -- With a map in order whose file, if there is one, lies on a device that the kernel may write,
  -- `free_map_allocate` ends with no failed assertion and no access outside the device. It gives `cnt`
  -- sectors in a row that were free, marks exactly these, and has written the new map to the file, if
  -- there is one; or it fails, because there are no such sectors or the file could not be written, and
  -- the same sectors are in use as before. No sector of the device but those of the file is written.
  pub free_map_allocate-Allocated :
      (m' : FreeMap) × (r : Option ℕ) × (d' : Block) × (free_map_allocate m cnt inodes d
        ≡ some (m', r, d'))
      × Allocated m cnt inodes d m' r d'
  unfolding free_map_allocate AllocatesTo
  free_map_allocate-Allocated =
      let (b, s, runs, c) = bitmap_scan_and_flip-Claimed m.map 0 cnt false w (omega arith) in
      decide b s runs c
    where
      decide :
          (b : Bitmap) (s : ℕ)
          → bitmap_scan_and_flip m.map 0 cnt false ≡ some (b, s)
          → Claimed m.map 0 cnt false b s
          → AllocatesTo m cnt inodes d
      decide b s runs (full e nowhere_free unchanged) = (
        record m { map = b },
        none,
        d,
        rw (runs, e) refl,
        no_room refl (λ t h. nowhere_free t (omega arith) h) (λ j. rw unchanged) (rw unchanged w)
            refl,
      )
      decide b s runs (claimed ne lo hi all before sets) = found b s runs ne hi all sets

-- What releasing `cnt` sectors comes to.
pub record Released (m : FreeMap) (sector cnt : ℕ) (inodes : ℕ → Inode) (d : Block) (m' : FreeMap)
    (d' : Block) : Type 0 where
  pub sets : Sets m.map sector cnt false m'.map
  pub same_file : m'.file ≡ m.file
  pub kept : FileKept m inodes d d'

-- On sectors inside the map that are all in use, with a file that can be written, `free_map_release`
-- clears these and no other, and writes no sector but those of the file.
pub free_map_release-Released :
    (m : FreeMap) (sector cnt : ℕ) (inodes : ℕ → Inode) (d : Block)
    → Valid m.map
    → sector + cnt ≤ m.map.bit_cnt
    → AllAre m.map sector cnt true
    → m.file ≢ null
    → Writable m inodes d
    → (m' : FreeMap) × (d' : Block) × (free_map_release m sector cnt inodes d ≡ some (m', d'))
      × Released m sector cnt inodes d m' d'
unfolding free_map_release write_map
free_map_release-Released m sector cnt inodes d w h all ne wr =
    let (b', clears, s) = bitmap_set_multiple-Sets m.map sector cnt false w h in
    let (ok, d', writes, kept) =
      bitmap_write-Kept (m.mallocs 0) b' (inodes m.file) d wr.fits wr.native in
    (
      next_malloc (record m { map = b' }),
      d',
      rw (bitmap_all-true m.map sector cnt w h all, clears, ne→== m.file null ne, writes) refl,
      record { sets = s; same_file = refl; kept = kept },
    )

one_free :
    (b : Bitmap) (sector cnt : ℕ) (c : Bool)
    → Contains b sector cnt false c
    → ¬ AllAre b sector cnt true
    → c ≡ true
one_free b sector cnt true r h = refl
one_free b sector cnt false r h = absurd (h r)

-- On sectors inside the map of which one is free, `free_map_release` stops the kernel.
pub free_map_release-panic :
    (m : FreeMap) (sector cnt : ℕ) (inodes : ℕ → Inode) (d : Block)
    → Valid m.map
    → sector + cnt ≤ m.map.bit_cnt
    → ¬ AllAre m.map sector cnt true
    → free_map_release m sector cnt inodes d ≡ none
unfolding free_map_release bitmap_all
free_map_release-panic m sector cnt inodes d w h some_free =
    let (c, runs, r) = bitmap_contains-Contains m.map sector cnt false w h in
    rw (runs, one_free m.map sector cnt c r some_free) refl

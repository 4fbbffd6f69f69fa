-- ===== src/OpenInodes/Creation.antt =====
-- Creating an inode on the device, and opening it then.
use os_pint_os_project.Base.{
  ℕ, zero, suc, ◌+◌, ◌*◌, ◌/◌, ◌%◌, ◌^◌, ◌<◌, ◌≤◌, Bool, true, false, ◌&&◌, Option, none, some, ◌∷◌,
  ◌==◌, ltb, leb, if◌then◌else◌, update, ◌≡◌, ◌≢◌, inl, inr, Bool-cases, arith, refl, sym, ap,
  subst, ◌∙◌, lt→ltb, ne→==,
}
use os_pint_os_project.Base.Check.{◌>>=◌}
use os_pint_os_project.Bitmap.View.{at, Valid, Sets}
use os_pint_os_project.Bitmap.Scan.{AllAre}
use os_pint_os_project.FreeMap.{FreeMap, free_map_allocate}
use os_pint_os_project.FreeMap.Allocate.{
  Allocated, got, no_room, not_written, SameSectors, Writable, FileKept,
  free_map_allocate-Allocated,
}
use os_pint_os_project.Inode.{Inode, Block, Bytes, block_read, block_write, zeros}
use os_pint_os_project.Inode.Kept.{Kept-refl}
use os_pint_os_project.Inode.Read.{Fits, byte_at}
use os_pint_os_project.OpenInodes.{
  FileSystem, null, byte_of, word_at, inode_disk, bytes_to_sectors, zero_loop, inode_create,
  find_open, load_inode, open_new, inode_open,
}

-- `d'` is `d` with zeros in the `n` sectors from `i` on.
record Zeroed (i n : ℕ) (d d' : Block) : Type 0 where
  same_size : d'.size ≡ d.size
  same_type : d'.foreign ≡ d.foreign
  sectors : (t : ℕ) → d'.contents t ≡ (if leb i t && ltb t (i + n) then zeros else d.contents t)

block_write_lem :
    (d : Block) (i : ℕ) (b : Bytes)
    → i < d.size
    → d.foreign ≡ false
    → block_write d i b
      ≡ some (record d { write_cnt = d.write_cnt + 1; contents = update d.contents i b })
unfolding block_write
block_write_lem d i b l f = ground arith

zero_loop-Zeroed :
    (n i : ℕ) (d : Block)
    → i + n ≤ d.size
    → d.foreign ≡ false
    → (d' : Block) × (zero_loop n i d ≡ some d') × Zeroed i n d d'
unfolding zero_loop
zero_loop-Zeroed zero i d h f =
    (d, refl, record { same_size = refl; same_type = refl; sectors = λ t. ground arith })
zero_loop-Zeroed (suc n) i d h f =
    let d1 = record d { write_cnt = d.write_cnt + 1; contents = update d.contents i zeros } in
    let (d', runs, z) = zero_loop-Zeroed n (i + 1) d1 (omega arith) f in
    (
      d',
      rw (block_write_lem d i zeros (omega arith) f) runs,
      record {
        same_size = z.same_size;
        same_type = z.same_type;
        sectors = λ t. ground (arith, z.sectors t);
      },
    )

-- What the free map's file left of the device: nothing is written if it is NULL, and only its sectors
-- are if it is not.
pub record MapStored (fs : FileSystem) (d : Block) : Type 0 where
  pub closed : fs.free_map.file ≡ null → d ≡ fs.device
  pub kept : FileKept fs.free_map fs.inodes fs.device d

-- What creating an inode of `len` bytes in a sector comes to; `d` is the device after the free map
-- was stored.
pub data Created (fs : FileSystem) (sector len : ℕ) (fs' : FileSystem) : Bool → Type 0 where
  made :
      (start : ℕ) (d : Block)
      → MapStored fs d
      → AllAre fs.free_map.map start (bytes_to_sectors len) false
      → Sets fs.free_map.map start (bytes_to_sectors len) true fs'.free_map.map
      → start + bytes_to_sectors len ≤ fs.device.size
      → fs'.device.size ≡ fs.device.size
      → ((t : ℕ)
          → fs'.device.contents t ≡ (
              if leb start t && ltb t (start + bytes_to_sectors len)
              then zeros
              else if sector == t
              then inode_disk start len
              else d.contents t))
      → fs'.open_inodes ≡ fs.open_inodes
      → fs'.inodes ≡ fs.inodes
      → Created fs sector len fs' true
  not_made :
      SameSectors fs.free_map fs'.free_map
      → MapStored fs fs'.device
      → Created fs sector len fs' false

-- The blocks are written if there are any.
zero_blocks :
    (n start : ℕ) (d d' : Block)
    → zero_loop n start d ≡ some d'
    → (k : Block → Option (Bool × FileSystem))
    → ((if ltb 0 n then zero_loop n start d else some d) >>= k) ≡ k d'
unfolding zero_loop
zero_blocks zero start d d' e k = ap (λ o. o >>= k) e
zero_blocks (suc n) start d d' e k =
    let some_blocks : ltb 0 (suc n) ≡ true = ground arith in rw some_blocks (ap (λ o. o >>= k) e)

module _ (sector len : ℕ) (fs : FileSystem) (v : Valid fs.free_map.map)
    (writable : fs.free_map.file ≢ null → Writable fs.free_map fs.inodes fs.device)
    (whole : fs.free_map.map.bit_cnt ≡ fs.device.size) (native : fs.device.foreign ≡ false)
    (l : sector < fs.device.size) (short : len + 511 < 2 ^ 31) where
  not_negative : ltb len (2 ^ 31) ≡ true
  not_negative = lt→ltb len (2 ^ 31) (omega arith)

  -- The writes of the inode's sector and of its blocks.
  stored :
      (start : ℕ) (m : FreeMap) (d : Block)
      → MapStored fs d
      → start + bytes_to_sectors len ≤ fs.device.size
      → AllAre fs.free_map.map start (bytes_to_sectors len) false
      → Sets fs.free_map.map start (bytes_to_sectors len) true m.map
      → free_map_allocate fs.free_map (bytes_to_sectors len) fs.inodes fs.device
        ≡ some (m, some start, d)
      → (fs' : FileSystem) × (inode_create true sector len fs ≡ some (true, fs'))
        × Created fs sector len fs' true
  unfolding inode_create
  stored start m d st fits were_free sets runs =
      let n = bytes_to_sectors len in
      let d1 = record d {
        write_cnt = d.write_cnt + 1;
        contents = update d.contents sector (inode_disk start len);
      } in
      let on_device : sector < d.size = rw st.kept.same_size l in
      let inside : start + n ≤ d.size = rw st.kept.same_size fits in
      let writes =
        block_write_lem d sector (inode_disk start len) on_device (st.kept.same_type ∙ native) in
      let (d', zeroes, z) = zero_loop-Zeroed n start d1 inside (st.kept.same_type ∙ native) in
      (
        record fs { free_map = m; device = d' },
        rw (not_negative, runs, writes)
            (zero_blocks n start d1 d' zeroes
              (λ x. some (true, record fs { free_map = m; device = x }))),
        made start d st were_free sets fits (z.same_size ∙ st.kept.same_size)
            (λ t. z.sectors t ∙ refl) refl refl,
      )

  -- With a map of the device's sectors in order, whose file can be written if it is open, a sector of
  -- the device, memory, and a length that DIV_ROUND_UP takes without overflow, `inode_create` ends with
  -- no failed assertion. It takes a row of free sectors that holds `len` bytes, fills it with zeros and
  -- writes the inode to its sector, if that is not in the row, and no other sector changes but those
  -- of the free map's file; or it fails, the set of the sectors in use is as before, and no sector
  -- changes but those of the free map's file. If that file is NULL its sectors do not change either.
  pub inode_create-Created :
      (made_it : Bool) × (fs' : FileSystem) × (inode_create true sector len fs
        ≡ some (made_it, fs'))
      × Created fs sector len fs' made_it
  unfolding inode_create
  inode_create-Created =
      let (m, r, d, runs, a) =
        free_map_allocate-Allocated fs.free_map (bytes_to_sectors len) fs.inodes fs.device v
          writable in
      decide m r d runs a
    where
      -- With the file NULL nothing is written.
      stores :
          (d : Block)
          → (fs.free_map.file ≡ null → d ≡ fs.device)
          → (fs.free_map.file ≢ null → FileKept fs.free_map fs.inodes fs.device d)
          → MapStored fs d
      stores d closed kept = record {
        closed = closed;
        kept = elim (Bool-cases (fs.free_map.file == null)) [
          | inl none_there ↦ rw (closed (ground (arith, none_there))) (Kept-refl _ _ fs.device)
          | inr there ↦ kept (ground (arith, there))
        ];
      }

      decide :
          (m : FreeMap) (r : Option ℕ) (d : Block)
          → free_map_allocate fs.free_map (bytes_to_sectors len) fs.inodes fs.device
            ≡ some (m, r, d)
          → Allocated fs.free_map (bytes_to_sectors len) fs.inodes fs.device m r d
          → (made_it : Bool) × (fs' : FileSystem) × (inode_create true sector len fs
              ≡ some (made_it, fs'))
            × Created fs sector len fs' made_it
      decide m r d runs (got s e fits all sets closed kept) =
          let (fs', creates, c) =
            stored s m d (stores d closed (λ ne. (kept ne).1)) (rw (← whole) fits) all sets
              (rw (← e) runs) in
          (true, fs', creates, c)
      decide m r d runs (no_room e none_free same w same_device) = (
        false,
        record fs { free_map = m; device = d },
        rw (not_negative, runs, e) refl,
        not_made same
            (stores d (λ z. same_device) (λ ne. rw same_device (Kept-refl _ _ fs.device))),
      )
      decide m r d runs (not_written s b sets e ne bad same w kept) = (
        false,
        record fs { free_map = m; device = d },
        rw (not_negative, runs, e) refl,
        not_made same (stores d (λ z. absurd (ne z)) (λ z. kept)),
      )

-- The numbers in an inode's sector are read back.
word_at_byte_of :
    (x : ℕ)
    → x < 2 ^ 32
    → byte_of x 0 + 256 * byte_of x 1 + 65536 * byte_of x 2 + 16777216 * byte_of x 3 ≡ x
word_at_byte_of x h = omega arith

word_at-inode_disk :
    (start len : ℕ)
    → start < 2 ^ 32
    → len < 2 ^ 32
    → (word_at (inode_disk start len) 0 ≡ start) × (word_at (inode_disk start len) 4 ≡ len)
unfolding inode_disk
word_at-inode_disk start len h g = (word_at_byte_of start h, word_at_byte_of len g)

-- An inode whose blocks are zeroed.
zeroed-byte_at :
    (i : Inode) (d : Block) (start len : ℕ)
    → i.start ≡ start
    → i.len ≡ len
    → start + bytes_to_sectors len ≤ d.size
    → ((t : ℕ) → start ≤ t → t < start + bytes_to_sectors len → d.contents t ≡ zeros)
    → Fits i d × ((p : ℕ) → p < len → byte_at i d p ≡ 0)
unfolding bytes_to_sectors
zeroed-byte_at i d start len s l fits clear = (
  omega arith,
  λ p h. rw s (ap (λ b. b (p % 512)) (clear (start + p / 512) (omega arith) (omega arith))),
)

-- The inode that opening a closed sector makes.
abbrev pub opened_new : (a sector : ℕ) → FileSystem → FileSystem
opened_new a sector fs = record fs {
  open_inodes = a ∷ fs.open_inodes;
  inodes = update fs.inodes a (load_inode sector (fs.device.contents sector));
  device = record fs.device { read_cnt = fs.device.read_cnt + 1 };
}

opened_new-run :
    (a sector : ℕ) (fs : FileSystem)
    → a ≢ null
    → find_open fs.open_inodes fs.inodes sector ≡ none
    → sector < fs.device.size
    → inode_open a sector fs ≡ some (a, opened_new a sector fs)
unfolding inode_open open_new block_read
opened_new-run a sector fs ne closed l =
    rw (inode_open, closed, ne→== a null ne, lt→ltb sector fs.device.size l) refl

opened_new-inode :
    (a sector start len : ℕ) (fs : FileSystem)
    → fs.device.contents sector ≡ inode_disk start len
    → start < 2 ^ 32
    → len < 2 ^ 32
    → (((opened_new a sector fs).inodes a).start ≡ start)
      × (((opened_new a sector fs).inodes a).len ≡ len)
unfolding load_inode
opened_new-inode a sector start len fs there h g =
    let is : (a == a) ≡ true = ground arith in
    let words = word_at-inode_disk start len h g in (rw (is, there) words.0, rw (is, there) words.1)

-- What opening gives of an inode of `len` bytes that are all zero.
pub record OpenedEmpty (a sector len : ℕ) (fs fs' : FileSystem) : Type 0 where
  opens : inode_open a sector fs ≡ some (a, fs')
  same_len : (fs'.inodes a).len ≡ len
  fits : Fits (fs'.inodes a) fs'.device
  empty : (p : ℕ) → p < len → byte_at (fs'.inodes a) fs'.device p ≡ 0

module _ (a sector len : ℕ) (fs fs1 : FileSystem) (ne : a ≢ null)
    (closed : find_open fs.open_inodes fs.inodes sector ≡ none) (l : sector < fs.device.size)
    (big : fs.device.size < 2 ^ 32) (small : len < 2 ^ 32)
    (in_use : at fs.free_map.map sector ≡ true) where
  open-Created :
      Created fs sector len fs1 true → OpenedEmpty a sector len fs1 (opened_new a sector fs1)
  open-Created (made start d st were_free sets fits same_size contents same_open same_inodes) =
      let apart : (leb start sector && ltb sector (start + bytes_to_sectors len)) ≡ false =
        ground (arith, were_free sector, in_use) in
      let there : fs1.device.contents sector ≡ inode_disk start len =
        contents sector ∙ ground (arith, apart) in
      let (s, q) = opened_new-inode a sector start len fs1 there (omega arith) small in
      let (inside, empty) =
        zeroed-byte_at ((opened_new a sector fs1).inodes a) (opened_new a sector fs1).device start
          len s q (omega arith) (λ t x y. contents t ∙ ground (arith, x, y)) in
      record {
        opens = opened_new-run a sector fs1 ne (rw (same_open, same_inodes) closed) (omega arith);
        same_len = q;
        fits = inside;
        empty = empty;
      }

MadeBy : {A : Type 0} → (C : Bool → A → Type 0) → Option (Bool × A) → Type 0
MadeBy C none = ⊥
MadeBy C (some (b, x)) = C b x

-- After `inode_create` gave a sector in use an inode of `len` bytes, the map and the device being in
-- order, the map's file writable if it is open, and no open inode standing for the sector, `inode_open` with an address from malloc gives an
-- inode of that length whose blocks lie on the device and whose bytes are all zero.
pub open-create :
    (a sector len : ℕ) (fs fs1 : FileSystem)
    → Valid fs.free_map.map
    → (fs.free_map.file ≢ null → Writable fs.free_map fs.inodes fs.device)
    → fs.free_map.map.bit_cnt ≡ fs.device.size
    → fs.device.foreign ≡ false
    → sector < fs.device.size
    → fs.device.size < 2 ^ 32
    → len + 511 < 2 ^ 31
    → at fs.free_map.map sector ≡ true
    → a ≢ null
    → find_open fs.open_inodes fs.inodes sector ≡ none
    → inode_create true sector len fs ≡ some (true, fs1)
    → OpenedEmpty a sector len fs1 (opened_new a sector fs1)
unfolding MadeBy
open-create a sector len fs fs1 v writable whole native l big short in_use ne closed creates =
    let (b, fs', e, c) = inode_create-Created sector len fs v writable whole native l short in
    open-Created a sector len fs fs1 ne closed l big (omega arith) in_use
      (subst (MadeBy (λ b x. Created fs sector len x b)) (sym e ∙ creates) c)

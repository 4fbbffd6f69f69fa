-- ===== src/OpenFiles/Closing.antt =====
-- Closing a file gives up its denial of writes and then its inode.
use os_pint_os_project.Base.{
  ℕ, ◌-◌, ◌<◌, true, false, ◌==◌, ltb, leb, some, if◌then◌else◌, update, ◌≡◌, ◌⊎◌, inl, inr, arith,
  refl, Bool-cases,
}
use os_pint_os_project.Base.Members.{has}
use os_pint_os_project.Bitmap.View.{Valid}
use os_pint_os_project.File.{file_allow_write}
use os_pint_os_project.Inode.{inode_allow_write}
use os_pint_os_project.OpenInodes.{FileSystem}
use os_pint_os_project.OpenInodes.Opening.{Opened}
use os_pint_os_project.OpenInodes.Closing.{InUse, MapOpen, ClosedAs, inode_close-Opened}
use os_pint_os_project.OpenFiles.{OpenFile, file_close}

-- The file's inode is open, and its denials are those of this file, if it denies writes, and of others.
pub record Counted (f : OpenFile) (fs : FileSystem) : Type 0 where
  pub listed : has f.inode fs.open_inodes ≡ true
  pub denials :
      (if f.file.deny_write
        then 0 < (fs.inodes f.inode).deny_write_cnt
        else (fs.inodes f.inode).deny_write_cnt < (fs.inodes f.inode).open_cnt)

-- The denials without the file's own.
abbrev pub denials_left : OpenFile → FileSystem → ℕ
denials_left f fs =
    if f.file.deny_write
    then (fs.inodes f.inode).deny_write_cnt - 1
    else (fs.inodes f.inode).deny_write_cnt

abbrev pub writes_allowed : OpenFile → FileSystem → FileSystem
writes_allowed f fs = record fs {
  inodes =
      update fs.inodes f.inode (record (fs.inodes f.inode) { deny_write_cnt = denials_left f fs });
}

module _ (f : OpenFile) (fs : FileSystem) (v : Opened fs) (c : Counted f fs) where
  allow_run :
      file_allow_write (fs.inodes f.inode) f.file
      ≡ some (
        record (fs.inodes f.inode) { deny_write_cnt = denials_left f fs },
        record f.file { deny_write = false },
      )
  unfolding file_allow_write inode_allow_write
  allow_run = allow (Bool-cases f.file.deny_write)
    where
      allow :
          (f.file.deny_write ≡ true) ⊎ (f.file.deny_write ≡ false)
          → file_allow_write (fs.inodes f.inode) f.file
            ≡ some (
              record (fs.inodes f.inode) { deny_write_cnt = denials_left f fs },
              record f.file { deny_write = false },
            )
      allow (inl denies) =
          let some_denied : ltb 0 (fs.inodes f.inode).deny_write_cnt ≡ true =
            ground (arith, c.denials, denies) in
          let few : leb (fs.inodes f.inode).deny_write_cnt (fs.inodes f.inode).open_cnt ≡ true =
            ground (arith, v.denies f.inode c.listed) in
          ground (arith, denies, some_denied, few)
      allow (inr allows) = ground (arith, allows)

  writes_allowed-Opened : Opened (writes_allowed f fs)
  writes_allowed-Opened = record {
    openers = λ b m. ground (arith, v.openers b m);
    denies = λ b m. ground (arith, v.denies b m);
    single = λ b d p q e. v.single b d p q (ground (arith, e));
    once = v.once;
    ne_null = v.ne_null;
  }

  at_inode :
      (writes_allowed f fs).inodes f.inode
      ≡ record (fs.inodes f.inode) { deny_write_cnt = denials_left f fs }
  at_inode = let is : (f.inode == f.inode) ≡ true = ground arith in rw is refl

  same_place :
      (b : ℕ)
      → (((writes_allowed f fs).inodes b).start ≡ (fs.inodes b).start)
        × (((writes_allowed f fs).inodes b).len ≡ (fs.inodes b).len)
  same_place b = (ground arith, ground arith)

  same_MapOpen : MapOpen fs → MapOpen (writes_allowed f fs)
  same_MapOpen o =
      let (s, l) = same_place fs.free_map.file in
      record {
        is_open = o.is_open;
        writable = record { fits = rw (s, l) o.writable.fits; native = o.writable.native };
      }

  same_InUse :
      InUse (fs.inodes f.inode) fs.free_map.map
      → InUse (record (fs.inodes f.inode) { deny_write_cnt = denials_left f fs }) fs.free_map.map
  same_InUse u = record {
    sector_used = u.sector_used;
    blocks_used = u.blocks_used;
    sector_inside = u.sector_inside;
    blocks_inside = u.blocks_inside;
    apart = u.apart;
  }

  -- With the open inodes and the map in order, closing a file whose inode is open, and whose denial
  -- of writes is counted if it has one, passes its checks and leaves the open inodes in order. The
  -- inode has one denial less if the file had one, and is then closed as `inode_close` closes it,
  -- its sectors being in use and the free map's file open and writable if it was removed.
  pub file_close-Opened :
      Valid fs.free_map.map
      → ((fs.inodes f.inode).removed ≡ true → InUse (fs.inodes f.inode) fs.free_map.map)
      → ((fs.inodes f.inode).removed ≡ true → MapOpen fs)
      → (fs' : FileSystem) × (file_close (some f) fs ≡ some fs')
        × ClosedAs (writes_allowed f fs) f.inode fs'
        × Opened fs'
  unfolding file_close
  file_close-Opened w used map_open =
      let few : ((writes_allowed f fs).inodes f.inode).deny_write_cnt
          < ((writes_allowed f fs).inodes f.inode).open_cnt =
        ground (arith, c.denials, v.denies f.inode c.listed, v.openers f.inode c.listed) in
      let (fs', runs, closed, v') =
        inode_close-Opened f.inode (writes_allowed f fs) writes_allowed-Opened c.listed few w
          (rw at_inode (λ e. same_InUse (used e))) (rw at_inode (λ e. same_MapOpen (map_open e))) in
      (fs', rw allow_run runs, closed, v')

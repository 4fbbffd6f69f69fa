-- ===== src/Directory/Reopening.antt =====
-- Opening a directory again and closing it.
use os_pint_os_project.Base.{true, some, ◌≡◌, refl}
use os_pint_os_project.Base.Members.{has}
use os_pint_os_project.OpenInodes.{FileSystem, inode_reopen}
use os_pint_os_project.OpenInodes.Opening.{Opened}
use os_pint_os_project.OpenInodes.Reopening.{close-one_more, listed-not_null, one_more}
use os_pint_os_project.Directory.{Dir, dir_open, dir_reopen, dir_close}

-- With the open inodes in order, opening a directory again whose inode is open, with memory for it,
-- gives a directory at the start of the same inode, and closing that one gives the state as before.
pub close-reopen :
    (dir : Dir) (fs : FileSystem)
    → Opened fs
    → has dir.inode fs.open_inodes ≡ true
    → (dir' : Dir) × (fs' : FileSystem) × (dir_reopen true dir fs ≡ some (some dir', fs'))
      × (dir'.inode ≡ dir.inode)
      × (dir'.position ≡ 0)
      × (dir_close (some dir') fs' ≡ some fs)
unfolding dir_reopen dir_open inode_reopen dir_close
close-reopen dir fs v m =
    let ne = listed-not_null dir.inode fs v m in
    (
      record { inode = dir.inode; position = 0 },
      one_more dir.inode fs,
      rw ne refl,
      refl,
      refl,
      close-one_more dir.inode fs ne (v.openers dir.inode m),
    )

-- ===== src/OpenFiles/Reopening.antt =====
-- A file that cannot be opened again for want of memory.
use os_pint_os_project.Base.{true, false, none, some, ◌≡◌, refl}
use os_pint_os_project.Base.Members.{has}
use os_pint_os_project.OpenInodes.{FileSystem, inode_reopen}
use os_pint_os_project.OpenInodes.Opening.{Opened}
use os_pint_os_project.OpenInodes.Reopening.{close-one_more, listed-not_null}
use os_pint_os_project.OpenFiles.{OpenFile, file_open, file_reopen}

-- When calloc gives no memory, reopening a file whose inode is open gives NULL and closes the inode
-- again, with the open inodes, the device and the free map as they were.
pub file_reopen-no_memory :
    (f : OpenFile) (fs : FileSystem)
    → Opened fs
    → has f.inode fs.open_inodes ≡ true
    → file_reopen false f fs ≡ some (none, fs)
unfolding file_reopen file_open inode_reopen
file_reopen-no_memory f fs v m =
    let ne = listed-not_null f.inode fs v m in
    rw (ne, close-one_more f.inode fs ne (v.openers f.inode m)) refl

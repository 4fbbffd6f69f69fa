-- ===== src/OpenFiles.antt =====
-- filesys/file.c: opening and closing files, which share the open inodes.
pub mod Closing
pub mod Reopening
use os_pint_os_project.Base.{
  ℕ, Bool, true, false, not, ◌&&◌, ◌==◌, Option, none, some, if◌then◌else◌, update,
}
use os_pint_os_project.Base.Check.{◌>>=◌}
use os_pint_os_project.File.{File, file_allow_write}
use os_pint_os_project.OpenInodes.{FileSystem, null, inode_reopen, inode_close}

-- struct file, with the address of its inode.
pub record OpenFile : Type 0 where
  pub inode : ℕ
  pub file : File

-- `has_memory` is for calloc; the result is the file, or NULL.
unfoldable pub file_open :
    (has_memory : Bool) → (inode : ℕ) → FileSystem → Option (Option OpenFile × FileSystem)
file_open has_memory inode fs =
    if not (inode == null) && has_memory
    then some
        (some record { inode = inode; file = record { position = 0; deny_write = false } }, fs)
    else (inode_close inode fs >>= λ fs'. some (none, fs'))

unfoldable pub file_reopen :
    (has_memory : Bool) → OpenFile → FileSystem → Option (Option OpenFile × FileSystem)
file_reopen has_memory f fs =
    let (inode, fs') = inode_reopen f.inode fs in file_open has_memory inode fs'

unfoldable pub file_close : Option OpenFile → FileSystem → Option FileSystem
file_close none fs = some fs
file_close (some f) fs = do
  (i, f') ← file_allow_write (fs.inodes f.inode) f.file
  inode_close f.inode (record fs { inodes = update fs.inodes f.inode i })

unfoldable pub file_get_inode : OpenFile → ℕ
file_get_inode f = f.inode

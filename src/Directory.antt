-- ===== src/Directory.antt =====
-- filesys/directory.c: creating, opening and closing directories, which are files of 20-byte entries.
pub mod Reopening
pub mod Entries
pub mod Lookup
pub mod Search
pub mod Slot
pub mod Add
pub mod Roundtrip
use os_pint_os_project.Base.{
  ℕ, ◌*◌, ◌%◌, ◌^◌, Bool, not, ◌&&◌, ◌==◌, Option, none, some, if◌then◌else◌,
}
use os_pint_os_project.Base.Check.{◌>>=◌}
use os_pint_os_project.OpenInodes.{
  FileSystem, null, inode_create, inode_open, inode_reopen, inode_close,
}

-- struct dir: the address of its inode and the place in it.
pub record Dir : Type 0 where
  pub inode : ℕ
  pub position : ℕ

-- The size of struct dir_entry: a sector number, 15 bytes of name and a flag.
abbrev pub dir_entry_size : ℕ
dir_entry_size = 20

abbrev pub root_dir_sector : ℕ
root_dir_sector = 1

-- The length is passed on as 32 bits.
unfoldable pub dir_create :
    (has_memory : Bool) → (sector entry_cnt : ℕ) → FileSystem → Option (Bool × FileSystem)
dir_create has_memory sector entry_cnt fs =
    inode_create has_memory sector ((entry_cnt * dir_entry_size) % 2 ^ 32) fs

-- `has_memory` is for calloc; the result is the directory, or NULL.
unfoldable pub dir_open :
    (has_memory : Bool) → (inode : ℕ) → FileSystem → Option (Option Dir × FileSystem)
dir_open has_memory inode fs =
    if not (inode == null) && has_memory
    then some (some record { inode = inode; position = 0 }, fs)
    else (inode_close inode fs >>= λ fs'. some (none, fs'))

-- `a` is what malloc gives for the inode.
unfoldable pub dir_open_root :
    (has_memory : Bool) → (a : ℕ) → FileSystem → Option (Option Dir × FileSystem)
dir_open_root has_memory a fs = do
  (inode, fs') ← inode_open a root_dir_sector fs
  dir_open has_memory inode fs'

unfoldable pub dir_reopen :
    (has_memory : Bool) → Dir → FileSystem → Option (Option Dir × FileSystem)
dir_reopen has_memory dir fs =
    let (inode, fs') = inode_reopen dir.inode fs in dir_open has_memory inode fs'

unfoldable pub dir_close : Option Dir → FileSystem → Option FileSystem
dir_close none fs = some fs
dir_close (some dir) fs = inode_close dir.inode fs

unfoldable pub dir_get_inode : Dir → ℕ
dir_get_inode dir = dir.inode

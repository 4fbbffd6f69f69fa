-- ===== src/File.antt =====
-- filesys/file.c: open files. A file's inode is shared by the files that have it open, so it is
-- passed on beside the file; the file itself is never NULL here.
pub mod Denial
use os_pint_os_project.Base.{ℕ, ◌+◌, Bool, true, false, Option, some, if◌then◌else◌}
use os_pint_os_project.Base.Check.{◌>>=◌}
use os_pint_os_project.Inode.{
  Inode, Block, Bytes, inode_length, inode_read_at, inode_write_at, inode_deny_write,
  inode_allow_write,
}

pub record File : Type 0 where
  pub position : ℕ
  pub deny_write : Bool

-- The results are the bytes read, the file, the device and the buffer.
unfoldable pub file_read :
    Bool → Inode → File → Bytes → (size : ℕ) → Block → Option (ℕ × File × Block × Bytes)
file_read has_memory i f buffer size d = do
  (bytes_read, d', buffer') ← inode_read_at has_memory i buffer size f.position d
  some (bytes_read, record f { position = f.position + bytes_read }, d', buffer')

unfoldable pub file_read_at :
    Bool → Inode → Bytes → (size file_ofs : ℕ) → Block → Option (ℕ × Block × Bytes)
file_read_at has_memory i buffer size file_ofs d = inode_read_at has_memory i buffer size file_ofs d

unfoldable pub file_write :
    Bool → Inode → File → Bytes → (size : ℕ) → Block → Option (ℕ × File × Block)
file_write has_memory i f buffer size d = do
  (bytes_written, d') ← inode_write_at has_memory i buffer size f.position d
  some (bytes_written, record f { position = f.position + bytes_written }, d')

unfoldable pub file_write_at :
    Bool → Inode → Bytes → (size file_ofs : ℕ) → Block → Option (ℕ × Block)
file_write_at has_memory i buffer size file_ofs d =
    inode_write_at has_memory i buffer size file_ofs d

unfoldable pub file_deny_write : Inode → File → Option (Inode × File)
file_deny_write i f =
    if f.deny_write
    then some (i, f)
    else (inode_deny_write i >>= λ i'. some (i', record f { deny_write = true }))

unfoldable pub file_allow_write : Inode → File → Option (Inode × File)
file_allow_write i f =
    if f.deny_write
    then (inode_allow_write i >>= λ i'. some (i', record f { deny_write = false }))
    else some (i, f)

unfoldable pub file_length : Inode → ℕ
file_length i = inode_length i

unfoldable pub file_seek : File → (new_pos : ℕ) → File
file_seek f new_pos = record f { position = new_pos }

unfoldable pub file_tell : File → ℕ
file_tell f = f.position

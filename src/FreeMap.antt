-- ===== src/FreeMap.antt =====
-- filesys/free-map.c: the sectors in use, a bit for each sector, kept in memory and in a file on the
-- device, which bitmap_write of lib/kernel/bitmap.c writes. `inodes` are the inodes in memory by
-- address, among them that of the file.
pub mod Allocate
pub mod Store
use os_pint_os_project.Base.{
  ℕ, suc, ◌/◌, ◌%◌, ◌^◌, Bool, true, false, not, ◌&&◌, Option, none, some, ◌==◌, if◌then◌else◌,
  List, get_or,
}
use os_pint_os_project.Base.Check.{◌>>=◌, ◌>>◌, assert}
use os_pint_os_project.Bitmap.{
  Bitmap, bitmap_error, bitmap_scan_and_flip, bitmap_set_multiple, bitmap_all, bitmap_mark,
  bitmap_create, byte_cnt,
}
use os_pint_os_project.Inode.{Inode, Block, Bytes}
use os_pint_os_project.File.{file_write_at}

abbrev pub free_map_sector : ℕ
free_map_sector = 0

abbrev pub root_dir_sector : ℕ
root_dir_sector = 1

abbrev pub null : ℕ
null = 0

-- `free_map`; the address of the inode of `free_map_file`, or NULL if the file is; and what malloc
-- gives in the coming writes of the file that need a bounce buffer.
pub record FreeMap : Type 0 where
  pub map : Bitmap
  pub file : ℕ
  pub mallocs : ℕ → Bool

-- PANIC on a null bitmap.
mark_reserved : (ℕ → Bool) → Option Bitmap → Option FreeMap
mark_reserved mallocs none = none
mark_reserved mallocs (some b) = do
  b1 ← bitmap_mark b free_map_sector
  b2 ← bitmap_mark b1 root_dir_sector
  some (record { map = b2; file = null; mallocs = mallocs })

-- `block_size (fs_device)` sectors, with what `malloc` gives.
unfoldable pub free_map_init : (ℕ → Bool) → Bool → Option (List ℕ) → ℕ → Option FreeMap
unfolding mark_reserved
free_map_init mallocs has_struct storage sectors = do
  b ← bitmap_create has_struct storage sectors
  mark_reserved mallocs b

-- The elements of a bitmap as bytes, the lowest of each first.
abbrev pub bit_bytes : Bitmap → Bytes
bit_bytes b k = (get_or b.bits (k / 4) 0 / 256 ^ (k % 4)) % 256

unfoldable pub bitmap_write : (has_memory : Bool) → Bitmap → Inode → Block → Option (Bool × Block)
unfolding file_write_at byte_cnt
bitmap_write has_memory b i d = do
  let size = byte_cnt b.bit_cnt
  (written, d') ← file_write_at has_memory i (bit_bytes b) size 0 d
  some (written == size, d')

-- bitmap_write (free_map, free_map_file), where the file is not NULL.
unfoldable pub write_map : FreeMap → (ℕ → Inode) → Block → Option (Bool × FreeMap × Block)
unfolding bitmap_write
write_map m inodes d = do
  (ok, d') ← bitmap_write (m.mallocs 0) m.map (inodes m.file) d
  some (ok, record m { mallocs = λ n. m.mallocs (suc n) }, d')

-- The sectors were flipped in the map `m`; if the file cannot be written they are given back.
unfoldable pub store_group :
    FreeMap → (sector cnt : ℕ) → (ℕ → Inode) → Block → Option (FreeMap × Option ℕ × Block)
unfolding write_map
store_group m sector cnt inodes d = do
  (ok, m', d') ← write_map m inodes d
  if ok then some (m', some sector, d') else (do
    b ← bitmap_set_multiple m'.map sector cnt false
    some (record m' { map = b }, none, d'))

-- The second part is `*sectorp`, for `true`, or `none` for `false`.
unfoldable pub free_map_allocate :
    FreeMap → (cnt : ℕ) → (ℕ → Inode) → Block → Option (FreeMap × Option ℕ × Block)
unfolding store_group
free_map_allocate m cnt inodes d = do
  (b, sector) ← bitmap_scan_and_flip m.map 0 cnt false
  if sector == bitmap_error
      then some (record m { map = b }, none, d)
      else if not (m.file == null)
      then store_group (record m { map = b }) sector cnt inodes d
      else some (record m { map = b }, some sector, d)

-- Writing to a NULL file fails; the result of the write is not looked at.
unfoldable pub free_map_release :
    FreeMap → (sector cnt : ℕ) → (ℕ → Inode) → Block → Option (FreeMap × Block)
unfolding write_map
free_map_release m sector cnt inodes d = do
  used ← bitmap_all m.map sector cnt
  assert used
  b ← bitmap_set_multiple m.map sector cnt false
  assert (not (m.file == null))
  (ok, m', d') ← write_map (record m { map = b }) inodes d
  some (m', d')

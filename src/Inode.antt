-- ===== src/Inode.antt =====
-- filesys/inode.c: reading and writing the bytes of a file, over the block device of
-- devices/block.c. A buffer is a function from indices to bytes. Positions and sizes are not
-- negative; `has_memory` says whether malloc gives the bounce buffer.
pub mod Read
pub mod Write
pub mod Roundtrip
pub mod Kept
use os_pint_os_project.Base.{
  ℕ, zero, suc, ◌+◌, ◌-◌, ◌/◌, ◌%◌, ◌^◌, Bool, true, false, not, ◌&&◌, ◌||◌, Option, none, some,
  ltb, leb, ◌==◌, if◌then◌else◌, update,
}
use os_pint_os_project.Base.Check.{◌>>=◌, ◌>>◌, assert}

abbrev pub Bytes : Type 0
Bytes = ℕ → ℕ

-- A block device and what its driver has stored in each sector.
pub record Block : Type 0 where
  pub size : ℕ
  pub foreign : Bool
  pub read_cnt : ℕ
  pub write_cnt : ℕ
  pub contents : ℕ → Bytes

abbrev pub block_sector_size : ℕ
block_sector_size = 512

-- `none` is the panic of check_sector.
unfoldable pub block_read : Block → ℕ → Option (Bytes × Block)
block_read d sector = do
  assert (ltb sector d.size)
  some (d.contents sector, record d { read_cnt = d.read_cnt + 1 })

unfoldable pub block_write : Block → ℕ → Bytes → Option Block
block_write d sector bytes = do
  assert (ltb sector d.size)
  assert (not d.foreign)
  some (record d { write_cnt = d.write_cnt + 1; contents = update d.contents sector bytes })

-- struct inode with the start and the length of its inode_disk.
pub record Inode : Type 0 where
  pub sector : ℕ
  pub removed : Bool
  pub open_cnt : ℕ
  pub deny_write_cnt : ℕ
  pub start : ℕ
  pub len : ℕ

unfoldable pub inode_length : Inode → ℕ
inode_length i = i.len

unfoldable pub inode_deny_write : Inode → Option Inode
inode_deny_write i = do
  denied ← some (record i { deny_write_cnt = i.deny_write_cnt + 1 })
  assert (leb denied.deny_write_cnt denied.open_cnt)
  some denied

unfoldable pub inode_allow_write : Inode → Option Inode
inode_allow_write i = do
  assert (ltb 0 i.deny_write_cnt)
  assert (leb i.deny_write_cnt i.open_cnt)
  some (record i { deny_write_cnt = i.deny_write_cnt - 1 })

-- The -1 of an unsigned sector number.
unfoldable pub byte_to_sector : Inode → ℕ → ℕ
byte_to_sector i p = if ltb p i.len then i.start + p / block_sector_size else 2 ^ 32 - 1

-- The bytes to copy in one round. A position past the end leaves a negative number of bytes in the
-- source, and none here: both end the loop.
unfoldable pub chunk_size : Inode → (size offset : ℕ) → ℕ
unfolding inode_length
chunk_size i size offset =
    let inode_left = inode_length i - offset in
    let sector_left = block_sector_size - offset % block_sector_size in
    let min_left = if ltb inode_left sector_left then inode_left else sector_left in
    if ltb size min_left then size else min_left

-- `bytes` at `at` replaced by `n` bytes of `from`, from `ofs` on.
abbrev pub blit : Bytes → (at : ℕ) → Bytes → (ofs n : ℕ) → Bytes
blit bytes at from ofs n j = if leb at j && ltb j (at + n) then from (ofs + (j - at)) else bytes j

abbrev pub whole_sector : (sector_ofs chunk : ℕ) → Bool
whole_sector sector_ofs chunk = sector_ofs == 0 && chunk == block_sector_size

-- One round of inode_read_at: the sector into the caller's buffer, or by way of the bounce buffer.
unfoldable pub read_chunk :
    Inode → (chunk offset bytes_read : ℕ) → Block → Bytes → Option (Block × Bytes)
unfolding block_read byte_to_sector
read_chunk i chunk offset bytes_read d buffer = do
  (bytes, d') ← block_read d (byte_to_sector i offset)
  some (
    d',
    (if whole_sector (offset % block_sector_size) chunk
        then blit buffer bytes_read bytes 0 block_sector_size
        else blit buffer bytes_read bytes (offset % block_sector_size) chunk),
  )

-- The loop on fuel: a round copies a byte at least, so `size` rounds are enough. The results are
-- the bytes read, the device and the buffer.
unfoldable pub read_loop :
    ℕ → Bool → Inode → (size offset bytes_read : ℕ) → Block → Bytes → Option (ℕ × Block × Bytes)
unfolding read_chunk
read_loop zero has_memory i size offset bytes_read d buffer = some (bytes_read, d, buffer)
read_loop (suc n) has_memory i size offset bytes_read d buffer =
    let chunk = chunk_size i size offset in
    let whole = whole_sector (offset % block_sector_size) chunk in
    let rest = λ (r : Block × Bytes).
      read_loop n has_memory i (size - chunk) (offset + chunk) (bytes_read + chunk) r.0 r.1 in
    if chunk == 0 || (not whole && not has_memory)
    then some (bytes_read, d, buffer)
    else (read_chunk i chunk offset bytes_read d buffer >>= rest)

unfoldable pub inode_read_at :
    Bool → Inode → Bytes → (size offset : ℕ) → Block → Option (ℕ × Block × Bytes)
inode_read_at has_memory i buffer size offset d = read_loop size has_memory i size offset 0 d buffer

abbrev pub zeros : Bytes
zeros j = 0

-- What the bounce buffer holds before the copy of one round of inode_write_at.
unfoldable pub bounce : Block → (sector sector_ofs chunk : ℕ) → Option (Bytes × Block)
unfolding block_read
bounce d sector sector_ofs chunk =
    if ltb 0 sector_ofs || ltb chunk (block_sector_size - sector_ofs)
    then block_read d sector
    else some (zeros, d)

unfoldable pub write_chunk : Inode → (chunk offset bytes_written : ℕ) → Bytes → Block → Option Block
unfolding block_read block_write byte_to_sector bounce
write_chunk i chunk offset bytes_written buffer d =
    let sector = byte_to_sector i offset in
    let sector_ofs = offset % block_sector_size in
    if whole_sector sector_ofs chunk
    then block_write d sector (λ j. buffer (bytes_written + j))
    else do
      (bytes, d') ← bounce d sector sector_ofs chunk
      block_write d' sector (blit bytes sector_ofs buffer bytes_written chunk)

unfoldable pub write_loop :
    ℕ → Bool → Inode → (size offset bytes_written : ℕ) → Bytes → Block → Option (ℕ × Block)
unfolding write_chunk
write_loop zero has_memory i size offset bytes_written buffer d = some (bytes_written, d)
write_loop (suc n) has_memory i size offset bytes_written buffer d =
    let chunk = chunk_size i size offset in
    let whole = whole_sector (offset % block_sector_size) chunk in
    let rest =
      write_loop n has_memory i (size - chunk) (offset + chunk) (bytes_written + chunk) buffer in
    if chunk == 0 || (not whole && not has_memory)
    then some (bytes_written, d)
    else (write_chunk i chunk offset bytes_written buffer d >>= rest)

unfoldable pub inode_write_at :
    Bool → Inode → Bytes → (size offset : ℕ) → Block → Option (ℕ × Block)
inode_write_at has_memory i buffer size offset d =
    if not (i.deny_write_cnt == 0)
    then some (0, d)
    else write_loop size has_memory i size offset 0 buffer d

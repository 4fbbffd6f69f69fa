-- ===== src/OpenInodes.antt =====
-- filesys/inode.c: the inodes that are open, and their creation on the device.
pub mod Opening
pub mod Closing
pub mod Reopening
pub mod Creation
use os_pint_os_project.Base.{
  ℕ, zero, suc, ◌+◌, ◌-◌, ◌*◌, ◌/◌, ◌%◌, ◌^◌, Bool, true, false, not, Option, none, some, List, [],
  ◌∷◌, ltb, ◌==◌, if◌then◌else◌, update,
}
use os_pint_os_project.Base.Check.{◌>>=◌, ◌>>◌, assert}
use os_pint_os_project.Sequence.{remove}
use os_pint_os_project.FreeMap.{FreeMap, free_map_allocate, free_map_release}
use os_pint_os_project.Inode.{Inode, Block, Bytes, block_read, block_write, zeros}

abbrev pub null : ℕ
null = 0

-- The list of open inodes, the inodes by address, the map of free sectors and the device.
pub record FileSystem : Type 0 where
  pub open_inodes : List ℕ
  pub inodes : ℕ → Inode
  pub free_map : FreeMap
  pub device : Block

-- 0x494e4f44
abbrev pub inode_magic : ℕ
inode_magic = 1229868868

-- Byte `k` of a number of 32 bits, the lowest first.
abbrev pub byte_of : (x k : ℕ) → ℕ
byte_of x k = (x / 256 ^ k) % 256

-- struct inode_disk as the bytes of its sector; what calloc gave is zero.
unfoldable pub inode_disk : (start len : ℕ) → Bytes
inode_disk start len o =
    if ltb o 4
    then byte_of start o
    else if ltb o 8
    then byte_of len (o - 4)
    else if ltb o 12
    then byte_of inode_magic (o - 8)
    else 0

-- The number of 32 bits at `o`.
abbrev pub word_at : Bytes → ℕ → ℕ
word_at b o = b o + 256 * b (o + 1) + 65536 * b (o + 2) + 16777216 * b (o + 3)

-- On lengths for which the signed addition of DIV_ROUND_UP does not overflow.
unfoldable pub bytes_to_sectors : ℕ → ℕ
bytes_to_sectors size = (size + 511) / 512

unfoldable pub inode_init : FileSystem → FileSystem
inode_init fs = record fs { open_inodes = [] }

-- `n` sectors of zeros from sector `i` on.
unfoldable pub zero_loop : (n i : ℕ) → Block → Option Block
zero_loop zero i d = some d
zero_loop (suc n) i d = block_write d i zeros >>= zero_loop n (i + 1)

-- `len` is an off_t as its 32 bits, so below 2 ^ 31 if it is not negative. `has_memory` is for
-- calloc.
unfoldable pub inode_create :
    (has_memory : Bool) → (sector len : ℕ) → FileSystem → Option (Bool × FileSystem)
inode_create false sector len fs = do assert (ltb len (2 ^ 31)); some (false, fs)
inode_create true sector len fs = do
  assert (ltb len (2 ^ 31))
  sectors ← some (bytes_to_sectors len)
  (m, r, d0) ← free_map_allocate fs.free_map sectors fs.inodes fs.device
  elim r [
    | none ↦ some (false, record fs { free_map = m; device = d0 })
    | some start ↦ do
      d ← block_write d0 sector (inode_disk start len)
      d' ← if ltb 0 sectors then zero_loop sectors start d else some d
      some (true, record fs { free_map = m; device = d' })
  ]

-- An inode that is already open.
unfoldable pub find_open : List ℕ → (ℕ → Inode) → ℕ → Option ℕ
find_open [] inodes sector = none
find_open (a ∷ rest) inodes sector =
    if (inodes a).sector == sector then some a else find_open rest inodes sector

unfoldable pub inode_reopen : ℕ → FileSystem → ℕ × FileSystem
inode_reopen a fs =
    let i = fs.inodes a in
    (
      a,
      if not (a == null)
          then record fs { inodes = update fs.inodes a (record i { open_cnt = i.open_cnt + 1 }) }
          else fs,
    )

-- The inode's data as `block_read` brings it into memory.
unfoldable pub load_inode : ℕ → Bytes → Inode
load_inode sector b = record {
  sector = sector;
  removed = false;
  open_cnt = 1;
  deny_write_cnt = 0;
  start = word_at b 0;
  len = word_at b 4;
}

-- An inode at `a`, which malloc gave, or NULL.
unfoldable pub open_new : (a sector : ℕ) → FileSystem → Option (ℕ × FileSystem)
unfolding load_inode
open_new a sector fs =
    if a == null
    then some (null, fs)
    else (block_read fs.device sector >>= λ r. some (
      a,
      record fs {
        open_inodes = a ∷ fs.open_inodes;
        inodes = update fs.inodes a (load_inode sector r.0);
        device = r.1;
      },
    ))

unfoldable pub inode_open : (a sector : ℕ) → FileSystem → Option (ℕ × FileSystem)
inode_open a sector fs = elim (find_open fs.open_inodes fs.inodes sector) [
  | none ↦ open_new a sector fs
  | some b ↦ some (inode_reopen b fs)
]

unfoldable pub inode_get_inumber : ℕ → FileSystem → ℕ
inode_get_inumber a fs = (fs.inodes a).sector

-- The blocks of an inode that was removed.
unfoldable pub deallocate : Inode → FileSystem → Option FileSystem
deallocate i fs = do
  (m, d) ← free_map_release fs.free_map i.sector 1 fs.inodes fs.device
  (m', d') ← free_map_release m i.start (bytes_to_sectors i.len) fs.inodes d
  some (record fs { free_map = m'; device = d' })

-- `--open_cnt` of 0 is -1, which no inode comes to.
unfoldable pub inode_close : ℕ → FileSystem → Option FileSystem
unfolding deallocate
inode_close a fs =
    let i = fs.inodes a in
    let closed = record fs {
      inodes = update fs.inodes a (record i { open_cnt = i.open_cnt - 1 });
    } in
    let gone = record closed { open_inodes = remove a fs.open_inodes } in
    if a == null
    then some fs
    else if i.open_cnt == 1
    then (if i.removed then deallocate i gone else some gone)
    else some closed

unfoldable pub inode_remove : ℕ → FileSystem → Option FileSystem
inode_remove a fs = do
  assert (not (a == null))
  some (record fs { inodes = update fs.inodes a (record (fs.inodes a) { removed = true }) })

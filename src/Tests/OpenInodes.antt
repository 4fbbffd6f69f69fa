-- ===== src/Tests/OpenInodes.antt =====
-- A device of 40 sectors of which 0 to 3, 33 and 34 are in use: the free map's file has its inode in
-- sector 0 and its bytes in sector 34; one inode is open and was removed.
use os_pint_os_project.Base.{
  ℕ, zero, suc, ◌+◌, ◌<◌, ◌≤◌, Bool, true, false, Option, none, some, [], ◌∷◌, ◌≡◌, ◌==◌,
  if◌then◌else◌, arith, refl,
}
use os_pint_os_project.Base.Bits.{bit}
use os_pint_os_project.Bitmap.{
  bitmap_scan, bitmap_set_multiple, set_loop, bitmap_set, bitmap_mark, bitmap_reset, bitmap_test,
  contains_loop, bitmap_contains, scan_loop, bitmap_scan_and_flip, byte_cnt, elem_cnt,
}
use os_pint_os_project.Bitmap.View.{at, Valid}
use os_pint_os_project.FreeMap.{free_map_allocate, store_group, write_map, bitmap_write}
use os_pint_os_project.File.{file_write_at}
use os_pint_os_project.Inode.{
  Block, Inode, block_read, block_write, inode_write_at, write_loop, write_chunk, bounce,
  byte_to_sector, chunk_size, inode_length,
}
use os_pint_os_project.OpenInodes.{
  FileSystem, inode_create, inode_open, inode_close, bytes_to_sectors, zero_loop, find_open,
}
use os_pint_os_project.OpenInodes.Opening.{Opened, OpenedAs, inode_open-Opened}
use os_pint_os_project.OpenInodes.Creation.{
  Created, inode_create-Created, OpenedEmpty, opened_new, open-create,
}
use os_pint_os_project.OpenFiles.{OpenFile, file_close}
use os_pint_os_project.OpenFiles.Closing.{writes_allowed, file_close-Opened}
use os_pint_os_project.OpenInodes.Closing.{InUse, MapOpen, ClosedAs, inode_close-Opened}

abbrev disk40 : Block
disk40 = record { size = 40; foreign = false; read_cnt = 0; write_cnt = 0; contents = λ s o. 0 }

abbrev gone_file : Inode
gone_file = record {
  sector = 1;
  removed = true;
  open_cnt = 1;
  deny_write_cnt = 0;
  start = 2;
  len = 1000;
}

abbrev map_file : Inode
map_file = record {
  sector = 0;
  removed = false;
  open_cnt = 1;
  deny_write_cnt = 0;
  start = 34;
  len = 8;
}

abbrev before : FileSystem
before = record {
  open_inodes = 200 ∷ 400 ∷ [];
  inodes = λ a. if a == 400 then map_file else gone_file;
  free_map = record {
    map = record { bit_cnt = 40; bits = 15 ∷ 6 ∷ [] };
    file = 400;
    mallocs = λ n. true;
  };
  device = disk40;
}

before-Opened : Opened before
before-Opened = record {
  openers = λ a m. ground arith;
  denies = λ a m. ground arith;
  single = λ a b p q e. ground (arith, p, q, e);
  once = (refl, (refl, tt));
  ne_null = refl;
}

before-Valid : Valid before.free_map.map
before-Valid = omega arith

blocks_in_use : (j : ℕ) → 2 ≤ j → j < 2 + 2 → at before.free_map.map j ≡ true
unfolding at bit
blocks_in_use zero p q = absurd (omega arith)
blocks_in_use (suc zero) p q = absurd (omega arith)
blocks_in_use (suc (suc zero)) p q = refl
blocks_in_use (suc (suc (suc zero))) p q = refl
blocks_in_use (suc (suc (suc (suc j)))) p q = absurd (omega arith)

gone_file-InUse : InUse gone_file before.free_map.map
unfolding bytes_to_sectors at bit
gone_file-InUse = record {
  sector_used = refl;
  blocks_used = blocks_in_use;
  sector_inside = omega arith;
  blocks_inside = omega arith;
  apart = refl;
}

before-MapOpen : MapOpen before
before-MapOpen = record {
  is_open = omega arith;
  writable = record { fits = omega arith; native = refl };
}

inode_open-Opened_example :
    (r : ℕ) × (fs' : FileSystem) × (inode_open 300 33 before ≡ some (r, fs'))
    × OpenedAs before 300 33 r fs'
    × Opened fs'
inode_open-Opened_example = inode_open-Opened 300 33 before before-Opened refl (omega arith)

inode_close-Opened_example :
    (fs' : FileSystem) × (inode_close 200 before ≡ some fs') × ClosedAs before 200 fs' × Opened fs'
inode_close-Opened_example =
    inode_close-Opened 200 before before-Opened refl (omega arith) before-Valid
      (λ e. gone_file-InUse) (λ e. before-MapOpen)

inode_create-Created_example :
    (made_it : Bool) × (fs' : FileSystem) × (inode_create true 33 700 before ≡ some (made_it, fs'))
    × Created before 33 700 fs' made_it
inode_create-Created_example =
    inode_create-Created 33 700 before before-Valid (λ ne. before-MapOpen.writable) refl refl
      (omega arith) (omega arith)

abbrev state_of : Option (Bool × FileSystem) → FileSystem
state_of none = before
state_of (some (b, fs)) = fs

abbrev afterwards : FileSystem
afterwards = state_of (inode_create true 33 700 before)

file_created : inode_create true 33 700 before ≡ some (true, afterwards)
unfolding inode_create bytes_to_sectors zero_loop block_write free_map_allocate bitmap_scan_and_flip
    bitmap_scan scan_loop bitmap_contains contains_loop bitmap_test bitmap_set_multiple set_loop
    bitmap_set bitmap_mark bitmap_reset store_group write_map bitmap_write byte_cnt elem_cnt
    file_write_at inode_write_at write_loop write_chunk bounce block_read byte_to_sector chunk_size
    inode_length
file_created = refl

open-create_example : OpenedEmpty 300 33 700 afterwards (opened_new 300 33 afterwards)
unfolding find_open at bit
open-create_example =
    open-create 300 33 700 before afterwards before-Valid (λ ne. before-MapOpen.writable) refl refl
      (omega arith) (omega arith) (omega arith) refl (omega arith) refl file_created

abbrev gone_open : OpenFile
gone_open = record { inode = 200; file = record { position = 12; deny_write = true } }

abbrev denied : FileSystem
denied = record before {
  inodes = λ a. if a == 400 then map_file else record gone_file { deny_write_cnt = 1 };
}

denied-Opened : Opened denied
denied-Opened = record {
  openers = λ a m. ground arith;
  denies = λ a m. ground arith;
  single = λ a b p q e. ground (arith, p, q, e);
  once = (refl, (refl, tt));
  ne_null = refl;
}

denied-MapOpen : MapOpen denied
denied-MapOpen = record {
  is_open = omega arith;
  writable = record { fits = omega arith; native = refl };
}

denied-InUse : InUse (record gone_file { deny_write_cnt = 1 }) before.free_map.map
denied-InUse =
    let u = gone_file-InUse in
    record {
      sector_used = u.sector_used;
      blocks_used = u.blocks_used;
      sector_inside = u.sector_inside;
      blocks_inside = u.blocks_inside;
      apart = u.apart;
    }

file_close-Opened_example :
    (fs' : FileSystem) × (file_close (some gone_open) denied ≡ some fs')
    × ClosedAs (writes_allowed gone_open denied) 200 fs'
    × Opened fs'
file_close-Opened_example =
    file_close-Opened gone_open denied denied-Opened
      (record { listed = refl; denials = omega arith }) before-Valid (λ e. denied-InUse)
      (λ e. denied-MapOpen)

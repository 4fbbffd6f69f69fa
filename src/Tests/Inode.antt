-- ===== src/Tests/Inode.antt =====
-- A file of 1000 bytes at sector 3 of a device of 8 sectors, written and read across two sectors.
use os_pint_os_project.Base.{
  ℕ, [], ◌∷◌, ◌+◌, ◌%◌, ◌<◌, true, false, some, ◌≡◌, arith, refl, if◌then◌else◌, ◌==◌,
}
use os_pint_os_project.Inode.{
  Block, Inode, Bytes, inode_read_at, chunk_size, byte_to_sector, inode_length, block_read, blit,
  inode_write_at, write_loop, write_chunk, block_write, bounce, inode_deny_write,
}
use os_pint_os_project.Inode.Read.{available, Copied, inode_read_at-Copied}
use os_pint_os_project.Inode.Write.{Written, inode_write_at-Written}
use os_pint_os_project.File.{File, file_deny_write, file_write}
use os_pint_os_project.File.Denial.{Shared, file_deny_write-Shared}
use os_pint_os_project.Inode.Roundtrip.{read-write}

abbrev disk : Block
disk = record {
  size = 8;
  foreign = false;
  read_cnt = 0;
  write_cnt = 0;
  contents = λ s o. (s + o) % 256;
}

abbrev letter : Inode
letter = record {
  sector = 2;
  removed = false;
  open_cnt = 1;
  deny_write_cnt = 0;
  start = 3;
  len = 1000;
}

abbrev buffer : Bytes
buffer j = 7

inode_read_at-Copied_example :
    (d' : Block) × (buffer' : Bytes) × (inode_read_at true letter buffer 600 500 disk
      ≡ some (available letter 600 500, d', buffer'))
    × Copied letter 500 0 (available letter 600 500) disk buffer d' buffer'
inode_read_at-Copied_example = inode_read_at-Copied letter buffer 600 500 disk (omega arith)

inode_write_at-Written_example :
    (d' : Block) × (inode_write_at true letter buffer 600 500 disk
      ≡ some (available letter 600 500, d'))
    × Written letter 500 0 (available letter 600 500) buffer disk d'
inode_write_at-Written_example =
    inode_write_at-Written letter buffer 600 500 disk (omega arith) refl refl

abbrev after : Block
after = record disk {
  read_cnt = 1;
  write_cnt = 1;
  contents = λ s. if 3 == s then blit (disk.contents 3) 10 buffer 0 20 else disk.contents s;
}

letter_written : inode_write_at true letter buffer 20 10 disk ≡ some (20, after)
unfolding inode_write_at write_loop write_chunk block_write bounce block_read chunk_size
    byte_to_sector inode_length
letter_written = refl

read-write_example :
    (d2 : Block) × (back : Bytes) × (inode_read_at true letter (λ j. 0) 20 10 after
      ≡ some (20, d2, back))
    × ((j : ℕ) → j < 20 → back j ≡ buffer j)
read-write_example =
    read-write letter buffer (λ j. 0) 20 10 disk after 20 (omega arith) refl refl letter_written

denied : inode_deny_write letter ≡ some (record letter { deny_write_cnt = 1 })
unfolding inode_deny_write
denied = refl

abbrev reader : File
reader = record { position = 4; deny_write = false }

abbrev program : File
program = record { position = 0; deny_write = true }

-- Both have the file open; one denies writes.
abbrev shared : Inode
shared = record letter { open_cnt = 2; deny_write_cnt = 1 }

Shared-shared : Shared shared (program ∷ reader ∷ [])
Shared-shared = record { opened = omega arith; counted = refl }

file_deny_write-Shared_example :
    (i' : Inode) × (f' : File) × (file_deny_write shared reader ≡ some (i', f'))
    × (f'.deny_write ≡ true)
    × Shared i' (program ∷ f' ∷ [])
    × (file_write true i' program buffer 5 disk ≡ some (0, record program { position = 0 }, disk))
file_deny_write-Shared_example =
    file_deny_write-Shared shared (program ∷ []) [] reader program buffer 5 disk Shared-shared

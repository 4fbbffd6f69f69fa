-- ===== src/Tests/Directory.antt =====
-- A directory of three slots, all free, on a device of 8 sectors, and the name "ab" in memory.
use os_pint_os_project.Base.{
  ℕ, Bool, true, false, List, [], ◌∷◌, Option, some, none, ◌==◌, if◌then◌else◌, ◌≡◌, inl, arith,
  refl,
}
use os_pint_os_project.Strings.{Memory, copy_up, memcpy}
use os_pint_os_project.Strings.Search.{end_loop, strlen, strcmp, strcmp_loop}
use os_pint_os_project.Strings.Copy.{copy_and_end, bounded, strlcpy}
use os_pint_os_project.Inode.{
  Inode, Block, inode_read_at, read_loop, read_chunk, block_read, chunk_size, byte_to_sector,
  inode_length, inode_write_at, write_loop, write_chunk, bounce, block_write,
}
use os_pint_os_project.OpenInodes.{word_at}
use os_pint_os_project.Directory.Entries.{
  bytes_at, read_entry, has_name, lookup_loop, lookup, free_loop, fill_entry, write_slot, add_entry,
  dir_add,
}
use os_pint_os_project.Directory.Lookup.{Named}
use os_pint_os_project.Directory.Search.{Looked, Left, lookup-Looked}
use os_pint_os_project.Directory.Add.{Added, dir_add-Added}
use os_pint_os_project.Directory.Roundtrip.{lookup-dir_add}

abbrev root : Inode
root = record { sector = 1; removed = false; open_cnt = 1; deny_write_cnt = 0; start = 3; len = 60 }

abbrev disk : Block
disk = record { size = 8; foreign = false; read_cnt = 0; write_cnt = 0; contents = λ s o. 0 }

abbrev memory : Memory
memory a = if a == 100 then b'a' else if a == 101 then b'b' else 0

abbrev ab : List ℕ
ab = b'a' ∷ b'b' ∷ []

ab-Named : Named 100 200 memory ab
ab-Named = record {
  string = omega arith;
  ne_null = omega arith;
  ends = omega arith;
  apart = inl (omega arith);
  short = omega arith;
}

lookup-Looked_example :
    (r : Option ℕ) × (m' : Memory) × (d' : Block) × (lookup true root 100 200 memory disk
      ≡ some (r, m', d'))
    × Looked root disk ab 0 r
    × Left root 200 memory disk r m' d'
lookup-Looked_example = lookup-Looked root 100 200 ab memory disk (omega arith) ab-Named

dir_add-Added_example :
    (b : Bool) × (m' : Memory) × (d' : Block) × (dir_add true root 100 200 5 memory disk
      ≡ some (b, m', d'))
    × Added root 5 ab disk d' b
    × (d'.size ≡ 8)
dir_add-Added_example =
    dir_add-Added root 100 200 5 ab refl memory disk (omega arith) refl ab-Named (λ e. cc)

abbrev memory_of : Option (Bool × Memory × Block) → Memory
memory_of none = memory
memory_of (some (b, m, d)) = m

abbrev device_of : Option (Bool × Memory × Block) → Block
device_of none = disk
device_of (some (b, m, d)) = d

abbrev outcome : Option (Bool × Memory × Block)
outcome = dir_add true root 100 200 5 memory disk

added_run :
    dir_add true root 100 200 5 memory disk ≡ some (true, memory_of outcome, device_of outcome)
unfolding dir_add add_entry lookup lookup_loop read_entry has_name strcmp strcmp_loop strlen
    end_loop write_slot free_loop fill_entry strlcpy bounded copy_and_end memcpy copy_up
    inode_read_at read_loop read_chunk block_read chunk_size byte_to_sector inode_length
    inode_write_at write_loop write_chunk bounce block_write
added_run = refl

lookup-dir_add_example :
    (p : ℕ) × (m3 : Memory) × (d3 : Block) × (lookup true root 100 300 memory (device_of outcome)
      ≡ some (some p, m3, d3))
    × (word_at (bytes_at 300 m3) 0 ≡ 5)
lookup-dir_add_example =
    lookup-dir_add root 100 200 5 ab memory (memory_of outcome) disk (device_of outcome) refl
      (omega arith) refl ab-Named (λ e. cc) (omega arith) added_run 100 300 memory
      (record {
        string = omega arith;
        ne_null = omega arith;
        ends = omega arith;
        apart = inl (omega arith);
        short = omega arith;
      })

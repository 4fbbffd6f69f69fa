-- ===== src/Directory/Entries.antt =====
-- filesys/directory.c: the entries of a directory. A function keeps its `struct dir_entry e` at the
-- address `e` of memory, where lookup leaves the entry that it found.
use os_pint_os_project.Base.{
  ℕ, zero, suc, ◌+◌, ◌-◌, ◌/◌, Bool, true, false, not, ◌&&◌, ◌||◌, Option, none, some, ltb, leb,
  ◌==◌, if◌then◌else◌, update, ℤ, pos, negsuc,
}
use os_pint_os_project.Base.Check.{◌>>=◌, ◌>>◌, assert}
use os_pint_os_project.Strings.{Memory}
use os_pint_os_project.Strings.Search.{strlen, strcmp}
use os_pint_os_project.Strings.Copy.{strlcpy}
use os_pint_os_project.Inode.{Inode, Block, Bytes, inode_read_at, inode_write_at}
use os_pint_os_project.OpenInodes.{
  FileSystem, null, byte_of, word_at, inode_open, inode_remove, inode_close,
}
use os_pint_os_project.Directory.{Dir, dir_entry_size}

abbrev pub name_max : ℕ
name_max = 14

-- The places in a struct dir_entry.
abbrev pub name_ofs : ℕ
name_ofs = 4

abbrev pub in_use_ofs : ℕ
in_use_ofs = 19

-- The bytes at `e`.
abbrev pub bytes_at : (e : ℕ) → Memory → Bytes
bytes_at e m j = m (e + j)

-- The memory with the entry `b` at `e`.
abbrev pub with_entry : (e : ℕ) → Bytes → Memory → Memory
with_entry e b m a = if leb e a && ltb a (e + dir_entry_size) then b (a - e) else m a

-- `inode_read_at (dir->inode, &e, sizeof e, ofs) == sizeof e`. `has_memory` is for its buffer.
unfoldable pub read_entry :
    (has_memory : Bool) → Inode → (e ofs : ℕ) → Memory → Block → Option (Bool × Memory × Block)
read_entry has_memory i e ofs m d = do
  (n, d', b) ← inode_read_at has_memory i (bytes_at e m) dir_entry_size ofs d
  some (n == dir_entry_size, with_entry e b m, d')

abbrev pub is_zero : ℤ → Bool
is_zero (pos n) = n == 0
is_zero (negsuc n) = false

-- `e.in_use && !strcmp (name, e.name)`
unfoldable pub has_name : (name e : ℕ) → Memory → Option Bool
has_name name e m =
    if m (e + in_use_ofs) == 0
    then some false
    else (strcmp name (e + name_ofs) m >>= λ r. some (is_zero r))

-- The offset of the entry, if there is one. A round is made for each entry and one for the end.
unfoldable pub lookup_loop :
    (n : ℕ) (has_memory : Bool) (i : Inode) (name e ofs : ℕ)
    → Memory
    → Block
    → Option (Option ℕ × Memory × Block)
lookup_loop zero has_memory i name e ofs m d = none
lookup_loop (suc n) has_memory i name e ofs m d = do
  (whole, m', d') ← read_entry has_memory i e ofs m d
  hit ← if whole then has_name name e m' else some false
  let rest = lookup_loop n has_memory i name e (ofs + dir_entry_size) m' d'
  if hit then some (some ofs, m', d') else if whole then rest else some (none, m', d')

abbrev pub rounds : Inode → ℕ
rounds i = i.len / dir_entry_size + 1

unfoldable pub lookup :
    (has_memory : Bool) (i : Inode) (name e : ℕ)
    → Memory
    → Block
    → Option (Option ℕ × Memory × Block)
lookup has_memory i name e m d = do
  assert (not (name == null))
  lookup_loop (rounds i) has_memory i name e 0 m d

-- The result, the inode and what has changed. `a` is what malloc gives for an inode.
unfoldable pub dir_lookup :
    (has_memory : Bool) (a : ℕ) (dir : Dir) (name e : ℕ)
    → Memory
    → FileSystem
    → Option (Bool × ℕ × Memory × FileSystem)
dir_lookup has_memory a dir name e m fs = do
  (found, m', d) ← lookup has_memory (fs.inodes dir.inode) name e m fs.device
  elim found [
    | none ↦ some (false, null, m', record fs { device = d })
    | some ofs ↦ do
      (inode, fs') ← inode_open a (word_at (bytes_at e m') 0) (record fs { device = d })
      some (not (inode == null), inode, m', fs')
  ]

-- The offset of a free slot, or of the end.
unfoldable pub free_loop :
    (n : ℕ) (has_memory : Bool) (i : Inode) (e ofs : ℕ)
    → Memory
    → Block
    → Option (ℕ × Memory × Block)
free_loop zero has_memory i e ofs m d = none
free_loop (suc n) has_memory i e ofs m d = do
  (whole, m', d') ← read_entry has_memory i e ofs m d
  let rest = free_loop n has_memory i e (ofs + dir_entry_size) m' d'
  if whole && not (m' (e + in_use_ofs) == 0) then rest else some (ofs, m', d')

-- The assignments to the fields of `e`.
unfoldable pub fill_entry : (name e inode_sector : ℕ) → Memory → Option Memory
fill_entry name e inode_sector m = do
  (_, m') ← strlcpy (e + name_ofs) name (name_max + 1) (update m (e + in_use_ofs) 1)
  some (λ a. if leb e a && ltb a (e + 4) then byte_of inode_sector (a - e) else m' a)

-- `write slot`, and whether it succeeded.
unfoldable pub write_slot :
    (has_memory : Bool) (i : Inode) (name e inode_sector : ℕ)
    → Memory
    → Block
    → Option (Bool × Memory × Block)
write_slot has_memory i name e inode_sector m d = do
  (ofs, m1, d1) ← free_loop (rounds i) has_memory i e 0 m d
  m2 ← fill_entry name e inode_sector m1
  (n, d2) ← inode_write_at has_memory i (bytes_at e m2) dir_entry_size ofs d1
  some (n == dir_entry_size, m2, d2)

-- The part of dir_add after the check of the name.
unfoldable pub add_entry :
    (has_memory : Bool) (i : Inode) (name e inode_sector : ℕ)
    → Memory
    → Block
    → Option (Bool × Memory × Block)
add_entry has_memory i name e inode_sector m d = do
  (found, m', d') ← lookup has_memory i name e m d
  elim found [
    | some ofs ↦ some (false, m', d')
    | none ↦ write_slot has_memory i name e inode_sector m' d'
  ]

-- The inode of the directory stays as it is: the result has the memory and the device.
unfoldable pub dir_add :
    (has_memory : Bool) (i : Inode) (name e inode_sector : ℕ)
    → Memory
    → Block
    → Option (Bool × Memory × Block)
dir_add has_memory i name e inode_sector m d = do
  assert (not (name == null))
  n ← if m name == 0 then some 0 else strlen name m
  if m name == 0 || ltb name_max n
      then some (false, m, d)
      else add_entry has_memory i name e inode_sector m d

-- Erases the entry at `e`, whose inode is open, and removes the inode.
unfoldable pub erase :
    (has_memory : Bool) (dir : Dir) (e ofs inode : ℕ)
    → Memory
    → FileSystem
    → Option (Bool × Memory × FileSystem)
erase has_memory dir e ofs inode m fs = do
  let m' = update m (e + in_use_ofs) 0
  (n, d) ←
      inode_write_at has_memory (fs.inodes dir.inode) (bytes_at e m') dir_entry_size ofs fs.device
  fs' ←
      if n == dir_entry_size
      then inode_remove inode (record fs { device = d })
      else some (record fs { device = d })
  some (n == dir_entry_size, m', fs')

unfoldable pub remove_found :
    (has_memory : Bool) (a : ℕ) (dir : Dir) (e ofs : ℕ)
    → Memory
    → FileSystem
    → Option (Bool × Memory × FileSystem)
remove_found has_memory a dir e ofs m fs = do
  (inode, fs1) ← inode_open a (word_at (bytes_at e m) 0) fs
  (success, m', fs2) ←
      if inode == null then some (false, m, fs1) else erase has_memory dir e ofs inode m fs1
  fs3 ← inode_close inode fs2
  some (success, m', fs3)

unfoldable pub dir_remove :
    (has_memory : Bool) (a : ℕ) (dir : Dir) (name e : ℕ)
    → Memory
    → FileSystem
    → Option (Bool × Memory × FileSystem)
dir_remove has_memory a dir name e m fs = do
  (found, m', d) ← lookup has_memory (fs.inodes dir.inode) name e m fs.device
  elim found [
    | none ↦ (inode_close null (record fs { device = d }) >>= λ fs'. some (false, m', fs'))
    | some ofs ↦ remove_found has_memory a dir e ofs m' (record fs { device = d })
  ]

-- The loop over the entries from the directory's position on; the position is returned.
unfoldable pub readdir_loop :
    (n : ℕ) (has_memory : Bool) (i : Inode) (name e position : ℕ)
    → Memory
    → Block
    → Option (Bool × ℕ × Memory × Block)
readdir_loop zero has_memory i name e position m d = none
readdir_loop (suc n) has_memory i name e position m d = do
  (whole, m', d') ← read_entry has_memory i e position m d
  let position' = position + dir_entry_size
  let rest = readdir_loop n has_memory i name e position' m' d'
  let copied =
      strlcpy name (e + name_ofs) (name_max + 1) m' >>= λ r. some (true, position', r.1, d')
  if not whole
      then some (false, position, m', d')
      else if m' (e + in_use_ofs) == 0
      then rest
      else copied

unfoldable pub dir_readdir :
    (has_memory : Bool) (i : Inode) (dir : Dir) (name e : ℕ)
    → Memory
    → Block
    → Option (Bool × Dir × Memory × Block)
dir_readdir has_memory i dir name e m d = do
  (found, position, m', d') ← readdir_loop (rounds i) has_memory i name e dir.position m d
  some (found, record dir { position = position }, m', d')

-- ===== src/Pagedir.antt =====
-- userprog/pagedir.c, with threads/pte.h and threads/vaddr.h: page directories in a memory of words of
-- 32 bits. `none` is a failed ASSERT. An address of a page is a multiple of 4096, so that `|` with
-- flags adds them.
pub mod Tables
pub mod Mapping
pub mod Creation
pub mod Addition
pub mod SetPage
pub mod Marks
pub mod Flags
use os_pint_os_project.Base.{
  ℕ, ◌+◌, ◌-◌, ◌*◌, ◌/◌, ◌%◌, Bool, true, false, not, ◌&&◌, ◌||◌, Option, none, some, ltb, leb,
  ◌==◌, if◌then◌else◌, update,
}
use os_pint_os_project.Base.Check.{◌>>=◌, ◌>>◌, assert}

abbrev pub null : ℕ
null = 0

abbrev pub phys_base : ℕ
phys_base = 3221225472

-- The word at an address.
abbrev pub Words : Type 0
Words = ℕ → ℕ

abbrev pub pg_ofs : ℕ → ℕ
pg_ofs va = va % 4096

abbrev pub is_user_vaddr : ℕ → Bool
is_user_vaddr va = ltb va phys_base

unfoldable pub ptov : ℕ → Option ℕ
ptov paddr = do assert (ltb paddr phys_base); some (paddr + phys_base)

unfoldable pub vtop : ℕ → Option ℕ
vtop vaddr = do assert (leb phys_base vaddr); some (vaddr - phys_base)

abbrev pub pt_no : ℕ → ℕ
pt_no va = va / 4096 % 1024

abbrev pub pd_no : ℕ → ℕ
pd_no va = va / 4194304

-- Whether the flag of value `f`, a power of 2, is set.
abbrev pub flag : (f entry : ℕ) → Bool
flag f entry = entry / f % 2 == 1

abbrev pub pte_p : ℕ
pte_p = 1

abbrev pub pte_w : ℕ
pte_w = 2

abbrev pub pte_u : ℕ
pte_u = 4

abbrev pub pte_a : ℕ
pte_a = 32

abbrev pub pte_d : ℕ
pte_d = 64

-- `entry | f` and `entry & ~f`
abbrev pub set_flag : (f entry : ℕ) → ℕ
set_flag f entry = if flag f entry then entry else entry + f

abbrev pub clear_flag : (f entry : ℕ) → ℕ
clear_flag f entry = if flag f entry then entry - f else entry

-- `entry & PTE_ADDR`
abbrev pub pte_addr : ℕ → ℕ
pte_addr entry = entry / 4096 * 4096

unfoldable pub pde_create : ℕ → Option ℕ
unfolding vtop
pde_create pt = do assert (pg_ofs pt == 0); p ← vtop pt; some (p + (pte_u + pte_p + pte_w))

unfoldable pub pde_get_pt : ℕ → Option ℕ
unfolding ptov
pde_get_pt pde = do assert (flag pte_p pde); ptov (pte_addr pde)

unfoldable pub pte_create_kernel : (page : ℕ) → (writable : Bool) → Option ℕ
unfolding vtop
pte_create_kernel page writable = do
  assert (pg_ofs page == 0)
  p ← vtop page
  some (p + (pte_p + (if writable then pte_w else 0)))

unfoldable pub pte_create_user : (page : ℕ) → (writable : Bool) → Option ℕ
unfolding pte_create_kernel
pte_create_user page writable = do entry ← pte_create_kernel page writable; some (entry + pte_u)

unfoldable pub pte_get_page : ℕ → Option ℕ
unfolding ptov
pte_get_page pte = ptov (pte_addr pte)

-- A page of zeros, as palloc_get_page gives it for PAL_ZERO.
abbrev pub zeroed : ℕ → Words → Words
zeroed page mem a = if leb page a && ltb a (page + 4096) then 0 else mem a

-- `&pt[pt_no (vaddr)]` of the table that a directory entry points to.
unfoldable pub entry_address : (pde vaddr : ℕ) → Option ℕ
unfolding pde_get_pt
entry_address pde vaddr = do pt ← pde_get_pt pde; some (pt + 4 * pt_no vaddr)

-- `page` is what palloc_get_page gives. The result is the address of the entry, or NULL.
unfoldable pub lookup_page :
    (pd vaddr : ℕ) → (create : Bool) → (page : ℕ) → Words → Option (ℕ × Words)
unfolding entry_address pde_create
lookup_page pd vaddr create page mem =
    let pde = pd + 4 * pd_no vaddr in
    let made = (do
      entry ← pde_create page
      pte ← entry_address entry vaddr
      some (pte, update (zeroed page mem) pde entry)) in
    let there = (do pte ← entry_address (mem pde) vaddr; some (pte, mem)) in
    let looked =
      if not (mem pde == 0)
      then there
      else if not create || (page == null)
      then some (null, mem)
      else made in
    (do assert (not (pd == null)); assert (not create || is_user_vaddr vaddr); looked)

-- The entry is written if there is one.
unfoldable pub install : (pte kpage : ℕ) → (writable : Bool) → Words → Option (Bool × Words)
unfolding pte_create_user
install pte kpage writable mem =
    let written = (do
      assert (not (flag pte_p (mem pte)))
      entry ← pte_create_user kpage writable
      some (true, update mem pte entry)) in
    if pte == null then some (false, mem) else written

unfoldable pub pagedir_set_page :
    (init_page_dir init_ram_pages : ℕ) (pd upage kpage : ℕ) (writable : Bool) (page : ℕ)
    → Words
    → Option (Bool × Words)
unfolding vtop lookup_page install
pagedir_set_page init_page_dir init_ram_pages pd upage kpage writable page mem = do
  assert (pg_ofs upage == 0)
  assert (pg_ofs kpage == 0)
  assert (is_user_vaddr upage)
  frame ← vtop kpage
  assert (ltb (frame / 4096) init_ram_pages)
  assert (not (pd == init_page_dir))
  (pte, mem') ← lookup_page pd upage true page mem
  install pte kpage writable mem'

-- The address of the byte, of a page that is present.
unfoldable pub mapped_at : (pte uaddr : ℕ) → Words → Option ℕ
unfolding pte_get_page
mapped_at pte uaddr mem =
    let there = (do p ← pte_get_page (mem pte); some (p + pg_ofs uaddr)) in
    if not (pte == null) && flag pte_p (mem pte) then there else some null

unfoldable pub pagedir_get_page : (pd uaddr : ℕ) → Words → Option ℕ
unfolding lookup_page mapped_at
pagedir_get_page pd uaddr mem = do
  assert (is_user_vaddr uaddr)
  (pte, _) ← lookup_page pd uaddr false null mem
  mapped_at pte uaddr mem

-- The write of an entry that is there. What invalidate_pagedir does to the CPU's cache of entries is
-- not part of memory.
unfoldable pub change_entry : (ℕ → ℕ) → (pte : ℕ) → Words → Words
change_entry f pte mem = if pte == null then mem else update mem pte (f (mem pte))

unfoldable pub pagedir_clear_page : (pd upage : ℕ) → Words → Option Words
unfolding lookup_page change_entry
pagedir_clear_page pd upage mem = do
  assert (pg_ofs upage == 0)
  assert (is_user_vaddr upage)
  (pte, _) ← lookup_page pd upage false null mem
  some (change_entry (clear_flag pte_p) pte mem)

-- `pte != NULL && (*pte & f) != 0`
unfoldable pub entry_flag : (f pd vpage : ℕ) → Words → Option Bool
unfolding lookup_page
entry_flag f pd vpage mem = do
  (pte, _) ← lookup_page pd vpage false null mem
  some (not (pte == null) && flag f (mem pte))

unfoldable pub pagedir_is_dirty : (pd vpage : ℕ) → Words → Option Bool
unfolding entry_flag
pagedir_is_dirty pd vpage mem = entry_flag pte_d pd vpage mem

unfoldable pub pagedir_is_accessed : (pd vpage : ℕ) → Words → Option Bool
unfolding entry_flag
pagedir_is_accessed pd vpage mem = entry_flag pte_a pd vpage mem

unfoldable pub mark : (f : ℕ) → (set : Bool) → (pd vpage : ℕ) → Words → Option Words
unfolding lookup_page change_entry
mark f set pd vpage mem = do
  (pte, _) ← lookup_page pd vpage false null mem
  some (change_entry (if set then set_flag f else clear_flag f) pte mem)

unfoldable pub pagedir_set_dirty : (pd vpage : ℕ) → (dirty : Bool) → Words → Option Words
unfolding mark
pagedir_set_dirty pd vpage dirty mem = mark pte_d dirty pd vpage mem

unfoldable pub pagedir_set_accessed : (pd vpage : ℕ) → (accessed : Bool) → Words → Option Words
unfolding mark
pagedir_set_accessed pd vpage accessed mem = mark pte_a accessed pd vpage mem

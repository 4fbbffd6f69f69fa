-- ===== src/Pagedir/Tables.antt =====
-- The page tables of a directory, and the entry of a page.
use os_pint_os_project.Base.{
  ℕ, ◌+◌, ◌*◌, ◌%◌, ◌<◌, true, false, Option, some, ltb, ◌==◌, if◌then◌else◌, ◌≡◌, ◌≢◌, inl, inr,
  arith, refl, Bool-cases, lt→ltb, ne→==,
}
use os_pint_os_project.Base.Check.{◌>>=◌}
use os_pint_os_project.Pagedir.{
  null, phys_base, Words, ptov, pt_no, pd_no, flag, pte_addr, pde_get_pt, pte_get_page,
  entry_address, lookup_page, mapped_at, pagedir_get_page,
}

-- The page table that entry `i` of the directory points to.
abbrev pub table : (pd : ℕ) → Words → (i : ℕ) → ℕ
table pd mem i = pte_addr (mem (pd + 4 * i)) + phys_base

-- The entries of the directory for user addresses are 0 or point to page tables, each on a page of
-- its own.
pub record Tables (pd : ℕ) (mem : Words) : Type 0 where
  pub aligned : pd % 4096 ≡ 0
  pub ne_null : pd ≢ null
  pub present : (i : ℕ) → i < 768 → mem (pd + 4 * i) ≢ 0 → flag 1 (mem (pd + 4 * i)) ≡ true
  pub inside : (i : ℕ) → i < 768 → mem (pd + 4 * i) < phys_base
  pub apart : (i : ℕ) → i < 768 → mem (pd + 4 * i) ≢ 0 → table pd mem i ≢ pd
  pub separate :
      (i j : ℕ)
      → i < 768
      → j < 768
      → mem (pd + 4 * i) ≢ 0
      → mem (pd + 4 * j) ≢ 0
      → table pd mem i ≡ table pd mem j
      → i ≡ j

-- The address of the entry of a page, whose table is there.
abbrev pub entry_at : (pd : ℕ) → Words → (va : ℕ) → ℕ
entry_at pd mem va = table pd mem (pd_no va) + 4 * pt_no va

-- The entry of a page; 0 if its table is missing.
abbrev pub page_entry : (pd : ℕ) → Words → (va : ℕ) → ℕ
page_entry pd mem va = if mem (pd + 4 * pd_no va) == 0 then 0 else mem (entry_at pd mem va)

-- The address of the byte that an entry maps `va` to, or NULL.
abbrev pub translated : (entry va : ℕ) → Option ℕ
translated entry va =
    if flag 1 entry then (pte_get_page entry >>= λ p. some (p + va % 4096)) else some null

pub entry_address_lem :
    (pd va : ℕ) (mem : Words)
    → Tables pd mem
    → va < phys_base
    → mem (pd + 4 * pd_no va) ≢ 0
    → entry_address (mem (pd + 4 * pd_no va)) va ≡ some (entry_at pd mem va)
unfolding entry_address pde_get_pt ptov
entry_address_lem pd va mem t user there =
    let low : pd_no va < 768 = omega arith in
    let is = t.present (pd_no va) low there in
    let below : ltb (pte_addr (mem (pd + 4 * pd_no va))) phys_base ≡ true =
      lt→ltb (pte_addr (mem (pd + 4 * pd_no va))) phys_base
        (omega (arith, t.inside (pd_no va) low)) in
    rw (is, below) refl

-- Looking a user address up translates it by the entry of its page.
pub get_page-translated :
    (pd va : ℕ) (mem : Words)
    → Tables pd mem
    → va < phys_base
    → pagedir_get_page pd va mem ≡ translated (page_entry pd mem va) va
unfolding pagedir_get_page lookup_page mapped_at
get_page-translated pd va mem t user = elim (Bool-cases (mem (pd + 4 * pd_no va) == 0)) [
  | inl missing ↦ rw (lt→ltb va phys_base user, ne→== pd null t.ne_null, missing) refl
  | inr there ↦
      let e = entry_address_lem pd va mem t user (ground (arith, there)) in
      let some_entry : (entry_at pd mem va == null) ≡ false = ground arith in
      rw (lt→ltb va phys_base user, ne→== pd null t.ne_null, there, e, some_entry) refl
]

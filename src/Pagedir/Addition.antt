-- ===== src/Pagedir/Addition.antt =====
-- Adding a page to a directory.
use os_pint_os_project.Base.{
  ℕ, ◌+◌, ◌-◌, ◌*◌, ◌/◌, ◌%◌, ◌<◌, ◌≤◌, Bool, true, false, some, ◌==◌, if◌then◌else◌, ◌≡◌, ◌≢◌, inl,
  inr, arith, refl, sym, ap, ◌∙◌, ==_refl, ==_iff, Bool-cases, le→leb, ne→==,
}
use os_pint_os_project.Pagedir.{
  null, phys_base, Words, ptov, vtop, pd_no, flag, pte_create_user, pte_create_kernel, pte_get_page,
  install, pagedir_get_page,
}
use os_pint_os_project.Pagedir.Tables.{
  Tables, entry_at, page_entry, translated, get_page-translated,
}
use os_pint_os_project.Pagedir.Mapping.{written, written-Tables, page_entry-written}
use os_pint_os_project.Pagedir.Creation.{
  Fresh, with_table, with_table-Tables, page_entry-with_table,
}

-- The entry for a frame.
abbrev pub pte_of : (kpage : ℕ) → (writable : Bool) → ℕ
pte_of kpage writable = kpage - phys_base + (1 + (if writable then 2 else 0)) + 4

-- A page of the kernel.
pub record Frame (kpage : ℕ) : Type 0 where
  pub aligned : kpage % 4096 ≡ 0
  pub kernel : phys_base ≤ kpage
  pub inside : kpage < 4294967296

translated-pte_of :
    (kpage : ℕ) (writable : Bool) (va : ℕ)
    → Frame kpage
    → translated (pte_of kpage writable) va ≡ some (kpage + va % 4096)
unfolding pte_get_page ptov
translated-pte_of kpage writable va k = ground (arith, k.aligned, k.kernel, k.inside)

-- The entry of a page that is not mapped is not present.
pub not_present : (entry va : ℕ) → translated entry va ≡ some null → flag 1 entry ≡ false
unfolding pte_get_page ptov
not_present entry va e = ground arith

-- The state after a page is added: the tables are in order, the entry of the page is that of a user
-- page in the frame with the rights asked for, and the directory maps the addresses of
-- the page to the frame and all others as before.
pub record Mapped (pd upage kpage : ℕ) (writable : Bool) (mem mem' : Words) : Type 0 where
  pub tables : Tables pd mem'
  pub entry : page_entry pd mem' upage ≡ pte_of kpage writable
  pub mapping :
      (va : ℕ)
      → va < phys_base
      → pagedir_get_page pd va mem' ≡ (
          if va / 4096 == upage / 4096
          then some (kpage + va % 4096)
          else pagedir_get_page pd va mem)

module _ (pd upage kpage : ℕ) (writable : Bool) (mem : Words) (t : Tables pd mem)
    (user : upage < phys_base) (there : mem (pd + 4 * pd_no upage) ≢ 0) (k : Frame kpage)
    (absent : flag 1 (page_entry pd mem upage) ≡ false) where
  replaced :
      (va : ℕ)
      → va < phys_base
      → translated
          (if va / 4096 == upage / 4096 then pte_of kpage writable else page_entry pd mem va)
          va
        ≡ (if va / 4096 == upage / 4096
            then some (kpage + va % 4096)
            else pagedir_get_page pd va mem)
  replaced va h = elim (Bool-cases (va / 4096 == upage / 4096)) [
    | inl same ↦ rw same (translated-pte_of kpage writable va k)
    | inr other ↦ rw other (sym (get_page-translated pd va mem t h))
  ]

  pub install-Mapped :
      install (entry_at pd mem upage) kpage writable mem
        ≡ some (true, written pd upage (pte_of kpage writable) mem t user there)
      × Mapped pd upage kpage writable mem
          (written pd upage (pte_of kpage writable) mem t user there)
  unfolding install pte_create_user pte_create_kernel vtop written
  install-Mapped =
      let some_entry : (entry_at pd mem upage == null) ≡ false = ground arith in
      let free : flag 1 (mem (entry_at pd mem upage)) ≡ false =
        ap (λ b. flag 1 (if b then 0 else mem (entry_at pd mem upage)))
          (sym (ne→== (mem (pd + 4 * pd_no upage)) 0 there))
        ∙ absent in
      let even : (kpage % 4096 == 0) ≡ true = (==_iff (kpage % 4096) 0).1 k.aligned in
      (
        rw (some_entry, free, even, le→leb phys_base kpage k.kernel) refl,
        record {
          tables = written-Tables pd upage (pte_of kpage writable) mem t user there;
          entry =
              page_entry-written pd upage (pte_of kpage writable) mem t user there upage user
              ∙ rw (==_refl (upage / 4096)) refl;
          mapping = λ va h.
              get_page-translated pd va (written pd upage (pte_of kpage writable) mem t user there)
                (written-Tables pd upage (pte_of kpage writable) mem t user there) h
              ∙ ap (λ e. translated e va)
                  (page_entry-written pd upage (pte_of kpage writable) mem t user there va h)
              ∙ replaced va h;
        },
      )

-- An empty table changes no mapping.
pub Mapped-with_table :
    (pd upage kpage : ℕ) (writable : Bool) (page : ℕ) (mem mem' : Words) (t : Tables pd mem)
    (user : upage < phys_base) (missing : mem (pd + 4 * pd_no upage) ≡ 0) (f : Fresh pd mem page)
    → Mapped pd upage kpage writable (with_table pd upage page mem t user missing f) mem'
    → Mapped pd upage kpage writable mem mem'
Mapped-with_table pd upage kpage writable page mem mem' t user missing f m = record {
  tables = m.tables;
  entry = m.entry;
  mapping = λ va h.
      m.mapping va h
      ∙ ap (λ r. if va / 4096 == upage / 4096 then some (kpage + va % 4096) else r)
          (get_page-translated pd va (with_table pd upage page mem t user missing f)
              (with_table-Tables pd upage page mem t user missing f) h
            ∙ ap (λ e. translated e va)
                (page_entry-with_table pd upage page mem t user missing f va h)
            ∙ sym (get_page-translated pd va mem t h));
}

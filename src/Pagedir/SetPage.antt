-- ===== src/Pagedir/SetPage.antt =====
-- pagedir_set_page of userprog/pagedir.c.
use os_pint_os_project.Base.{
  ℕ, ◌+◌, ◌-◌, ◌*◌, ◌/◌, ◌%◌, ◌<◌, Bool, true, false, Option, some, ◌==◌, ◌≡◌, ◌≢◌, ◌⊎◌, inl, inr,
  arith, refl, sym, ap, ◌∙◌, ==_refl, ==_iff, Bool-cases, lt→ltb, le→leb, ne→==,
}
use os_pint_os_project.Base.Check.{◌>>=◌}
use os_pint_os_project.Pagedir.{
  null, phys_base, Words, vtop, pd_no, flag, pde_create, entry_address, lookup_page, install,
  pagedir_set_page, pagedir_get_page,
}
use os_pint_os_project.Pagedir.Tables.{
  Tables, entry_at, page_entry, entry_address_lem, get_page-translated,
}
use os_pint_os_project.Pagedir.Creation.{
  Fresh, with_table, with_table-Tables, page_entry-with_table, at_new,
}
use os_pint_os_project.Pagedir.Addition.{
  Frame, not_present, Mapped, install-Mapped, Mapped-with_table,
}

module _ (pd upage page : ℕ) (mem : Words) (t : Tables pd mem) (user : upage < phys_base) where
  lookup_there :
      mem (pd + 4 * pd_no upage) ≢ 0
      → lookup_page pd upage true page mem ≡ some (entry_at pd mem upage, mem)
  unfolding lookup_page
  lookup_there there =
      rw
        (
          ne→== pd null t.ne_null,
          lt→ltb upage phys_base user,
          ne→== (mem (pd + 4 * pd_no upage)) 0 there,
          entry_address_lem pd upage mem t user there,
        )
        refl

  lookup_missing :
      mem (pd + 4 * pd_no upage) ≡ 0
      → page ≡ null
      → lookup_page pd upage true page mem ≡ some (null, mem)
  unfolding lookup_page
  lookup_missing missing no_page =
      rw (ne→== pd null t.ne_null, lt→ltb upage phys_base user, missing, no_page) refl

  lookup_made :
      (missing : mem (pd + 4 * pd_no upage) ≡ 0) (f : Fresh pd mem page)
      → lookup_page pd upage true page mem
        ≡ some (
          entry_at pd (with_table pd upage page mem t user missing f) upage,
          with_table pd upage page mem t user missing f,
        )
  unfolding lookup_page pde_create vtop with_table
  lookup_made missing f =
      let here : with_table pd upage page mem t user missing f (pd + 4 * pd_no upage)
          ≡ page - phys_base + 7 =
        at_new pd upage page mem t user missing f (pd_no upage) (==_refl (pd_no upage)) in
      let address =
        ap (λ w. entry_address w upage) (sym here)
        ∙ entry_address_lem pd upage (with_table pd upage page mem t user missing f)
            (with_table-Tables pd upage page mem t user missing f) user (ground (arith, here)) in
      let some_page : (page == null) ≡ false = ne→== page null (omega (arith, f.kernel)) in
      let even : (page % 4096 == 0) ≡ true = (==_iff (page % 4096) 0).1 f.aligned in
      let made : lookup_page pd upage true page mem ≡ (
          entry_address (page - phys_base + 7) upage >>= λ pte.
          some (pte, with_table pd upage page mem t user missing f)) =
        rw
          (
            ne→== pd null t.ne_null,
            lt→ltb upage phys_base user,
            missing,
            some_page,
            even,
            le→leb phys_base page f.kernel,
          )
          refl in
      made
      ∙ ap (λ r. r >>= λ pte. some (pte, with_table pd upage page mem t user missing f)) address

  with_table-there :
      (missing : mem (pd + 4 * pd_no upage) ≡ 0) (f : Fresh pd mem page)
      → with_table pd upage page mem t user missing f (pd + 4 * pd_no upage) ≢ 0
  with_table-there missing f z =
      omega
        (arith, z, at_new pd upage page mem t user missing f (pd_no upage) (==_refl (pd_no upage)))

-- What pagedir_set_page promises: it maps the page, or there was no page for a table and nothing is
-- changed.
pub record SetPage (pd upage kpage : ℕ) (writable : Bool) (page : ℕ) (mem : Words) (ok : Bool)
    (mem' : Words) : Type 0 where
  pub added : ok ≡ true → Mapped pd upage kpage writable mem mem'
  pub failed : ok ≡ false → page ≡ null × mem' ≡ mem

set_page_lem :
    (init_page_dir init_ram_pages pd upage kpage : ℕ) (writable : Bool) (page : ℕ) (mem : Words)
    → upage % 4096 ≡ 0
    → upage < phys_base
    → Frame kpage
    → (kpage - phys_base) / 4096 < init_ram_pages
    → pd ≢ init_page_dir
    → pagedir_set_page init_page_dir init_ram_pages pd upage kpage writable page mem
      ≡ (lookup_page pd upage true page mem >>= λ (pte, mem'). install pte kpage writable mem')
unfolding pagedir_set_page vtop
set_page_lem init_page_dir init_ram_pages pd upage kpage writable page mem even user k ram other =
    rw
      (
        (==_iff (upage % 4096) 0).1 even,
        (==_iff (kpage % 4096) 0).1 k.aligned,
        lt→ltb upage phys_base user,
        le→leb phys_base kpage k.kernel,
        lt→ltb ((kpage - phys_base) / 4096) init_ram_pages ram,
        ne→== pd init_page_dir other,
      )
      refl

install-null :
    (kpage : ℕ) (writable : Bool) (mem : Words)
    → install null kpage writable mem ≡ some (false, mem)
unfolding install
install-null kpage writable mem = refl

-- Let `pd` be a directory whose tables are in order, not init_page_dir, `upage` a user page that it
-- does not map, `kpage` a page of the kernel whose frame is below init_ram_pages, and `page` NULL or a
-- page of the kernel that the directory does not use. Then pagedir_set_page returns: either true, and
-- then the tables are in order, the entry of `upage` has the frame, PTE_P, PTE_U, and PTE_W if
-- `writable`, and pagedir_get_page maps each byte of `upage` to the byte of `kpage` at its place and
-- all other user addresses as before; or false, and then `page` was NULL and memory
-- is as it was.
pub pagedir_set_page-Mapped :
    (init_page_dir init_ram_pages pd upage kpage : ℕ) (writable : Bool) (page : ℕ) (mem : Words)
    → Tables pd mem
    → upage % 4096 ≡ 0
    → upage < phys_base
    → Frame kpage
    → (kpage - phys_base) / 4096 < init_ram_pages
    → pd ≢ init_page_dir
    → page ≡ null ⊎ Fresh pd mem page
    → pagedir_get_page pd upage mem ≡ some null
    → (ok : Bool) × (mem' : Words) × pagedir_set_page init_page_dir init_ram_pages pd upage kpage
          writable page mem
        ≡ some (ok, mem')
      × SetPage pd upage kpage writable page mem ok mem'
pagedir_set_page-Mapped init_page_dir init_ram_pages pd upage kpage writable page mem t even user k
      ram other pages unmapped =
    let absent =
      not_present (page_entry pd mem upage) upage
        (sym (get_page-translated pd upage mem t user) ∙ unmapped) in
    elim (Bool-cases (mem (pd + 4 * pd_no upage) == 0)) [
      | inr there ↦
          let word : mem (pd + 4 * pd_no upage) ≢ 0 = ground (arith, there) in
          let m = install-Mapped pd upage kpage writable mem t user word k absent in
          returns (runs ∙ ap continue (lookup_there pd upage page mem t user word) ∙ m.0)
            (on_true m.1)
      | inl missing ↦ elim pages [
        | inl no_page ↦
            returns
              (runs
                ∙ ap continue
                    (lookup_missing pd upage page mem t user (ground (arith, missing)) no_page)
                ∙ install-null kpage writable mem)
              (on_false no_page)
        | inr f ↦
            let word : mem (pd + 4 * pd_no upage) ≡ 0 = ground (arith, missing) in
            let m =
              install-Mapped pd upage kpage writable (with_table pd upage page mem t user word f)
                (with_table-Tables pd upage page mem t user word f) user
                (with_table-there pd upage page mem t user word f) k
                (ap (flag 1) (page_entry-with_table pd upage page mem t user word f upage user)
                  ∙ absent) in
            returns (runs ∙ ap continue (lookup_made pd upage page mem t user word f) ∙ m.0)
              (on_true (Mapped-with_table pd upage kpage writable page mem _ t user word f m.1))
      ]
    ]
  where
    continue : Option (ℕ × Words) → Option (Bool × Words)
    continue r = r >>= λ (pte, mem'). install pte kpage writable mem'

    runs :
        pagedir_set_page init_page_dir init_ram_pages pd upage kpage writable page mem
        ≡ continue (lookup_page pd upage true page mem)
    runs =
        set_page_lem init_page_dir init_ram_pages pd upage kpage writable page mem even user k ram
          other

    on_true :
        {mem' : Words}
        → Mapped pd upage kpage writable mem mem'
        → SetPage pd upage kpage writable page mem true mem'
    on_true m = record { added = λ _. m; failed = λ e. cc e }

    on_false : page ≡ null → SetPage pd upage kpage writable page mem false mem
    on_false e = record { added = λ e. cc e; failed = λ _. (e, refl) }

    returns :
        {ok : Bool} {mem' : Words}
        → pagedir_set_page init_page_dir init_ram_pages pd upage kpage writable page mem
          ≡ some (ok, mem')
        → SetPage pd upage kpage writable page mem ok mem'
        → (ok : Bool) × (mem' : Words) × pagedir_set_page init_page_dir init_ram_pages pd upage
              kpage writable page mem
            ≡ some (ok, mem')
          × SetPage pd upage kpage writable page mem ok mem'
    returns {ok} {mem'} e m = (ok, mem', e, m)

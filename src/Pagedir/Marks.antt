-- ===== src/Pagedir/Marks.antt =====
-- Changing the flags of an entry: pagedir_clear_page and pagedir_set_dirty of userprog/pagedir.c.
use os_pint_os_project.Base.{
  ℕ, ◌+◌, ◌*◌, ◌/◌, ◌%◌, ◌<◌, true, false, Option, some, ◌==◌, if◌then◌else◌, ◌≡◌, ◌≢◌, inl, inr,
  arith, refl, ap, ap₂, ◌∙◌, Bool-cases, ne→==,
}
use os_pint_os_project.Base.Check.{◌>>=◌}
use os_pint_os_project.Pagedir.{
  null, phys_base, Words, ptov, pd_no, flag, pte_addr, set_flag, clear_flag, pte_get_page,
  lookup_page, change_entry, entry_flag,
}
use os_pint_os_project.Pagedir.Tables.{Tables, entry_at, page_entry, translated, entry_address_lem}
use os_pint_os_project.Pagedir.Mapping.{written, written-Tables, page_entry-written}

translated-same :
    (e e' va : ℕ) → flag 1 e' ≡ flag 1 e → e' / 4096 ≡ e / 4096 → translated e' va ≡ translated e va
unfolding pte_get_page ptov
translated-same e e' va present page = rw (present, page) refl

-- An entry that is changed in its flag for dirty pages still maps to the same place.
pub translated-set_flag : (entry va : ℕ) → translated (set_flag 64 entry) va ≡ translated entry va
translated-set_flag entry va =
    translated-same entry (set_flag 64 entry) va (ground arith) (ground arith)

pub translated-clear_flag :
    (entry va : ℕ) → translated (clear_flag 64 entry) va ≡ translated entry va
translated-clear_flag entry va =
    translated-same entry (clear_flag 64 entry) va (ground arith) (ground arith)

pub translated-clear_present : (entry va : ℕ) → translated (clear_flag 1 entry) va ≡ some null
unfolding pte_get_page ptov
translated-clear_present entry va = ground (arith)

pub flag-dirty : (entry : ℕ) → flag 64 (set_flag 64 entry) ≡ true
flag-dirty entry = ground arith

pub flag-clean : (entry : ℕ) → flag 64 (clear_flag 64 entry) ≡ false
flag-clean entry = ground arith

pub accessed-dirty : (entry : ℕ) → flag 32 (set_flag 64 entry) ≡ flag 32 entry
accessed-dirty entry = ground arith

pub accessed-clean : (entry : ℕ) → flag 32 (clear_flag 64 entry) ≡ flag 32 entry
accessed-clean entry = ground arith

module _ (pd upage : ℕ) (mem : Words) (t : Tables pd mem) (user : upage < phys_base) where
  lookup_found :
      mem (pd + 4 * pd_no upage) ≢ 0
      → lookup_page pd upage false null mem ≡ some (entry_at pd mem upage, mem)
  unfolding lookup_page
  lookup_found there =
      rw
        (
          ne→== pd null t.ne_null,
          ne→== (mem (pd + 4 * pd_no upage)) 0 there,
          entry_address_lem pd upage mem t user there,
        )
        refl

  lookup_none :
      mem (pd + 4 * pd_no upage) ≡ 0 → lookup_page pd upage false null mem ≡ some (null, mem)
  unfolding lookup_page
  lookup_none missing = rw (ne→== pd null t.ne_null, missing) refl

  -- A flag is read from the entry of the page.
  pub entry_flag_lem :
      (f : ℕ)
      → flag f 0 ≡ false
      → entry_flag f pd upage mem ≡ some (flag f (page_entry pd mem upage))
  unfolding entry_flag
  entry_flag_lem f zero = elim (Bool-cases (mem (pd + 4 * pd_no upage) == 0)) [
    | inl missing ↦ rw (lookup_none (ground (arith, missing)), missing, zero) refl
    | inr there ↦
        let some_entry : (entry_at pd mem upage == null) ≡ false = ground arith in
        rw (lookup_found (ground (arith, there)), there, some_entry) refl
  ]

-- What a change of the entry of a page does to memory.
unfoldable pub change : (ℕ → ℕ) → (pd upage : ℕ) → Words → Option Words
change g pd upage mem =
    lookup_page pd upage false null mem >>= λ (pte, m). some (change_entry g pte mem)

-- The state after the entry of a page is changed by `g`; an entry whose table is missing stays 0.
pub record Changed (g : ℕ → ℕ) (pd upage : ℕ) (mem mem' : Words) : Type 0 where
  pub tables : Tables pd mem'
  pub entries :
      (va : ℕ)
      → va < phys_base
      → page_entry pd mem' va ≡ (
          if va / 4096 == upage / 4096
          then (if mem (pd + 4 * pd_no upage) == 0 then 0 else g (page_entry pd mem va))
          else page_entry pd mem va)

-- Addresses of one page have one entry.
page_entry-same :
    (pd upage va : ℕ) (mem : Words)
    → (va / 4096 == upage / 4096) ≡ true
    → page_entry pd mem va ≡ page_entry pd mem upage
page_entry-same pd upage va mem same =
    let page : va / 4096 ≡ upage / 4096 = ground (arith, same) in
    let d : pd_no va ≡ pd_no upage = omega arith in
    ap₂
      (λ i k.
        if mem (pd + 4 * i) == 0 then 0 else mem (pte_addr (mem (pd + 4 * i)) + phys_base + 4 * k))
      d (ap (λ n. n % 1024) page)

pub page_entry_missing :
    (pd upage va : ℕ) (mem : Words)
    → (va / 4096 == upage / 4096) ≡ true
    → (mem (pd + 4 * pd_no upage) == 0) ≡ true
    → page_entry pd mem va ≡ 0
page_entry_missing pd upage va mem same missing =
    page_entry-same pd upage va mem same ∙ rw missing refl

pub change-Changed :
    (g : ℕ → ℕ) (pd upage : ℕ) (mem : Words)
    → Tables pd mem
    → upage < phys_base
    → (mem' : Words) × change g pd upage mem ≡ some mem' × Changed g pd upage mem mem'
unfolding change change_entry written
change-Changed g pd upage mem t user = elim (Bool-cases (mem (pd + 4 * pd_no upage) == 0)) [
  | inl missing ↦ (
    mem,
    rw (lookup_none pd upage mem t user (ground (arith, missing))) refl,
    record {
      tables = t;
      entries = λ va h. elim (Bool-cases (va / 4096 == upage / 4096)) [
        | inl same ↦ rw (page_entry-same pd upage va mem same, same, missing) refl
        | inr other ↦ rw other refl
      ];
    },
  )
  | inr there ↦
      let word : mem (pd + 4 * pd_no upage) ≢ 0 = ground (arith, there) in
      let some_entry : (entry_at pd mem upage == null) ≡ false = ground arith in
      (
        written pd upage (g (mem (entry_at pd mem upage))) mem t user word,
        rw (lookup_found pd upage mem t user word, some_entry) refl,
        record {
          tables = written-Tables pd upage (g (mem (entry_at pd mem upage))) mem t user word;
          entries = λ va h.
              page_entry-written pd upage (g (mem (entry_at pd mem upage))) mem t user word va h
              ∙ elim (Bool-cases (va / 4096 == upage / 4096)) [
                | inl same ↦ rw (page_entry-same pd upage va mem same, same, there) refl
                | inr other ↦ rw other refl
              ];
        },
      )
]

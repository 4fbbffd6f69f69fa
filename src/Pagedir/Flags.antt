-- ===== src/Pagedir/Flags.antt =====
-- pagedir_clear_page, pagedir_set_dirty and pagedir_is_dirty of userprog/pagedir.c.
use os_pint_os_project.Base.{
  ℕ, ◌+◌, ◌*◌, ◌/◌, ◌%◌, ◌<◌, Bool, true, false, not, ◌&&◌, some, ◌==◌, if◌then◌else◌, ◌≡◌, inl,
  inr, refl, sym, ap, ◌∙◌, ==_iff, Bool-cases, lt→ltb,
}
use os_pint_os_project.Pagedir.{
  null, phys_base, Words, pd_no, flag, set_flag, clear_flag, mark, pagedir_clear_page,
  pagedir_get_page, pagedir_is_dirty, pagedir_set_dirty, pagedir_is_accessed,
}
use os_pint_os_project.Pagedir.Tables.{Tables, page_entry, translated, get_page-translated}
use os_pint_os_project.Pagedir.Marks.{
  Changed, page_entry_missing, change, change-Changed, entry_flag_lem, translated-set_flag,
  translated-clear_flag, translated-clear_present, flag-dirty, flag-clean, accessed-dirty,
  accessed-clean,
}

-- The state after pagedir_clear_page: the page is not mapped, and others are as before.
pub record Unmapped (pd upage : ℕ) (mem mem' : Words) : Type 0 where
  pub tables : Tables pd mem'
  pub mapping :
      (va : ℕ)
      → va < phys_base
      → pagedir_get_page pd va mem'
        ≡ (if va / 4096 == upage / 4096 then some null else pagedir_get_page pd va mem)

-- The state after pagedir_set_dirty: the flag of the page is set or cleared if it has an entry, its
-- other flag and all mappings are as before, and so are the other pages.
pub record Marked (dirty : Bool) (pd vpage : ℕ) (mem mem' : Words) : Type 0 where
  pub tables : Tables pd mem'
  pub mapping : (va : ℕ) → va < phys_base → pagedir_get_page pd va mem' ≡ pagedir_get_page pd va mem
  pub is_dirty :
      (va : ℕ)
      → va < phys_base
      → pagedir_is_dirty pd va mem' ≡ (
          if va / 4096 == vpage / 4096
          then some (dirty && not (mem (pd + 4 * pd_no vpage) == 0))
          else pagedir_is_dirty pd va mem)
  pub is_accessed :
      (va : ℕ) → va < phys_base → pagedir_is_accessed pd va mem' ≡ pagedir_is_accessed pd va mem

and_false : (b : Bool) → false ≡ (b && false)
and_false true = refl
and_false false = refl

and_true : (b : Bool) → b ≡ (b && true)
and_true true = refl
and_true false = refl

module _ (g : ℕ → ℕ) (pd upage : ℕ) (mem mem' : Words) (t : Tables pd mem)
    (c : Changed g pd upage mem mem') where
  -- A property of entries that the change keeps.
  unchanged :
      {B : Type 0} (f : ℕ → B) (keeps : (e : ℕ) → f (g e) ≡ f e) (va : ℕ)
      → va < phys_base
      → f (page_entry pd mem' va) ≡ f (page_entry pd mem va)
  unchanged f keeps va h = ap f (c.entries va h) ∙ elim (Bool-cases (va / 4096 == upage / 4096)) [
    | inl same ↦ elim (Bool-cases (mem (pd + 4 * pd_no upage) == 0)) [
      | inl missing ↦ rw (same, missing, page_entry_missing pd upage va mem same missing) refl
      | inr there ↦ rw (same, there) (keeps (page_entry pd mem va))
    ]
    | inr other ↦ rw other refl
  ]

  mapping_kept :
      (keeps : (e va : ℕ) → translated (g e) va ≡ translated e va) (va : ℕ)
      → va < phys_base
      → pagedir_get_page pd va mem' ≡ pagedir_get_page pd va mem
  mapping_kept keeps va h =
      get_page-translated pd va mem' c.tables h
      ∙ unchanged (λ e. translated e va) (λ e. keeps e va) va h
      ∙ sym (get_page-translated pd va mem t h)

  accessed_kept :
      (keeps : (e : ℕ) → flag 32 (g e) ≡ flag 32 e) (va : ℕ)
      → va < phys_base
      → pagedir_is_accessed pd va mem' ≡ pagedir_is_accessed pd va mem
  unfolding pagedir_is_accessed
  accessed_kept keeps va h =
      entry_flag_lem pd va mem' c.tables h 32 refl
      ∙ ap some (unchanged (flag 32) keeps va h)
      ∙ sym (entry_flag_lem pd va mem t h 32 refl)

  dirty_is :
      (dirty : Bool) (sets : (e : ℕ) → flag 64 (g e) ≡ dirty) (va : ℕ)
      → va < phys_base
      → pagedir_is_dirty pd va mem' ≡ (
          if va / 4096 == upage / 4096
          then some (dirty && not (mem (pd + 4 * pd_no upage) == 0))
          else pagedir_is_dirty pd va mem)
  unfolding pagedir_is_dirty
  dirty_is dirty sets va h =
      entry_flag_lem pd va mem' c.tables h 64 refl
      ∙ ap (λ e. some (flag 64 e)) (c.entries va h)
      ∙ elim (Bool-cases (va / 4096 == upage / 4096)) [
        | inl same ↦ elim (Bool-cases (mem (pd + 4 * pd_no upage) == 0)) [
          | inl missing ↦ rw (same, missing) (ap some (and_false dirty))
          | inr there ↦ rw (same, there) (ap some (sets (page_entry pd mem va) ∙ and_true dirty))
        ]
        | inr other ↦ rw other (sym (entry_flag_lem pd va mem t h 64 refl))
      ]

-- pagedir_clear_page returns for a user page, and then pagedir_get_page gives NULL for each address
-- of the page and the same as before for all other user addresses.
pub pagedir_clear_page-Unmapped :
    (pd upage : ℕ) (mem : Words)
    → Tables pd mem
    → upage % 4096 ≡ 0
    → upage < phys_base
    → (mem' : Words) × pagedir_clear_page pd upage mem ≡ some mem' × Unmapped pd upage mem mem'
unfolding pagedir_clear_page change
pagedir_clear_page-Unmapped pd upage mem t even user =
    let (mem', runs, c) = change-Changed (clear_flag 1) pd upage mem t user in
    (
      mem',
      rw ((==_iff (upage % 4096) 0).1 even, lt→ltb upage phys_base user) runs,
      record {
        tables = c.tables;
        mapping = λ va h.
            get_page-translated pd va mem' c.tables h
            ∙ ap (λ e. translated e va) (c.entries va h)
            ∙ elim (Bool-cases (va / 4096 == upage / 4096)) [
              | inl same ↦ elim (Bool-cases (mem (pd + 4 * pd_no upage) == 0)) [
                | inl missing ↦ rw (same, missing) refl
                | inr there ↦ rw (same, there) (translated-clear_present (page_entry pd mem va) va)
              ]
              | inr other ↦ rw other (sym (get_page-translated pd va mem t h))
            ];
      },
    )

-- pagedir_set_dirty returns for an address of user memory, and then pagedir_is_dirty gives `dirty` for
-- its page, or false where the page has no table, and the same as before for other pages; no mapping
-- and no flag for accessed pages is changed.
pub pagedir_set_dirty-Marked :
    (pd vpage : ℕ) (dirty : Bool) (mem : Words)
    → Tables pd mem
    → vpage < phys_base
    → (mem' : Words) × pagedir_set_dirty pd vpage dirty mem ≡ some mem'
      × Marked dirty pd vpage mem mem'
unfolding pagedir_set_dirty mark change
pagedir_set_dirty-Marked pd vpage true mem t user =
    let (mem', runs, c) = change-Changed (set_flag 64) pd vpage mem t user in
    (
      mem',
      runs,
      record {
        tables = c.tables;
        mapping = mapping_kept (set_flag 64) pd vpage mem mem' t c translated-set_flag;
        is_dirty = dirty_is (set_flag 64) pd vpage mem mem' t c true flag-dirty;
        is_accessed = accessed_kept (set_flag 64) pd vpage mem mem' t c accessed-dirty;
      },
    )
pagedir_set_dirty-Marked pd vpage false mem t user =
    let (mem', runs, c) = change-Changed (clear_flag 64) pd vpage mem t user in
    (
      mem',
      runs,
      record {
        tables = c.tables;
        mapping = mapping_kept (clear_flag 64) pd vpage mem mem' t c translated-clear_flag;
        is_dirty = dirty_is (clear_flag 64) pd vpage mem mem' t c false flag-clean;
        is_accessed = accessed_kept (clear_flag 64) pd vpage mem mem' t c accessed-clean;
      },
    )

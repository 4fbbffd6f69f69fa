-- ===== src/Pagedir/Creation.antt =====
-- Adding an empty page table to a directory.
use os_pint_os_project.Base.{
  ℕ, ◌+◌, ◌-◌, ◌*◌, ◌%◌, ◌<◌, ◌≤◌, true, false, ◌&&◌, ltb, leb, ◌==◌, if◌then◌else◌, update, ◌≡◌,
  ◌≢◌, inl, inr, arith, refl, sym, ap, ◌∙◌, Bool-cases, ne→==,
}
use os_pint_os_project.Pagedir.{phys_base, Words, pt_no, pd_no, flag, pte_addr, zeroed}
use os_pint_os_project.Pagedir.Tables.{table, Tables, page_entry}

-- A page of the kernel that the directory does not use.
pub record Fresh (pd : ℕ) (mem : Words) (page : ℕ) : Type 0 where
  pub aligned : page % 4096 ≡ 0
  pub kernel : phys_base ≤ page
  pub inside : page < 4294967296
  pub not_pd : page ≢ pd
  pub not_table : (i : ℕ) → i < 768 → mem (pd + 4 * i) ≢ 0 → table pd mem i ≢ page

module _ (pd upage page : ℕ) (mem : Words) (t : Tables pd mem) (user : upage < phys_base)
    (missing : mem (pd + 4 * pd_no upage) ≡ 0) (f : Fresh pd mem page) where
  abbrev pub new_entry : ℕ
  new_entry = page - phys_base + 7

  unfoldable pub with_table : Words
  with_table = update (zeroed page mem) (pd + 4 * pd_no upage) new_entry

  new_table : pte_addr new_entry + phys_base ≡ page
  new_table = omega (arith, f.aligned, f.kernel)

  new_present : flag 1 new_entry ≡ true
  new_present = ground (arith, f.aligned, f.kernel)

  entry_of :
      {w : ℕ} (va : ℕ)
      → with_table (pd + 4 * pd_no va) ≡ w
      → page_entry pd with_table va
        ≡ (if w == 0 then 0 else with_table (pte_addr w + phys_base + 4 * pt_no va))
  entry_of va e =
      ap (λ x. if x == 0 then 0 else with_table (pte_addr x + phys_base + 4 * pt_no va)) e

  pub at_new : (i : ℕ) → (pd_no upage == i) ≡ true → with_table (pd + 4 * i) ≡ new_entry
  unfolding with_table
  at_new i h = ground (arith, h)

  at_old :
      (i : ℕ) → i < 768 → (pd_no upage == i) ≡ false → with_table (pd + 4 * i) ≡ mem (pd + 4 * i)
  unfolding with_table
  at_old i h other =
      let outside : (leb page (pd + 4 * i) && ltb (pd + 4 * i) (page + 4096)) ≡ false =
        ground (arith, t.aligned, f.aligned, f.not_pd) in
      ground (arith, outside, other)

  -- The table of an entry of the directory.
  table_new : (i : ℕ) → (pd_no upage == i) ≡ true → table pd with_table i ≡ page
  table_new i h = ap (λ w. pte_addr w + phys_base) (at_new i h) ∙ new_table

  table_old :
      (i : ℕ) → i < 768 → (pd_no upage == i) ≡ false → table pd with_table i ≡ table pd mem i
  table_old i h other = ap (λ w. pte_addr w + phys_base) (at_old i h other)

  old_word :
      (i : ℕ)
      → i < 768
      → (pd_no upage == i) ≡ false
      → with_table (pd + 4 * i) ≢ 0
      → mem (pd + 4 * i) ≢ 0
  old_word i h other ne z = ne (at_old i h other ∙ z)

  separate_tables :
      (i j : ℕ)
      → i < 768
      → j < 768
      → with_table (pd + 4 * i) ≢ 0
      → with_table (pd + 4 * j) ≢ 0
      → table pd with_table i ≡ table pd with_table j
      → i ≡ j
  separate_tables i j h g p q e = elim (Bool-cases (pd_no upage == i)) [
    | inl new ↦ elim (Bool-cases (pd_no upage == j)) [
      | inl same ↦ ground (arith, new, same)
      | inr old ↦
          absurd (
            f.not_table j g (old_word j g old q)
              (sym (table_old j g old) ∙ sym e ∙ table_new i new))
    ]
    | inr old ↦ elim (Bool-cases (pd_no upage == j)) [
      | inl new ↦
          absurd
            (f.not_table i h (old_word i h old p) (sym (table_old i h old) ∙ e ∙ table_new j new))
      | inr old2 ↦
          t.separate i j h g (old_word i h old p) (old_word j g old2 q)
            (sym (table_old i h old) ∙ e ∙ table_old j g old2)
    ]
  ]

  pub with_table-Tables : Tables pd with_table
  with_table-Tables = record {
    aligned = t.aligned;
    ne_null = t.ne_null;
    present = λ i h p. elim (Bool-cases (pd_no upage == i)) [
      | inl new ↦ ap (flag 1) (at_new i new) ∙ new_present
      | inr old ↦ ap (flag 1) (at_old i h old) ∙ t.present i h (old_word i h old p)
    ];
    inside = λ i h. elim (Bool-cases (pd_no upage == i)) [
      | inl new ↦ omega (arith, at_new i new, f.inside, f.aligned, f.kernel)
      | inr old ↦ omega (arith, at_old i h old, t.inside i h)
    ];
    apart = λ i h p e. elim (Bool-cases (pd_no upage == i)) [
      | inl new ↦ f.not_pd (sym (table_new i new) ∙ e)
      | inr old ↦ t.apart i h (old_word i h old p) (sym (table_old i h old) ∙ e)
    ];
    separate = separate_tables;
  }

  zero_inside : (k : ℕ) → k < 1024 → with_table (page + 4 * k) ≡ 0
  unfolding with_table
  zero_inside k h =
      let low : pd_no upage < 768 = omega arith in
      let other : ((pd + 4 * pd_no upage) == (page + 4 * k)) ≡ false =
        ne→== (pd + 4 * pd_no upage) (page + 4 * k)
          (omega (arith, t.aligned, f.aligned, f.not_pd)) in
      let inside : (leb page (page + 4 * k) && ltb (page + 4 * k) (page + 4096)) ≡ true =
        ground arith in
      rw (other, inside) refl

  old_entry :
      (i k : ℕ)
      → i < 768
      → k < 1024
      → mem (pd + 4 * i) ≢ 0
      → with_table (table pd mem i + 4 * k) ≡ mem (table pd mem i + 4 * k)
  unfolding with_table
  old_entry i k h g there =
      let low : pd_no upage < 768 = omega arith in
      let other : ((pd + 4 * pd_no upage) == (table pd mem i + 4 * k)) ≡ false =
        ne→== (pd + 4 * pd_no upage) (table pd mem i + 4 * k)
          (omega (arith, t.aligned, t.apart i h there)) in
      let outside : (leb page (table pd mem i + 4 * k)
            && ltb (table pd mem i + 4 * k) (page + 4096))
          ≡ false =
        ground (arith, f.aligned, f.not_table i h there) in
      rw (other, outside) refl

  -- An empty table maps no page.
  pub page_entry-with_table :
      (va : ℕ) → va < phys_base → page_entry pd with_table va ≡ page_entry pd mem va
  page_entry-with_table va h = elim (Bool-cases (pd_no upage == pd_no va)) [
    | inl new ↦
        let i : pd_no upage ≡ pd_no va = ground (arith, new) in
        let was : (mem (pd + 4 * pd_no va) == 0) ≡ true =
          ground (arith, ap (λ k. mem (pd + 4 * k)) i, missing) in
        entry_of va (at_new (pd_no va) new)
        ∙ ap (λ p. if new_entry == 0 then 0 else with_table (p + 4 * pt_no va)) new_table
        ∙ rw (was, zero_inside (pt_no va) (omega arith)) same_cases
    | inr old ↦
        let below : pd_no va < 768 = omega arith in
        entry_of va (at_old (pd_no va) below old)
        ∙ elim (Bool-cases (mem (pd + 4 * pd_no va) == 0)) [
          | inl missing_too ↦ rw missing_too refl
          | inr there ↦
              rw
                (there, old_entry (pd_no va) (pt_no va) below (omega arith) (ground (arith, there)))
                refl
        ]
  ]
    where
      same_cases : ◌≡◌ {A = ℕ} (if new_entry == 0 then 0 else 0) 0
      same_cases = ground arith

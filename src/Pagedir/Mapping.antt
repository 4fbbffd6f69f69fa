-- ===== src/Pagedir/Mapping.antt =====
-- Writing the entry of a page.
use os_pint_os_project.Base.{
  ℕ, ◌+◌, ◌*◌, ◌/◌, ◌%◌, ◌<◌, false, ◌==◌, if◌then◌else◌, update, ◌≡◌, ◌≢◌, inl, inr, arith, refl,
  sym, ap, ap₂, ◌∙◌, ==_refl, Bool-cases, ne→==,
}
use os_pint_os_project.Pagedir.{phys_base, Words, pt_no, pd_no, pte_addr}
use os_pint_os_project.Pagedir.Tables.{table, Tables, entry_at, page_entry}

-- Writing the entry of a page changes no other entry and no table.
module _ (pd upage entry : ℕ) (mem : Words) (t : Tables pd mem) (user : upage < phys_base)
    (there : mem (pd + 4 * pd_no upage) ≢ 0) where
  unfoldable pub written : Words
  written = update mem (entry_at pd mem upage) entry

  low : pd_no upage < 768
  low = omega arith

  -- The directory's own words are as they were.
  directory : (i : ℕ) → i < 768 → written (pd + 4 * i) ≡ mem (pd + 4 * i)
  unfolding written
  directory i h =
      let apart = t.apart (pd_no upage) low there in
      let other : (entry_at pd mem upage == (pd + 4 * i)) ≡ false =
        ne→== (entry_at pd mem upage) (pd + 4 * i) (omega (arith, t.aligned)) in
      rw other refl

  pub written-Tables : Tables pd written
  written-Tables = record {
    aligned = t.aligned;
    ne_null = t.ne_null;
    present = λ i h. rw (directory i h) (t.present i h);
    inside = λ i h. rw (directory i h) (t.inside i h);
    apart = λ i h. rw (directory i h) (t.apart i h);
    separate = λ i j h g. rw (directory i h, directory j g) (t.separate i j h g);
  }

  -- Entries at one address are those of one page.
  same_page :
      (va : ℕ)
      → va < phys_base
      → mem (pd + 4 * pd_no va) ≢ 0
      → entry_at pd mem upage ≡ entry_at pd mem va
      → va / 4096 ≡ upage / 4096
  same_page va h some_word e =
      let tables : table pd mem (pd_no upage) ≡ table pd mem (pd_no va) = omega arith in
      let k : pt_no upage ≡ pt_no va = omega arith in
      let d : pd_no upage ≡ pd_no va =
        t.separate (pd_no upage) (pd_no va) low (omega arith) there some_word tables in
      omega arith

  entry_is :
      (va : ℕ)
      → written (pd + 4 * pd_no va) ≡ mem (pd + 4 * pd_no va)
      → page_entry pd written va
        ≡ (if mem (pd + 4 * pd_no va) == 0 then 0 else written (entry_at pd mem va))
  entry_is va e = ap (λ w. if w == 0 then 0 else written (pte_addr w + phys_base + 4 * pt_no va)) e

  pub page_entry-written :
      (va : ℕ)
      → va < phys_base
      → page_entry pd written va
        ≡ (if va / 4096 == upage / 4096 then entry else page_entry pd mem va)
  unfolding written
  page_entry-written va h =
      let below : pd_no va < 768 = omega arith in
      let same_word = directory (pd_no va) below in
      elim (Bool-cases (va / 4096 == upage / 4096)) [
        | inl same ↦
            let page : va / 4096 ≡ upage / 4096 = ground (arith, same) in
            let d : pd_no va ≡ pd_no upage = omega arith in
            let k : pt_no va ≡ pt_no upage = ap (λ n. n % 1024) page in
            let here : entry_at pd mem va ≡ entry_at pd mem upage =
              ap₂ (λ i j. table pd mem i + 4 * j) d k in
            let some_word : (mem (pd + 4 * pd_no va) == 0) ≡ false =
              ne→== (mem (pd + 4 * pd_no va)) 0
                (λ z. there (ap (λ i. mem (pd + 4 * i)) (sym d) ∙ z)) in
            entry_is va same_word ∙ rw (some_word, same, here, ==_refl (entry_at pd mem upage)) refl
        | inr other ↦
            let page : va / 4096 ≢ upage / 4096 = ground (arith, other) in
            elim (Bool-cases (mem (pd + 4 * pd_no va) == 0)) [
              | inl missing ↦ entry_is va same_word ∙ rw (missing, other) refl
              | inr some_word ↦
                  let ne : entry_at pd mem upage ≢ entry_at pd mem va =
                    λ e. page (same_page va h (ground (arith, some_word)) e) in
                  entry_is va same_word
                  ∙ rw (some_word, other, ne→== (entry_at pd mem upage) (entry_at pd mem va) ne)
                      refl
            ]
      ]

-- ===== src/Tests/Pagedir.antt =====
-- A directory with no tables, at the first page of the kernel's memory.
use os_pint_os_project.Base.{ℕ, Bool, true, some, ◌==◌, if◌then◌else◌, ◌≡◌, inr, arith, refl}
use os_pint_os_project.Pagedir.{
  null, Words, lookup_page, mapped_at, pagedir_get_page, pagedir_set_page, pagedir_clear_page,
  pagedir_set_dirty,
}
use os_pint_os_project.Pagedir.Tables.{Tables}
use os_pint_os_project.Pagedir.Creation.{Fresh}
use os_pint_os_project.Pagedir.Addition.{Frame}
use os_pint_os_project.Pagedir.Flags.{
  Unmapped, Marked, pagedir_clear_page-Unmapped, pagedir_set_dirty-Marked,
}
use os_pint_os_project.Pagedir.SetPage.{SetPage, pagedir_set_page-Mapped}

abbrev empty : Words
empty a = 0

abbrev pd : ℕ
pd = 3221229568

empty-Tables : Tables pd empty
empty-Tables = record {
  aligned = refl;
  ne_null = omega arith;
  present = λ i h ne. absurd (ne refl);
  inside = λ i h. omega arith;
  apart = λ i h ne. absurd (ne refl);
  separate = λ i j h g ne. absurd (ne refl);
}

table-Fresh : Fresh pd empty 3221233664
table-Fresh = record {
  aligned = refl;
  kernel = omega arith;
  inside = omega arith;
  not_pd = omega arith;
  not_table = λ i h ne. absurd (ne refl);
}

kpage-Frame : Frame 3221237760
kpage-Frame = record { aligned = refl; kernel = omega arith; inside = omega arith }

unmapped : pagedir_get_page pd 134512640 empty ≡ some null
unfolding pagedir_get_page lookup_page mapped_at
unmapped = refl

pagedir_set_page-Mapped_example :
    (ok : Bool) × (mem' : Words) × pagedir_set_page 3221225472 1024 pd 134512640 3221237760 true
        3221233664 empty
      ≡ some (ok, mem')
    × SetPage pd 134512640 3221237760 true 3221233664 empty ok mem'
pagedir_set_page-Mapped_example =
    pagedir_set_page-Mapped 3221225472 1024 pd 134512640 3221237760 true 3221233664 empty
      empty-Tables refl (omega arith) kpage-Frame (omega arith) (omega arith) (inr table-Fresh)
      unmapped

-- A directory whose first table is on the next page and maps the first user page.
abbrev one_page : Words
one_page a = if a == pd then 8199 else if a == 3221233664 then 12295 else 0

one_page-Tables : Tables pd one_page
one_page-Tables = record {
  aligned = refl;
  ne_null = omega arith;
  present = λ i h ne. ground arith;
  inside = λ i h. ground arith;
  apart = λ i h ne. ground arith;
  separate = λ i j h g p q e. ground arith;
}

pagedir_clear_page-Unmapped_example :
    (mem' : Words) × pagedir_clear_page pd 0 one_page ≡ some mem' × Unmapped pd 0 one_page mem'
pagedir_clear_page-Unmapped_example =
    pagedir_clear_page-Unmapped pd 0 one_page one_page-Tables refl (omega arith)

pagedir_set_dirty-Marked_example :
    (mem' : Words) × pagedir_set_dirty pd 5 true one_page ≡ some mem'
    × Marked true pd 5 one_page mem'
pagedir_set_dirty-Marked_example =
    pagedir_set_dirty-Marked pd 5 true one_page one_page-Tables (omega arith)

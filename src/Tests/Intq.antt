-- ===== src/Tests/Intq.antt =====
-- A ring whose next byte goes to the last place, and one that is empty.
use os_pint_os_project.Base.{ℕ, false, [], ◌∷◌, ◌++◌, ◌≡◌, arith, refl}
use os_pint_os_project.Threads.Kernel.{null, Kernel, ok}
use os_pint_os_project.Intq.{Intq, next, intq_putc, intq_getc, done}
use os_pint_os_project.Intq.Contents.{Valid, contents}
use os_pint_os_project.Intq.Transfer.{signalled, intq_putc-appends, intq_getc-takes}
use os_pint_os_project.Tests.Threads.{small}

abbrev ring : Intq
ring = record { lock = 100; not_full = null; not_empty = 7; buf = λ j. j; head = 63; tail = 61 }

abbrev masked : Kernel
masked = record small { intr_on = false }

ring-Valid : Valid ring
ring-Valid = omega arith

intq_putc-appends_example :
    (q' : Intq) × (intq_putc ring 200 masked ≡ ok (done tt q') (signalled 7 masked))
    × (contents q' ≡ contents ring ++ (200 ∷ []))
    × Valid q'
    × (q'.not_empty ≡ null)
    × (q'.not_full ≡ null)
unfolding next
intq_putc-appends_example =
    intq_putc-appends ring masked ring-Valid refl 200 (omega arith) (λ ne. ground arith)

intq_getc-takes_example :
    (byte : ℕ) × (q' : Intq) × (intq_getc ring masked ≡ ok (done byte q') masked)
    × (contents ring ≡ byte ∷ contents q')
    × Valid q'
    × (q'.not_full ≡ null)
    × (q'.not_empty ≡ 7)
intq_getc-takes_example =
    intq_getc-takes ring masked ring-Valid refl (omega arith) (λ ne. absurd (ne refl))

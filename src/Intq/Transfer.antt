-- ===== src/Intq/Transfer.antt =====
-- Putting bytes into an interrupt queue and taking them out.
use os_pint_os_project.Base.{
  ℕ, ◌+◌, ◌%◌, Bool, false, [], ◌∷◌, ◌++◌, ◌==◌, if◌then◌else◌, update, ◌≡◌, ◌≢◌, inl, inr, arith,
  refl, ap, ◌∙◌, ne→==, Bool-cases,
}
use os_pint_os_project.Threads.Kernel.{Ptr, null, blocked, Kernel, ok, intr_get_level}
use os_pint_os_project.Threads.Queue.{Is}
use os_pint_os_project.Threads.Unblock.{woken, thread_unblock_lem}
use os_pint_os_project.Intq.{
  Intq, Condition, next, not_full, not_empty, waiter, lacking, signal, wake, set_waiter, take_byte,
  put_byte, intq_empty, intq_full, intq_getc, intq_putc, done,
}
use os_pint_os_project.Intq.Contents.{Valid, contents, contents_put, contents_take}

-- A waiter is none or a thread that is blocked.
abbrev pub Sleeper : Ptr → Kernel → Type 0
Sleeper t k = (t ≢ null) → Is k.threads blocked t

-- The state after `signal` for a waiter.
abbrev pub signalled : Ptr → Kernel → Kernel
signalled t k = if t == null then k else woken t k

set_waiter-same : (c : Condition) (q : Intq) → waiter c q ≡ null → q ≡ set_waiter c null q
unfolding set_waiter waiter
set_waiter-same not_full q w = ap (λ t. record q { not_full = t }) w
set_waiter-same not_empty q w = ap (λ t. record q { not_empty = t }) w

wake_lem :
    (c : Condition) (t : Ptr) (q : Intq) (k : Kernel)
    → k.intr_on ≡ false
    → Sleeper t k
    → waiter c q ≡ t
    → wake c t q k ≡ ok (set_waiter c null q) (signalled t k)
unfolding wake
wake_lem c t q k off s w = elim (Bool-cases (t == null)) [
  | inl none_there ↦
      let is_null : t ≡ null = ground (arith, none_there) in
      rw none_there (ap (λ r. ok r k) (set_waiter-same c q (w ∙ is_null)))
  | inr there ↦ rw (there, thread_unblock_lem k t (λ _. off) (s (ground (arith, there)))) refl
]

signal_lem :
    (c : Condition) (q : Intq) (k : Kernel)
    → k.intr_on ≡ false
    → lacking c q k ≡ ok false k
    → Sleeper (waiter c q) k
    → signal c q k ≡ ok (set_waiter c null q) (signalled (waiter c q) k)
unfolding signal intr_get_level
signal_lem c q k off has s = simp (off, has, wake_lem c (waiter c q) q k off s refl)

lacking_empty :
    {b : Bool} (q : Intq) (k : Kernel)
    → k.intr_on ≡ false
    → (q.head == q.tail) ≡ b
    → lacking not_empty q k ≡ ok b k
unfolding lacking intq_empty intr_get_level
lacking_empty q k off e = ground (arith, off, e)

lacking_full :
    {b : Bool} (q : Intq) (k : Kernel)
    → k.intr_on ≡ false
    → (next q.head == q.tail) ≡ b
    → lacking not_full q k ≡ ok b k
unfolding lacking intq_full intr_get_level
lacking_full q k off e = ground (arith, off, e)

module _ (q : Intq) (k : Kernel) (v : Valid q) (off : k.intr_on ≡ false) where
  -- Putting a byte into a ring with room, interrupts being off and the waiter none or a thread that is
  -- blocked, does not sleep: the byte stands behind those there were, and the thread that waits for
  -- a byte, if there is one, is made ready and waits no more. The places stay inside the buffer.
  pub intq_putc-appends :
      (byte : ℕ)
      → next q.head ≢ q.tail
      → Sleeper q.not_empty k
      → (q' : Intq) × (intq_putc q byte k ≡ ok (done tt q') (signalled q.not_empty k))
        × (contents q' ≡ contents q ++ (byte ∷ []))
        × Valid q'
        × (q'.not_empty ≡ null)
        × (q'.not_full ≡ q.not_full)
  unfolding intq_putc intq_full put_byte lacking intr_get_level set_waiter waiter next
  intq_putc-appends byte room s =
      let q1 = record q { buf = update q.buf q.head byte; head = next q.head } in
      let not_full_now : (next q.head == q.tail) ≡ false = ne→== (next q.head) q.tail room in
      let some_now : ((q.head + 1) % 64 == q.tail) ≡ false = not_full_now in
      let holds = lacking_empty q1 k off some_now in
      (
        record q1 { not_empty = null },
        ground (arith, off, some_now, signal_lem not_empty q1 k off holds s),
        contents_put q v byte null room,
        record { head_inside = omega arith; tail_inside = v.tail_inside },
        refl,
        refl,
      )

  -- Taking a byte out of a ring that is not empty, interrupts being off and the waiter none or a
  -- thread that is blocked, does not sleep: it gives the oldest byte and leaves the others, and the
  -- thread that waits for room, if there is one, is made ready and waits no more. The places stay
  -- inside the buffer.
  pub intq_getc-takes :
      q.head ≢ q.tail
      → Sleeper q.not_full k
      → (byte : ℕ) × (q' : Intq) × (intq_getc q k ≡ ok (done byte q') (signalled q.not_full k))
        × (contents q ≡ byte ∷ contents q')
        × Valid q'
        × (q'.not_full ≡ null)
        × (q'.not_empty ≡ q.not_empty)
  unfolding intq_getc take_byte lacking intr_get_level set_waiter waiter next
  intq_getc-takes some_bytes s =
      let q1 = record q { tail = next q.tail } in
      let some_now : (q.head == q.tail) ≡ false = ne→== q.head q.tail some_bytes in
      let room : ((q.head + 1) % 64 == (q.tail + 1) % 64) ≡ false =
        ne→== ((q.head + 1) % 64) ((q.tail + 1) % 64)
          (λ e. some_bytes (omega (arith, v.head_inside, v.tail_inside))) in
      let holds = lacking_full q1 k off room in
      (
        q.buf q.tail,
        record q1 { not_full = null },
        ground (arith, off, lacking_empty q k off some_now, signal_lem not_full q1 k off holds s),
        contents_take q v null some_bytes,
        record { head_inside = v.head_inside; tail_inside = omega arith },
        refl,
        refl,
      )

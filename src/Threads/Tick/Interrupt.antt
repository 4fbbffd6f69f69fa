-- ===== src/Threads/Tick/Interrupt.antt =====
-- One timer interrupt: who wakes up, and when the running thread has to yield.
use os_pint_os_project.Base.{
  ◌+◌, ◌%◌, ◌^◌, ◌<◌, Bool, true, false, not, ◌&&◌, ◌||◌, List, [], ◌∷◌, ◌++◌, ◌==◌, if◌then◌else◌,
  leb, ◌≡◌, arith, refl, All, ◌∙◌, All-map,
}
use os_pint_os_project.Threads.Kernel.{Ptr, Kernel, ok, time_slice}
use os_pint_os_project.Threads.Schedule.{thread_current, is_thread}
use os_pint_os_project.Threads.Invariant.{Inv, Waiting}
use os_pint_os_project.Threads.Sleep.{update_slept_threads, wake_loop}
use os_pint_os_project.Threads.Sleep.Order.{
  wake_time, Sorted, Sorted-same, Sorted-later, due, later, later-lt,
}
use os_pint_os_project.Threads.Sleep.Wake.{wake_loop-Wakes}
use os_pint_os_project.Threads.Tick.{thread_tick, timer_interrupt}

-- The kernel after the counters of one tick, with the yield request of `thread_tick` itself.
abbrev pub is_empty : List Ptr → Bool
is_empty [] = true
is_empty (t ∷ ts) = false

-- What the code asks for: a yield when the slice is spent, and one tick before that if some thread
-- sleeps.
abbrev pub wants_yield : Kernel → Bool
wants_yield k =
    leb time_slice ((k.thread_ticks + 1) % 2 ^ 32)
    || not (is_empty k.already_slept)
      && leb time_slice (((k.thread_ticks + 1) % 2 ^ 32 + 1) % 2 ^ 32)

abbrev counted : Kernel → Kernel
counted k = record k {
  ticks = k.ticks + 1;
  thread_ticks = (k.thread_ticks + 1) % 2 ^ 32;
  idle_ticks = if k.cpu == k.idle_thread then k.idle_ticks + 1 else k.idle_ticks;
  kernel_ticks = if k.cpu == k.idle_thread then k.kernel_ticks else k.kernel_ticks + 1;
  yield_on_return = wants_yield k || k.yield_on_return;
}

-- The counters are no part of the invariant.
counted-Waiting : {k : Kernel} → Waiting k → Waiting (counted k)
counted-Waiting w = record {
  ready_queue = w.ready_queue;
  sleepers = w.sleepers;
  idle_ne_null = w.idle_ne_null;
  idle_magic = w.idle_magic;
  idle_not_ready = w.idle_not_ready;
  idle_awake = w.idle_awake;
}

counted-Inv : {k : Kernel} → Inv k → Inv (counted k)
counted-Inv v = record { current = v.current; alone = v.alone; waiting = counted-Waiting v.waiting }

wake_loop-nil : (k : Kernel) → wake_loop [] k ≡ ok tt k
unfolding wake_loop
wake_loop-nil k = refl

timer_interrupt-eq :
    (k : Kernel)
    → Inv k
    → k.in_external_intr ≡ true
    → timer_interrupt k ≡ wake_loop k.already_slept (counted k)
unfolding timer_interrupt thread_tick update_slept_threads thread_current is_thread
timer_interrupt-eq k v ext = go k.already_slept refl
  where
    go :
        (q : List Ptr)
        → k.already_slept ≡ q
        → timer_interrupt k ≡ wake_loop k.already_slept (counted k)
    go [] e =
        ground
          (arith, v.current.ne_null, v.current.magic, v.current.status, wake_loop-nil (counted k))
    go (t ∷ ts) e = ground (arith, v.current.ne_null, v.current.magic, v.current.status)

-- After one timer interrupt from a kernel in order.
pub record Ticked (k k' : Kernel) : Type 0 where
  pub inv : Inv k'
  pub ticks : k'.ticks ≡ k.ticks + 1
  pub woken : k'.ready_list ≡ k.ready_list ++ due k.threads (k.ticks + 1) k.already_slept
  pub still_asleep : k'.already_slept ≡ later k.threads (k.ticks + 1) k.already_slept
  pub not_due : All (λ t. k'.ticks < wake_time k'.threads t) k'.already_slept
  pub in_order : Sorted k'.threads k'.already_slept
  pub same_cpu : k'.cpu ≡ k.cpu
  pub same_level : k'.intr_on ≡ k.intr_on
  pub same_context : k'.in_external_intr ≡ k.in_external_intr
  pub asks_yield : k'.yield_on_return ≡ (wants_yield k || k.yield_on_return)

-- In the interrupt handler, with interrupts off and the sleeping queue in order, the timer handler
-- ends with no failed assertion. It counts the tick, makes ready, in their order, exactly the
-- sleeping threads that are due, leaves none asleep whose time has come, keeps the invariant and the
-- order, and asks for a yield when `wants_yield` says so.
pub timer_interrupt-Ticked :
    (k : Kernel)
    → Inv k
    → Sorted k.threads k.already_slept
    → k.in_external_intr ≡ true
    → k.intr_on ≡ false
    → (k' : Kernel) × (timer_interrupt k ≡ ok tt k') × Ticked k k'
timer_interrupt-Ticked k v ordered ext off =
    let (k', runs, w) = wake_loop-Wakes k.already_slept (counted k) refl (counted-Inv v) off in
    let left = later-lt k.threads (k.ticks + 1) k.already_slept ordered in
    let sorted = Sorted-later k.threads (k.ticks + 1) k.already_slept ordered in
    (
      k',
      timer_interrupt-eq k v ext ∙ runs,
      record {
        inv = w.inv;
        ticks = w.same_ticks;
        woken = w.lined_up;
        still_asleep = w.asleep;
        not_due = rw w.asleep (All-map _ _ _ (λ t h. rw (w.same_ticks, w.times t) h) left);
        in_order = rw w.asleep (Sorted-same k.threads k'.threads _ (λ t h. w.times t) sorted);
        same_cpu = w.same_cpu;
        same_level = w.same_level;
        same_context = w.same_context;
        asks_yield = w.same_yield;
      },
    )

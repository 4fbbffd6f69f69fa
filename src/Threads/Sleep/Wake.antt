-- ===== src/Threads/Sleep/Wake.antt =====
-- update_slept_threads wakes the threads whose time has come, and no other.
use os_pint_os_project.Base.{
  false, List, [], ◌∷◌, ◌++◌, leb, ◌≡◌, arith, refl, Bool-cases, inl, inr, append-nil, append_assoc,
  ◌∙◌, subst, sym,
}
use os_pint_os_project.Sequence.{remove}
use os_pint_os_project.Threads.Kernel.{Ptr, blocked, Kernel, ok}
use os_pint_os_project.Threads.Queue.{has, Is, Queue}
use os_pint_os_project.Threads.Invariant.{Inv}
use os_pint_os_project.Threads.Unblock.{woken, woken-Inv, thread_unblock_lem}
use os_pint_os_project.Threads.Sleep.{timer_ticks, wake, wake_loop}
use os_pint_os_project.Threads.Sleep.Order.{wake_time, due, later, due-same}

abbrev pub asleep : List Ptr → Kernel → Kernel
asleep q k = record k { already_slept = q }

-- From `k` to `k'` the due threads of the sleeping queue `q` have become ready.
pub record Wakes (q : List Ptr) (k k' : Kernel) : Type 0 where
  pub inv : Inv k'
  pub asleep : k'.already_slept ≡ later k.threads k.ticks q
  pub lined_up : k'.ready_list ≡ k.ready_list ++ due k.threads k.ticks q
  pub times : (t : Ptr) → wake_time k'.threads t ≡ wake_time k.threads t
  pub same_cpu : k'.cpu ≡ k.cpu
  pub same_ticks : k'.ticks ≡ k.ticks
  pub same_level : k'.intr_on ≡ k.intr_on
  pub same_context : k'.in_external_intr ≡ k.in_external_intr
  pub same_yield : k'.yield_on_return ≡ k.yield_on_return
  pub same_slice : k'.thread_ticks ≡ k.thread_ticks

wake_lem :
    (k : Kernel) (t : Ptr) (ts : List Ptr)
    → k.intr_on ≡ false
    → k.already_slept ≡ t ∷ ts
    → Is k.threads blocked t
    → wake t k ≡ ok tt (woken t (asleep ts k))
unfolding wake remove
wake_lem k t ts off q b = ground (arith, thread_unblock_lem (asleep ts k) t (λ _. off) b)

woken-times : (k : Kernel) (t u : Ptr) → wake_time (woken t k).threads u ≡ wake_time k.threads u
woken-times k t u = ground arith

timer_ticks_lem : (k : Kernel) → k.intr_on ≡ false → timer_ticks k ≡ ok k.ticks k
unfolding timer_ticks
timer_ticks_lem k off = ground arith

module _ {k : Kernel} {t : Ptr} {ts : List Ptr} (e : k.already_slept ≡ t ∷ ts) (v : Inv k) where
  front : Queue k.threads blocked (t ∷ ts)
  front = subst (Queue k.threads blocked) e v.waiting.sleepers

  idle_elsewhere : has k.idle_thread (t ∷ ts) ≡ false
  idle_elsewhere = subst (λ q. has k.idle_thread q ≡ false) e v.waiting.idle_awake

  -- Taking the first sleeper out keeps the invariant.
  asleep-Inv : Inv (asleep ts k)
  asleep-Inv = record {
    current = v.current;
    alone = v.alone;
    waiting = record {
      ready_queue = v.waiting.ready_queue;
      sleepers = record { each = front.each.1; once = front.once.1 };
      idle_ne_null = v.waiting.idle_ne_null;
      idle_magic = v.waiting.idle_magic;
      idle_not_ready = v.waiting.idle_not_ready;
      idle_awake = ground (arith, idle_elsewhere);
    };
  }

  -- So does waking it.
  woken-front : Inv (woken t (asleep ts k))
  woken-front = woken-Inv asleep-Inv front.each.0 (ground (arith, idle_elsewhere)) front.once.0

nobody_due :
    (q : List Ptr) (k : Kernel)
    → k.already_slept ≡ q
    → Inv k
    → due k.threads k.ticks q ≡ []
    → later k.threads k.ticks q ≡ q
    → Wakes q k k
nobody_due q k e v none_due all_later = record {
  inv = v;
  asleep = e ∙ sym all_later;
  lined_up = rw none_due (sym (append-nil k.ready_list));
  times = λ t. refl;
  same_cpu = refl;
  same_ticks = refl;
  same_level = refl;
  same_context = refl;
  same_yield = refl;
  same_slice = refl;
}

-- Whatever the queue, the loop ends, and it has woken the threads that are due.
pub wake_loop-Wakes :
    (q : List Ptr) (k : Kernel)
    → k.already_slept ≡ q
    → Inv k
    → k.intr_on ≡ false
    → (k' : Kernel) × (wake_loop q k ≡ ok tt k') × Wakes q k k'
unfolding wake_loop
wake_loop-Wakes [] k e v off = (k, refl, nobody_due [] k e v refl refl)
wake_loop-Wakes (t ∷ ts) k e v off = elim (Bool-cases (leb (wake_time k.threads t) k.ticks)) [
  | inr n ↦ (
    k,
    ground (arith, timer_ticks_lem k off),
    nobody_due (t ∷ ts) k e v (ground arith) (ground arith),
  )
  | inl y ↦
      let k1 : Kernel = woken t (asleep ts k) in
      let (k', runs, w) = wake_loop-Wakes ts k1 refl (woken-front e v) off in
      let same = due-same k.threads k1.threads k.ticks ts (λ u _. woken-times k t u) in
      (
        k',
        ground (arith, timer_ticks_lem k off, wake_lem k t ts off e (front e v).each.0),
        record {
          inv = w.inv;
          asleep = ground (arith, w.asleep, same.1);
          lined_up = ground (
            arith,
            w.lined_up,
            same.0,
            append_assoc k.ready_list (t ∷ []) (due k.threads k.ticks ts),
          );
          times = λ u. w.times u ∙ woken-times k t u;
          same_cpu = w.same_cpu;
          same_ticks = w.same_ticks;
          same_level = w.same_level;
          same_context = w.same_context;
          same_yield = w.same_yield;
          same_slice = w.same_slice;
        },
      )
]

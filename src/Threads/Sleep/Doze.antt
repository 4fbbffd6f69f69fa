-- ===== src/Threads/Sleep/Doze.antt =====
-- thread_sleep queues the running thread by its wake-up time and blocks it.
use os_pint_os_project.Base.{
  ℕ, ◌+◌, true, false, ◌∷◌, ◌++◌, ◌==◌, update, ◌≡◌, ◌≢◌, arith, refl, Bool-cases, inl, inr,
  ==_refl, ◌∙◌,
}
use os_pint_os_project.Sequence.{insert_ordered}
use os_pint_os_project.Threads.Kernel.{Ptr, running, blocked, Kernel, ok}
use os_pint_os_project.Threads.Queue.{has, Is, Queue-out, Queue-update}
use os_pint_os_project.Threads.Schedule.{thread_block, thread_current, is_thread}
use os_pint_os_project.Threads.Schedule.Switch.{next, switched, schedule_lem}
use os_pint_os_project.Threads.Block.{park}
use os_pint_os_project.Threads.Invariant.{Inv, Waiting, Parked, next_valid, switched-Inv}
use os_pint_os_project.Threads.Sleep.{
  thread_comparable_time_ticks, timer_ticks, go_to_sleep, thread_sleep,
}
use os_pint_os_project.Threads.Sleep.Order.{
  wake_time, Sorted, Sorted-insert, Sorted-same, Queue-insert, has-insert, insert_ordered-due, due,
  later, due-same,
}

-- The running thread with its wake-up time set, and with its name in the sleeping queue.
abbrev pub alarm : ℕ → Kernel → Kernel
alarm n k = record k {
  threads = update k.threads k.cpu (record (k.threads k.cpu) { time_ticks = n + k.ticks });
  intr_on = false;
}

abbrev pub dozing : ℕ → Kernel → Kernel
dozing n k = record (alarm n k) {
  already_slept =
      insert_ordered (thread_comparable_time_ticks (alarm n k).threads) k.cpu k.already_slept;
}

module _ {k : Kernel} (n : ℕ) (v : Inv k) (busy : k.cpu ≢ k.idle_thread) where
  abbrev parked : Kernel
  parked = park blocked (dozing n k)

  awake : has k.cpu k.already_slept ≡ false
  awake = Queue-out v.waiting.sleepers k.cpu (λ e. cc (v.current.status))

  not_in_line : has k.cpu k.ready_list ≡ false
  not_in_line = Queue-out v.waiting.ready_queue k.cpu (λ e. cc (v.current.status))

  cpu_blocked : Is parked.threads blocked k.cpu
  cpu_blocked = record {
    ne_null = v.current.ne_null;
    magic = rw (==_refl k.cpu) (v.current.magic);
    status = rw (==_refl k.cpu);
  }

  parked-Waiting : Waiting parked
  parked-Waiting = record {
    ready_queue =
        Queue-update (Queue-update v.waiting.ready_queue k.cpu _ not_in_line) k.cpu _ not_in_line;
    sleepers =
        Queue-insert (alarm n k).threads k.cpu
          (Queue-update (Queue-update v.waiting.sleepers k.cpu _ awake) k.cpu _ awake) awake
          cpu_blocked;
    idle_ne_null = v.waiting.idle_ne_null;
    idle_magic = ground (arith, v.waiting.idle_magic);
    idle_not_ready = v.waiting.idle_not_ready;
    idle_awake = ground (
      arith,
      has-insert (alarm n k).threads k.cpu k.idle_thread k.already_slept,
      v.waiting.idle_awake,
    );
  }

  parked-nobody : (t : Ptr) → ¬ Is parked.threads running t
  parked-nobody t r = elim (Bool-cases (k.cpu == t)) [
    | inl same ↦ ground (arith, rw same at (r.status))
    | inr other ↦ ground (
      arith,
      v.alone t (record {
        ne_null = r.ne_null;
        magic = rw other at (r.magic);
        status = rw other at (r.status);
      }),
    )
  ]

  parked-Parked : Parked parked
  parked-Parked = record {
    nobody = parked-nobody;
    stopped = rw (==_refl k.cpu);
    waiting = parked-Waiting;
  }

  thread_sleep-eq : k.in_external_intr ≡ false → thread_sleep n k ≡ ok k.intr_on (switched parked)
  unfolding thread_sleep thread_block thread_current is_thread timer_ticks go_to_sleep
  thread_sleep-eq plain =
      let p = parked-Parked in
      ground (
        arith,
        v.current.ne_null,
        v.current.magic,
        v.current.status,
        schedule_lem parked refl p.stopped (next_valid p.waiting),
      )

  others_keep_time :
      (t : Ptr)
      → has t k.already_slept ≡ true
      → wake_time (alarm n k).threads t ≡ wake_time k.threads t
  others_keep_time t h = ground (arith, awake)

  park_keeps_time :
      (t : Ptr) → wake_time (switched parked).threads t ≡ wake_time (alarm n k).threads t
  park_keeps_time t = ground arith

  alarm_time : wake_time (alarm n k).threads k.cpu ≡ n + k.ticks
  alarm_time = ground arith

  queue_split :
      (switched parked).already_slept
      ≡ due k.threads (n + k.ticks) k.already_slept
        ++ (k.cpu ∷ later k.threads (n + k.ticks) k.already_slept)
  queue_split =
      let same =
        due-same k.threads (alarm n k).threads (n + k.ticks) k.already_slept others_keep_time in
      ground (arith, insert_ordered-due (alarm n k).threads k.cpu k.already_slept, same, alarm_time)

-- After `thread_sleep n` called in `k`.
pub record Slept (n : ℕ) (k k' : Kernel) : Type 0 where
  pub inv : Inv k'
  pub asleep :
      k'.already_slept
      ≡ due k.threads (n + k.ticks) k.already_slept
        ++ (k.cpu ∷ later k.threads (n + k.ticks) k.already_slept)
  pub alarm_set : wake_time k'.threads k.cpu ≡ n + k.ticks
  pub in_order : Sorted k'.threads k'.already_slept
  pub runs : k'.cpu ≡ next k

-- Outside an interrupt handler, in a thread that is not the idle thread, with the sleeping queue in
-- order, `thread_sleep n` ends with no failed assertion. The thread stands in the sleeping queue
-- behind those that wake up no later than `n` ticks from now and before the others, the queue stays
-- in order, the next thread runs, and the invariant is kept.
pub thread_sleep-Slept :
    (n : ℕ) (k : Kernel)
    → Inv k
    → k.cpu ≢ k.idle_thread
    → Sorted k.threads k.already_slept
    → k.in_external_intr ≡ false
    → (k' : Kernel) × (thread_sleep n k ≡ ok k.intr_on k') × Slept n k k'
thread_sleep-Slept n k v busy ordered plain = (
  switched (parked n v busy),
  thread_sleep-eq n v busy plain,
  record {
    inv = switched-Inv (parked-Parked n v busy);
    asleep = queue_split n v busy;
    alarm_set = park_keeps_time n v busy k.cpu ∙ alarm_time n v busy;
    in_order =
        Sorted-same (alarm n k).threads (switched (parked n v busy)).threads _
          (λ t h. park_keeps_time n v busy t)
          (Sorted-insert (alarm n k).threads k.cpu k.already_slept
            (Sorted-same k.threads (alarm n k).threads _ (others_keep_time n v busy) ordered));
    runs = refl;
  },
)

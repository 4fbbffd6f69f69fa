-- ===== src/Threads/Block.antt =====
-- thread_block, thread_yield and thread_exit leave the CPU to the next thread.
use os_pint_os_project.Base.{
  false, [], ◌∷◌, ◌==◌, if◌then◌else◌, update, ◌≡◌, ◌≢◌, arith, refl, ==_refl, Bool-cases, inl, inr,
}
use os_pint_os_project.Sequence.{push_back, remove}
use os_pint_os_project.Threads.Kernel.{
  Ptr, Status, running, ready, blocked, dying, Kernel, ok, set_status, is-running_ne,
}
use os_pint_os_project.Threads.Queue.{Is, has, has-append, Queue-out, Queue-update, Queue-push}
use os_pint_os_project.Threads.Schedule.{
  is_thread, thread_current, thread_block, thread_yield, thread_exit,
}
use os_pint_os_project.Threads.Schedule.Switch.{switched, schedule_lem}
use os_pint_os_project.Threads.Invariant.{Waiting, Inv, Parked, next_valid, switched-Inv}

-- The running thread takes another status.
abbrev pub park : Status → Kernel → Kernel
park s k = record k { threads = update k.threads k.cpu (set_status s (k.threads k.cpu)) }

-- The same, at the back of the ready list; the idle thread is never put there.
abbrev pub line_up : Kernel → Kernel
line_up k = record k {
  ready_list = if k.cpu == k.idle_thread then k.ready_list else push_back k.ready_list k.cpu;
}

abbrev pub mute : Kernel → Kernel
mute k = record k { intr_on = false }

abbrev pub leave_all : Kernel → Kernel
leave_all k = record k { all_list = remove k.cpu k.all_list }

pub thread_current_lem : {k : Kernel} → Inv k → thread_current k ≡ ok k.cpu k
unfolding thread_current is_thread
thread_current_lem v = let c = v.current in ground (arith, c.ne_null, c.magic, c.status)

module _ {k : Kernel} (v : Inv k) (s : Status) (idle_s : s ≢ running) where
  not_in_ready : has k.cpu k.ready_list ≡ false
  not_in_ready = Queue-out v.waiting.ready_queue k.cpu (λ e. cc (v.current.status))

  not_in_slept : has k.cpu k.already_slept ≡ false
  not_in_slept = Queue-out v.waiting.sleepers k.cpu (λ e. cc (v.current.status))

  park-Waiting : Waiting (park s k)
  park-Waiting = record {
    ready_queue = Queue-update v.waiting.ready_queue k.cpu _ not_in_ready;
    sleepers = Queue-update v.waiting.sleepers k.cpu _ not_in_slept;
    idle_ne_null = v.waiting.idle_ne_null;
    idle_magic = ground (arith, v.waiting.idle_magic);
    idle_not_ready = v.waiting.idle_not_ready;
    idle_awake = v.waiting.idle_awake;
  }

  park-nobody : (t : Ptr) → ¬ Is (park s k).threads running t
  park-nobody t r = elim (Bool-cases (k.cpu == t)) [
    | inl same ↦ idle_s (rw same at (r.status))
    | inr other ↦ ground (
      arith,
      v.alone t (record {
        ne_null = r.ne_null;
        magic = rw other at (r.magic);
        status = rw other at (r.status);
      }),
    )
  ]

  pub park-Parked : Parked (park s k)
  park-Parked = record {
    nobody = park-nobody;
    stopped = rw (==_refl k.cpu) (is-running_ne s idle_s);
    waiting = park-Waiting;
  }

module _ {k : Kernel} (v : Inv k) where
  -- With interrupts off and outside an interrupt handler, `thread_block` passes every assertion: the
  -- running thread is blocked, the switch is made, and the invariant holds again.
  pub thread_block_lem :
      k.intr_on ≡ false
      → k.in_external_intr ≡ false
      → (thread_block k ≡ ok tt (switched (park blocked k))) × Inv (switched (park blocked k))
  unfolding thread_block
  thread_block_lem off plain =
      let p = park-Parked v blocked (λ e. cc) in
      (
        ground (
          arith,
          thread_current_lem v,
          schedule_lem (park blocked k) off p.stopped (next_valid p.waiting),
        ),
        switched-Inv p,
      )

  abbrev pub yielded : Kernel
  yielded = park ready (line_up (mute k))

  yielded-Parked : Parked yielded
  yielded-Parked = elim (Bool-cases (k.cpu == k.idle_thread)) [
    | inl idle ↦ rw idle (record {
      nobody = p.nobody;
      stopped = p.stopped;
      waiting = record {
        ready_queue = p.waiting.ready_queue;
        sleepers = p.waiting.sleepers;
        idle_ne_null = p.waiting.idle_ne_null;
        idle_magic = p.waiting.idle_magic;
        idle_not_ready = p.waiting.idle_not_ready;
        idle_awake = p.waiting.idle_awake;
      };
    })
    | inr other ↦ rw other (record {
      nobody = p.nobody;
      stopped = p.stopped;
      waiting = record {
        ready_queue =
            Queue-push p.waiting.ready_queue k.cpu (not_in_ready v ready (λ e. cc)) (record {
              ne_null = v.current.ne_null;
              magic = rw (==_refl k.cpu) (v.current.magic);
              status = rw (==_refl k.cpu);
            });
        sleepers = p.waiting.sleepers;
        idle_ne_null = p.waiting.idle_ne_null;
        idle_magic = p.waiting.idle_magic;
        idle_not_ready =
            ground
              (arith, has-append k.idle_thread k.ready_list (k.cpu ∷ []), p.waiting.idle_not_ready);
        idle_awake = p.waiting.idle_awake;
      };
    })
  ]
    where
      p : Parked (park ready k)
      p = park-Parked v ready (λ e. cc)

  -- Outside an interrupt handler `thread_yield` passes every assertion: the running thread goes to
  -- the back of the ready list, unless it is the idle thread, and the switch is made.
  pub thread_yield_lem :
      k.in_external_intr ≡ false
      → (thread_yield k ≡ ok k.intr_on (switched yielded)) × Inv (switched yielded)
  unfolding thread_yield
  thread_yield_lem plain =
      let p = yielded-Parked in
      (
        ground (
          arith,
          thread_current_lem v,
          schedule_lem yielded refl p.stopped (next_valid p.waiting),
        ),
        switched-Inv p,
      )

  abbrev pub exited : Kernel
  exited = park dying (leave_all (mute k))

  exited-Parked : Parked exited
  exited-Parked =
      let p = park-Parked v dying (λ e. cc) in
      record {
        nobody = p.nobody;
        stopped = p.stopped;
        waiting = record {
          ready_queue = p.waiting.ready_queue;
          sleepers = p.waiting.sleepers;
          idle_ne_null = p.waiting.idle_ne_null;
          idle_magic = p.waiting.idle_magic;
          idle_not_ready = p.waiting.idle_not_ready;
          idle_awake = p.waiting.idle_awake;
        };
      }

  -- Outside an interrupt handler `thread_exit` passes every assertion and switches away.
  pub thread_exit_lem :
      k.in_external_intr ≡ false → (thread_exit k ≡ ok tt (switched exited)) × Inv (switched exited)
  unfolding thread_exit thread_current is_thread
  thread_exit_lem plain =
      let p = exited-Parked in
      let c = v.current in
      (
        ground (
          arith,
          c.ne_null,
          c.magic,
          c.status,
          schedule_lem exited refl p.stopped (next_valid p.waiting),
        ),
        switched-Inv p,
      )

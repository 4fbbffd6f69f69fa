-- ===== src/Threads/Invariant.antt =====
-- The invariant of the thread system: one running thread, queues of threads of the right status.
use os_pint_os_project.Base.{
  true, false, List, [], ◌∷◌, ◌==◌, ◌≡◌, ◌≢◌, arith, refl, Bool-cases, inl, inr,
}
use os_pint_os_project.Threads.Kernel.{
  Ptr, null, ◌is◌, running, ready, blocked, Thread, thread_magic, Kernel,
}
use os_pint_os_project.Threads.Queue.{Is, has, Queue, Queue-out, Queue-update}
use os_pint_os_project.Threads.Schedule.{is_thread}
use os_pint_os_project.Threads.Schedule.Switch.{first, rest, next, switched}

-- What holds of the queues and of the idle thread, whoever runs.
pub record Waiting (k : Kernel) : Type 0 where
  pub ready_queue : Queue k.threads ready k.ready_list
  pub sleepers : Queue k.threads blocked k.already_slept
  pub idle_ne_null : k.idle_thread ≢ null
  pub idle_magic : (k.threads k.idle_thread).magic ≡ thread_magic
  pub idle_not_ready : has k.idle_thread k.ready_list ≡ false
  pub idle_awake : has k.idle_thread k.already_slept ≡ false

-- The invariant between two operations: the CPU is in the one running thread.
pub record Inv (k : Kernel) : Type 0 where
  pub current : Is k.threads running k.cpu
  pub alone : (t : Ptr) → Is k.threads running t → t ≡ k.cpu
  pub waiting : Waiting k

-- Where `schedule` is called: no thread is marked running.
pub record Parked (k : Kernel) : Type 0 where
  pub nobody : (t : Ptr) → ¬ Is k.threads running t
  pub stopped : ((k.threads k.cpu).status is running) ≡ false
  pub waiting : Waiting k

-- The thread chosen from a queue, against the idle thread.
record Chosen (th : Ptr → Thread) (idle : Ptr) (slept q : List Ptr) : Type 0 where
  valid : first idle q ≢ null
  magic : (th (first idle q)).magic ≡ thread_magic
  not_left : has (first idle q) (rest q) ≡ false
  not_slept : has (first idle q) slept ≡ false
  left : Queue th ready (rest q)
  idle_not_left : has idle (rest q) ≡ false

choose :
    {th : Ptr → Thread} {idle : Ptr} {slept : List Ptr} (q : List Ptr)
    → Queue th ready q
    → Queue th blocked slept
    → idle ≢ null
    → (th idle).magic ≡ thread_magic
    → has idle q ≡ false
    → has idle slept ≡ false
    → Chosen th idle slept q
choose [] v sl ne m out awake = record {
  valid = ne;
  magic = m;
  not_left = refl;
  not_slept = awake;
  left = v;
  idle_not_left = refl;
}
choose (t ∷ ts) v sl ne m out awake = record {
  valid = v.each.0.ne_null;
  magic = v.each.0.magic;
  not_left = v.once.0;
  not_slept = Queue-out sl t (λ e. cc (v.each.0.status));
  left = record { each = v.each.1; once = v.once.1 };
  idle_not_left = ground arith;
}

module _ {k : Kernel} (w : Waiting k) where
  chosen : Chosen k.threads k.idle_thread k.already_slept k.ready_list
  chosen =
      choose k.ready_list w.ready_queue w.sleepers w.idle_ne_null w.idle_magic w.idle_not_ready
        w.idle_awake

  -- The scheduler always has a valid thread to run.
  pub next_valid : is_thread k (next k) ≡ true
  unfolding is_thread
  next_valid = let c = chosen in ground (arith, c.valid, c.magic)

  pub switched-Waiting : Waiting (switched k)
  switched-Waiting =
      let c = chosen in
      record {
        ready_queue = Queue-update c.left (next k) _ c.not_left;
        sleepers = Queue-update w.sleepers (next k) _ c.not_slept;
        idle_ne_null = w.idle_ne_null;
        idle_magic = ground (arith, w.idle_magic);
        idle_not_ready = c.idle_not_left;
        idle_awake = w.idle_awake;
      }

-- A switch from a parked thread restores the invariant.
pub switched-Inv : {k : Kernel} → Parked k → Inv (switched k)
switched-Inv {k} p = record {
  current = record { ne_null = c.valid; magic = ground (arith, c.magic); status = ground arith };
  alone = only;
  waiting = switched-Waiting p.waiting;
}
  where
    c : Chosen k.threads k.idle_thread k.already_slept k.ready_list
    c = chosen p.waiting

    only : (t : Ptr) → Is (switched k).threads running t → t ≡ next k
    only t r = elim (Bool-cases (next k == t)) [
      | inl same ↦ ground arith
      | inr other ↦ absurd (
          p.nobody t (record {
            ne_null = r.ne_null;
            magic = rw other at r.magic;
            status = rw other at r.status;
          }))
    ]

-- ===== src/Threads/Unblock.antt =====
-- thread_unblock makes a blocked thread ready, and does not preempt the running one.
use os_pint_os_project.Base.{
  true, false, [], ◌∷◌, ◌==◌, update, ◌≡◌, ◌≢◌, arith, ==_refl, Bool-cases, inl, inr,
}
use os_pint_os_project.Sequence.{push_back}
use os_pint_os_project.Threads.Kernel.{Ptr, running, ready, blocked, Kernel, ok, panic, set_status}
use os_pint_os_project.Threads.Queue.{Is, has, has-append, Queue-out, Queue-update, Queue-push}
use os_pint_os_project.Threads.Schedule.{is_thread, thread_unblock}
use os_pint_os_project.Threads.Invariant.{Waiting, Inv}

-- An interrupt handler runs with interrupts off.
abbrev pub Masked : Kernel → Type 0
Masked k = k.in_external_intr ≡ true → k.intr_on ≡ false

abbrev pub woken : Ptr → Kernel → Kernel
woken t k = record k {
  ready_list = push_back k.ready_list t;
  threads = update k.threads t (set_status ready (k.threads t));
}

-- A blocked thread goes to the back of the ready list; nothing else changes, the interrupt level
-- is what it was.
pub thread_unblock_lem :
    (k : Kernel) (t : Ptr)
    → Masked k
    → Is k.threads blocked t
    → thread_unblock t k ≡ ok tt (woken t k)
unfolding thread_unblock is_thread
thread_unblock_lem k t m b = ground (arith, b.ne_null, b.magic, b.status)

-- A thread that is not blocked, or that is no thread, stops the kernel.
pub thread_unblock-panic :
    (k : Kernel) (t : Ptr) → (k.threads t).status ≢ blocked → thread_unblock t k ≡ panic
unfolding thread_unblock
thread_unblock-panic k t h = ground arith

module _ {k : Kernel} {t : Ptr} (v : Inv k) (b : Is k.threads blocked t) where
  t_not_current : t ≢ k.cpu
  t_not_current e = ground (arith, b.status, v.current.status)

  woken-Waiting : t ≢ k.idle_thread → has t k.already_slept ≡ false → Waiting (woken t k)
  woken-Waiting busy up = record {
    ready_queue =
        Queue-push (Queue-update v.waiting.ready_queue t _ out) t out (record {
          ne_null = b.ne_null;
          magic = rw (==_refl t) (b.magic);
          status = rw (==_refl t);
        });
    sleepers = Queue-update v.waiting.sleepers t _ up;
    idle_ne_null = v.waiting.idle_ne_null;
    idle_magic = ground (arith, v.waiting.idle_magic);
    idle_not_ready =
        ground (arith, has-append k.idle_thread k.ready_list (t ∷ []), v.waiting.idle_not_ready);
    idle_awake = v.waiting.idle_awake;
  }
    where
      out : has t k.ready_list ≡ false
      out = Queue-out v.waiting.ready_queue t (λ e. cc (b.status))

  woken-alone : (u : Ptr) → Is (woken t k).threads running u → u ≡ k.cpu
  woken-alone u r = elim (Bool-cases (t == u)) [
    | inl same ↦
        cc (let e : (set_status ready (k.threads t)).status ≡ running = rw same at (r.status) in e)
    | inr other ↦ v.alone u (record {
      ne_null = r.ne_null;
      magic = rw other at (r.magic);
      status = rw other at (r.status);
    })
  ]

  -- The invariant is kept, for a thread that is neither the idle thread nor asleep.
  pub woken-Inv : t ≢ k.idle_thread → has t k.already_slept ≡ false → Inv (woken t k)
  woken-Inv busy up = record {
    current = record {
      ne_null = v.current.ne_null;
      magic = ground (arith, v.current.magic);
      status = ground (arith, v.current.status, t_not_current);
    };
    alone = woken-alone;
    waiting = woken-Waiting busy up;
  }

-- A blocked thread, neither the idle thread nor in the sleeping queue, becomes ready at the back of
-- the ready list; the running thread keeps the CPU, and the invariant is kept.
pub thread_unblock-Inv :
    (k : Kernel) (t : Ptr)
    → Inv k
    → Masked k
    → Is k.threads blocked t
    → t ≢ k.idle_thread
    → has t k.already_slept ≡ false
    → (thread_unblock t k ≡ ok tt (woken t k)) × Inv (woken t k)
thread_unblock-Inv k t v m b busy up = (thread_unblock_lem k t m b, woken-Inv v b busy up)

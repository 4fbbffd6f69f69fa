-- ===== src/Threads/Schedule/Switch.antt =====
-- What one call of `schedule` does, as one equation.
use os_pint_os_project.Base.{
  true, false, List, [], ◌∷◌, ◌==◌, if◌then◌else◌, update, ◌≡◌, arith, refl,
}
use os_pint_os_project.Threads.Kernel.{Ptr, ◌is◌, running, Kernel, ok, set_status}
use os_pint_os_project.Threads.Schedule.{
  is_thread, is_dead, schedule, pop_ready, next_thread_to_run,
}

-- The thread that runs next, and the queue it leaves behind.
abbrev pub first : Ptr → List Ptr → Ptr
first idle [] = idle
first idle (t ∷ ts) = t

abbrev pub rest : List Ptr → List Ptr
rest [] = []
rest (t ∷ ts) = ts

abbrev pub next : Kernel → Ptr
next k = first k.idle_thread k.ready_list

-- The page of a thread that died is given back, unless it is the initial thread's.
abbrev pub reaped : Kernel → List Ptr
reaped k = if k.cpu == next k then k.freed else if is_dead k.cpu k then k.cpu ∷ k.freed else k.freed

abbrev pub switched : Kernel → Kernel
switched k = record k {
  ready_list = rest k.ready_list;
  cpu = next k;
  threads = update k.threads (next k) (set_status running (k.threads (next k)));
  thread_ticks = 0;
  freed = reaped k;
}

next_thread_to_run_lem :
    (k : Kernel) → next_thread_to_run k ≡ ok (next k) (record k { ready_list = rest k.ready_list })
unfolding next_thread_to_run
next_thread_to_run_lem k = go k.ready_list refl
  where
    go :
        (q : List Ptr)
        → k.ready_list ≡ q
        → pop_ready k.ready_list k ≡ ok (next k) (record k { ready_list = rest k.ready_list })
    go [] e = ground arith
    go (t ∷ ts) e = ground arith

-- With interrupts off, a current thread that no longer runs, and a valid thread to run next,
-- `schedule` passes its assertions and makes the switch.
pub schedule_lem :
    (k : Kernel)
    → k.intr_on ≡ false
    → (((k.threads k.cpu).status is running) ≡ false)
    → is_thread k (next k) ≡ true
    → schedule k ≡ ok tt (switched k)
unfolding schedule
schedule_lem k off parked valid = rw (next_thread_to_run_lem k) (ground arith)

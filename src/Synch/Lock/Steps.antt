-- ===== src/Synch/Lock/Steps.antt =====
-- The threads that use one lock, interleaved at every point where interrupts are on. `lock_acquire`
-- is `sema_down`, with a sleep and a new round of its loop where it waits, and then the write of
-- `holder`; `lock_release` is the write of `holder` and then `sema_up`.
use os_pint_os_project.Base.{Bool, update, ◌≡◌, ◌≢◌}
use os_pint_os_project.Threads.Kernel.{Ptr, null, Kernel, ok}
use os_pint_os_project.Synch.Semaphore.{through, waits, sema_down, sema_down_loop, sema_up}
use os_pint_os_project.Synch.Lock.{set_holder}

-- Where a thread stands with the lock: not in a call or in the critical section, asleep in
-- `sema_down`, through it with `holder` still to write, in the critical section, and with `holder`
-- reset and `sema_up` still to call.
pub data Pc : Type 0 where
  outside waiting passed inside leaving : Pc

pub record System : Type 0 where
  pub kernel : Kernel
  pub pc : Ptr → Pc

abbrev pub system : Kernel → (Ptr → Pc) → System
system k pc = record { kernel = k; pc = pc }

-- The thread that acts is the one on the CPU; `k'` is what the code's own function ends in.
pub data Step (l : Ptr) (s t : System) : Type 0 where
  acquire :
      (k' : Kernel)
      → s.pc s.kernel.cpu ≡ outside
      → sema_down l s.kernel ≡ ok through k'
      → t ≡ system k' (update s.pc s.kernel.cpu passed)
      → Step l s t
  sleep :
      (k' : Kernel)
      → s.pc s.kernel.cpu ≡ outside
      → sema_down l s.kernel ≡ ok waits k'
      → t ≡ system k' (update s.pc s.kernel.cpu waiting)
      → Step l s t
  wake :
      (level : Bool) (k' : Kernel)
      → s.pc s.kernel.cpu ≡ waiting
      → sema_down_loop l level s.kernel ≡ ok through k'
      → t ≡ system k' (update s.pc s.kernel.cpu passed)
      → Step l s t
  sleep_again :
      (level : Bool) (k' : Kernel)
      → s.pc s.kernel.cpu ≡ waiting
      → sema_down_loop l level s.kernel ≡ ok waits k'
      → t ≡ system k' s.pc
      → Step l s t
  own :
      s.kernel.cpu ≢ null
      → s.pc s.kernel.cpu ≡ passed
      → t ≡ system (set_holder l s.kernel.cpu s.kernel) (update s.pc s.kernel.cpu inside)
      → Step l s t
  -- The guard is the assertion of `lock_release`, and nothing else is asked of the thread.
  disown :
      s.kernel.cpu ≢ null
      → s.kernel.holder l ≡ s.kernel.cpu
      → t ≡ system (set_holder l null s.kernel) (update s.pc s.kernel.cpu leaving)
      → Step l s t
  release :
      (k' : Kernel)
      → s.pc s.kernel.cpu ≡ leaving
      → sema_up l s.kernel ≡ ok tt k'
      → t ≡ system k' (update s.pc s.kernel.cpu outside)
      → Step l s t
  -- Anything else the kernel does: switches, ticks, other locks and semaphores.
  elsewhere :
      (k' : Kernel)
      → (k'.semaphores l).value ≡ (s.kernel.semaphores l).value
      → k'.holder l ≡ s.kernel.holder l
      → t ≡ system k' s.pc
      → Step l s t

-- What a run from `lock_init` with no thread in any call can come to.
pub data Reach (l : Ptr) : System → Type 0 where
  start :
      {t : System}
      → (t.kernel.semaphores l).value ≡ 1
      → t.kernel.holder l ≡ null
      → ((u : Ptr) → t.pc u ≡ outside)
      → Reach l t
  later : {s t : System} → Reach l s → Step l s t → Reach l t

-- ===== src/Tests/Synch.antt =====
-- The synchronization theorems on the small kernel: address 100 is a lock of value 1.
use os_pint_os_project.Base.{ℕ, [], ◌∷◌, ◌≡◌, arith, refl, update}
use os_pint_os_project.Threads.Kernel.{Ptr, Kernel, blocked, ok}
use os_pint_os_project.Threads.Queue.{Queue}
use os_pint_os_project.Synch.Semaphore.{through, sema_down, sema_down_loop}
use os_pint_os_project.Synch.Semaphore.Wakeup.{AllWoken, sema_ups, sema_ups-AllWoken}
use os_pint_os_project.Synch.Lock.{set_holder}
use os_pint_os_project.Synch.Lock.Steps.{
  outside, passed, inside, Pc, System, system, acquire, own, Reach, start, later,
}
use os_pint_os_project.Synch.Lock.Mutex.{mutual_exclusion}
use os_pint_os_project.Tests.Threads.{small}

abbrev nobody : Ptr → Pc
nobody t = outside

abbrev down : Kernel
down = record small {
  semaphores = update small.semaphores 100 (record { value = 0; waiters = [] });
}

abbrev owned : System
owned = system (set_holder 100 2 down) (update (update nobody 2 passed) 2 inside)

down_eq : sema_down 100 small ≡ ok through down
unfolding sema_down sema_down_loop
down_eq = refl

Reach-owned : Reach 100 owned
Reach-owned =
    later
      (later (start {t = system small nobody} refl refl (λ u. refl))
        (acquire down refl down_eq refl))
      (own (omega arith) refl refl)

mutual_exclusion_example : ◌≡◌ {A = ℕ} 2 2 × (owned.kernel.holder 100 ≡ 2)
mutual_exclusion_example = mutual_exclusion Reach-owned 2 2 (omega arith) refl refl

abbrev held : Kernel
held = set_holder 100 2 down

-- Threads 7 and 9 wait for semaphore 200.
abbrev queued : Kernel
queued = record small {
  threads = update small.threads 9 (small.threads 7);
  semaphores = update small.semaphores 200 (record { value = 0; waiters = 7 ∷ 9 ∷ [] });
}

queued-Queue : Queue queued.threads blocked (7 ∷ 9 ∷ [])
queued-Queue = record { each = (ground arith, (ground arith, tt)); once = (refl, (refl, tt)) }

sema_ups-AllWoken_example :
    (k' : Kernel) × (sema_ups 2 200 queued ≡ ok tt k') × AllWoken 200 (7 ∷ 9 ∷ []) queued k'
sema_ups-AllWoken_example =
    sema_ups-AllWoken 200 (7 ∷ 9 ∷ []) queued (λ h. cc) (omega arith) (omega arith) refl
      queued-Queue

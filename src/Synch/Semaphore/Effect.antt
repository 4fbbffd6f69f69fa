-- ===== src/Synch/Semaphore/Effect.antt =====
-- What the semaphore operations do to the value of a semaphore, and that they leave holders alone.
use os_pint_os_project.Base.{
  ℕ, ◌+◌, ◌-◌, ◌%◌, ◌^◌, Bool, false, List, [], ◌∷◌, ◌≡◌, ◌≢◌, arith, refl,
}
use os_pint_os_project.Threads.Kernel.{Ptr, Kernel, blocked, Run, ok, panic, M, and_then}
use os_pint_os_project.Threads.Schedule.{
  thread_current, thread_block, thread_unblock, schedule, pop_ready,
}
use os_pint_os_project.Threads.Block.{park}
use os_pint_os_project.Synch.Semaphore.{
  Outcome, through, waits, sema_down_loop, sema_down, sema_up, set_sema, add_waiter,
}

abbrev pub value_of : Kernel → Ptr → ℕ
value_of k s = (k.semaphores s).value

-- Nothing of any semaphore or lock has changed.
pub record SameSync (k k' : Kernel) : Type 0 where
  pub semaphores : k'.semaphores ≡ k.semaphores
  pub holder : k'.holder ≡ k.holder

pop_ready-SameSync :
    (q : List Ptr) (k : Kernel) {t : Ptr} {k' : Kernel} → pop_ready q k ≡ ok t k' → SameSync k k'
unfolding pop_ready
pop_ready-SameSync [] k e = ground arith
pop_ready-SameSync (t ∷ ts) k e = ground arith

schedule-SameSync : (k k' : Kernel) → schedule k ≡ ok tt k' → SameSync k k'
unfolding schedule
schedule-SameSync k k' e = go k.ready_list refl
  where
    go : (q : List Ptr) → k.ready_list ≡ q → SameSync k k'
    go [] r = ground arith
    go (t ∷ ts) r = ground arith

thread_block-SameSync : (k k' : Kernel) → thread_block k ≡ ok tt k' → SameSync k k'
unfolding thread_block thread_current
thread_block-SameSync k k' e = ground (arith, schedule-SameSync (park blocked k) k')

thread_unblock-SameSync : (t : Ptr) (k k' : Kernel) → thread_unblock t k ≡ ok tt k' → SameSync k k'
unfolding thread_unblock
thread_unblock-SameSync t k k' e = ground arith

-- What holds of the state a command ends in, if it passes its assertions.
abbrev pub After : {A : Type 0} → Run A → (A → Kernel → Type 0) → Type 0
After (ok a k) P = P a k
After panic P = Unit

After-intro :
    {A : Type 0} (r : Run A) (P : A → Kernel → Type 0)
    → ((a : A) (k : Kernel) → r ≡ ok a k → P a k)
    → After r P
After-intro (ok a k) P h = h a k refl
After-intro panic P h = tt

pub After-bind :
    {A B : Type 0} (P : A → Kernel → Type 0) (Q : B → Kernel → Type 0) (r : Run A) (f : A → M B)
    → After r P
    → ((a : A) (k : Kernel) → P a k → After (f a k) Q)
    → After (and_then r f) Q
After-bind P Q (ok a k) f p h = h a k p
After-bind P Q panic f p h = tt

block-SameSync : (k : Kernel) → After (thread_block k) (λ _ k'. SameSync k k')
block-SameSync k = After-intro _ _ (λ u k' e. thread_block-SameSync k k' e)

unblock-SameSync : (t : Ptr) (k : Kernel) → After (thread_unblock t k) (λ _ k'. SameSync k k')
unblock-SameSync t k = After-intro _ _ (λ u k' e. thread_unblock-SameSync t k k' e)

-- `sema_down` that is through has found a positive value and taken one from it; one that waits has
-- changed no value. Neither changes the holder of any lock, nor the value of another semaphore.
abbrev pub Down : Outcome → Ptr → Kernel → Kernel → Type 0
Down through s k k' =
    (value_of k s ≢ 0)
    × (value_of k' s ≡ (value_of k s + 2 ^ 32 - 1) % 2 ^ 32)
    × (k'.holder ≡ k.holder)
Down waits s k k' = (value_of k' s ≡ value_of k s) × (k'.holder ≡ k.holder)

pub sema_down_loop-Down :
    (s : Ptr) (level : Bool) (r : Outcome) (k k' : Kernel)
    → sema_down_loop s level k ≡ ok r k'
    → Down r s k k'
unfolding sema_down_loop thread_current
sema_down_loop-Down s level through k k' e = ground (arith)
sema_down_loop-Down s level waits k k' e = ground (arith, block-SameSync (add_waiter s k.cpu k))

pub sema_down-Down :
    (s : Ptr) (r : Outcome) (k k' : Kernel) → sema_down s k ≡ ok r k' → Down r s k k'
unfolding sema_down
sema_down-Down s through k k' e =
    ground (arith, sema_down_loop-Down s k.intr_on through (record k { intr_on = false }) k')
sema_down-Down s waits k k' e =
    ground (arith, sema_down_loop-Down s k.intr_on waits (record k { intr_on = false }) k')

-- `sema_up` adds one.
pub sema_up_lem :
    (s : Ptr) (k k' : Kernel)
    → sema_up s k ≡ ok tt k'
    → (value_of k' s ≡ (value_of k s + 1) % 2 ^ 32) × (k'.holder ≡ k.holder)
unfolding sema_up
sema_up_lem s k k' e = go (k.semaphores s).waiters refl
  where
    go :
        (q : List Ptr)
        → (k.semaphores s).waiters ≡ q
        → (value_of k' s ≡ (value_of k s + 1) % 2 ^ 32) × (k'.holder ≡ k.holder)
    go [] w = ground arith
    go (t ∷ ts) w = ground (
      arith,
      unblock-SameSync t
          (set_sema s (record (k.semaphores s) { waiters = ts }) (record k { intr_on = false })),
    )

-- ===== src/Synch/Condition/Signal.antt =====
-- What a signal and a broadcast leave in the queue of a condition.
use os_pint_os_project.Base.{ℕ, zero, suc, ◌<◌, false, List, [], ◌∷◌, ◌≡◌, arith, refl, length, ap}
use os_pint_os_project.Threads.Kernel.{Ptr, Kernel}
use os_pint_os_project.Threads.Schedule.{thread_current, thread_unblock}
use os_pint_os_project.Synch.Semaphore.{sema_up, set_sema}
use os_pint_os_project.Synch.Semaphore.Effect.{After, After-bind}
use os_pint_os_project.Synch.Lock.{lock_held_by_current_thread}
use os_pint_os_project.Synch.Condition.{cond_signal, cond_broadcast, broadcast_loop, set_waiting}

-- No semaphore operation touches a condition.
unblock-conditions :
    (t : Ptr) (k : Kernel) → After (thread_unblock t k) (λ _ k'. k'.conditions ≡ k.conditions)
unfolding thread_unblock
unblock-conditions t k = ground arith

sema_up-conditions :
    (s : Ptr) (k : Kernel) → After (sema_up s k) (λ _ k'. k'.conditions ≡ k.conditions)
unfolding sema_up
sema_up-conditions s k = go (k.semaphores s).waiters refl
  where
    go :
        (q : List Ptr)
        → (k.semaphores s).waiters ≡ q
        → After (sema_up s k) (λ _ k'. k'.conditions ≡ k.conditions)
    go [] w = ground arith
    go (t ∷ ts) w = ground (
      arith,
      unblock-conditions t
          (set_sema s (record (k.semaphores s) { waiters = ts }) (record k { intr_on = false })),
    )

abbrev rest : List Ptr → List Ptr
rest [] = []
rest (w ∷ ws) = ws

-- A signal takes the first waiter, if any, out of the queue.
pub cond_signal-rest :
    (c l : Ptr) (k : Kernel)
    → After (cond_signal c l k) (λ _ k'. k'.conditions c ≡ rest (k.conditions c))
unfolding cond_signal lock_held_by_current_thread thread_current
cond_signal-rest c l k = go (k.conditions c) refl
  where
    go :
        (q : List Ptr)
        → k.conditions c ≡ q
        → After (cond_signal c l k) (λ _ k'. k'.conditions c ≡ rest (k.conditions c))
    go [] e = ground arith
    go (w ∷ ws) e = ground (arith, sema_up-conditions w (set_waiting c ws k))

abbrev Emptied : Ptr → Unit {0} → Kernel → Type 0
Emptied c _ k = k.conditions c ≡ []

-- One round, given what the rounds after it do.
broadcast_round :
    (n : ℕ) (c l : Ptr) (k : Kernel) (q : List Ptr)
    → k.conditions c ≡ q
    → ((k' : Kernel) (w : Ptr) (ws : List Ptr)
        → q ≡ w ∷ ws
        → k'.conditions c ≡ ws
        → After (broadcast_loop n c l k') (Emptied c))
    → After (broadcast_loop (suc n) c l k) (Emptied c)
unfolding broadcast_loop
broadcast_round n c l k [] e go_on = ground arith
broadcast_round n c l k (w ∷ ws) e go_on = rw e (
    After-bind (λ _ k'. k'.conditions c ≡ rest (k.conditions c)) (Emptied c) (cond_signal c l k) _
      (cond_signal-rest c l k) (λ u k' h. go_on k' w ws refl (ground arith)))

-- With more rounds of fuel than waiters the loop of a broadcast ends by its test.
broadcast_loop-nil :
    (n : ℕ) (c l : Ptr) (k : Kernel)
    → length (k.conditions c) < n
    → After (broadcast_loop n c l k) (Emptied c)
broadcast_loop-nil zero c l k h = absurd (omega arith)
broadcast_loop-nil (suc n) c l k h = broadcast_round n c l k (k.conditions c) refl (λ k' w ws e e'.
    broadcast_loop-nil n c l k' (shorter (k.conditions c) (k'.conditions c) w ws e e' h))
  where
    shorter :
        (q q' : List Ptr) (w : Ptr) (ws : List Ptr)
        → q ≡ w ∷ ws
        → q' ≡ ws
        → length q < suc n
        → length q' < n
    shorter q q' w ws e e' h = omega (arith, ap (length {0}) e, ap (length {0}) e')

-- A broadcast that passes its assertions leaves no waiter in the condition's queue.
pub cond_broadcast-Emptied :
    (c l : Ptr) (k : Kernel) → After (cond_broadcast c l k) (λ _ k'. k'.conditions c ≡ [])
unfolding cond_broadcast
cond_broadcast-Emptied c l k =
    ground (arith, broadcast_loop-nil (suc (length (k.conditions c))) c l k)

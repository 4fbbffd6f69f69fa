-- ===== src/Synch/Condition.antt =====
-- threads/synch.c: condition variables. A condition is the queue of the waiters' semaphores.
pub mod Signal
use os_pint_os_project.Base.{
  ℕ, zero, suc, Bool, true, false, not, List, [], ◌∷◌, ◌==◌, if◌then◌else◌, update, length,
}
use os_pint_os_project.Sequence.{push_back}
use os_pint_os_project.Threads.Kernel.{
  Ptr, null, Kernel, M, pure, ◌>>=◌, ◌>>◌, get, modify, assert, intr_context,
}
use os_pint_os_project.Synch.Semaphore.{
  Outcome, through, waits, sema_init, sema_down, sema_down_loop, sema_up,
}
use os_pint_os_project.Synch.Lock.{lock_held_by_current_thread, lock_acquire, lock_release}

abbrev pub set_waiting : Ptr → List Ptr → Kernel → Kernel
set_waiting c q k = record k { conditions = update k.conditions c q }

unfoldable pub cond_init : Ptr → M (Unit {0})
cond_init c = do assert (not (c == null)); modify (set_waiting c [])

-- Where a cond_wait stands: it sleeps for a signal, it sleeps for the lock, or it has returned.
pub data Progress : Type 0 where
  for_signal : Progress
  for_lock : Progress
  returned : Progress

after_acquire : Outcome → Progress
after_acquire waits = for_lock
after_acquire through = returned

-- What follows `sema_down` in cond_wait, once that is through. A thread that sleeps in this
-- lock_acquire goes on as in lock_acquire_resume.
reacquire : Ptr → Outcome → M Progress
unfolding after_acquire
reacquire l waits = pure for_signal
reacquire l through = do r ← lock_acquire l; pure (after_acquire r)

-- `w` is the address of the local `waiter`. `sema_down` finds 0 unless a signal has come since the
-- lock was released.
unfoldable pub cond_wait : Ptr → Ptr → Ptr → M Progress
unfolding intr_context reacquire
cond_wait w c l = do
  assert (not (c == null))
  assert (not (l == null))
  in_context ← intr_context
  assert (not in_context)
  mine ← lock_held_by_current_thread l
  assert mine
  sema_init w 0
  modify (λ k. set_waiting c (push_back (k.conditions c) w) k)
  lock_release l
  r ← sema_down w
  reacquire l r

-- The rest of a cond_wait whose thread has slept for a signal and runs again.
unfoldable pub cond_wait_resume : (w l : Ptr) → Bool → M Progress
unfolding reacquire
cond_wait_resume w l old_level = do r ← sema_down_loop w old_level; reacquire l r

abbrev is_empty : List Ptr → Bool
is_empty [] = true
is_empty (w ∷ ws) = false

up_first : Ptr → List Ptr → M (Unit {0})
up_first c [] = pure tt
up_first c (w ∷ rest) = modify (set_waiting c rest) >> sema_up w

unfoldable pub cond_signal : Ptr → Ptr → M (Unit {0})
unfolding intr_context up_first
cond_signal c l = do
  assert (not (c == null))
  assert (not (l == null))
  in_context ← intr_context
  assert (not in_context)
  mine ← lock_held_by_current_thread l
  assert mine
  queue ← get (λ k. k.conditions c)
  up_first c queue

-- The loop of cond_broadcast on fuel. A round takes one waiter out, so a round more than there are
-- waiters is enough.
broadcast_loop : ℕ → Ptr → Ptr → M (Unit {0})
broadcast_loop zero c l = pure tt
broadcast_loop (suc n) c l = do
  queue ← get (λ k. k.conditions c)
  if is_empty queue then pure tt else (cond_signal c l >> broadcast_loop n c l)

unfoldable pub cond_broadcast : Ptr → Ptr → M (Unit {0})
unfolding broadcast_loop
cond_broadcast c l = do
  assert (not (c == null))
  assert (not (l == null))
  queue ← get (λ k. k.conditions c)
  broadcast_loop (suc (length queue)) c l

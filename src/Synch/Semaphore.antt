-- ===== src/Synch/Semaphore.antt =====
-- threads/synch.c: semaphores. Interrupts are off from `intr_disable` on, so each function is one
-- step, but for `sema_down`: where it finds 0 it gives the CPU away inside `thread_block`, and when
-- the thread runs again it goes back to the loop's test, which is `sema_down_loop`.
pub mod Effect
pub mod Wakeup
use os_pint_os_project.Base.{
  ℕ, ◌+◌, ◌-◌, ◌%◌, ◌^◌, Bool, true, false, not, List, [], ◌∷◌, ◌==◌, if◌then◌else◌, ltb, update,
}
use os_pint_os_project.Sequence.{push_back}
use os_pint_os_project.Threads.Kernel.{
  Ptr, null, Semaphore, Kernel, M, pure, ◌>>=◌, ◌>>◌, get, modify, assert, intr_context,
  intr_disable, intr_set_level,
}
use os_pint_os_project.Threads.Schedule.{thread_current, thread_block, thread_unblock}

abbrev pub set_sema : Ptr → Semaphore → Kernel → Kernel
set_sema s v k = record k { semaphores = update k.semaphores s v }

abbrev pub set_value : Ptr → (ℕ → ℕ) → Kernel → Kernel
set_value s f k = set_sema s (record (k.semaphores s) { value = f ((k.semaphores s).value) }) k

abbrev pub add_waiter : Ptr → Ptr → Kernel → Kernel
add_waiter s t k =
    set_sema s (record (k.semaphores s) { waiters = push_back (k.semaphores s).waiters t }) k

unfoldable pub sema_init : Ptr → ℕ → M (Unit {0})
sema_init s v = do
  assert (not (s == null))
  modify (set_sema s (record { value = v; waiters = [] }))

-- What has become of a call that may sleep: it is through, or its thread sleeps in the queue.
pub data Outcome : Type 0 where
  through : Outcome
  waits : Outcome

wait_in : Ptr → M Outcome
wait_in s = do cur ← thread_current; modify (add_waiter s cur); thread_block; pure waits

-- `sema->value--`, which wraps at 0, and `intr_set_level (old_level)`.
decrement : Ptr → Bool → M Outcome
unfolding intr_set_level
decrement s old_level = do
  modify (set_value s (λ v. (v + 2 ^ 32 - 1) % 2 ^ 32))
  intr_set_level old_level
  pure through

unfoldable pub sema_down_loop : Ptr → Bool → M Outcome
unfolding wait_in decrement
sema_down_loop s old_level = do
  v ← get (λ k. (k.semaphores s).value)
  if v == 0 then wait_in s else decrement s old_level

unfoldable pub sema_down : Ptr → M Outcome
unfolding intr_context intr_disable
sema_down s = do
  assert (not (s == null))
  in_context ← intr_context
  assert (not in_context)
  old_level ← intr_disable
  sema_down_loop s old_level

unfoldable pub sema_try_down : Ptr → M Bool
unfolding intr_disable intr_set_level
sema_try_down s = do
  assert (not (s == null))
  old_level ← intr_disable
  positive ← get (λ k. ltb 0 (k.semaphores s).value)
  modify (λ k. if positive then set_value s (λ v. v - 1) k else k)
  intr_set_level old_level
  pure positive

-- `thread_unblock` of the first waiter, which leaves the queue; nothing if there is none.
unblock_first : Ptr → List Ptr → M (Unit {0})
unblock_first s [] = pure tt
unblock_first s (t ∷ rest) = do
  modify (λ k. set_sema s (record (k.semaphores s) { waiters = rest }) k)
  thread_unblock t

unfoldable pub sema_up : Ptr → M (Unit {0})
unfolding intr_disable intr_set_level unblock_first
sema_up s = do
  assert (not (s == null))
  old_level ← intr_disable
  queue ← get (λ k. (k.semaphores s).waiters)
  unblock_first s queue
  modify (set_value s (λ v. (v + 1) % 2 ^ 32))
  intr_set_level old_level
  pure tt

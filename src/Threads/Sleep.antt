-- ===== src/Threads/Sleep.antt =====
-- threads/thread.c: thread_sleep and update_slept_threads; devices/timer.c: timer_ticks. Tick counts
-- are natural numbers: the int64_t counters start at 0 and do not reach 2 ^ 63.
pub mod Doze
pub mod Order
pub mod Wake
use os_pint_os_project.Base.{
  ℕ, ◌+◌, ◌%◌, ◌^◌, Bool, true, false, List, [], ◌∷◌, ◌==◌, if◌then◌else◌, ltb, leb, update,
}
use os_pint_os_project.Sequence.{insert_ordered, remove}
use os_pint_os_project.Threads.Kernel.{
  Ptr, Thread, Kernel, M, pure, ◌>>=◌, ◌>>◌, get, modify, time_slice, set_thread, intr_disable,
  intr_set_level, intr_yield_on_return,
}
use os_pint_os_project.Threads.Schedule.{thread_current, thread_block, thread_unblock}

unfoldable pub timer_ticks : M ℕ
unfolding intr_disable intr_set_level
timer_ticks = do old_level ← intr_disable; t ← get (λ k. k.ticks); intr_set_level old_level; pure t

unfoldable pub thread_comparable_time_ticks : (Ptr → Thread) → Ptr → Ptr → Bool
thread_comparable_time_ticks th t1 t2 = ltb (th t1).time_ticks (th t2).time_ticks

unfoldable pub go_to_sleep : Ptr → Kernel → Kernel
unfolding thread_comparable_time_ticks insert_ordered
go_to_sleep t k = record k {
  already_slept = insert_ordered (thread_comparable_time_ticks k.threads) t k.already_slept;
}

-- Gives the interrupt level to restore when the thread runs again.
unfoldable pub thread_sleep : ℕ → M Bool
unfolding intr_disable timer_ticks
thread_sleep ticks = do
  current_thread ← thread_current
  old_level ← intr_disable
  now ← timer_ticks
  modify (set_thread current_thread (λ t. record t { time_ticks = ticks + now }))
  modify (go_to_sleep current_thread)
  thread_block
  pure old_level

-- `list_remove (curr_elem)`, `thread_unblock (t)` with interrupts off.
unfoldable pub wake : Ptr → M (Unit {0})
unfolding intr_disable intr_set_level
wake t = do
  old_level ← intr_disable
  modify (λ k. record k { already_slept = remove t k.already_slept })
  thread_unblock t
  intr_set_level old_level
  pure tt

-- The loop, over the sleeping list as it is when it is entered: `next_elem` is read before the
-- element is taken out, and waking a thread changes no other link.
unfoldable pub wake_loop : List Ptr → M (Unit {0})
unfolding timer_ticks
wake_loop [] = pure tt
wake_loop (t ∷ rest) = do
  due ← get (λ k. (k.threads t).time_ticks)
  now ← timer_ticks
  if leb due now then (wake t >> wake_loop rest) else pure tt

-- An empty list makes no round of the loop, as the early return has it.
unfoldable pub update_slept_threads : M (Unit {0})
unfolding intr_yield_on_return
update_slept_threads = do
  spent ← get (λ k. k.thread_ticks)
  if leb time_slice ((spent + 1) % 2 ^ 32) then intr_yield_on_return else pure tt
  slept ← get (λ k. k.already_slept)
  wake_loop slept

-- ===== src/Threads/Schedule.antt =====
-- threads/thread.c: blocking, unblocking, yielding, exiting and the switch between threads.
-- A function that switches ends when the switch is done: what follows the call in the thread that
-- was left (`intr_set_level (old_level)`) is its first command once it runs again.
pub mod Switch
use os_pint_os_project.Base.{
  ℕ, ◌+◌, Bool, true, false, not, ◌&&◌, List, [], ◌∷◌, ◌==◌, if◌then◌else◌, update,
}
use os_pint_os_project.Sequence.{push_back, remove}
use os_pint_os_project.Threads.Kernel.{
  Ptr, null, ◌is◌, running, ready, blocked, dying, Thread, thread_magic, Kernel, M, pure, ◌>>=◌,
  ◌>>◌, get, modify, assert, set_thread, set_status, intr_get_level, intr_context, intr_disable,
  intr_set_level,
}

-- `t->magic` is read in the current state.
unfoldable pub is_thread : Kernel → Ptr → Bool
is_thread k t = not (t == null) && ((k.threads t).magic == thread_magic)

-- `pg_round_down (esp)`
unfoldable pub running_thread : M Ptr
running_thread = get (λ k. k.cpu)

unfoldable pub thread_current : M Ptr
unfolding running_thread is_thread
thread_current = do
  t ← running_thread
  valid ← get (λ k. is_thread k t)
  assert valid
  st ← get (λ k. (k.threads t).status)
  assert (st is running)
  pure t

unfoldable pub thread_tid : M ℕ
unfolding thread_current
thread_tid = do t ← thread_current; get (λ k. (k.threads t).tid)

unfoldable pub thread_name : M (List ℕ)
unfolding thread_current
thread_name = do t ← thread_current; get (λ k. (k.threads t).name)

-- The head of the ready list, which loses it, or the idle thread.
unfoldable pub pop_ready : List Ptr → M Ptr
pop_ready [] = get (λ k. k.idle_thread)
pop_ready (t ∷ rest) = do modify (λ k. record k { ready_list = rest }); pure t

unfoldable pub next_thread_to_run : M Ptr
unfolding pop_ready
next_thread_to_run = do q ← get (λ k. k.ready_list); pop_ready q

-- `palloc_free_page (prev)`
unfoldable pub destroy : Ptr → Ptr → M (Unit {0})
destroy prev cur = do assert (not (prev == cur)); modify (λ k. record k { freed = prev ∷ k.freed })

-- The test of thread_schedule_tail on the thread that was left.
unfoldable pub is_dead : Ptr → Kernel → Bool
is_dead prev k =
    not (prev == null) && (((k.threads prev).status is dying) && not (prev == k.initial_thread))

unfoldable pub thread_schedule_tail : Ptr → M (Unit {0})
unfolding running_thread intr_get_level destroy is_dead
thread_schedule_tail prev = do
  cur ← running_thread
  level ← intr_get_level
  assert (not level)
  modify (set_thread cur (set_status running))
  modify (λ k. record k { thread_ticks = 0 })
  dead ← get (is_dead prev)
  if dead then destroy prev cur else pure tt

-- `switch_threads (cur, next)`, which gives `cur` to the code that runs on the stack of `next`.
unfoldable pub switch_threads : Ptr → Ptr → M Ptr
switch_threads cur next = do modify (λ k. record k { cpu = next }); pure cur

unfoldable pub schedule : M (Unit {0})
unfolding running_thread next_thread_to_run intr_get_level is_thread switch_threads
    thread_schedule_tail
schedule = do
  cur ← running_thread
  next ← next_thread_to_run
  level ← intr_get_level
  assert (not level)
  st ← get (λ k. (k.threads cur).status)
  assert (not (st is running))
  valid ← get (λ k. is_thread k next)
  assert valid
  prev ← if cur == next then pure null else switch_threads cur next
  thread_schedule_tail prev

unfoldable pub thread_block : M (Unit {0})
unfolding intr_context intr_get_level
thread_block = do
  in_context ← intr_context
  assert (not in_context)
  level ← intr_get_level
  assert (not level)
  cur ← thread_current
  modify (set_thread cur (set_status blocked))
  schedule

unfoldable pub thread_unblock : Ptr → M (Unit {0})
unfolding is_thread intr_disable intr_set_level
thread_unblock t = do
  valid ← get (λ k. is_thread k t)
  assert valid
  old_level ← intr_disable
  st ← get (λ k. (k.threads t).status)
  assert (st is blocked)
  modify (λ k. record k { ready_list = push_back k.ready_list t })
  modify (set_thread t (set_status ready))
  intr_set_level old_level
  pure tt

-- Gives the interrupt level to restore when the thread runs again.
unfoldable pub thread_yield : M Bool
unfolding intr_context intr_disable
thread_yield = do
  cur ← thread_current
  in_context ← intr_context
  assert (not in_context)
  old_level ← intr_disable
  idle ← get (λ k. k.idle_thread)
  modify (λ k. if cur == idle then k else record k { ready_list = push_back k.ready_list cur })
  modify (set_thread cur (set_status ready))
  schedule
  pure old_level

unfoldable pub thread_exit : M (Unit {0})
unfolding intr_context intr_disable
thread_exit = do
  in_context ← intr_context
  assert (not in_context)
  intr_disable
  cur ← thread_current
  modify (λ k. record k { all_list = remove cur k.all_list })
  cur' ← thread_current
  modify (set_thread cur' (set_status dying))
  schedule

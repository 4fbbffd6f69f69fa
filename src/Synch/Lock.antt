-- ===== src/Synch/Lock.antt =====
-- threads/synch.c: locks. A lock is a semaphore of value 1 with a holder, at one address.
pub mod Mutex
pub mod Steps
use os_pint_os_project.Base.{ℕ, Bool, true, false, not, List, [], ◌∷◌, ◌==◌, if◌then◌else◌, update}
use os_pint_os_project.Threads.Kernel.{
  Ptr, null, Kernel, M, pure, ◌>>=◌, ◌>>◌, get, modify, assert, intr_context,
}
use os_pint_os_project.Threads.Schedule.{thread_current}
use os_pint_os_project.Synch.Semaphore.{
  Outcome, through, waits, sema_init, sema_down, sema_down_loop, sema_try_down, sema_up,
}

abbrev pub set_holder : Ptr → Ptr → Kernel → Kernel
set_holder l t k = record k { holder = update k.holder l t }

unfoldable pub lock_init : Ptr → M (Unit {0})
lock_init l = do assert (not (l == null)); modify (set_holder l null); sema_init l 1

unfoldable pub lock_held_by_current_thread : Ptr → M Bool
lock_held_by_current_thread l = do
  assert (not (l == null))
  cur ← thread_current
  get (λ k. k.holder l == cur)

-- What follows `sema_down` in lock_acquire, once that is through.
own : Ptr → Outcome → M Outcome
own l waits = pure waits
own l through = do cur ← thread_current; modify (set_holder l cur); pure through

unfoldable pub lock_acquire : Ptr → M Outcome
unfolding intr_context own lock_held_by_current_thread
lock_acquire l = do
  assert (not (l == null))
  in_context ← intr_context
  assert (not in_context)
  mine ← lock_held_by_current_thread l
  assert (not mine)
  r ← sema_down l
  own l r

-- The rest of a lock_acquire whose thread has slept and runs again.
unfoldable pub lock_acquire_resume : Ptr → Bool → M Outcome
unfolding own
lock_acquire_resume l old_level = do r ← sema_down_loop l old_level; own l r

unfoldable pub lock_try_acquire : Ptr → M Bool
unfolding own lock_held_by_current_thread
lock_try_acquire l = do
  assert (not (l == null))
  mine ← lock_held_by_current_thread l
  assert (not mine)
  success ← sema_try_down l
  own l (if success then through else waits)
  pure success

unfoldable pub lock_release : Ptr → M (Unit {0})
unfolding lock_held_by_current_thread
lock_release l = do
  assert (not (l == null))
  mine ← lock_held_by_current_thread l
  assert mine
  modify (set_holder l null)
  sema_up l

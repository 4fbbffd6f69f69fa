-- ===== src/Threads/Tick.antt =====
-- threads/thread.c: thread_tick; devices/timer.c: timer_interrupt; threads/interrupt.c: intr_handler.
-- The kernel is the one of the threads/ build: USERPROG is not defined.
pub mod Interrupt
pub mod Slice
use os_pint_os_project.Base.{
  ℕ, ◌+◌, ◌%◌, ◌^◌, Bool, true, false, not, ◌&&◌, ◌||◌, List, [], ◌∷◌, ◌==◌, if◌then◌else◌, ltb,
  leb, update, Option, none, some,
}
use os_pint_os_project.Threads.Kernel.{
  Ptr, Thread, Kernel, M, pure, ◌>>=◌, ◌>>◌, get, modify, assert, time_slice, intr_get_level,
  intr_context, intr_yield_on_return,
}
use os_pint_os_project.Threads.Schedule.{thread_current, thread_yield}
use os_pint_os_project.Threads.Sleep.{update_slept_threads}

count_tick : Bool → Kernel → Kernel
count_tick idle k =
    if idle
    then record k { idle_ticks = k.idle_ticks + 1 }
    else record k { kernel_ticks = k.kernel_ticks + 1 }

-- `if (!list_empty (&already_slept)) update_slept_threads ();`
wake_if_any : List Ptr → M (Unit {0})
wake_if_any [] = pure tt
wake_if_any (t ∷ ts) = update_slept_threads

unfoldable pub thread_tick : M (Unit {0})
unfolding count_tick wake_if_any intr_yield_on_return
thread_tick = do
  t ← thread_current
  idle ← get (λ k. k.idle_thread)
  modify (count_tick (t == idle))
  modify (λ k. record k { thread_ticks = (k.thread_ticks + 1) % 2 ^ 32 })
  spent ← get (λ k. k.thread_ticks)
  if leb time_slice spent then intr_yield_on_return else pure tt
  slept ← get (λ k. k.already_slept)
  wake_if_any slept

unfoldable pub timer_interrupt : M (Unit {0})
timer_interrupt = do modify (λ k. record k { ticks = k.ticks + 1 }); thread_tick

-- A device's handler, a spurious interrupt, or an unexpected one, which is counted. (What is printed
-- is left out.)
dispatch : Option (M (Unit {0})) → ℕ → M (Unit {0})
dispatch (some handler) vec_no = handler
dispatch none vec_no =
    if vec_no == 0x27 || vec_no == 0x2f
    then pure tt
    else modify (λ k. record k {
      unexpected_cnt = update k.unexpected_cnt vec_no ((k.unexpected_cnt vec_no + 1) % 2 ^ 32);
    })

enter_external : M (Unit {0})
unfolding intr_get_level intr_context
enter_external = do
  level ← intr_get_level
  assert (not level)
  in_context ← intr_context
  assert (not in_context)
  modify (λ k. record k { in_external_intr = true; yield_on_return = false })

-- `pic_end_of_interrupt` is output to a port.
leave_external : M (Unit {0})
unfolding intr_get_level intr_context
leave_external = do
  level ← intr_get_level
  assert (not level)
  in_context ← intr_context
  assert in_context
  modify (λ k. record k { in_external_intr = false })
  yield ← get (λ k. k.yield_on_return)
  if yield then (thread_yield >> pure tt) else pure tt

-- `handlers` is the table `intr_handlers`.
unfoldable pub intr_handler : (ℕ → Option (M (Unit {0}))) → ℕ → M (Unit {0})
unfolding dispatch enter_external leave_external
intr_handler handlers vec_no = do
  let external = leb 0x20 vec_no && ltb vec_no 0x30
  if external then enter_external else pure tt
  dispatch (handlers vec_no) vec_no
  if external then leave_external else pure tt

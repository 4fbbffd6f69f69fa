-- ===== src/Threads/Tick/Slice.antt =====
-- The time slice that thread_tick grants.
use os_pint_os_project.Base.{◌+◌, ◌^◌, ◌<◌, true, false, if◌then◌else◌, leb, ◌≡◌, arith}
use os_pint_os_project.Threads.Kernel.{Kernel, ok}
use os_pint_os_project.Threads.Invariant.{Inv}
use os_pint_os_project.Threads.Sleep.Order.{Sorted}
use os_pint_os_project.Threads.Tick.{timer_interrupt}
use os_pint_os_project.Threads.Tick.Interrupt.{is_empty, timer_interrupt-Ticked}

-- In a timer interrupt of a kernel in order, where `thread_ticks` ticks of the running thread's slice
-- were spent before, the handler asks for a yield when this is the fourth tick if no thread sleeps,
-- and already when it is the third if some thread does.
pub slice_length :
    (k : Kernel)
    → Inv k
    → Sorted k.threads k.already_slept
    → k.in_external_intr ≡ true
    → k.intr_on ≡ false
    → k.yield_on_return ≡ false
    → k.thread_ticks + 2 < 2 ^ 32
    → (k' : Kernel) × (timer_interrupt k ≡ ok tt k')
      × (k'.yield_on_return ≡ leb (if is_empty k.already_slept then 4 else 3) (k.thread_ticks + 1))
slice_length k v s ext off unasked small =
    let (k', runs, t) = timer_interrupt-Ticked k v s ext off in
    (k', runs, ground (arith, t.asks_yield))

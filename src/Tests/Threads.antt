-- ===== src/Tests/Threads.antt =====
-- A small kernel: thread 1 is idle, 2 runs, 3 and 4 are ready, 5 sleeps until tick 8 and 6 until 20.
use os_pint_os_project.Base.{
  ℕ, Bool, true, false, List, [], ◌∷◌, ◌==◌, if◌then◌else◌, ◌≡◌, arith, refl,
}
use os_pint_os_project.Threads.Kernel.{
  Ptr, Status, running, ready, blocked, dying, Thread, Kernel, Run, ok, panic, thread_magic,
}
use os_pint_os_project.Sequence.{remove}
use os_pint_os_project.Threads.Queue.{Is}
use os_pint_os_project.Threads.Invariant.{Inv, Waiting}
use os_pint_os_project.Threads.Schedule.{thread_current, schedule, thread_block, thread_unblock}
use os_pint_os_project.Threads.Sleep.{
  thread_sleep, go_to_sleep, update_slept_threads, wake_loop, wake,
}
use os_pint_os_project.Threads.Sleep.Doze.{Slept, thread_sleep-Slept}
use os_pint_os_project.Threads.Tick.{timer_interrupt, thread_tick}
use os_pint_os_project.Threads.Tick.Interrupt.{Ticked, timer_interrupt-Ticked}
use os_pint_os_project.Threads.Fair.{yields, yields-reach}

abbrev a_thread : Status → ℕ → Thread
a_thread s time = record {
  tid = 1;
  status = s;
  name = [];
  stack = 4096;
  priority = 31;
  time_ticks = time;
  magic = thread_magic;
}

abbrev no_thread : Thread
no_thread = record {
  tid = 0;
  status = dying;
  name = [];
  stack = 0;
  priority = 0;
  time_ticks = 0;
  magic = 0;
}

abbrev pub table : Ptr → Thread
table t =
    if t == 1
    then a_thread blocked 0
    else if t == 2
    then a_thread running 0
    else if t == 3
    then a_thread ready 0
    else if t == 4
    then a_thread ready 0
    else if t == 5
    then a_thread blocked 8
    else if t == 6
    then a_thread blocked 20
    else if t == 7
    then a_thread blocked 0
    else no_thread

abbrev pub small : Kernel
small = record {
  threads = table;
  ready_list = 3 ∷ 4 ∷ [];
  all_list = 2 ∷ 1 ∷ 3 ∷ 4 ∷ 5 ∷ 6 ∷ 7 ∷ [];
  already_slept = 5 ∷ 6 ∷ [];
  idle_thread = 1;
  initial_thread = 2;
  next_tid = 8;
  idle_ticks = 0;
  kernel_ticks = 7;
  thread_ticks = 2;
  ticks = 7;
  cpu = 2;
  intr_on = true;
  in_external_intr = false;
  yield_on_return = false;
  freed = [];
  semaphores = λ s. record { value = 1; waiters = [] };
  holder = λ l. 0;
  conditions = λ c. [];
  unexpected_cnt = λ v. 0;
}

abbrev in_handler : Kernel
in_handler = record small { intr_on = false; in_external_intr = true }

abbrev masked : Kernel
masked = record small { intr_on = false }

only_two : (t : Ptr) → Is table running t → t ≡ 2
only_two t r = ground (arith, r.status)

pub small-Waiting : Waiting small
small-Waiting = ground arith

pub small-Inv : Inv small
small-Inv = record { current = ground arith; alone = only_two; waiting = small-Waiting }

in_handler-Inv : Inv in_handler
in_handler-Inv = record { current = ground arith; alone = only_two; waiting = ground arith }

masked-Inv : Inv masked
masked-Inv = record { current = ground arith; alone = only_two; waiting = ground arith }

timer_interrupt-Ticked_example :
    (k' : Kernel) × (timer_interrupt in_handler ≡ ok tt k') × Ticked in_handler k'
timer_interrupt-Ticked_example =
    timer_interrupt-Ticked in_handler in_handler-Inv (omega arith) refl refl

abbrev queues_of : Run (Unit {0}) → List Ptr × List Ptr
queues_of (ok u k) = (k.ready_list, k.already_slept)
queues_of panic = ([], [])

-- Thread 5 is woken at tick 8, thread 6 is not.
tick_example : queues_of (timer_interrupt in_handler) ≡ (3 ∷ 4 ∷ 5 ∷ [], 6 ∷ [])
unfolding timer_interrupt thread_tick thread_current update_slept_threads wake_loop wake
    thread_unblock remove
tick_example = refl

thread_sleep-Slept_example : (k' : Kernel) × (thread_sleep 5 small ≡ ok true k') × Slept 5 small k'
thread_sleep-Slept_example = thread_sleep-Slept 5 small small-Inv (omega arith) (omega arith) refl

abbrev queues_of' : Run Bool → List Ptr × List Ptr
queues_of' (ok u k) = (k.ready_list, k.already_slept)
queues_of' panic = ([], [])

-- Thread 2 sleeps between the other two, and thread 3 runs.
sleep_example : queues_of' (thread_sleep 5 small) ≡ (4 ∷ [], 5 ∷ 2 ∷ 6 ∷ [])
unfolding thread_sleep thread_current thread_block schedule go_to_sleep
sleep_example = refl

yields-reach_example : (k' : Kernel) × (yields 2 small ≡ ok tt k') × (k'.cpu ≡ 4) × Inv k'
yields-reach_example = yields-reach (3 ∷ []) 4 [] small small-Inv refl refl

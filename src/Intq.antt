-- ===== src/Intq.antt =====
-- devices/intq.c: a ring of bytes between a thread and an interrupt handler. A call that sleeps ends
-- with the outcome that says so, as in synch.c; its loop goes round again once the thread runs.
pub mod Contents
pub mod Transfer
use os_pint_os_project.Base.{ℕ, ◌+◌, ◌%◌, Bool, true, false, not, ◌&&◌, ◌==◌, if◌then◌else◌, update}
use os_pint_os_project.Threads.Kernel.{
  Ptr, null, M, pure, ◌>>=◌, ◌>>◌, assert, intr_get_level, intr_context,
}
use os_pint_os_project.Threads.Schedule.{thread_current, thread_block, thread_unblock}
use os_pint_os_project.Synch.Semaphore.{Outcome, through, waits}
use os_pint_os_project.Synch.Lock.{lock_init, lock_acquire, lock_release}

abbrev pub intq_bufsize : ℕ
intq_bufsize = 64

-- struct intq; `lock` is the address of the lock.
pub record Intq : Type 0 where
  pub lock : Ptr
  pub not_full : Ptr
  pub not_empty : Ptr
  pub buf : ℕ → ℕ
  pub head : ℕ
  pub tail : ℕ

unfoldable pub next : ℕ → ℕ
next pos = (pos + 1) % intq_bufsize

unfoldable pub intq_init : Intq → M Intq
intq_init q = do
  lock_init q.lock
  pure record q { not_full = null; not_empty = null; head = 0; tail = 0 }

unfoldable pub intq_empty : Intq → M Bool
unfolding intr_get_level
intq_empty q = do level ← intr_get_level; assert (not level); pure (q.head == q.tail)

unfoldable pub intq_full : Intq → M Bool
unfolding intr_get_level next
intq_full q = do level ← intr_get_level; assert (not level); pure (next q.head == q.tail)

-- The two conditions a thread can wait for.
pub data Condition : Type 0 where
  not_full not_empty : Condition

unfoldable pub waiter : Condition → Intq → Ptr
waiter not_full q = q.not_full
waiter not_empty q = q.not_empty

unfoldable pub set_waiter : Condition → Ptr → Intq → Intq
set_waiter not_full t q = record q { not_full = t }
set_waiter not_empty t q = record q { not_empty = t }

-- What makes a thread wait for a condition.
unfoldable pub lacking : Condition → Intq → M Bool
unfolding intq_full intq_empty
lacking not_full q = intq_full q
lacking not_empty q = intq_empty q

-- The thread sleeps when this ends.
unfoldable pub wait : Condition → Intq → M Intq
unfolding intr_context intr_get_level lacking
wait c q = do
  in_context ← intr_context
  assert (not in_context)
  level ← intr_get_level
  assert (not level)
  lacks ← lacking c q
  assert lacks
  cur ← thread_current
  thread_block
  pure (set_waiter c cur q)

-- `if (*waiter != NULL)`
unfoldable pub wake : Condition → Ptr → Intq → M Intq
unfolding set_waiter
wake c t q = if t == null then pure q else (thread_unblock t >> pure (set_waiter c null q))

unfoldable pub signal : Condition → Intq → M Intq
unfolding intr_get_level lacking waiter wake
signal c q = do
  level ← intr_get_level
  assert (not level)
  lacks ← lacking c q
  assert (not lacks)
  wake c (waiter c q) q

-- Where a call that found its condition lacking sleeps: for the lock, or for the condition, which
-- it then has to give the lock back for.
pub data Sleep : Type 0 where
  for_lock for_condition : Sleep

pub data Reply (A : Type 0) : Type 0 where
  done : A → Intq → Reply A
  asleep : Sleep → Intq → Reply A

-- The wait after lock_acquire, if that is through.
unfoldable pub wait_locked : {A : Type 0} → Condition → Intq → Outcome → M (Reply A)
wait_locked c q waits = pure (asleep for_lock q)
wait_locked c q through = wait c q >>= λ q'. pure (asleep for_condition q')

-- The body of the loops.
unfoldable pub sleep : {A : Type 0} → Condition → Intq → M (Reply A)
unfolding intr_context wait_locked
sleep c q = do
  in_context ← intr_context
  assert (not in_context)
  r ← lock_acquire q.lock
  wait_locked c q r

unfoldable pub take_byte : Intq → M (Reply ℕ)
unfolding next
take_byte q =
    signal not_full (record q { tail = next q.tail }) >>= λ q'. pure (done (q.buf q.tail) q')

unfoldable pub put_byte : Intq → ℕ → M (Reply (Unit {0}))
unfolding next
put_byte q byte =
    signal not_empty (record q { buf = update q.buf q.head byte; head = next q.head }) >>= λ q'.
    pure (done tt q')

unfoldable pub intq_getc : Intq → M (Reply ℕ)
unfolding intr_get_level intq_empty sleep take_byte
intq_getc q = do
  level ← intr_get_level
  assert (not level)
  empty ← intq_empty q
  if empty then sleep not_empty q else take_byte q

unfoldable pub intq_putc : Intq → ℕ → M (Reply (Unit {0}))
unfolding intr_get_level intq_full sleep put_byte
intq_putc q byte = do
  level ← intr_get_level
  assert (not level)
  full ← intq_full q
  if full then sleep not_full q else put_byte q byte

-- The rest of a call whose thread slept for the lock.
unfoldable pub locked_resume : {A : Type 0} → Condition → Intq → M (Reply A)
locked_resume c q = wait_locked c q through

-- The rest of a call whose thread slept for its condition: the lock is given back and the test made
-- again.
unfoldable pub intq_getc_resume : Intq → M (Reply ℕ)
unfolding intq_empty sleep take_byte
intq_getc_resume q = do
  lock_release q.lock
  empty ← intq_empty q
  if empty then sleep not_empty q else take_byte q

unfoldable pub intq_putc_resume : Intq → ℕ → M (Reply (Unit {0}))
unfolding intq_full sleep put_byte
intq_putc_resume q byte = do
  lock_release q.lock
  full ← intq_full q
  if full then sleep not_full q else put_byte q byte

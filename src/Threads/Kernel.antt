-- ===== src/Threads/Kernel.antt =====
-- The kernel's state as threads/thread.c, threads/interrupt.c and threads/synch.c keep it, and the
-- commands over it. A failed ASSERT is the outcome `panic` (lib/kernel/debug.c halts the machine).
use os_pint_os_project.Base.{ℕ, Bool, true, false, not, List, if◌then◌else◌, update, ◌≡◌, ◌≢◌, refl}

abbrev pub Ptr : Type 0
Ptr = ℕ

abbrev pub null : Ptr
null = 0

-- `enum thread_status`
pub data Status : Type 0 where
  running ready blocked dying : Status

infix 50 ◌is◌
abbrev pub ◌is◌ : Status → Status → Bool
running is running = true
ready is ready = true
blocked is blocked = true
dying is dying = true
_ is _ = false

pub is-running_ne : (s : Status) → s ≢ running → (s is running) ≡ false
is-running_ne running h = absurd (h refl)
is-running_ne ready h = refl
is-running_ne blocked h = refl
is-running_ne dying h = refl

-- `struct thread`. A thread is named by the address of its page; `elem` and `allelem` are the
-- membership of that address in the lists below. `stack` is the saved stack pointer's offset in
-- the page.
pub record Thread : Type 0 where
  pub tid : ℕ
  pub status : Status
  pub name : List ℕ
  pub stack : ℕ
  pub priority : ℕ
  pub time_ticks : ℕ
  pub magic : ℕ

-- `struct semaphore`
pub record Semaphore : Type 0 where
  pub value : ℕ
  pub waiters : List Ptr

abbrev pub thread_magic : ℕ
thread_magic = 0xcd6abf4b

abbrev pub time_slice : ℕ
time_slice = 4

abbrev pub pri_default : ℕ
pri_default = 31

abbrev pub pri_max : ℕ
pri_max = 63

-- The static variables, the CPU's interrupt flag and stack page (`cpu`), and the objects by address.
-- A lock is a semaphore with a holder at the same address.
pub record Kernel : Type 0 where
  pub threads : Ptr → Thread
  pub ready_list : List Ptr
  pub all_list : List Ptr
  pub already_slept : List Ptr
  pub idle_thread : Ptr
  pub initial_thread : Ptr
  pub next_tid : ℕ
  pub idle_ticks : ℕ
  pub kernel_ticks : ℕ
  pub thread_ticks : ℕ
  pub ticks : ℕ
  pub cpu : Ptr
  pub intr_on : Bool
  pub in_external_intr : Bool
  pub yield_on_return : Bool
  pub freed : List Ptr
  pub semaphores : Ptr → Semaphore
  pub holder : Ptr → Ptr
  pub conditions : Ptr → List Ptr
  pub unexpected_cnt : ℕ → ℕ

pub data Run (A : Type 0) : Type 0 where
  ok : A → Kernel → Run A
  panic : Run A

abbrev pub M : Type 0 → Type 0
M A = Kernel → Run A

abbrev pub pure : {A : Type 0} → A → M A
pure = ok

module _ {A B : Type 0} where
  abbrev pub and_then : Run A → (A → M B) → Run B
  and_then (ok a k) f = f a k
  and_then panic f = panic

  infixl 5 ◌>>=◌ ◌>>◌
  abbrev pub ◌>>=◌ : M A → (A → M B) → M B
  m >>= f = λ k. and_then (m k) f

  abbrev pub ◌>>◌ : M A → M B → M B
  m >> n = m >>= λ _. n

abbrev pub get : {A : Type 0} → (Kernel → A) → M A
get f k = ok (f k) k

abbrev pub modify : (Kernel → Kernel) → M (Unit {0})
modify f k = ok tt (f k)

abbrev pub assert : Bool → M (Unit {0})
assert b k = if b then ok tt k else panic

-- `t->field = v`, through the new struct thread
abbrev pub set_thread : Ptr → (Thread → Thread) → Kernel → Kernel
set_thread t f k = record k { threads = update k.threads t (f (k.threads t)) }

abbrev pub set_status : Status → Thread → Thread
set_status s t = record t { status = s }

-- threads/interrupt.c. `true` is INTR_ON.
unfoldable pub intr_get_level : M Bool
intr_get_level = get (λ k. k.intr_on)

unfoldable pub intr_context : M Bool
intr_context = get (λ k. k.in_external_intr)

unfoldable pub intr_enable : M Bool
unfolding intr_get_level intr_context
intr_enable = do
  old_level ← intr_get_level
  in_context ← intr_context
  assert (not in_context)
  modify (λ k. record k { intr_on = true })
  pure old_level

unfoldable pub intr_disable : M Bool
unfolding intr_get_level
intr_disable = do
  old_level ← intr_get_level
  modify (λ k. record k { intr_on = false })
  pure old_level

unfoldable pub intr_set_level : Bool → M Bool
unfolding intr_enable intr_disable
intr_set_level level = if level then intr_enable else intr_disable

unfoldable pub intr_yield_on_return : M (Unit {0})
unfolding intr_context
intr_yield_on_return = do
  in_context ← intr_context
  assert in_context
  modify (λ k. record k { yield_on_return = true })

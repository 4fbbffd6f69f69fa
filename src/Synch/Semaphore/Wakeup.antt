-- ===== src/Synch/Semaphore/Wakeup.antt =====
-- sema_up wakes the threads that wait in the order of their queue.
use os_pint_os_project.Base.{
  ℕ, zero, suc, ◌+◌, ◌%◌, ◌^◌, ◌<◌, false, List, [], ◌∷◌, ◌++◌, length, append-nil, append_assoc,
  ◌≡◌, ◌≢◌, arith, refl, sym, ap, update-update, ◌∙◌, ==_refl, ◌==◌, All,
}
use os_pint_os_project.Threads.Kernel.{
  Ptr, null, ready, blocked, Kernel, M, ok, pure, set_status, ◌>>◌,
}
use os_pint_os_project.Threads.Queue.{Is, Queue, has, All-Is-update}
use os_pint_os_project.Threads.Schedule.{thread_unblock}
use os_pint_os_project.Threads.Block.{mute}
use os_pint_os_project.Threads.Unblock.{Masked, woken, thread_unblock_lem}
use os_pint_os_project.Synch.Semaphore.{set_sema, sema_up}

module _ (k : Kernel) (s : Ptr) (m : Masked k) (ne : s ≢ null) where
  abbrev plus_one : ℕ
  plus_one = ((k.semaphores s).value + 1) % 2 ^ 32

  left : List Ptr → Kernel
  left ts = set_sema s (record (k.semaphores s) { waiters = ts }) (mute k)

  unblocks :
      (t : Ptr) (ts : List Ptr)
      → Is k.threads blocked t
      → thread_unblock t (left ts) ≡ ok tt (woken t (left ts))
  unfolding left
  unblocks t ts b = thread_unblock_lem (left ts) t (λ h. refl) b

  -- With threads waiting, `sema_up` takes the first out of the queue and makes it ready behind the
  -- ready threads; the value goes up by one, so that the thread finds it positive when it runs.
  pub sema_up-first :
      (t : Ptr) (ts : List Ptr)
      → (k.semaphores s).waiters ≡ t ∷ ts
      → Is k.threads blocked t
      → sema_up s k ≡ ok tt (set_sema s (record { value = plus_one; waiters = ts }) (woken t k))
  unfolding sema_up left
  sema_up-first t ts q b =
      ground (arith, unblocks t ts b)
      ∙ ap (λ f. ok tt (record (woken t k) { semaphores = f }))
          (update-update k.semaphores s (record { value = (k.semaphores s).value; waiters = ts })
            (record { value = plus_one; waiters = ts }))

  pub sema_up-nobody :
      (k.semaphores s).waiters ≡ []
      → sema_up s k ≡ ok tt (set_sema s (record { value = plus_one; waiters = [] }) k)
  unfolding sema_up
  sema_up-nobody q = ground arith

-- `sema_up` `n` times in a row.
unfoldable pub sema_ups : ℕ → Ptr → M (Unit {0})
sema_ups zero s = pure tt
sema_ups (suc n) s = do sema_up s; sema_ups n s

-- The state after as many `sema_up`s as there are waiters `ts`.
pub record AllWoken (s : Ptr) (ts : List Ptr) (k k' : Kernel) : Type 0 where
  pub in_order : k'.ready_list ≡ k.ready_list ++ ts
  pub ready_now : All (Is k'.threads ready) ts
  pub others : (u : Ptr) → has u ts ≡ false → k'.threads u ≡ k.threads u
  pub none_left : (k'.semaphores s).waiters ≡ []
  pub value : (k'.semaphores s).value ≡ ((k.semaphores s).value + length ts) % 2 ^ 32
  pub same_thread : k'.cpu ≡ k.cpu
  pub same_level : k'.intr_on ≡ k.intr_on

-- As many `sema_up`s as a semaphore has waiters, all of them blocked threads and no two the same, make
-- all of them ready, behind the threads that were ready and in the order in which they wait, and add
-- one for each to the value; no other thread changes, the running one goes on, and the interrupt level
-- is what it was.
pub sema_ups-AllWoken :
    (s : Ptr) (ts : List Ptr) (k : Kernel)
    → Masked k
    → s ≢ null
    → (k.semaphores s).value < 2 ^ 32
    → (k.semaphores s).waiters ≡ ts
    → Queue k.threads blocked ts
    → (k' : Kernel) × (sema_ups (length ts) s k ≡ ok tt k') × AllWoken s ts k k'
unfolding sema_ups
sema_ups-AllWoken s [] k m ne small q b = (
  k,
  refl,
  record {
    in_order = sym (append-nil k.ready_list);
    ready_now = tt;
    others = λ u h. refl;
    none_left = q;
    value = omega arith;
    same_thread = refl;
    same_level = refl;
  },
)
sema_ups-AllWoken s (t ∷ ts) k m ne small q b =
    let k1 = set_sema s (record { value = plus_one k s m ne; waiters = ts }) (woken t k) in
    let here : k1.semaphores s ≡ (record { value = plus_one k s m ne; waiters = ts }) =
      rw (==_refl s) refl in
    let (k', runs, w) =
      sema_ups-AllWoken s ts k1 m ne (rw here (omega arith)) (ap (λ x. x.waiters) here) (record {
        each =
            All-Is-update k.threads blocked t (set_status ready (k.threads t)) ts b.once.0 b.each.1;
        once = b.once.1;
      }) in
    let now : k'.threads t ≡ set_status ready (k.threads t) =
      w.others t b.once.0 ∙ rw (==_refl t) refl in
    (
      k',
      rw (sema_up-first k s m ne t ts q b.each.0) runs,
      record {
        in_order = w.in_order ∙ append_assoc k.ready_list (t ∷ []) ts;
        ready_now = (
          record {
            ne_null = b.each.0.ne_null;
            magic = ap (λ x. x.magic) now ∙ b.each.0.magic;
            status = ap (λ x. x.status) now;
          },
          w.ready_now,
        );
        others = λ u h.
            let other : (t == u) ≡ false = ground (arith, h) in
            w.others u (ground (arith, h)) ∙ rw other refl;
        none_left = w.none_left;
        value = w.value ∙ ap (λ x. (x.value + length ts) % 2 ^ 32) here ∙ omega arith;
        same_thread = w.same_thread;
        same_level = w.same_level;
      },
    )

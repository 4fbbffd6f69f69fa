-- ===== src/Threads/Fair.antt =====
-- Round robin: a ready thread gets the CPU after as many yields as threads stand before it, and one.
use os_pint_os_project.Base.{
  ℕ, zero, suc, false, List, [], ◌∷◌, ◌++◌, ◌==◌, if◌then◌else◌, ◌≡◌, arith, length, append_assoc,
}
use os_pint_os_project.Threads.Kernel.{Ptr, Kernel, M, ok, pure, ◌>>◌}
use os_pint_os_project.Threads.Schedule.{thread_yield}
use os_pint_os_project.Threads.Schedule.Switch.{switched}
use os_pint_os_project.Threads.Block.{yielded, thread_yield_lem}
use os_pint_os_project.Threads.Invariant.{Inv}

-- Each thread that runs yields at once, `n` times in all.
unfoldable pub yields : ℕ → M (Unit {0})
yields zero = pure tt
yields (suc n) = thread_yield >> yields n

-- The queue behind a thread once the running thread has lined up.
behind : List Ptr → Kernel → List Ptr
behind after k = if k.cpu == k.idle_thread then after else after ++ (k.cpu ∷ [])

-- From a kernel in order, outside an interrupt handler, `length before + 1` yields pass every
-- assertion and end with the thread that stood behind `before` in the ready list running.
pub yields-reach :
    (before : List Ptr) (t : Ptr) (after : List Ptr) (k : Kernel)
    → Inv k
    → k.in_external_intr ≡ false
    → k.ready_list ≡ before ++ (t ∷ after)
    → (k' : Kernel) × (yields (suc (length before)) k ≡ ok tt k') × (k'.cpu ≡ t) × Inv k'
unfolding yields behind
yields-reach [] t after k v plain e =
    let (runs, v') = thread_yield_lem v plain in (switched (yielded v), rw runs, ground arith, v')
yields-reach (u ∷ us) t after k v plain e =
    let (runs, v') = thread_yield_lem v plain in
    let (k', rest_runs, at, v'') =
      yields-reach us t (behind after k) (switched (yielded v)) v' plain
        (ground (arith, append_assoc us (t ∷ after) (k.cpu ∷ []))) in
    (k', rw runs rest_runs, at, v'')

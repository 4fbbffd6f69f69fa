-- ===== src/Threads/Queue.antt =====
-- Queues of threads: every thread of a queue has the queue's status, and stands in it once.
use os_pint_os_project.Base.{
  true, false, List, [], ◌∷◌, ◌++◌, ◌≡◌, ◌≢◌, arith, refl, All, All-append, update,
}
pub use os_pint_os_project.Base.Members.{has, Nodup, has-append}
use os_pint_os_project.Sequence.{remove}
use os_pint_os_project.Threads.Kernel.{Ptr, null, Status, Thread, thread_magic}

-- `t` is a thread with this status.
pub record Is (th : Ptr → Thread) (s : Status) (t : Ptr) : Type 0 where
  pub ne_null : t ≢ null
  pub magic : (th t).magic ≡ thread_magic
  pub status : (th t).status ≡ s

pub record Queue (th : Ptr → Thread) (s : Status) (q : List Ptr) : Type 0 where
  pub each : All (Is th s) q
  pub once : Nodup q

pub has-remove_ne : (u x : Ptr) (xs : List Ptr) → has u xs ≡ false → has u (remove x xs) ≡ false
unfolding remove
has-remove_ne u x [] h = refl
has-remove_ne u x (y ∷ ys) h = ground (arith, has-remove_ne u x ys)

-- A change of predicate that holds at the members.
pub All-has {ℓ κ} :
    {P : Ptr → Type ℓ} {Q : Ptr → Type κ} (q : List Ptr)
    → ((t : Ptr) → has t q ≡ true → P t → Q t)
    → All P q
    → All Q q
All-has [] f h = tt
All-has (t ∷ ts) f h = (f t (ground arith) h.0, All-has ts (λ u there. f u (ground arith)) h.1)

module _ (th : Ptr → Thread) (s : Status) where
  -- A thread of another status is not in the queue.
  pub All-Is-out : (u : Ptr) (q : List Ptr) → All (Is th s) q → (th u).status ≢ s → has u q ≡ false
  All-Is-out u [] h ne = refl
  All-Is-out u (t ∷ ts) h ne = ground (arith, All-Is-out u ts h.1 ne, h.0.status)

  -- A change of a thread outside the queue leaves the queue as it is.
  pub All-Is-update :
      (u : Ptr) (x : Thread) (q : List Ptr)
      → has u q ≡ false
      → All (Is th s) q
      → All (Is (update th u x) s) q
  All-Is-update u x [] out h = tt
  All-Is-update u x (t ∷ ts) out h = (ground arith, All-Is-update u x ts (ground arith) h.1)

Nodup-push : (u : Ptr) (q : List Ptr) → has u q ≡ false → Nodup q → Nodup (q ++ (u ∷ []))
Nodup-push u [] out n = (refl, tt)
Nodup-push u (t ∷ ts) out n =
    (ground (arith, has-append t ts (u ∷ [])), Nodup-push u ts (ground arith) n.1)

module _ {th : Ptr → Thread} {s : Status} {q : List Ptr} (v : Queue th s q) where
  pub Queue-out : (u : Ptr) → (th u).status ≢ s → has u q ≡ false
  Queue-out u ne = All-Is-out th s u q v.each ne

  pub Queue-update : (u : Ptr) (x : Thread) → has u q ≡ false → Queue (update th u x) s q
  Queue-update u x out = record { each = All-Is-update th s u x q out v.each; once = v.once }

  -- Appending a thread that has the status and is not in the queue.
  pub Queue-push : (u : Ptr) → has u q ≡ false → Is th s u → Queue th s (q ++ (u ∷ []))
  Queue-push u out is = record {
    each = All-append (Is th s) q (u ∷ []) v.each (is, tt);
    once = Nodup-push u q out v.once;
  }

-- ===== src/Threads/Sleep/Order.antt =====
-- The sleeping queue is ordered by wake-up time.
use os_pint_os_project.Base.{
  ℕ, ◌≤◌, ◌<◌, true, false, ◌||◌, List, [], ◌∷◌, ◌++◌, ◌==◌, if◌then◌else◌, leb, ◌≡◌, arith, refl,
  All, All-map, Bool-cases, leb→le, inl, inr,
}
use os_pint_os_project.Sequence.{insert_ordered}
use os_pint_os_project.Threads.Kernel.{Ptr, Status, Thread}
use os_pint_os_project.Threads.Queue.{has, All-has, Nodup, Queue, Is}
use os_pint_os_project.Threads.Sleep.{thread_comparable_time_ticks}

abbrev pub wake_time : (Ptr → Thread) → Ptr → ℕ
wake_time th t = (th t).time_ticks

abbrev pub Sorted : (Ptr → Thread) → List Ptr → Type 0
Sorted th [] = Unit
Sorted th (t ∷ ts) = All (λ u. wake_time th t ≤ wake_time th u) ts × Sorted th ts

-- The threads whose time has come, from the front, and those behind them.
abbrev pub due : (Ptr → Thread) → ℕ → List Ptr → List Ptr
due th now [] = []
due th now (t ∷ ts) = if leb (wake_time th t) now then t ∷ due th now ts else []

abbrev pub later : (Ptr → Thread) → ℕ → List Ptr → List Ptr
later th now [] = []
later th now (t ∷ ts) = if leb (wake_time th t) now then later th now ts else t ∷ ts

module _ (th : Ptr → Thread) (now : ℕ) where
  pub due-append-later : (q : List Ptr) → due th now q ++ later th now q ≡ q
  due-append-later [] = refl
  due-append-later (t ∷ ts) = ground (arith, due-append-later ts)

  pub due-le : (q : List Ptr) → All (λ u. wake_time th u ≤ now) (due th now q)
  due-le [] = tt
  due-le (t ∷ ts) = elim (Bool-cases (leb (wake_time th t) now)) [
    | inl y ↦ rw y (leb→le _ _ y, due-le ts)
    | inr n ↦ rw n tt
  ]

  -- In an ordered queue nobody behind is due.
  pub later-lt : (q : List Ptr) → Sorted th q → All (λ u. now < wake_time th u) (later th now q)
  later-lt [] s = tt
  later-lt (t ∷ ts) s = elim (Bool-cases (leb (wake_time th t) now)) [
    | inl y ↦ rw y (later-lt ts s.1)
    | inr n ↦
        let after : now < wake_time th t = ground arith in
        rw n (after, All-map _ _ ts (λ u le. omega arith) s.0)
  ]

  pub Sorted-later : (q : List Ptr) → Sorted th q → Sorted th (later th now q)
  Sorted-later [] s = tt
  Sorted-later (t ∷ ts) s = elim (Bool-cases (leb (wake_time th t) now)) [
    | inl y ↦ rw y (Sorted-later ts s.1)
    | inr n ↦ rw n s
  ]

pub due-same :
    (th th' : Ptr → Thread) (now : ℕ) (q : List Ptr)
    → ((t : Ptr) → has t q ≡ true → wake_time th' t ≡ wake_time th t)
    → (due th' now q ≡ due th now q) × (later th' now q ≡ later th now q)
due-same th th' now [] same = (refl, refl)
due-same th th' now (t ∷ ts) same =
    let ih = due-same th th' now ts (λ u h. same u (ground arith)) in
    ground (arith, same t (ground arith), ih)

-- Only the wake-up times matter.
pub Sorted-same :
    (th th' : Ptr → Thread) (q : List Ptr)
    → ((t : Ptr) → has t q ≡ true → wake_time th' t ≡ wake_time th t)
    → Sorted th q
    → Sorted th' q
Sorted-same th th' [] same s = tt
Sorted-same th th' (t ∷ ts) same s = (
  All-has ts (λ u there le. omega (arith, same t (ground arith), same u (ground arith))) s.0,
  Sorted-same th th' ts (λ u there. same u (ground arith)) s.1,
)

module _ (th : Ptr → Thread) (t : Ptr) where
  abbrev now : ℕ
  now = wake_time th t

  comparable-le : (u : Ptr) → thread_comparable_time_ticks th t u ≡ true → now ≤ wake_time th u
  unfolding thread_comparable_time_ticks
  comparable-le u h = ground arith

  not_comparable-le : (u : Ptr) → thread_comparable_time_ticks th t u ≡ false → wake_time th u ≤ now
  unfolding thread_comparable_time_ticks
  not_comparable-le u h = ground arith

  -- A thread goes behind all that wake up no later than it, and before the others.
  pub insert_ordered-due :
      (q : List Ptr)
      → insert_ordered (thread_comparable_time_ticks th) t q ≡ due th now q ++ (t ∷ later th now q)
  unfolding insert_ordered thread_comparable_time_ticks
  insert_ordered-due [] = refl
  insert_ordered-due (u ∷ us) = ground (arith, insert_ordered-due us)

  All-insert :
      (P : Ptr → Type 0) (q : List Ptr)
      → P t
      → All P q
      → All P (insert_ordered (thread_comparable_time_ticks th) t q)
  unfolding insert_ordered
  All-insert P [] p h = (p, tt)
  All-insert P (u ∷ us) p h = elim (Bool-cases (thread_comparable_time_ticks th t u)) [
    | inl y ↦ rw y (p, h)
    | inr n ↦ rw n (h.0, All-insert P us p h.1)
  ]

  pub has-insert :
      (u : Ptr) (q : List Ptr)
      → has u (insert_ordered (thread_comparable_time_ticks th) t q) ≡ (t == u || has u q)
  unfolding insert_ordered
  has-insert u [] = refl
  has-insert u (w ∷ ws) = ground (arith, has-insert u ws)

  Nodup-insert :
      (q : List Ptr)
      → has t q ≡ false
      → Nodup q
      → Nodup (insert_ordered (thread_comparable_time_ticks th) t q)
  unfolding insert_ordered
  Nodup-insert [] out n = (refl, tt)
  Nodup-insert (w ∷ ws) out n = elim (Bool-cases (thread_comparable_time_ticks th t w)) [
    | inl y ↦ rw y (out, n)
    | inr no_less ↦ rw no_less (ground (arith, has-insert w ws), Nodup-insert ws (ground arith) n.1)
  ]

  -- The thread joins a queue of threads of its status.
  pub Queue-insert :
      {now_th : Ptr → Thread} {s : Status} {q : List Ptr}
      → Queue now_th s q
      → has t q ≡ false
      → Is now_th s t
      → Queue now_th s (insert_ordered (thread_comparable_time_ticks th) t q)
  Queue-insert {now_th} {s} {q} v out r = record {
    each = All-insert (Is now_th s) q r v.each;
    once = Nodup-insert q out v.once;
  }

  pub Sorted-insert :
      (q : List Ptr)
      → Sorted th q
      → Sorted th (insert_ordered (thread_comparable_time_ticks th) t q)
  unfolding insert_ordered
  Sorted-insert [] s = (tt, tt)
  Sorted-insert (u ∷ us) s = elim (Bool-cases (thread_comparable_time_ticks th t u)) [
    | inl y ↦
        let le : now ≤ wake_time th u = comparable-le u y in
        rw y ((le, All-map _ _ us (λ w h. omega arith) s.0), s)
    | inr n ↦ rw n (
      All-insert (λ w. wake_time th u ≤ wake_time th w) us (not_comparable-le u n) s.0,
      Sorted-insert us s.1,
    )
  ]

-- ===== src/Synch/Lock/Mutex.antt =====
-- Mutual exclusion, from the semaphore's value.
use os_pint_os_project.Base.{
  ◌+◌, ◌≤◌, Bool, true, false, update, ◌≡◌, ◌≢◌, refl, arith, ap, sym, ◌∙◌, ◌%◌, ◌^◌,
}
use os_pint_os_project.Threads.Kernel.{Ptr, null, Kernel}
use os_pint_os_project.Synch.Semaphore.{through, waits}
use os_pint_os_project.Synch.Semaphore.Effect.{
  value_of, Down, sema_down-Down, sema_down_loop-Down, sema_up_lem,
}
use os_pint_os_project.Synch.Lock.{set_holder}
use os_pint_os_project.Synch.Lock.Steps.{
  Pc, outside, waiting, passed, inside, leaving, System, system, Step, acquire, sleep, wake,
  sleep_again, own, disown, release, elsewhere, Reach, start, later,
}

-- The semaphore's unit is with this thread.
abbrev pub has_unit : Pc → Bool
has_unit passed = true
has_unit inside = true
has_unit leaving = true
has_unit _ = false

pub record Exclusive (l : Ptr) (s : System) : Type 0 where
  pub at_most_one : value_of s.kernel l ≤ 1
  pub taken : (t : Ptr) → has_unit (s.pc t) ≡ true → value_of s.kernel l ≡ 0
  pub unique : (t u : Ptr) → has_unit (s.pc t) ≡ true → has_unit (s.pc u) ≡ true → t ≡ u
  pub holder_inside : (t : Ptr) → t ≢ null → s.kernel.holder l ≡ t → s.pc t ≡ inside
  pub inside_holder : (t : Ptr) → s.pc t ≡ inside → s.kernel.holder l ≡ t

module _ {l : Ptr} {s : System} (x : Exclusive l s) where
  open x use {at_most_one, taken, unique, holder_inside, inside_holder}

  abbrev me : Ptr
  me = s.kernel.cpu

  -- A thread without a unit takes one.
  taking :
      (k' : Kernel)
      → has_unit (s.pc me) ≡ false
      → Down through l s.kernel k'
      → Exclusive l (system k' (update s.pc me passed))
  taking k' free (positive, less, same) =
      let kept : k'.holder l ≡ s.kernel.holder l = ap (λ f. f l) same in
      record {
        at_most_one = omega (arith, at_most_one);
        taken = λ t h. omega (arith, at_most_one);
        unique = λ t u h g. ground (arith, taken t, taken u);
        holder_inside = λ t ne h. ground (arith, holder_inside t);
        inside_holder = λ t h. ground (arith, inside_holder t);
      }

  -- A thread that finds no unit waits.
  missing :
      (k' : Kernel) (p : Pc)
      → has_unit (s.pc me) ≡ false
      → has_unit p ≡ false
      → Down waits l s.kernel k'
      → Exclusive l (system k' (update s.pc me p))
  missing k' p free none (value, same) =
      let kept : k'.holder l ≡ s.kernel.holder l = ap (λ f. f l) same in
      record {
        at_most_one = omega (arith, at_most_one);
        taken = λ t h. ground (arith, taken t);
        unique = λ t u h g. ground (arith, unique t u);
        holder_inside = λ t ne h. ground (arith, holder_inside t);
        inside_holder = λ t h. ground (arith, inside_holder t);
      }

  owning :
      me ≢ null
      → s.pc me ≡ passed
      → Exclusive l (system (set_holder l me s.kernel) (update s.pc me inside))
  owning ne at = record {
    at_most_one = at_most_one;
    taken = λ t h. ground (arith, taken t, taken me);
    unique = λ t u h g. ground (arith, unique t u, unique me u, unique t me);
    holder_inside = λ t n h. ground arith;
    inside_holder = λ t h. ground (arith, unique me t);
  }

  disowning :
      me ≢ null
      → s.kernel.holder l ≡ me
      → Exclusive l (system (set_holder l null s.kernel) (update s.pc me leaving))
  disowning ne mine =
      let in_section : s.pc me ≡ inside = holder_inside me ne mine in
      record {
        at_most_one = at_most_one;
        taken = λ t h. ground (arith, taken t, taken me);
        unique = λ t u h g. ground (arith, unique t u, unique me u, unique t me);
        holder_inside = λ t n h. ground arith;
        inside_holder = λ t h. ground (arith, inside_holder t);
      }

  releasing :
      (k' : Kernel)
      → s.pc me ≡ leaving
      → value_of k' l ≡ (value_of s.kernel l + 1) % 2 ^ 32
      → k'.holder ≡ s.kernel.holder
      → Exclusive l (system k' (update s.pc me outside))
  releasing k' at more same =
      let kept : k'.holder l ≡ s.kernel.holder l = ap (λ f. f l) same in
      let empty : value_of s.kernel l ≡ 0 = taken me (rw at) in
      record {
        at_most_one = omega arith;
        taken = λ t h. ground (arith, unique t me);
        unique = λ t u h g. ground (arith, unique t u);
        holder_inside = λ t n h. ground (arith, holder_inside t);
        inside_holder = λ t h. ground (arith, inside_holder t);
      }

  same_pc :
      (k' : Kernel)
      → value_of k' l ≡ value_of s.kernel l
      → k'.holder l ≡ s.kernel.holder l
      → Exclusive l (system k' s.pc)
  same_pc k' value kept = record {
    at_most_one = omega (arith, at_most_one);
    taken = λ t h. value ∙ taken t h;
    unique = unique;
    holder_inside = λ t n h. holder_inside t n (sym kept ∙ h);
    inside_holder = λ t h. kept ∙ inside_holder t h;
  }

-- Every step keeps it.
pub Step-Exclusive : {l : Ptr} {s t : System} → Step l s t → Exclusive l s → Exclusive l t
Step-Exclusive {l} {s} (acquire k' at runs e) x =
    rw e (taking x k' (rw at) (sema_down-Down l through s.kernel k' runs))
Step-Exclusive {l} {s} (sleep k' at runs e) x =
    rw e (missing x k' waiting (rw at) refl (sema_down-Down l waits s.kernel k' runs))
Step-Exclusive {l} {s} (wake level k' at runs e) x =
    rw e (taking x k' (rw at) (sema_down_loop-Down l level through s.kernel k' runs))
Step-Exclusive {l} {s} (sleep_again level k' at runs e) x =
    let (value, same) = sema_down_loop-Down l level waits s.kernel k' runs in
    rw e (same_pc x k' value (ap (λ f. f l) same))
Step-Exclusive (own ne at e) x = rw e (owning x ne at)
Step-Exclusive (disown ne mine e) x = rw e (disowning x ne mine)
Step-Exclusive {l} {s} (release k' at runs e) x =
    let (more, same) = sema_up_lem l s.kernel k' runs in rw e (releasing x k' at more same)
Step-Exclusive (elsewhere k' value kept e) x = rw e (same_pc x k' value kept)

pub Reach-Exclusive : {l : Ptr} {s : System} → Reach l s → Exclusive l s
Reach-Exclusive {s} (start one free out) = record {
  at_most_one = omega arith;
  taken = λ t h. ground (arith, out t);
  unique = λ t u h g. ground (arith, out t);
  holder_inside = λ t n h. absurd (n (sym h ∙ free));
  inside_holder = λ t h. ground (arith, out t);
}
Reach-Exclusive (later r st) = Step-Exclusive st (Reach-Exclusive r)

-- In every state that can be reached, two threads in the critical section are one thread, and the
-- lock's `holder` names it.
pub mutual_exclusion :
    {l : Ptr} {s : System}
    → Reach l s
    → (t u : Ptr) → t ≢ null
    → s.pc t ≡ inside
    → s.pc u ≡ inside
    → (t ≡ u) × (s.kernel.holder l ≡ t)
mutual_exclusion r t u ne h g =
    let x = Reach-Exclusive r in (x.unique t u (rw h) (rw g), x.inside_holder t (rw h))

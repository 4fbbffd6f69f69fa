-- ===== src/Base/Members.antt =====
-- Membership of addresses in lists, by a test that the tactics read.
use Prim.Native.Nat.{ℕ}
use mathlib.Core.Path.{◌≡◌, refl}
use mathlib.Core.Bool.{Bool, false, ◌||◌}
use mathlib.Core.List.{List, [], ◌∷◌, ◌++◌}
use native.Mathlib.Omega.{arith}
use os_pint_os_project.Base.Tests.{◌==◌}

abbrev pub has : ℕ → List ℕ → Bool
has u [] = false
has u (t ∷ ts) = (t == u) || has u ts

abbrev pub Nodup : List ℕ → Type 0
Nodup [] = Unit
Nodup (t ∷ ts) = (has t ts ≡ false) × Nodup ts

pub has-append : (u : ℕ) (xs ys : List ℕ) → has u (xs ++ ys) ≡ (has u xs || has u ys)
has-append u [] ys = refl
has-append u (x ∷ xs) ys = ground (arith, has-append u xs ys)

-- An element that is new to the list can stand anywhere in it.
pub Nodup-insert :
    (xs ys : List ℕ) (e : ℕ) → has e (xs ++ ys) ≡ false → Nodup (xs ++ ys) → Nodup (xs ++ (e ∷ ys))
Nodup-insert [] ys e out n = (out, n)
Nodup-insert (x ∷ xs) ys e out n = (
  ground (arith, has-append x xs ys, has-append x xs (e ∷ ys)),
  Nodup-insert xs ys e (ground arith) n.1,
)

pub Nodup-delete : (xs ys : List ℕ) (e : ℕ) → Nodup (xs ++ (e ∷ ys)) → Nodup (xs ++ ys)
Nodup-delete [] ys e n = n.1
Nodup-delete (x ∷ xs) ys e n =
    (ground (arith, has-append x xs ys, has-append x xs (e ∷ ys)), Nodup-delete xs ys e n.1)

-- The element in the middle of a list without repetition stands nowhere else.
pub Nodup-middle :
    (xs ys : List ℕ) (e : ℕ) → Nodup (xs ++ (e ∷ ys)) → (has e xs ≡ false) × (has e ys ≡ false)
Nodup-middle [] ys e n = (refl, n.0)
Nodup-middle (x ∷ xs) ys e n = ground (arith, has-append x xs (e ∷ ys), Nodup-middle xs ys e n.1)

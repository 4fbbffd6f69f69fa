-- ===== src/Base/Check.antt =====
-- Code whose only failure is a failed ASSERT or an access outside an array: `none`.
use mathlib.Core.Bool.{Bool}
use mathlib.Core.Option.{Option, none, some}
use os_pint_os_project.Base.Tests.{if◌then◌else◌}

module _ {A B : Type 0} where
  infixl 5 ◌>>=◌ ◌>>◌
  abbrev pub ◌>>=◌ : Option A → (A → Option B) → Option B
  some a >>= f = f a
  none >>= f = none

  abbrev pub ◌>>◌ : Option A → Option B → Option B
  m >> n = m >>= λ _. n

abbrev pub assert : Bool → Option (Unit {0})
assert b = if b then some tt else none

-- ===== src/Sequence.antt =====
-- The kernel's lists (lib/kernel/list.h) seen as the sequence of their elements: what each list
-- operation does to that sequence. The threads' queues are kept in this form.
pub mod Remove
use os_pint_os_project.Base.{ℕ, Bool, List, [], ◌∷◌, ◌++◌, ◌==◌, if◌then◌else◌}

module _ {ℓ} {A : Type ℓ} where
  abbrev pub push_back : List A → A → List A
  push_back xs x = xs ++ (x ∷ [])

  -- The loop stops at the first element that the new one is less than.
  unfoldable pub insert_ordered : (A → A → Bool) → A → List A → List A
  insert_ordered less x [] = x ∷ []
  insert_ordered less x (y ∷ ys) = if less x y then x ∷ y ∷ ys else y ∷ insert_ordered less x ys

-- An element is named by its address; it stands in the list at most once.
unfoldable pub remove : ℕ → List ℕ → List ℕ
remove x [] = []
remove x (y ∷ ys) = if y == x then ys else y ∷ remove x ys

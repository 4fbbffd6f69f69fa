-- ===== src/Sequence/Remove.antt =====
-- list_remove of an element that the list has at most once.
use os_pint_os_project.Base.{
  ℕ, true, false, not, ◌&&◌, ◌||◌, List, [], ◌∷◌, ◌==◌, ◌≡◌, inl, inr, arith, refl, Bool-cases,
}
use os_pint_os_project.Base.Members.{has, Nodup}
use os_pint_os_project.Sequence.{remove}

pub has-remove :
    (e x : ℕ) (es : List ℕ) → Nodup es → has x (remove e es) ≡ (has x es && not (e == x))
unfolding remove
has-remove e x [] n = refl
has-remove e x (y ∷ es) n = elim (Bool-cases (y == e)) [
  | inl here ↦ let q : y ≡ e = ground (arith, here) in rw here (only q (has-same e x y es q n.0))
  | inr other ↦ rw other (ground (arith, other, has-remove e x es n.1))
]
  where
    has-same :
        (e x y : ℕ) (es : List ℕ) → y ≡ e → has y es ≡ false → (e == x) ≡ true → has x es ≡ false
    has-same e x y es q out is = let r : y ≡ x = ground (arith, is, q) in rw (← r) out

    only :
        y ≡ e
        → ((e == x) ≡ true → has x es ≡ false)
        → has x es ≡ (((y == x) || has x es) && not (e == x))
    only q out = ground (arith, q, out)

pub Nodup-remove : (e : ℕ) (es : List ℕ) → Nodup es → Nodup (remove e es)
unfolding remove
Nodup-remove e [] n = tt
Nodup-remove e (y ∷ es) n = elim (Bool-cases (y == e)) [
  | inl here ↦ rw here n.1
  | inr other ↦ rw other (ground (arith, n.0, has-remove e y es n.1), Nodup-remove e es n.1)
]

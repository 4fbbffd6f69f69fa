-- ===== src/Links/Represent.antt =====
-- The sequence that a linked list holds, and what the operations on the list do to it.
use os_pint_os_project.Base.{
  ℕ, true, false, some, List, [], ◌∷◌, ◌++◌, append_assoc, ◌≡◌, ◌≢◌, arith, refl, sym, ap, subst,
  ◌∙◌,
}
use os_pint_os_project.Base.Members.{has, Nodup, Nodup-insert, Nodup-middle}
use os_pint_os_project.Links.{
  Links, null, tail_of, inserted, set_next, set_prev, is_interior, is_tail, list_init, list_insert,
}
use os_pint_os_project.Links.Chain.{Linked, Linked-inserted, has-ne, has-middle}

-- The elements of a list at `l` that holds `es`, its head and its tail included.
abbrev pub nodes : ℕ → List ℕ → List ℕ
nodes l es = l ∷ (es ++ (tail_of l ∷ []))

-- The list at `l` holds the sequence `es`.
pub record Holds (h : Links) (l : ℕ) (es : List ℕ) : Type 0 where
  pub linked : Linked h (nodes l es)
  pub once : Nodup (nodes l es)
  pub ne_null : has null (nodes l es) ≡ false
  pub first : h.prev l ≡ null
  pub last : h.next (tail_of l) ≡ null

-- `list_init` makes an empty list.
pub list_init-Holds :
    (l : ℕ) (h : Links) → l ≢ null → (h' : Links) × (list_init l h ≡ some h') × Holds h' l []
unfolding list_init
list_init-Holds l h ne = (
  set_next (tail_of l) null (set_prev (tail_of l) l (set_next l (tail_of l) (set_prev l null h))),
  ground arith,
  record {
    linked = (ground arith, ground arith, tt);
    once = (ground arith, (refl, tt));
    ne_null = ground arith;
    first = ground arith;
    last = ground arith;
  },
)

-- The first element of a sequence, or what stands behind it.
abbrev pub first_of : List ℕ → ℕ → ℕ
first_of [] d = d
first_of (e ∷ es) d = e

-- The last element of a sequence, or what stands before it.
abbrev pub last_of : ℕ → List ℕ → ℕ
last_of d [] = d
last_of d (e ∷ es) = last_of e es

-- All but the last element of `a ∷ xs`.
abbrev pub but_last : ℕ → List ℕ → List ℕ
but_last a [] = []
but_last a (x ∷ xs) = a ∷ but_last x xs

pub but_last_lem : (a : ℕ) (xs ys : List ℕ) → a ∷ (xs ++ ys) ≡ but_last a xs ++ (last_of a xs ∷ ys)
but_last_lem a [] ys = refl
but_last_lem a (x ∷ xs) ys = ap (λ zs. a ∷ zs) (but_last_lem x xs ys)

-- The neighbours in the middle of a chain.
Linked-middle :
    (h : Links) (xs ys : List ℕ) (p b : ℕ)
    → Linked h (xs ++ (p ∷ b ∷ ys))
    → (h.next p ≡ b) × (h.prev b ≡ p)
Linked-middle h [] ys p b (f, g, l) = (f, g)
Linked-middle h (x ∷ []) ys p b (f, g, l) = Linked-middle h [] ys p b l
Linked-middle h (x ∷ y ∷ xs) ys p b (f, g, l) = Linked-middle h (y ∷ xs) ys p b l

-- An element that is not the head has an element before it.
has-null :
    (xs ys : List ℕ) (p b : ℕ) → has null (xs ++ (p ∷ b ∷ ys)) ≡ false → (p ≢ null) × (b ≢ null)
has-null xs ys p b out =
    let (pn, _, out_b) = has-middle null p xs (b ∷ ys) out in
    (pn, (has-middle null b [] ys out_b).0)

-- The nodes around a place of the sequence.
pub nodes-split :
    (l : ℕ) (xs ys : List ℕ)
    → nodes l (xs ++ ys) ≡ but_last l xs ++ (last_of l xs ∷ (ys ++ (tail_of l ∷ [])))
nodes-split l xs ys =
    ap (λ zs. l ∷ zs) (append_assoc xs ys (tail_of l ∷ []))
    ∙ but_last_lem l xs (ys ++ (tail_of l ∷ []))

-- What stands behind a place of the list, the tail included.
abbrev pub behind : ℕ → List ℕ → List ℕ
behind l [] = []
behind l (y ∷ ys) = ys ++ (tail_of l ∷ [])

pub behind_lem :
    (l : ℕ) (ys : List ℕ) → ys ++ (tail_of l ∷ []) ≡ first_of ys (tail_of l) ∷ behind l ys
behind_lem l [] = refl
behind_lem l (y ∷ ys) = refl

nodes-place :
    (l : ℕ) (xs ys : List ℕ)
    → nodes l (xs ++ ys) ≡ but_last l xs ++ (last_of l xs ∷ first_of ys (tail_of l) ∷ behind l ys)
nodes-place l xs ys =
    nodes-split l xs ys ∙ ap (λ zs. but_last l xs ++ (last_of l xs ∷ zs)) (behind_lem l ys)

pub has-place :
    (l : ℕ) (xs ys : List ℕ) → has (first_of ys (tail_of l)) ((xs ++ ys) ++ (tail_of l ∷ [])) ≡ true
has-place l [] [] = ground arith
has-place l [] (y ∷ ys) = ground arith
has-place l (x ∷ xs) ys = ground (arith, has-place l xs ys)

pub has-tail : (l : ℕ) (ys : List ℕ) → has (tail_of l) (ys ++ (tail_of l ∷ [])) ≡ true
has-tail l [] = ground arith
has-tail l (y ∷ ys) = ground (arith, has-tail l ys)

has-insert-null :
    (e : ℕ) (xs ys : List ℕ)
    → e ≢ null
    → has null (xs ++ ys) ≡ false
    → has null (xs ++ (e ∷ ys)) ≡ false
has-insert-null e [] ys ne out = ground arith
has-insert-null e (x ∷ xs) ys ne out = ground (arith, has-insert-null e xs ys ne)

pub has-delete-null :
    (e : ℕ) (xs ys : List ℕ) → has null (xs ++ (e ∷ ys)) ≡ false → has null (xs ++ ys) ≡ false
has-delete-null e [] ys out = ground arith
has-delete-null e (x ∷ xs) ys out = ground (arith, has-delete-null e xs ys)

-- The place between `xs` and `ys` in a list that holds both.
module _ {h : Links} (l : ℕ) (xs ys : List ℕ) (v : Holds h l (xs ++ ys)) where
  pub place-Linked :
      Linked h (but_last l xs ++ (last_of l xs ∷ first_of ys (tail_of l) ∷ behind l ys))
  place-Linked = subst (Linked h) (nodes-place l xs ys) v.linked

  pub place_once : Nodup (but_last l xs ++ (last_of l xs ∷ first_of ys (tail_of l) ∷ behind l ys))
  place_once = subst (Nodup) (nodes-place l xs ys) v.once

  pub place_null :
      has null (but_last l xs ++ (last_of l xs ∷ first_of ys (tail_of l) ∷ behind l ys)) ≡ false
  place_null = subst (λ zs. has null zs ≡ false) (nodes-place l xs ys) v.ne_null

  pub place_links :
      (h.next (last_of l xs) ≡ first_of ys (tail_of l))
      × (h.prev (first_of ys (tail_of l)) ≡ last_of l xs)
  place_links = Linked-middle h (but_last l xs) (behind l ys) _ _ place-Linked

  pub place_ne_null : (last_of l xs ≢ null) × (first_of ys (tail_of l) ≢ null)
  place_ne_null = has-null (but_last l xs) (behind l ys) _ _ place_null

  pub place-head : l ≢ first_of ys (tail_of l)
  place-head e =
      has-ne (first_of ys (tail_of l)) l ((xs ++ ys) ++ (tail_of l ∷ [])) (has-place l xs ys)
        v.once.0 (sym e)

  pub place-tail : tail_of l ≢ last_of l xs
  place-tail =
      has-ne (tail_of l) (last_of l xs) (first_of ys (tail_of l) ∷ behind l ys)
        (subst (λ zs. has (tail_of l) zs ≡ true) (behind_lem l ys) (has-tail l ys))
        (Nodup-middle (but_last l xs) (first_of ys (tail_of l) ∷ behind l ys) (last_of l xs)
          place_once).1

  -- `list_insert` before that place.
  pub list_insert-Holds :
      (e : ℕ)
      → has e (nodes l (xs ++ ys)) ≡ false
      → e ≢ null
      → (list_insert (first_of ys (tail_of l)) e h ≡ some (inserted (first_of ys (tail_of l)) e h))
        × Holds (inserted (first_of ys (tail_of l)) e h) l (xs ++ (e ∷ ys))
  unfolding list_insert is_interior is_tail
  list_insert-Holds e out ne =
      let b = first_of ys (tail_of l) in
      let p = last_of l xs in
      let out' : has e (but_last l xs ++ (p ∷ b ∷ behind l ys)) ≡ false =
        subst (λ zs. has e zs ≡ false) (nodes-place l xs ys) out in
      let back : h.prev b ≡ p = place_links.1 in
      let split : nodes l (xs ++ (e ∷ ys)) ≡ but_last l xs ++ (p ∷ e ∷ b ∷ behind l ys) =
        nodes-split l xs (e ∷ ys) ∙ ap (λ zs. but_last l xs ++ (p ∷ e ∷ zs)) (behind_lem l ys) in
      let regroup = λ (zs : List ℕ). append_assoc (but_last l xs) (p ∷ []) zs in
      let bn = place_ne_null.1 in
      let pn = place_ne_null.0 in
      (
        accepts b p e back bn pn ne,
        record {
          linked = subst (Linked (inserted b e h)) (sym split) (
              Linked-inserted h (but_last l xs) (behind l ys) p b e place-Linked place_once out'
                back);
          once = subst (Nodup) (sym split) (
              subst (Nodup) (regroup (e ∷ b ∷ behind l ys)) (
                Nodup-insert (but_last l xs ++ (p ∷ [])) (b ∷ behind l ys) e
                  (subst (λ zs. has e zs ≡ false) (sym (regroup (b ∷ behind l ys))) out')
                  (subst (Nodup) (sym (regroup (b ∷ behind l ys))) place_once)));
          ne_null =
              subst (λ zs. has null zs ≡ false) (sym split)
                (subst (λ zs. has null zs ≡ false) (regroup (e ∷ b ∷ behind l ys))
                  (has-insert-null e (but_last l xs ++ (p ∷ [])) (b ∷ behind l ys) ne (
                    subst (λ zs. has null zs ≡ false) (sym (regroup (b ∷ behind l ys)))
                      place_null)));
          first =
              keeps_first b p e place-head
                (λ q. (has-middle e l [] ((xs ++ ys) ++ (tail_of l ∷ [])) out).0 q) v.first;
          last =
              keeps_last b p e back place-tail
                (has-ne (tail_of l) e (nodes l (xs ++ ys)) (ground (arith, has-tail l (xs ++ ys)))
                  out)
                v.last;
        },
      )
    where
      accepts :
          (b p e : ℕ)
          → h.prev b ≡ p
          → b ≢ null
          → p ≢ null
          → e ≢ null
          → list_insert b e h ≡ some (inserted b e h)
      accepts b p e back bn pn ne = ground arith

      keeps_first : (b p e : ℕ) → l ≢ b → l ≢ e → h.prev l ≡ null → (inserted b e h).prev l ≡ null
      keeps_first b p e lb le z = ground arith

      keeps_last :
          (b p e : ℕ)
          → h.prev b ≡ p
          → tail_of l ≢ p
          → tail_of l ≢ e
          → h.next (tail_of l) ≡ null
          → (inserted b e h).next (tail_of l) ≡ null
      keeps_last b p e back tp te z = ground arith

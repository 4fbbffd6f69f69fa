-- ===== src/Links/Chain.antt =====
-- Chains of linked elements, and what an insertion and a removal do to one.
use os_pint_os_project.Base.{
  ℕ, true, false, List, [], ◌∷◌, ◌++◌, ◌≡◌, ◌≢◌, arith, refl, sym, ap, ◌∙◌,
}
use os_pint_os_project.Base.Members.{has, Nodup}
use os_pint_os_project.Links.{Links, inserted, removed}

-- Each element of the list links to the next, and back.
abbrev pub Linked : Links → List ℕ → Type 0
Linked h [] = Unit
Linked h (a ∷ []) = Unit
Linked h (a ∷ b ∷ es) = (h.next a ≡ b) × (h.prev b ≡ a) × Linked h (b ∷ es)

-- A chain that has none of the changed links stays linked: the first element may get a new `prev`.
pub Linked-kept :
    (h h' : Links) (a : ℕ) (es : List ℕ)
    → ((q : ℕ) → has q (a ∷ es) ≡ true → h'.next q ≡ h.next q)
    → ((q : ℕ) → has q es ≡ true → h'.prev q ≡ h.prev q)
    → Linked h (a ∷ es)
    → Linked h' (a ∷ es)
Linked-kept h h' a [] n p l = tt
Linked-kept h h' a (b ∷ es) n p (f, g, l) = (
  ground (arith, n a, f),
  ground (arith, p b, g),
  Linked-kept h h' b es (λ q m. n q (ground arith)) (λ q m. p q (ground arith)) l,
)

-- A member is not an element that stands outside.
pub has-ne : (q e : ℕ) (es : List ℕ) → has q es ≡ true → has e es ≡ false → q ≢ e
has-ne q e es m out same = cc (let f : true ≡ false = sym m ∙ ap (λ x. has x es) same ∙ out in f)

-- What stands in no part of a list is not the element between the parts.
pub has-middle :
    (q p : ℕ) (xs ys : List ℕ)
    → has q (xs ++ (p ∷ ys)) ≡ false
    → (p ≢ q) × (has q xs ≡ false) × (has q ys ≡ false)
has-middle q p [] ys out = (ground arith, refl, ground arith)
has-middle q p (x ∷ xs) ys out =
    let (ne, in_xs, in_ys) = has-middle q p xs ys (ground arith) in (ne, ground arith, in_ys)

-- The links after an insertion of `e` before `b`, after `p`.
module _ (h : Links) (p b e : ℕ) (back : h.prev b ≡ p) (ep : e ≢ p) (eb : e ≢ b) where
  inserted-ends :
      ((inserted b e h).next p ≡ e)
      × ((inserted b e h).prev e ≡ p)
      × ((inserted b e h).next e ≡ b)
      × ((inserted b e h).prev b ≡ e)
  inserted-ends = (ground arith, ground arith, ground arith, ground arith)

  inserted-next : (q : ℕ) → q ≢ p → q ≢ e → (inserted b e h).next q ≡ h.next q
  inserted-next q n m = ground arith

  inserted-prev : (q : ℕ) → q ≢ b → q ≢ e → (inserted b e h).prev q ≡ h.prev q
  inserted-prev q n m = ground arith

-- The insertion of `e` between the neighbours `p` and `b`.
pub Linked-inserted :
    (h : Links) (xs ys : List ℕ) (p b e : ℕ)
    → Linked h (xs ++ (p ∷ b ∷ ys))
    → Nodup (xs ++ (p ∷ b ∷ ys))
    → has e (xs ++ (p ∷ b ∷ ys)) ≡ false
    → h.prev b ≡ p
    → Linked (inserted b e h) (xs ++ (p ∷ e ∷ b ∷ ys))
Linked-inserted h [] ys p b e (f, g, l) n out back =
    let (pe, _, out_b) = has-middle e p [] (b ∷ ys) out in
    let (be, _, out_ys) = has-middle e b [] ys out_b in
    let ep : e ≢ p = λ q. pe (sym q) in
    let eb : e ≢ b = λ q. be (sym q) in
    let (a1, a2, a3, a4) = inserted-ends h p b e back ep eb in
    (
      a1,
      a2,
      (
        a3,
        a4,
        Linked-kept h (inserted b e h) b ys
            (λ q m.
              inserted-next h p b e back ep eb q (has-ne q p (b ∷ ys) m n.0)
                (has-ne q e (b ∷ ys) m out_b))
            (λ q m.
              inserted-prev h p b e back ep eb q (has-ne q b ys m n.1.0) (has-ne q e ys m out_ys))
            l,
      ),
    )
Linked-inserted h (x ∷ []) ys p b e (f, g, l) n out back =
    let (xe, _, out') = has-middle e x [] (p ∷ b ∷ ys) out in
    let (pe, _, out_b) = has-middle e p [] (b ∷ ys) out' in
    let (be, _, _) = has-middle e b [] ys out_b in
    let (px, _, _) = has-middle x p [] (b ∷ ys) n.0 in
    let (bp, _, _) = has-middle p b [] ys n.1.0 in
    let ep : e ≢ p = λ q. pe (sym q) in
    let eb : e ≢ b = λ q. be (sym q) in
    (
      inserted-next h p b e back ep eb x (λ q. px (sym q)) xe ∙ f,
      inserted-prev h p b e back ep eb p (λ q. bp (sym q)) pe ∙ g,
      Linked-inserted h [] ys p b e l n.1 out' back,
    )
Linked-inserted h (x ∷ y ∷ xs) ys p b e (f, g, l) n out back =
    let (pe, _, out_b) = has-middle e p (x ∷ y ∷ xs) (b ∷ ys) out in
    let (be, _, _) = has-middle e b [] ys out_b in
    let (xe, _, out') = has-middle e x [] (y ∷ (xs ++ (p ∷ b ∷ ys))) out in
    let (ye, _, _) = has-middle e y [] (xs ++ (p ∷ b ∷ ys)) out' in
    let (px, _, _) = has-middle x p (y ∷ xs) (b ∷ ys) n.0 in
    let (_, _, by) = has-middle y p xs (b ∷ ys) n.1.0 in
    let (yb, _, _) = has-middle y b [] ys by in
    let ep : e ≢ p = λ q. pe (sym q) in
    let eb : e ≢ b = λ q. be (sym q) in
    (
      inserted-next h p b e back ep eb x (λ q. px (sym q)) xe ∙ f,
      inserted-prev h p b e back ep eb y (λ q. yb (sym q)) ye ∙ g,
      Linked-inserted h (y ∷ xs) ys p b e l n.1 out' back,
    )

-- Two neighbours in a list without repetition differ.
pub Nodup-apart : (p e : ℕ) (xs ys : List ℕ) → Nodup (xs ++ (p ∷ e ∷ ys)) → p ≢ e
Nodup-apart p e [] ys n = λ q. (has-middle p e [] ys n.0).0 (sym q)
Nodup-apart p e (x ∷ xs) ys n = Nodup-apart p e xs ys n.1

-- The links after a removal of `e` from between `p` and `b`.
module _ (h : Links) (p b e : ℕ) (back : h.prev e ≡ p) (forth : h.next e ≡ b) (pe : p ≢ e) where
  removed-ends : ((removed e h).next p ≡ b) × ((removed e h).prev b ≡ p)
  removed-ends = (ground arith, ground arith)

  removed-next : (q : ℕ) → q ≢ p → (removed e h).next q ≡ h.next q
  removed-next q n = ground arith

  removed-prev : (q : ℕ) → q ≢ b → (removed e h).prev q ≡ h.prev q
  removed-prev q n = ground arith

-- The removal of `e` between the neighbours `p` and `b`.
pub Linked-removed :
    (h : Links) (xs ys : List ℕ) (p b e : ℕ)
    → Linked h (xs ++ (p ∷ e ∷ b ∷ ys))
    → Nodup (xs ++ (p ∷ e ∷ b ∷ ys))
    → h.prev e ≡ p
    → h.next e ≡ b
    → Linked (removed e h) (xs ++ (p ∷ b ∷ ys))
Linked-removed h [] ys p b e (f, g, (f', g', l)) n back forth =
    let (ep, _, out_b) = has-middle p e [] (b ∷ ys) n.0 in
    let pe : p ≢ e = λ q. ep (sym q) in
    let (a1, a2) = removed-ends h p b e back forth pe in
    (
      a1,
      a2,
      Linked-kept h (removed e h) b ys
          (λ q m. removed-next h p b e back forth pe q (has-ne q p (b ∷ ys) m out_b))
          (λ q m. removed-prev h p b e back forth pe q (has-ne q b ys m n.1.1.0)) l,
    )
Linked-removed h (x ∷ []) ys p b e (f, g, l) n back forth =
    let (px, _, _) = has-middle x p [] (e ∷ b ∷ ys) n.0 in
    let (ep, _, out_b) = has-middle p e [] (b ∷ ys) n.1.0 in
    let (bp, _, _) = has-middle p b [] ys out_b in
    let pe : p ≢ e = λ q. ep (sym q) in
    (
      removed-next h p b e back forth pe x (λ q. px (sym q)) ∙ f,
      removed-prev h p b e back forth pe p (λ q. bp (sym q)) ∙ g,
      Linked-removed h [] ys p b e l n.1 back forth,
    )
Linked-removed h (x ∷ y ∷ xs) ys p b e (f, g, l) n back forth =
    let (px, _, _) = has-middle x p (y ∷ xs) (e ∷ b ∷ ys) n.0 in
    let (_, _, out_e) = has-middle y p xs (e ∷ b ∷ ys) n.1.0 in
    let (_, _, out_b) = has-middle y e [] (b ∷ ys) out_e in
    let (by, _, _) = has-middle y b [] ys out_b in
    let pe = Nodup-apart p e (y ∷ xs) (b ∷ ys) n.1 in
    (
      removed-next h p b e back forth pe x (λ q. px (sym q)) ∙ f,
      removed-prev h p b e back forth pe y (λ q. by (sym q)) ∙ g,
      Linked-removed h (y ∷ xs) ys p b e l n.1 back forth,
    )

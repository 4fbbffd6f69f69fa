-- ===== src/Links/Traverse.antt =====
-- The loops over a list that holds a sequence, against the functions on the sequence.
use os_pint_os_project.Base.{
  ℕ, zero, suc, ◌+◌, ◌<◌, ◌^◌, false, some, List, [], ◌∷◌, ◌++◌, length, ◌==◌, append_assoc, inl,
  inr, Bool-cases, ==_refl, ne→==, ◌≡◌, ◌≢◌, arith, refl, sym, ap, subst, ◌∙◌,
}
use os_pint_os_project.Base.Members.{has}
use os_pint_os_project.Sequence.{insert_ordered}
use os_pint_os_project.Links.{
  Links, null, tail_of, inserted, is_interior, is_head, list_next, list_begin,
}
use os_pint_os_project.Links.Represent.{
  Holds, nodes, first_of, last_of, place_links, place_ne_null, place-tail, list_insert-Holds,
}
use os_pint_os_project.Links.Loops.{Less, size_loop, list_size, place_loop, list_insert_ordered}

-- A step through a list, from an element that is not the tail.
module _ {h : Links} (l : ℕ) (xs : List ℕ) (e : ℕ) (ys : List ℕ)
    (v : Holds h l (xs ++ (e ∷ ys))) where
  after : Holds h l ((xs ++ (e ∷ [])) ++ ys)
  after = subst (Holds h l) (sym (append_assoc xs (e ∷ []) ys)) v

  last_of-snoc : (d : ℕ) (zs : List ℕ) → last_of d (zs ++ (e ∷ [])) ≡ e
  last_of-snoc d [] = refl
  last_of-snoc d (w ∷ zs) = last_of-snoc w zs

  forth : h.next e ≡ first_of ys (tail_of l)
  forth = ap h.next (sym (last_of-snoc l xs)) ∙ (place_links l (xs ++ (e ∷ [])) ys after).0

  pub list_next_lem : list_next e h ≡ some (first_of ys (tail_of l))
  unfolding list_next is_head is_interior
  list_next_lem =
      let back = (place_links l xs (e ∷ ys) v).1 in
      let ne = place_ne_null l xs (e ∷ ys) v in
      let bn = (place_ne_null l (xs ++ (e ∷ [])) ys after).1 in
      allowed (first_of ys (tail_of l)) (last_of l xs) forth back ne.1 ne.0 bn
    where
      allowed :
          (b p : ℕ)
          → h.next e ≡ b
          → h.prev e ≡ p
          → e ≢ null
          → p ≢ null
          → b ≢ null
          → list_next e h ≡ some b
      allowed b p f g en pn bn = ground arith

  pub not_tail : (e == tail_of l) ≡ false
  not_tail =
      ne→== e (tail_of l)
        (λ q. place-tail l (xs ++ (e ∷ [])) ys after (sym q ∙ sym (last_of-snoc l xs)))

list_begin_lem :
    {h : Links} (l : ℕ) (es : List ℕ)
    → Holds h l es
    → list_begin l h ≡ some (first_of es (tail_of l))
unfolding list_begin
list_begin_lem {h} l es v =
    let ne = (place_ne_null l [] es v).0 in
    let f = (place_links l [] es v).0 in starts (first_of es (tail_of l)) ne f
  where
    starts : (b : ℕ) → l ≢ null → h.next l ≡ b → list_begin l h ≡ some b
    starts b ne f = ground arith

module _ {h : Links} (l : ℕ) where
  size_loop-length :
      (n cnt : ℕ) (xs es : List ℕ)
      → Holds h l (xs ++ es)
      → length es < n
      → size_loop n l (first_of es (tail_of l)) cnt h ≡ some (cnt + length es)
  unfolding size_loop
  size_loop-length zero cnt xs es v f = absurd (omega arith)
  size_loop-length (suc n) cnt xs [] v f = rw (==_refl (tail_of l)) (ap some (omega arith))
  size_loop-length (suc n) cnt xs (e ∷ es) v f =
      rw (not_tail l xs e es v, list_next_lem l xs e es v)
        (size_loop-length n (cnt + 1) (xs ++ (e ∷ [])) es (after l xs e es v) (omega arith)
          ∙ ap some (omega arith))

  -- `list_size` ends and counts the elements.
  pub list_size-length :
      (es : List ℕ) → Holds h l es → length es < 2 ^ 32 → list_size l h ≡ some (length es)
  unfolding list_size
  list_size-length es v f =
      rw (list_begin_lem l es v) (size_loop-length (2 ^ 32) 0 [] es v f ∙ ap some (omega arith))

module _ {h : Links} (l elem : ℕ) (less : Less) where
  -- The loop ends before the first element that the new one is less than.
  place_loop-split :
      (n : ℕ) (xs es : List ℕ)
      → Holds h l (xs ++ es)
      → length es < n
      → (fs : List ℕ) × (bs : List ℕ) × (es ≡ fs ++ bs)
        × (place_loop n l elem (first_of es (tail_of l)) less h ≡ some (first_of bs (tail_of l)))
        × (insert_ordered less elem es ≡ fs ++ (elem ∷ bs))
  unfolding place_loop insert_ordered
  place_loop-split zero xs es v f = absurd (omega arith)
  place_loop-split (suc n) xs [] v f = ([], [], refl, rw (==_refl (tail_of l)) refl, refl)
  place_loop-split (suc n) xs (e ∷ es) v f = elim (Bool-cases (less elem e)) [
    | inl stop ↦ ([], e ∷ es, refl, rw (not_tail l xs e es v, stop) refl, rw stop refl)
    | inr goes_on ↦
        let (fs, bs, parts, runs, same) =
          place_loop-split n (xs ++ (e ∷ [])) es (after l xs e es v) (omega arith) in
        (
          e ∷ fs,
          bs,
          ap (λ zs. e ∷ zs) parts,
          rw (not_tail l xs e es v, goes_on, list_next_lem l xs e es v) runs,
          rw (goes_on, same) refl,
        )
  ]

  -- A list that holds a sequence of fewer than 2 ^ 32 elements, none of them the new one, passes the
  -- assertions of `list_insert_ordered`, whose loop ends, and holds afterwards what `insert_ordered`
  -- makes of the sequence.
  pub list_insert_ordered-Holds :
      (es : List ℕ)
      → Holds h l es
      → length es < 2 ^ 32
      → has elem (nodes l es) ≡ false
      → elem ≢ null
      → (h' : Links) × (list_insert_ordered l elem less h ≡ some h')
        × Holds h' l (insert_ordered less elem es)
  unfolding list_insert_ordered
  list_insert_ordered-Holds es v f out ne =
      let (fs, bs, parts, runs, same) = place_loop-split (2 ^ 32) [] es v f in
      let v' : Holds h l (fs ++ bs) = subst (Holds h l) parts v in
      let (inserts, w) =
        list_insert-Holds l fs bs v' elem (subst (λ zs. has elem (nodes l zs) ≡ false) parts out)
          ne in
      (
        inserted (first_of bs (tail_of l)) elem h,
        rw
            (
              ne→== l null (place_ne_null l [] es v).0,
              ne→== elem null ne,
              list_begin_lem l es v,
              runs,
            )
            inserts,
        subst (Holds _ l) (sym same) w,
      )

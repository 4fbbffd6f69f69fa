-- ===== src/Links/Operations.antt =====
-- Removal, and the operations on the ends of a list, on the sequence that the list holds.
use os_pint_os_project.Base.{
  ℕ, false, some, List, [], ◌∷◌, ◌++◌, append-nil, append_assoc, ne→==, ◌≡◌, ◌≢◌, arith, refl, sym,
  ap, subst, ◌∙◌,
}
use os_pint_os_project.Base.Members.{has, Nodup, Nodup-delete}
use os_pint_os_project.Links.{
  Links, null, tail_of, inserted, removed, is_interior, list_begin, list_end, list_remove,
  list_push_back, list_push_front, list_empty, list_front, list_pop_front,
}
use os_pint_os_project.Links.Chain.{Linked, Linked-removed, Nodup-apart}
use os_pint_os_project.Links.Represent.{
  Holds, nodes, first_of, last_of, but_last, behind, behind_lem, nodes-split, has-delete-null,
  place_links, place_ne_null, place-head, place-tail, list_insert-Holds,
}

-- The place of `e` in a list that holds `xs`, `e` and `ys` in this order.
module _ {h : Links} (l : ℕ) (xs ys : List ℕ) (e : ℕ) (v : Holds h l (xs ++ (e ∷ ys))) where
  split : behind l (e ∷ ys) ≡ first_of ys (tail_of l) ∷ behind l ys
  split = behind_lem l ys

  around :
      nodes l (xs ++ (e ∷ ys))
      ≡ but_last l xs ++ (last_of l xs ∷ e ∷ first_of ys (tail_of l) ∷ behind l ys)
  around = nodes-split l xs (e ∷ ys) ∙ ap (λ zs. but_last l xs ++ (last_of l xs ∷ e ∷ zs)) split

  without :
      nodes l (xs ++ ys) ≡ but_last l xs ++ (last_of l xs ∷ first_of ys (tail_of l) ∷ behind l ys)
  without = nodes-split l xs ys ∙ ap (λ zs. but_last l xs ++ (last_of l xs ∷ zs)) split

  -- When a list holds `xs`, `e` and `ys` in this order, `list_remove e` passes its assertion and gives
  -- the element behind `e`, the tail if `ys` is empty. The list then holds `xs` and `ys`.
  pub list_remove-Holds :
      (list_remove e h ≡ some (first_of ys (tail_of l), removed e h))
      × Holds (removed e h) l (xs ++ ys)
  unfolding list_remove is_interior
  list_remove-Holds =
      let p = last_of l xs in
      let b = first_of ys (tail_of l) in
      let links : Linked h (but_last l xs ++ (p ∷ e ∷ b ∷ behind l ys)) =
        subst (Linked h) around v.linked in
      let once : Nodup (but_last l xs ++ (p ∷ e ∷ b ∷ behind l ys)) = subst (Nodup) around v.once in
      let regroup = λ (zs : List ℕ). append_assoc (but_last l xs) (p ∷ []) zs in
      let back : h.prev e ≡ p = (place_links l xs (e ∷ ys) v).1 in
      let same : (xs ++ (e ∷ [])) ++ ys ≡ xs ++ (e ∷ ys) = append_assoc xs (e ∷ []) ys in
      let v' : Holds h l ((xs ++ (e ∷ [])) ++ ys) = subst (Holds h l) (sym same) v in
      let last_e : last_of l (xs ++ (e ∷ [])) ≡ e = last_of-snoc l xs e in
      let forth : h.next e ≡ b =
        ap h.next (sym last_e) ∙ (place_links l (xs ++ (e ∷ [])) ys v').0 in
      let pe : p ≢ e = Nodup-apart p e (but_last l xs) (b ∷ behind l ys) once in
      (
        accepts b p back forth pe (place_ne_null l xs (e ∷ ys) v).1
            (place_ne_null l xs (e ∷ ys) v).0 (place_ne_null l (xs ++ (e ∷ [])) ys v').1,
        record {
          linked =
              subst (Linked (removed e h)) (sym without)
                (Linked-removed h (but_last l xs) (behind l ys) p b e links once back forth);
          once = subst (Nodup) (sym without) (
              subst (Nodup) (regroup (b ∷ behind l ys)) (
                Nodup-delete (but_last l xs ++ (p ∷ [])) (b ∷ behind l ys) e
                  (subst (Nodup) (sym (regroup (e ∷ b ∷ behind l ys))) once)));
          ne_null =
              subst (λ zs. has null zs ≡ false) (sym without)
                (subst (λ zs. has null zs ≡ false) (regroup (b ∷ behind l ys))
                  (has-delete-null e (but_last l xs ++ (p ∷ [])) (b ∷ behind l ys) (
                    subst (λ zs. has null zs ≡ false) (sym (regroup (e ∷ b ∷ behind l ys)))
                      (subst (λ zs. has null zs ≡ false) around v.ne_null))));
          first = keeps_first b p back forth pe (place-head l (xs ++ (e ∷ [])) ys v') v.first;
          last = keeps_last b p back forth pe (place-tail l xs (e ∷ ys) v) v.last;
        },
      )
    where
      last_of-snoc : (d : ℕ) (zs : List ℕ) (z : ℕ) → last_of d (zs ++ (z ∷ [])) ≡ z
      last_of-snoc d [] z = refl
      last_of-snoc d (w ∷ zs) z = last_of-snoc w zs z

      accepts :
          (b p : ℕ)
          → h.prev e ≡ p
          → h.next e ≡ b
          → p ≢ e
          → e ≢ null
          → p ≢ null
          → b ≢ null
          → list_remove e h ≡ some (b, removed e h)
      accepts b p back forth pe en pn bn = ground arith

      keeps_first :
          (b p : ℕ)
          → h.prev e ≡ p
          → h.next e ≡ b
          → p ≢ e
          → l ≢ b
          → h.prev l ≡ null
          → (removed e h).prev l ≡ null
      keeps_first b p back forth pe lb z = ground arith

      keeps_last :
          (b p : ℕ)
          → h.prev e ≡ p
          → h.next e ≡ b
          → p ≢ e
          → tail_of l ≢ p
          → h.next (tail_of l) ≡ null
          → (removed e h).next (tail_of l) ≡ null
      keeps_last b p back forth pe tp z = ground arith

-- The operations on the ends of a list.
module _ {h : Links} (l : ℕ) where
  pub list_push_back-Holds :
      (es : List ℕ) (e : ℕ)
      → Holds h l es
      → has e (nodes l es) ≡ false
      → e ≢ null
      → (h' : Links) × (list_push_back l e h ≡ some h') × Holds h' l (es ++ (e ∷ []))
  unfolding list_push_back list_end
  list_push_back-Holds es e v out ne =
      let whole : es ++ [] ≡ es = append-nil es in
      let (runs, w) =
        list_insert-Holds l es [] (subst (Holds h l) (sym whole) v) e
          (subst (λ zs. has e (nodes l zs) ≡ false) (sym whole) out) ne in
      (inserted (tail_of l) e h, rw (ne→== l null (place_ne_null l [] es v).0) runs, w)

  pub list_push_front-Holds :
      (es : List ℕ) (e : ℕ)
      → Holds h l es
      → has e (nodes l es) ≡ false
      → e ≢ null
      → (h' : Links) × (list_push_front l e h ≡ some h') × Holds h' l (e ∷ es)
  unfolding list_push_front list_begin
  list_push_front-Holds es e v out ne =
      let (runs, w) = list_insert-Holds l [] es v e out ne in
      (
        inserted (first_of es (tail_of l)) e h,
        rw (ne→== l null (place_ne_null l [] es v).0, (place_links l [] es v).0) runs,
        w,
      )

  -- Taking the first element of a list that has one.
  pub list_pop_front-Holds :
      (e : ℕ) (es : List ℕ)
      → Holds h l (e ∷ es)
      → (h' : Links) × (list_pop_front l h ≡ some (e, h')) × Holds h' l es
  unfolding list_pop_front list_front list_empty list_begin list_end
  list_pop_front-Holds e es v =
      let (runs, w) = list_remove-Holds l [] es e v in
      let tail_ne = place-tail l (e ∷ []) es v in
      (
        removed e h,
        rw
            (
              ne→== l null (place_ne_null l [] (e ∷ es) v).0,
              (place_links l [] (e ∷ es) v).0,
              ne→== e (tail_of l) (λ q. tail_ne (sym q)),
              runs,
            )
            refl,
        w,
      )

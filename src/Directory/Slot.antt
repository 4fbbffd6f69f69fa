-- ===== src/Directory/Slot.antt =====
-- The slot for a new entry, and the entry that dir_add writes there.
use os_pint_os_project.Base.{
  ℕ, zero, suc, ◌+◌, ◌-◌, ◌*◌, ◌/◌, ◌%◌, ◌<◌, ◌≤◌, true, false, not, ◌&&◌, none, some, List, [],
  ◌∷◌, length, take, ltb, leb, ◌==◌, if◌then◌else◌, update, ◌≡◌, ◌≢◌, ◌⊎◌, inl, inr, arith, refl,
  sym, ap, ◌∙◌, Bool-cases, leb→le, subst,
}
use os_pint_os_project.Strings.{Memory}
use os_pint_os_project.Strings.View.{StringAt}
use os_pint_os_project.Strings.Bounded.{StringAt-agree, strlcpy-take}
use os_pint_os_project.Inode.{Inode, Block, Bytes}
use os_pint_os_project.Inode.Read.{Fits, byte_at}
use os_pint_os_project.Inode.Write.{in_range, Written}
use os_pint_os_project.OpenInodes.{byte_of}
use os_pint_os_project.Directory.Entries.{free_loop, fill_entry}
use os_pint_os_project.Directory.Lookup.{read_entry-Read, Named}
use os_pint_os_project.Directory.Search.{Left, Left-Read, Left-stop}

-- A slot of the directory that is free, or the end of the slots.
pub record FreeSlot (i : Inode) (d : Block) (ofs p : ℕ) : Type 0 where
  pub index : ℕ
  pub place : p ≡ ofs + 20 * index
  pub within : p ≤ i.len
  pub free : p + 20 ≤ i.len → byte_at i d (p + 19) ≡ 0
  pub taken : (j : ℕ) → j < index → byte_at i d (ofs + 20 * j + 19) ≢ 0

FreeSlot-next :
    (i : Inode) (d d1 : Block) (ofs p : ℕ)
    → byte_at i d (ofs + 19) ≢ 0
    → d1.contents ≡ d.contents
    → FreeSlot i d1 (ofs + 20) p
    → FreeSlot i d ofs p
FreeSlot-next i d d1 ofs p used same s = record {
  index = s.index + 1;
  place = omega (arith, s.place);
  within = s.within;
  free = λ w. sym (at (p + 19)) ∙ s.free w;
  taken = earlier;
}
  where
    at : (q : ℕ) → byte_at i d1 q ≡ byte_at i d q
    at q = ap (λ c. c (i.start + q / 512) (q % 512)) same

    earlier : (j : ℕ) → j < s.index + 1 → byte_at i d (ofs + 20 * j + 19) ≢ 0
    earlier zero l z = used (ap (byte_at i d) (omega arith) ∙ z)
    earlier (suc j) l z =
        s.taken j (omega arith) (at (ofs + 20 + 20 * j + 19) ∙ ap (byte_at i d) (omega arith) ∙ z)

pub FreeSlot-same :
    (i : Inode) (d d1 : Block) (ofs p : ℕ)
    → d1.contents ≡ d.contents
    → FreeSlot i d1 ofs p
    → FreeSlot i d ofs p
FreeSlot-same i d d1 ofs p same s = record {
  index = s.index;
  place = s.place;
  within = s.within;
  free = λ w. sym (at (p + 19)) ∙ s.free w;
  taken = λ j l z. s.taken j l (at (ofs + 20 * j + 19) ∙ z);
}
  where
    at : (q : ℕ) → byte_at i d1 q ≡ byte_at i d q
    at q = ap (λ c. c (i.start + q / 512) (q % 512)) same

pub free_loop-FreeSlot :
    (n : ℕ) (i : Inode) (e ofs : ℕ) (m : Memory) (d : Block)
    → Fits i d
    → ofs ≤ i.len
    → i.len < ofs + 20 * n
    → (p : ℕ) × (m' : Memory) × (d' : Block) × (free_loop n true i e ofs m d ≡ some (p, m', d'))
      × FreeSlot i d ofs p
      × Left i e m d none m' d'
unfolding free_loop
free_loop-FreeSlot zero i e ofs m d f starts enough = absurd (omega arith)
free_loop-FreeSlot (suc k) i e ofs m d f starts enough =
    let (m1, d1, reads, a) = read_entry-Read i e ofs m d f in
    elim (Bool-cases (leb (ofs + 20) i.len && not (byte_at i d (ofs + 19) == 0))) [
      | inl used ↦
          let whole : leb (ofs + 20) i.len ≡ true = ground (arith, used) in
          let w = leb→le (ofs + 20) i.len whole in
          let flag : (m1 (e + 19) == 0) ≡ false = ground (arith, used, a.inside w 19) in
          let (p, m', d', runs, s, left) =
            free_loop-FreeSlot k i e (ofs + 20) m1 d1 (rw a.same_size f) w (omega arith) in
          (
            p,
            m',
            d',
            ground (arith, reads, whole, flag, runs),
            FreeSlot-next i d d1 ofs p (ground (arith, used)) a.unchanged s,
            Left-Read i e ofs m m1 m' d d1 d' none a left,
          )
      | inr stops ↦
          let test : (leb (ofs + 20) i.len && not (m1 (e + 19) == 0)) ≡ false =
            elim (Bool-cases (leb (ofs + 20) i.len)) [
              | inl whole ↦
                  ground (arith, stops, whole, a.inside (leb→le (ofs + 20) i.len whole) 19)
              | inr ends ↦ ground (arith, ends)
            ] in
          (
            ofs,
            m1,
            d1,
            ground (arith, reads, test),
            record {
              index = 0;
              place = omega arith;
              within = starts;
              free = λ w. ground (arith, stops);
              taken = λ j l. absurd (omega arith);
            },
            Left-stop i e ofs m m1 d d1 none a (λ p q. cc),
          )
    ]

-- The entry at `e` that dir_add has filled in.
pub record Filled (e inode_sector : ℕ) (s : List ℕ) (m m' : Memory) : Type 0 where
  pub sector : (j : ℕ) → j < 4 → m' (e + j) ≡ byte_of inode_sector j
  pub name : StringAt m' (e + 4) s
  pub in_use : m' (e + 19) ≡ 1
  pub outside : (a : ℕ) → (a < e) ⊎ (e + 20 ≤ a) → m' a ≡ m a

take-all : (n : ℕ) (s : List ℕ) → length s ≤ n → take n s ≡ s
take-all zero [] h = refl
take-all zero (c ∷ s) h = absurd (omega arith)
take-all (suc n) [] h = refl
take-all (suc n) (c ∷ s) h = ap (λ r. c ∷ r) (take-all n s (omega arith))

pub fill_entry-Filled :
    (name e inode_sector : ℕ) (m : Memory) (s : List ℕ)
    → Named name e m s
    → (m' : Memory) × (fill_entry name e inode_sector m ≡ some m') × Filled e inode_sector s m m'
unfolding fill_entry
fill_entry-Filled name e inode_sector m s n =
    let m1 = update m (e + 19) 1 in
    let still : StringAt m1 name s =
      StringAt-agree m m1 s name name (λ k l. ground (arith, n.apart)) n.string in
    let (m2, runs, at, within) =
      strlcpy-take (e + 4) name 15 m1 s (omega arith) n.ne_null still n.ends (omega arith)
        (elim n.apart [ inl before ↦ inr (omega arith) | inr after ↦ inl (omega arith) ]) in
    let m3 = λ (a : ℕ). if leb e a && ltb a (e + 4) then byte_of inode_sector (a - e) else m2 a in
    (
      m3,
      rw runs refl,
      record {
        sector = λ j l.
            let head : (leb e (e + j) && ltb (e + j) (e + 4)) ≡ true = ground arith in
            rw head (ap (byte_of inode_sector) (omega arith));
        name =
            StringAt-agree m2 m3 s (e + 4) (e + 4) (λ k l. ground arith)
              (subst (StringAt m2 (e + 4)) (take-all 14 s n.short) at);
        in_use = ground (arith, within (e + 19) (inr (omega arith)));
        outside = λ a h. elim h [
          | inl before ↦ ground (arith, within a (inl (omega arith)))
          | inr after ↦ ground (arith, within a (inr (omega arith)))
        ];
      },
    )

-- The bytes of a file after a write.
pub byte_at-Written :
    (i : Inode) (offset n : ℕ) (buffer : Bytes) (d d' : Block)
    → Written i offset 0 n buffer d d'
    → (q : ℕ)
    → byte_at i d' q
      ≡ (if leb offset q && ltb q (offset + n) then buffer (q - offset) else byte_at i d q)
byte_at-Written i offset n buffer d d' w q =
    let here : (i.start + q / 512) * 512 + q % 512 ≡ i.start * 512 + q = omega arith in
    let test : in_range i offset n (i.start + q / 512) (q % 512)
        ≡ (leb offset q && ltb q (offset + n)) =
      ground (arith, here) in
    w.bytes (i.start + q / 512) (q % 512) (omega arith)
    ∙ rw test (
        ap (λ k. if leb offset q && ltb q (offset + n) then buffer k else byte_at i d q)
          (omega (arith, here)))

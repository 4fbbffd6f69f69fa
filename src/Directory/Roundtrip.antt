-- ===== src/Directory/Roundtrip.antt =====
-- Looking up a name that was added.
use os_pint_os_project.Base.{
  ℕ, ◌+◌, ◌*◌, ◌^◌, ◌<◌, ◌≤◌, Bool, true, false, Option, none, some, List, [], length, ◌==◌, ◌≡◌,
  ◌≢◌, ◌⊎◌, inl, inr, arith, sym, ap, subst, ◌∙◌, Bool-cases,
}
use os_pint_os_project.Strings.{Memory}
use os_pint_os_project.Inode.{Inode, Block, Bytes}
use os_pint_os_project.Inode.Read.{Fits, byte_at}
use os_pint_os_project.OpenInodes.{byte_of, word_at}
use os_pint_os_project.Directory.Entries.{bytes_at, dir_add, lookup}
use os_pint_os_project.Directory.Lookup.{has_entry, named, named-agree, Named}
use os_pint_os_project.Directory.Search.{Looked, found, missing, lookup-Looked}
use os_pint_os_project.Directory.Slot.{FreeSlot}
use os_pint_os_project.Directory.Add.{Added, added, dir_add-Added}

module _ (i : Inode) (d d' : Block) (s : List ℕ) (p : ℕ) (short : length s ≤ 14)
    (slot : FreeSlot i d 0 p)
    (same : (q : ℕ) → (q < p) ⊎ (p + 20 ≤ q) → byte_at i d' q ≡ byte_at i d q) where
  -- An entry in another slot is as it was.
  other_entry : (k : ℕ) → 20 * k ≢ p → has_entry i d' s (20 * k) ≡ has_entry i d s (20 * k)
  other_entry k ne =
      let bytes : (q : ℕ) → 20 * k ≤ q → q < 20 * k + 20 → byte_at i d' q ≡ byte_at i d q =
        λ q a b. same q (omega (arith, slot.place, ne)) in
      let names : named (byte_at i d') (20 * k + 4) s ≡ named (byte_at i d) (20 * k + 4) s =
        named-agree (byte_at i d) (byte_at i d') s (20 * k + 4) (20 * k + 4)
          (λ j l. bytes (20 * k + 4 + j) (omega arith) (omega arith)) in
      ground (arith, names, bytes (20 * k + 19))

  -- What is found after the slot was filled.
  found_slot :
      (r : Option ℕ)
      → Looked i d s 0 none
      → p + 20 ≤ i.len
      → has_entry i d' s p ≡ true
      → Looked i d' s 0 r
      → r ≡ some p
  found_slot _ (missing none_before) fits is (missing all) =
      let not_it : has_entry i d' s p ≡ false =
        ap (has_entry i d' s) (omega (arith, slot.place))
        ∙ all slot.index (omega (arith, slot.place)) in
      cc (let f : true ≡ false = sym is ∙ not_it in f)
  found_slot _ (missing none_before) fits is (found k q e w has before) =
      elim (Bool-cases (q == p)) [
        | inl same_slot ↦ ap some (ground (arith, same_slot))
        | inr other ↦
            let ne : 20 * k ≢ p = ground (arith, other, e) in
            let was : has_entry i d' s q ≡ false =
              ap (has_entry i d' s) (omega arith)
              ∙ other_entry k ne
              ∙ ap (has_entry i d s) (omega arith)
              ∙ none_before k (omega arith) in
            cc (let f : true ≡ false = sym has ∙ was in f)
      ]

word_at-byte_of :
    (x : ℕ) (b : Bytes) → x < 2 ^ 32 → ((j : ℕ) → j < 4 → b j ≡ byte_of x j) → word_at b 0 ≡ x
word_at-byte_of x b h e =
    omega (arith, e 0 (omega arith), e 1 (omega arith), e 2 (omega arith), e 3 (omega arith))

-- The result that says that an entry was added.
Success :
    (i : Inode) (inode_sector : ℕ) (s : List ℕ) (d : Block)
    → Option (Bool × Memory × Block)
    → Type 0
Success i inode_sector s d none = ⊥
Success i inode_sector s d (some (b, m', d')) = Added i inode_sector s d d' b × (d'.size ≡ d.size)

-- After `dir_add` has added a name, on a directory and with a name as it wants them, looking the name
-- up gives the entry of which the sector is the one that was added.
pub lookup-dir_add :
    (i : Inode) (name e inode_sector : ℕ) (s : List ℕ) (m m' : Memory) (d d' : Block)
    → i.deny_write_cnt ≡ 0
    → Fits i d
    → d.foreign ≡ false
    → Named name e m s
    → s ≢ []
    → inode_sector < 2 ^ 32
    → dir_add true i name e inode_sector m d ≡ some (true, m', d')
    → (name2 e2 : ℕ) (m2 : Memory) → Named name2 e2 m2 s
    → (p : ℕ) × (m3 : Memory) × (d3 : Block) × (lookup true i name2 e2 m2 d'
        ≡ some (some p, m3, d3))
      × (word_at (bytes_at e2 m3) 0 ≡ inode_sector)
unfolding Success
lookup-dir_add i name e inode_sector s m m' d d' allowed f native n some_name small runs name2 e2 m2
      n2 =
    let (b, m1, d1, adds, a, size) =
      dir_add-Added i name e inode_sector s allowed m d f native n some_name in
    let (a', size') = subst (Success i inode_sector s d) (sym adds ∙ runs) (a, size) in
    finish a' size'
  where
    finish :
        Added i inode_sector s d d' true
        → d'.size ≡ d.size
        → (p : ℕ) × (m3 : Memory) × (d3 : Block) × (lookup true i name2 e2 m2 d'
            ≡ some (some p, m3, d3))
          × (word_at (bytes_at e2 m3) 0 ≡ inode_sector)
    finish (added p looked slot fits is sector same) size' =
        let (r, m3, d3, finds, looked', left) = lookup-Looked i name2 e2 s m2 d' (rw size' f) n2 in
        let there : r ≡ some p = found_slot i d d' s p n.short slot same r looked fits is looked' in
        (
          p,
          m3,
          d3,
          finds ∙ ap (λ q. some (q, m3, d3)) there,
          word_at-byte_of inode_sector (bytes_at e2 m3) small
              (λ j l. left.inside p there j (omega arith) ∙ sector j l),
        )

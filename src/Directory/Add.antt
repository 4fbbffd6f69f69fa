-- ===== src/Directory/Add.antt =====
-- Adding an entry.
use os_pint_os_project.Base.{
  ℕ, ◌+◌, ◌-◌, ◌/◌, ◌%◌, ◌<◌, ◌≤◌, Bool, true, false, ◌&&◌, Option, none, some, List, [], ◌∷◌,
  length, ltb, leb, ◌==◌, if◌then◌else◌, ◌≡◌, ◌≢◌, ◌⊎◌, inl, inr, arith, refl, ap, ◌∙◌, Bool-cases,
  leb→le, ne→==,
}
use os_pint_os_project.Strings.{Memory}
use os_pint_os_project.Strings.View.{StringAt, strlen-length}
use os_pint_os_project.Inode.{Inode, Block}
use os_pint_os_project.Inode.Read.{Fits, byte_at, available}
use os_pint_os_project.Inode.Write.{inode_write_at-Written}
use os_pint_os_project.OpenInodes.{null, byte_of}
use os_pint_os_project.Directory.Entries.{bytes_at, write_slot, add_entry, dir_add}
use os_pint_os_project.Directory.Lookup.{
  has_entry, named, named-agree, named-StringAt, Named, Named-outside,
}
use os_pint_os_project.Directory.Search.{Looked, Left, lookup-Looked}
use os_pint_os_project.Directory.Slot.{
  FreeSlot, FreeSlot-same, free_loop-FreeSlot, Filled, fill_entry-Filled, byte_at-Written,
}

-- What adding a name comes to: an entry of that name is there, no slot is free, or the first free
-- slot holds the entry and nothing else of the directory has changed.
pub data Added (i : Inode) (inode_sector : ℕ) (s : List ℕ) (d d' : Block) : Bool → Type 0 where
  exists :
      (p : ℕ)
      → Looked i d s 0 (some p)
      → d'.contents ≡ d.contents
      → Added i inode_sector s d d' false
  full :
      (p : ℕ)
      → FreeSlot i d 0 p
      → i.len < p + 20
      → ((q : ℕ) → q < p → byte_at i d' q ≡ byte_at i d q)
      → Added i inode_sector s d d' false
  added :
      (p : ℕ)
      → Looked i d s 0 none
      → FreeSlot i d 0 p
      → p + 20 ≤ i.len
      → has_entry i d' s p ≡ true
      → ((j : ℕ) → j < 4 → byte_at i d' (p + j) ≡ byte_of inode_sector j)
      → ((q : ℕ) → (q < p) ⊎ (p + 20 ≤ q) → byte_at i d' q ≡ byte_at i d q)
      → Added i inode_sector s d d' true

-- The slot holds the entry that was filled in.
slot-Added :
    (i : Inode) (e inode_sector : ℕ) (s : List ℕ) (d d' : Block) (p : ℕ) (m1 m2 : Memory)
    → Looked i d s 0 none
    → FreeSlot i d 0 p
    → p + 20 ≤ i.len
    → Filled e inode_sector s m1 m2
    → length s ≤ 14
    → ((q : ℕ)
        → byte_at i d' q ≡ (if leb p q && ltb q (p + 20) then m2 (e + (q - p)) else byte_at i d q))
    → Added i inode_sector s d d' true
slot-Added i e inode_sector s d d' p m1 m2 looked slot fits filled short after =
    added p looked slot fits entry (λ j l. inside j (omega arith) ∙ filled.sector j l)
      (λ q h. after q ∙ ground arith)
  where
    inside : (j : ℕ) → j < 20 → byte_at i d' (p + j) ≡ m2 (e + j)
    inside j l =
        let test : (leb p (p + j) && ltb (p + j) (p + 20)) ≡ true = ground arith in
        after (p + j) ∙ rw test (ap m2 (omega arith))

    name_there : named (byte_at i d') (p + 4) s ≡ true
    name_there =
        named-agree m2 (byte_at i d') s (e + 4) (p + 4) (λ k l.
          ap (byte_at i d') (omega arith) ∙ inside (4 + k) (omega arith) ∙ ap m2 (omega arith))
        ∙ named-StringAt m2 (e + 4) s filled.name

    entry : has_entry i d' s p ≡ true
    entry = ground (arith, name_there, inside 19, filled.in_use)

module _ (i : Inode) (name e inode_sector : ℕ) (s : List ℕ) (native_ok : i.deny_write_cnt ≡ 0) where
  write_slot-Added :
      (m : Memory) (d0 d : Block)
      → Fits i d
      → d.foreign ≡ false
      → Named name e m s
      → d.contents ≡ d0.contents
      → Looked i d0 s 0 none
      → (b : Bool) × (m' : Memory) × (d' : Block) × (write_slot true i name e inode_sector m d
          ≡ some (b, m', d'))
        × Added i inode_sector s d0 d' b
        × (d'.size ≡ d.size)
  unfolding write_slot
  write_slot-Added m d0 d f native n same looked =
      let (p, m1, d1, frees, slot1, left) =
        free_loop-FreeSlot (i.len / 20 + 1) i e 0 m d f (omega arith) (omega arith) in
      let slot = FreeSlot-same i d0 d 0 p same slot1 in
      let (m2, fills, filled) =
        fill_entry-Filled name e inode_sector m1 s (Named-outside name e m m1 s left.outside n) in
      let (d2, writes, w) =
        inode_write_at-Written i (bytes_at e m2) 20 p d1 (rw left.same_size f)
          (left.same_type ∙ native) native_ok in
      let after : (q : ℕ)
          → byte_at i d2 q ≡ (
              if leb p q && ltb q (p + available i 20 p)
              then m2 (e + (q - p))
              else byte_at i d0 q) =
        λ q.
          byte_at-Written i p (available i 20 p) (bytes_at e m2) d1 d2 w q
          ∙ ap
              (λ c.
                if leb p q && ltb q (p + available i 20 p)
                then m2 (e + (q - p))
                else c (i.start + q / 512) (q % 512))
              (left.unchanged ∙ same) in
      let size = w.same_size ∙ left.same_size in
      elim (Bool-cases (leb (p + 20) i.len)) [
        | inl room ↦
            let fits = leb→le (p + 20) i.len room in
            let all : available i 20 p ≡ 20 = omega arith in
            let test : (available i 20 p == 20) ≡ true = ground (arith, all) in
            (
              true,
              m2,
              d2,
              rw (frees, fills, writes) (ap (λ b. some (b, m2, d2)) test),
              slot-Added i e inode_sector s d0 d2 p m1 m2 looked slot fits filled n.short (λ q.
                  after q
                  ∙ ap (λ c. if leb p q && ltb q (p + c) then m2 (e + (q - p)) else byte_at i d0 q)
                      all),
              size,
            )
        | inr ends ↦
            let test : (available i 20 p == 20) ≡ false = ground (arith, ends) in
            (
              false,
              m2,
              d2,
              rw (frees, fills, writes) (ap (λ b. some (b, m2, d2)) test),
              full p slot (ground (arith, ends)) (λ q l. after q ∙ ground arith),
              size,
            )
      ]

  -- For a directory that lies on a device to which the file system may write, whose inode nobody has
  -- denied writes, and a name of 1 to 14 bytes that lies apart from the entry in memory, `dir_add`,
  -- given memory for its bounce buffers, ends with no failed assertion. It fails if an entry has the
  -- name, with the device as it was, or if no slot is free, with every byte before the end of the last
  -- whole slot as it was. Otherwise the first free slot holds an entry in use with the name and the
  -- sector, and every other byte of the directory is as it was.
  pub dir_add-Added :
      (m : Memory) (d : Block)
      → Fits i d
      → d.foreign ≡ false
      → Named name e m s
      → s ≢ []
      → (b : Bool) × (m' : Memory) × (d' : Block) × (dir_add true i name e inode_sector m d
          ≡ some (b, m', d'))
        × Added i inode_sector s d d' b
        × (d'.size ≡ d.size)
  unfolding dir_add add_entry
  dir_add-Added m d f native n some_name =
      let (r, m1, d1, runs, looked, left) = lookup-Looked i name e s m d f n in
      let long : ltb 14 (length s) ≡ false = ground (arith, n.short) in
      let starts : (m name == 0) ≡ false = first_byte s some_name n.string in
      go r m1 d1 looked left (
        rw
          (
            ne→== name null n.ne_null,
            starts,
            strlen-length name m s n.string n.ne_null n.ends,
            long,
            runs,
          )
          refl)
    where
      first_byte : (t : List ℕ) → t ≢ [] → StringAt m name t → (m name == 0) ≡ false
      first_byte [] h k = absurd (h refl)
      first_byte (c ∷ t) h (e', ne, k) = ground (arith, e', ne)

      go :
          (r : Option ℕ) (m1 : Memory) (d1 : Block)
          → Looked i d s 0 r
          → Left i e m d r m1 d1
          → dir_add true i name e inode_sector m d ≡ elim r [
            | some ofs ↦ some (false, m1, d1)
            | none ↦ write_slot true i name e inode_sector m1 d1
          ]
          → (b : Bool) × (m' : Memory) × (d' : Block) × (dir_add true i name e inode_sector m d
              ≡ some (b, m', d'))
            × Added i inode_sector s d d' b
            × (d'.size ≡ d.size)
      go (some p) m1 d1 k left e' = (false, m1, d1, e', exists p k left.unchanged, left.same_size)
      go none m1 d1 k left e' =
          let (b, m', d', runs, a, size) =
            write_slot-Added m1 d d1 (rw left.same_size f) (left.same_type ∙ native)
              (Named-outside name e m m1 s left.outside n) left.unchanged k in
          (b, m', d', e' ∙ runs, a, size ∙ left.same_size)

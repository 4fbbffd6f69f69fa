-- ===== src/Directory/Search.antt =====
-- The loop of lookup.
use os_pint_os_project.Base.{
  ℕ, zero, suc, ◌+◌, ◌*◌, ◌/◌, ◌%◌, ◌<◌, ◌≤◌, true, false, Option, none, some, List, leb, ◌≡◌, ◌⊎◌,
  inl, inr, arith, sym, ap, ◌∙◌, Bool-cases, leb→le, ne→==,
}
use os_pint_os_project.Strings.{Memory}
use os_pint_os_project.Inode.{Inode, Block}
use os_pint_os_project.Inode.Read.{Fits, byte_at}
use os_pint_os_project.OpenInodes.{null}
use os_pint_os_project.Directory.Entries.{lookup_loop, lookup}
use os_pint_os_project.Directory.Lookup.{
  has_entry, Read, read_entry-Read, Named, Named-outside, has_name-has_entry,
}

-- What looking up `s` from offset `ofs` on comes to: the first entry that has the name, or none.
pub data Looked (i : Inode) (d : Block) (s : List ℕ) (ofs : ℕ) : Option ℕ → Type 0 where
  found :
      (k p : ℕ)
      → p ≡ ofs + 20 * k
      → p + 20 ≤ i.len
      → has_entry i d s p ≡ true
      → ((j : ℕ) → j < k → has_entry i d s (ofs + 20 * j) ≡ false)
      → Looked i d s ofs (some p)
  missing :
      ((j : ℕ) → ofs + 20 * j + 20 ≤ i.len → has_entry i d s (ofs + 20 * j) ≡ false)
      → Looked i d s ofs none

-- What a search leaves: the device's contents, the memory but for the entry at `e`, which is the one
-- that was found, if one was.
pub record Left (i : Inode) (e : ℕ) (m : Memory) (d : Block) (r : Option ℕ) (m' : Memory)
    (d' : Block) : Type 0 where
  pub same_size : d'.size ≡ d.size
  pub same_type : d'.foreign ≡ d.foreign
  pub unchanged : d'.contents ≡ d.contents
  pub outside : (a : ℕ) → (a < e) ⊎ (e + 20 ≤ a) → m' a ≡ m a
  pub inside : (p : ℕ) → r ≡ some p → (j : ℕ) → j < 20 → m' (e + j) ≡ byte_at i d (p + j)

pub has_entry-same :
    (i : Inode) (d d' : Block) (s : List ℕ) (p : ℕ)
    → d'.contents ≡ d.contents
    → has_entry i d' s p ≡ has_entry i d s p
has_entry-same i d d' s p e = ap (λ c. has_entry i (record d { contents = c }) s p) e

pub Left-Read :
    (i : Inode) (e ofs : ℕ) (m m1 m' : Memory) (d d1 d' : Block) (r : Option ℕ)
    → Read i e ofs m d m1 d1
    → Left i e m1 d1 r m' d'
    → Left i e m d r m' d'
Left-Read i e ofs m m1 m' d d1 d' r a l = record {
  same_size = l.same_size ∙ a.same_size;
  same_type = l.same_type ∙ a.same_type;
  unchanged = l.unchanged ∙ a.unchanged;
  outside = λ x h. l.outside x h ∙ a.outside x h;
  inside = λ p q j h.
      l.inside p q j h ∙ ap (λ c. c (i.start + (p + j) / 512) ((p + j) % 512)) a.unchanged;
}

Looked-next :
    (i : Inode) (d : Block) (s : List ℕ) (ofs : ℕ) (r : Option ℕ)
    → has_entry i d s ofs ≡ false
    → Looked i d s (ofs + 20) r
    → Looked i d s ofs r
Looked-next i d s ofs _ out (found k p e w is before) = found (k + 1) p (omega arith) w is earlier
  where
    earlier : (j : ℕ) → j < k + 1 → has_entry i d s (ofs + 20 * j) ≡ false
    earlier zero l = ap (has_entry i d s) (omega arith) ∙ out
    earlier (suc j) l = ap (has_entry i d s) (omega arith) ∙ before j (omega arith)
Looked-next i d s ofs _ out (missing all) = missing later
  where
    later : (j : ℕ) → ofs + 20 * j + 20 ≤ i.len → has_entry i d s (ofs + 20 * j) ≡ false
    later zero l = ap (has_entry i d s) (omega arith) ∙ out
    later (suc j) l = ap (has_entry i d s) (omega arith) ∙ all j (omega arith)

Looked-same :
    (i : Inode) (d d' : Block) (s : List ℕ) (ofs : ℕ) (r : Option ℕ)
    → d'.contents ≡ d.contents
    → Looked i d' s ofs r
    → Looked i d s ofs r
Looked-same i d d' s ofs _ same (found k p e w is before) =
    found k p e w (sym (has_entry-same i d d' s p same) ∙ is)
      (λ j l. sym (has_entry-same i d d' s (ofs + 20 * j) same) ∙ before j l)
Looked-same i d d' s ofs _ same (missing all) =
    missing (λ j l. sym (has_entry-same i d d' s (ofs + 20 * j) same) ∙ all j l)

-- A search that stops after an entry was read.
pub Left-stop :
    (i : Inode) (e ofs : ℕ) (m m' : Memory) (d d' : Block) (r : Option ℕ)
    → Read i e ofs m d m' d'
    → ((p : ℕ) → r ≡ some p → (p ≡ ofs) × (ofs + 20 ≤ i.len))
    → Left i e m d r m' d'
Left-stop i e ofs m m' d d' r a h = record {
  same_size = a.same_size;
  same_type = a.same_type;
  unchanged = a.unchanged;
  outside = a.outside;
  inside = λ p q j l. let (is, w) = h p q in a.inside w j l ∙ ap (byte_at i d) (omega arith);
}

lookup_loop-Looked :
    (n : ℕ) (i : Inode) (name e ofs : ℕ) (s : List ℕ) (m : Memory) (d : Block)
    → Fits i d
    → Named name e m s
    → ofs ≤ i.len
    → i.len < ofs + 20 * n
    → (r : Option ℕ) × (m' : Memory) × (d' : Block) × (lookup_loop n true i name e ofs m d
        ≡ some (r, m', d'))
      × Looked i d s ofs r
      × Left i e m d r m' d'
unfolding lookup_loop
lookup_loop-Looked zero i name e ofs s m d f n starts enough = absurd (omega arith)
lookup_loop-Looked (suc k) i name e ofs s m d f n starts enough =
    let (m1, d1, reads, a) = read_entry-Read i e ofs m d f in
    elim (Bool-cases (leb (ofs + 20) i.len)) [
      | inl whole ↦
          let w = leb→le (ofs + 20) i.len whole in
          let tests = has_name-has_entry i name e ofs m d m1 d1 s a n w in
          elim (Bool-cases (has_entry i d s ofs)) [
            | inl hit ↦ (
              some ofs,
              m1,
              d1,
              ground (arith, reads, whole, tests, hit),
              found 0 ofs (omega arith) w hit (λ j l. absurd (omega arith)),
              Left-stop i e ofs m m1 d d1 (some ofs) a (λ p q. (ground arith, w)),
            )
            | inr out ↦
                let (r, m', d', runs, looked, left) =
                  lookup_loop-Looked k i name e (ofs + 20) s m1 d1 (rw a.same_size f)
                    (Named-outside name e m m1 s a.outside n) w (omega arith) in
                (
                  r,
                  m',
                  d',
                  ground (arith, reads, whole, tests, out, runs),
                  Looked-next i d s ofs r out
                      (Looked-same i d d1 s (ofs + 20) r a.unchanged looked),
                  Left-Read i e ofs m m1 m' d d1 d' r a left,
                )
          ]
      | inr ends ↦ (
        none,
        m1,
        d1,
        ground (arith, reads, ends),
        missing (λ j l. absurd (ground (arith, ends))),
        Left-stop i e ofs m m1 d d1 none a (λ p q. cc),
      )
    ]

-- For a directory that lies on the device and a name of at most 14 bytes that lies apart from the
-- entry in memory, `lookup`, given memory for its bounce buffer, ends with no failed assertion. It
-- gives the offset of the first entry in use that has the name, with the entry in memory, or finds
-- that none has it. The device keeps its contents, and memory what is not the entry.
pub lookup-Looked :
    (i : Inode) (name e : ℕ) (s : List ℕ) (m : Memory) (d : Block)
    → Fits i d
    → Named name e m s
    → (r : Option ℕ) × (m' : Memory) × (d' : Block) × (lookup true i name e m d ≡ some (r, m', d'))
      × Looked i d s 0 r
      × Left i e m d r m' d'
unfolding lookup
lookup-Looked i name e s m d f n =
    let (r, m', d', runs, looked, left) =
      lookup_loop-Looked (i.len / 20 + 1) i name e 0 s m d f n (omega arith) (omega arith) in
    (r, m', d', rw (ne→== name null n.ne_null) runs, looked, left)

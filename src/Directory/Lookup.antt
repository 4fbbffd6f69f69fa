-- ===== src/Directory/Lookup.antt =====
-- Looking a name up finds the first entry in use that has it.
use os_pint_os_project.Base.{
  ℕ, zero, suc, ◌+◌, ◌-◌, ◌^◌, ◌<◌, ◌≤◌, min, Bool, true, not, ◌&&◌, some, List, [], ◌∷◌, length,
  ltb, leb, ◌==◌, if◌then◌else◌, ℤ, pos, negsuc, ◌≡◌, ◌≢◌, ◌⊎◌, inl, inr, arith, ap, ◌∙◌,
  Bool-cases,
}
use os_pint_os_project.Strings.{Memory}
use os_pint_os_project.Strings.Search.{strcmp, strcmp_loop}
use os_pint_os_project.Strings.View.{StringAt}
use os_pint_os_project.Strings.Bounded.{StringAt-agree}
use os_pint_os_project.Inode.{Inode, Block, Bytes}
use os_pint_os_project.Inode.Read.{Fits, byte_at, inode_read_at-Copied}
use os_pint_os_project.OpenInodes.{null}
use os_pint_os_project.Directory.Entries.{
  name_ofs, in_use_ofs, bytes_at, with_entry, read_entry, is_zero, has_name,
}

-- The bytes from `p` on are those of `s` and a null byte.
abbrev pub named : Bytes → ℕ → List ℕ → Bool
named b p [] = b p == 0
named b p (c ∷ s) = (b p == c) && named b (p + 1) s

-- The entry at offset `p` of the directory is in use and has the name `s`.
abbrev pub has_entry : Inode → Block → List ℕ → (p : ℕ) → Bool
has_entry i d s p = not (byte_at i d (p + in_use_ofs) == 0) && named (byte_at i d) (p + name_ofs) s

strcmp_loop-named :
    (n a b : ℕ) (m : Memory) (s : List ℕ)
    → StringAt m a s
    → length s < n
    → (r : ℤ) × (strcmp_loop n a b m ≡ some r) × (is_zero r ≡ named m b s)
unfolding strcmp_loop
strcmp_loop-named zero a b m s h fits = absurd (omega arith)
strcmp_loop-named (suc n) a b m [] h fits =
    (if ltb 0 (m b) then negsuc 0 else pos 0, ground (arith, h), ground arith)
strcmp_loop-named (suc n) a b m (c ∷ s) (e, ne, h) fits = elim (Bool-cases (m b == c)) [
  | inl same ↦
      let (r, runs, z) = strcmp_loop-named n (a + 1) (b + 1) m s h (omega arith) in
      (r, ground (arith, e, ne, same, runs), ground (arith, same, z))
  | inr other ↦
      (if ltb c (m b) then negsuc 0 else pos 1, ground (arith, e, ne, other), ground (arith, other))
]

-- `strcmp` gives zero just for a string that is `s`.
strcmp-named :
    (a b : ℕ) (m : Memory) (s : List ℕ)
    → a ≢ null
    → b ≢ null
    → StringAt m a s
    → a + length s < 2 ^ 32
    → (r : ℤ) × (strcmp a b m ≡ some r) × (is_zero r ≡ named m b s)
unfolding strcmp
strcmp-named a b m s p q h fits =
    let (r, runs, z) = strcmp_loop-named (2 ^ 32 - a) a b m s h (omega arith) in
    (r, ground (arith, p, q, runs), z)

pub named-agree :
    (b b' : Bytes) (s : List ℕ) (p q : ℕ)
    → ((k : ℕ) → k ≤ length s → b' (q + k) ≡ b (p + k))
    → named b' q s ≡ named b p s
named-agree b b' [] p q same = ground (arith, same 0)
named-agree b b' (c ∷ s) p q same =
    ground (arith, same 0, named-agree b b' s (p + 1) (q + 1) (λ k l. ground (arith, same (k + 1))))

-- What reading an entry leaves: the device's contents, and in memory the entry at `e`, if it is whole.
pub record Read (i : Inode) (e ofs : ℕ) (m : Memory) (d : Block) (m' : Memory) (d' : Block)
    : Type 0 where
  pub same_size : d'.size ≡ d.size
  pub same_type : d'.foreign ≡ d.foreign
  pub unchanged : d'.contents ≡ d.contents
  pub outside : (a : ℕ) → (a < e) ⊎ (e + 20 ≤ a) → m' a ≡ m a
  pub inside : ofs + 20 ≤ i.len → (j : ℕ) → j < 20 → m' (e + j) ≡ byte_at i d (ofs + j)

pub read_entry-Read :
    (i : Inode) (e ofs : ℕ) (m : Memory) (d : Block)
    → Fits i d
    → (m' : Memory) × (d' : Block) × (read_entry true i e ofs m d
        ≡ some (leb (ofs + 20) i.len, m', d'))
      × Read i e ofs m d m' d'
unfolding read_entry
read_entry-Read i e ofs m d f =
    let (d', b, runs, c) = inode_read_at-Copied i (bytes_at e m) 20 ofs d f in
    let whole : (min 20 (i.len - ofs) == 20) ≡ leb (ofs + 20) i.len = ground arith in
    (
      with_entry e b m,
      d',
      rw runs (ap (λ w. some (w, with_entry e b m, d')) whole),
      record {
        same_size = c.same_size;
        same_type = c.same_type;
        unchanged = c.unchanged;
        outside = λ a h. ground arith;
        inside = λ w j l. ground (arith, c.bytes j);
      },
    )

-- The name is apart from the entry that is read.
pub record Named (name e : ℕ) (m : Memory) (s : List ℕ) : Type 0 where
  pub string : StringAt m name s
  pub ne_null : name ≢ null
  pub ends : name + length s < 2 ^ 32
  pub apart : (name + length s < e) ⊎ (e + 20 ≤ name)
  pub short : length s ≤ 14

pub Named-outside :
    (name e : ℕ) (m m' : Memory) (s : List ℕ)
    → ((a : ℕ) → (a < e) ⊎ (e + 20 ≤ a) → m' a ≡ m a)
    → Named name e m s
    → Named name e m' s
Named-outside name e m m' s outside n = record {
  string =
      StringAt-agree m m' s name name
        (λ k l.
          outside (name + k)
            (elim n.apart [ inl before ↦ inl (omega arith) | inr after ↦ inr (omega arith) ]))
        n.string;
  ne_null = n.ne_null;
  ends = n.ends;
  apart = n.apart;
  short = n.short;
}

-- The test of an entry that was read.
pub has_name-has_entry :
    (i : Inode) (name e ofs : ℕ) (m : Memory) (d : Block) (m' : Memory) (d' : Block) (s : List ℕ)
    → Read i e ofs m d m' d'
    → Named name e m s
    → ofs + 20 ≤ i.len
    → has_name name e m' ≡ some (has_entry i d s ofs)
unfolding has_name
has_name-has_entry i name e ofs m d m' d' s r n w =
    let n' = Named-outside name e m m' s r.outside n in
    let (z, runs, is) = strcmp-named name (e + 4) m' s n.ne_null (omega arith) n'.string n.ends in
    let agrees : named m' (e + 4) s ≡ named (byte_at i d) (ofs + 4) s =
      named-agree (byte_at i d) m' s (ofs + 4) (e + 4) (λ k l.
        ap m' (omega arith)
        ∙ r.inside w (4 + k) (omega (arith, n.short))
        ∙ ap (byte_at i d) (omega arith)) in
    ground (arith, r.inside w 19, runs, is, agrees)

pub named-StringAt : (m : Memory) (p : ℕ) (s : List ℕ) → StringAt m p s → named m p s ≡ true
named-StringAt m p [] h = ground (arith, h)
named-StringAt m p (c ∷ s) (e, ne, h) = ground (arith, e, named-StringAt m (p + 1) s h)

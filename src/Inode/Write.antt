-- ===== src/Inode/Write.antt =====
-- What inode_write_at leaves on the device.
use os_pint_os_project.Base.{
  ℕ, zero, suc, ◌+◌, ◌-◌, ◌*◌, ◌/◌, ◌%◌, ◌<◌, ◌≤◌, Bool, true, false, not, ◌&&◌, ◌||◌, some, ltb,
  leb, ◌==◌, if◌then◌else◌, ◌≡◌, ◌≢◌, inl, inr, arith, refl, ap, ◌∙◌, Bool-cases, lt→ltb, subst,
  update,
}
use os_pint_os_project.Inode.{
  Block, Inode, Bytes, chunk_size, block_read, block_write, bounce, write_chunk, write_loop,
  inode_write_at, blit, whole_sector,
}
use os_pint_os_project.Inode.Read.{Fits, available, chunk_size-bounds, byte_to_sector-lt, goes}

-- Byte `o` of sector `s` is the byte of the file at `offset + j` for a `j < k`.
abbrev pub in_range : (i : Inode) (offset k s o : ℕ) → Bool
in_range i offset k s o =
    leb (i.start * 512 + offset) (s * 512 + o) && ltb (s * 512 + o) (i.start * 512 + offset + k)

-- What a transfer of the `k` bytes of `buffer` from `r` on to `offset` of a file leaves: these bytes
-- in their place, and every other byte of the device as it was.
pub record Written (i : Inode) (offset r k : ℕ) (buffer : Bytes) (d d' : Block) : Type 0 where
  pub same_size : d'.size ≡ d.size
  pub same_type : d'.foreign ≡ d.foreign
  pub bytes :
      (s o : ℕ)
      → o < 512
      → d'.contents s o ≡ (
          if in_range i offset k s o
          then buffer (r + (s * 512 + o - (i.start * 512 + offset)))
          else d.contents s o)

-- The byte that a round leaves at place `o` of the sector of `offset`.
sector_byte :
    (d : Block) (sector ofs c r : ℕ) (buffer bytes : Bytes) (s o : ℕ)
    → ((p : ℕ)
        → p < 512
        → bytes p
          ≡ (if leb ofs p && ltb p (ofs + c) then buffer (r + (p - ofs)) else d.contents sector p))
    → o < 512
    → update d.contents sector bytes s o ≡ (
        if (sector == s) && (leb ofs o && ltb o (ofs + c))
        then buffer (r + (o - ofs))
        else d.contents s o)
sector_byte d sector ofs c r buffer bytes s o is l = elim (Bool-cases (sector == s)) [
  | inl e ↦ let same : sector ≡ s = ground (arith, e) in rw (e, ← same) (is o l)
  | inr e ↦ rw e refl
]

-- In bytes of the whole device.
place_in_range :
    (i : Inode) (offset c s o : ℕ)
    → o < 512
    → c + offset % 512 ≤ 512
    → ((i.start + offset / 512 == s) && (leb (offset % 512) o && ltb o (offset % 512 + c)))
      ≡ in_range i offset c s o
place_in_range i offset c s o l h = ground arith

-- A sector that holds the round's bytes makes the device as it should be.
stored-bytes :
    (i : Inode) (offset c r : ℕ) (buffer bytes : Bytes) (d : Block)
    → c + offset % 512 ≤ 512
    → ((p : ℕ)
        → p < 512
        → bytes p ≡ (
            if leb (offset % 512) p && ltb p (offset % 512 + c)
            then buffer (r + (p - offset % 512))
            else d.contents (i.start + offset / 512) p))
    → (s o : ℕ) → o < 512
    → update d.contents (i.start + offset / 512) bytes s o ≡ (
        if in_range i offset c s o
        then buffer (r + (s * 512 + o - (i.start * 512 + offset)))
        else d.contents s o)
stored-bytes i offset c r buffer bytes d h is s o l =
    sector_byte d (i.start + offset / 512) (offset % 512) c r buffer bytes s o is l
    ∙ elim (Bool-cases (in_range i offset c s o)) [
      | inl inside ↦
          rw (place_in_range i offset c s o l h, inside)
            (ap buffer (ground (arith, inside, place_in_range i offset c s o l h)))
      | inr outside ↦ rw (place_in_range i offset c s o l h, outside) refl
    ]

-- The two ways of a round store the same sector.
write_chunk-Written :
    (i : Inode) (chunk offset r : ℕ) (buffer : Bytes) (d : Block)
    → Fits i d
    → d.foreign ≡ false
    → offset < i.len
    → chunk + offset % 512 ≤ 512
    → (d' : Block) × (write_chunk i chunk offset r buffer d ≡ some d')
      × Written i offset r chunk buffer d d'
unfolding write_chunk block_read block_write bounce
write_chunk-Written i chunk offset r buffer d f native l h =
    let (is, lt) = byte_to_sector-lt i d offset f l in
    let on_device = lt→ltb (i.start + offset / 512) d.size lt in
    elim (Bool-cases (whole_sector (offset % 512) chunk)) [
      | inl whole ↦
          let bytes = λ (j : ℕ). buffer (r + j) in
          (
            record d {
              write_cnt = d.write_cnt + 1;
              contents = update d.contents (i.start + offset / 512) bytes;
            },
            rw (whole, is, on_device, native) refl,
            record {
              same_size = refl;
              same_type = refl;
              bytes = stored-bytes i offset chunk r buffer bytes d h (λ p q.
                  let at_start : offset % 512 ≡ 0 = ground (arith, whole) in
                  let all : chunk ≡ 512 = ground (arith, whole) in
                  rw (at_start, all, lt→ltb p 512 q) (ground arith));
            },
          )
      | inr part ↦
          let bytes = blit (d.contents (i.start + offset / 512)) (offset % 512) buffer r chunk in
          let reads : (ltb 0 (offset % 512) || ltb chunk (512 - offset % 512)) ≡ true =
            ground (arith, part, h) in
          (
            record d {
              read_cnt = d.read_cnt + 1;
              write_cnt = d.write_cnt + 1;
              contents = update d.contents (i.start + offset / 512) bytes;
            },
            rw (part, is, reads, on_device, native) (rw on_device refl),
            record {
              same_size = refl;
              same_type = refl;
              bytes = stored-bytes i offset chunk r buffer bytes d h (λ p q. refl);
            },
          )
    ]

-- Two rounds in a row.
Written-Written :
    (i : Inode) (offset r c n : ℕ) (buffer : Bytes) (d d1 d2 : Block)
    → Written i offset r c buffer d d1
    → Written i (offset + c) (r + c) n buffer d1 d2
    → Written i offset r (c + n) buffer d d2
Written-Written i offset r c n buffer d d1 d2 one two = record {
  same_size = two.same_size ∙ one.same_size;
  same_type = two.same_type ∙ one.same_type;
  bytes = λ s o l. two.bytes s o l ∙ elim (Bool-cases (in_range i (offset + c) n s o)) [
    | inl late ↦
        let at : r + c + (s * 512 + o - (i.start * 512 + (offset + c)))
            ≡ r + (s * 512 + o - (i.start * 512 + offset)) =
          ground (arith, late) in
        let inside : in_range i offset (c + n) s o ≡ true = ground (arith, late) in
        rw (late, inside) (ap buffer at)
    | inr not_late ↦
        let same : in_range i offset (c + n) s o ≡ in_range i offset c s o =
          ground (arith, not_late) in
        rw (not_late, same) (one.bytes s o l)
  ];
}

-- A transfer of no byte.
Written-nil :
    (i : Inode) (buffer : Bytes) (offset r k : ℕ) (d : Block)
    → k ≡ 0
    → Written i offset r k buffer d d
Written-nil i buffer offset r k d e = record {
  same_size = refl;
  same_type = refl;
  bytes =
      λ s o l. let outside : in_range i offset k s o ≡ false = ground (arith, e) in rw outside refl;
}

module _ (i : Inode) (buffer : Bytes) where
  write_loop-Written :
      (n size offset r : ℕ) (d : Block)
      → size ≤ n
      → Fits i d
      → d.foreign ≡ false
      → (d' : Block) × (write_loop n true i size offset r buffer d
          ≡ some (r + available i size offset, d'))
        × Written i offset r (available i size offset) buffer d d'
  unfolding write_loop
  write_loop-Written zero size offset r d h f native =
      let nothing : available i size offset ≡ 0 = omega arith in
      (
        d,
        ap (λ q. some (q, d)) (omega arith),
        Written-nil i buffer offset r (available i size offset) d nothing,
      )
  write_loop-Written (suc n) size offset r d h f native =
      let (most, in_sector, progress) = chunk_size-bounds i size offset in
      let c = chunk_size i size offset in
      elim (Bool-cases (c == 0)) [
        | inl ends ↦
            let nothing : available i size offset ≡ 0 = ground (arith, ends, progress) in
            (
              d,
              rw (ends) (ap (λ q. some (q, d)) (omega arith)),
              Written-nil i buffer offset r (available i size offset) d nothing,
            )
        | inr goes_on ↦
            let some_left : c ≢ 0 = ground (arith, goes_on) in
            let (d1, chunk_runs, one) =
              write_chunk-Written i c offset r buffer d f native (omega (arith, some_left, most))
                in_sector in
            let (d2, runs, others) =
              write_loop-Written n (size - c) (offset + c) (r + c) d1 (omega arith)
                (rw one.same_size f) (one.same_type ∙ native) in
            let total : c + available i (size - c) (offset + c) ≡ available i size offset =
              omega arith in
            (
              d2,
              rw (goes c (whole_sector (offset % 512) c) goes_on, chunk_runs)
                  (runs ∙ ap (λ q. some (q, d2)) (omega arith)),
              subst (λ q. Written i offset r q buffer d d2) total
                  (Written-Written i offset r c (available i (size - c) (offset + c)) buffer d d1 d2
                    one others),
            )
      ]

-- When writes are not denied, a file that lies on a device that the kernel may write takes as many
-- of the `size` bytes of the buffer at `offset` as it has room for, given memory for the bounce
-- buffer, with no access outside the device. The device holds these bytes at their places of the
-- file, and no other byte of any sector changes.
pub inode_write_at-Written :
    (i : Inode) (buffer : Bytes) (size offset : ℕ) (d : Block)
    → Fits i d
    → d.foreign ≡ false
    → i.deny_write_cnt ≡ 0
    → (d' : Block) × (inode_write_at true i buffer size offset d
        ≡ some (available i size offset, d'))
      × Written i offset 0 (available i size offset) buffer d d'
unfolding inode_write_at
inode_write_at-Written i buffer size offset d f native allowed =
    let (d', runs, w) = write_loop-Written i buffer size size offset 0 d (omega arith) f native in
    let none_denied : (i.deny_write_cnt == 0) ≡ true = ground (arith, allowed) in
    (
      d',
      ap
            (λ (b : Bool).
              if not b then some (0, d) else write_loop size true i size offset 0 buffer d)
            none_denied
          ∙ runs
          ∙ ap (λ q. some (q, d')) (omega arith),
      w,
    )

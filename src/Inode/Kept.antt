-- ===== src/Inode/Kept.antt =====
-- What inode_write_at leaves alone, whatever malloc gives: all sectors but those of the file.
use os_pint_os_project.Base.{
  ℕ, zero, suc, ◌+◌, ◌-◌, ◌/◌, ◌%◌, ◌<◌, ◌≤◌, Bool, false, not, ◌&&◌, ◌||◌, some, ltb, leb, ◌==◌,
  ◌≡◌, inl, inr, arith, refl, ◌∙◌, subst, Bool-cases, lt→ltb, ne→==, update,
}
use os_pint_os_project.Inode.{
  Block, Inode, Bytes, chunk_size, block_read, block_write, bounce, write_chunk, write_loop,
  inode_write_at, blit, whole_sector,
}
use os_pint_os_project.Inode.Read.{Fits, chunk_size-bounds, byte_to_sector-lt}

-- Sector `t` is not one of the `n` from `start` on.
abbrev pub Outside : (start n t : ℕ) → Type 0
Outside start n t = (leb start t && ltb t (start + n)) ≡ false

-- The device `d'` is `d` but for `n` sectors from `start` on.
pub record Kept (start n : ℕ) (d d' : Block) : Type 0 where
  pub same_size : d'.size ≡ d.size
  pub same_type : d'.foreign ≡ d.foreign
  pub sectors : (t : ℕ) → Outside start n t → d'.contents t ≡ d.contents t

-- The sectors of a file.
abbrev pub blocks : Inode → ℕ
blocks i = (i.len + 511) / 512

pub Kept-refl : (start n : ℕ) (d : Block) → Kept start n d d
Kept-refl start n d = record { same_size = refl; same_type = refl; sectors = λ t h. refl }

pub Kept-same : {s s' n n' : ℕ} {d d' : Block} → s ≡ s' → n ≡ n' → Kept s n d d' → Kept s' n' d d'
Kept-same {s} {s'} {n} {n'} {d} {d'} e g k =
    subst (λ t. Kept t n' d d') e (subst (λ t. Kept s t d d') g k)

pub Kept-Kept :
    {start n : ℕ} {d d1 d2 : Block} → Kept start n d d1 → Kept start n d1 d2 → Kept start n d d2
Kept-Kept one two = record {
  same_size = two.same_size ∙ one.same_size;
  same_type = two.same_type ∙ one.same_type;
  sectors = λ t h. two.sectors t h ∙ one.sectors t h;
}

-- `d` with sector `s` written, after `r` reads.
abbrev stored : Block → (s : ℕ) → Bytes → (r : ℕ) → Block
stored d s bytes r = record d {
  read_cnt = r;
  write_cnt = d.write_cnt + 1;
  contents = update d.contents s bytes;
}

update-Kept :
    (start n s : ℕ) (d : Block) (bytes : Bytes) (r : ℕ)
    → start ≤ s
    → s < start + n
    → Kept start n d (stored d s bytes r)
update-Kept start n s d bytes r lo hi = record {
  same_size = refl;
  same_type = refl;
  sectors =
      λ t h. let other : (s == t) ≡ false = ne→== s t (λ e. ground (arith, e, h)) in rw other refl;
}

write_chunk-Kept :
    (i : Inode) (chunk offset r : ℕ) (buffer : Bytes) (d : Block)
    → Fits i d
    → d.foreign ≡ false
    → offset < i.len
    → (d' : Block) × (write_chunk i chunk offset r buffer d ≡ some d')
      × Kept i.start (blocks i) d d'
unfolding write_chunk block_read block_write bounce
write_chunk-Kept i chunk offset r buffer d f native l =
    let (is, lt) = byte_to_sector-lt i d offset f l in
    let on_device = lt→ltb (i.start + offset / 512) d.size lt in
    elim (Bool-cases (whole_sector (offset % 512) chunk)) [
      | inl whole ↦ stores (λ j. buffer (r + j)) d.read_cnt (rw (whole, is, on_device, native) refl)
      | inr part ↦ elim (Bool-cases (ltb 0 (offset % 512) || ltb chunk (512 - offset % 512))) [
        | inl reads ↦
            stores (blit (d.contents (i.start + offset / 512)) (offset % 512) buffer r chunk)
              (d.read_cnt + 1) (rw (part, is, reads, on_device, native) (rw on_device refl))
        | inr fresh ↦
            stores (blit (λ j. 0) (offset % 512) buffer r chunk) d.read_cnt
              (rw (part, is, fresh, on_device, native) refl)
      ]
    ]
  where
    stores :
        (bytes : Bytes) (reads : ℕ)
        → write_chunk i chunk offset r buffer d
          ≡ some (stored d (i.start + offset / 512) bytes reads)
        → (d' : Block) × (write_chunk i chunk offset r buffer d ≡ some d')
          × Kept i.start (blocks i) d d'
    stores bytes reads runs = (
      stored d (i.start + offset / 512) bytes reads,
      runs,
      update-Kept i.start (blocks i) (i.start + offset / 512) d bytes reads (omega arith)
          (omega arith),
    )

write_loop-Kept :
    (n : ℕ) (has_memory : Bool) (i : Inode) (size offset r : ℕ) (buffer : Bytes) (d : Block)
    → Fits i d
    → d.foreign ≡ false
    → (k : ℕ) × (d' : Block) × (write_loop n has_memory i size offset r buffer d ≡ some (k, d'))
      × Kept i.start (blocks i) d d'
unfolding write_loop
write_loop-Kept zero has_memory i size offset r buffer d f native =
    (r, d, refl, Kept-refl i.start (blocks i) d)
write_loop-Kept (suc n) has_memory i size offset r buffer d f native =
    let c = chunk_size i size offset in
    let (most, in_sector, progress) = chunk_size-bounds i size offset in
    elim (Bool-cases (c == 0 || (not (whole_sector (offset % 512) c) && not has_memory))) [
      | inl stops ↦ (r, d, rw stops refl, Kept-refl i.start (blocks i) d)
      | inr goes_on ↦
          let some_left : offset < i.len = ground (arith, goes_on, most) in
          let (d1, chunk_runs, one) = write_chunk-Kept i c offset r buffer d f native some_left in
          let (k, d2, runs, others) =
            write_loop-Kept n has_memory i (size - c) (offset + c) (r + c) buffer d1
              (rw one.same_size f) (one.same_type ∙ native) in
          (k, d2, rw (goes_on, chunk_runs) runs, Kept-Kept one others)
    ]

-- A file that lies on a device that the kernel may write is written with no access outside the
-- device, and only its own sectors change, whether or not malloc gives the bounce buffer.
pub inode_write_at-Kept :
    (has_memory : Bool) (i : Inode) (buffer : Bytes) (size offset : ℕ) (d : Block)
    → Fits i d
    → d.foreign ≡ false
    → (k : ℕ) × (d' : Block) × (inode_write_at has_memory i buffer size offset d ≡ some (k, d'))
      × Kept i.start (blocks i) d d'
unfolding inode_write_at
inode_write_at-Kept has_memory i buffer size offset d f native =
    elim (Bool-cases (i.deny_write_cnt == 0)) [
      | inl allowed ↦
          let (k, d', runs, w) =
            write_loop-Kept size has_memory i size offset 0 buffer d f native in
          (k, d', rw allowed runs, w)
      | inr denied ↦ (0, d, rw denied refl, Kept-refl i.start (blocks i) d)
    ]

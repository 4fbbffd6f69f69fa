-- ===== src/Inode/Read.antt =====
-- What inode_read_at gives of a file.
use os_pint_os_project.Base.{
  ℕ, zero, suc, ◌+◌, ◌-◌, ◌/◌, ◌%◌, ◌<◌, ◌≤◌, min, Bool, true, false, not, ◌&&◌, ◌||◌, some, ltb,
  leb, ◌==◌, if◌then◌else◌, ◌≡◌, ◌≢◌, ◌⊎◌, inl, inr, arith, refl, ap, ap₂, ◌∙◌, fun_ext, Bool-cases,
  lt→ltb,
}
use os_pint_os_project.Inode.{
  Block, Inode, Bytes, chunk_size, inode_length, byte_to_sector, block_read, read_chunk, read_loop,
  inode_read_at, blit, whole_sector,
}

-- The file lies on the device.
abbrev pub Fits : Inode → Block → Type 0
Fits i d = i.start + (i.len + 511) / 512 ≤ d.size

-- The byte of the file at a position.
abbrev pub byte_at : Inode → Block → ℕ → ℕ
byte_at i d p = d.contents (i.start + p / 512) (p % 512)

-- The bytes that a transfer at `offset` can move.
abbrev pub available : Inode → (size offset : ℕ) → ℕ
available i size offset = min size (i.len - offset)

pub chunk_size-bounds :
    (i : Inode) (size offset : ℕ)
    → (chunk_size i size offset ≤ available i size offset)
      × (chunk_size i size offset + offset % 512 ≤ 512)
      × ((chunk_size i size offset ≢ 0) ⊎ (available i size offset ≡ 0))
unfolding chunk_size inode_length
chunk_size-bounds i size offset = (ground arith, ground arith, ground arith)

pub byte_to_sector-lt :
    (i : Inode) (d : Block) (p : ℕ)
    → Fits i d
    → p < i.len
    → (byte_to_sector i p ≡ i.start + p / 512) × (i.start + p / 512 < d.size)
unfolding byte_to_sector
byte_to_sector-lt i d p f l = (ground (arith, lt→ltb p i.len l), omega arith)

abbrev pub counted : Block → Block
counted d = record d { read_cnt = d.read_cnt + 1 }

-- The two ways of a round copy the same bytes.
read_chunk-blit :
    (i : Inode) (chunk offset bytes_read : ℕ) (d : Block) (buffer : Bytes)
    → Fits i d
    → offset < i.len
    → read_chunk i chunk offset bytes_read d buffer
      ≡ some (
        counted d,
        blit buffer bytes_read (d.contents (i.start + offset / 512)) (offset % 512) chunk,
      )
unfolding read_chunk block_read
read_chunk-blit i chunk offset bytes_read d buffer f l =
    let (is, lt) = byte_to_sector-lt i d offset f l in
    elim (Bool-cases (whole_sector (offset % 512) chunk)) [
      | inl whole ↦
          let at_start : offset % 512 ≡ 0 = ground (arith, whole) in
          let all : chunk ≡ 512 = ground (arith, whole) in
          rw (is, lt→ltb (i.start + offset / 512) d.size lt, at_start, all) refl
      | inr part ↦ rw (is, lt→ltb (i.start + offset / 512) d.size lt, part) refl
    ]

-- The bytes `n` from `at` on come from `file` at `offset`, the others from `bytes`.
abbrev pub patched : (file : Bytes) (offset at n : ℕ) → Bytes → Bytes
patched file offset at n bytes j =
    if leb at j && ltb j (at + n) then file (offset + (j - at)) else bytes j

-- A round that stays in one sector copies the bytes of the file.
blit-patched :
    (i : Inode) (d : Block) (offset r c : ℕ) (buffer : Bytes)
    → c + offset % 512 ≤ 512
    → (j : ℕ)
    → blit buffer r (d.contents (i.start + offset / 512)) (offset % 512) c j
      ≡ patched (byte_at i d) offset r c buffer j
blit-patched i d offset r c buffer h j = elim (Bool-cases (leb r j && ltb j (r + c))) [
  | inl inside ↦
      let near : j - r < c = ground (arith, inside) in
      rw (inside) (ap₂ d.contents (ap (λ q. i.start + q) (omega arith)) (omega arith))
  | inr outside ↦ rw outside refl
]

-- Two rounds in a row.
patched-patched :
    (file : Bytes) (offset r c n : ℕ) (bytes : Bytes) (j : ℕ)
    → patched file (offset + c) (r + c) n (patched file offset r c bytes) j
      ≡ patched file offset r (c + n) bytes j
patched-patched file offset r c n bytes j = elim (Bool-cases (leb (r + c) j)) [
  | inl past ↦
      let at : offset + c + (j - (r + c)) ≡ offset + (j - r) = ground (arith, past) in
      ground (arith, past, ap file at)
  | inr before ↦ ground (arith, before)
]

-- What a transfer of `k` bytes at `offset` into `buffer` at `r` leaves.
pub record Copied (i : Inode) (offset r k : ℕ) (d : Block) (buffer : Bytes) (d' : Block)
    (buffer' : Bytes) : Type 0 where
  pub same_size : d'.size ≡ d.size
  pub same_type : d'.foreign ≡ d.foreign
  pub unchanged : d'.contents ≡ d.contents
  pub bytes : (j : ℕ) → buffer' j ≡ patched (byte_at i d) offset r k buffer j

-- A round that has bytes to move makes them, whether or not it needs the bounce buffer.
pub goes : (c : ℕ) (w : Bool) → (c == 0) ≡ false → ((c == 0) || (not w && not true)) ≡ false
goes c true e = rw e refl
goes c false e = rw e refl

module _ (i : Inode) where
  read_loop-Copied :
      (n size offset r : ℕ) (d : Block) (buffer : Bytes)
      → size ≤ n
      → Fits i d
      → (d' : Block) × (buffer' : Bytes) × (read_loop n true i size offset r d buffer
          ≡ some (r + available i size offset, d', buffer'))
        × Copied i offset r (available i size offset) d buffer d' buffer'
  unfolding read_loop
  read_loop-Copied zero size offset r d buffer h f = (
    d,
    buffer,
    ap (λ q. some (q, d, buffer)) (omega arith),
    record { same_size = refl; same_type = refl; unchanged = refl; bytes = λ j. ground arith },
  )
  read_loop-Copied (suc n) size offset r d buffer h f =
      let (most, in_sector, progress) = chunk_size-bounds i size offset in
      let c = chunk_size i size offset in
      elim (Bool-cases (c == 0)) [
        | inl ends ↦
            let nothing : available i size offset ≡ 0 = ground (arith, ends, progress) in
            (
              d,
              buffer,
              rw (ends) (ap (λ q. some (q, d, buffer)) (omega arith)),
              record {
                same_size = refl;
                same_type = refl;
                unchanged = refl;
                bytes = λ j. ground (arith, nothing);
              },
            )
        | inr goes_on ↦
            let some_left : c ≢ 0 = ground (arith, goes_on) in
            let blitted = blit buffer r (d.contents (i.start + offset / 512)) (offset % 512) c in
            let (d', buffer', runs, copied) =
              read_loop-Copied n (size - c) (offset + c) (r + c) (counted d) blitted (omega arith)
                f in
            let total : c + available i (size - c) (offset + c) ≡ available i size offset =
              omega arith in
            (
              d',
              buffer',
              rw
                  (
                    goes c (whole_sector (offset % 512) c) goes_on,
                    read_chunk-blit i c offset r d buffer f (omega (arith, some_left, most)),
                  )
                  (runs ∙ ap (λ q. some (q, d', buffer')) (omega arith)),
              record {
                same_size = copied.same_size;
                same_type = copied.same_type;
                unchanged = copied.unchanged;
                bytes = λ j.
                    copied.bytes j
                    ∙ ap
                        (λ g.
                          patched (byte_at i d) (offset + c) (r + c)
                            (available i (size - c) (offset + c)) g j)
                        (fun_ext (blit-patched i d offset r c buffer in_sector))
                    ∙ patched-patched (byte_at i d) offset r c (available i (size - c) (offset + c))
                        buffer j
                    ∙ ap (λ q. patched (byte_at i d) offset r q buffer j) total;
              },
            )
      ]

-- Of a file that lies on the device `inode_read_at`, given memory for its bounce buffer, reads as
-- many of the `size` bytes at `offset` as the file has, with no access outside the device. The
-- buffer starts with these bytes of the file and is otherwise unchanged, and so are the contents and
-- the size of the device.
pub inode_read_at-Copied :
    (i : Inode) (buffer : Bytes) (size offset : ℕ) (d : Block)
    → Fits i d
    → (d' : Block) × (buffer' : Bytes) × (inode_read_at true i buffer size offset d
        ≡ some (available i size offset, d', buffer'))
      × Copied i offset 0 (available i size offset) d buffer d' buffer'
unfolding inode_read_at
inode_read_at-Copied i buffer size offset d f =
    let (d', buffer', runs, copied) =
      read_loop-Copied i size size offset 0 d buffer (omega arith) f in
    (d', buffer', runs ∙ ap (λ q. some (q, d', buffer')) (omega arith), copied)

-- ===== src/Inode/Roundtrip.antt =====
-- Reading what was written.
use os_pint_os_project.Base.{
  ℕ, ◌+◌, ◌-◌, ◌*◌, ◌/◌, ◌%◌, ◌<◌, true, false, ◌&&◌, Option, some, ltb, leb, ◌≡◌, arith, sym, ap,
  ◌∙◌,
}
use os_pint_os_project.Inode.{Block, Inode, Bytes, inode_write_at, inode_read_at}
use os_pint_os_project.Inode.Read.{Fits, byte_at, available, inode_read_at-Copied}
use os_pint_os_project.Inode.Write.{in_range, Written, inode_write_at-Written}

-- A byte of the file that was written.
Written-byte_at :
    (i : Inode) (offset n : ℕ) (buffer : Bytes) (d d1 : Block) (j : ℕ)
    → Written i offset 0 n buffer d d1
    → j < n
    → byte_at i d1 (offset + (j - 0)) ≡ buffer j
Written-byte_at i offset n buffer d d1 j w l =
    let p = offset + (j - 0) in
    let here : i.start * 512 + offset + j ≡ (i.start + p / 512) * 512 + p % 512 = omega arith in
    let inside : in_range i offset n (i.start + p / 512) (p % 512) ≡ true =
      ground (arith, here, l) in
    w.bytes (i.start + p / 512) (p % 512) (omega arith)
    ∙ rw inside (ap buffer (omega (arith, here)))

-- What was written is read back: reading the same range of the file after a write gives the same
-- number of bytes, and these are the bytes of the buffer that was written.
pub read-write :
    (i : Inode) (buffer into : Bytes) (size offset : ℕ) (d d1 : Block) (n : ℕ)
    → Fits i d
    → d.foreign ≡ false
    → i.deny_write_cnt ≡ 0
    → inode_write_at true i buffer size offset d ≡ some (n, d1)
    → (d2 : Block) × (back : Bytes) × (inode_read_at true i into size offset d1
        ≡ some (n, d2, back))
      × ((j : ℕ) → j < n → back j ≡ buffer j)
read-write i buffer into size offset d d1 n f native allowed e =
    let (d', runs, w) = inode_write_at-Written i buffer size offset d f native allowed in
    let same : ◌≡◌ {A = Option (ℕ × Block)} (some (available i size offset, d')) (some (n, d1)) =
      sym runs ∙ e in
    go (ground arith) (ground arith) w
  where
    go :
        {d' : Block}
        → available i size offset ≡ n
        → d' ≡ d1
        → Written i offset 0 (available i size offset) buffer d d'
        → (d2 : Block) × (back : Bytes) × (inode_read_at true i into size offset d1
            ≡ some (n, d2, back))
          × ((j : ℕ) → j < n → back j ≡ buffer j)
    go cnt here w0 =
        let w : Written i offset 0 n buffer d d1 = rw (← cnt, ← here) w0 in
        let (d2, back, runs, copied) =
          inode_read_at-Copied i into size offset d1 (rw w.same_size f) in
        (
          d2,
          back,
          runs ∙ ap (λ q. some (q, d2, back)) cnt,
          λ j l.
              let inside : (leb 0 j && ltb j (0 + available i size offset)) ≡ true =
                ground (arith, l, cnt) in
              copied.bytes j ∙ rw inside (Written-byte_at i offset n buffer d d1 j w l),
        )

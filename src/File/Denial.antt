-- ===== src/File/Denial.antt =====
-- Denying writes to a file that several openers share.
use os_pint_os_project.Base.{
  ℕ, ◌+◌, ◌-◌, ◌≤◌, true, false, some, List, [], ◌∷◌, ◌++◌, length, length-append, inl, inr, leb,
  ltb, ◌==◌, if◌then◌else◌, ◌≡◌, arith, refl, Bool-cases,
}
use os_pint_os_project.Inode.{
  Inode, Block, Bytes, inode_deny_write, inode_allow_write, inode_write_at,
}
use os_pint_os_project.File.{File, file_deny_write, file_allow_write, file_write}

-- The number of files that deny writes.
abbrev pub denials : List File → ℕ
denials [] = 0
denials (f ∷ fs) = (if f.deny_write then 1 else 0) + denials fs

-- The files have the inode open, and its count is that of the files that deny writes.
pub record Shared (i : Inode) (fs : List File) : Type 0 where
  pub opened : length fs ≤ i.open_cnt
  pub counted : i.deny_write_cnt ≡ denials fs

denials-append : (fs gs : List File) → denials (fs ++ gs) ≡ denials fs + denials gs
denials-append [] gs = omega arith
denials-append (f ∷ fs) gs = omega (arith, denials-append fs gs)

denials-le : (fs : List File) → denials fs ≤ length fs
denials-le [] = omega arith
denials-le (f ∷ fs) = ground (arith, denials-le fs)

-- Each of the files that share an inode can deny writes: no assertion fails, the file denies writes,
-- the count stays right, and then no file with this inode can write
-- a byte.
pub file_deny_write-Shared :
    (i : Inode) (before after : List File) (f : File) (g : File) (buffer : Bytes) (size : ℕ)
    (d : Block)
    → Shared i (before ++ (f ∷ after))
    → (i' : Inode) × (f' : File) × (file_deny_write i f ≡ some (i', f'))
      × (f'.deny_write ≡ true)
      × Shared i' (before ++ (f' ∷ after))
      × (file_write true i' g buffer size d ≡ some (0, record g { position = g.position + 0 }, d))
unfolding file_deny_write inode_deny_write file_write inode_write_at
file_deny_write-Shared i before after f g buffer size d v = elim (Bool-cases f.deny_write) [
  | inl denies ↦
      let some_denied : (i.deny_write_cnt == 0) ≡ false =
        ground (arith, v.counted, denials-append before (f ∷ after), denies) in
      (i, f, rw denies refl, denies, v, rw some_denied refl)
  | inr allows ↦
      let room : leb (i.deny_write_cnt + 1) i.open_cnt ≡ true = ground (
        arith,
        v.counted,
        v.opened,
        denials-append before (f ∷ after),
        length-append before (f ∷ after),
        denials-le before,
        denials-le after,
        allows,
      ) in
      (
        record i { deny_write_cnt = i.deny_write_cnt + 1 },
        record f { deny_write = true },
        rw (allows, room) refl,
        refl,
        record {
          opened = omega (
            arith,
            v.opened,
            length-append before (f ∷ after),
            length-append before (record f { deny_write = true } ∷ after),
          );
          counted = ground (
            arith,
            v.counted,
            denials-append before (f ∷ after),
            denials-append before (record f { deny_write = true } ∷ after),
            allows,
          );
        },
        (let some_denied : (i.deny_write_cnt + 1 == 0) ≡ false = ground arith in
            rw some_denied refl),
      )
]

-- Each of them can allow writes again: no assertion fails and the count stays right. Writes are then
-- denied exactly as long as another of the files denies them.
pub file_allow_write-Shared :
    (i : Inode) (before after : List File) (f : File)
    → Shared i (before ++ (f ∷ after))
    → (i' : Inode) × (f' : File) × (file_allow_write i f ≡ some (i', f'))
      × (f'.deny_write ≡ false)
      × Shared i' (before ++ (f' ∷ after))
      × (i'.deny_write_cnt ≡ denials before + denials after)
unfolding file_allow_write inode_allow_write
file_allow_write-Shared i before after f v = elim (Bool-cases f.deny_write) [
  | inl denies ↦
      let some_denied : ltb 0 i.deny_write_cnt ≡ true =
        ground (arith, v.counted, denials-append before (f ∷ after), denies) in
      let in_bounds : leb i.deny_write_cnt i.open_cnt ≡ true =
        ground (arith, v.counted, v.opened, denials-le (before ++ (f ∷ after))) in
      (
        record i { deny_write_cnt = i.deny_write_cnt - 1 },
        record f { deny_write = false },
        rw (denies, some_denied, in_bounds) refl,
        refl,
        record {
          opened = omega (
            arith,
            v.opened,
            length-append before (f ∷ after),
            length-append before (record f { deny_write = false } ∷ after),
          );
          counted = ground (
            arith,
            v.counted,
            denials-append before (f ∷ after),
            denials-append before (record f { deny_write = false } ∷ after),
            denies,
          );
        },
        ground (arith, v.counted, denials-append before (f ∷ after), denies),
      )
  | inr allows ↦ (
    i,
    f,
    rw allows refl,
    allows,
    v,
    ground (arith, v.counted, denials-append before (f ∷ after), allows),
  )
]

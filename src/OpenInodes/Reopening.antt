-- ===== src/OpenInodes/Reopening.antt =====
-- Closing an inode that was opened again.
use os_pint_os_project.Base.{
  ℕ, ◌+◌, ◌-◌, ◌<◌, true, false, ◌==◌, some, update, ◌≡◌, inl, inr, arith, refl, sym, ap, fun_ext,
  Bool-cases, ◌∙◌,
}
use os_pint_os_project.Base.Members.{has}
use os_pint_os_project.Inode.{Inode}
use os_pint_os_project.OpenInodes.{FileSystem, null, inode_close}
use os_pint_os_project.OpenInodes.Opening.{Opened}

-- The state after an inode is opened again.
abbrev pub one_more : ℕ → FileSystem → FileSystem
one_more a fs = record fs {
  inodes = update fs.inodes a (record (fs.inodes a) { open_cnt = (fs.inodes a).open_cnt + 1 });
}

update-same : (f : ℕ → Inode) (a : ℕ) (i j : Inode) → j ≡ f a → update (update f a i) a j ≡ f
update-same f a i j e = fun_ext (λ b. elim (Bool-cases (a == b)) [
  | inl is ↦ let q : a ≡ b = ground (arith, is) in rw is (e ∙ ap f q)
  | inr other ↦ rw other refl
])

pub close-one_more :
    (a : ℕ) (fs : FileSystem)
    → (a == null) ≡ false
    → 0 < (fs.inodes a).open_cnt
    → inode_close a (one_more a fs) ≡ some fs
unfolding inode_close
close-one_more a fs ne some_open =
    let is : (a == a) ≡ true = ground arith in
    let more : ((fs.inodes a).open_cnt + 1 == 1) ≡ false = ground (arith, some_open) in
    let back : (fs.inodes a).open_cnt + 1 - 1 ≡ (fs.inodes a).open_cnt = omega arith in
    rw (ne, is, more)
      (ap (λ f. some (record fs { inodes = f }))
        (update-same fs.inodes a _ _ (ap (λ n. record (fs.inodes a) { open_cnt = n }) back)))

pub listed-not_null :
    (a : ℕ) (fs : FileSystem) → Opened fs → has a fs.open_inodes ≡ true → (a == null) ≡ false
listed-not_null a fs v m = elim (Bool-cases (a == null)) [
  | inl is ↦
      let z : a ≡ null = ground (arith, is) in
      cc (let e : true ≡ false = sym m ∙ ap (λ b. has b fs.open_inodes) z ∙ v.ne_null in e)
  | inr other ↦ other
]

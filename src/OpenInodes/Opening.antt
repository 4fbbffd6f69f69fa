-- ===== src/OpenInodes/Opening.antt =====
-- Opening an inode: one inode in memory for each sector.
use os_pint_os_project.Base.{
  ℕ, ◌+◌, ◌<◌, ◌≤◌, true, false, Option, none, some, List, [], ◌∷◌, ◌==◌, update, ◌≡◌, ◌≢◌, inl,
  inr, arith, refl, sym, ap, ◌∙◌, Bool-cases, lt→ltb, ne→==,
}
use os_pint_os_project.Base.Members.{has, Nodup}
use os_pint_os_project.Inode.{Inode, block_read}
use os_pint_os_project.OpenInodes.{
  FileSystem, null, find_open, inode_reopen, load_inode, open_new, inode_open,
}

-- Each open inode has openers, of whom some may deny writes, and no two stand for one sector.
pub record Opened (fs : FileSystem) : Type 0 where
  pub openers : (a : ℕ) → has a fs.open_inodes ≡ true → 0 < (fs.inodes a).open_cnt
  pub denies :
      (a : ℕ) → has a fs.open_inodes ≡ true → (fs.inodes a).deny_write_cnt ≤ (fs.inodes a).open_cnt
  pub single :
      (a b : ℕ)
      → has a fs.open_inodes ≡ true
      → has b fs.open_inodes ≡ true
      → (fs.inodes a).sector ≡ (fs.inodes b).sector
      → a ≡ b
  pub once : Nodup fs.open_inodes
  pub ne_null : has null fs.open_inodes ≡ false

-- What opening a sector comes to.
pub data OpenedAs (fs : FileSystem) (a sector r : ℕ) (fs' : FileSystem) : Type 0 where
  again :
      has r fs.open_inodes ≡ true
      → (fs.inodes r).sector ≡ sector
      → fs' ≡ (record fs {
        inodes =
            update fs.inodes r (record (fs.inodes r) { open_cnt = (fs.inodes r).open_cnt + 1 });
      })
      → OpenedAs fs a sector r fs'
  first :
      r ≡ a
      → ((b : ℕ) → has b fs.open_inodes ≡ true → (fs.inodes b).sector ≢ sector)
      → fs' ≡ (record fs {
        open_inodes = a ∷ fs.open_inodes;
        inodes = update fs.inodes a (load_inode sector (fs.device.contents sector));
        device = record fs.device { read_cnt = fs.device.read_cnt + 1 };
      })
      → OpenedAs fs a sector r fs'
  no_memory : a ≡ null → r ≡ null → fs' ≡ fs → OpenedAs fs a sector r fs'

-- What the search among the open inodes gives.
data Open (inodes : ℕ → Inode) (sector : ℕ) (listed : List ℕ) : Option ℕ → Type 0 where
  there :
      (b : ℕ)
      → has b listed ≡ true
      → (inodes b).sector ≡ sector
      → Open inodes sector listed (some b)
  nowhere :
      ((b : ℕ) → has b listed ≡ true → (inodes b).sector ≢ sector) → Open inodes sector listed none

Open-cons :
    (inodes : ℕ → Inode) (sector a : ℕ) (listed : List ℕ) (o : Option ℕ)
    → (inodes a).sector ≢ sector
    → Open inodes sector listed o
    → Open inodes sector (a ∷ listed) o
Open-cons inodes sector a listed _ ne (there b m e) = there b (ground (arith, m)) e
Open-cons inodes sector a listed _ ne (nowhere n) = nowhere (λ b m. elim (Bool-cases (a == b)) [
  | inl is ↦ let q : a ≡ b = ground (arith, is) in rw (← q) ne
  | inr other ↦ n b (ground (arith, m, other))
])

find_open-Open :
    (inodes : ℕ → Inode) (sector : ℕ) (listed : List ℕ)
    → Open inodes sector listed (find_open listed inodes sector)
unfolding find_open
find_open-Open inodes sector [] = nowhere (λ b m. cc)
find_open-Open inodes sector (a ∷ listed) = elim (Bool-cases ((inodes a).sector == sector)) [
  | inl is ↦ rw is (there a (ground arith) (ground (arith, is)))
  | inr other ↦ rw other (
      Open-cons inodes sector a listed (find_open listed inodes sector) (ground (arith, other))
        (find_open-Open inodes sector listed))
]

module _ (a sector : ℕ) (fs : FileSystem) (v : Opened fs) where
  reopened-Opened :
      (b : ℕ)
      → Opened (record fs {
        inodes =
            update fs.inodes b (record (fs.inodes b) { open_cnt = (fs.inodes b).open_cnt + 1 });
      })
  reopened-Opened b = record {
    openers = λ c m. ground (arith, v.openers c m);
    denies = λ c m. ground (arith, v.denies c m);
    single = λ c d m n e. v.single c d m n (same c ∙ e ∙ sym (same d));
    once = v.once;
    ne_null = v.ne_null;
  }
    where
      same :
          (c : ℕ)
          → (fs.inodes c).sector
            ≡ (update fs.inodes b
                (record (fs.inodes b) { open_cnt = (fs.inodes b).open_cnt + 1 })
                c).sector
      same c = ground arith

  first-Opened :
      has a fs.open_inodes ≡ false
      → a ≢ null
      → ((b : ℕ) → has b fs.open_inodes ≡ true → (fs.inodes b).sector ≢ sector)
      → Opened (record fs {
        open_inodes = a ∷ fs.open_inodes;
        inodes = update fs.inodes a (load_inode sector (fs.device.contents sector));
        device = record fs.device { read_cnt = fs.device.read_cnt + 1 };
      })
  unfolding load_inode
  first-Opened out ne n = record {
    openers = λ c m. ground (arith, m, v.openers c);
    denies = λ c m. ground (arith, m, v.denies c);
    single = λ c d p q e. ground (arith, p, q, e, v.single c d, n c, n d);
    once = (out, v.once);
    ne_null = ground (arith, ne, v.ne_null);
  }

  -- With the open inodes in order, `a` an address that malloc gave and at which no open inode stands,
  -- or NULL, and a sector of the device, `inode_open` passes its checks and leaves the open inodes
  -- in order. It gives the inode of the sector that is open, with one opener more, or else the new
  -- inode at `a`, read from the sector, or NULL with nothing changed.
  pub inode_open-Opened :
      has a fs.open_inodes ≡ false
      → sector < fs.device.size
      → (r : ℕ) × (fs' : FileSystem) × (inode_open a sector fs ≡ some (r, fs'))
        × OpenedAs fs a sector r fs'
        × Opened fs'
  unfolding inode_open inode_reopen open_new block_read
  inode_open-Opened out l =
      go (find_open fs.open_inodes fs.inodes sector) refl
        (find_open-Open fs.inodes sector fs.open_inodes)
    where
      go :
          (o : Option ℕ)
          → find_open fs.open_inodes fs.inodes sector ≡ o
          → Open fs.inodes sector fs.open_inodes o
          → (r : ℕ) × (fs' : FileSystem) × (inode_open a sector fs ≡ some (r, fs'))
            × OpenedAs fs a sector r fs'
            × Opened fs'
      go _ q (there b m e) =
          let ne : b ≢ null = λ z.
            cc (let f : true ≡ false = sym m ∙ ap (λ w. has w fs.open_inodes) z ∙ v.ne_null in f) in
          (b, _, rw (inode_open, q, ne→== b null ne) refl, again m e refl, reopened-Opened b)
      go _ q (nowhere n) = elim (Bool-cases (a == null)) [
        | inl no_room ↦ (
          null,
          fs,
          rw (inode_open, q, no_room) refl,
          no_memory (ground (arith, no_room)) refl refl,
          v,
        )
        | inr got ↦ (
          a,
          _,
          rw (inode_open, q, got, lt→ltb sector fs.device.size l) refl,
          first refl n refl,
          first-Opened out (ground (arith, got)) n,
        )
      ]

-- ===== src/Bitmap/Scan.antt =====
-- Tests and searches over ranges of bits.
use os_pint_os_project.Base.{
  ℕ, zero, suc, ◌+◌, ◌-◌, ◌≤◌, ◌<◌, Bool, true, false, not, some, leb, ◌==◌, ◌≡◌, ◌≢◌, arith, refl,
  Bool-cases, inl, inr, ◌∙◌, ==_iff, sym,
}
use os_pint_os_project.Bitmap.{
  Bitmap, bitmap_error, contains_loop, bitmap_contains, bitmap_scan, scan_loop,
  bitmap_scan_and_flip, same,
}
use os_pint_os_project.Bitmap.View.{at, Valid, bitmap_test-at, Sets, bitmap_set_multiple-Sets}

-- All the bits from `i` to `i + n` (exclusive) are `v`.
abbrev pub AllAre : Bitmap → ℕ → ℕ → Bool → Type 0
AllAre b i n v = (j : ℕ) → i ≤ j → j < i + n → at b j ≡ v

-- The answer of a search for `v` in a range.
abbrev pub Contains : Bitmap → ℕ → ℕ → Bool → Bool → Type 0
Contains b i n v true = (j : ℕ) × (i ≤ j) × (j < i + n) × (at b j ≡ v)
Contains b i n v false = AllAre b i n (not v)

same-true : (a b : Bool) → same a b ≡ true → a ≡ b
same-true true b h = sym h
same-true false true h = h
same-true false false h = refl

same-false : (a b : Bool) → same a b ≡ false → a ≡ not b
same-false true true h = cc
same-false true false h = refl
same-false false true h = refl
same-false false false h = cc

pub contains_loop-Contains :
    (n i : ℕ) (v : Bool) (b : Bitmap)
    → Valid b
    → i + n ≤ b.bit_cnt
    → (c : Bool) × (contains_loop n i v b ≡ some c) × Contains b i n v c
unfolding contains_loop
contains_loop-Contains zero i v b w h = (false, refl, λ j p q. absurd (omega arith))
contains_loop-Contains (suc n) i v b w h = elim (Bool-cases (same (at b i) v)) [
  | inl found ↦ (
    true,
    ground (arith, bitmap_test-at b i w),
    (i, omega arith, omega arith, same-true _ v found),
  )
  | inr other ↦
      let (c, runs, r) = contains_loop-Contains n (i + 1) v b w (omega arith) in
      (c, ground (arith, bitmap_test-at b i w, runs), extend c r (same-false _ v other))
]
  where
    extend : (c : Bool) → Contains b (i + 1) n v c → at b i ≡ not v → Contains b i (suc n) v c
    extend true (j, p, q, e) ne = (j, omega arith, omega arith, e)
    extend false all ne = λ j p q. elim (Bool-cases (i == j)) [
      | inl e ↦ rw (← (==_iff i j).0 e) ne
      | inr e ↦ all j (ground arith) (omega arith)
    ]

-- On a range inside the bitmap, `bitmap_contains` says whether some bit of it is `v`.
pub bitmap_contains-Contains :
    (b : Bitmap) (i n : ℕ) (v : Bool)
    → Valid b
    → i + n ≤ b.bit_cnt
    → (c : Bool) × (bitmap_contains b i n v ≡ some c) × Contains b i n v c
unfolding bitmap_contains
bitmap_contains-Contains b i n v w h =
    let (c, runs, r) = contains_loop-Contains n i v b w h in (c, ground (arith, runs, w.small), r)

-- The answer of a scan from `start` for `cnt` bits that are `v`: the first place, or none.
pub data Found (b : Bitmap) (start cnt : ℕ) (v : Bool) (r : ℕ) : Type 0 where
  first :
      start ≤ r
      → r + cnt ≤ b.bit_cnt
      → AllAre b r cnt v
      → ((s : ℕ) → start ≤ s → s < r → ¬ AllAre b s cnt v)
      → Found b start cnt v r
  nowhere :
      r ≡ bitmap_error
      → ((s : ℕ) → start ≤ s → s + cnt ≤ b.bit_cnt → ¬ AllAre b s cnt v)
      → Found b start cnt v r

not_all : (b : Bitmap) (i n : ℕ) (v : Bool) → Contains b i n (not v) true → ¬ AllAre b i n v
not_all b i n v (j, p, q, e) all = not_both v (sym (all j p q) ∙ e)
  where
    not_both : (v : Bool) → v ≡ not v → ⊥
    not_both true h = cc
    not_both false h = cc

not-not : (v : Bool) → not (not v) ≡ v
not-not true = refl
not-not false = refl

-- A place that fails is passed.
pass :
    {b : Bitmap} {i cnt : ℕ} {v : Bool} {r : ℕ}
    → ¬ AllAre b i cnt v
    → Found b (i + 1) cnt v r
    → Found b i cnt v r
pass {b} {i} {cnt} {v} no_here (first lo hi all before) = first (omega arith) hi all (λ s p q all_s.
    elim (Bool-cases (i == s)) [
      | inl e ↦ no_here (rw ((==_iff i s).0 e) all_s)
      | inr e ↦ before s (ground arith) q all_s
    ])
pass {b} {i} {cnt} {v} no_here (nowhere e none_later) = nowhere e (λ s p q all_s.
    elim (Bool-cases (i == s)) [
      | inl e ↦ no_here (rw ((==_iff i s).0 e) all_s)
      | inr e ↦ none_later s (ground arith) q all_s
    ])

scan_loop-Found :
    (n i cnt : ℕ) (v : Bool) (b : Bitmap)
    → Valid b
    → b.bit_cnt + 1 ≤ i + n + cnt
    → (0 < n → i + n + cnt ≤ b.bit_cnt + 1)
    → (r : ℕ) × (scan_loop n i cnt v b ≡ some r) × Found b i cnt v r
unfolding scan_loop
scan_loop-Found zero i cnt v b w lo hi =
    (bitmap_error, refl, nowhere refl (λ s p q. absurd (omega arith)))
scan_loop-Found (suc n) i cnt v b w lo hi =
    let (c, runs, r) = bitmap_contains-Contains b i cnt (not v) w (omega arith) in
    let (r', runs', f) = scan_loop-Found n (i + 1) cnt v b w (omega arith) (λ h. omega arith) in
    decide c runs r r' runs' f
  where
    decide :
        (c : Bool)
        → bitmap_contains b i cnt (not v) ≡ some c
        → Contains b i cnt (not v) c
        → (r' : ℕ) → scan_loop n (i + 1) cnt v b ≡ some r'
        → Found b (i + 1) cnt v r'
        → (r : ℕ) × (scan_loop (suc n) i cnt v b ≡ some r) × Found b i cnt v r
    decide true runs r r' runs' f = (r', ground arith, pass (not_all b i cnt v r) f)
    decide false runs r r' runs' f = (
      i,
      ground arith,
      first (omega arith) (omega arith) (λ j p q. r j p q ∙ not-not v)
          (λ s p q. absurd (omega arith)),
    )

-- From a `start` inside the bitmap, `bitmap_scan` ends with no failed assertion. It gives the first
-- place at or after `start` where `cnt` bits in a row are `v` and lie in the bitmap, or BITMAP_ERROR
-- if there is no such place.
pub bitmap_scan-Found :
    (b : Bitmap) (start cnt : ℕ) (v : Bool)
    → Valid b
    → start ≤ b.bit_cnt
    → (r : ℕ) × (bitmap_scan b start cnt v ≡ some r) × Found b start cnt v r
unfolding bitmap_scan
bitmap_scan-Found b start cnt v w h = elim (Bool-cases (leb cnt b.bit_cnt)) [
  | inl fits ↦
      let (r, runs, f) =
        scan_loop-Found (b.bit_cnt - cnt + 1 - start) start cnt v b w (ground arith)
          (λ p. ground arith) in
      (r, ground arith, f)
  | inr big ↦ (bitmap_error, ground arith, nowhere refl (λ s p q. absurd (ground arith)))
]

-- A scan that flips what it finds: the first group of `cnt` bits that are `v`, and only its bits,
-- become `not v`; or there is no group, and the bitmap is as it was.
pub data Claimed (b : Bitmap) (start cnt : ℕ) (v : Bool) (b' : Bitmap) (r : ℕ) : Type 0 where
  claimed :
      r ≢ bitmap_error
      → start ≤ r
      → r + cnt ≤ b.bit_cnt
      → AllAre b r cnt v
      → ((s : ℕ) → start ≤ s → s < r → ¬ AllAre b s cnt v)
      → Sets b r cnt (not v) b'
      → Claimed b start cnt v b' r
  full :
      r ≡ bitmap_error
      → ((s : ℕ) → start ≤ s → s + cnt ≤ b.bit_cnt → ¬ AllAre b s cnt v)
      → b' ≡ b
      → Claimed b start cnt v b' r

pub bitmap_scan_and_flip-Claimed :
    (b : Bitmap) (start cnt : ℕ) (v : Bool)
    → Valid b
    → start ≤ b.bit_cnt
    → (b' : Bitmap) × (r : ℕ) × (bitmap_scan_and_flip b start cnt v ≡ some (b', r))
      × Claimed b start cnt v b' r
unfolding bitmap_scan_and_flip
bitmap_scan_and_flip-Claimed b start cnt v w h =
    let (r, runs, f) = bitmap_scan-Found b start cnt v w h in flip r runs f
  where
    flip :
        (r : ℕ)
        → bitmap_scan b start cnt v ≡ some r
        → Found b start cnt v r
        → (b' : Bitmap) × (r' : ℕ) × (bitmap_scan_and_flip b start cnt v ≡ some (b', r'))
          × Claimed b start cnt v b' r'
    flip r runs (first lo hi all before) =
        let (b', sets, s) = bitmap_set_multiple-Sets b r cnt (not v) w hi in
        (b', r, ground (arith, w.small), claimed (λ e. omega (arith, w.small)) lo hi all before s)
    flip r runs (nowhere e none_there) = (b, r, ground arith, full e none_there refl)

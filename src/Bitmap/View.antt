-- ===== src/Bitmap/View.antt =====
-- A bitmap as a function from bit numbers to Booleans: each operation against that view.
use Prim.Native.Nat.{bit_and, bit_or}
use os_pint_os_project.Base.{
  ℕ, zero, suc, ◌+◌, ◌-◌, ◌*◌, ◌/◌, ◌%◌, ◌^◌, ◌≤◌, ◌<◌, Bool, true, false, not, ◌&&◌, some, List,
  [], ◌∷◌, ltb, leb, ◌==◌, if◌then◌else◌, length, get_elem?, get_or, set, ◌≡◌, arith, refl,
  length-set, get_or-set_self, get_or-set_ne, Bool-cases, inl, inr, ◌∙◌, ==_iff,
}
use os_pint_os_project.Base.Bits.{
  bit, bit-lt, bit-or, bit-and, bit-pow, bit-not_pow, and-pow_eq_zero,
}
use os_pint_os_project.Bitmap.{
  Bitmap, bitmap_error, change, bitmap_set, bitmap_mark, bitmap_reset, bitmap_test, set_loop,
  bitmap_set_multiple,
}

-- Bit `i` of the bitmap.
unfoldable pub at : Bitmap → ℕ → Bool
at b i = not (bit (get_or b.bits (i / 32) 0) (i % 32) == 0)

-- There are elements for all the bits, and the their number is below BITMAP_ERROR.
pub record Valid (b : Bitmap) : Type 0 where
  pub room : b.bit_cnt ≤ 32 * length b.bits
  pub small : b.bit_cnt < bitmap_error

get_elem?-lt : (xs : List ℕ) (i : ℕ) → i < length xs → get_elem? xs i ≡ some (get_or xs i 0)
get_elem?-lt [] i h = absurd (omega arith)
get_elem?-lt (x ∷ xs) zero h = refl
get_elem?-lt (x ∷ xs) (suc i) h = get_elem?-lt xs i (omega arith)

-- `bitmap_test` reads the bit.
pub bitmap_test-at :
    (b : Bitmap) (i : ℕ) → Valid b → i < b.bit_cnt → bitmap_test b i ≡ some (at b i)
unfolding bitmap_test at
bitmap_test-at b i v h = ground (
  arith,
  v.room,
  get_elem?-lt b.bits (i / 32) (omega (arith, v.room)),
  and-pow_eq_zero (i % 32) (get_or b.bits (i / 32) 0),
)

-- After bits `i` to `i + n` (exclusive) are set to `v`.
pub record Sets (b : Bitmap) (i n : ℕ) (v : Bool) (b' : Bitmap) : Type 0 where
  pub valid : Valid b'
  pub same_cnt : b'.bit_cnt ≡ b.bit_cnt
  pub bits : (j : ℕ) → at b' j ≡ (if leb i j && ltb j (i + n) then v else at b j)

-- A change of one element that sets bit `i % 32` to `v` and leaves the other bits.
module _ (b : Bitmap) (i : ℕ) (v : Bool) (f : ℕ → ℕ)
    (sets : (e j : ℕ)
      → j < 32
      → bit (f e) j ≡ (if i % 32 == j then (if v then 1 else 0) else bit e j)) where
  changed : Bitmap
  changed = record b { bits = set b.bits (i / 32) (f (get_or b.bits (i / 32) 0)) }

  change-changed : i / 32 < length b.bits → change b (i / 32) f ≡ some changed
  unfolding change changed
  change-changed h = ground (arith, get_elem?-lt b.bits (i / 32) h)

  at-changed : i / 32 < length b.bits → (j : ℕ) → at changed j ≡ (if i == j then v else at b j)
  unfolding at changed
  at-changed h j = elim (Bool-cases (i / 32 == j / 32)) [
    | inl e ↦
        let idx : i / 32 ≡ j / 32 = (==_iff _ _).0 e in
        let read : get_or changed.bits (j / 32) 0 ≡ f (get_or b.bits (j / 32) 0) =
          rw (← idx) (get_or-set_self b.bits (i / 32) (f (get_or b.bits (i / 32) 0)) 0 h) in
        ground (arith, read, sets (get_or b.bits (j / 32) 0) (j % 32) (omega arith))
    | inr ne ↦
        let read : get_or changed.bits (j / 32) 0 ≡ get_or b.bits (j / 32) 0 =
          get_or-set_ne b.bits (i / 32) (j / 32) (f (get_or b.bits (i / 32) 0)) 0
            (λ e. ground arith) in
        ground (arith, read)
  ]

  changed-Sets : Valid b → i < b.bit_cnt → Sets b i 1 v changed
  unfolding changed
  changed-Sets w h = record {
    valid = record {
      room = omega (arith, w.room, length-set b.bits (i / 32) (f (get_or b.bits (i / 32) 0)));
      small = w.small;
    };
    same_cnt = refl;
    bits = λ j. ground (arith, at-changed (omega (arith, w.room)) j);
  }

or_sets : (m e j : ℕ) → j < 32 → bit (bit_or e (2 ^ m)) j ≡ (if m == j then 1 else bit e j)
or_sets m e j h = ground (arith, bit-or j e (2 ^ m), bit-pow m j, bit-lt e j)

and_resets :
    (m e j : ℕ)
    → m < 32
    → j < 32
    → bit (bit_and e (2 ^ 32 - 1 - 2 ^ m)) j ≡ (if m == j then 0 else bit e j)
and_resets m e j g h =
    ground (arith, bit-and j e (2 ^ 32 - 1 - 2 ^ m), bit-not_pow 32 m j g h, bit-lt e j)

-- `bitmap_set` sets bit `i` to `v`, and no other.
pub bitmap_set-Sets :
    (b : Bitmap) (i : ℕ) (v : Bool)
    → Valid b
    → i < b.bit_cnt
    → (b' : Bitmap) × (bitmap_set b i v ≡ some b') × Sets b i 1 v b'
unfolding bitmap_set bitmap_mark bitmap_reset
bitmap_set-Sets b i true w h =
    let f = λ (e : ℕ). bit_or e (2 ^ (i % 32)) in
    let sets = λ (e j : ℕ) (g : j < 32). or_sets (i % 32) e j g in
    (
      changed b i true f sets,
      ground (arith, change-changed b i true f sets (omega (arith, w.room))),
      changed-Sets b i true f sets w h,
    )
bitmap_set-Sets b i false w h =
    let f = λ (e : ℕ). bit_and e (2 ^ 32 - 1 - 2 ^ (i % 32)) in
    let sets = λ (e j : ℕ) (g : j < 32). and_resets (i % 32) e j (omega arith) g in
    (
      changed b i false f sets,
      ground (arith, change-changed b i false f sets (omega (arith, w.room))),
      changed-Sets b i false f sets w h,
    )

-- The loop sets a range of bits.
pub set_loop-Sets :
    (n i : ℕ) (v : Bool) (b : Bitmap)
    → Valid b
    → i + n ≤ b.bit_cnt
    → (b' : Bitmap) × (set_loop n i v b ≡ some b') × Sets b i n v b'
unfolding set_loop
set_loop-Sets zero i v b w h =
    (b, refl, record { valid = w; same_cnt = refl; bits = λ j. ground arith })
set_loop-Sets (suc n) i v b w h =
    let (b1, runs, one) = bitmap_set-Sets b i v w (omega arith) in
    let (b2, runs2, others) =
      set_loop-Sets n (i + 1) v b1 one.valid (omega (arith, one.same_cnt)) in
    (
      b2,
      ground (arith, runs, runs2),
      record {
        valid = others.valid;
        same_cnt = others.same_cnt ∙ one.same_cnt;
        bits = λ j. ground (arith, others.bits j, one.bits j);
      },
    )

-- On a range inside the bitmap `bitmap_set_multiple` sets its bits to `v`, and no other.
pub bitmap_set_multiple-Sets :
    (b : Bitmap) (start cnt : ℕ) (v : Bool)
    → Valid b
    → start + cnt ≤ b.bit_cnt
    → (b' : Bitmap) × (bitmap_set_multiple b start cnt v ≡ some b') × Sets b start cnt v b'
unfolding bitmap_set_multiple
bitmap_set_multiple-Sets b start cnt v w h =
    let (b', runs, s) = set_loop-Sets cnt start v b w h in (b', ground (arith, runs, w.small), s)

-- ===== src/Bitmap/Ranges.antt =====
-- Ranges of bits that are set and cleared again.
use os_pint_os_project.Base.{ℕ, ◌+◌, ◌≤◌, Bool, true, false, some, ◌≡◌, arith, refl, ◌∙◌, sym}
use os_pint_os_project.Bitmap.{Bitmap, bitmap_all}
use os_pint_os_project.Bitmap.View.{at, Valid, Sets}
use os_pint_os_project.Bitmap.Scan.{AllAre, Contains, bitmap_contains-Contains}

-- Free bits that are marked and then cleared are free again, and nothing else has changed.
pub Sets-back :
    {b b1 b2 : Bitmap} {s cnt : ℕ}
    → AllAre b s cnt false
    → Sets b s cnt true b1
    → Sets b1 s cnt false b2
    → (j : ℕ) → at b2 j ≡ at b j
Sets-back were_free one two j = ground (arith, one.bits j, two.bits j, were_free j)

pub all_used :
    (b : Bitmap) (start cnt : ℕ) (c : Bool)
    → Contains b start cnt false c
    → AllAre b start cnt true
    → c ≡ false
all_used b start cnt true (j, p, q, e) all = cc (let f : true ≡ false = sym (all j p q) ∙ e in f)
all_used b start cnt false r all = refl

-- `bitmap_all` on a range inside the bitmap whose bits are all set.
pub bitmap_all-true :
    (b : Bitmap) (start cnt : ℕ)
    → Valid b
    → start + cnt ≤ b.bit_cnt
    → AllAre b start cnt true
    → bitmap_all b start cnt ≡ some true
unfolding bitmap_all
bitmap_all-true b start cnt w h all =
    let (c, runs, r) = bitmap_contains-Contains b start cnt false w h in
    rw (runs, all_used b start cnt c r all) refl

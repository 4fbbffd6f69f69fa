-- ===== src/Stdio/Bounds.antt =====
-- The digits of a number stay inside the buffer of format_integer.
use os_pint_os_project.Base.{
  ℕ, zero, suc, ◌+◌, ◌*◌, ◌/◌, ◌%◌, ◌^◌, ◌<◌, ◌≤◌, Bool, true, false, not, ◌&&◌, Option, some, List,
  [], ◌∷◌, length, get_or, ltb, ◌==◌, if◌then◌else◌, ◌≡◌, ◌⊎◌, inl, inr, arith, refl, ap,
  Bool-cases, lt→ltb,
}
use native.Mathlib.Nat.{pow-suc}
use os_pint_os_project.Base.Check.{◌>>=◌}
use os_pint_os_project.Stdio.{
  IntegerBase, Conversion, Buffer, push, digit_loop, zeros_loop, fill_buffer, format_integer,
  rendered, no_zero, lay_out, sign_of,
}

-- The bases of the conversions.
abbrev pub Usual : IntegerBase → Type 0
Usual b = (b.base ≡ 8) ⊎ ((b.base ≡ 10) ⊎ (b.base ≡ 16))

pub push_lem : (c : ℕ) (buf : Buffer) → length buf < 64 → push c buf ≡ some (c ∷ buf)
unfolding push
push_lem c buf h = rw (lt→ltb (length buf) 64 h)

quotient_lt : (b : IntegerBase) (value p : ℕ) → Usual b → value < 8 * p → value / b.base < p
quotient_lt b value p (inl e) h = rw e (omega arith)
quotient_lt b value p (inr (inl e)) h = rw e (omega arith)
quotient_lt b value p (inr (inr e)) h = rw e (omega arith)

maybe_push :
    (t : Bool) (c : ℕ) (buf : Buffer)
    → length buf < 64
    → (buf1 : Buffer) × ((if t then push c buf else some buf) ≡ some buf1)
      × (length buf ≤ length buf1)
      × (length buf1 ≤ length buf + 1)
maybe_push true c buf h = (c ∷ buf, push_lem c buf h, omega arith, omega arith)
maybe_push false c buf h = (buf, refl, omega arith, omega arith)

-- A number below 8 ^ k takes at most `k` rounds, each of which stores a digit and perhaps a comma.
digit_loop-fits :
    (n k : ℕ) (b : IntegerBase) (g : Bool) (value digit_cnt : ℕ) (buf : Buffer)
    → Usual b
    → value < 8 ^ k
    → k < n
    → length buf ≤ 2 * digit_cnt
    → digit_cnt + k ≤ 22
    → (buf' : Buffer) × (digit_loop n b g value digit_cnt buf ≡ some buf') × (length buf' ≤ 44)
unfolding digit_loop
digit_loop-fits zero k b g value digit_cnt buf u h fuel room few = absurd (omega arith)
digit_loop-fits (suc n) zero b g value digit_cnt buf u h fuel room few =
    let is : (value == 0) ≡ true = ground arith in (buf, rw is refl, omega arith)
digit_loop-fits (suc n) (suc k) b g value digit_cnt buf u h fuel room few =
    elim (Bool-cases (value == 0)) [
      | inl is ↦ (buf, rw is refl, omega arith)
      | inr more ↦
          let (buf1, comma, _, le) =
            maybe_push (g && (ltb 0 digit_cnt && (digit_cnt % b.group == 0))) b',' buf
              (omega arith) in
          let digit = get_or b.digits (value % b.base) 0 in
          let (buf', runs, short) =
            digit_loop-fits n k b g (value / b.base) (digit_cnt + 1) (digit ∷ buf1) u
              (quotient_lt b value (8 ^ k) u (omega (arith, pow-suc 8 k))) (omega arith)
              (omega arith) (omega arith) in
          (buf', rw (more, comma, push_lem digit buf1 (omega arith)) runs, short)
    ]

-- The zeros leave one place free.
zeros_loop-fits :
    (n precision : ℕ) (buf : Buffer)
    → length buf ≤ 63
    → 63 < length buf + n
    → (buf' : Buffer) × (zeros_loop n precision buf ≡ some buf') × (length buf' ≤ 63)
unfolding zeros_loop
zeros_loop-fits zero precision buf h fuel = absurd (omega arith)
zeros_loop-fits (suc n) precision buf h fuel =
    elim (Bool-cases (ltb (length buf) precision && ltb (length buf) 63)) [
      | inl more ↦
          let room : length buf < 63 = ground (arith, more) in
          let (buf', runs, short) =
            zeros_loop-fits n precision (b'0' ∷ buf) (omega arith) (omega arith) in
          (buf', rw (more, push_lem b'0' buf (omega arith)) runs, short)
      | inr ends ↦ (buf, rw ends refl, h)
    ]

-- Whatever the width, the precision and the flags, a number of 64 bits in base 8, 10 or 16 is
-- formatted with no write outside the 64 bytes of the buffer: the loops end, and at most 64
-- characters are stored.
pub format_integer-fits :
    (value : ℕ) (is_signed negative : Bool) (b : IntegerBase) (c : Conversion)
    → value < 2 ^ 64
    → Usual b
    → (buf : Buffer) × (out : List ℕ) × (fill_buffer value b c ≡ some buf)
      × (length buf ≤ 64)
      × (format_integer value is_signed negative b c ≡ some out)
unfolding format_integer fill_buffer
format_integer-fits value is_signed negative b c h u =
    let (buf1, digits, short1) =
      digit_loop-fits 65 22 b c.flags.group value 0 [] u (omega arith) (omega arith) (omega arith)
        (omega arith) in
    let (buf2, zeros, short2) =
      zeros_loop-fits 65 (rendered c.precision) buf1 (omega arith) (omega arith) in
    let (buf3, octal, _, le) =
      maybe_push (c.flags.pound && ((b.base == 8) && no_zero buf2)) b'0' buf2 (omega arith) in
    let fills : fill_buffer value b c ≡ some buf3 = rw (digits, zeros) octal in
    (
      buf3,
      lay_out (sign_of is_signed negative c.flags)
          (if c.flags.pound && not (value == 0) then b.x else 0) c buf3,
      fills,
      omega arith,
      ap (λ o. o >>= layout) fills,
    )
  where
    layout : Buffer → Option (List ℕ)
    layout buf = some (
        lay_out (sign_of is_signed negative c.flags)
          (if c.flags.pound && not (value == 0) then b.x else 0) c buf)

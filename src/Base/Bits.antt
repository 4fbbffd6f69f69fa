-- ===== src/Base/Bits.antt =====
-- `|`, `&` and `^` of words, one bit at a time. `bit e j` is bit `j` of `e`.
use Prim.Native.Nat.{
  ℕ, zero, suc, ◌+◌, ◌-◌, ◌*◌, ◌/◌, ◌%◌, ◌^◌, ◌≤◌, ◌<◌, min, max, bit_and, bit_or, bit_xor, digits,
  bitwise, differ, bit_and-bitwise, bit_or-bitwise, bit_xor-bitwise,
}
use mathlib.Core.Path.{◌≡◌, refl, ap, ◌∙◌}
use native.Mathlib.Omega.{arith}
use native.Mathlib.Nat.{pow-suc}
use mathlib.Core.WellFounded
use os_pint_os_project.Base.Order.{lt_wf}
use mathlib.Core.Logic.{inl, inr}
use os_pint_os_project.Base.Tests.{◌==◌, if◌then◌else◌, Bool-cases}

unfoldable pub bit : ℕ → ℕ → ℕ
bit e zero = e % 2
bit e (suc j) = bit (e / 2) j

-- The three operations are one recursion on the digits, with `z` for the rest of the second number
-- once the first has run out.
module _ (z : ℕ → ℕ) (f : ℕ → ℕ → ℕ) where
  digits_enough : (n m a b : ℕ) → a ≤ n → a ≤ m → digits z f n a b ≡ digits z f m a b
  digits_enough zero zero zero b p q = refl
  digits_enough zero (suc m) zero b p q = refl
  digits_enough (suc n) zero zero b p q = refl
  digits_enough (suc n) (suc m) zero b p q = refl
  digits_enough zero m (suc a) b p q = absurd (omega arith)
  digits_enough (suc n) zero (suc a) b p q = absurd (omega arith)
  digits_enough (suc n) (suc m) (suc a) b p q =
      ap (λ d. d * 2 + f (suc a % 2) (b % 2))
        (digits_enough n m (suc a / 2) (b / 2) (omega arith) (omega arith))

  bitwise_step :
      ((b : ℕ) → z b ≡ z (b / 2) * 2 + f 0 (b % 2))
      → (a b : ℕ) → bitwise z f a b ≡ bitwise z f (a / 2) (b / 2) * 2 + f (a % 2) (b % 2)
  bitwise_step base zero b = base b
  bitwise_step base (suc a) b =
      ap (λ d. d * 2 + f (suc a % 2) (b % 2))
        (digits_enough a (suc a / 2) (suc a / 2) (b / 2) (omega arith) (omega arith))

or_step : (a b : ℕ) → bit_or a b ≡ bit_or (a / 2) (b / 2) * 2 + max (a % 2) (b % 2)
or_step a b = omega (
  arith,
  bit_or-bitwise a b,
  bit_or-bitwise (a / 2) (b / 2),
  bitwise_step (λ b. b) max (λ b. omega arith) a b,
)

and_step : (a b : ℕ) → bit_and a b ≡ bit_and (a / 2) (b / 2) * 2 + min (a % 2) (b % 2)
and_step a b = omega (
  arith,
  bit_and-bitwise a b,
  bit_and-bitwise (a / 2) (b / 2),
  bitwise_step (λ b. 0) min (λ b. omega arith) a b,
)

digit_cases : (b : ℕ) → (b % 2) ≡ differ 0 (b % 2)
digit_cases b = refl

xor_step : (a b : ℕ) → bit_xor a b ≡ bit_xor (a / 2) (b / 2) * 2 + differ (a % 2) (b % 2)
xor_step a b = omega (
  arith,
  bit_xor-bitwise a b,
  bit_xor-bitwise (a / 2) (b / 2),
  bitwise_step (λ b. b) differ (λ b. omega (arith, digit_cases b)) a b,
)

differ_lt : (a b : ℕ) → a < 2 → b < 2 → differ a b < 2
differ_lt zero b p q = q
differ_lt (suc a) zero p q = p
differ_lt (suc a) (suc b) p q = differ_lt a b (omega arith) (omega arith)

pub bit-lt : (e j : ℕ) → bit e j < 2
unfolding bit
bit-lt e zero = omega arith
bit-lt e (suc j) = bit-lt (e / 2) j

pub bit-or : (j a b : ℕ) → bit (bit_or a b) j ≡ max (bit a j) (bit b j)
unfolding bit
bit-or zero a b = omega (arith, or_step a b)
bit-or (suc j) a b = ap (λ e. bit e j) (omega (arith, or_step a b)) ∙ bit-or j (a / 2) (b / 2)

pub bit-and : (j a b : ℕ) → bit (bit_and a b) j ≡ min (bit a j) (bit b j)
unfolding bit
bit-and zero a b = omega (arith, and_step a b)
bit-and (suc j) a b = ap (λ e. bit e j) (omega (arith, and_step a b)) ∙ bit-and j (a / 2) (b / 2)

pub bit-xor : (j a b : ℕ) → bit (bit_xor a b) j ≡ differ (bit a j) (bit b j)
unfolding bit
bit-xor zero a b =
    omega (arith, xor_step a b, differ_lt (a % 2) (b % 2) (omega arith) (omega arith))
bit-xor (suc j) a b =
    ap (λ e. bit e j)
      (omega (arith, xor_step a b, differ_lt (a % 2) (b % 2) (omega arith) (omega arith)))
    ∙ bit-xor j (a / 2) (b / 2)

zero-bit : (j : ℕ) → bit 0 j ≡ 0
unfolding bit
zero-bit zero = refl
zero-bit (suc j) = zero-bit j

one_le_pow : (i : ℕ) → 1 ≤ 2 ^ i
one_le_pow zero = omega arith
one_le_pow (suc i) = omega (arith, pow-suc 2 i, one_le_pow i)

pow_mono_lt : (i w : ℕ) → i < w → 2 ^ i < 2 ^ w
pow_mono_lt i zero h = absurd (omega arith)
pow_mono_lt zero (suc w) h = omega (arith, pow-suc 2 w, one_le_pow w)
pow_mono_lt (suc i) (suc w) h =
    omega (arith, pow-suc 2 w, pow-suc 2 i, pow_mono_lt i w (omega arith))

-- The mask of one bit.
pub bit-pow : (i j : ℕ) → bit (2 ^ i) j ≡ (if i == j then 1 else 0)
unfolding bit
bit-pow zero zero = refl
bit-pow zero (suc j) = ground (arith, zero-bit j)
bit-pow (suc i) zero = ground (arith, pow-suc 2 i)
bit-pow (suc i) (suc j) =
    let half : 2 ^ suc i / 2 ≡ 2 ^ i = omega (arith, pow-suc 2 i) in
    ap (λ e. bit e j) half ∙ ground (arith, bit-pow i j)

ones : (w j : ℕ) → j < w → bit (2 ^ w - 1) j ≡ 1
unfolding bit
ones zero j h = absurd (omega arith)
ones (suc w) zero h = omega (arith, pow-suc 2 w, one_le_pow w)
ones (suc w) (suc j) h =
    ap (λ e. bit e j) (omega (arith, pow-suc 2 w, one_le_pow w)) ∙ ones w j (omega arith)

-- The complement of that mask in a word of `w` bits.
pub bit-not_pow :
    (w i j : ℕ) → i < w → j < w → bit (2 ^ w - 1 - 2 ^ i) j ≡ (if i == j then 0 else 1)
unfolding bit
bit-not_pow zero i j h g = absurd (omega arith)
bit-not_pow (suc w) zero zero h g = omega (arith, pow-suc 2 w, one_le_pow w)
bit-not_pow (suc w) zero (suc j) h g =
    let half : (2 ^ suc w - 1 - 2 ^ zero) / 2 ≡ 2 ^ w - 1 =
      omega (arith, pow-suc 2 w, one_le_pow w) in
    ap (λ e. bit e j) half ∙ ground (arith, ones w j)
bit-not_pow (suc w) (suc i) zero h g =
    ground (arith, pow-suc 2 w, pow-suc 2 i, pow_mono_lt i w (omega arith))
bit-not_pow (suc w) (suc i) (suc j) h g =
    let half : (2 ^ suc w - 1 - 2 ^ suc i) / 2 ≡ 2 ^ w - 1 - 2 ^ i =
      omega (arith, pow-suc 2 w, pow-suc 2 i, pow_mono_lt i w (omega arith)) in
    ap (λ e. bit e j) half ∙ ground (arith, bit-not_pow w i j)

and-zero : (e : ℕ) → bit_and e 0 ≡ 0
and-zero e =
    WellFounded.induction lt_wf {C = λ n. bit_and n 0 ≡ 0} e
      λ n ih. ground (arith, and_step n 0, ih (n / 2))

-- The test of one bit.
pub and-pow_eq_zero : (j e : ℕ) → (bit_and e (2 ^ j) == 0) ≡ (bit e j == 0)
unfolding bit
and-pow_eq_zero zero e = ground (arith, and_step e 1, and-zero (e / 2))
and-pow_eq_zero (suc j) e =
    ground (arith, pow-suc 2 j, and_step e (2 ^ suc j), and-pow_eq_zero j (e / 2))

-- `&` is at most its second number.
bit_and-le_fuel : (n a b : ℕ) → b ≤ n → bit_and a b ≤ b
bit_and-le_fuel zero a b h =
    let none_left : b ≡ 0 = omega arith in rw none_left (omega (arith, and-zero a))
bit_and-le_fuel (suc n) a b h = elim (Bool-cases (b == 0)) [
  | inl none_left ↦ let e : b ≡ 0 = ground (arith, none_left) in rw e (omega (arith, and-zero a))
  | inr some_left ↦
      let p : 0 < b = ground (arith, some_left) in
      omega (arith, and_step a b, bit_and-le_fuel n (a / 2) (b / 2) (omega arith))
]

pub bit_and-le : (a b : ℕ) → bit_and a b ≤ b
bit_and-le a b = bit_and-le_fuel b a b (omega arith)

pub bit_xor-lt : (w a b : ℕ) → a < 2 ^ w → b < 2 ^ w → bit_xor a b < 2 ^ w
bit_xor-lt zero a b p q =
    let e : a ≡ 0 = omega arith in let f : b ≡ 0 = omega arith in rw (e, f) (omega arith)
bit_xor-lt (suc w) a b p q = omega (
  arith,
  pow-suc 2 w,
  xor_step a b,
  differ_lt (a % 2) (b % 2) (omega arith) (omega arith),
  bit_xor-lt w (a / 2) (b / 2) (omega (arith, pow-suc 2 w)) (omega (arith, pow-suc 2 w)),
)

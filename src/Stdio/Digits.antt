-- ===== src/Stdio/Digits.antt =====
-- A number printed in base 10 is read back.
use os_pint_os_project.Base.{
  ℕ, zero, suc, ◌+◌, ◌-◌, ◌*◌, ◌/◌, ◌%◌, ◌^◌, ◌<◌, ◌≤◌, true, false, some, List, [], ◌∷◌, length,
  get_or, leb, ◌==◌, ◌≡◌, ◌⊎◌, inl, inr, arith, refl, ap, ◌∙◌, Bool-cases, le→leb,
}
use native.Mathlib.Nat.{pow-suc}
use os_pint_os_project.Stdlib.Atoi.{is_digit, value_loop}
use os_pint_os_project.Stdio.{Buffer, base_d, digit_loop}
use os_pint_os_project.Stdio.Bounds.{push_lem}

-- All characters are digits.
abbrev pub Digits : List ℕ → Type 0
Digits [] = Unit {0}
Digits (c ∷ s) = (is_digit c ≡ true) × Digits s

-- The number that digits continue.
abbrev pub number : ℕ → List ℕ → ℕ
number m [] = m
number m (c ∷ s) = number (m * 10 + (c - 48)) s

number-le : (m : ℕ) (s : List ℕ) → m ≤ number m s
number-le m [] = omega arith
number-le m (c ∷ s) = omega (arith, number-le (m * 10 + (c - 48)) s)

pub value_loop-number :
    (s : List ℕ) (m : ℕ) → Digits s → number m s ≤ 2 ^ 31 → value_loop s m ≡ some (number m s)
unfolding value_loop
value_loop-number [] m d h = refl
value_loop-number (c ∷ s) m (is, d) h =
    let below : leb (m * 10 + (c - 48)) (2 ^ 31) ≡ true =
      le→leb (m * 10 + (c - 48)) (2 ^ 31) (omega (arith, number-le (m * 10 + (c - 48)) s)) in
    rw (is, below) (value_loop-number s (m * 10 + (c - 48)) d h)

digit_at : (d : ℕ) → d < 10 → get_or base_d.digits d 0 ≡ 48 + d
digit_at zero h = refl
digit_at (suc zero) h = refl
digit_at (suc (suc zero)) h = refl
digit_at (suc (suc (suc zero))) h = refl
digit_at (suc (suc (suc (suc zero)))) h = refl
digit_at (suc (suc (suc (suc (suc zero))))) h = refl
digit_at (suc (suc (suc (suc (suc (suc zero)))))) h = refl
digit_at (suc (suc (suc (suc (suc (suc (suc zero))))))) h = refl
digit_at (suc (suc (suc (suc (suc (suc (suc (suc zero)))))))) h = refl
digit_at (suc (suc (suc (suc (suc (suc (suc (suc (suc zero))))))))) h = refl
digit_at (suc (suc (suc (suc (suc (suc (suc (suc (suc (suc d)))))))))) h = absurd (omega arith)

-- The digits are those of the value, in front of the digits that are there.
pub digit_loop-number :
    (n k value digit_cnt : ℕ) (buf : Buffer)
    → value < 10 ^ k
    → k < n
    → length buf + k ≤ 64
    → Digits buf
    → (buf' : Buffer) × (digit_loop n base_d false value digit_cnt buf ≡ some buf')
      × Digits buf'
      × (number 0 buf' ≡ number value buf)
      × (length buf ≤ length buf')
      × ((value ≡ 0) ⊎ (1 ≤ length buf'))
unfolding digit_loop
digit_loop-number zero k value digit_cnt buf h fuel room d = absurd (omega arith)
digit_loop-number (suc n) zero value digit_cnt buf h fuel room d =
    let is : value ≡ 0 = omega arith in (buf, rw is refl, d, rw is refl, omega arith, inl is)
digit_loop-number (suc n) (suc k) value digit_cnt buf h fuel room d =
    elim (Bool-cases (value == 0)) [
      | inl is ↦
          let z : value ≡ 0 = ground (arith, is) in
          (buf, rw is refl, d, rw z refl, omega arith, inl z)
      | inr more ↦
          let e = digit_at (value % 10) (omega arith) in
          let c = get_or base_d.digits (value % 10) 0 in
          let is : is_digit c ≡ true = ground (arith, e) in
          let (buf', runs, d', num, le, _) =
            digit_loop-number n k (value / 10) (digit_cnt + 1) (c ∷ buf)
              (omega (arith, pow-suc 10 k)) (omega arith) (omega arith) (is, d) in
          (
            buf',
            rw (more, push_lem c buf (omega arith)) runs,
            d',
            num ∙ ap (λ v. number v buf) (omega (arith, e)),
            omega arith,
            inr (omega arith),
          )
    ]

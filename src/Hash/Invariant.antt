-- ===== src/Hash/Invariant.antt =====
-- What holds of a table between operations.
use os_pint_os_project.Base.{
  ℕ, zero, suc, ◌+◌, ◌-◌, ◌/◌, ◌<◌, ◌≤◌, Bool, true, false, List, [], length, ltb, ◌==◌,
  if◌then◌else◌, update, ◌≡◌, inl, inr, arith, refl, Bool-cases,
}
use os_pint_os_project.Base.Bits.{bit_and-le}
use os_pint_os_project.Base.Members.{has, Nodup}
use os_pint_os_project.Hash.{
  Hash, is_power_of_2, turn_off_least_1bit, power_loop, new_bucket_cnt, bucket_idx,
}

-- The number of elements in the first `n` buckets.
abbrev pub total : ℕ → (ℕ → List ℕ) → ℕ
total zero b = 0
total (suc n) b = length (b n) + total n b

-- The order of the table compares keys, and elements with the same key have the same hash value.
pub record Keyed (hash : ℕ → ℕ) (less : ℕ → ℕ → Bool) (key : ℕ → ℕ) : Type 0 where
  pub by_key : (a b : ℕ) → less a b ≡ ltb (key a) (key b)
  pub same_hash : (a b : ℕ) → key a ≡ key b → hash a ≡ hash b

pub bucket_idx-key :
    (hash : ℕ → ℕ) (less : ℕ → ℕ → Bool) (key : ℕ → ℕ)
    → Keyed hash less key
    → (cnt a b : ℕ) → key a ≡ key b
    → bucket_idx hash cnt a ≡ bucket_idx hash cnt b
unfolding bucket_idx
bucket_idx-key hash less key k cnt a b e = rw (k.same_hash a b e) refl

-- The number of buckets is a power of 2, each element stands in its own bucket, once, no two have the
-- same key, and `elem_cnt` is their number.
pub record Valid (hash : ℕ → ℕ) (key : ℕ → ℕ) (h : Hash) : Type 0 where
  pub power : is_power_of_2 h.bucket_cnt ≡ true
  pub placed : (i e : ℕ) → has e (h.buckets i) ≡ true → bucket_idx hash h.bucket_cnt e ≡ i
  pub once : (i : ℕ) → Nodup (h.buckets i)
  pub keys :
      (i a b : ℕ) → has a (h.buckets i) ≡ true → has b (h.buckets i) ≡ true → key a ≡ key b → a ≡ b
  pub counted : total h.bucket_cnt h.buckets ≡ h.elem_cnt

-- Whether the table has the element.
abbrev pub member : (ℕ → ℕ) → Hash → ℕ → Bool
member hash h e = has e (h.buckets (bucket_idx hash h.bucket_cnt e))

pub power_pos : (n : ℕ) → is_power_of_2 n ≡ true → 0 < n
unfolding is_power_of_2
power_pos n h = ground arith

pub bucket_idx-lt : (hash : ℕ → ℕ) (n e : ℕ) → 0 < n → bucket_idx hash n e < n
unfolding bucket_idx
bucket_idx-lt hash n e h = omega (arith, bit_and-le (hash e) (n - 1))

turn_off-lt : (x : ℕ) → 0 < x → turn_off_least_1bit x < x
unfolding turn_off_least_1bit
turn_off-lt x h = omega (arith, bit_and-le x (x - 1))

power_if_zero : (x : ℕ) → 0 < x → turn_off_least_1bit x ≡ 0 → is_power_of_2 x ≡ true
unfolding is_power_of_2
power_if_zero x p e = ground arith

-- The loop that looks for a power of 2 ends at one.
power_loop-power : (n x : ℕ) → 0 < x → x ≤ n → is_power_of_2 (power_loop n x) ≡ true
unfolding power_loop
power_loop-power zero x p h = absurd (omega arith)
power_loop-power (suc n) x p h = elim (Bool-cases (is_power_of_2 x)) [
  | inl power ↦ rw power power
  | inr other ↦
      let left : 0 < turn_off_least_1bit x = not_power x p other in
      rw other (power_loop-power n (turn_off_least_1bit x) left (omega (arith, turn_off-lt x p)))
]
  where
    not_power : (x : ℕ) → 0 < x → is_power_of_2 x ≡ false → 0 < turn_off_least_1bit x
    not_power x p other = ground (arith, power_if_zero x)

pub new_bucket_cnt-power : (n : ℕ) → is_power_of_2 (new_bucket_cnt n) ≡ true
unfolding new_bucket_cnt
new_bucket_cnt-power n =
    power_loop-power (if ltb (n / 2) 4 then 4 else n / 2) (if ltb (n / 2) 4 then 4 else n / 2)
      (ground arith) (omega arith)

total-update_past :
    (n i : ℕ) (b : ℕ → List ℕ) (es : List ℕ) → n ≤ i → total n (update b i es) ≡ total n b
total-update_past zero i b es h = refl
total-update_past (suc n) i b es h = ground (arith, total-update_past n i b es)

-- `update` at a bucket changes the number of elements by the change of that bucket.
pub total-update :
    (n i : ℕ) (b : ℕ → List ℕ) (es : List ℕ)
    → i < n
    → total n (update b i es) + length (b i) ≡ total n b + length es
total-update zero i b es h = absurd (omega arith)
total-update (suc n) i b es h = elim (Bool-cases (i == n)) [
  | inl last ↦ ground (arith, last, total-update_past n i b es)
  | inr before ↦ ground (arith, before, total-update n i b es)
]

pub total_empty : (n : ℕ) → total n (λ _. []) ≡ 0
total_empty zero = refl
total_empty (suc n) = omega (arith, total_empty n)

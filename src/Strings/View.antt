-- ===== src/Strings/View.antt =====
-- Strings as lists of bytes, and the functions that measure and search them.
use os_pint_os_project.Base.{
  ℕ, zero, suc, ◌+◌, ◌-◌, ◌<◌, ◌≤◌, ◌^◌, ◌%◌, min, some, List, [], ◌∷◌, ◌==◌, if◌then◌else◌, length,
  ◌≡◌, ◌≢◌, arith, subst, ◌∙◌, ap,
}
use os_pint_os_project.Strings.{Memory, null}
use os_pint_os_project.Strings.Search.{end_loop, strlen, strnlen, strnlen_loop, strchr, strchr_loop}

-- The string at `p` is `s`: its bytes, none of them null, and a null byte.
abbrev pub StringAt : Memory → ℕ → List ℕ → Type 0
StringAt m p [] = m p ≡ 0
StringAt m p (c ∷ s) = (m p ≡ c) × (c ≢ 0) × StringAt m (p + 1) s

pub moved : {p q : ℕ} (m : Memory) (s : List ℕ) → p ≡ q → StringAt m p s → StringAt m q s
moved m s e h = subst (λ r. StringAt m r s) e h

-- The place of `c` in a string that starts at `p`, its null byte counted, or NULL.
abbrev pub place : List ℕ → ℕ → ℕ → ℕ
place [] p c = if 0 == c then p else null
place (d ∷ s) p c = if d == c then p else place s (p + 1) c

end_loop-length :
    (n p : ℕ) (m : Memory) (s : List ℕ)
    → StringAt m p s
    → length s < n
    → end_loop n p m ≡ some (p + length s)
unfolding end_loop
end_loop-length zero p m s h fits = absurd (omega arith)
end_loop-length (suc n) p m [] h fits = ground (arith, h)
end_loop-length (suc n) p m (c ∷ s) (e, ne, h) fits =
    ground (arith, e, ne, end_loop-length n (p + 1) m s h (omega arith))

-- `strlen` gives the number of bytes before the null byte.
pub strlen-length :
    (p : ℕ) (m : Memory) (s : List ℕ)
    → StringAt m p s
    → p ≢ null
    → p + length s < 2 ^ 32
    → strlen p m ≡ some (length s)
unfolding strlen
strlen-length p m s h ne fits = ground (arith, end_loop-length (2 ^ 32 - p) p m s h (omega arith))

strnlen_loop-min :
    (n p i maxlen : ℕ) (m : Memory) (s : List ℕ)
    → StringAt m (p + i) s
    → length s < n
    → i ≤ maxlen
    → strnlen_loop n p i maxlen m ≡ some (min (i + length s) maxlen)
unfolding strnlen_loop
strnlen_loop-min zero p i maxlen m s h fits le = absurd (omega arith)
strnlen_loop-min (suc n) p i maxlen m [] h fits le = ground (arith, h)
strnlen_loop-min (suc n) p i maxlen m (c ∷ s) (e, ne, h) fits le = ground (
  arith,
  e,
  ne,
  λ (g : i < maxlen).
      strnlen_loop-min n p (i + 1) maxlen m s (moved m s (omega arith) h) (omega arith)
        (omega arith),
)

-- `strnlen` gives the length, but at most `maxlen`.
pub strnlen-min :
    (p maxlen : ℕ) (m : Memory) (s : List ℕ)
    → StringAt m p s
    → p + length s < 2 ^ 32
    → strnlen p maxlen m ≡ some (min (length s) maxlen)
unfolding strnlen
strnlen-min p maxlen m s h fits =
    strnlen_loop-min (2 ^ 32 - p) p 0 maxlen m s (moved m s (omega arith) h) (omega arith)
      (omega arith)
    ∙ ap some (omega arith)

strchr_loop-place :
    (n p c : ℕ) (m : Memory) (s : List ℕ)
    → StringAt m p s
    → length s < n
    → strchr_loop n p c m ≡ some (place s p c)
unfolding strchr_loop
strchr_loop-place zero p c m s h fits = absurd (omega arith)
strchr_loop-place (suc n) p c m [] h fits = ground (arith, h)
strchr_loop-place (suc n) p c m (d ∷ s) (e, ne, h) fits =
    ground (arith, e, ne, strchr_loop-place n (p + 1) c m s h (omega arith))

-- `strchr` finds the first place of the character in the string, the null byte counted, or gives
-- NULL.
pub strchr-place :
    (p c : ℕ) (m : Memory) (s : List ℕ)
    → StringAt m p s
    → p ≢ null
    → p + length s < 2 ^ 32
    → strchr p c m ≡ some (place s p (c % 2 ^ 8))
unfolding strchr
strchr-place p c m s h ne fits =
    ground (arith, strchr_loop-place (2 ^ 32 - p) p (c % 2 ^ 8) m s h (omega arith))

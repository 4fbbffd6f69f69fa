-- ===== src/Stdlib/Atoi.antt =====
-- lib/stdlib.c: atoi, on the characters of a string. An int that overflows has no defined value: `none`.
use os_pint_os_project.Base.{
  ℕ, zero, suc, ◌+◌, ◌-◌, ◌*◌, ◌^◌, Bool, true, false, ◌&&◌, ◌||◌, Option, none, some, List, [],
  ◌∷◌, ltb, leb, ◌==◌, if◌then◌else◌, ℤ, pos, negsuc,
}
use os_pint_os_project.Base.Check.{◌>>=◌, ◌>>◌, assert}

-- isspace
abbrev pub is_space : ℕ → Bool
is_space c = (c == b' ') || (leb 9 c && leb c 13)

abbrev pub is_digit : ℕ → Bool
is_digit c = leb b'0' c && leb c b'9'

unfoldable pub skip_space : List ℕ → List ℕ
skip_space [] = []
skip_space (c ∷ s) = if is_space c then skip_space s else c ∷ s

-- The loop over the digits. `value` is not positive, and `m` is its absolute value.
unfoldable pub value_loop : List ℕ → (m : ℕ) → Option ℕ
value_loop [] m = some m
value_loop (c ∷ s) m =
    let rest = (do
      assert (leb (m * 10 + (c - b'0')) (2 ^ 31))
      value_loop s (m * 10 + (c - b'0'))) in
    if is_digit c then rest else some m

abbrev pub negated : ℕ → ℤ
negated zero = pos 0
negated (suc n) = negsuc n

-- `if (!negative) value = -value;`
unfoldable pub signed : (negative : Bool) → (m : ℕ) → Option ℤ
signed true m = some (negated m)
signed false m = if ltb m (2 ^ 31) then some (pos m) else none

-- Whether there is a minus sign, and what follows the sign.
unfoldable pub parse_sign : List ℕ → Bool × List ℕ
parse_sign [] = (false, [])
parse_sign (c ∷ s) =
    if c == b'+' then (false, s) else if c == b'-' then (true, s) else (false, c ∷ s)

unfoldable pub atoi : List ℕ → Option ℤ
unfolding skip_space parse_sign value_loop signed
atoi s = do
  let (negative, digits) = parse_sign (skip_space s)
  m ← value_loop digits 0
  signed negative m

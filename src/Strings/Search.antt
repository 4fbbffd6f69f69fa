-- ===== src/Strings/Search.antt =====
-- lib/string.c: the functions on strings that end in a null byte. A loop that looks for the null
-- byte runs on a fuel of as many rounds as there are addresses left; a string that has its null byte
-- below 2 ^ 32 ends its loops before.
use os_pint_os_project.Base.{
  ℕ, zero, suc, ◌+◌, ◌-◌, ◌%◌, ◌^◌, not, ◌&&◌, Option, none, some, ltb, leb, ◌==◌, if◌then◌else◌, ℤ,
  pos, negsuc,
}
use os_pint_os_project.Base.Check.{◌>>=◌, ◌>>◌, assert}
use os_pint_os_project.Strings.{Memory, null, memcmp}

-- The rounds that a loop on a string at `p` can make.
abbrev pub rounds : ℕ → ℕ
rounds p = 2 ^ 32 - p

-- The address of the null byte.
unfoldable pub end_loop : ℕ → ℕ → Memory → Option ℕ
end_loop zero p m = none
end_loop (suc n) p m = let rest = end_loop n (p + 1) m in if m p == 0 then some p else rest

unfoldable pub strlen : (string : ℕ) → Memory → Option ℕ
strlen string m = do
  assert (not (string == null))
  p ← end_loop (rounds string) string m
  some (p - string)

unfoldable pub strnlen_loop : ℕ → ℕ → ℕ → ℕ → Memory → Option ℕ
strnlen_loop zero string length maxlen m = none
strnlen_loop (suc n) string length maxlen m =
    let rest = strnlen_loop n string (length + 1) maxlen m in
    if not (m (string + length) == 0) && ltb length maxlen then rest else some length

unfoldable pub strnlen : (string maxlen : ℕ) → Memory → Option ℕ
strnlen string maxlen m = strnlen_loop (rounds string) string 0 maxlen m

unfoldable pub strcmp_loop : ℕ → ℕ → ℕ → Memory → Option ℤ
strcmp_loop zero a b m = none
strcmp_loop (suc n) a b m =
    let rest = strcmp_loop n (a + 1) (b + 1) m in
    if not (m a == 0) && (m a == m b)
    then rest
    else some (if ltb (m a) (m b) then negsuc 0 else if ltb (m b) (m a) then pos 1 else pos 0)

unfoldable pub strcmp : (a b : ℕ) → Memory → Option ℤ
strcmp a b m = do assert (not (a == null)); assert (not (b == null)); strcmp_loop (rounds a) a b m

unfoldable pub strchr_loop : ℕ → ℕ → ℕ → Memory → Option ℕ
strchr_loop zero string c m = none
strchr_loop (suc n) string c m =
    let rest = strchr_loop n (string + 1) c m in
    if m string == c then some string else if m string == 0 then some null else rest

-- `c` becomes a char.
unfoldable pub strchr : (string c : ℕ) → Memory → Option ℕ
strchr string c m = do
  assert (not (string == null))
  strchr_loop (rounds string) string (c % 2 ^ 8) m

unfoldable pub strcspn_loop : ℕ → ℕ → ℕ → ℕ → Memory → Option ℕ
unfolding strchr
strcspn_loop zero string length stop m = none
strcspn_loop (suc n) string length stop m =
    let rest = strcspn_loop n string (length + 1) stop m in
    if m (string + length) == 0 then some length else do
      found ← strchr stop (m (string + length)) m
      if not (found == null) then some length else rest

unfoldable pub strcspn : (string stop : ℕ) → Memory → Option ℕ
strcspn string stop m = strcspn_loop (rounds string) string 0 stop m

unfoldable pub strspn_loop : ℕ → ℕ → ℕ → ℕ → Memory → Option ℕ
strspn_loop zero string length skip m = none
strspn_loop (suc n) string length skip m =
    let rest = strspn_loop n string (length + 1) skip m in
    if m (string + length) == 0
    then some length
    else do found ← strchr skip (m (string + length)) m; if found == null then some length else rest

unfoldable pub strspn : (string skip : ℕ) → Memory → Option ℕ
strspn string skip m = strspn_loop (rounds string) string 0 skip m

unfoldable pub strpbrk_loop : ℕ → ℕ → ℕ → Memory → Option ℕ
strpbrk_loop zero string stop m = none
strpbrk_loop (suc n) string stop m =
    let rest = strpbrk_loop n (string + 1) stop m in
    if m string == 0
    then some null
    else do found ← strchr stop (m string) m; if not (found == null) then some string else rest

unfoldable pub strpbrk : (string stop : ℕ) → Memory → Option ℕ
strpbrk string stop m = strpbrk_loop (rounds string) string stop m

unfoldable pub strrchr_loop : ℕ → ℕ → ℕ → ℕ → Memory → Option ℕ
strrchr_loop zero string c p m = none
strrchr_loop (suc n) string c p m =
    let rest = strrchr_loop n (string + 1) c (if m string == c then string else p) m in
    if m string == 0 then some p else rest

unfoldable pub strrchr : (string c : ℕ) → Memory → Option ℕ
strrchr string c m = strrchr_loop (rounds string) string (c % 2 ^ 8) null m

-- `n` counts the places left.
unfoldable pub strstr_loop : ℕ → ℕ → ℕ → ℕ → Memory → Option ℕ
strstr_loop zero haystack needle needle_len m = some null
strstr_loop (suc n) haystack needle needle_len m =
    let rest = strstr_loop n (haystack + 1) needle needle_len m in
    do
      order ← memcmp haystack needle needle_len m
      elim order [ pos zero ↦ some haystack | pos (suc k) ↦ rest | negsuc k ↦ rest ]

unfoldable pub strstr : (haystack needle : ℕ) → Memory → Option ℕ
strstr haystack needle m = do
  haystack_len ← strlen haystack m
  needle_len ← strlen needle m
  if leb needle_len haystack_len
      then strstr_loop (haystack_len - needle_len + 1) haystack needle needle_len m
      else some null

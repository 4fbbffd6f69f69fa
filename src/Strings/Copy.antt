-- ===== src/Strings/Copy.antt =====
-- lib/string.c: strlcpy, strlcat and strtok_r.
use os_pint_os_project.Base.{
  ℕ, zero, suc, ◌+◌, ◌-◌, Bool, not, ◌&&◌, Option, none, some, ltb, ◌==◌, if◌then◌else◌, update,
}
use os_pint_os_project.Base.Check.{◌>>=◌, ◌>>◌, assert}
use os_pint_os_project.Strings.{Memory, null, memcpy}
use os_pint_os_project.Strings.Search.{rounds, strlen, strchr}

-- `memcpy (dst, src, cnt); dst[cnt] = '\0';`
unfoldable pub copy_and_end : (dst src cnt : ℕ) → Memory → Option Memory
copy_and_end dst src cnt m = do (_, m') ← memcpy dst src cnt m; some (update m' (dst + cnt) 0)

-- Both end with the bytes copied cut off at the room, if there is any.
unfoldable pub bounded : Bool → (dst src src_len room : ℕ) → Memory → Option Memory
unfolding copy_and_end
bounded fits dst src src_len room m =
    if fits then copy_and_end dst src (if ltb src_len room then src_len else room) m else some m

-- The length returned and the memory.
unfoldable pub strlcpy : (dst src size : ℕ) → Memory → Option (ℕ × Memory)
strlcpy dst src size m = do
  assert (not (dst == null))
  assert (not (src == null))
  src_len ← strlen src m
  m' ← bounded (ltb 0 size) dst src src_len (size - 1) m
  some (src_len, m')

unfoldable pub strlcat : (dst src size : ℕ) → Memory → Option (ℕ × Memory)
strlcat dst src size m = do
  assert (not (dst == null))
  assert (not (src == null))
  src_len ← strlen src m
  dst_len ← strlen dst m
  m' ← bounded (ltb 0 size && ltb dst_len size) (dst + dst_len) src src_len (size - dst_len - 1) m
  some (src_len + dst_len, m')

-- The first loop of strtok_r: the address of the first byte that is not in `delimiters`; a null
-- byte ends it.
unfoldable pub skip_loop : ℕ → ℕ → ℕ → Memory → Option ℕ
skip_loop zero s delimiters m = none
skip_loop (suc n) s delimiters m =
    let rest = skip_loop n (s + 1) delimiters m in
    do
      found ← strchr delimiters (m s) m
      if not (found == null) then (if m s == 0 then some s else rest) else some s

-- The second loop: the address of the first byte that is in `delimiters` or is null.
unfoldable pub token_loop : ℕ → ℕ → ℕ → Memory → Option ℕ
token_loop zero s delimiters m = none
token_loop (suc n) s delimiters m =
    let rest = token_loop n (s + 1) delimiters m in
    do found ← strchr delimiters (m s) m; if found == null then rest else some s

-- strtok_r from the start of a token on.
unfoldable pub cut_token : (token delimiters : ℕ) → Memory → Option (ℕ × ℕ × Memory)
cut_token token delimiters m = do
  stop ← token_loop (rounds token) token delimiters m
  some (if not (m stop == 0) then (token, stop + 1, update m stop 0) else (token, stop, m))

-- `save_ptr` is NULL or a place with the content given. The results are the token, the content of
-- the place and the memory.
unfoldable pub strtok_r :
    (s delimiters : ℕ) (save_ptr : Option ℕ) → Memory → Option (ℕ × ℕ × Memory)
strtok_r s delimiters none m = none
strtok_r s delimiters (some saved) m = do
  assert (not (delimiters == null))
  start ← some (if s == null then saved else s)
  assert (not (start == null))
  token ← skip_loop (rounds start) start delimiters m
  if m token == 0 then some (null, token, m) else cut_token token delimiters m

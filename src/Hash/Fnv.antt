-- ===== src/Hash/Fnv.antt =====
-- lib/kernel/hash.c: the Fowler-Noll-Vo hash of bytes, strings and integers.
use Prim.Native.Nat.{bit_xor}
use os_pint_os_project.Base.{
  ℕ, zero, suc, ◌+◌, ◌-◌, ◌*◌, ◌/◌, ◌%◌, ◌^◌, ◌<◌, not, Option, none, some, List, [], ◌∷◌, ◌==◌,
  if◌then◌else◌, ◌≡◌, ◌≢◌, arith, length,
}
use os_pint_os_project.Base.Check.{◌>>◌, assert}
use os_pint_os_project.Base.Bits.{bit_xor-lt}
use os_pint_os_project.Strings.{Memory, null}
use os_pint_os_project.Strings.Search.{rounds}
use os_pint_os_project.Strings.View.{StringAt}

abbrev pub fnv_32_prime : ℕ
fnv_32_prime = 16777619

abbrev pub fnv_32_basis : ℕ
fnv_32_basis = 2166136261

-- `(hash * FNV_32_PRIME) ^ byte`
unfoldable pub mix : (hash byte : ℕ) → ℕ
mix hash byte = bit_xor ((hash * fnv_32_prime) % 2 ^ 32) byte

unfoldable pub bytes_loop : (size buf hash : ℕ) → Memory → ℕ
bytes_loop zero buf hash m = hash
bytes_loop (suc size) buf hash m = bytes_loop size (buf + 1) (mix hash (m buf)) m

unfoldable pub hash_bytes : (buf size : ℕ) → Memory → Option ℕ
hash_bytes buf size m = do assert (not (buf == null)); some (bytes_loop size buf fnv_32_basis m)

unfoldable pub string_loop : (n s hash : ℕ) → Memory → Option ℕ
string_loop zero s hash m = none
string_loop (suc n) s hash m =
    let rest = string_loop n (s + 1) (mix hash (m s)) m in
    if not (m s == 0) then rest else some hash

unfoldable pub hash_string : (s : ℕ) → Memory → Option ℕ
hash_string s m = do assert (not (s == null)); string_loop (rounds s) s fnv_32_basis m

-- The bytes of `i`, an integer in 32 bits, lowest first, stand at `place`.
unfoldable pub hash_int : (place i : ℕ) → Option ℕ
hash_int place i = hash_bytes place 4 (λ p. (i / (2 ^ 8) ^ (p - place)) % 2 ^ 8)

string_loop-bytes :
    (n s hash : ℕ) (m : Memory) (cs : List ℕ)
    → StringAt m s cs
    → length cs < n
    → string_loop n s hash m ≡ some (bytes_loop (length cs) s hash m)
unfolding string_loop bytes_loop
string_loop-bytes zero s hash m cs h f = absurd (omega arith)
string_loop-bytes (suc n) s hash m [] h f = ground (arith, h)
string_loop-bytes (suc n) s hash m (c ∷ cs) (e, ne, h) f =
    ground (arith, e, ne, string_loop-bytes n (s + 1) (mix hash (m s)) m cs h (omega arith))

-- The hash of a string is the hash of its bytes, the null byte left out.
pub hash_string-bytes :
    (s : ℕ) (m : Memory) (cs : List ℕ)
    → StringAt m s cs
    → s ≢ null
    → s + length cs < 2 ^ 32
    → hash_string s m ≡ hash_bytes s (length cs) m
unfolding hash_string hash_bytes
hash_string-bytes s m cs h ne f =
    ground (arith, string_loop-bytes (2 ^ 32 - s) s fnv_32_basis m cs h (omega arith))

mix-lt : (hash byte : ℕ) → byte < 256 → mix hash byte < 2 ^ 32
unfolding mix
mix-lt hash byte h = bit_xor-lt 32 ((hash * 16777619) % 2 ^ 32) byte (omega arith) (omega arith)

bytes_loop-lt :
    (size buf hash : ℕ) (m : Memory)
    → ((p : ℕ) → m p < 256)
    → hash < 2 ^ 32
    → bytes_loop size buf hash m < 2 ^ 32
unfolding bytes_loop
bytes_loop-lt zero buf hash m h f = f
bytes_loop-lt (suc size) buf hash m h f =
    bytes_loop-lt size (buf + 1) (mix hash (m buf)) m h (mix-lt hash (m buf) (h buf))

-- The hash of bytes at an address that is not NULL is a number of 32 bits.
pub hash_bytes-lt :
    (buf size : ℕ) (m : Memory)
    → ((p : ℕ) → m p < 256)
    → buf ≢ null
    → (r : ℕ) × (hash_bytes buf size m ≡ some r) × (r < 2 ^ 32)
unfolding hash_bytes
hash_bytes-lt buf size m h ne = (
  bytes_loop size buf fnv_32_basis m,
  ground arith,
  bytes_loop-lt size buf fnv_32_basis m h (omega arith),
)

-- ===== src/Tests/Strings.antt =====
-- The string functions on a memory with "ab" at 100 and "cdeb" at 200.
use os_pint_os_project.Base.{
  ℕ, ◌+◌, ◌-◌, some, List, [], ◌∷◌, if◌then◌else◌, ltb, get_or, update, ◌≡◌, arith, refl, negsuc,
}
use os_pint_os_project.Strings.{Memory, memmove, memcmp, memcmp_loop}
use os_pint_os_project.Strings.Search.{
  strlen, end_loop, strnlen, strchr, strchr_loop, strcmp, strcmp_loop, strcspn, strcspn_loop,
  strspn, strspn_loop, strpbrk, strpbrk_loop, strrchr, strrchr_loop, strstr, strstr_loop,
}
use os_pint_os_project.Strings.Copy.{strtok_r, skip_loop, token_loop, cut_token}
use os_pint_os_project.Strings.Copies.{copied, memmove-copied}
use os_pint_os_project.Strings.View.{StringAt, strlen-length, strnlen-min}

abbrev memory : Memory
memory j =
    if ltb j 150
    then get_or (97 ∷ 98 ∷ 0 ∷ []) (j - 100) 0
    else get_or (99 ∷ 100 ∷ 101 ∷ 98 ∷ 0 ∷ []) (j - 200) 0

abbrev ab : List ℕ
ab = 97 ∷ 98 ∷ []

abbrev cdeb : List ℕ
cdeb = 99 ∷ 100 ∷ 101 ∷ 98 ∷ []

ab_at : StringAt memory 100 ab
ab_at = ground arith

cdeb_at : StringAt memory 200 cdeb
cdeb_at = ground arith

memmove-copied_example :
    (r : ℕ) × (m' : Memory) × (memmove 199 200 3 memory ≡ some (r, m'))
    × (r ≡ (if ltb 199 200 then 199 + 3 else 199))
    × ((j : ℕ) → m' j ≡ copied 199 200 3 memory j)
memmove-copied_example = memmove-copied 199 200 3 memory (omega arith) (omega arith)

strlen-length_example : strlen 200 memory ≡ some 4
strlen-length_example = strlen-length 200 memory cdeb cdeb_at (omega arith) (omega arith)

strnlen-min_example : strnlen 200 3 memory ≡ some 3
strnlen-min_example = strnlen-min 200 3 memory cdeb cdeb_at (omega arith)

order_of_strings : strcmp 100 200 memory ≡ some (negsuc 0)
unfolding strcmp strcmp_loop
order_of_strings = refl

spans : (strcspn 200 100 memory ≡ some 3) × (strspn 100 100 memory ≡ some 2)
unfolding strcspn strcspn_loop strspn strspn_loop strchr strchr_loop
spans = (refl, refl)

breaks : (strpbrk 200 100 memory ≡ some 203) × (strrchr 100 98 memory ≡ some 101)
unfolding strpbrk strpbrk_loop strchr strchr_loop strrchr strrchr_loop
breaks = (refl, refl)

finds : strstr 200 203 memory ≡ some 203
unfolding strstr strstr_loop strlen end_loop memcmp memcmp_loop
finds = refl

token_at : strtok_r 200 100 (some 0) memory ≡ some (200, 204, update memory 203 0)
unfolding strtok_r skip_loop token_loop cut_token strchr strchr_loop
token_at = refl

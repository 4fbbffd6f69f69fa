-- ===== src/Links/Loops.antt =====
-- lib/kernel/list.c: the functions that go through a list. `less` is the comparison with its
-- auxiliary data. A loop runs on a fuel of 2 ^ 32 rounds: the elements of a list have different
-- addresses below that.
use os_pint_os_project.Base.{
  ℕ, zero, suc, ◌+◌, ◌^◌, Bool, true, false, not, ◌&&◌, Option, none, some, ltb, ◌==◌,
  if◌then◌else◌,
}
use os_pint_os_project.Base.Check.{◌>>=◌, ◌>>◌, assert}
use os_pint_os_project.Links.{
  Links, null, tail_of, set_prev, set_next, list_begin, list_next, list_prev, list_insert,
  list_remove, list_splice, list_push_back, list_empty,
}

abbrev pub Less : Type 0
Less = ℕ → ℕ → Bool

fuel : ℕ
fuel = 2 ^ 32

unfoldable pub size_loop : (n l e cnt : ℕ) → Links → Option ℕ
size_loop zero l e cnt h = none
size_loop (suc n) l e cnt h =
    let rest = λ (e' : ℕ). size_loop n l e' (cnt + 1) h in
    if e == tail_of l then some cnt else (list_next e h >>= rest)

unfoldable pub list_size : ℕ → Links → Option ℕ
unfolding fuel
list_size l h = do e ← list_begin l h; size_loop fuel l e 0 h

-- The place before which list_insert_ordered inserts.
unfoldable pub place_loop : (n l elem e : ℕ) → Less → Links → Option ℕ
place_loop zero l elem e less h = none
place_loop (suc n) l elem e less h =
    let rest = λ (e' : ℕ). place_loop n l elem e' less h in
    if e == tail_of l then some e else if less elem e then some e else (list_next e h >>= rest)

unfoldable pub list_insert_ordered : (l elem : ℕ) → Less → Links → Option Links
unfolding fuel
list_insert_ordered l elem less h = do
  assert (not (l == null))
  assert (not (elem == null))
  first ← list_begin l h
  e ← place_loop fuel l elem first less h
  list_insert e elem h

unfoldable pub max_loop : (n l max e : ℕ) → Less → Links → Option ℕ
max_loop zero l max e less h = none
max_loop (suc n) l max e less h =
    let rest = λ (e' : ℕ). max_loop n l (if less max e then e else max) e' less h in
    if e == tail_of l then some max else (list_next e h >>= rest)

unfoldable pub list_max : ℕ → Less → Links → Option ℕ
unfolding fuel
list_max l less h = do
  max ← list_begin l h
  if max == tail_of l then some max else (list_next max h >>= λ e. max_loop fuel l max e less h)

unfoldable pub min_loop : (n l min e : ℕ) → Less → Links → Option ℕ
min_loop zero l min e less h = none
min_loop (suc n) l min e less h =
    let rest = λ (e' : ℕ). min_loop n l (if less e min then e else min) e' less h in
    if e == tail_of l then some min else (list_next e h >>= rest)

unfoldable pub list_min : ℕ → Less → Links → Option ℕ
unfolding fuel
list_min l less h = do
  min ← list_begin l h
  if min == tail_of l then some min else (list_next min h >>= λ e. min_loop fuel l min e less h)

-- The two links of an element exchanged.
unfoldable pub swap : ℕ → Links → Links
swap e h = set_prev e (h.next e) (set_next e (h.prev e) h)

unfoldable pub reverse_loop : (n l e : ℕ) → Links → Option Links
unfolding swap
reverse_loop zero l e h = none
reverse_loop (suc n) l e h =
    let rest = reverse_loop n l ((swap e h).prev e) (swap e h) in
    if e == tail_of l then some h else rest

unfoldable pub list_reverse : ℕ → Links → Option Links
unfolding fuel reverse_loop
list_reverse l h = do
  empty ← list_empty l h
  e ← list_begin l h
  if empty then some h else do
    h1 ← reverse_loop fuel l e h
    h2 ← some (set_prev (tail_of l) (h1.next l) (set_next l (h1.prev (tail_of l)) h1))
    front ← some (h2.next l)
    back ← some (h2.prev (tail_of l))
    some (set_next back (h2.prev front) (set_prev front (h2.next back) h2))

-- `next` out of its list, and into `duplicates` if that is not NULL.
unfoldable pub drop_next : (duplicates next : ℕ) → Links → Option Links
drop_next duplicates next h = do
  (_, h') ← list_remove next h
  if not (duplicates == null) then list_push_back duplicates next h' else some h'

unfoldable pub unique_loop : (n l duplicates elem : ℕ) → Less → Links → Option Links
unfolding drop_next
unique_loop zero l duplicates elem less h = none
unique_loop (suc n) l duplicates elem less h = list_next elem h >>= λ next.
    let keep = unique_loop n l duplicates next less h in
    let drop = drop_next duplicates next h >>= unique_loop n l duplicates elem less in
    if next == tail_of l
    then some h
    else if not (less elem next) && not (less next elem)
    then drop
    else keep

unfoldable pub list_unique : (l duplicates : ℕ) → Less → Links → Option Links
unfolding fuel unique_loop
list_unique l duplicates less h = do
  assert (not (l == null))
  empty ← list_empty l h
  elem ← list_begin l h
  if empty then some h else unique_loop fuel l duplicates elem less h

unfoldable pub is_sorted_loop : (n a b : ℕ) → Less → Links → Option Bool
is_sorted_loop zero a b less h = none
is_sorted_loop (suc n) a b less h = list_next a h >>= λ a'.
    let rest = is_sorted_loop n a' b less h in
    if a' == b then some true else (list_prev a' h >>= λ p. if less a' p then some false else rest)

unfoldable pub is_sorted : (a b : ℕ) → Less → Links → Option Bool
unfolding fuel
is_sorted a b less h = if not (a == b) then is_sorted_loop fuel a b less h else some true

unfoldable pub run_loop : (n a b : ℕ) → Less → Links → Option ℕ
run_loop zero a b less h = none
run_loop (suc n) a b less h = list_next a h >>= λ a'.
    let rest = run_loop n a' b less h in
    if a' == b then some a' else (list_prev a' h >>= λ p. if less a' p then some a' else rest)

unfoldable pub find_end_of_run : (a b : ℕ) → Less → Links → Option ℕ
unfolding fuel
find_end_of_run a b less h = do
  assert (not (a == null))
  assert (not (b == null))
  assert (not (a == b))
  run_loop fuel a b less h

unfoldable pub merge_loop : (n a0 a1b0 b1 : ℕ) → Less → Links → Option Links
merge_loop zero a0 a1b0 b1 less h = none
merge_loop (suc n) a0 a1b0 b1 less h =
    let stay = list_next a0 h >>= λ a. merge_loop n a a1b0 b1 less h in
    let move =
      λ (a : ℕ). list_prev a h >>= λ p. list_splice a0 p a h >>= merge_loop n a0 a b1 less in
    if not (a0 == a1b0) && not (a1b0 == b1)
    then (if not (less a1b0 a0) then stay else (list_next a1b0 h >>= move))
    else some h

unfoldable pub inplace_merge : (a0 a1b0 b1 : ℕ) → Less → Links → Option Links
unfolding fuel
inplace_merge a0 a1b0 b1 less h = do
  assert (not (a0 == null))
  assert (not (a1b0 == null))
  assert (not (b1 == null))
  first ← is_sorted a0 a1b0 less h
  assert first
  second ← is_sorted a1b0 b1 less h
  assert second
  merge_loop fuel a0 a1b0 b1 less h

-- One pass over the list, from `a0` on: the number of runs and the links.
unfoldable pub pass_loop : (n l a0 cnt : ℕ) → Less → Links → Option (ℕ × Links)
pass_loop zero l a0 cnt less h = none
pass_loop (suc n) l a0 cnt less h =
    let merge_next = λ (a1b0 : ℕ). find_end_of_run a1b0 (tail_of l) less h >>= λ b1.
    inplace_merge a0 a1b0 b1 less h >>= pass_loop n l b1 (cnt + 1) less in
    if a0 == tail_of l
    then some (cnt, h)
    else (find_end_of_run a0 (tail_of l) less h >>= λ a1b0.
        if a1b0 == tail_of l then some (cnt + 1, h) else merge_next a1b0)

unfoldable pub sort_loop : (n l : ℕ) → Less → Links → Option Links
unfolding fuel
sort_loop zero l less h = none
sort_loop (suc n) l less h = do
  first ← list_begin l h
  (cnt, h') ← pass_loop fuel l first 0 less h
  let again = sort_loop n l less h'
  if ltb 1 cnt then again else some h'

unfoldable pub list_sort : ℕ → Less → Links → Option Links
unfolding fuel
list_sort l less h = do
  assert (not (l == null))
  h' ← sort_loop fuel l less h
  first ← list_begin l h'
  sorted ← is_sorted first (tail_of l) less h'
  assert sorted
  some h'

-- ===== src/Hash.antt =====
-- lib/kernel/hash.c: hash tables. An element is its address; `hash` and `less` are the functions of
-- the table with their auxiliary data. A bucket is the sequence that its list holds.
pub mod Fnv
pub mod Invariant
pub mod Rehash
pub mod Table
pub mod Contents
pub mod Iterate
use Prim.Native.Nat.{bit_and}
use os_pint_os_project.Base.{
  ℕ, zero, suc, ◌+◌, ◌-◌, ◌*◌, ◌/◌, ◌%◌, ◌^◌, Bool, true, false, not, ◌&&◌, ◌||◌, Option, none,
  some, List, [], ◌∷◌, ◌++◌, ltb, ◌==◌, if◌then◌else◌, update,
}
use os_pint_os_project.Sequence.{remove}

pub record Hash : Type 0 where
  pub elem_cnt : ℕ
  pub bucket_cnt : ℕ
  pub buckets : ℕ → List ℕ

unfoldable pub turn_off_least_1bit : ℕ → ℕ
turn_off_least_1bit x = bit_and x (x - 1)

unfoldable pub is_power_of_2 : ℕ → Bool
is_power_of_2 x = not (x == 0) && turn_off_least_1bit x == 0

-- The loop on fuel: a round makes the number smaller.
unfoldable pub power_loop : (n x : ℕ) → ℕ
power_loop zero x = x
power_loop (suc n) x =
    let rest = power_loop n (turn_off_least_1bit x) in if not (is_power_of_2 x) then rest else x

unfoldable pub new_bucket_cnt : ℕ → ℕ
new_bucket_cnt elem_cnt =
    let cnt = elem_cnt / 2 in
    let at_least = if ltb cnt 4 then 4 else cnt in power_loop at_least at_least

unfoldable pub bucket_idx : (hash : ℕ → ℕ) → (bucket_cnt e : ℕ) → ℕ
bucket_idx hash bucket_cnt e = bit_and (hash e) (bucket_cnt - 1)

unfoldable pub find_bucket : (hash : ℕ → ℕ) → Hash → ℕ → ℕ
find_bucket hash h e = bucket_idx hash h.bucket_cnt e

unfoldable pub find_elem : (less : ℕ → ℕ → Bool) → List ℕ → ℕ → Option ℕ
find_elem less [] e = none
find_elem less (hi ∷ rest) e =
    if not (less hi e) && not (less e hi) then some hi else find_elem less rest e

unfoldable pub insert_elem : Hash → (bucket e : ℕ) → Hash
insert_elem h bucket e = record h {
  elem_cnt = h.elem_cnt + 1;
  buckets = update h.buckets bucket (e ∷ h.buckets bucket);
}

-- The element is taken out of the list that it stands in.
unfoldable pub remove_elem : Hash → ℕ → Hash
remove_elem h e = record h { elem_cnt = h.elem_cnt - 1; buckets = λ i. remove e (h.buckets i) }

-- The elements of one old bucket into the new buckets.
unfoldable pub move_bucket : (hash : ℕ → ℕ) → (cnt : ℕ) → List ℕ → (ℕ → List ℕ) → ℕ → List ℕ
move_bucket hash cnt [] fresh = fresh
move_bucket hash cnt (e ∷ es) fresh =
    let i = bucket_idx hash cnt e in move_bucket hash cnt es (update fresh i (e ∷ fresh i))

-- `n` old buckets from `i` on.
unfoldable pub move_loop : (hash : ℕ → ℕ) → (cnt n i : ℕ) → (old fresh : ℕ → List ℕ) → ℕ → List ℕ
move_loop hash cnt zero i old fresh = fresh
move_loop hash cnt (suc n) i old fresh =
    move_loop hash cnt n (i + 1) old (move_bucket hash cnt (old i) fresh)

abbrev pub empty_buckets : ℕ → List ℕ
empty_buckets i = []

-- `has_memory` says whether malloc gives the new buckets.
unfoldable pub rehash : (hash : ℕ → ℕ) → (has_memory : Bool) → Hash → Hash
rehash hash has_memory h =
    let cnt = new_bucket_cnt h.elem_cnt in
    if cnt == h.bucket_cnt || not has_memory then h else record h {
      bucket_cnt = cnt;
      buckets = move_loop hash cnt h.bucket_cnt 0 h.buckets empty_buckets;
    }

-- The elements that hash_clear passes to the destructor, in their order.
unfoldable pub clear_loop : (n i : ℕ) → (ℕ → List ℕ) → List ℕ
clear_loop zero i buckets = []
clear_loop (suc n) i buckets = buckets i ++ clear_loop n (i + 1) buckets

unfoldable pub hash_clear : (destructor : Bool) → Hash → List ℕ × Hash
hash_clear destructor h = (
  (if destructor then clear_loop h.bucket_cnt 0 h.buckets else []),
  record h { elem_cnt = 0; buckets = λ i. if ltb i h.bucket_cnt then [] else h.buckets i },
)

-- NULL if malloc fails; the new buckets are empty.
unfoldable pub hash_init : (has_memory : Bool) → Option Hash
unfolding hash_clear
hash_init has_memory =
    if has_memory
    then some
        (hash_clear false (record { elem_cnt = 0; bucket_cnt = 4; buckets = empty_buckets })).1
    else none

unfoldable pub hash_destroy : (destructor : Bool) → Hash → List ℕ
hash_destroy destructor h = if destructor then (hash_clear true h).0 else []

module _ (hash : ℕ → ℕ) (less : ℕ → ℕ → Bool) where
  unfoldable pub hash_find : Hash → ℕ → Option ℕ
  hash_find h e = find_elem less (h.buckets (find_bucket hash h e)) e

  -- The old element and the table.
  unfoldable pub hash_insert : (has_memory : Bool) → Hash → ℕ → Option ℕ × Hash
  hash_insert has_memory h new =
      let bucket = find_bucket hash h new in
      let old = find_elem less (h.buckets bucket) new in
      let h1 : Hash = elim old [ none ↦ insert_elem h bucket new | some x ↦ h ] in
      (old, rehash hash has_memory h1)

  unfoldable pub hash_replace : (has_memory : Bool) → Hash → ℕ → Option ℕ × Hash
  hash_replace has_memory h new =
      let bucket = find_bucket hash h new in
      let old = find_elem less (h.buckets bucket) new in
      let h1 : Hash = elim old [ none ↦ h | some x ↦ remove_elem h x ] in
      (old, rehash hash has_memory (insert_elem h1 bucket new))

  unfoldable pub hash_delete : (has_memory : Bool) → Hash → ℕ → Option ℕ × Hash
  hash_delete has_memory h e =
      let found = find_elem less (h.buckets (find_bucket hash h e)) e in
      (found, elim found [ none ↦ h | some x ↦ rehash hash has_memory (remove_elem h x) ])

unfoldable pub hash_size : Hash → ℕ
hash_size h = h.elem_cnt

unfoldable pub hash_empty : Hash → Bool
hash_empty h = h.elem_cnt == 0

-- The elements that hash_apply passes to the action, in their order.
unfoldable pub hash_apply : Hash → List ℕ
hash_apply h = clear_loop h.bucket_cnt 0 h.buckets

-- An iterator: its bucket, the elements behind its place in that bucket, and its element, `none`
-- at the head of a bucket and at the end of the table.
pub record HashIterator : Type 0 where
  pub bucket : ℕ
  pub behind : List ℕ
  pub elem : Option ℕ

unfoldable pub hash_first : Hash → HashIterator
hash_first h = record { bucket = 0; behind = h.buckets 0; elem = none }

-- The loop of hash_next on fuel: a round goes on to the next bucket.
unfoldable pub next_loop : (n bucket : ℕ) → List ℕ → Hash → HashIterator
next_loop n bucket (e ∷ es) h = record { bucket = bucket; behind = es; elem = some e }
next_loop zero bucket [] h = record { bucket = bucket; behind = []; elem = none }
next_loop (suc n) bucket [] h =
    let rest = next_loop n (bucket + 1) (h.buckets (bucket + 1)) h in
    if ltb (bucket + 1) h.bucket_cnt
    then rest
    else record { bucket = bucket + 1; behind = []; elem = none }

unfoldable pub hash_next : HashIterator → Hash → HashIterator
hash_next i h = next_loop h.bucket_cnt i.bucket i.behind h

unfoldable pub hash_cur : HashIterator → Option ℕ
hash_cur i = i.elem

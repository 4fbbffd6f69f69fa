-- ===== src/Tests/Hash.antt =====
-- A table of numbers with 5 in it; 9 belongs to the same bucket.
use os_pint_os_project.Base.{
  ℕ, true, not, ◌&&◌, ◌||◌, ◌<◌, Option, length, ltb, ◌==◌, ◌≡◌, arith, refl,
}
use os_pint_os_project.Hash.{
  Hash, insert_elem, find_bucket, bucket_idx, hash_insert, hash_delete, hash_apply, hash_first,
  empty_buckets, is_power_of_2, turn_off_least_1bit, clear_loop,
}
use os_pint_os_project.Hash.Invariant.{Keyed, Valid, member}
use os_pint_os_project.Hash.Table.{Finds, is, inserted-Valid}
use os_pint_os_project.Hash.Contents.{is_none, hash_insert-member, hash_delete-member}
use os_pint_os_project.Hash.Iterate.{collect, collect-apply}

abbrev identity : ℕ → ℕ
identity x = x

numbers-Keyed : Keyed identity ltb identity
numbers-Keyed = record { by_key = λ a b. refl; same_hash = λ a b e. e }

abbrev empty : Hash
empty = record { elem_cnt = 0; bucket_cnt = 4; buckets = empty_buckets }

empty_power : is_power_of_2 4 ≡ true
unfolding is_power_of_2 turn_off_least_1bit
empty_power = refl

empty-Valid : Valid identity identity empty
empty-Valid = record {
  power = empty_power;
  placed = λ i e m. cc;
  once = λ i. tt;
  keys = λ i a b m n e. cc;
  counted = refl;
}

abbrev five : Hash
five = insert_elem empty (find_bucket identity empty 5) 5

five-Valid : Valid identity identity five
five-Valid = inserted-Valid identity ltb identity numbers-Keyed empty empty-Valid 5 (λ x e. refl)

hash_insert-member_example :
    (old : Option ℕ) × (h' : Hash) × (hash_insert identity ltb true five 9 ≡ (old, h'))
    × Finds identity identity five 9 old
    × Valid identity identity h'
    × ((x : ℕ) → member identity h' x ≡ (member identity five x || (is_none old && x == 9)))
hash_insert-member_example =
    hash_insert-member identity ltb identity numbers-Keyed true five five-Valid 9

hash_delete-member_example :
    (old : Option ℕ) × (h' : Hash) × (hash_delete identity ltb true five 5 ≡ (old, h'))
    × Finds identity identity five 5 old
    × Valid identity identity h'
    × ((x : ℕ) → member identity h' x ≡ (member identity five x && not (is old x)))
hash_delete-member_example =
    hash_delete-member identity ltb identity numbers-Keyed true five five-Valid 5

five_small : length (hash_apply five) < 4
unfolding hash_apply clear_loop insert_elem find_bucket bucket_idx
five_small = omega arith

five_buckets : 0 < five.bucket_cnt
unfolding insert_elem
five_buckets = omega arith

collect-apply_example : collect 4 (hash_first five) five ≡ hash_apply five
collect-apply_example = collect-apply five 4 five_buckets five_small

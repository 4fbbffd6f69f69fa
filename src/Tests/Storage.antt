-- ===== src/Tests/Storage.antt =====
-- A map of 40 sectors in two elements: 0, 1 and 33 are in use.
use os_pint_os_project.Base.{
  ℕ, true, false, Option, some, [], ◌∷◌, ◌≡◌, ◌≤◌, ◌<◌, ◌+◌, suc, zero, arith, refl,
}
use os_pint_os_project.Base.Bits.{bit}
use os_pint_os_project.Bitmap.{
  Bitmap, bitmap_scan, bitmap_test, contains_loop, bitmap_contains, scan_loop,
}
use os_pint_os_project.Bitmap.View.{at, Valid}
use os_pint_os_project.Inode.{Inode, Block}
use os_pint_os_project.FreeMap.{FreeMap, free_map_allocate, free_map_release}
use os_pint_os_project.FreeMap.Allocate.{
  Allocated, Released, free_map_allocate-Allocated, free_map_release-Released,
}

abbrev map40 : Bitmap
map40 = record { bit_cnt = 40; bits = 3 ∷ 2 ∷ [] }

abbrev disk_map : FreeMap
disk_map = record { map = map40; file = 400; mallocs = λ n. false }

-- The file of the map, in sector 33, on a device of 40 sectors.
abbrev map_file : Inode
map_file = record {
  sector = 0;
  removed = false;
  open_cnt = 1;
  deny_write_cnt = 0;
  start = 33;
  len = 8;
}

abbrev disk40 : Block
disk40 = record { size = 40; foreign = false; read_cnt = 0; write_cnt = 0; contents = λ s o. 0 }

map40-Valid : Valid map40
map40-Valid = omega arith

scan_runs : bitmap_scan map40 30 4 false ≡ some 34
unfolding bitmap_scan scan_loop bitmap_contains contains_loop bitmap_test
scan_runs = refl

free_map_allocate-Allocated_example :
    (m' : FreeMap) × (r : Option ℕ) × (d' : Block) × (free_map_allocate disk_map 3
        (λ a. map_file)
        disk40
      ≡ some (m', r, d'))
    × Allocated disk_map 3 (λ a. map_file) disk40 m' r d'
free_map_allocate-Allocated_example =
    free_map_allocate-Allocated disk_map 3 (λ a. map_file) disk40 map40-Valid
      (λ ne. record { fits = omega arith; native = refl })

first_used : (j : ℕ) → 0 ≤ j → j < 0 + 2 → at map40 j ≡ true
unfolding at bit
first_used zero p q = refl
first_used (suc zero) p q = refl
first_used (suc (suc j)) p q = absurd (omega arith)

free_map_release-Released_example :
    (m' : FreeMap) × (d' : Block) × (free_map_release disk_map 0 2 (λ a. map_file) disk40
      ≡ some (m', d'))
    × Released disk_map 0 2 (λ a. map_file) disk40 m' d'
free_map_release-Released_example =
    free_map_release-Released disk_map 0 2 (λ a. map_file) disk40 map40-Valid (omega arith)
      first_used (omega arith) (record { fits = omega arith; native = refl })

-- ===== src/Tests/Palloc.antt =====
-- Two pools of four pages each, all free, from the first megabyte of memory on.
use os_pint_os_project.Base.{
  List, length, replicate, ℕ, true, false, [], ◌∷◌, some, ◌≡◌, arith, refl,
}
use os_pint_os_project.Bitmap.{
  Bitmap, elem_idx, bit_mask, change, bitmap_mark, bitmap_set, bitmap_test, set_loop,
  bitmap_set_multiple, contains_loop, bitmap_contains, scan_loop, bitmap_scan, bitmap_scan_and_flip,
}
use os_pint_os_project.Strings.{Memory}
use os_pint_os_project.Palloc.Init.{Ready, palloc_init-Ready}
use os_pint_os_project.Palloc.{
  palloc_init, Pool, Pools, hand_out, palloc_get_multiple, palloc_free_multiple,
}
use os_pint_os_project.Palloc.Get.{InOrder, Taken, palloc_get_multiple-Taken}
use os_pint_os_project.Palloc.Free.{Apart, SamePages, free-get}

abbrev pages_of : (bits : ℕ) → Bitmap
pages_of bits = record { bit_cnt = 4; bits = bits ∷ [] }

abbrev kernel : (bits : ℕ) → Pool
kernel bits = record { used_map = pages_of bits; base = 3222274048 }

abbrev user : Pool
user = record { used_map = pages_of 0; base = 3222290432 }

abbrev pools : (bits : ℕ) → Pools
pools bits = record { kernel_pool = kernel bits; user_pool = user }

abbrev memory : Memory
memory a = 1

kernel-InOrder : InOrder (kernel 0)
kernel-InOrder = record {
  valid = record { room = omega arith; small = omega arith };
  aligned = refl;
  ne_null = omega arith;
  inside = omega arith;
}

pools-Apart : Apart (pools 0)
pools-Apart = record {
  kernel = kernel-InOrder;
  user = record {
    valid = record { room = omega arith; small = omega arith };
    aligned = refl;
    ne_null = omega arith;
    inside = omega arith;
  };
  behind = omega arith;
}

palloc_get_multiple-Taken_example :
    Taken false true true 2
      (pools 0)
      memory
      (palloc_get_multiple false true true 2 (pools 0) memory)
palloc_get_multiple-Taken_example =
    palloc_get_multiple-Taken false true true 2 (pools 0) memory kernel-InOrder (omega arith)

taken_run :
    palloc_get_multiple false false true 2 (pools 0) memory ≡ some (3222274048, pools 3, memory)
unfolding palloc_get_multiple hand_out bitmap_scan_and_flip bitmap_scan scan_loop bitmap_contains
    contains_loop bitmap_test bitmap_set_multiple set_loop bitmap_set bitmap_mark elem_idx bit_mask
    change
taken_run = refl

free-get_example :
    (ps2 : Pools) × (mem2 : Memory) × palloc_free_multiple 3222274048 2 (pools 3) memory
      ≡ some (ps2, mem2)
    × SamePages (pools 0) ps2
free-get_example =
    free-get false false true 2 (pools 0) memory 3222274048 (pools 3) memory pools-Apart
      (omega arith) taken_run (omega arith)

abbrev held : List ℕ
held = replicate 9 4294967295

length-held : length held ≡ 9
length-held = refl

palloc_init-Ready_example : (ps : Pools) × palloc_init 100 258 held held ≡ some ps × Ready 100 ps
palloc_init-Ready_example =
    palloc_init-Ready 100 258 held held (omega arith) (omega arith) (omega arith)
      (omega (arith, length-held)) (omega (arith, length-held))

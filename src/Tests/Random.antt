-- ===== src/Tests/Random.antt =====
-- The generator before it is initialized.
use os_pint_os_project.Base.{ℕ, false, inl, refl}
use os_pint_os_project.Random.{Random, random_init, random_bytes}
use os_pint_os_project.Random.Permutation.{
  Permuted, Filled, random_init-Permuted, random_bytes-Filled,
}

abbrev fresh : Random
fresh = record { s = λ a. 0; s_i = 0; s_j = 0; inited = false }

abbrev blank : ℕ → ℕ
blank j = 0

random_init-Permuted_example : Permuted (random_init 7 fresh).s
random_init-Permuted_example = random_init-Permuted 7 fresh

random_bytes-Filled_example :
    Filled 40 4 blank (random_bytes 40 4 blank fresh).0
    × Permuted (random_bytes 40 4 blank fresh).1.s
random_bytes-Filled_example = random_bytes-Filled 40 4 blank fresh (inl refl)

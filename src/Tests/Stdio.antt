-- ===== src/Tests/Stdio.antt =====
-- Numbers and formats.
use os_pint_os_project.Base.{
  ℕ, ◌+◌, ◌<◌, ◌≤◌, true, false, none, some, List, [], ◌∷◌, length, get_or, ◌≡◌, ◌⊎◌, inl, arith,
  refl, negsuc,
}
use os_pint_os_project.Strings.{Memory}
use os_pint_os_project.Stdlib.Atoi.{atoi}
use os_pint_os_project.Stdio.{
  Conversion, intmax, Buffer, base_o, push, no_zero, digit_loop, zeros_loop, fill_buffer, lay_out,
  format_integer, sign_of, output_dup, format_string,
}
use os_pint_os_project.Stdio.Parse.{
  word, text, no_flags, take_word, set_flag, parse_flags, parse_digits, parse_width, parse_places,
  parse_precision, doubled, parse_type, parse_conversion,
}
use os_pint_os_project.Stdio.Print.{
  vprintf, vprintf_loop, conversion, convert, signed_conversion, string_conversion, take_value,
  vsnprintf,
}
use os_pint_os_project.Stdio.Bounds.{format_integer-fits}
use os_pint_os_project.Stdio.Roundtrip.{atoi-vprintf}
use os_pint_os_project.Stdio.Buffer.{vsnprintf-bounded}

-- %#'200.100jo
abbrev octal : Conversion
octal = record {
  flags = record no_flags { pound = true; group = true };
  width = 200;
  precision = some 100;
  type = intmax;
}

format_integer-fits_example :
    (buf : Buffer) × (out : List ℕ) × (fill_buffer 18446744073709551615 base_o octal ≡ some buf)
    × (length buf ≤ 64)
    × (format_integer 18446744073709551615 false false base_o octal ≡ some out)
format_integer-fits_example =
    format_integer-fits 18446744073709551615 false false base_o octal (omega arith) (inl refl)

-- The least int.
atoi-vprintf_example :
    (out : List ℕ) × (vprintf (b'%' ∷ b'd' ∷ []) (word 2147483648 ∷ []) ≡ some out)
    × (atoi out ≡ some (negsuc 2147483647))
atoi-vprintf_example = atoi-vprintf 2147483648 (omega arith)

atoi_space : atoi (b' ' ∷ 9 ∷ b'-' ∷ b'1' ∷ b'0' ∷ b'x' ∷ []) ≡ some (negsuc 9)
unfolding atoi
atoi_space = refl

atoi_overflow :
    atoi (b'2' ∷ b'1' ∷ b'4' ∷ b'7' ∷ b'4' ∷ b'8' ∷ b'3' ∷ b'6' ∷ b'4' ∷ b'8' ∷ []) ≡ none
unfolding atoi
atoi_overflow = refl

-- "%-3s|"
abbrev padded : List ℕ
padded = b'%' ∷ b'-' ∷ b'3' ∷ b's' ∷ b'|' ∷ []

padded_run : vprintf padded (text (some (b'a' ∷ [])) ∷ []) ≡ some (b'a' ∷ b' ' ∷ b' ' ∷ b'|' ∷ [])
unfolding vprintf vprintf_loop conversion convert string_conversion format_string take_word set_flag
    parse_flags parse_digits parse_width parse_places parse_precision parse_type doubled
    parse_conversion
padded_run = refl

-- "%0*d" with the width -5: the field is padded on both sides.
padded_twice :
    vprintf (b'%' ∷ b'0' ∷ b'*' ∷ b'd' ∷ []) (word 4294967291 ∷ word 42 ∷ [])
    ≡ some (b'0' ∷ b'0' ∷ b'0' ∷ b'4' ∷ b'2' ∷ b' ' ∷ b' ' ∷ b' ' ∷ [])
unfolding vprintf vprintf_loop conversion convert signed_conversion take_value format_integer
    fill_buffer digit_loop zeros_loop push no_zero lay_out sign_of output_dup take_word set_flag
    parse_flags parse_digits parse_width parse_places parse_precision parse_type doubled
    parse_conversion
padded_twice = refl

abbrev blank : Memory
blank a = 7

vsnprintf-bounded_example :
    (m' : Memory) × (vsnprintf 100 3 padded (text (some (b'a' ∷ [])) ∷ []) blank ≡ some (4, m'))
    × ((j : ℕ) → j < 2 → m' (100 + j) ≡ get_or (b'a' ∷ b' ' ∷ b' ' ∷ b'|' ∷ []) j 0)
    × (m' 102 ≡ 0)
    × ((a : ℕ) → (a < 100) ⊎ (103 ≤ a) → m' a ≡ 7)
vsnprintf-bounded_example =
    vsnprintf-bounded 100 3 padded (text (some (b'a' ∷ [])) ∷ []) blank
      (b'a' ∷ b' ' ∷ b' ' ∷ b'|' ∷ []) (omega arith) padded_run (omega arith)

-- ===== src/Stdio/Roundtrip.antt =====
-- An int printed with %d is read back by atoi.
use os_pint_os_project.Base.{
  ℕ, zero, suc, ◌-◌, ◌%◌, ◌^◌, ◌<◌, ◌≤◌, Bool, true, false, none, some, List, [], ◌∷◌, ◌++◌,
  append-nil, length, ltb, leb, ◌==◌, if◌then◌else◌, ℤ, pos, ◌≡◌, inl, inr, arith, refl, ap, ◌∙◌,
  Bool-cases, lt→ltb, le→ltb,
}
use os_pint_os_project.Stdlib.Atoi.{is_space, negated, atoi}
use os_pint_os_project.Stdio.{
  Conversion, int, Buffer, base_d, push, digit_loop, zeros_loop, fill_buffer, lay_out,
  format_integer, sign_of, output_dup,
}
use os_pint_os_project.Stdio.Parse.{
  word, no_flags, take_word, set_flag, parse_flags, parse_digits, parse_width, parse_places,
  parse_precision, parse_type, parse_conversion,
}
use os_pint_os_project.Stdio.Print.{
  vprintf, vprintf_loop, conversion, letter, convert, signed_conversion, take_value,
}
use os_pint_os_project.Stdio.Digits.{Digits, number, digit_loop-number, value_loop-number}

-- The conversion %d.
abbrev plain : Conversion
plain = record { flags = no_flags; width = 0; precision = none; type = int }

decimal :
    (value : ℕ)
    → value ≤ 2 ^ 31
    → (buf : Buffer) × (fill_buffer value base_d plain ≡ some buf)
      × Digits buf
      × (number 0 buf ≡ value)
      × (1 ≤ length buf)
unfolding fill_buffer digit_loop zeros_loop push
decimal zero h = (48 ∷ [], refl, (refl, tt), refl, omega arith)
decimal (suc v) h =
    let (buf, runs, d, num, _, some_digits) =
      digit_loop-number 65 10 (suc v) 0 [] (omega arith) (omega arith) (omega arith) tt in
    let one : 1 ≤ length buf = elim some_digits [ inl z ↦ absurd (omega arith) | inr l ↦ l ] in
    let enough : ltb (length buf) 1 ≡ false = le→ltb (length buf) 1 one in
    (buf, rw (runs, enough) refl, d, num, one)

lay_out-plain :
    (sign : ℕ) (buf : Buffer)
    → lay_out sign 0 plain buf ≡ (if sign == 0 then [] else sign ∷ []) ++ buf
unfolding lay_out output_dup
lay_out-plain sign buf =
    let no_pad : (k : ℕ) → 0 - length buf - 0 - k ≡ 0 = λ k. omega arith in
    elim (Bool-cases (sign == 0)) [
      | inl none_there ↦ rw (none_there, no_pad 0) (append-nil buf)
      | inr there ↦ rw (there, no_pad 1) (ap (λ r. sign ∷ r) (append-nil buf))
    ]

-- The int of 32 bits.
abbrev pub int_of : ℕ → ℤ
int_of x = if ltb x (2 ^ 31) then pos x else negated (2 ^ 32 - x)

atoi-Digits :
    (buf : List ℕ)
    → Digits buf
    → 1 ≤ length buf
    → number 0 buf < 2 ^ 31
    → atoi buf ≡ some (pos (number 0 buf))
unfolding atoi
atoi-Digits [] d l h = absurd (omega arith)
atoi-Digits (c ∷ s) (is, d) l h =
    let no_space : is_space c ≡ false = ground (arith, is) in
    let no_plus : (c == b'+') ≡ false = ground (arith, is) in
    let no_minus : (c == b'-') ≡ false = ground (arith, is) in
    let reads = value_loop-number (c ∷ s) 0 (is, d) (omega arith) in
    rw (no_space, no_plus, no_minus, reads, lt→ltb (number 0 (c ∷ s)) (2 ^ 31) h) refl

atoi-minus :
    (buf : List ℕ)
    → Digits buf
    → number 0 buf ≤ 2 ^ 31
    → atoi (b'-' ∷ buf) ≡ some (negated (number 0 buf))
unfolding atoi
atoi-minus buf d h = rw (value_loop-number buf 0 d h) refl

vprintf_d :
    (x : ℕ) (out : List ℕ)
    → x < 2 ^ 32
    → format_integer (if leb (2 ^ 31) x then 2 ^ 32 - x else x) true (leb (2 ^ 31) x) base_d plain
      ≡ some out
    → vprintf (b'%' ∷ b'd' ∷ []) (word x ∷ []) ≡ some out
unfolding vprintf vprintf_loop conversion letter convert signed_conversion take_value take_word
    set_flag parse_flags parse_digits parse_width parse_places parse_precision parse_type
    parse_conversion
vprintf_d x out h e =
    let small : x % 4294967296 ≡ x = omega arith in rw (small, e) (ap some (append-nil out))

format_plain :
    (value : ℕ) (negative : Bool) (buf : Buffer)
    → fill_buffer value base_d plain ≡ some buf
    → format_integer value true negative base_d plain ≡ some (if negative then b'-' ∷ buf else buf)
unfolding format_integer sign_of
format_plain value true buf fills = rw fills (ap some (lay_out-plain b'-' buf))
format_plain value false buf fills = rw fills (ap some (lay_out-plain 0 buf))

-- An int, given as its 32 bits, printed with %d and read back by `atoi` is the int that it was, the
-- least one included, and nothing overflows on the way.
pub atoi-vprintf :
    (x : ℕ)
    → x < 2 ^ 32
    → (out : List ℕ) × (vprintf (b'%' ∷ b'd' ∷ []) (word x ∷ []) ≡ some out)
      × (atoi out ≡ some (int_of x))
atoi-vprintf x h = elim (Bool-cases (leb (2 ^ 31) x)) [
  | inl is_negative ↦
      let (buf, fills, d, num, _) = decimal (2 ^ 32 - x) (ground (arith, is_negative)) in
      let below : ltb x (2 ^ 31) ≡ false = ground (arith, is_negative) in
      (
        b'-' ∷ buf,
        vprintf_d x (b'-' ∷ buf) h (rw is_negative (format_plain (2 ^ 32 - x) true buf fills)),
        atoi-minus buf d (rw num (ground (arith, is_negative))) ∙ rw (num, below) refl,
      )
  | inr positive ↦
      let (buf, fills, d, num, some_digits) = decimal x (ground (arith, positive)) in
      let below : ltb x (2 ^ 31) ≡ true = ground (arith, positive) in
      (
        buf,
        vprintf_d x buf h (rw positive (format_plain x false buf fills)),
        atoi-Digits buf d some_digits (rw num (ground (arith, positive))) ∙ rw (num, below) refl,
      )
]

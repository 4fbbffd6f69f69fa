-- ===== src/Stdio/Print.antt =====
-- lib/stdio.c: __vprintf, vsnprintf and the output of sizes.
use os_pint_os_project.Base.{
  ℕ, zero, suc, ◌+◌, ◌-◌, ◌%◌, ◌^◌, Bool, true, false, not, ◌&&◌, ◌||◌, Option, none, some, List,
  [], ◌∷◌, ◌++◌, length, take, ltb, leb, ◌==◌, if◌then◌else◌, update,
}
use os_pint_os_project.Base.Check.{◌>>=◌, ◌>>◌, assert}
use os_pint_os_project.Strings.{Memory}
use os_pint_os_project.Stdio.{
  IntType, char, short, intmax, longlong, Conversion, IntegerBase, base_d, base_o, base_x,
  base_upper_x, format_integer, format_string,
}
use os_pint_os_project.Stdio.Parse.{text, Args, take_word, take_wide, no_flags, parse_conversion}

-- The bits of a type, on a machine of 32 bits.
abbrev pub bits : IntType → ℕ
bits char = 8
bits short = 16
bits intmax = 64
bits longlong = 64
bits _ = 32

-- `va_arg` for a type, cut to its bits.
unfoldable pub take_value : IntType → Args → Option (ℕ × Args)
unfolding take_word take_wide
take_value intmax args = take_wide args
take_value longlong args = take_wide args
take_value char args = do (x, rest) ← take_word args; some (x % 2 ^ 8, rest)
take_value short args = do (x, rest) ← take_word args; some (x % 2 ^ 16, rest)
take_value _ args = take_word args

-- Whether the bits of a value stand for a negative number, and its absolute value.
abbrev pub is_negative : IntType → ℕ → Bool
is_negative type x = leb (2 ^ (bits type - 1)) x

abbrev pub magnitude : IntType → ℕ → ℕ
magnitude type x = if is_negative type x then 2 ^ bits type - x else x

unfoldable pub signed_conversion : Conversion → Args → Option (List ℕ × Args)
unfolding take_value
signed_conversion c args = do
  (x, rest) ← take_value c.type args
  out ← format_integer (magnitude c.type x) true (is_negative c.type x) base_d c
  some (out, rest)

unfoldable pub unsigned_conversion : IntegerBase → Conversion → Args → Option (List ℕ × Args)
unfolding take_value
unsigned_conversion b c args = do
  (x, rest) ← take_value c.type args
  out ← format_integer x false false b c
  some (out, rest)

unfoldable pub char_conversion : Conversion → Args → Option (List ℕ × Args)
unfolding take_word
char_conversion c args = do (x, rest) ← take_word args; some (format_string (x % 256 ∷ []) c, rest)

abbrev pub null_text : List ℕ
null_text = b'(' ∷ b'n' ∷ b'u' ∷ b'l' ∷ b'l' ∷ b')' ∷ []

-- `strnlen (s, c.precision)` cuts the string at the precision.
abbrev pub cut : Option ℕ → List ℕ → List ℕ
cut none s = s
cut (some n) s = take n s

unfoldable pub string_conversion : Conversion → Args → Option (List ℕ × Args)
string_conversion c (text none ∷ args) = some (format_string (cut c.precision null_text) c, args)
string_conversion c (text (some s) ∷ args) = some (format_string (cut c.precision s) c, args)
string_conversion c _ = none

unfoldable pub pointer_conversion : Conversion → Args → Option (List ℕ × Args)
unfolding take_word
pointer_conversion c args = do
  (p, rest) ← take_word args
  out ← format_integer p false false base_x (record c { flags = record no_flags { pound = true } })
  some (out, rest)

abbrev refusal : List ℕ → List ℕ
refusal rest = b'<' ∷ b'<' ∷ b'n' ∷ b'o' ∷ b' ' ∷ b'%' ∷ rest

-- What the calls of __printf for a conversion that is not supported, or unknown, write.
abbrev pub no_kernel : ℕ → List ℕ
no_kernel ch =
    refusal
      (ch ∷ b' ' ∷ b'i' ∷ b'n' ∷ b' ' ∷ b'k' ∷ b'e' ∷ b'r' ∷ b'n' ∷ b'e' ∷ b'l' ∷ b'>' ∷ b'>' ∷ [])

abbrev pub no_conversion : ℕ → List ℕ
no_conversion ch = refusal (
    ch ∷ b' ' ∷ b'c' ∷ b'o' ∷ b'n' ∷ b'v' ∷ b'e' ∷ b'r' ∷ b's' ∷ b'i' ∷ b'o' ∷ b'n' ∷ b'>' ∷ b'>'
    ∷ [])

abbrev pub is_unsupported : ℕ → Bool
is_unsupported ch =
    (ch == b'f')
    || ((ch == b'e') || ((ch == b'E') || ((ch == b'g') || ((ch == b'G') || (ch == b'n')))))

-- The switch over the letter of a conversion.
unfoldable pub convert : ℕ → Conversion → Args → Option (List ℕ × Args)
convert ch c args =
    if ch == b'd' || ch == b'i'
    then signed_conversion c args
    else if ch == b'o'
    then unsigned_conversion base_o c args
    else if ch == b'u'
    then unsigned_conversion base_d c args
    else if ch == b'x'
    then unsigned_conversion base_x c args
    else if ch == b'X'
    then unsigned_conversion base_upper_x c args
    else if ch == b'c'
    then char_conversion c args
    else if ch == b's'
    then string_conversion c args
    else if ch == b'p'
    then pointer_conversion c args
    else some ((if is_unsupported ch then no_kernel ch else no_conversion ch), args)

-- The letter at the end of a conversion; the rest of the format is what follows it.
unfoldable pub letter : List ℕ → Conversion → Args → Option (List ℕ × List ℕ × Args)
letter [] c args = none
letter (ch ∷ rest) c args = do (out, args') ← convert ch c args; some (out, rest, args')

-- The conversion that a format starts with after its `%`.
unfoldable pub conversion : List ℕ → Args → Option (List ℕ × List ℕ × Args)
unfolding letter
conversion format args = parse_conversion format args >>= λ r. letter r.1 r.0 r.2

abbrev pub starts_with_percent : List ℕ → Bool
starts_with_percent [] = false
starts_with_percent (c ∷ format) = c == b'%'

abbrev pub after_first : List ℕ → List ℕ
after_first [] = []
after_first (c ∷ format) = format

-- The output of a format. A round takes at least a character.
unfoldable pub vprintf_loop : (n : ℕ) → (format : List ℕ) → Args → Option (List ℕ)
vprintf_loop n [] args = some []
vprintf_loop zero (ch ∷ format) args = none
vprintf_loop (suc n) (ch ∷ format) args =
    let literal = vprintf_loop n format args >>= λ out. some (ch ∷ out) in
    let percent = vprintf_loop n (after_first format) args >>= λ out. some (b'%' ∷ out) in
    let converted =
      conversion format args >>= λ r. vprintf_loop n r.1 r.2 >>= λ out. some (r.0 ++ out) in
    if not (ch == b'%') then literal else if starts_with_percent format then percent else converted

unfoldable pub vprintf : List ℕ → Args → Option (List ℕ)
vprintf format args = vprintf_loop (length format) format args

-- struct vsnprintf_aux and the memory. The lengths are ints: a negative max_length stands as 0, since
-- no length is below it either.
pub record Aux : Type 0 where
  pub p : ℕ
  pub len : ℕ
  pub max_length : ℕ
  pub memory : Memory

unfoldable pub vsnprintf_helper : ℕ → Aux → Aux
vsnprintf_helper ch aux =
    if ltb aux.len aux.max_length
    then record aux { len = aux.len + 1; memory = update aux.memory aux.p ch; p = aux.p + 1 }
    else record aux { len = aux.len + 1 }

unfoldable pub output_all : List ℕ → Aux → Aux
output_all [] aux = aux
output_all (ch ∷ out) aux = output_all out (vsnprintf_helper ch aux)

-- `buf_size > 0 ? buf_size - 1 : 0` as an int, which is negative from 2 ^ 31 on.
abbrev pub as_max_length : (buf_size : ℕ) → ℕ
as_max_length buf_size = if ltb 0 buf_size && ltb (buf_size - 1) 2147483648 then buf_size - 1 else 0

-- The length returned and the memory; `none` if the length overflows.
unfoldable pub vsnprintf :
    (buffer buf_size : ℕ) → (format : List ℕ) → Args → Memory → Option (ℕ × Memory)
vsnprintf buffer buf_size format args m = do
  out ← vprintf format args
  let aux =
      output_all out
        (record { p = buffer; len = 0; max_length = as_max_length buf_size; memory = m })
  assert (ltb aux.len 2147483648)
  some (aux.len, if ltb 0 buf_size then update aux.memory aux.p 0 else aux.memory)

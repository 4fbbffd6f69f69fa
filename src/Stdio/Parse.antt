-- ===== src/Stdio/Parse.antt =====
-- lib/stdio.c: parse_conversion. A format is the list of its characters; its end is the null byte.
use os_pint_os_project.Base.{
  ℕ, ◌+◌, ◌-◌, ◌*◌, ◌%◌, ◌^◌, Bool, true, false, not, ◌&&◌, ◌||◌, Option, none, some, List, [], ◌∷◌,
  ltb, leb, ◌==◌, if◌then◌else◌,
}
use os_pint_os_project.Base.Check.{◌>>=◌}
use os_pint_os_project.Stdio.{
  Flags, IntType, char, short, int, intmax, long, longlong, ptrdifft, sizet, Conversion,
}

-- An argument: 32 bits, 64 bits, or a pointer to a string, which may be NULL.
pub data Arg : Type 0 where
  word : ℕ → Arg
  wide : ℕ → Arg
  text : Option (List ℕ) → Arg

abbrev pub Args : Type 0
Args = List Arg

-- `va_arg`
unfoldable pub take_word : Args → Option (ℕ × Args)
take_word (word x ∷ args) = some (x % 2 ^ 32, args)
take_word _ = none

unfoldable pub take_wide : Args → Option (ℕ × Args)
take_wide (wide x ∷ args) = some (x % 2 ^ 64, args)
take_wide _ = none

abbrev pub no_flags : Flags
no_flags = record {
  minus = false;
  plus = false;
  space = false;
  pound = false;
  zeros = false;
  group = false;
}

-- The cases of the switch over flag characters.
unfoldable pub set_flag : ℕ → Flags → Option Flags
set_flag c f =
    if c == b'-'
    then some (record f { minus = true })
    else if c == b'+'
    then some (record f { plus = true })
    else if c == b' '
    then some (record f { space = true })
    else if c == b'#'
    then some (record f { pound = true })
    else if c == b'0'
    then some (record f { zeros = true })
    else if c == b'\''
    then some (record f { group = true })
    else none

unfoldable pub parse_flags : List ℕ → Flags → List ℕ × Flags
unfolding set_flag
parse_flags [] f = ([], f)
parse_flags (c ∷ format) f = elim (set_flag c f) [
  | some f' ↦ parse_flags format f'
  | none ↦ (c ∷ format, f)
]

-- What the flags leave of one another.
abbrev pub settle : Flags → Flags
settle f = record f { zeros = f.zeros && not f.minus; space = f.space && not f.plus }

abbrev pub is_digit : ℕ → Bool
is_digit c = leb b'0' c && leb c b'9'

-- `for (; isdigit (*format); format++)`; the number stays in an int.
unfoldable pub parse_digits : List ℕ → ℕ → List ℕ × ℕ
parse_digits [] v = ([], v)
parse_digits (c ∷ format) v =
    if is_digit c then parse_digits format (v * 10 + c - b'0') else (c ∷ format, v)

-- The format, the width, whether the width was negative, and the arguments.
unfoldable pub parse_width : List ℕ → Args → Option (List ℕ × ℕ × Bool × Args)
unfolding take_word
parse_width [] args = some ([], 0, false, args)
parse_width (c ∷ format) args =
    if c == b'*'
    then (take_word args >>= λ r.
        some (
          if ltb r.0 (2 ^ 31)
          then (format, r.0, false, r.1)
          else (format, 2 ^ 32 - r.0, true, r.1)))
    else (let (rest, v) = parse_digits (c ∷ format) 0 in some (rest, v, false, args))

-- After the dot.
unfoldable pub parse_places : List ℕ → Args → Option (List ℕ × Option ℕ × Args)
unfolding take_word
parse_places [] args = some ([], some 0, args)
parse_places (c ∷ format) args =
    if c == b'*'
    then (take_word args >>= λ r. some (format, (if ltb r.0 (2 ^ 31) then some r.0 else none), r.1))
    else (let (rest, v) = parse_digits (c ∷ format) 0 in some (rest, some v, args))

unfoldable pub parse_precision : List ℕ → Args → Option (List ℕ × Option ℕ × Args)
unfolding parse_places
parse_precision [] args = some ([], none, args)
parse_precision (c ∷ format) args =
    if c == b'.' then parse_places format args else some (c ∷ format, none, args)

-- The second letter of `hh` and `ll`.
unfoldable pub doubled : ℕ → (once twice : IntType) → List ℕ → List ℕ × IntType
doubled c once twice [] = ([], once)
doubled c once twice (d ∷ format) = if d == c then (format, twice) else (d ∷ format, once)

unfoldable pub parse_type : List ℕ → List ℕ × IntType
unfolding doubled
parse_type [] = ([], int)
parse_type (c ∷ format) =
    if c == b'h'
    then doubled b'h' short char format
    else if c == b'j'
    then (format, intmax)
    else if c == b'l'
    then doubled b'l' long longlong format
    else if c == b't'
    then (format, ptrdifft)
    else if c == b'z'
    then (format, sizet)
    else (c ∷ format, int)

-- `c->flags &= ~ZERO` where a precision is given.
abbrev pub zeros_left : Flags → Option ℕ → Flags
zeros_left f none = f
zeros_left f (some p) = record f { zeros = false }

unfoldable pub parse_conversion : List ℕ → Args → Option (Conversion × List ℕ × Args)
parse_conversion format args = do
  let (format1, f) = parse_flags format no_flags
  (format2, width, negative, args2) ← parse_width format1 args
  (format3, precision, args3) ← parse_precision format2 args2
  let (format4, type) = parse_type format3
  let f1 = settle f
  let f2 = record f1 { minus = f1.minus || negative }
  some (
    record { flags = zeros_left f2 precision; width = width; precision = precision; type = type },
    format4,
    args3,
  )

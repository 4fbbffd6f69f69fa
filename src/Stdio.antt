-- ===== src/Stdio.antt =====
-- lib/stdio.c: formatted output. The function `output` is called once for each byte: a formatting
-- function gives the list of these bytes. `none` is a write outside the buffer of digits, an argument
-- that is not what the format wants, or a format that ends inside a conversion, past which the source
-- reads on.
pub mod Parse
pub mod Print
pub mod Digits
pub mod Roundtrip
pub mod Buffer
pub mod Rounds
pub mod Bounds
use os_pint_os_project.Base.{
  ℕ, zero, suc, ◌+◌, ◌-◌, ◌*◌, ◌/◌, ◌%◌, Bool, true, false, not, ◌&&◌, ◌||◌, Option, none, some,
  List, [], ◌∷◌, ◌++◌, length, get_or, ltb, ◌==◌, if◌then◌else◌,
}
use os_pint_os_project.Base.Check.{◌>>=◌, ◌>>◌, assert}

-- The bits of `flags`.
pub record Flags : Type 0 where
  pub minus : Bool
  pub plus : Bool
  pub space : Bool
  pub pound : Bool
  pub zeros : Bool
  pub group : Bool

-- The values of `type`.
pub data IntType : Type 0 where
  char short int intmax long longlong ptrdifft sizet : IntType

-- struct printf_conversion. The precision -1 is `none`.
pub record Conversion : Type 0 where
  pub flags : Flags
  pub width : ℕ
  pub precision : Option ℕ
  pub type : IntType

pub record IntegerBase : Type 0 where
  pub base : ℕ
  pub digits : List ℕ
  pub x : ℕ
  pub group : ℕ

abbrev ten_digits : List ℕ → List ℕ
ten_digits rest = b'0' ∷ b'1' ∷ b'2' ∷ b'3' ∷ b'4' ∷ b'5' ∷ b'6' ∷ b'7' ∷ b'8' ∷ b'9' ∷ rest

abbrev pub base_d : IntegerBase
base_d = record { base = 10; digits = ten_digits []; x = 0; group = 3 }

abbrev pub base_o : IntegerBase
base_o = record {
  base = 8;
  digits = b'0' ∷ b'1' ∷ b'2' ∷ b'3' ∷ b'4' ∷ b'5' ∷ b'6' ∷ b'7' ∷ [];
  x = 0;
  group = 3;
}

abbrev pub base_x : IntegerBase
base_x = record {
  base = 16;
  digits = ten_digits (b'a' ∷ b'b' ∷ b'c' ∷ b'd' ∷ b'e' ∷ b'f' ∷ []);
  x = b'x';
  group = 4;
}

abbrev pub base_upper_x : IntegerBase
base_upper_x = record {
  base = 16;
  digits = ten_digits (b'A' ∷ b'B' ∷ b'C' ∷ b'D' ∷ b'E' ∷ b'F' ∷ []);
  x = b'X';
  group = 4;
}

-- The buffer holds what was stored last first, so `cp - buf` is its length.
abbrev pub Buffer : Type 0
Buffer = List ℕ

abbrev pub buf_size : ℕ
buf_size = 64

-- `*cp++ = c`
unfoldable pub push : ℕ → Buffer → Option Buffer
push c buf = if ltb (length buf) buf_size then some (c ∷ buf) else none

-- `while (value > 0)`; each round divides the value.
unfoldable pub digit_loop :
    (n : ℕ) → IntegerBase → (group : Bool) → (value digit_cnt : ℕ) → Buffer → Option Buffer
unfolding push
digit_loop zero b group value digit_cnt buf = none
digit_loop (suc n) b group value digit_cnt buf =
    let rest = (do
      buf1 ←
          if group && (ltb 0 digit_cnt && (digit_cnt % b.group == 0))
          then push b',' buf
          else some buf
      buf2 ← push (get_or b.digits (value % b.base) 0) buf1
      digit_loop n b group (value / b.base) (digit_cnt + 1) buf2) in
    if value == 0 then some buf else rest

-- `while (cp - buf < precision && cp < buf + sizeof buf - 1)`
unfoldable pub zeros_loop : (n precision : ℕ) → Buffer → Option Buffer
unfolding push
zeros_loop zero precision buf = none
zeros_loop (suc n) precision buf =
    let rest = push b'0' buf >>= zeros_loop n precision in
    if ltb (length buf) precision && ltb (length buf) (buf_size - 1) then rest else some buf

-- `cp == buf || cp[-1] != '0'`
unfoldable pub no_zero : Buffer → Bool
no_zero [] = true
no_zero (c ∷ buf) = not (c == b'0')

unfoldable pub output_dup : (ch cnt : ℕ) → List ℕ
output_dup ch zero = []
output_dup ch (suc cnt) = ch ∷ output_dup ch cnt

-- The sign character, or 0.
unfoldable pub sign_of : (is_signed negative : Bool) → Flags → ℕ
sign_of is_signed negative f =
    if not is_signed
    then 0
    else if f.plus
    then (if negative then b'-' else b'+')
    else if f.space
    then (if negative then b'-' else b' ')
    else if negative
    then b'-'
    else 0

abbrev pub rendered : Option ℕ → ℕ
rendered none = 1
rendered (some p) = p

-- The buffer when all digits and zeros are stored.
unfoldable pub fill_buffer : (value : ℕ) → IntegerBase → Conversion → Option Buffer
unfolding push no_zero
fill_buffer value b c = do
  buf1 ← digit_loop (buf_size + 1) b c.flags.group value 0 []
  buf2 ← zeros_loop (buf_size + 1) (rendered c.precision) buf1
  if c.flags.pound && ((b.base == 8) && no_zero buf2) then push b'0' buf2 else some buf2

-- What follows the accumulation of the digits.
unfoldable pub lay_out : (sign x : ℕ) → Conversion → Buffer → List ℕ
unfolding output_dup
lay_out sign x c buf =
    let pad_cnt = c.width - length buf - (if x == 0 then 0 else 2) - (if sign == 0 then 0 else 1) in
    (if c.flags.minus || c.flags.zeros then [] else output_dup b' ' pad_cnt)
    ++ ((if sign == 0 then [] else sign ∷ [])
        ++ ((if x == 0 then [] else b'0' ∷ x ∷ [])
            ++ ((if c.flags.zeros then output_dup b'0' pad_cnt else [])
                ++ (buf ++ (if c.flags.minus then output_dup b' ' pad_cnt else [])))))

unfoldable pub format_integer :
    (value : ℕ) (is_signed negative : Bool) → IntegerBase → Conversion → Option (List ℕ)
unfolding sign_of
format_integer value is_signed negative b c = do
  buf ← fill_buffer value b c
  some (
      lay_out (sign_of is_signed negative c.flags)
        (if c.flags.pound && not (value == 0) then b.x else 0) c buf)

unfoldable pub format_string : List ℕ → Conversion → List ℕ
unfolding output_dup
format_string s c =
    let pad = output_dup b' ' (c.width - length s) in
    (if c.flags.minus then [] else pad) ++ (s ++ (if c.flags.minus then pad else []))

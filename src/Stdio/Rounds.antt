-- ===== src/Stdio/Rounds.antt =====
-- The rounds of __vprintf: as many as the format has characters are enough.
use os_pint_os_project.Base.{
  ℕ, zero, suc, ◌+◌, ◌-◌, ◌*◌, ◌<◌, ◌≤◌, Bool, Option, some, List, [], ◌∷◌, ◌++◌, length, ◌==◌, ◌≡◌,
  inl, inr, arith, refl, ap, Bool-cases, Option-cases,
}
use os_pint_os_project.Base.Check.{◌>>=◌}
use os_pint_os_project.Stdio.{Flags, Conversion, IntType, char, short, long, longlong}
use os_pint_os_project.Stdio.Parse.{
  Args, no_flags, set_flag, parse_flags, parse_digits, parse_width, parse_places, parse_precision,
  doubled, parse_type, parse_conversion, take_word, is_digit,
}
use os_pint_os_project.Stdio.Print.{
  convert, letter, conversion, starts_with_percent, after_first, vprintf_loop,
}

parse_flags-le : (format : List ℕ) (f : Flags) → length (parse_flags format f).0 ≤ length format
unfolding parse_flags
parse_flags-le [] f = omega arith
parse_flags-le (c ∷ format) f = elim (Option-cases (set_flag c f)) [
  | inl e ↦ rw (parse_flags, e) (omega arith)
  | inr (f', e) ↦ rw (parse_flags, e) (omega (arith, parse_flags-le format f'))
]

parse_digits-le : (format : List ℕ) (v : ℕ) → length (parse_digits format v).0 ≤ length format
unfolding parse_digits
parse_digits-le [] v = omega arith
parse_digits-le (c ∷ format) v = elim (Bool-cases (is_digit c)) [
  | inl e ↦ rw e (omega (arith, parse_digits-le format (v * 10 + c - 48)))
  | inr e ↦ rw e (omega arith)
]

doubled-le :
    (c : ℕ) (a b : IntType) (format : List ℕ) → length (doubled c a b format).0 ≤ length format
unfolding doubled
doubled-le c a b [] = omega arith
doubled-le c a b (d ∷ format) = ground arith

parse_type-le : (format : List ℕ) → length (parse_type format).0 ≤ length format
unfolding parse_type
parse_type-le [] = omega arith
parse_type-le (c ∷ format) =
    ground (arith, doubled-le 104 short char format, doubled-le 108 long longlong format)

parse_width-le :
    (format rest : List ℕ) (width : ℕ) (negative : Bool) (args args' : Args)
    → parse_width format args ≡ some (rest, width, negative, args')
    → length rest ≤ length format
unfolding parse_width
parse_width-le [] rest width negative args args' e = ground arith
parse_width-le (c ∷ format) rest width negative args args' e =
    elim (Option-cases (take_word args)) [
      | inl n ↦ ground (arith, n, parse_digits-le (c ∷ format) 0)
      | inr (r, s) ↦ ground (arith, s, parse_digits-le (c ∷ format) 0)
    ]

parse_places-le :
    (format rest : List ℕ) (precision : Option ℕ) (args args' : Args)
    → parse_places format args ≡ some (rest, precision, args')
    → length rest ≤ length format
unfolding parse_places
parse_places-le [] rest precision args args' e = ground arith
parse_places-le (c ∷ format) rest precision args args' e = elim (Option-cases (take_word args)) [
  | inl n ↦ ground (arith, n, parse_digits-le (c ∷ format) 0)
  | inr (r, s) ↦ ground (arith, s, parse_digits-le (c ∷ format) 0)
]

parse_precision-le :
    (format rest : List ℕ) (precision : Option ℕ) (args args' : Args)
    → parse_precision format args ≡ some (rest, precision, args')
    → length rest ≤ length format
unfolding parse_precision
parse_precision-le [] rest precision args args' e = ground arith
parse_precision-le (c ∷ format) rest precision args args' e =
    ground (arith, parse_places-le format rest precision args args')

parse_conversion-le :
    (format rest : List ℕ) (c : Conversion) (args args' : Args)
    → parse_conversion format args ≡ some (c, rest, args')
    → length rest ≤ length format
unfolding parse_conversion
parse_conversion-le format rest c args args' e =
    let flags = parse_flags-le format no_flags in
    elim (Option-cases (parse_width (parse_flags format no_flags).0 args)) [
      | inl n ↦ ground (arith, n)
      | inr ((format2, width, negative, args2), w) ↦
          elim (Option-cases (parse_precision format2 args2)) [
            | inl n ↦ ground (arith, w, n)
            | inr ((format3, precision, args3), p) ↦ ground (
              arith,
              w,
              p,
              flags,
              parse_width-le (parse_flags format no_flags).0 format2 width negative args args2 w,
              parse_precision-le format2 format3 precision args2 args3 p,
              parse_type-le format3,
            )
          ]
    ]

conversion-lt :
    (format out rest : List ℕ) (args args' : Args)
    → conversion format args ≡ some (out, rest, args')
    → length rest < length format
unfolding conversion letter
conversion-lt format out rest args args' e = elim (Option-cases (parse_conversion format args)) [
  | inl n ↦ ground (arith, n)
  | inr ((c, format', args2), p) ↦
      letter-lt format' out rest c args2 args' (ground (arith, e, p))
        (parse_conversion-le format format' c args args2 p)
]
  where
    letter-lt :
        (format' out rest : List ℕ) (c : Conversion) (args2 args' : Args)
        → letter format' c args2 ≡ some (out, rest, args')
        → length format' ≤ length format
        → length rest < length format
    letter-lt [] out rest c args2 args' e le = ground arith
    letter-lt (ch ∷ format'') out rest c args2 args' e le =
        elim (Option-cases (convert ch c args2)) [
          | inl n ↦ ground (arith, n)
          | inr (r, q) ↦ ground (arith, q)
        ]

after_first-le : (format : List ℕ) → length (after_first format) ≤ length format
after_first-le [] = omega arith
after_first-le (c ∷ format) = omega arith

-- The loop of __vprintf ends: it makes at most as many rounds as the format has characters, so that
-- any number of rounds from there on gives the same output.
pub vprintf_loop-rounds :
    (n m : ℕ) (format : List ℕ) (args : Args)
    → length format ≤ n
    → length format ≤ m
    → vprintf_loop n format args ≡ vprintf_loop m format args
unfolding vprintf_loop
vprintf_loop-rounds n m [] args h k = refl
vprintf_loop-rounds zero m (ch ∷ format) args h k = absurd (omega arith)
vprintf_loop-rounds (suc n) zero (ch ∷ format) args h k = absurd (omega arith)
vprintf_loop-rounds (suc n) (suc m) (ch ∷ format) args h k = elim (Bool-cases (ch == 37)) [
  | inr other ↦ rw other (
      ap (λ o. o >>= λ out. some (ch ∷ out))
        (vprintf_loop-rounds n m format args (omega arith) (omega arith)))
  | inl percent ↦ elim (Bool-cases (starts_with_percent format)) [
    | inl twice ↦
        rw (percent, twice)
          (ap (λ o. o >>= λ out. some (37 ∷ out))
            (vprintf_loop-rounds n m (after_first format) args
              (omega (arith, after_first-le format)) (omega (arith, after_first-le format))))
    | inr once ↦ elim (Option-cases (conversion format args)) [
      | inl n ↦ rw (percent, once, n) refl
      | inr ((out1, rest, args'), e) ↦
          let less = conversion-lt format out1 rest args args' e in
          rw (percent, once, e)
            (ap (λ o. o >>= λ out. some (out1 ++ out))
              (vprintf_loop-rounds n m rest args' (omega arith) (omega arith)))
    ]
  ]
]

-- ===== src/Stdio/Buffer.antt =====
-- What vsnprintf leaves in memory.
use os_pint_os_project.Base.{
  ℕ, zero, suc, ◌+◌, ◌-◌, ◌<◌, ◌≤◌, min, true, false, ◌&&◌, some, List, [], ◌∷◌, length, get_or,
  ltb, leb, ◌==◌, if◌then◌else◌, update, ◌≡◌, ◌≢◌, ◌⊎◌, inl, inr, arith, refl, ap, ◌∙◌, Bool-cases,
  lt→ltb,
}
use os_pint_os_project.Strings.{Memory}
use os_pint_os_project.Stdio.Parse.{Args}
use os_pint_os_project.Stdio.Print.{
  as_max_length, vprintf, Aux, vsnprintf_helper, output_all, vsnprintf,
}

-- The place of the next character.
abbrev At : (buffer : ℕ) → Aux → Type 0
At buffer aux = aux.p ≡ buffer + min aux.len aux.max_length

-- What writing the characters `out` to the buffer does.
record Written (buffer : ℕ) (out : List ℕ) (aux aux' : Aux) : Type 0 where
  at : At buffer aux'
  len : aux'.len ≡ aux.len + length out
  max_length : aux'.max_length ≡ aux.max_length
  bytes :
      (a : ℕ)
      → aux'.memory a ≡ (
          if leb (buffer + aux.len) a && ltb a (buffer + min (aux.len + length out) aux.max_length)
          then get_or out (a - (buffer + aux.len)) 0
          else aux.memory a)

get_or_later : (c : ℕ) (xs : List ℕ) (k : ℕ) → k ≢ 0 → get_or (c ∷ xs) k 0 ≡ get_or xs (k - 1) 0
get_or_later c xs zero h = absurd (h refl)
get_or_later c xs (suc k) h = ap (λ j. get_or xs j 0) (omega arith)

-- One character.
record Put (buffer ch : ℕ) (aux aux' : Aux) : Type 0 where
  at : At buffer aux'
  len : aux'.len ≡ aux.len + 1
  max_length : aux'.max_length ≡ aux.max_length
  bytes :
      (a : ℕ)
      → aux'.memory a
        ≡ (if (a == (buffer + aux.len)) && ltb aux.len aux.max_length then ch else aux.memory a)

vsnprintf_helper-Put :
    (buffer ch : ℕ) (aux : Aux) → At buffer aux → Put buffer ch aux (vsnprintf_helper ch aux)
unfolding vsnprintf_helper
vsnprintf_helper-Put buffer ch aux h = record {
  at = ground arith;
  len = ground arith;
  max_length = ground arith;
  bytes = λ a. ground arith;
}

output_all-Written :
    (buffer : ℕ) (out : List ℕ) (aux : Aux)
    → At buffer aux
    → Written buffer out aux (output_all out aux)
unfolding output_all
output_all-Written buffer [] aux h = record {
  at = h;
  len = omega arith;
  max_length = refl;
  bytes = λ a. ground arith;
}
output_all-Written buffer (ch ∷ out) aux h =
    let next = vsnprintf_helper ch aux in
    let one = vsnprintf_helper-Put buffer ch aux h in
    let w = output_all-Written buffer out next one.at in
    record {
      at = w.at;
      len = omega (arith, w.len, one.len);
      max_length = w.max_length ∙ one.max_length;
      bytes = λ a. w.bytes a ∙ both ch out aux next buffer a one;
    }
  where
    both :
        (ch : ℕ) (out : List ℕ) (aux next : Aux) (buffer a : ℕ)
        → Put buffer ch aux next
        → (if leb (buffer + next.len) a
              && ltb a (buffer + min (next.len + length out) next.max_length)
            then get_or out (a - (buffer + next.len)) 0
            else next.memory a)
          ≡ (if leb (buffer + aux.len) a
                && ltb a (buffer + min (aux.len + suc (length out)) aux.max_length)
              then get_or (ch ∷ out) (a - (buffer + aux.len)) 0
              else aux.memory a)
    both ch out aux next buffer a one = elim (Bool-cases (a == (buffer + aux.len))) [
      | inl here ↦
          let z : a - (buffer + aux.len) ≡ 0 = ground (arith, here) in
          let first : get_or (ch ∷ out) (a - (buffer + aux.len)) 0 ≡ ch = rw z refl in
          ground (arith, here, one.len, one.max_length, one.bytes a, first)
      | inr other ↦
          let later : buffer + aux.len ≤ a
              → get_or (ch ∷ out) (a - (buffer + aux.len)) 0
                ≡ get_or out (a - (buffer + next.len)) 0 =
            λ le.
              get_or_later ch out (a - (buffer + aux.len)) (ground (arith, other))
              ∙ ap (λ k. get_or out k 0) (omega (arith, one.len)) in
          ground (arith, other, one.len, one.max_length, one.bytes a, later)
    ]

-- When a format has output of less than 2 ^ 31 characters, `vsnprintf` with a buffer of at least a
-- byte returns the length of the output, stores as much of it as fits before a null byte, and changes
-- no byte outside the buffer. A buffer of more than 2 ^ 31 bytes counts as one of a single byte, since
-- its size is kept as an int.
pub vsnprintf-bounded :
    (buffer buf_size : ℕ) (format : List ℕ) (args : Args) (m : Memory) (out : List ℕ)
    → 0 < buf_size
    → vprintf format args ≡ some out
    → length out < 2147483648
    → (m' : Memory) × (vsnprintf buffer buf_size format args m ≡ some (length out, m'))
      × ((j : ℕ) → j < min (length out) (as_max_length buf_size) → m' (buffer + j) ≡ get_or out j 0)
      × (m' (buffer + min (length out) (as_max_length buf_size)) ≡ 0)
      × ((a : ℕ) → (a < buffer) ⊎ (buffer + buf_size ≤ a) → m' a ≡ m a)
unfolding vsnprintf
vsnprintf-bounded buffer buf_size format args m out room prints short =
    let most = as_max_length buf_size in
    let inside : most < buf_size = ground arith in
    let start : Aux = record { p = buffer; len = 0; max_length = most; memory = m } in
    let w = output_all-Written buffer out start (omega arith) in
    let aux = output_all out start in
    let here : aux.p ≡ buffer + min (length out) most = omega (arith, w.at, w.len, w.max_length) in
    let total : aux.len ≡ length out = w.len ∙ omega arith in
    (
      update aux.memory aux.p 0,
      rw (prints, total, lt→ltb (length out) 2147483648 short, lt→ltb 0 buf_size room) refl,
      λ j l.
          let stored : (leb (buffer + 0) (buffer + j)
                && ltb (buffer + j) (buffer + min (0 + length out) most))
              ≡ true =
            ground arith in
          let before : (aux.p == (buffer + j)) ≡ false = ground (arith, here) in
          rw before (w.bytes (buffer + j) ∙ rw stored (ap (λ k. get_or out k 0) (omega arith))),
      ground (arith, here),
      λ a h. ground (arith, here, w.bytes a),
    )

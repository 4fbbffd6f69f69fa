-- ===== src/Intq/Contents.antt =====
-- The bytes that an interrupt queue holds, oldest first.
use os_pint_os_project.Base.{
  ℕ, zero, suc, ◌+◌, ◌-◌, ◌%◌, ◌<◌, List, [], ◌∷◌, ◌++◌, ◌==◌, length, update, ◌≡◌, ◌≢◌, arith,
  refl, ap, ap₂, ◌∙◌, ne→==, false,
}
use os_pint_os_project.Intq.{Intq, next}

-- `n` bytes from a place on.
items : ℕ → ℕ → (ℕ → ℕ) → List ℕ
items zero place b = []
items (suc n) place b = b place ∷ items n ((place + 1) % 64) b

abbrev pub count : Intq → ℕ
count q = (q.head + 64 - q.tail) % 64

unfoldable pub contents : Intq → List ℕ
unfolding items
contents q = items (count q) q.tail q.buf

-- Both places lie in the buffer.
pub record Valid (q : Intq) : Type 0 where
  pub head_inside : q.head < 64
  pub tail_inside : q.tail < 64

length-items : (n place : ℕ) (b : ℕ → ℕ) → length (items n place b) ≡ n
unfolding items
length-items zero place b = refl
length-items (suc n) place b = ap suc (length-items n ((place + 1) % 64) b)

items_append :
    (n place : ℕ) (b : ℕ → ℕ)
    → place < 64
    → items (suc n) place b ≡ items n place b ++ (b ((place + n) % 64) ∷ [])
unfolding items
items_append zero place b l = ap (λ p. b p ∷ []) (omega arith)
items_append (suc n) place b l =
    ap (λ r. b place ∷ r)
      (items_append n ((place + 1) % 64) b (omega arith)
        ∙ ap (λ p. items n ((place + 1) % 64) b ++ (b p ∷ [])) (omega arith))

items-update :
    (n place h x : ℕ) (b : ℕ → ℕ)
    → ((k : ℕ) → k < n → (place + k) % 64 ≢ h)
    → place < 64
    → items n place (update b h x) ≡ items n place b
unfolding items
items-update zero place h x b out l = refl
items-update (suc n) place h x b out l =
    let first : (h == place) ≡ false = ne→== h place (λ e. out 0 (omega arith) (omega arith)) in
    rw first (
      ap (λ r. b place ∷ r)
        (items-update n ((place + 1) % 64) h x b (λ k j e. out (k + 1) (omega arith) (omega arith))
          (omega arith)))

module _ (q : Intq) (v : Valid q) where
  pub length-contents : length (contents q) ≡ count q
  unfolding contents
  length-contents = length-items (count q) q.tail q.buf

  -- A byte put at the head of a ring with room stands behind the others.
  pub contents_put :
      (byte : ℕ) (t : ℕ)
      → next q.head ≢ q.tail
      → contents (record q { buf = update q.buf q.head byte; head = next q.head; not_empty = t })
        ≡ contents q ++ (byte ∷ [])
  unfolding contents next
  contents_put byte t room =
      let small : (q.head + 64 - q.tail) % 64 < 63 = omega (arith, v.head_inside, v.tail_inside) in
      let n = (q.head + 64 - q.tail) % 64 in
      let more : ((q.head + 1) % 64 + 64 - q.tail) % 64 ≡ suc n =
        omega (arith, v.head_inside, v.tail_inside) in
      let last : (q.tail + n) % 64 ≡ q.head = omega (arith, v.head_inside, v.tail_inside) in
      let b = update q.buf q.head byte in
      ap (λ m. items m q.tail b) more
      ∙ items_append n q.tail b v.tail_inside
      ∙ ap₂ (λ r p. r ++ (p ∷ []))
          (items-update n q.tail q.head byte q.buf
            (λ k j e. absurd (omega (arith, v.head_inside, v.tail_inside))) v.tail_inside)
          (rw last (ground arith))

  -- The byte at the tail of a ring that is not empty is the first.
  pub contents_take :
      (t : ℕ)
      → q.head ≢ q.tail
      → contents q ≡ q.buf q.tail ∷ contents (record q { tail = next q.tail; not_full = t })
  unfolding contents next
  contents_take t some_bytes =
      let less : (q.head + 64 - q.tail) % 64 ≡ suc ((q.head + 64 - (q.tail + 1) % 64) % 64) =
        omega (arith, v.head_inside, v.tail_inside) in
      ap (λ m. items m q.tail q.buf) less ∙ items_step ((q.head + 64 - (q.tail + 1) % 64) % 64)
    where
      items_step :
          (n : ℕ) → items (suc n) q.tail q.buf ≡ q.buf q.tail ∷ items n ((q.tail + 1) % 64) q.buf
      items_step n = refl

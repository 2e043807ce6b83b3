-- ===== src/Token/Source/Sound.antt =====
-- What `decode_source` accepts is the UTF-8 form of a text.
use barista_script.Common.{
  ℕ, zero, suc, ◌+◌, ◌*◌, ◌/◌, ◌%◌, ◌<◌, ◌≡◌, ◌≢◌, refl, sym, ap, ◌∙◌, true, false, List, [], ◌∷◌,
  ◌++◌, length, ltb, ◌==◌, Bytes, drop, arith, All, Bool-cases, ◌⊎◌, inl, inr,
}
use barista_script.Token.Source.{
  accepted, invalid_at, Turn, takes, stops, lead_form, continue_bytes, is_overlong, is_surrogate,
  is_refused, finish_turn, turn, turn_at, decode_fuel, decode_source, source_text,
}
use barista_script.Token.Source.Utf8.{
  IsScalar, encode_scalar, encode_text, decode_turn, encode_scalar_two, encode_scalar_one,
  encode_scalar_three, encode_scalar_four,
}

-- The bytes that a turn takes are those of a scalar.
abbrev Taken : ℕ → Bytes → ℕ → Type 0
Taken lead rest count = (c : ℕ) × IsScalar c × (encode_scalar c ++ drop count rest ≡ lead ∷ rest)

data Shape (lead : ℕ) (rest : Bytes) (count : ℕ) : Type 0 where
  one : lead < 128 → count ≡ 0 → Shape lead rest count
  two :
      (b : ℕ) (bs : Bytes)
      → rest ≡ b ∷ bs
      → count ≡ 1
      → lead / 32 ≡ 6
      → b / 64 ≡ 2
      → is_refused 1 (lead % 32 * 64 + b % 64) ≡ false
      → Shape lead rest count
  three :
      (b b' : ℕ) (bs : Bytes)
      → rest ≡ b ∷ b' ∷ bs
      → count ≡ 2
      → lead / 16 ≡ 14
      → b / 64 ≡ 2
      → b' / 64 ≡ 2
      → is_refused 2 ((lead % 16 * 64 + b % 64) * 64 + b' % 64) ≡ false
      → Shape lead rest count
  four :
      (b b' b'' : ℕ) (bs : Bytes)
      → rest ≡ b ∷ b' ∷ b'' ∷ bs
      → count ≡ 3
      → lead / 8 ≡ 30
      → b / 64 ≡ 2
      → b' / 64 ≡ 2
      → b'' / 64 ≡ 2
      → is_refused 3 (((lead % 8 * 64 + b % 64) * 64 + b' % 64) * 64 + b'' % 64) ≡ false
      → Shape lead rest count

two_back :
    (lead b : ℕ) (bs : Bytes)
    → lead / 32 ≡ 6
    → b / 64 ≡ 2
    → is_refused 1 (lead % 32 * 64 + b % 64) ≡ false
    → Taken lead (b ∷ bs) 1
unfolding is_refused is_overlong is_surrogate
two_back lead b bs h k r =
    let c = lead % 32 * 64 + b % 64 in
    let e : encode_scalar c ≡ lead ∷ b ∷ [] =
      encode_scalar_two c (ground arith) (ground arith) ∙ ground arith in
    (c, ground arith, rw (e) refl)

three_back :
    (lead b b' : ℕ) (bs : Bytes)
    → lead / 16 ≡ 14
    → b / 64 ≡ 2
    → b' / 64 ≡ 2
    → is_refused 2 ((lead % 16 * 64 + b % 64) * 64 + b' % 64) ≡ false
    → Taken lead (b ∷ b' ∷ bs) 2
unfolding is_refused is_overlong is_surrogate
three_back lead b b' bs h k k' r =
    let c = (lead % 16 * 64 + b % 64) * 64 + b' % 64 in
    let e : encode_scalar c ≡ lead ∷ b ∷ b' ∷ [] =
      encode_scalar_three c (ground arith) (ground arith) (ground arith) ∙ ground arith in
    (c, ground arith, rw (e) refl)

four_back :
    (lead b b' b'' : ℕ) (bs : Bytes)
    → lead / 8 ≡ 30
    → b / 64 ≡ 2
    → b' / 64 ≡ 2
    → b'' / 64 ≡ 2
    → is_refused 3 (((lead % 8 * 64 + b % 64) * 64 + b' % 64) * 64 + b'' % 64) ≡ false
    → Taken lead (b ∷ b' ∷ b'' ∷ bs) 3
unfolding is_refused is_overlong is_surrogate
four_back lead b b' b'' bs h k k' k'' r =
    let c = ((lead % 8 * 64 + b % 64) * 64 + b' % 64) * 64 + b'' % 64 in
    let e : encode_scalar c ≡ lead ∷ b ∷ b' ∷ b'' ∷ [] =
      encode_scalar_four c (ground arith) (ground arith) (ground arith) ∙ ground arith in
    (c, ground arith, rw (e) refl)

Shape-two :
    (index lead count : ℕ) (rest : Bytes)
    → ltb lead 128 ≡ false
    → lead / 32 == 6 ≡ true
    → turn_at index lead rest ≡ takes count
    → Shape lead rest count
unfolding turn_at turn lead_form continue_bytes finish_turn
Shape-two index lead count [] a h e = absurd (ground arith)
Shape-two index lead count (b ∷ bs) a h e =
    two b bs refl (ground arith) (ground arith) (ground arith) (ground arith)

Shape-three :
    (index lead count : ℕ) (rest : Bytes)
    → ltb lead 128 ≡ false
    → lead / 32 == 6 ≡ false
    → lead / 16 == 14 ≡ true
    → turn_at index lead rest ≡ takes count
    → Shape lead rest count
unfolding turn_at turn lead_form continue_bytes finish_turn
Shape-three index lead count [] a g h e = absurd (ground arith)
Shape-three index lead count (b ∷ []) a g h e = absurd (ground arith)
Shape-three index lead count (b ∷ b' ∷ bs) a g h e =
    three b b' bs refl (ground arith) (ground arith) (ground arith) (ground arith) (ground arith)

Shape-four :
    (index lead count : ℕ) (rest : Bytes)
    → ltb lead 128 ≡ false
    → lead / 32 == 6 ≡ false
    → lead / 16 == 14 ≡ false
    → turn_at index lead rest ≡ takes count
    → Shape lead rest count
unfolding turn_at turn lead_form continue_bytes finish_turn
Shape-four index lead count [] a g h e = absurd (ground arith)
Shape-four index lead count (b ∷ []) a g h e = absurd (ground arith)
Shape-four index lead count (b ∷ b' ∷ []) a g h e = absurd (ground arith)
Shape-four index lead count (b ∷ b' ∷ b'' ∷ bs) a g h e =
    four b b' b'' bs refl (ground arith) (ground arith) (ground arith) (ground arith) (ground arith)
      (ground arith)

turn_at-one :
    (index lead count : ℕ) (rest : Bytes)
    → ltb lead 128 ≡ true
    → turn_at index lead rest ≡ takes count
    → count ≡ 0
unfolding turn_at
turn_at-one index lead count rest a e = ground arith

turn_at-Shape :
    (index lead count : ℕ) (rest : Bytes)
    → turn_at index lead rest ≡ takes count
    → Shape lead rest count
turn_at-Shape index lead count rest e = elim (Bool-cases (ltb lead 128)) [
  | inl a ↦ one (ground arith) (turn_at-one index lead count rest a e)
  | inr a ↦ elim (Bool-cases (lead / 32 == 6)) [
    | inl g ↦ Shape-two index lead count rest a g e
    | inr g ↦ elim (Bool-cases (lead / 16 == 14)) [
      | inl h ↦ Shape-three index lead count rest a g h e
      | inr h ↦ Shape-four index lead count rest a g h e
    ]
  ]
]

Shape-Taken : (lead count : ℕ) (rest : Bytes) → Shape lead rest count → Taken lead rest count
Shape-Taken lead count rest (one a p) =
    rw (p) (lead, ground arith, rw (encode_scalar_one lead (ground arith)) refl)
Shape-Taken lead count rest (two b bs r p h k e) = rw (r, p) (two_back lead b bs h k e)
Shape-Taken lead count rest (three b b' bs r p h k k' e) =
    rw (r, p) (three_back lead b b' bs h k k' e)
Shape-Taken lead count rest (four b b' b'' bs r p h k k' k'' e) =
    rw (r, p) (four_back lead b b' b'' bs h k k' k'' e)

Turn-cases : (t : Turn) → ((n : ℕ) × (t ≡ takes n)) ⊎ ((n : ℕ) × (t ≡ stops n))
Turn-cases (takes n) = inl (n, refl)
Turn-cases (stops n) = inr (n, refl)

decode_stops :
    (fuel index lead offset : ℕ) (rest : Bytes)
    → turn_at index lead rest ≡ stops offset
    → decode_fuel (suc fuel) index (lead ∷ rest) ≡ invalid_at offset
unfolding decode_fuel
decode_stops fuel index lead offset rest e = rw (e, decode_fuel) refl

invalid-not-accepted : (n : ℕ) → invalid_at n ≢ accepted
invalid-not-accepted n e = ground arith

no_fuel : (index lead : ℕ) (rest : Bytes) → decode_fuel zero index (lead ∷ rest) ≡ invalid_at index
unfolding decode_fuel
no_fuel index lead rest = refl

decode_fuel-accepted :
    (fuel index : ℕ) (bytes : Bytes)
    → decode_fuel fuel index bytes ≡ accepted
    → (cs : List ℕ) × All IsScalar cs × (encode_text cs ≡ bytes)
unfolding encode_text
decode_fuel-accepted fuel index [] e = ([], record {}, refl)
decode_fuel-accepted zero index (lead ∷ rest) e =
    absurd (invalid-not-accepted index (sym (no_fuel index lead rest) ∙ e))
decode_fuel-accepted (suc fuel) index (lead ∷ rest) e =
    elim (Turn-cases (turn_at index lead rest)) [
      | inr (offset, t) ↦
          absurd
            (invalid-not-accepted offset (sym (decode_stops fuel index lead offset rest t) ∙ e))
      | inl (count, t) ↦
          let (c, s, p) = Shape-Taken lead count rest (turn_at-Shape index lead count rest t) in
          let (cs, ss, q) =
            decode_fuel-accepted fuel (index + count + 1) (drop count rest)
              (sym (decode_turn fuel index lead count rest t) ∙ e) in
          (c ∷ cs, (s, ss), ap (λ x. encode_scalar c ++ x) q ∙ p)
    ]

result-cases :
    {Source : Type 0} (utf8 : Bytes → Source) (bytes : Bytes) (source : Source)
    → decode_source utf8 bytes ≡ source_text source
    → decode_fuel (length bytes) 0 bytes ≡ accepted
unfolding decode_source
result-cases utf8 bytes source e = ground arith

-- What `decode_source` accepts is the UTF-8 form of a sequence of Unicode scalar values, so it lets
-- no overlong form, surrogate, stray or missing continuation byte through to `String::utf8`.
pub encode_text_of_accepted :
    {Source : Type 0} (utf8 : Bytes → Source) (bytes : Bytes) (source : Source)
    → decode_source utf8 bytes ≡ source_text source
    → (cs : List ℕ) × All IsScalar cs × (encode_text cs ≡ bytes)
encode_text_of_accepted utf8 bytes source e =
    decode_fuel-accepted (length bytes) 0 bytes (result-cases utf8 bytes source e)

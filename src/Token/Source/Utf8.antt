-- ===== src/Token/Source/Utf8.antt =====
-- `decode_source` against the definition of UTF-8 by its encoder.
use barista_script.Common.{
  ℕ, zero, suc, ◌+◌, ◌/◌, ◌%◌, ◌<◌, ◌≤◌, ◌≡◌, refl, ap, ◌∙◌, true, false, List, [], ◌∷◌, ◌++◌,
  length, length-append, ltb, if◌then◌else◌, Bytes, drop, arith, All, Bool-cases, ◌⊎◌, inl, inr,
}
use barista_script.Token.Source.{
  accepted, takes, lead_form, continue_bytes, is_overlong, is_surrogate, is_refused, finish_turn,
  turn, turn_at, decode_fuel, decode_source, source_text,
}

-- A Unicode scalar value.
abbrev pub IsScalar : ℕ → Type 0
IsScalar c = (c < 55296) ⊎ ((57343 < c) × (c < 1114112))

-- Its bytes.
unfoldable pub encode_scalar : ℕ → Bytes
encode_scalar c =
    if ltb c 128
    then c ∷ []
    else if ltb c 2048
    then (192 + c / 64) ∷ (128 + c % 64) ∷ []
    else if ltb c 65536
    then (224 + c / 4096) ∷ (128 + c / 64 % 64) ∷ (128 + c % 64) ∷ []
    else (240 + c / 262144) ∷ (128 + c / 4096 % 64) ∷ (128 + c / 64 % 64) ∷ (128 + c % 64) ∷ []

unfoldable pub encode_text : List ℕ → Bytes
encode_text [] = []
encode_text (c ∷ cs) = encode_scalar c ++ encode_text cs

turn_two :
    (index c : ℕ) (rest : Bytes)
    → 128 ≤ c
    → c < 2048
    → turn_at index (192 + c / 64) ((128 + c % 64) ∷ rest) ≡ takes 1
unfolding turn_at turn lead_form continue_bytes finish_turn is_refused is_overlong is_surrogate
turn_two index c rest h k = ground arith

turn_three :
    (index c : ℕ) (rest : Bytes)
    → 2048 ≤ c
    → c < 65536
    → IsScalar c
    → turn_at index (224 + c / 4096) ((128 + c / 64 % 64) ∷ (128 + c % 64) ∷ rest) ≡ takes 2
unfolding turn_at turn lead_form continue_bytes finish_turn is_refused is_overlong is_surrogate
turn_three index c rest h k s = ground arith

turn_four :
    (index c : ℕ) (rest : Bytes)
    → 65536 ≤ c
    → c < 1114112
    → turn_at index
        (240 + c / 262144)
        ((128 + c / 4096 % 64) ∷ (128 + c / 64 % 64) ∷ (128 + c % 64) ∷ rest)
      ≡ takes 3
unfolding turn_at turn lead_form continue_bytes finish_turn is_refused is_overlong is_surrogate
turn_four index c rest h k = ground arith

-- The lead byte of a scalar's bytes makes the loop take all of them.
Turns : ℕ → Type 0
Turns c =
    (lead : ℕ) × (conts : Bytes) × (encode_scalar c ≡ lead ∷ conts)
    × ((index : ℕ) (rest : Bytes) → turn_at index lead (conts ++ rest) ≡ takes (length conts))

pub encode_scalar_one : (c : ℕ) → ltb c 128 ≡ true → encode_scalar c ≡ c ∷ []
unfolding encode_scalar
encode_scalar_one c h = ground arith

pub encode_scalar_two :
    (c : ℕ)
    → ltb c 128 ≡ false
    → ltb c 2048 ≡ true
    → encode_scalar c ≡ (192 + c / 64) ∷ (128 + c % 64) ∷ []
unfolding encode_scalar
encode_scalar_two c a b = ground arith

pub encode_scalar_three :
    (c : ℕ)
    → ltb c 128 ≡ false
    → ltb c 2048 ≡ false
    → ltb c 65536 ≡ true
    → encode_scalar c ≡ (224 + c / 4096) ∷ (128 + c / 64 % 64) ∷ (128 + c % 64) ∷ []
unfolding encode_scalar
encode_scalar_three c a b d = rw (a) (rw (b) (rw (d) refl))

pub encode_scalar_four :
    (c : ℕ)
    → ltb c 128 ≡ false
    → ltb c 2048 ≡ false
    → ltb c 65536 ≡ false
    → encode_scalar c
      ≡ (240 + c / 262144) ∷ (128 + c / 4096 % 64) ∷ (128 + c / 64 % 64) ∷ (128 + c % 64) ∷ []
unfolding encode_scalar
encode_scalar_four c a b d = rw (a) (rw (b) (rw (d) refl))

turn_one : (index c : ℕ) (rest : Bytes) → ltb c 128 ≡ true → turn_at index c rest ≡ takes 0
unfolding turn_at
turn_one index c rest h = ground arith

encode_scalar-Turns : (c : ℕ) → IsScalar c → Turns c
unfolding Turns
encode_scalar-Turns c s = elim (Bool-cases (ltb c 128)) [
  | inl a ↦ (_, _, encode_scalar_one c a, λ index rest. turn_one index c rest a)
  | inr a ↦ elim (Bool-cases (ltb c 2048)) [
    | inl b ↦ (
      _,
      _,
      encode_scalar_two c a b,
      λ index rest. turn_two index c rest (ground arith) (ground arith),
    )
    | inr b ↦ elim (Bool-cases (ltb c 65536)) [
      | inl d ↦ (
        _,
        _,
        encode_scalar_three c a b d,
        λ index rest. turn_three index c rest (ground arith) (ground arith) s,
      )
      | inr d ↦ (
        _,
        _,
        encode_scalar_four c a b d,
        λ index rest. turn_four index c rest (ground arith) (ground arith),
      )
    ]
  ]
]

drop-append_length : (xs ys : Bytes) → drop (length xs) (xs ++ ys) ≡ ys
drop-append_length [] ys = refl
drop-append_length (x ∷ xs) ys = drop-append_length xs ys

pub decode_turn :
    (fuel index lead count : ℕ) (rest : Bytes)
    → turn_at index lead rest ≡ takes count
    → decode_fuel (suc fuel) index (lead ∷ rest)
      ≡ decode_fuel fuel (index + count + 1) (drop count rest)
unfolding decode_fuel
decode_turn fuel index lead count rest e = rw (e, decode_fuel) refl

decode_fuel_nil : (fuel index : ℕ) → decode_fuel fuel index [] ≡ accepted
unfolding decode_fuel
decode_fuel_nil zero index = refl
decode_fuel_nil (suc fuel) index = refl

decode_fuel-encode_text :
    (cs : List ℕ) (fuel index : ℕ)
    → All IsScalar cs
    → length (encode_text cs) ≤ fuel
    → decode_fuel fuel index (encode_text cs) ≡ accepted
unfolding encode_text Turns
decode_fuel-encode_text [] fuel index s h = decode_fuel_nil fuel index
decode_fuel-encode_text (c ∷ cs) zero index s h =
    let (lead, conts, e, t) = encode_scalar-Turns c s.0 in
    absurd (omega (arith, ap length e, length-append (encode_scalar c) (encode_text cs)))
decode_fuel-encode_text (c ∷ cs) (suc fuel) index s h =
    let (lead, conts, e, t) = encode_scalar-Turns c s.0 in
    let enough : length (encode_text cs) ≤ fuel =
      omega (arith, h, ap length e, length-append (encode_scalar c) (encode_text cs)) in
    rw (e) (
      decode_turn fuel index lead (length conts) (conts ++ encode_text cs)
        (t index (encode_text cs))
      ∙ ap (decode_fuel fuel (index + length conts + 1)) (drop-append_length conts (encode_text cs))
      ∙ decode_fuel-encode_text cs fuel (index + length conts + 1) s.1 enough)

-- `decode_source` accepts the UTF-8 bytes of every sequence of Unicode scalar values and hands them
-- to `String::utf8`; the number of bytes is fuel enough.
pub decode_source-encode_text :
    {Source : Type 0} (utf8 : Bytes → Source) (cs : List ℕ)
    → All IsScalar cs
    → decode_source utf8 (encode_text cs) ≡ source_text (utf8 (encode_text cs))
unfolding decode_source
decode_source-encode_text utf8 cs s =
    rw (decode_fuel-encode_text cs (length (encode_text cs)) 0 s (omega arith), decode_source) refl

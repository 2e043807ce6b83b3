-- ===== src/Buffer/Safety.antt =====
use barista_script.Common.{
  ◌-◌, ◌==◌, if◌then◌else◌, ℕ, zero, suc, ◌+◌, ◌*◌, ◌≤◌, ◌≡◌, List, [], ◌∷◌, length, drop,
  length-drop, arith, Bytes, Text, inl, inr,
}
use barista_script.Buffer.Format.{decode_uint32}
use barista_script.Buffer.Ensures.{Ensures, Safe, decode_uint32_ok, length-cases, Ensures-cases}
use barista_script.Buffer.Load.{
  decode_int, decode_positions, decode_field, decode_span, decode_name, load_identifiers, byte_at,
  LineMaps, load_lines, load_constants, decode_line, insert_line, typed_token, load_trailing,
  check_counts, load_tokens, load_contents, load_sections, set_code_buffer, binary_to_token,
  record_size,
}
use barista_script.Host.{Host}
use barista_script.Buffer.State.{TokenizerBuffer}

decode_int-Safe : (b : Bytes) → 4 ≤ length b → Safe (decode_int b)
unfolding decode_int
decode_int-Safe b h = let (n, e) = decode_uint32_ok b h in ground (arith, e)

decode_field-Safe : (b : Bytes) → 4 ≤ length b → Safe (decode_field b)
unfolding decode_field
decode_field-Safe b h = ground (arith, decode_int-Safe b)

decode_span-Safe : (b : Bytes) → 16 ≤ length b → Safe (decode_span b)
unfolding decode_span
decode_span-Safe b h = ground (
  arith,
  decode_field-Safe b,
  decode_field-Safe (drop 4 b),
  decode_field-Safe (drop 8 b),
  decode_field-Safe (drop 12 b),
  length-drop 4 b,
  length-drop 8 b,
  length-drop 12 b,
)

decode_positions-Safe : (b : Bytes) → 16 ≤ length b → Safe (decode_positions b)
unfolding decode_positions
decode_positions-Safe b h = ground (
  arith,
  decode_int-Safe b,
  decode_int-Safe (drop 4 b),
  decode_int-Safe (drop 8 b),
  decode_int-Safe (drop 12 b),
  length-drop 4 b,
  length-drop 8 b,
  length-drop 12 b,
)

decode_name-Safe : (n : ℕ) (b : Bytes) → n * 4 ≤ length b → Safe (decode_name n b)
unfolding decode_name byte_at decode_uint32
decode_name-Safe zero b h = tt
decode_name-Safe (suc n) [] h = absurd (omega arith)
decode_name-Safe (suc n) (x ∷ []) h = absurd (omega arith)
decode_name-Safe (suc n) (x ∷ y ∷ []) h = absurd (omega arith)
decode_name-Safe (suc n) (x ∷ y ∷ z ∷ []) h = absurd (omega arith)
decode_name-Safe (suc n) (x ∷ y ∷ z ∷ w ∷ b) h = ground (arith, decode_name-Safe n b)

pub load_identifiers-Ensures :
    (n : ℕ) (b : Bytes)
    → Ensures (λ r. (length r.0 ≡ n) × (4 * n + length r.1 ≤ length b)) (load_identifiers n b)
unfolding load_identifiers
load_identifiers-Ensures zero b = omega arith
load_identifiers-Ensures (suc n) b = elim (length-cases (length b) 4) [
  | inl short ↦ rw short tt
  | inr (enough, h) ↦
      let (len, e) = decode_uint32_ok b h in
      ground (
        arith,
        e,
        length-drop 4 b,
        decode_name-Safe len (drop 4 b),
        length-drop (len * 4) (drop 4 b),
        load_identifiers-Ensures n (drop (len * 4) (drop 4 b)),
      )
]

decode_line-Safe : (b : Bytes) → 28 ≤ length b → Safe (decode_line b)
unfolding decode_line
decode_line-Safe b h = ground (
  arith,
  decode_field-Safe b,
  decode_field-Safe (drop 4 b),
  decode_field-Safe (drop 8 b),
  decode_span-Safe (drop 12 b),
  length-drop 4 b,
  length-drop 8 b,
  length-drop 12 b,
)

pub load_lines-Ensures :
    (n : ℕ) (m : LineMaps) (b : Bytes)
    → Ensures (λ r. 28 * n + length r.1 ≤ length b) (load_lines n m b)
unfolding load_lines
load_lines-Ensures zero m b = omega arith
load_lines-Ensures (suc n) m b = elim (length-cases (length b) 28) [
  | inl short ↦ rw short tt
  | inr (enough, h) ↦ elim (Ensures-cases _ (decode_line b) (decode_line-Safe b h)) [
    | inl (line, e, _) ↦
        ground (arith, e, length-drop 28 b, load_lines-Ensures n (insert_line m line) (drop 28 b))
    | inr e ↦ ground (arith, e)
  ]
]

pub load_trailing-Ensures :
    (b : Bytes) → Ensures (λ r. 32 + length r.2 ≤ length b) (load_trailing b)
unfolding load_trailing
load_trailing-Ensures b = elim (length-cases (length b) 32) [
  | inl short ↦ rw short tt
  | inr (enough, h) ↦ elim (Ensures-cases _ (decode_span b) (decode_span-Safe b (omega arith))) [
    | inr e ↦ rw (enough, e) tt
    | inl (newline, e, _) ↦
        elim (Ensures-cases _ (decode_span (drop 16 b))
          (decode_span-Safe (drop 16 b) (omega (arith, length-drop 16 b)))) [
            | inr e' ↦ rw (enough, e, e') tt
            | inl (eof, e', _) ↦ rw (enough, e, e') (omega (arith, length-drop 32 b))
          ]
  ]
]

check_counts-Safe : (n1 n2 n3 n4 size : ℕ) → Safe (check_counts n1 n2 n3 n4 size)
unfolding check_counts
check_counts-Safe n1 n2 n3 n4 size = ground arith

abbrev self_maps : {V : Type 0} → TokenizerBuffer V → LineMaps
self_maps self = record {
  token_lines = self.token_lines;
  token_columns = self.token_columns;
  token_newlines = self.token_newlines;
}

module _ (host : Host) where
  open host use {Variant}

  pub load_constants-Ensures :
      (n : ℕ) (b : Bytes)
      → Ensures (λ r. (length r.0 ≡ n) × (4 * n + length r.1 ≤ length b)) (load_constants host n b)
  unfolding load_constants
  load_constants-Ensures zero b = omega arith
  load_constants-Ensures (suc n) b = elim (length-cases (length b) 4) [
    | inl short ↦ rw short tt
    | inr (enough, h) ↦
        let (len, e) = decode_uint32_ok b h in
        ground (
          arith,
          e,
          length-drop 4 b,
          length-drop len (drop 4 b),
          load_constants-Ensures n (drop len (drop 4 b)),
        )
  ]

  binary_to_token-Safe :
      (identifiers : List Text) (constants : List Variant) (x : ℕ) (b : Bytes)
      → record_size x ≤ length (x ∷ b)
      → Safe (binary_to_token host identifiers constants (x ∷ b))
  unfolding binary_to_token typed_token decode_uint32
  binary_to_token-Safe ids cs x [] h = absurd (ground arith)
  binary_to_token-Safe ids cs x (y ∷ []) h = absurd (ground arith)
  binary_to_token-Safe ids cs x (y ∷ z ∷ []) h = absurd (ground arith)
  binary_to_token-Safe ids cs x (y ∷ z ∷ w ∷ b) h =
      ground (arith, decode_positions-Safe (y ∷ z ∷ w ∷ b), decode_positions-Safe b)

  pub load_tokens-Ensures :
      (identifiers : List Text) (constants : List Variant) (n : ℕ) (b : Bytes)
      → Ensures
          (λ r. (length r.0 ≡ n) × (17 * n + length r.1 ≤ length b))
          (load_tokens host identifiers constants n b)
  unfolding load_tokens byte_at
  load_tokens-Ensures ids cs zero b = omega arith
  load_tokens-Ensures ids cs (suc n) [] = tt
  load_tokens-Ensures ids cs (suc n) (x ∷ b) =
      elim (length-cases (length (x ∷ b)) (record_size x)) [
        | inl short ↦ ground (arith, short)
        | inr (enough, h) ↦ ground (
          arith,
          binary_to_token-Safe ids cs x b h,
          length-drop (record_size x) (x ∷ b),
          load_tokens-Ensures ids cs n (drop (record_size x) (x ∷ b)),
        )
      ]

  -- The state that is loaded holds no more than the bytes pay for.
  abbrev PaidBy : ℕ → TokenizerBuffer Variant → Type 0
  PaidBy size s =
      32 + 4 * length s.identifiers + 4 * length s.constants + 17 * length s.tokens ≤ size

  load_sections-Ensures :
      (self : TokenizerBuffer Variant) (n1 n2 n3 n4 : ℕ) (b : Bytes)
      → Ensures (PaidBy (length b)) (load_sections host self n1 n2 n3 n4 b)
  unfolding load_sections
  load_sections-Ensures self n1 n2 n3 n4 b =
      elim (Ensures-cases _ (load_identifiers n1 b) (load_identifiers-Ensures n1 b)) [
        | inr e ↦ ground (arith, e)
        | inl ((ids, b1), i, (li, lb1)) ↦
            elim (Ensures-cases _ (load_constants host n2 b1) (load_constants-Ensures n2 b1)) [
              | inr e ↦ ground (arith, i, e)
              | inl ((cs, b2), c, (lc, lb2)) ↦
                  elim (Ensures-cases _ (load_lines n3 (self_maps self) b2)
                    (load_lines-Ensures n3 (self_maps self) b2)) [
                      | inr e ↦ ground (arith, i, c, e)
                      | inl ((m, b3), l, lb3) ↦
                          elim (Ensures-cases _ (load_trailing b3) (load_trailing-Ensures b3)) [
                            | inr e ↦ ground (arith, i, c, l, e)
                            | inl ((newline, eof, b4), t, lb4) ↦
                                ground (arith, i, c, l, t, load_tokens-Ensures ids cs n4 b4)
                          ]
                    ]
            ]
      ]

  load_contents-Ensures :
      (self : TokenizerBuffer Variant) (contents : Bytes)
      → Ensures (PaidBy (length contents - 16)) (load_contents host self contents)
  unfolding load_contents
  load_contents-Ensures self contents = elim (length-cases (length contents) 16) [
    | inl short ↦ rw short tt
    | inr (enough, h) ↦
        let (n1, e1) = decode_uint32_ok contents (omega arith) in
        let (n2, e2) = decode_uint32_ok (drop 4 contents) (omega (arith, length-drop 4 contents)) in
        let (n3, e3) = decode_uint32_ok (drop 8 contents) (omega (arith, length-drop 8 contents)) in
        let (n4, e4) =
          decode_uint32_ok (drop 12 contents) (omega (arith, length-drop 12 contents)) in
        let l = length-drop 16 contents in
        elim (Ensures-cases _ (check_counts n1 n2 n3 n4 (length (drop 16 contents)))
          (check_counts-Safe n1 n2 n3 n4 _)) [
            | inl (u, e, _) ↦
                rw (enough, e1, e2, e3, e4, e)
                  (rw l at (load_sections-Ensures self n1 n2 n3 n4 (drop 16 contents)))
            | inr e ↦ rw (enough, e1, e2, e3, e4, e) tt
          ]
  ]

  -- Whatever the bytes are, `set_code_buffer` reads none outside the buffer.
  pub set_code_buffer-Safe :
      (self : TokenizerBuffer Variant) (buffer : Bytes) → Safe (set_code_buffer host self buffer)
  unfolding set_code_buffer
  set_code_buffer-Safe self buffer = elim (length-cases (length buffer) 12) [
    | inl short ↦ rw short tt
    | inr (enough, h) ↦
        let (n1, e1) = decode_uint32_ok (drop 4 buffer) (omega (arith, length-drop 4 buffer)) in
        let (n2, e2) = decode_uint32_ok (drop 8 buffer) (omega (arith, length-drop 8 buffer)) in
        let contents =
          if n2 == 0 then drop 12 buffer else host.decompress_zstd (drop 12 buffer) n2 in
        ground (arith, e1, e2, load_contents-Ensures self contents)
  ]

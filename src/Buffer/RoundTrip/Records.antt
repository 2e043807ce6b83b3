-- ===== src/Buffer/RoundTrip/Records.antt =====
-- One token record: `binary_to_token` reads the type, the pool index and the span that
-- `encode_type` and `encode_span` wrote, and `load_tokens` goes on behind them.
use barista_script.Common.{
  ℕ, suc, ◌+◌, ◌*◌, ◌/◌, ◌%◌, ◌≤◌, ◌<◌, ◌≡◌, ◌≢◌, refl, List, [], ◌∷◌, ◌++◌, drop, length,
  length-append, append_assoc, arith, Bytes, Text, u32_mod, ltb_of_ge, inl, inr,
}
use barista_script.Host.{Host}
use barista_script.Token.Types.{TokenType}
use barista_script.Token.Index.{index}
use barista_script.Token.Names.{of_index, of_index-index, index-lt, index-eq_zero}
use barista_script.Token.Data.{Token, new_token}
use barista_script.Buffer.Format.{TokenSpan, ok, decode_uint32, encode_uint32, pool_kind, ◌>>=◌}
use barista_script.Buffer.Write.{encode_span, encode_type}
use barista_script.Buffer.Load.{
  plain_literal, pooled_token, spanned_token, typed_token, binary_to_token, load_tokens,
  record_size, byte_at,
}
use barista_script.Buffer.RoundTrip.Words.{
  clamp, FitsInt, decode_uint32-encode_uint32, decode_positions-encode_span, length-encode_span,
  length-encode_uint32, drop-encode_uint32,
}

-- The short form: a zero byte, and whatever three bytes follow.
short_type :
    (b : Bytes)
    → 3 ≤ length b
    → (n : ℕ) × (decode_uint32 (0 ∷ b) ≡ ok n) × (n % 128 ≡ 0) × (n / 128 % 2 ≡ 0)
unfolding decode_uint32
short_type [] h = absurd (omega arith)
short_type (x ∷ []) h = absurd (omega arith)
short_type (x ∷ y ∷ []) h = absurd (omega arith)
short_type (x ∷ y ∷ z ∷ b) h = (_, refl, omega arith, omega arith)

abbrev pub type_field : TokenType → ℕ → ℕ
type_field t i = index t % 128 + i * 256 % u32_mod

-- The bytes of one token.
unfoldable pub token_record : TokenType → ℕ → TokenSpan → Bytes
token_record t i s = encode_type (type_field t i) ++ encode_span s

-- The pool index fits above the type, and a type with no index has none.
abbrev pub IndexFits : TokenType → ℕ → Type 0
IndexFits t i = (i < 16777216) × (t ≡ TokenType.empty → i ≡ 0)

module _ (host : Host) (ids : List Text) (cs : List host.Variant) where
  open host use {Variant}

  -- The token that is read from a type, a pool index and a span.
  abbrev pub read_token : TokenType → ℕ → TokenSpan → Token Variant
  read_token t i s = pooled_token host ids cs (pool_kind t) i (record (new_token host.nil t) {
    literal = plain_literal host t;
    start_line = s.start_line;
    start_column = s.start_column;
    end_line = s.end_line;
    end_column = s.end_column;
  })

  module _ (t : TokenType) (i : ℕ) (s : TokenSpan) (rest : Bytes) (small : i < 16777216)
      (fits : FitsInt s) where
    long_type : index t ≢ 0 → encode_type (type_field t i) ≡ encode_uint32 (index t + 128 + 256 * i)
    unfolding encode_type
    long_type h = ground (arith, index-lt t)

    decode_long :
        decode_uint32 (encode_uint32 (index t + 128 + 256 * i) ++ (encode_span s ++ rest))
        ≡ ok (index t + 128 + 256 * i)
    decode_long =
        decode_uint32-encode_uint32 (index t + 128 + 256 * i) (encode_span s ++ rest)
          (omega (arith, index-lt t))

    fields :
        ((index t + 128 + 256 * i) % 128 ≡ index t)
        × ((index t + 128 + 256 * i) / 128 % 2 ≡ 1)
        × ((index t + 128 + 256 * i) / 256 ≡ i)
    fields = omega (arith, index-lt t)

    binary_to_token-long :
        index t ≢ 0
        → binary_to_token host ids cs (encode_type (type_field t i) ++ (encode_span s ++ rest))
          ≡ ok (read_token t i (clamp s))
    unfolding binary_to_token typed_token spanned_token
    binary_to_token-long h =
        rw (long_type h, decode_long)
          (rw (fields.0, of_index-index t)
            (rw (fields.1, drop-encode_uint32, decode_positions-encode_span s rest fits)
              (rw fields.2)))

  module _ (s : TokenSpan) (rest : Bytes) (fits : FitsInt s) where
    binary_to_token-short :
        binary_to_token host ids cs
          (encode_type (type_field TokenType.empty 0) ++ (encode_span s ++ rest))
        ≡ ok (read_token TokenType.empty 0 (clamp s))
    unfolding binary_to_token typed_token spanned_token encode_type index pooled_token of_index
    binary_to_token-short =
        let (n, e, low, bit) =
          short_type (encode_span s ++ rest)
            (omega (arith, length-append (encode_span s) rest, length-encode_span s)) in
        rw e (rw (low, bit) (rw (decode_positions-encode_span s rest fits)))

  load_tokens_record :
      (n x : ℕ) (b rest : Bytes) (token : Token Variant)
      → record_size x ≤ length (x ∷ b)
      → drop (record_size x) (x ∷ b) ≡ rest
      → binary_to_token host ids cs (x ∷ b) ≡ ok token
      → load_tokens host ids cs (suc n) (x ∷ b)
        ≡ (load_tokens host ids cs n rest >>= λ (tokens, r). ok (token ∷ tokens, r))
  unfolding load_tokens byte_at
  load_tokens_record n x b rest token h d e = rw (
    ltb_of_ge (length (x ∷ b)) 1 (omega arith),
    ltb_of_ge (length (x ∷ b)) (record_size x) h,
    e,
    d,
  )

  module _ (n : ℕ) (t : TokenType) (i : ℕ) (s : TokenSpan) (rest : Bytes) (small : IndexFits t i)
      (fits : FitsInt s) where
    Loads : Bytes → Type 0
    Loads b = load_tokens host ids cs (suc n) b ≡ (
        load_tokens host ids cs n rest >>= λ (tokens, r). ok (read_token t i (clamp s) ∷ tokens, r))

    record_size-long : record_size ((index t + 128 + 256 * i) % 256) ≡ 20
    record_size-long = ground (arith, index-lt t)

    load_tokens-long : index t ≢ 0 → Loads (encode_type (type_field t i) ++ (encode_span s ++ rest))
    unfolding Loads encode_uint32 encode_span
    load_tokens-long h =
        let e = binary_to_token-long t i s rest small.0 fits h in
        rw (long_type t i s rest small.0 fits h) (
          load_tokens_record n _ _ rest _ (rw record_size-long (omega arith)) (rw record_size-long)
            (rw (long_type t i s rest small.0 fits h) at e))

  load_tokens-short :
      (n : ℕ) (s : TokenSpan) (rest : Bytes)
      → FitsInt s
      → load_tokens host ids cs
          (suc n)
          (encode_type (type_field TokenType.empty 0) ++ (encode_span s ++ rest))
        ≡ (load_tokens host ids cs n rest >>= λ (tokens, r).
            ok (read_token TokenType.empty 0 (clamp s) ∷ tokens, r))
  unfolding encode_span encode_uint32 encode_type index
  load_tokens-short n s rest fits =
      load_tokens_record n 0 (encode_span s ++ rest) rest _ (omega arith) refl
        (binary_to_token-short s rest fits)

  pub load_tokens-token_record :
      (n : ℕ) (t : TokenType) (i : ℕ) (s : TokenSpan) (rest : Bytes)
      → IndexFits t i
      → FitsInt s
      → load_tokens host ids cs (suc n) (token_record t i s ++ rest) ≡ (
          load_tokens host ids cs n rest >>= λ (tokens, r).
          ok (read_token t i (clamp s) ∷ tokens, r))
  unfolding token_record Loads
  load_tokens-token_record n t i s rest small fits = rw append_assoc (elim (index-eq_zero t) [
    | inl e ↦ rw (e, small.1 e) (load_tokens-short n s rest fits)
    | inr h ↦ load_tokens-long n t i s rest small fits h
  ])

pub length-token_record : (t : TokenType) (i : ℕ) (s : TokenSpan) → 17 ≤ length (token_record t i s)
unfolding token_record encode_type
length-token_record t i s = ground (
  arith,
  length-append (encode_type (type_field t i)) (encode_span s),
  length-encode_span s,
  length-encode_uint32 (type_field t i + 128),
)

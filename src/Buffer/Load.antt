-- ===== src/Buffer/Load.antt =====
-- src/bs_tokenizer_buffer.cpp: `_binary_to_token` and `set_code_buffer`. The bytes from the
-- cursor on stand for `buf`, `cursor` and `total_len`, which is always their number. A buffer that
-- is refused leaves no state here: the source's object is then half filled, and its callers drop it.
use Prim.Native.Nat.{bit_xor}
use barista_script.Common.{
  ℕ, zero, suc, ◌*◌, ◌/◌, ◌%◌, Bool, true, not, ◌&&◌, ◌||◌, Option, none, some, List, [], ◌∷◌,
  length, get_elem?, take, drop, ◌==◌, ltb, if◌then◌else◌, Bytes, Text, int_max,
}
use barista_script.Common.Int.{pos}
use barista_script.Common.Maps.{insert}
use barista_script.Host.{Host}
use barista_script.Token.Types.{TokenType}
use barista_script.Token.Names.{of_index, get_name, codes}
use barista_script.Token.Data.{Token, new_token}
use barista_script.Buffer.Format.{
  TokenSpan, pool_kind, PoolKind, Load, ok, invalid_data, out_of_bounds, ◌>>=◌, ◌>>◌, fail_if,
  decode_uint32, token_shift, token_mask_size, token_byte_mask, token_short_size, token_long_size,
  line_marker_size, trailing_spans_size, buffer_header_size, contents_header_size,
  tokenizer_version, name_mask, token_span_size,
}
use barista_script.Buffer.State.{TokenizerBuffer}

-- `buf[cursor]`
unfoldable pub byte_at : Bytes → ℕ → Load ℕ
byte_at bytes i = elim (get_elem? bytes i) [ none ↦ out_of_bounds | some b ↦ ok b ]

-- A word that is kept as an `int`: `none` where it is above `INT_MAX`.
unfoldable pub decode_int : Bytes → Load (Option ℕ)
decode_int bytes = do
  value ← decode_uint32 bytes
  ok (if ltb int_max value then none else some value)

-- The span of a token: `none` at the first position above `INT_MAX`.
unfoldable pub decode_positions : Bytes → Load (Option TokenSpan)
decode_positions b = do
  first ← decode_int b
  elim first [
    | none ↦ ok none
    | some start_line ↦ do
      second ← decode_int (drop 4 b)
      elim second [
        | none ↦ ok none
        | some start_column ↦ do
          third ← decode_int (drop 8 b)
          elim third [
            | none ↦ ok none
            | some end_line ↦ do
              fourth ← decode_int (drop 12 b)
              elim fourth [
                | none ↦ ok none
                | some end_column ↦ ok (
                    some (record {
                      start_line = pos start_line;
                      start_column = pos start_column;
                      end_line = pos end_line;
                      end_column = pos end_column;
                    }))
              ]
          ]
      ]
  ]

-- `ERR_FAIL_COND_V(fields[field] > uint32_t(INT_MAX), ERR_INVALID_DATA)`
unfoldable pub decode_field : Bytes → Load ℕ
decode_field b = do value ← decode_int b; elim value [ none ↦ invalid_data | some n ↦ ok n ]

-- Four fields that make a span.
unfoldable pub decode_span : Bytes → Load TokenSpan
decode_span b = do
  start_line ← decode_field b
  start_column ← decode_field (drop 4 b)
  end_line ← decode_field (drop 8 b)
  end_column ← decode_field (drop 12 b)
  ok (record {
    start_line = pos start_line;
    start_column = pos start_column;
    end_line = pos end_line;
    end_column = pos end_column;
  })

-- The code points of a name, each under the mask.
unfoldable pub decode_name : ℕ → Bytes → Load Text
decode_name zero b = ok []
decode_name (suc left) b = do
  b0 ← byte_at b 0
  b1 ← byte_at b 1
  b2 ← byte_at b 2
  b3 ← byte_at b 3
  let mask = λ (x : ℕ). bit_xor x name_mask
  c ← decode_uint32 (mask b0 ∷ mask b1 ∷ mask b2 ∷ mask b3 ∷ [])
  name ← decode_name left (drop 4 b)
  ok (c ∷ name)

unfoldable pub load_identifiers : ℕ → Bytes → Load (List Text × Bytes)
load_identifiers zero b = ok ([], b)
load_identifiers (suc left) b = do
  fail_if (ltb (length b) 4)
  len ← decode_uint32 b
  fail_if (ltb (length (drop 4 b)) (len * 4))
  name ← decode_name len (drop 4 b)
  (names, rest) ← load_identifiers left (drop (len * 4) (drop 4 b))
  ok (name ∷ names, rest)

-- `TOKEN_LONG_SIZE` where the first byte has the mask's bit.
abbrev pub record_size : ℕ → ℕ
record_size first = if first / token_byte_mask % 2 == 1 then token_long_size else token_short_size

-- The three maps keyed by the index of a token that begins a line.
pub record LineMaps : Type 0 where
  pub token_lines : List (ℕ × ℕ)
  pub token_columns : List (ℕ × ℕ)
  pub token_newlines : List (ℕ × TokenSpan)

-- The fields of one record: the token index, the line, the column and the span of the newline.
unfoldable pub decode_line : Bytes → Load (ℕ × ℕ × ℕ × TokenSpan)
decode_line b = do
  token_index ← decode_field b
  line ← decode_field (drop 4 b)
  column ← decode_field (drop 8 b)
  newline_span ← decode_span (drop 12 b)
  ok (token_index, line, column, newline_span)

abbrev pub insert_line : LineMaps → ℕ × ℕ × ℕ × TokenSpan → LineMaps
insert_line m (token_index, line, column, newline_span) = record {
  token_lines = insert ◌==◌ token_index line m.token_lines;
  token_columns = insert ◌==◌ token_index column m.token_columns;
  token_newlines = insert ◌==◌ token_index newline_span m.token_newlines;
}

unfoldable pub load_lines : ℕ → LineMaps → Bytes → Load (LineMaps × Bytes)
load_lines zero m b = ok (m, b)
load_lines (suc left) m b = do
  fail_if (ltb (length b) line_marker_size)
  line ← decode_line b
  load_lines left (insert_line m line) (drop line_marker_size b)

-- The spans of the final newline and of the end of file.
unfoldable pub load_trailing : Bytes → Load (TokenSpan × TokenSpan × Bytes)
load_trailing b = do
  fail_if (ltb (length b) trailing_spans_size)
  final_newline ← decode_span b
  eof_span ← decode_span (drop token_span_size b)
  ok (final_newline, eof_span, drop trailing_spans_size b)

-- Every record has a least size, so the counts are bounded by the bytes that are left.
unfoldable pub check_counts : ℕ → ℕ → ℕ → ℕ → ℕ → Load (Unit {0})
check_counts identifier_count constant_count token_line_count token_count total_len = do
  fail_if (ltb total_len (identifier_count * 4))
  fail_if (ltb total_len (constant_count * 4))
  fail_if (ltb total_len (token_line_count * line_marker_size))
  fail_if (ltb total_len (token_count * token_short_size))

module _ (host : Host) where
  open host use {Variant}

  abbrev error_token : Text → Token Variant
  error_token message = record (new_token host.nil TokenType.error) {
    literal = host.of_string message;
  }

  -- The literal that a type has when it needs no pool.
  abbrev pub plain_literal : TokenType → Variant
  plain_literal TokenType.const_nan = host.of_string (codes "NAN")
  plain_literal t = host.of_string (get_name t)

  -- The last `switch` of `_binary_to_token`.
  unfoldable pub pooled_token :
      List Text → List Variant → PoolKind → ℕ → Token Variant → Token Variant
  pooled_token identifiers constants PoolKind.identifier_pool i t = elim (get_elem? identifiers i) [
    | none ↦ error_token (codes "Identifier index out of bounds.")
    | some name ↦ record t { literal = host.of_name name }
  ]
  pooled_token identifiers constants PoolKind.constant_pool i t = elim (get_elem? constants i) [
    | none ↦ error_token (codes "Constant index out of bounds.")
    | some value ↦ record t { literal = value }
  ]
  pooled_token identifiers constants PoolKind.no_pool i t = t

  -- The token behind its span.
  unfoldable pub spanned_token :
      List Text → List Variant → TokenType → ℕ → Option TokenSpan → Token Variant
  spanned_token identifiers constants type token_type none =
      error_token (codes "Token position out of range.")
  spanned_token identifiers constants type token_type (some s) =
      pooled_token identifiers constants (pool_kind type) (token_type / token_shift)
        (record (new_token host.nil type) {
          literal = plain_literal type;
          start_line = s.start_line;
          start_column = s.start_column;
          end_line = s.end_line;
          end_column = s.end_column;
        })

  -- The token behind its type field.
  unfoldable pub typed_token :
      List Text → List Variant → ℕ → Option TokenType → Bytes → Load (Token Variant)
  typed_token identifiers constants token_type none b =
      ok (error_token (codes "Token type out of range."))
  typed_token identifiers constants token_type (some type) b = do
    let long = token_type / token_byte_mask % 2 == 1
    span ← decode_positions (drop (if long then 4 else 1) b)
    ok (spanned_token identifiers constants type token_type span)

  unfoldable pub binary_to_token : List Text → List Variant → Bytes → Load (Token Variant)
  binary_to_token identifiers constants b = do
    token_type ← decode_uint32 b
    typed_token identifiers constants token_type (of_index (token_type % token_mask_size)) b

  unfoldable pub load_constants : ℕ → Bytes → Load (List Variant × Bytes)
  load_constants zero b = ok ([], b)
  load_constants (suc left) b = do
    fail_if (ltb (length b) 4)
    len ← decode_uint32 b
    fail_if (ltb (length (drop 4 b)) len)
    (values, rest) ← load_constants left (drop len (drop 4 b))
    ok (host.decode_variant (take len (drop 4 b)) ∷ values, rest)

  unfoldable pub load_tokens :
      List Text → List Variant → ℕ → Bytes → Load (List (Token Variant) × Bytes)
  load_tokens identifiers constants zero b = ok ([], b)
  load_tokens identifiers constants (suc left) b = do
    fail_if (ltb (length b) 1)
    first ← byte_at b 0
    fail_if (ltb (length b) (record_size first))
    token ← binary_to_token identifiers constants b
    (tokens, rest) ← load_tokens identifiers constants left (drop (record_size first) b)
    ok (token ∷ tokens, rest)

  -- `set_code_buffer` behind the counts of identifiers, constants, lines and tokens.
  unfoldable pub load_sections :
      TokenizerBuffer Variant → ℕ → ℕ → ℕ → ℕ → Bytes → Load (TokenizerBuffer Variant)
  load_sections self identifier_count constant_count token_line_count token_count b = do
    (identifiers, b1) ← load_identifiers identifier_count b
    (constants, b2) ← load_constants constant_count b1
    let maps : LineMaps = record {
      token_lines = self.token_lines;
      token_columns = self.token_columns;
      token_newlines = self.token_newlines;
    }
    (lines, b3) ← load_lines token_line_count maps b2
    (final_newline, eof_span, b4) ← load_trailing b3
    (tokens, b5) ← load_tokens identifiers constants token_count b4
    fail_if (ltb 0 (length b5))
    ok (record self {
      identifiers = identifiers;
      constants = constants;
      token_lines = lines.token_lines;
      token_columns = lines.token_columns;
      token_newlines = lines.token_newlines;
      final_newline = final_newline;
      eof_span = eof_span;
      tokens = tokens;
    })

  -- `set_code_buffer` from the decompressed contents on.
  unfoldable pub load_contents : TokenizerBuffer Variant → Bytes → Load (TokenizerBuffer Variant)
  load_contents self contents = do
    fail_if (ltb (length contents) contents_header_size)
    identifier_count ← decode_uint32 contents
    constant_count ← decode_uint32 (drop 4 contents)
    token_line_count ← decode_uint32 (drop 8 contents)
    token_count ← decode_uint32 (drop 12 contents)
    let b = drop contents_header_size contents
    check_counts identifier_count constant_count token_line_count token_count (length b)
    load_sections self identifier_count constant_count token_line_count token_count b

  -- `buf[0] != BUFFER_MAGIC[0] || …`
  abbrev magic_differs : Bytes → Bool
  magic_differs (a ∷ b ∷ c ∷ d ∷ bytes) =
      not (a == b'B') || (not (b == b'S') || (not (c == b'T') || not (d == b'B')))
  magic_differs bytes = true

  unfoldable pub set_code_buffer : TokenizerBuffer Variant → Bytes → Load (TokenizerBuffer Variant)
  set_code_buffer self buffer = do
    fail_if (ltb (length buffer) buffer_header_size)
    fail_if (magic_differs buffer)
    version ← decode_uint32 (drop 4 buffer)
    fail_if (not (version == tokenizer_version))
    decompressed_size ← decode_uint32 (drop 8 buffer)
    let body = drop buffer_header_size buffer
    let inflated = host.decompress_zstd body decompressed_size
    let contents = if decompressed_size == 0 then body else inflated
    fail_if (not (decompressed_size == 0) && not (length contents == decompressed_size))
    load_contents self contents

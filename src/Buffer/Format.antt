-- ===== src/Buffer/Format.antt =====
-- src/bs_tokenizer_buffer.h: the sizes and masks of the format, spans, and the pools that a token
-- type uses; src/bs_platform_serialization.h: 32-bit words in bytes.
use barista_script.Common.{
  ℕ, zero, suc, ◌+◌, ◌*◌, ◌/◌, ◌%◌, Bool, true, false, ◌&&◌, [], ◌∷◌, Bytes, u32_mod, ◌==◌,
  if◌then◌else◌,
}
use barista_script.Common.Int.{ℤ, pos, negsuc}
use barista_script.Token.Types.{TokenType}
use barista_script.Token.Data.{Token}

abbrev pub tokenizer_version : ℕ
tokenizer_version = 3

abbrev pub token_byte_mask : ℕ
token_byte_mask = 0x80

-- `1 << TOKEN_BITS` and `1 << (TOKEN_BITS - 1)`: shifts by `TOKEN_BITS` multiply and divide by the
-- first, and `& TOKEN_MASK` is the remainder by the second.
abbrev pub token_shift : ℕ
token_shift = 256

abbrev pub token_mask_size : ℕ
token_mask_size = 128

abbrev pub token_span_size : ℕ
token_span_size = 16

abbrev pub token_short_size : ℕ
token_short_size = 1 + token_span_size

abbrev pub token_long_size : ℕ
token_long_size = 4 + token_span_size

abbrev pub line_marker_size : ℕ
line_marker_size = 3 * 4 + token_span_size

abbrev pub trailing_spans_size : ℕ
trailing_spans_size = 2 * token_span_size

abbrev pub buffer_magic : Bytes
buffer_magic = b'B' ∷ b'S' ∷ b'T' ∷ b'B' ∷ []

abbrev pub buffer_header_size : ℕ
buffer_header_size = 12

abbrev pub contents_header_size : ℕ
contents_header_size = 16

-- the byte that hides the code points of a name
abbrev pub name_mask : ℕ
name_mask = 0xb6

pub record TokenSpan : Type 0 where
  pub start_line : ℤ
  pub start_column : ℤ
  pub end_line : ℤ
  pub end_column : ℤ

abbrev pub zero_span : TokenSpan
zero_span = record {
  start_line = pos 0;
  start_column = pos 0;
  end_line = pos 0;
  end_column = pos 0;
}

-- What the `switch` of `_token_to_binary` and of `_binary_to_token` tells apart.
pub data PoolKind : Type 0 where
  identifier_pool constant_pool no_pool : PoolKind

abbrev pub pool_kind : TokenType → PoolKind
pool_kind TokenType.annotation = PoolKind.identifier_pool
pool_kind TokenType.identifier = PoolKind.identifier_pool
pool_kind TokenType.reserved_type_name = PoolKind.identifier_pool
pool_kind TokenType.error = PoolKind.constant_pool
pool_kind TokenType.literal = PoolKind.constant_pool
pool_kind _ = PoolKind.no_pool

abbrev pub is_empty_type : TokenType → Bool
is_empty_type TokenType.empty = true
is_empty_type _ = false

unfoldable pub span_of : {V : Type 0} → Token V → TokenSpan
span_of t = if is_empty_type t.type then zero_span else record {
  start_line = t.start_line;
  start_column = t.start_column;
  end_line = t.end_line;
  end_column = t.end_column;
}

abbrev pub is_zero : ℤ → Bool
is_zero (pos n) = n == 0
is_zero (negsuc n) = false

unfoldable pub apply_span : {V : Type 0} → Token V → TokenSpan → ℤ → Token V
apply_span t s fallback_line =
    if is_zero s.start_line && is_zero s.end_line && is_zero s.start_column && is_zero s.end_column
    then record t { start_line = fallback_line; end_line = fallback_line }
    else record t {
      start_line = s.start_line;
      start_column = s.start_column;
      end_line = s.end_line;
      end_column = s.end_column;
    }

unfoldable pub encode_position : ℤ → ℕ
encode_position (pos n) = n % u32_mod
encode_position (negsuc n) = 0

-- `BSMarshalls::encode_uint32`, for the bytes that are left to write; `& 0xFF` and `>> 8`
encode_bytes : ℕ → ℕ → Bytes
encode_bytes zero value = []
encode_bytes (suc left) value = value % 256 ∷ encode_bytes left (value / 256)

unfoldable pub encode_uint32 : ℕ → Bytes
unfolding encode_bytes
encode_uint32 value = encode_bytes 4 value

-- What reading the buffer gives: a value, `ERR_INVALID_DATA`, or a read outside the buffer, which
-- is undefined behaviour in the source.
pub data Load {ℓ} (A : Type ℓ) : Type ℓ where
  ok : A → Load A
  invalid_data : Load A
  out_of_bounds : Load A

infixl 5 ◌>>=◌ ◌>>◌
abbrev pub ◌>>=◌ {ℓ κ} : {A : Type ℓ} {B : Type κ} → Load A → (A → Load B) → Load B
ok a >>= f = f a
invalid_data >>= f = invalid_data
out_of_bounds >>= f = out_of_bounds

abbrev pub ◌>>◌ {ℓ} : {B : Type ℓ} → Load (Unit {0}) → Load B → Load B
m >> k = m >>= λ _. k

-- `ERR_FAIL_COND_V(condition, ERR_INVALID_DATA)`
abbrev pub fail_if : Bool → Load (Unit {0})
fail_if true = invalid_data
fail_if false = ok tt

-- `value <<= 8; value |= byte`: the low byte of the shifted value is 0.
abbrev shift_in : ℕ → ℕ → ℕ
shift_in value byte = value * 256 % u32_mod + byte

-- `BSMarshalls::decode_uint32` at the first byte of `bytes`
unfoldable pub decode_uint32 : Bytes → Load ℕ
decode_uint32 (a ∷ b ∷ c ∷ d ∷ bytes) = ok (shift_in (shift_in (shift_in (shift_in 0 d) c) b) a)
decode_uint32 bytes = out_of_bounds

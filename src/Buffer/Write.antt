-- ===== src/Buffer/Write.antt =====
-- src/bs_tokenizer_buffer.cpp: `_token_to_binary` and the loop of
-- `parse_code_string` over the tokens. The text tokenizer
-- enters as the list of what its `scan()` returns, each token with the newline that the call
-- withheld; `resize` and a write at the end of an array are an append.
use barista_script.Common.{
  ℕ, ◌+◌, ◌*◌, ◌%◌, Bool, true, false, ◌&&◌, Option, none, some, List, [], ◌∷◌, ◌++◌, ◌==◌, ltb,
  if◌then◌else◌, Bytes, Text, text_eq, u32_mod, to_uint32,
}
use barista_script.Common.Int.{ℤ, pos, ltb_ℤ}
use barista_script.Common.Maps.{insert}
use barista_script.Host.{Host}
use barista_script.Token.Types.{TokenType}
use barista_script.Token.Index.{index}
use barista_script.Token.Data.{Token}
use barista_script.Buffer.Format.{
  TokenSpan, span_of, pool_kind, PoolKind, encode_position, encode_uint32, token_shift,
  token_mask_size, token_byte_mask,
}
use barista_script.Buffer.Pool.{constant_key_eq, pool_index}

unfoldable pub encode_span : TokenSpan → Bytes
encode_span s =
    encode_uint32 (encode_position s.start_line)
    ++ (encode_uint32 (encode_position s.start_column)
        ++ (encode_uint32 (encode_position s.end_line)
            ++ encode_uint32 (encode_position s.end_column)))

-- The type field of a record: four bytes with the mask set, or one byte for the type 0.
unfoldable pub encode_type : ℕ → Bytes
encode_type token_type =
    if token_type % token_mask_size == 0
    then token_type % 256 ∷ []
    else encode_uint32 (token_type + token_byte_mask)

abbrev pub token_span : {V : Type 0} → Token V → TokenSpan
token_span t = record {
  start_line = t.start_line;
  start_column = t.start_column;
  end_line = t.end_line;
  end_column = t.end_column;
}

abbrev pub is_eof : TokenType → Bool
is_eof TokenType.tk_eof = true
is_eof _ = false

module _ (host : Host) where
  open host use {Variant}

  pub record Pools : Type 0 where
    pub identifier_map : List (Text × ℕ)
    pub constant_map : List (Variant × ℕ)

  -- The pool index that goes above the type, and the pools behind it; `identifier_pos <<
  -- TOKEN_BITS` drops what leaves the 32 bits.
  unfoldable pub pool_token : PoolKind → Variant → Pools → ℕ × Pools
  pool_token PoolKind.identifier_pool literal p =
      let (i, m) = pool_index text_eq (host.to_name literal) p.identifier_map in
      (i * token_shift % u32_mod, record p { identifier_map = m })
  pool_token PoolKind.constant_pool literal p =
      let (i, m) = pool_index (constant_key_eq host) literal p.constant_map in
      (i * token_shift % u32_mod, record p { constant_map = m })
  pool_token PoolKind.no_pool literal p = (0, p)

  -- The bytes that one token adds to the buffer, and the pools behind it.
  unfoldable pub token_to_binary : Token Variant → Pools → Bytes × Pools
  token_to_binary t p =
      let (high, p') = pool_token (pool_kind t.type) t.literal p in
      (encode_type (index t.type % token_mask_size + high) ++ encode_span (token_span t), p')

  -- The local variables of `parse_code_string`.
  pub record Writer : Type 0 where
    pub pools : Pools
    pub token_buffer : Bytes
    pub token_lines : List (ℕ × ℕ)
    pub token_columns : List (ℕ × ℕ)
    pub token_newlines : List (ℕ × TokenSpan)
    pub last_token_line : ℤ
    pub token_counter : ℕ

  abbrev pub empty_pools : Pools
  empty_pools = record { identifier_map = []; constant_map = [] }

  abbrev pub new_writer : Writer
  new_writer = record {
    pools = empty_pools;
    token_buffer = [];
    token_lines = [];
    token_columns = [];
    token_newlines = [];
    last_token_line = pos 0;
    token_counter = 0;
  }

  -- The line-start record of the current token, if it begins a line.
  unfoldable pub mark_line : Token Variant → Token Variant → Writer → Writer
  mark_line t withheld w =
      if ltb 0 w.token_counter && ltb_ℤ w.last_token_line t.start_line
      then record w {
        token_lines = insert ◌==◌ w.token_counter (to_uint32 t.start_line) w.token_lines;
        token_columns = insert ◌==◌ w.token_counter (to_uint32 t.start_column) w.token_columns;
        token_newlines = insert ◌==◌ w.token_counter (span_of withheld) w.token_newlines;
      }
      else w

  -- One round of the loop over the tokens.
  unfoldable pub write_token : Token Variant → Token Variant → Writer → Writer
  write_token t withheld w =
      let (bytes, p) = token_to_binary t w.pools in
      let marked = mark_line t withheld w in
      record marked {
        pools = p;
        token_buffer = w.token_buffer ++ bytes;
        last_token_line = t.end_line;
        token_counter = (w.token_counter + 1) % u32_mod;
      }

  -- The loop up to the end-of-file token, which it hands on with the newline before it. `none` if
  -- the scans end before one: the source's loop would go on.
  unfoldable pub write_tokens :
      List (Token Variant × Token Variant)
      → Writer
      → Option (Writer × Token Variant × Token Variant)
  write_tokens [] w = none
  write_tokens ((t, withheld) ∷ scans) w =
      let rest = write_tokens scans (write_token t withheld w) in
      if is_eof t.type then some (w, t, withheld) else rest

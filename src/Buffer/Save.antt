-- ===== src/Buffer/Save.antt =====
-- src/bs_tokenizer_buffer.cpp: what `parse_code_string` does with the tokens that it has written:
-- the continuation lines leave the map, and the contents and the header are put together.
use Prim.Native.Nat.{bit_xor}
use barista_script.Common.{
  ℕ, not, ◌&&◌, Bool, true, false, Option, none, some, List, [], ◌∷◌, ◌++◌, map, length, ◌==◌,
  if◌then◌else◌, Bytes, Text, to_uint32,
}
use barista_script.Common.Int.{ℤ}
use barista_script.Common.Maps.{lookup, insert, erase}
use barista_script.Host.{Host}
use barista_script.Token.Data.{Token}
use barista_script.Buffer.Format.{
  TokenSpan, zero_span, span_of, encode_uint32, tokenizer_version, buffer_magic, name_mask,
}
use barista_script.Buffer.Pool.{reverse_map}
use barista_script.Buffer.Write.{Writer, new_writer, write_tokens, encode_span}

-- `rev_token_lines`: the token index that begins a line, over the entries read so far.
unfoldable pub reverse_lines : List (ℕ × ℕ) → List (ℕ × ℕ) → List (ℕ × ℕ)
reverse_lines [] r = r
reverse_lines ((i, line) ∷ m) r = reverse_lines m (insert ◌==◌ line i r)

-- A name: the number of its code points, and each of them in four bytes under the mask.
unfoldable pub encode_code_points : Text → Bytes
encode_code_points [] = []
encode_code_points (c ∷ name) =
    map (λ b. bit_xor b name_mask) (encode_uint32 c) ++ encode_code_points name

unfoldable pub encode_identifiers : List Text → Bytes
encode_identifiers [] = []
encode_identifiers (name ∷ names) =
    encode_uint32 (length name) ++ (encode_code_points name ++ encode_identifiers names)

abbrev pub is_nil : Bytes → Bool
is_nil [] = true
is_nil (_ ∷ _) = false

-- `none` where a constant has no binary form.
unfoldable pub encode_constants : (host : Host) → List host.Variant → Option Bytes
encode_constants host [] = some []
encode_constants host (v ∷ vs) = elim (is_nil (host.encode_variant v)) [
  | true ↦ none
  | false ↦ elim (encode_constants host vs) [
    | none ↦ none
    | some rest ↦
        some (encode_uint32 (length (host.encode_variant v)) ++ (host.encode_variant v ++ rest))
  ]
]

-- `token_columns[e.key]` and `token_newlines[e.key]`: a missing entry reads as the default.
unfoldable pub value_at {ℓ} : {V : Type ℓ} → V → ℕ → List (ℕ × V) → V
value_at default k m = elim (lookup ◌==◌ k m) [ none ↦ default | some v ↦ v ]

unfoldable pub encode_lines : List (ℕ × ℕ) → List (ℕ × ℕ) → List (ℕ × TokenSpan) → Bytes
encode_lines [] columns newlines = []
encode_lines ((i, line) ∷ lines) columns newlines =
    encode_uint32 i
    ++ (encode_uint32 line
        ++ (encode_uint32 (value_at 0 i columns)
            ++ (encode_span (value_at zero_span i newlines)
                ++ encode_lines lines columns newlines)))

pub data CompressMode : Type 0 where
  compress_none compress_zstd : CompressMode

module _ (host : Host) where
  open host use {Variant}

  abbrev pub erase_line : Option ℕ → Writer host → Writer host
  erase_line none w = w
  erase_line (some i) w = record w {
    token_lines = erase ◌==◌ i w.token_lines;
    token_columns = erase ◌==◌ i w.token_columns;
    token_newlines = erase ◌==◌ i w.token_newlines;
  }

  -- "Remove continuation lines from map."
  unfoldable pub drop_continuation : List (ℕ × ℕ) → List ℤ → Writer host → Writer host
  drop_continuation rev [] w = w
  drop_continuation rev (line ∷ lines) w =
      drop_continuation rev lines (erase_line (lookup ◌==◌ (to_uint32 line) rev) w)

  -- The contents of the buffer; the spans are those of the final newline and of the end of file.
  unfoldable pub encode_contents : Writer host → TokenSpan → TokenSpan → Option Bytes
  encode_contents w final_newline eof =
      let identifiers = reverse_map [] w.pools.identifier_map in
      elim (encode_constants host (reverse_map host.nil w.pools.constant_map)) [
        | none ↦ none
        | some constants ↦ some (
            encode_uint32 (length w.pools.identifier_map)
            ++ (encode_uint32 (length w.pools.constant_map)
                ++ (encode_uint32 (length w.token_lines)
                    ++ (encode_uint32 w.token_counter
                        ++ (encode_identifiers identifiers
                            ++ (constants
                                ++ (encode_lines w.token_lines w.token_columns w.token_newlines
                                    ++ (encode_span final_newline
                                        ++ (encode_span eof ++ w.token_buffer)))))))))
      ]

  abbrev pub encode_header : ℕ → Bytes
  encode_header size = buffer_magic ++ (encode_uint32 tokenizer_version ++ encode_uint32 size)

  -- The header and the contents; an empty array reports that compression failed.
  unfoldable pub pack : CompressMode → Bytes → Bytes
  pack CompressMode.compress_none contents = encode_header 0 ++ contents
  pack CompressMode.compress_zstd contents =
      let compressed = host.compress_zstd contents in
      if is_nil compressed && not (is_nil contents)
      then []
      else encode_header (length contents) ++ compressed

  -- `parse_code_string`, on what the text tokenizer scans and its continuation lines. `none` if it
  -- scans no end of file; an empty array is the code's answer to an error.
  unfoldable pub parse_code_string :
      List (Token Variant × Token Variant) → List ℤ → CompressMode → Option Bytes
  parse_code_string scans continuation mode = elim (write_tokens host scans (new_writer host)) [
    | none ↦ none
    | some (w, eof, withheld) ↦
        let kept = drop_continuation (reverse_lines w.token_lines []) continuation w in
        elim (encode_contents kept (span_of withheld) (span_of eof)) [
          | none ↦ some []
          | some contents ↦ some (pack mode contents)
        ]
  ]

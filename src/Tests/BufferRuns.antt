-- ===== src/Tests/BufferRuns.antt =====
-- A file of two tokens, saved and loaded again.
use barista_script.Common.{
  ◌≢◌, ℕ, ◌+◌, ◌<◌, ◌≡◌, ◌++◌, refl, some, List, [], ◌∷◌, length, Text, Bytes, text_eq_iff, arith,
}
use barista_script.Common.Int.{pos}
use barista_script.Token.Types.{TokenType}
use barista_script.Token.Data.{Token, new_token}
use barista_script.Buffer.Format.{ok, span_of}
use barista_script.Buffer.Write.{token_span}
use barista_script.Buffer.Save.{CompressMode, parse_code_string}
use barista_script.Buffer.State.{TokenizerBuffer, new_buffer}
use barista_script.Buffer.Load.{set_code_buffer}
use barista_script.Buffer.Ensures.{Safe}
use barista_script.Buffer.Safety.{set_code_buffer-Safe}
use barista_script.Buffer.Replay.{scan}
use barista_script.Buffer.Replay.Effects.{Does}
use barista_script.Buffer.Replay.Step.{scan-Does}
use barista_script.Common.{map, Option, none, Bool, true, ltb, ltb→lt}
use barista_script.Token.Index.{index}
use barista_script.Buffer.Format.{encode_position, encode_uint32}
use barista_script.Buffer.Pool.{pool_index, reverse_map, constant_key_eq}
use barista_script.Buffer.Write.{
  write_token, token_to_binary, pool_token, mark_line, encode_type, encode_span,
}
use barista_script.Buffer.Save.{
  encode_contents, encode_identifiers, encode_code_points, encode_constants, encode_lines, value_at,
  drop_continuation, reverse_lines,
}
use barista_script.Common.{u32_mod}
use barista_script.Common.Maps.{lookup, insert}
use barista_script.Buffer.RoundTrip.Saved.{set_code_buffer-parse_code_string_zstd}
use barista_script.Buffer.Replay.Whole.{Layout, replay, calls, replay-Layout}
use barista_script.Buffer.RoundTrip.Tokens.{stored}
use barista_script.Buffer.RoundTrip.Replayed.{replay-parse_code_string}
use barista_script.Buffer.RoundTrip.Saved.{
  kept, IsCanonical, IsFile, Restores, set_code_buffer-parse_code_string,
}
use barista_script.Tests.Engine.{engine, mark}

abbrev at_place : TokenType → Text → ℕ → Token Text
at_place type literal column = record (new_token [] type) {
  literal = literal;
  start_line = pos 1;
  start_column = pos column;
  end_line = pos 1;
  end_column = pos (column + 1);
}

abbrev none_before : Token Text
none_before = new_token [] TokenType.empty

-- `x` and `7`.
abbrev file_tokens : List (Token Text × Token Text)
file_tokens =
    (at_place TokenType.identifier (21 ∷ 120 ∷ []) 1, none_before)
    ∷ (at_place TokenType.literal (2 ∷ 7 ∷ []) 3, none_before)
    ∷ []

abbrev file_newline : Token Text
file_newline = at_place TokenType.newline [] 4

abbrev file_eof : Token Text
file_eof = at_place TokenType.tk_eof [] 5

-- Constants of a byte behind their type.
abbrev IsShort : Text → Type 0
IsShort v = length v < 1000

engine-IsCanonical : IsCanonical engine IsShort
unfolding constant_key_eq
engine-IsCanonical = record {
  separates = λ a b p q e. (text_eq_iff a b).0 (ground arith);
  encodes = λ v p. record { not_empty = λ e. cc; size_fits = omega arith; decodes = refl };
}

two_tokens-IsFile : IsFile engine IsShort file_tokens file_eof file_newline
unfolding span_of token_span
two_tokens-IsFile = record {
  before_eof = (refl, (refl, tt));
  at_eof = refl;
  writable = (
    record {
      fits = record {
        start_line = omega arith;
        start_column = omega arith;
        end_line = omega arith;
        end_column = omega arith;
      };
      identifier = λ e. record { length_fits = omega arith; points_fit = (omega arith, tt) };
      constant = λ e. absurd (ground arith);
    },
    (
      record {
        fits = record {
          start_line = omega arith;
          start_column = omega arith;
          end_line = omega arith;
          end_column = omega arith;
        };
        identifier = λ e. absurd (ground arith);
        constant = λ e. omega arith;
      },
      tt,
    ),
  );
  placed = (
    record {
      line_pos = refl;
      column_pos = refl;
      line_fits = omega arith;
      column_fits = omega arith;
      newline_fits = record {
        start_line = omega arith;
        start_column = omega arith;
        end_line = omega arith;
        end_column = omega arith;
      };
    },
    (
      record {
        line_pos = refl;
        column_pos = refl;
        line_fits = omega arith;
        column_fits = omega arith;
        newline_fits = record {
          start_line = omega arith;
          start_column = omega arith;
          end_line = omega arith;
          end_column = omega arith;
        };
      },
      tt,
    ),
  );
  newline_fits = record {
    start_line = omega arith;
    start_column = omega arith;
    end_line = omega arith;
    end_column = omega arith;
  };
  eof_fits = record {
    start_line = omega arith;
    start_column = omega arith;
    end_line = omega arith;
    end_column = omega arith;
  };
  few = omega arith;
}

set_code_buffer-parse_code_string_example :
    (buffer : Bytes) × (s : TokenizerBuffer Text) × (parse_code_string engine
        (file_tokens ++ (file_eof, file_newline) ∷ [])
        []
        CompressMode.compress_none
      ≡ some buffer)
    × (set_code_buffer engine new_buffer buffer ≡ ok s)
    × Restores engine file_tokens [] file_eof file_newline s
set_code_buffer-parse_code_string_example =
    set_code_buffer-parse_code_string engine IsShort engine-IsCanonical file_tokens [] file_eof
      file_newline two_tokens-IsFile []

set_code_buffer-Safe_example : Safe (set_code_buffer engine new_buffer (71 ∷ 68 ∷ 83 ∷ []))
set_code_buffer-Safe_example = set_code_buffer-Safe engine new_buffer (71 ∷ 68 ∷ 83 ∷ [])

-- A buffer with one token, at a line start, inside one indentation.
abbrev replaying : TokenizerBuffer Text
replaying = record new_buffer {
  tokens = at_place TokenType.identifier (21 ∷ 120 ∷ []) 1 ∷ [];
  token_lines = (0, 3) ∷ [];
  token_columns = (0, 9) ∷ [];
  indent_stack = 4 ∷ [];
}

scan-Does_example : Does engine replaying (scan engine replaying)
scan-Does_example = scan-Does engine replaying

replay-Layout_example :
    (out : List (Token Text)) × (replay engine 9 replaying ≡ some out)
    × Layout (at_place TokenType.identifier (21 ∷ 120 ∷ []) 1 ∷ []) 1 out
replay-Layout_example = replay-Layout engine 9 replaying 1 (omega arith) refl (refl, tt)

replay-parse_code_string_example :
    (buffer : Bytes) × (s : TokenizerBuffer Text) × (out : List (Token Text)) × (parse_code_string
        engine
        (file_tokens ++ (file_eof, file_newline) ∷ [])
        []
        CompressMode.compress_none
      ≡ some buffer)
    × (set_code_buffer engine new_buffer buffer ≡ ok s)
    × (replay engine (calls s) s ≡ some out)
    × Layout (map (λ e. stored engine e.0) file_tokens) 0 out
replay-parse_code_string_example =
    replay-parse_code_string engine IsShort engine-IsCanonical file_tokens [] [] file_eof
      file_newline two_tokens-IsFile

is_small : Option Bytes → Bool
is_small none = true
is_small (some b) = ltb (length b) u32_mod

small_run :
    is_small (
      encode_contents engine (kept engine file_tokens []) (span_of file_newline) (span_of file_eof))
    ≡ true
unfolding is_small encode_contents write_token token_to_binary pool_token pool_index mark_line
    encode_type encode_span encode_position encode_uint32 span_of index reverse_map
    encode_identifiers encode_code_points encode_constants encode_lines value_at drop_continuation
    reverse_lines constant_key_eq lookup insert
small_run = refl

small_contents :
    (b : Bytes)
    → encode_contents engine (kept engine file_tokens []) (span_of file_newline) (span_of file_eof)
      ≡ some b
    → length b < u32_mod
unfolding is_small
small_contents b e = let small = (rw (e) at small_run) in ltb→lt (length b) u32_mod small

marked : (b : Bytes) → b ≢ [] → mark b ≢ []
marked [] ne e = ne refl
marked (b ∷ rest) ne e = cc

marked_back : (b : Bytes) → b ≢ [] → engine.decompress_zstd (engine.compress_zstd b) (length b) ≡ b
marked_back [] ne = refl
marked_back (b ∷ rest) ne = refl

set_code_buffer-parse_code_string_zstd_example :
    (buffer : Bytes) × (s : TokenizerBuffer Text) × (parse_code_string engine
        (file_tokens ++ (file_eof, file_newline) ∷ [])
        []
        CompressMode.compress_zstd
      ≡ some buffer)
    × (set_code_buffer engine new_buffer buffer ≡ ok s)
    × Restores engine file_tokens [] file_eof file_newline s
set_code_buffer-parse_code_string_zstd_example =
    set_code_buffer-parse_code_string_zstd engine IsShort engine-IsCanonical file_tokens [] file_eof
      file_newline two_tokens-IsFile [] marked marked_back small_contents

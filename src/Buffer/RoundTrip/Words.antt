-- ===== src/Buffer/RoundTrip/Words.antt =====
-- Words and spans: `encode_uint32` and `decode_uint32`, and the spans made of four of them.
use barista_script.Common.{
  ℕ, ◌≤◌, ◌<◌, ◌≡◌, refl, some, ◌++◌, drop, length, arith, Bytes, int_max, u32_mod,
}
use barista_script.Common.Int.{ℤ, pos, pos_part}
use barista_script.Buffer.Format.{TokenSpan, ok, decode_uint32, encode_uint32, encode_position}
use barista_script.Buffer.Write.{encode_span}
use barista_script.Buffer.Load.{decode_int, decode_field, decode_span, decode_positions}

pub decode_uint32-encode_uint32 :
    (n : ℕ) (rest : Bytes) → n < u32_mod → decode_uint32 (encode_uint32 n ++ rest) ≡ ok n
unfolding decode_uint32 encode_uint32
decode_uint32-encode_uint32 n rest h = ground arith

pub drop-encode_uint32 : (n : ℕ) (rest : Bytes) → drop 4 (encode_uint32 n ++ rest) ≡ rest
unfolding encode_uint32
drop-encode_uint32 n rest = refl

pub length-encode_uint32 : (n : ℕ) → length (encode_uint32 n) ≡ 4
unfolding encode_uint32
length-encode_uint32 n = refl

-- Negative positions are written as 0.
abbrev pub clamp : TokenSpan → TokenSpan
clamp s = record {
  start_line = pos (pos_part s.start_line);
  start_column = pos (pos_part s.start_column);
  end_line = pos (pos_part s.end_line);
  end_column = pos (pos_part s.end_column);
}

-- The positions are values of `int`.
pub record FitsInt (s : TokenSpan) : Type 0 where
  pub start_line : pos_part s.start_line ≤ int_max
  pub start_column : pos_part s.start_column ≤ int_max
  pub end_line : pos_part s.end_line ≤ int_max
  pub end_column : pos_part s.end_column ≤ int_max

encode_position-pos_part : (z : ℤ) → pos_part z ≤ int_max → encode_position z ≡ pos_part z
unfolding encode_position
encode_position-pos_part z h = ground arith

decode_int-encode_uint32 :
    (n : ℕ) (rest : Bytes) → n ≤ int_max → decode_int (encode_uint32 n ++ rest) ≡ ok (some n)
unfolding decode_int
decode_int-encode_uint32 n rest h =
    rw (decode_uint32-encode_uint32 n rest (omega arith)) (ground arith)

decode_int-encode_position :
    (z : ℤ) (rest : Bytes)
    → pos_part z ≤ int_max
    → decode_int (encode_uint32 (encode_position z) ++ rest) ≡ ok (some (pos_part z))
decode_int-encode_position z rest h =
    rw (encode_position-pos_part z h) (decode_int-encode_uint32 (pos_part z) rest h)

pub decode_field-encode_uint32 :
    (n : ℕ) (rest : Bytes) → n ≤ int_max → decode_field (encode_uint32 n ++ rest) ≡ ok n
unfolding decode_field
decode_field-encode_uint32 n rest h = rw (decode_int-encode_uint32 n rest h)

-- The four words of a span, with what follows each of them.
module _ (s : TokenSpan) (rest : Bytes) (fits : FitsInt s) where
  open fits use {start_line as h1, start_column as h2, end_line as h3, end_column as h4}

  decode_ints-encode_span :
      (decode_int (encode_span s ++ rest) ≡ ok (some (pos_part s.start_line)))
      × (decode_int (drop 4 (encode_span s ++ rest)) ≡ ok (some (pos_part s.start_column)))
      × (decode_int (drop 8 (encode_span s ++ rest)) ≡ ok (some (pos_part s.end_line)))
      × (decode_int (drop 12 (encode_span s ++ rest)) ≡ ok (some (pos_part s.end_column)))
  unfolding encode_span encode_uint32
  decode_ints-encode_span =
      let t3 = encode_uint32 (encode_position s.end_column) ++ rest in
      let t2 = encode_uint32 (encode_position s.end_line) ++ t3 in
      let t1 = encode_uint32 (encode_position s.start_column) ++ t2 in
      (
        decode_int-encode_position s.start_line t1 h1,
        decode_int-encode_position s.start_column t2 h2,
        decode_int-encode_position s.end_line t3 h3,
        decode_int-encode_position s.end_column rest h4,
      )

  pub decode_span-encode_span : decode_span (encode_span s ++ rest) ≡ ok (clamp s)
  unfolding decode_span decode_field
  decode_span-encode_span =
      let (e1, e2, e3, e4) = decode_ints-encode_span in rw e1 (rw e2 (rw e3 (rw e4)))

  pub decode_positions-encode_span : decode_positions (encode_span s ++ rest) ≡ ok (some (clamp s))
  unfolding decode_positions
  decode_positions-encode_span =
      let (e1, e2, e3, e4) = decode_ints-encode_span in rw e1 (rw e2 (rw e3 (rw e4)))

pub drop-encode_span : (s : TokenSpan) (rest : Bytes) → drop 16 (encode_span s ++ rest) ≡ rest
unfolding encode_span encode_uint32
drop-encode_span s rest = refl

pub length-encode_span : (s : TokenSpan) → length (encode_span s) ≡ 16
unfolding encode_span encode_uint32
length-encode_span s = refl

-- ===== src/Buffer/RoundTrip/Lines.antt =====
-- The line-start records: the three maps of the writer hold the same keys in rising order, and the
-- reader fills its maps with the same entries.
use barista_script.Common.{
  ℕ, suc, ◌+◌, ◌≤◌, ◌<◌, ◌≡◌, refl, ◌∙◌, some, List, [], ◌∷◌, ◌++◌, map, drop, length, append_assoc,
  append-nil, arith, All, Bytes, int_max, ◌==◌, ltb_of_ge,
}
use mathlib.Core.List.{map-append}
use barista_script.Common.Maps.{lookup, insert}
use barista_script.Buffer.Format.{TokenSpan, zero_span, ok, encode_uint32}
use barista_script.Buffer.Write.{encode_span}
use barista_script.Buffer.Save.{encode_lines, value_at}
use barista_script.Buffer.Load.{LineMaps, insert_line, decode_line, load_lines}
use barista_script.Buffer.RoundTrip.Words.{
  clamp, FitsInt, decode_field-encode_uint32, decode_span-encode_span,
}

-- A token index with the line, the column and the newline's span that belong to it.
abbrev pub Row : Type 0
Row = ℕ × ℕ × ℕ × TokenSpan

abbrev pub lines_of : List Row → List (ℕ × ℕ)
lines_of = map (λ r. (r.0, r.1))

abbrev pub columns_of : List Row → List (ℕ × ℕ)
columns_of = map (λ r. (r.0, r.2))

abbrev pub newlines_of : List Row → List (ℕ × TokenSpan)
newlines_of = map (λ r. (r.0, r.3))

abbrev pub clamp_row : Row → Row
clamp_row (i, line, column, s) = (i, line, column, clamp s)

abbrev pub maps_of : List Row → LineMaps
maps_of rows = record {
  token_lines = lines_of rows;
  token_columns = columns_of rows;
  token_newlines = newlines_of rows;
}

-- The keys rise, from `lo` on.
abbrev pub Rising : ℕ → List Row → Type 0
Rising lo [] = Unit
Rising lo (r ∷ rows) = (lo ≤ r.0) × Rising (suc r.0) rows

abbrev pub RowFits : Row → Type 0
RowFits r = (r.0 ≤ int_max) × (r.1 ≤ int_max) × (r.2 ≤ int_max) × FitsInt r.3

abbrev pub encode_row : Row → Bytes → Bytes
encode_row r rest =
    encode_uint32 r.0 ++ (encode_uint32 r.1 ++ (encode_uint32 r.2 ++ (encode_span r.3 ++ rest)))

abbrev pub encode_rows : List Row → Bytes → Bytes
encode_rows [] rest = rest
encode_rows (r ∷ rows) rest = encode_row r (encode_rows rows rest)

decode_line-encode_row :
    (r : Row) (rest : Bytes) → RowFits r → decode_line (encode_row r rest) ≡ ok (clamp_row r)
unfolding decode_line encode_uint32
decode_line-encode_row r rest h =
    let t3 = encode_span r.3 ++ rest in
    let t2 = encode_uint32 r.2 ++ t3 in
    let t1 = encode_uint32 r.1 ++ t2 in
    rw (decode_field-encode_uint32 r.0 t1 h.0) (
      rw (decode_field-encode_uint32 r.1 t2 h.1)
        (rw (decode_field-encode_uint32 r.2 t3 h.2) (rw (decode_span-encode_span r.3 rest h.3))))

module _ {ℓ} {V : Type ℓ} where
  pub insert_last :
      (k : ℕ) (v : V) (m : List (ℕ × V))
      → All (λ e. e.0 < k) m
      → insert ◌==◌ k v m ≡ m ++ (k, v) ∷ []
  unfolding insert
  insert_last k v [] h = refl
  insert_last k v ((j, w) ∷ m) h = ground (arith, insert_last k v m h.1)

  lookup_past :
      (k : ℕ) (v : V) (m rest : List (ℕ × V))
      → All (λ e. e.0 < k) m
      → lookup ◌==◌ k (m ++ (k, v) ∷ rest) ≡ some v
  unfolding lookup
  lookup_past k v [] rest h = ground arith
  lookup_past k v ((j, w) ∷ m) rest h = ground (arith, lookup_past k v m rest h.1)

length-encode_row : (r : Row) (rest : Bytes) → length (encode_row r rest) ≡ 28 + length rest
unfolding encode_uint32 encode_span
length-encode_row r rest = omega arith

drop-encode_row : (r : Row) (rest : Bytes) → drop 28 (encode_row r rest) ≡ rest
unfolding encode_uint32 encode_span
drop-encode_row r rest = refl

-- All keys are below `k`.
abbrev pub Below : ℕ → List Row → Type 0
Below k = All (λ r. r.0 < k)

pub below_keys {ℓ} :
    {V : Type ℓ} (f : Row → V) (k : ℕ) (rows : List Row)
    → Below k rows
    → All (λ (e : ℕ × V). e.0 < k) (map (λ r. (r.0, f r)) rows)
below_keys f k [] h = tt
below_keys f k (r ∷ rows) h = (h.0, below_keys f k rows h.1)

pub Below-next :
    (k : ℕ) (rows : List Row) (r : Row) → Below k rows → k ≤ r.0 → Below (suc r.0) (rows ++ r ∷ [])
Below-next k [] r h le = (omega arith, tt)
Below-next k (x ∷ rows) r h le = (omega arith, Below-next k rows r h.1 le)

Below-weaken : (k j : ℕ) (rows : List Row) → Below k rows → k ≤ j → Below j rows
Below-weaken k j [] h le = tt
Below-weaken k j (r ∷ rows) h le = (omega (arith, h.0), Below-weaken k j rows h.1 le)

insert_line_last :
    (k : ℕ) (pre : List Row) (r : Row)
    → Below k pre
    → k ≤ r.0
    → insert_line (maps_of pre) r ≡ maps_of (pre ++ r ∷ [])
insert_line_last k pre r h le =
    let b = Below-weaken k r.0 pre h le in
    rw (
      insert_last r.0 r.1 (lines_of pre) (below_keys (λ r. r.1) r.0 pre b),
      insert_last r.0 r.2 (columns_of pre) (below_keys (λ r. r.2) r.0 pre b),
      insert_last r.0 r.3 (newlines_of pre) (below_keys (λ r. r.3) r.0 pre b),
      map-append,
      map-append,
      map-append,
    )

-- The rows that `encode_rows` has written go behind those that the maps hold.
pub load_lines-encode_rows :
    (k : ℕ) (pre rows : List Row) (rest : Bytes)
    → Below k pre
    → Rising k rows
    → All RowFits rows
    → load_lines (length rows) (maps_of pre) (encode_rows rows rest)
      ≡ ok (maps_of (pre ++ map clamp_row rows), rest)
unfolding load_lines
load_lines-encode_rows k pre [] rest h u f = rw append-nil
load_lines-encode_rows k pre (r ∷ rows) rest h u f =
    let tail = encode_rows rows rest in
    rw
      (
        ltb_of_ge (length (encode_row r tail)) 28 (omega (arith, length-encode_row r tail)),
        decode_line-encode_row r tail f.0,
      )
      (rw (drop-encode_row r tail, insert_line_last k pre (clamp_row r) h u.0)
        (load_lines-encode_rows (suc r.0) (pre ++ clamp_row r ∷ []) rows rest
            (Below-next k pre (clamp_row r) h u.0) u.1 f.1
          ∙ rw append_assoc))

value_at-some {ℓ} :
    {V : Type ℓ} (default : V) (k : ℕ) (m : List (ℕ × V)) (v : V)
    → lookup ◌==◌ k m ≡ some v
    → value_at default k m ≡ v
unfolding value_at
value_at-some default k m v e = rw (e, value_at)

-- The writer finds the columns and the newlines under the keys of the lines.
pub encode_lines-encode_rows :
    (k : ℕ) (pre rows : List Row) (rest : Bytes)
    → Below k pre
    → Rising k rows
    → encode_lines (lines_of rows) (columns_of (pre ++ rows)) (newlines_of (pre ++ rows)) ++ rest
      ≡ encode_rows rows rest
unfolding encode_lines
encode_lines-encode_rows k pre [] rest h u = refl
encode_lines-encode_rows k pre (r ∷ rows) rest h u =
    let b = Below-weaken k r.0 pre h u.0 in
    let column : lookup ◌==◌ r.0 (columns_of (pre ++ r ∷ rows)) ≡ some r.2 =
      rw map-append (
        lookup_past r.0 r.2 (columns_of pre) (columns_of rows) (below_keys (λ r. r.2) r.0 pre b)) in
    let newline : lookup ◌==◌ r.0 (newlines_of (pre ++ r ∷ rows)) ≡ some r.3 = rw map-append (
      lookup_past r.0 r.3 (newlines_of pre) (newlines_of rows) (below_keys (λ r. r.3) r.0 pre b)) in
    let ih =
      encode_lines-encode_rows (suc r.0) (pre ++ r ∷ []) rows rest (Below-next k pre r h u.0) u.1 in
    rw (value_at-some 0 r.0 _ r.2 column, value_at-some zero_span r.0 _ r.3 newline)
      (simp append_assoc (rw (rw append_assoc at ih)))

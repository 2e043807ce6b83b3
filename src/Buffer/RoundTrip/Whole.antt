-- ===== src/Buffer/RoundTrip/Whole.antt =====
-- The whole buffer: what `parse_code_string` saves, `set_code_buffer` loads.
use barista_script.Common.{
  ℕ, suc, ◌*◌, ◌≤◌, ◌<◌, ◌≡◌, ◌≢◌, refl, ap, some, List, [], ◌∷◌, ◌++◌, map, length, length-append,
  arith, Bytes, Text, true, false, u32_mod, ltb_of_ge, ◌==◌,
}
use barista_script.Host.{Host}
use barista_script.Token.Data.{Token}
use barista_script.Buffer.Format.{buffer_magic, TokenSpan, Load, ok, ◌>>◌, encode_uint32}
use barista_script.Buffer.Pool.{reverse_map}
use barista_script.Buffer.Write.{Writer, encode_span}
use barista_script.Buffer.Save.{
  encode_identifiers, encode_constants, CompressMode, encode_contents, pack,
}
use barista_script.Buffer.State.{TokenizerBuffer, new_buffer}
use barista_script.Buffer.Load.{
  load_identifiers, load_constants, load_lines, load_trailing, load_tokens, check_counts,
  load_sections, load_contents, set_code_buffer,
}
use barista_script.Buffer.Ensures.{Ensures}
use barista_script.Buffer.Safety.{
  load_identifiers-Ensures, load_constants-Ensures, load_lines-Ensures, load_tokens-Ensures,
  load_trailing-Ensures,
}
use barista_script.Buffer.RoundTrip.Words.{
  clamp, FitsInt, decode_uint32-encode_uint32, decode_span-encode_span, drop-encode_span,
  length-encode_span,
}
use barista_script.Buffer.RoundTrip.Pools.{reverse_map-numbered, length-numbered}
use barista_script.Buffer.RoundTrip.Names.{is_nil-false}
use barista_script.Buffer.RoundTrip.Lines.{
  Row, clamp_row, lines_of, columns_of, newlines_of, maps_of, encode_rows, encode_lines-encode_rows,
}
use barista_script.Buffer.RoundTrip.Tokens.{pools_of}
use barista_script.Buffer.RoundTrip.Marks.{Marked}

load_trailing-encode_span :
    (s s' : TokenSpan) (rest : Bytes)
    → FitsInt s
    → FitsInt s'
    → load_trailing (encode_span s ++ (encode_span s' ++ rest)) ≡ ok (clamp s, clamp s', rest)
unfolding load_trailing
load_trailing-encode_span s s' rest h h' =
    let b = encode_span s ++ (encode_span s' ++ rest) in
    rw
      (
        ltb_of_ge (length b) 32 (
            omega (
              arith,
              length-append (encode_span s) (encode_span s' ++ rest),
              length-append (encode_span s') rest,
              length-encode_span s,
              length-encode_span s',
            )),
        decode_span-encode_span s (encode_span s' ++ rest) h,
      )
      (rw (drop-encode_span s (encode_span s' ++ rest), decode_span-encode_span s' rest h')
        (unfold encode_span encode_uint32 in refl))

check_counts_ok :
    (n1 n2 n3 n4 size : ℕ)
    → 4 * n1 ≤ size
    → 4 * n2 ≤ size
    → 28 * n3 ≤ size
    → 17 * n4 ≤ size
    → check_counts n1 n2 n3 n4 size ≡ ok tt
unfolding check_counts
check_counts_ok n1 n2 n3 n4 size h1 h2 h3 h4 = rw (ltb_of_ge size (n1 * 4) (omega arith)) (
    rw (ltb_of_ge size (n2 * 4) (omega arith))
      (rw (ltb_of_ge size (n3 * 28) (omega arith)) (rw (ltb_of_ge size (n4 * 17) (omega arith)))))

unfoldable pub header : ℕ → ℕ → ℕ → ℕ → Bytes → Bytes
header n1 n2 n3 n4 b =
    encode_uint32 n1 ++ (encode_uint32 n2 ++ (encode_uint32 n3 ++ (encode_uint32 n4 ++ b)))

module _ (host : Host) (self : TokenizerBuffer host.Variant) where
  pub load_contents-header :
      (n1 n2 n3 n4 : ℕ) (b : Bytes)
      → n1 < u32_mod
      → n2 < u32_mod
      → n3 < u32_mod
      → n4 < u32_mod
      → load_contents host self (header n1 n2 n3 n4 b)
        ≡ (check_counts n1 n2 n3 n4 (length b) >> load_sections host self n1 n2 n3 n4 b)
  unfolding load_contents header encode_uint32
  load_contents-header n1 n2 n3 n4 b h1 h2 h3 h4 =
      let t3 = encode_uint32 n4 ++ b in
      let t2 = encode_uint32 n3 ++ t3 in
      let t1 = encode_uint32 n2 ++ t2 in
      rw
        (
          ltb_of_ge (length (encode_uint32 n1 ++ t1)) 16 (omega arith),
          decode_uint32-encode_uint32 n1 t1 h1,
        )
        (rw (decode_uint32-encode_uint32 n2 t2 h2)
          (rw (decode_uint32-encode_uint32 n3 t3 h3) (rw (decode_uint32-encode_uint32 n4 b h4))))

Ensures-of_eq {ℓ} :
    {A : Type ℓ} (P : A → Type 0) {m : Load A} (a : A) → m ≡ ok a → Ensures P m → P a
Ensures-of_eq P a e h = rw e at h

-- The parts of a buffer that reads back.
pub record Parts (host : Host) : Type 0 where
  pub ids : List Text
  pub cs : List host.Variant
  pub rows : List Row
  pub final_newline : TokenSpan
  pub eof : TokenSpan
  pub constants : Bytes
  pub token_count : ℕ
  pub token_buffer : Bytes
  pub tokens : List (Token host.Variant)

module _ (host : Host) (p : Parts host) where
  open host use {Variant}
  open p use {ids, cs, rows, final_newline, eof, constants, token_count, token_buffer, tokens}

  unfoldable pub trailing : Bytes
  trailing = encode_span final_newline ++ (encode_span eof ++ token_buffer)

  unfoldable pub body : Bytes
  body = encode_identifiers ids ++ (constants ++ encode_rows rows trailing)

  unfoldable pub loaded : TokenizerBuffer Variant
  loaded = record new_buffer {
    identifiers = ids;
    constants = cs;
    token_lines = lines_of (map clamp_row rows);
    token_columns = columns_of (map clamp_row rows);
    token_newlines = newlines_of (map clamp_row rows);
    final_newline = clamp final_newline;
    eof_span = clamp eof;
    tokens = tokens;
  }

  -- Each part is read back by its own reader.
  pub record ReadsBack : Type 0 where
    pub ids_read :
        (rest : Bytes)
        → load_identifiers (length ids) (encode_identifiers ids ++ rest) ≡ ok (ids, rest)
    pub cs_read :
        (rest : Bytes) → load_constants host (length cs) (constants ++ rest) ≡ ok (cs, rest)
    pub rows_read :
        (rest : Bytes)
        → load_lines (length rows) (maps_of []) (encode_rows rows rest)
          ≡ ok (maps_of (map clamp_row rows), rest)
    pub newline_fits : FitsInt final_newline
    pub eof_fits : FitsInt eof
    pub tokens_read : load_tokens host ids cs token_count token_buffer ≡ ok (tokens, [])

  module _ (r : ReadsBack) where
    pub load_sections-body :
        load_sections host new_buffer (length ids) (length cs) (length rows) token_count body
        ≡ ok loaded
    unfolding load_sections body trailing loaded
    load_sections-body = rw (r.ids_read _) (
        rw (r.cs_read _) (
          rw (r.rows_read _) (
            rw (load_trailing-encode_span final_newline eof token_buffer r.newline_fits r.eof_fits)
              (rw r.tokens_read))))

    pub check_counts-body :
        check_counts (length ids) (length cs) (length rows) token_count (length body) ≡ ok tt
    unfolding body trailing
    check_counts-body =
        let i = Ensures-of_eq _ _ (r.ids_read _) (load_identifiers-Ensures (length ids) body) in
        let c =
          Ensures-of_eq _ _ (r.cs_read _)
            (load_constants-Ensures host (length cs) (constants ++ encode_rows rows trailing)) in
        let l =
          Ensures-of_eq _ _ (r.rows_read trailing)
            (load_lines-Ensures (length rows) (maps_of []) (encode_rows rows trailing)) in
        let t =
          Ensures-of_eq _ _ r.tokens_read
            (load_tokens-Ensures host ids cs token_count token_buffer) in
        let lt =
          Ensures-of_eq _ _
            (load_trailing-encode_span final_newline eof token_buffer r.newline_fits r.eof_fits)
            (load_trailing-Ensures trailing) in
        check_counts_ok _ _ _ _ _ (omega arith) (omega arith) (omega arith) (omega arith)

length-map {ℓ κ} :
    {A : Type ℓ} {B : Type κ} (f : A → B) (xs : List A) → length (map f xs) ≡ length xs
length-map f [] = refl
length-map f (x ∷ xs) = ap suc (length-map f xs)

module _ (host : Host) (w : Writer host) (m : Marked host w) where
  open host use {Variant}

  unfoldable pub parts_of :
      List Text → List Variant → Bytes → TokenSpan → TokenSpan → List (Token Variant) → Parts host
  parts_of ids cs constants final_newline eof tokens = record {
    ids = ids;
    cs = cs;
    rows = m.rows;
    final_newline = final_newline;
    eof = eof;
    constants = constants;
    token_count = w.token_counter;
    token_buffer = w.token_buffer;
    tokens = tokens;
  }

  pub encode_contents-header :
      (ids : List Text) (cs : List Variant) (constants : Bytes) (nl eof : TokenSpan)
      (tokens : List (Token Variant))
      → w.pools ≡ pools_of host ids cs
      → encode_constants host cs ≡ some constants
      → encode_contents host w nl eof
        ≡ some (
            header
              (length ids)
              (length cs)
              (length m.rows)
              w.token_counter
              (body host (parts_of ids cs constants nl eof tokens)))
  unfolding encode_contents header body trailing parts_of
  encode_contents-header ids cs constants nl eof tokens e ec =
      let ec' : encode_constants host (reverse_map host.nil w.pools.constant_map) ≡ some constants =
        rw (e, reverse_map-numbered host.nil cs) ec in
      rw (ec', encode_contents)
        (rw
          (
            e,
            m.lines,
            m.columns,
            m.newlines,
            reverse_map-numbered [] ids,
            length-numbered 0 ids,
            length-numbered 0 cs,
            length-map {B = ℕ × ℕ} (λ r. (r.0, r.1)) m.rows,
          )
          (rw (
            encode_lines-encode_rows 0 [] m.rows
              (encode_span nl ++ (encode_span eof ++ w.token_buffer)) tt m.rising)))

-- `set_code_buffer` strips the header that `pack` put in front of contents of at least one byte.
pub set_code_buffer-pack_none :
    (host : Host) (self : TokenizerBuffer host.Variant) (contents : Bytes)
    → set_code_buffer host self (pack host CompressMode.compress_none contents)
      ≡ load_contents host self contents
unfolding set_code_buffer pack encode_uint32
set_code_buffer-pack_none host self contents = rw (
  ltb_of_ge (length (pack host CompressMode.compress_none contents)) 12 (omega arith),
  decode_uint32-encode_uint32 3 (encode_uint32 0 ++ contents) (omega arith),
  decode_uint32-encode_uint32 0 contents (omega arith),
)

==_refl : (n : ℕ) → n == n ≡ true
==_refl n = ground arith

length-ne_zero : (b : Bytes) → b ≢ [] → length b == 0 ≡ false
length-ne_zero [] h = absurd (h refl)
length-ne_zero (x ∷ b) h = ground arith

pub set_code_buffer-pack_zstd :
    (host : Host) (self : TokenizerBuffer host.Variant) (contents : Bytes)
    → contents ≢ []
    → length contents < u32_mod
    → host.compress_zstd contents ≢ []
    → host.decompress_zstd (host.compress_zstd contents) (length contents) ≡ contents
    → set_code_buffer host self (pack host CompressMode.compress_zstd contents)
      ≡ load_contents host self contents
unfolding set_code_buffer pack encode_uint32
set_code_buffer-pack_zstd host self contents ne small ce inv =
    let n = length contents in
    let z = host.compress_zstd contents in
    let b = encode_uint32 n ++ z in
    rw (is_nil-false z ce) (
      rw
        (
          ltb_of_ge (length (buffer_magic ++ (encode_uint32 3 ++ b))) 12 (omega arith),
          decode_uint32-encode_uint32 3 b (omega arith),
        )
        (rw (decode_uint32-encode_uint32 n z small)
          (rw (length-ne_zero contents ne, inv) (rw (==_refl n)))))

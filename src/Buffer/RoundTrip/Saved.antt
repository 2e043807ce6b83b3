-- ===== src/Buffer/RoundTrip/Saved.antt =====
-- `parse_code_string` and then `set_code_buffer`: the buffer that a file is saved in gives its
-- tokens, its line starts and the spans of its last layout tokens back.
use barista_script.Common.{
  ℕ, ◌<◌, ◌≡◌, ◌≢◌, refl, sym, ap, ◌∙◌, some, true, false, List, [], ◌∷◌, ◌++◌, map, length, All,
  append-nil, arith, Bytes, u32_mod,
}
use barista_script.Common.Int.{ℤ, pos}
use barista_script.Host.{Host}
use barista_script.Token.Data.{Token}
use barista_script.Buffer.Format.{ok, span_of, encode_uint32}
use barista_script.Buffer.Pool.{constant_key_eq}
use barista_script.Buffer.Write.{Writer, new_writer, is_eof}
use barista_script.Buffer.Save.{
  reverse_lines, drop_continuation, encode_contents, CompressMode, pack, parse_code_string,
}
use barista_script.Buffer.State.{TokenizerBuffer, new_buffer}
use barista_script.Buffer.Load.{load_contents, set_code_buffer}
use barista_script.Buffer.RoundTrip.Words.{clamp, FitsInt}
use barista_script.Buffer.RoundTrip.Names.{
  IsEncodable, load_identifiers-encode_identifiers, load_constants-encode_constants,
}
use barista_script.Buffer.RoundTrip.Lines.{
  Row, clamp_row, lines_of, columns_of, newlines_of, load_lines-encode_rows,
}
use barista_script.Buffer.RoundTrip.Tokens.{
  stored, pools_of, write_each, write_tokens-write_each, IsWritable, write_each-Written,
}
use barista_script.Buffer.RoundTrip.Marks.{
  IsPlaced, Marked, write_each-Marked, drop_continuation-Marked, length-le_of_Rising,
}
use barista_script.Buffer.RoundTrip.Whole.{
  loaded, body, header, parts_of, ReadsBack, encode_contents-header, load_contents-header,
  load_sections-body, check_counts-body, set_code_buffer-pack_none, set_code_buffer-pack_zstd,
}

header-ne_nil : (n1 n2 n3 n4 : ℕ) (b : Bytes) → header n1 n2 n3 n4 b ≢ []
unfolding header encode_uint32
header-ne_nil n1 n2 n3 n4 b e = cc

lines_of-clamp_row : (rows : List Row) → lines_of (map clamp_row rows) ≡ lines_of rows
lines_of-clamp_row [] = refl
lines_of-clamp_row (r ∷ rows) = ap (◌∷◌ (r.0, r.1)) (lines_of-clamp_row rows)

columns_of-clamp_row : (rows : List Row) → columns_of (map clamp_row rows) ≡ columns_of rows
columns_of-clamp_row [] = refl
columns_of-clamp_row (r ∷ rows) = ap (◌∷◌ (r.0, r.2)) (columns_of-clamp_row rows)

newlines_of-clamp_row :
    (rows : List Row)
    → newlines_of (map clamp_row rows) ≡ map (λ e. (e.0, clamp e.1)) (newlines_of rows)
newlines_of-clamp_row [] = refl
newlines_of-clamp_row (r ∷ rows) = ap (◌∷◌ (r.0, clamp r.3)) (newlines_of-clamp_row rows)

module _ (host : Host) where
  open host use {Variant}

  -- What the writer holds when the tokens are written and the continuation lines have left.
  abbrev pub kept : List (Token Variant × Token Variant) → List ℤ → Writer host
  kept ts continuation =
      let w = write_each host ts (new_writer host) in
      drop_continuation host (reverse_lines w.token_lines []) continuation w

  -- The constants among `P` are told apart by the pool, and have a binary form.
  pub record IsCanonical (P : Variant → Type 0) : Type 0 where
    pub separates : (a b : Variant) → P a → P b → constant_key_eq host a b ≡ true → a ≡ b
    pub encodes : (v : Variant) → P v → IsEncodable host v

  -- A file of fewer than 2 ^ 23 tokens: those before the end of file, each with the newline that
  -- was withheld before it, then the end of file and its newline.
  pub record IsFile (P : Variant → Type 0) (ts : List (Token Variant × Token Variant))
      (eof nl : Token Variant) : Type 0 where
    pub before_eof : All (λ e. is_eof e.0.type ≡ false) ts
    pub at_eof : is_eof eof.type ≡ true
    pub writable : All (λ e. IsWritable host P e.0) ts
    pub placed : All (λ e. IsPlaced host e.0 e.1) ts
    pub newline_fits : FitsInt (span_of nl)
    pub eof_fits : FitsInt (span_of eof)
    pub few : length ts < 8388608

  -- The state of the loaded object, in terms of the tokens that were saved.
  pub record Restores (ts : List (Token Variant × Token Variant)) (continuation : List ℤ)
      (eof nl : Token Variant) (s : TokenizerBuffer Variant) : Type 0 where
    pub tokens : s.tokens ≡ map (λ e. stored host e.0) ts
    pub token_lines : s.token_lines ≡ (kept ts continuation).token_lines
    pub token_columns : s.token_columns ≡ (kept ts continuation).token_columns
    pub token_newlines :
        s.token_newlines ≡ map (λ e. (e.0, clamp e.1)) (kept ts continuation).token_newlines
    pub final_newline : s.final_newline ≡ clamp (span_of nl)
    pub eof_span : s.eof_span ≡ clamp (span_of eof)
    pub at_start : (s.current ≡ 0) × (s.last_token_was_newline ≡ false)
    pub no_indents : (s.indent_stack ≡ []) × (s.pending_indents ≡ pos 0)

module _ (host : Host) (P : host.Variant → Type 0) (canonical : IsCanonical host P) where
  open host use {Variant}

  All-IsEncodable : (cs : List Variant) → All P cs → All (IsEncodable host) cs
  All-IsEncodable [] h = tt
  All-IsEncodable (v ∷ cs) h = (canonical.encodes v h.0, All-IsEncodable cs h.1)

  module _ (ts : List (Token Variant × Token Variant)) (continuation : List ℤ)
      (eof nl : Token Variant) (file : IsFile host P ts eof nl) where
    -- The contents that are written hold at least a byte, and load as what was saved.
    record Saved : Type 0 where
      contents : Bytes
      s : TokenizerBuffer Variant
      written :
          encode_contents host (kept host ts continuation) (span_of nl) (span_of eof)
          ≡ some contents
      not_empty : contents ≢ []
      loads : load_contents host new_buffer contents ≡ ok s
      restores : Restores host ts continuation eof nl s

    Marked-start : Marked host (new_writer host)
    Marked-start = record {
      rows = [];
      lines = refl;
      columns = refl;
      newlines = refl;
      rising = tt;
      below = tt;
      fits = tt;
    }

    saved : Saved
    unfolding loaded parts_of
    saved =
        let w0 = write_each host ts (new_writer host) in
        let k = kept host ts continuation in
        let few = file.few in
        let (m0, counter) =
          write_each-Marked host ts (new_writer host) file.placed (omega arith) Marked-start in
        let (m, keeps) =
          drop_continuation-Marked host (reverse_lines w0.token_lines []) continuation w0 m0 in
        let wr = write_each-Written host P canonical.separates ts [] [] tt tt file.writable in
        let pools : k.pools ≡ pools_of host wr.ids wr.cs =
          keeps.pools ∙ wr.pools (new_writer host) refl in
        let buffer : k.token_buffer ≡ wr.body =
          keeps.token_buffer ∙ wr.buffer (new_writer host) refl in
        let count : k.token_counter ≡ length ts = keeps.token_counter ∙ counter ∙ omega arith in
        let (constants, ec, cs_read) =
          load_constants-encode_constants host wr.cs (All-IsEncodable wr.cs wr.canonical) in
        let li : length wr.ids ≡ length wr.more_ids = ap length wr.extends_ids in
        let lc : length wr.cs ≡ length wr.more_cs = ap length wr.extends_cs in
        let tokens = map (λ e. stored host e.0) ts in
        let p = parts_of host k m wr.ids wr.cs constants (span_of nl) (span_of eof) tokens in
        let reads : ReadsBack host p = record {
          ids_read = λ rest. load_identifiers-encode_identifiers wr.ids rest wr.names;
          cs_read = cs_read;
          rows_read = λ rest. load_lines-encode_rows 0 [] m.rows rest tt m.rising m.fits;
          newline_fits = file.newline_fits;
          eof_fits = file.eof_fits;
          tokens_read =
              rw (buffer, count)
                (rw append-nil at
                  (wr.loads (omega (arith, li, wr.count)) (omega (arith, lc, wr.count)) []));
        } in
        record {
          contents =
              header (length wr.ids) (length wr.cs) (length m.rows) k.token_counter (body host p);
          s = loaded host p;
          written =
              encode_contents-header host k m wr.ids wr.cs constants (span_of nl) (span_of eof)
                tokens pools ec;
          not_empty = header-ne_nil _ _ _ _ _;
          loads =
              load_contents-header host new_buffer (length wr.ids) (length wr.cs) (length m.rows)
                k.token_counter (body host p) (omega (arith, li, wr.count))
                (omega (arith, lc, wr.count))
                (omega (
                  arith,
                  count,
                  length-le_of_Rising 0 k.token_counter m.rows m.rising m.below (omega arith),
                ))
                (omega (arith, count))
              ∙ rw (check_counts-body host p reads) (load_sections-body host p reads);
          restores = record {
            tokens = refl;
            token_lines = lines_of-clamp_row m.rows ∙ sym m.lines;
            token_columns = columns_of-clamp_row m.rows ∙ sym m.columns;
            token_newlines =
                newlines_of-clamp_row m.rows ∙ ap (map (λ e. (e.0, clamp e.1))) (sym m.newlines);
            final_newline = refl;
            eof_span = refl;
            at_start = (refl, refl);
            no_indents = (refl, refl);
          };
        }

    parse_code_string-pack :
        (more : List (Token Variant × Token Variant)) (mode : CompressMode)
        → parse_code_string host (ts ++ (eof, nl) ∷ more) continuation mode
          ≡ some (pack host mode saved.contents)
    unfolding parse_code_string
    parse_code_string-pack more mode =
        rw
          (
            write_tokens-write_each host ts more eof nl (new_writer host) file.before_eof
                file.at_eof,
            parse_code_string,
          )
          (rw saved.written)

    -- Saved without compression, a file loads as what was saved, if its constants are told apart by
    -- the pool and have a binary form: every token with its literal and span, the line starts that the
    -- writer kept, and the spans of the last newline and of the end of file.
    pub set_code_buffer-parse_code_string :
        (more : List (Token Variant × Token Variant))
        → (buffer : Bytes) × (s : TokenizerBuffer Variant) × (parse_code_string host
              (ts ++ (eof, nl) ∷ more)
              continuation
              CompressMode.compress_none
            ≡ some buffer)
          × (set_code_buffer host new_buffer buffer ≡ ok s)
          × Restores host ts continuation eof nl s
    set_code_buffer-parse_code_string more =
        let v = saved in
        (
          pack host CompressMode.compress_none v.contents,
          v.s,
          parse_code_string-pack more CompressMode.compress_none,
          set_code_buffer-pack_none host new_buffer v.contents ∙ v.loads,
          v.restores,
        )

    -- With compression the file loads the same, if the compressor returns something for every input that is not empty,
    -- decompressing undoes it, and the contents are shorter than 2 ^ 32 bytes.
    pub set_code_buffer-parse_code_string_zstd :
        (more : List (Token Variant × Token Variant))
        → ((b : Bytes) → b ≢ [] → host.compress_zstd b ≢ [])
        → ((b : Bytes) → b ≢ [] → host.decompress_zstd (host.compress_zstd b) (length b) ≡ b)
        → ((b : Bytes)
            → encode_contents host (kept host ts continuation) (span_of nl) (span_of eof) ≡ some b
            → length b < u32_mod)
        → (buffer : Bytes) × (s : TokenizerBuffer Variant) × (parse_code_string host
              (ts ++ (eof, nl) ∷ more)
              continuation
              CompressMode.compress_zstd
            ≡ some buffer)
          × (set_code_buffer host new_buffer buffer ≡ ok s)
          × Restores host ts continuation eof nl s
    set_code_buffer-parse_code_string_zstd more ne inv small =
        let v = saved in
        (
          pack host CompressMode.compress_zstd v.contents,
          v.s,
          parse_code_string-pack more CompressMode.compress_zstd,
          set_code_buffer-pack_zstd host new_buffer v.contents v.not_empty
                (small v.contents v.written) (ne v.contents v.not_empty)
                (inv v.contents v.not_empty)
              ∙ v.loads,
          v.restores,
        )

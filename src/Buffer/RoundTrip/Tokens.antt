-- ===== src/Buffer/RoundTrip/Tokens.antt =====
-- The tokens of a file: what the loop of `parse_code_string` writes, `load_tokens` reads, over the
-- pools as they are when the loop has ended.
use barista_script.Common.{
  ℕ, zero, suc, ◌+◌, ◌*◌, ◌%◌, ◌≤◌, ◌<◌, ◌≡◌, refl, sym, ap, ◌∙◌, some, List, [], ◌∷◌, ◌++◌, map,
  length, length-append, get_elem?, get_elem?-append_lt, append_assoc, append-nil, arith, All,
  Bytes, Text, text_eq, text_eq_iff, u32_mod, true, false,
}
use barista_script.Host.{Host}
use barista_script.Token.Data.{Token, new_token}
use barista_script.Buffer.Format.{pool_kind, PoolKind, ok}
use barista_script.Buffer.Pool.{constant_key_eq, pool_index}
use barista_script.Buffer.Write.{
  Pools, Writer, token_span, pool_token, token_to_binary, write_token, write_tokens, is_eof,
}
use barista_script.Buffer.Load.{plain_literal, pooled_token, load_tokens}
use barista_script.Buffer.RoundTrip.Words.{clamp, FitsInt}
use barista_script.Buffer.RoundTrip.Pools.{numbered, pool_index-Pooled}
use barista_script.Buffer.RoundTrip.Records.{
  token_record, IndexFits, read_token, load_tokens-token_record,
}

get_elem?-lt {ℓ} :
    {A : Type ℓ} (xs : List A) (i : ℕ) {x : A} → get_elem? xs i ≡ some x → i < length xs
get_elem?-lt [] i e = cc
get_elem?-lt (y ∷ xs) zero e = omega arith
get_elem?-lt (y ∷ xs) (suc i) e = omega (arith, get_elem?-lt xs i e)

-- A name whose length and code points fit 32 bits.
pub record IsName (name : Text) : Type 0 where
  pub length_fits : length name < u32_mod
  pub points_fit : All (λ c. c < u32_mod) name

module _ (host : Host) where
  open host use {Variant}

  -- The literal that a token has when it is read back.
  abbrev pub stored_literal : PoolKind → Token Variant → Variant
  stored_literal PoolKind.identifier_pool t = host.of_name (host.to_name t.literal)
  stored_literal PoolKind.constant_pool t = t.literal
  stored_literal PoolKind.no_pool t = plain_literal host t.type

  -- The token that is read back, without a pool and with it.
  abbrev plain : Token Variant → Token Variant
  plain t =
      let s = clamp (token_span t) in
      record (new_token host.nil t.type) {
        literal = plain_literal host t.type;
        start_line = s.start_line;
        start_column = s.start_column;
        end_line = s.end_line;
        end_column = s.end_column;
      }

  abbrev pub stored : Token Variant → Token Variant
  stored t = record (plain t) { literal = stored_literal (pool_kind t.type) t }

  abbrev pub pools_of : List Text → List Variant → Pools host
  pools_of ids cs = record { identifier_map = numbered 0 ids; constant_map = numbered 0 cs }

  -- The loop of `parse_code_string` over tokens before the end of file.
  abbrev pub write_each : List (Token Variant × Token Variant) → Writer host → Writer host
  write_each [] w = w
  write_each ((t, withheld) ∷ ts) w = write_each ts (write_token host t withheld w)

  pub write_tokens-write_each :
      (ts more : List (Token Variant × Token Variant)) (eof withheld : Token Variant)
      (w : Writer host)
      → All (λ e. is_eof e.0.type ≡ false) ts
      → is_eof eof.type ≡ true
      → write_tokens host (ts ++ (eof, withheld) ∷ more) w ≡ some (write_each ts w, eof, withheld)
  unfolding write_tokens
  write_tokens-write_each [] more eof withheld w a e = rw e
  write_tokens-write_each ((t, nl) ∷ ts) more eof withheld w a e =
      rw a.0 (write_tokens-write_each ts more eof withheld (write_token host t nl w) a.1 e)

  pooled_identifier :
      (ids : List Text) (cs : List Variant) (i : ℕ) (t : Token Variant) (name : Text)
      → get_elem? ids i ≡ some name
      → pooled_token host ids cs PoolKind.identifier_pool i t
        ≡ record t { literal = host.of_name name }
  unfolding pooled_token
  pooled_identifier ids cs i t name e = rw (e, pooled_token)

  pooled_constant :
      (ids : List Text) (cs : List Variant) (i : ℕ) (t : Token Variant) (value : Variant)
      → get_elem? cs i ≡ some value
      → pooled_token host ids cs PoolKind.constant_pool i t ≡ record t { literal = value }
  unfolding pooled_token
  pooled_constant ids cs i t value e = rw (e, pooled_token)

  -- What is asked of a token: its positions are values of `int`, and its constant is among `P`.
  pub record IsWritable (P : Variant → Type 0) (t : Token Variant) : Type 0 where
    pub fits : FitsInt (token_span t)
    pub identifier : pool_kind t.type ≡ PoolKind.identifier_pool → IsName (host.to_name t.literal)
    pub constant : pool_kind t.type ≡ PoolKind.constant_pool → P t.literal

  -- Constants among `P` are pooled together only if they are the same.
  module _ (P : Variant → Type 0)
      (separates : (a b : Variant) → P a → P b → constant_key_eq host a b ≡ true → a ≡ b) where
    -- The pools behind one token, and the index that the token has in them.
    record Pooling (k : PoolKind) (t : Token Variant) (ids : List Text) (cs : List Variant)
        : Type 0 where
      i : ℕ
      more_ids : List Text
      more_cs : List Variant
      written :
          pool_token host k t.literal (pools_of ids cs)
          ≡ (i * 256 % u32_mod, pools_of (ids ++ more_ids) (cs ++ more_cs))
      names : All IsName (ids ++ more_ids)
      canonical : All P (cs ++ more_cs)
      one : length more_ids + length more_cs ≤ 1
      no_index : k ≡ PoolKind.no_pool → i ≡ 0
      bound : i ≤ length (ids ++ more_ids) + length (cs ++ more_cs)
      resolves :
          (xi : List Text) (xc : List Variant)
          → pooled_token host ((ids ++ more_ids) ++ xi) ((cs ++ more_cs) ++ xc) k i (plain t)
            ≡ record (plain t) { literal = stored_literal k t }

    pool_token-Pooling :
        (k : PoolKind) (t : Token Variant) (ids : List Text) (cs : List Variant)
        → All IsName ids
        → All P cs
        → (k ≡ PoolKind.identifier_pool → IsName (host.to_name t.literal))
        → (k ≡ PoolKind.constant_pool → P t.literal)
        → Pooling k t ids cs
    unfolding pool_token pooled_token
    pool_token-Pooling PoolKind.identifier_pool t ids cs a' a h' h =
        let name = host.to_name t.literal in
        let p =
          pool_index-Pooled text_eq IsName (λ x y _ _ e. (text_eq_iff x y).0 e) ids name a'
            (h' refl) in
        let i = (pool_index text_eq name (numbered 0 ids)).0 in
        let lt = get_elem?-lt (ids ++ p.more) i p.found in
        record {
          i = i;
          more_ids = p.more;
          more_cs = [];
          written = rw (p.is_pool, append-nil cs);
          names = p.all;
          one = omega (arith, p.one);
          canonical = rw (append-nil cs) a;
          no_index = λ e. cc;
          bound = omega (arith, lt);
          resolves = λ xi xc.
              pooled_identifier ((ids ++ p.more) ++ xi) ((cs ++ []) ++ xc) i (plain t) name
                (get_elem?-append_lt (ids ++ p.more) xi i lt ∙ p.found);
        }
    pool_token-Pooling PoolKind.constant_pool t ids cs a' a h' h =
        let p = pool_index-Pooled (constant_key_eq host) P separates cs t.literal a (h refl) in
        let i = (pool_index (constant_key_eq host) t.literal (numbered 0 cs)).0 in
        let lt = get_elem?-lt (cs ++ p.more) i p.found in
        record {
          i = i;
          more_ids = [];
          more_cs = p.more;
          written = rw (p.is_pool, append-nil ids);
          names = rw (append-nil ids) a';
          one = omega (arith, p.one);
          canonical = p.all;
          no_index = λ e. cc;
          bound = omega (arith, lt);
          resolves = λ xi xc.
              pooled_constant ((ids ++ []) ++ xi) ((cs ++ p.more) ++ xc) i (plain t) t.literal
                (get_elem?-append_lt (cs ++ p.more) xc i lt ∙ p.found);
        }
    pool_token-Pooling PoolKind.no_pool t ids cs a' a h' h = record {
      i = 0;
      more_ids = [];
      more_cs = [];
      written = rw (append-nil ids, append-nil cs);
      names = rw (append-nil ids) a';
      one = omega arith;
      canonical = rw (append-nil cs) a;
      no_index = λ e. refl;
      bound = omega arith;
      resolves = λ xi xc. refl;
    }

    -- The loop from the writer `w`, with the keys `ids0` and `cs0` in its pools, over the tokens `ts`.
    pub record Written (ts : List (Token Variant × Token Variant)) (ids0 : List Text)
        (cs0 : List Variant) : Type 0 where
      pub ids : List Text
      pub cs : List Variant
      pub more_ids : List Text
      pub more_cs : List Variant
      pub body : Bytes
      pub extends_ids : ids ≡ ids0 ++ more_ids
      pub extends_cs : cs ≡ cs0 ++ more_cs
      pub names : All IsName ids
      pub canonical : All P cs
      pub count : length more_ids + length more_cs ≤ length ts
      pub pools :
          (w : Writer host)
          → w.pools ≡ pools_of ids0 cs0
          → (write_each ts w).pools ≡ pools_of ids cs
      pub buffer :
          (w : Writer host)
          → w.pools ≡ pools_of ids0 cs0
          → (write_each ts w).token_buffer ≡ w.token_buffer ++ body
      pub loads :
          length ids < 8388608
          → length cs < 8388608
          → (rest : Bytes)
          → load_tokens host ids cs (length ts) (body ++ rest) ≡ ok (map (λ e. stored e.0) ts, rest)

    module _ (t : Token Variant) (ids : List Text) (cs : List Variant)
        (p : Pooling (pool_kind t.type) t ids cs) where
      token_to_binary-Pooling :
          token_to_binary host t (pools_of ids cs)
          ≡ (token_record t.type p.i (token_span t), pools_of (ids ++ p.more_ids) (cs ++ p.more_cs))
      unfolding token_to_binary token_record
      token_to_binary-Pooling = rw p.written

      write_token-pools :
          (nl : Token Variant) (w : Writer host)
          → w.pools ≡ pools_of ids cs
          → (write_token host t nl w).pools ≡ pools_of (ids ++ p.more_ids) (cs ++ p.more_cs)
      unfolding write_token
      write_token-pools nl w e = rw (e, token_to_binary-Pooling)

      write_token-buffer :
          (nl : Token Variant) (w : Writer host)
          → w.pools ≡ pools_of ids cs
          → (write_token host t nl w).token_buffer
            ≡ w.token_buffer ++ token_record t.type p.i (token_span t)
      unfolding write_token
      write_token-buffer nl w e = rw (e, token_to_binary-Pooling)

      read_token-stored :
          (xi : List Text) (xc : List Variant)
          → read_token host
              ((ids ++ p.more_ids) ++ xi)
              ((cs ++ p.more_cs) ++ xc)
              t.type
              p.i
              (clamp (token_span t))
            ≡ stored t
      read_token-stored xi xc = p.resolves xi xc

      Pooling-IndexFits :
          length (ids ++ p.more_ids) < 8388608
          → length (cs ++ p.more_cs) < 8388608
          → IndexFits t.type p.i
      Pooling-IndexFits h h' = (omega (arith, p.bound), λ e. p.no_index (ap pool_kind e))

    read_extended :
        (t : Token Variant) (ids0 : List Text) (cs0 : List Variant)
        (p : Pooling (pool_kind t.type) t ids0 cs0) (xi : List Text) (xc : List Variant)
        {ids : List Text} {cs : List Variant}
        → ids ≡ (ids0 ++ p.more_ids) ++ xi
        → cs ≡ (cs0 ++ p.more_cs) ++ xc
        → read_token host ids cs t.type p.i (clamp (token_span t)) ≡ stored t
    read_extended t ids0 cs0 p xi xc e e' = rw (e, e') (read_token-stored t ids0 cs0 p xi xc)

    loads_cons :
        (t nl : Token Variant) (ts : List (Token Variant × Token Variant)) (ids0 : List Text)
        (cs0 : List Variant) (p : Pooling (pool_kind t.type) t ids0 cs0)
        → FitsInt (token_span t)
        → (ih : Written ts (ids0 ++ p.more_ids) (cs0 ++ p.more_cs)) → length ih.ids < 8388608
        → length ih.cs < 8388608
        → (rest : Bytes)
        → load_tokens host ih.ids ih.cs
            (suc (length ts))
            ((token_record t.type p.i (token_span t) ++ ih.body) ++ rest)
          ≡ ok (stored t ∷ map (λ e. stored e.0) ts, rest)
    loads_cons t nl ts ids0 cs0 p fits ih hi hc rest =
        let li : length ih.ids ≡ length (ids0 ++ p.more_ids) + length ih.more_ids =
          rw ih.extends_ids (length-append (ids0 ++ p.more_ids) ih.more_ids) in
        let lc : length ih.cs ≡ length (cs0 ++ p.more_cs) + length ih.more_cs =
          rw ih.extends_cs (length-append (cs0 ++ p.more_cs) ih.more_cs) in
        let small = Pooling-IndexFits t ids0 cs0 p (omega (arith, li)) (omega (arith, lc)) in
        rw append_assoc (
          rw
            (load_tokens-token_record host ih.ids ih.cs (length ts) t.type p.i (token_span t)
              (ih.body ++ rest) small fits)
            (rw (ih.loads hi hc rest) (
              ap (λ x. ok (x ∷ map (λ e. stored e.0) ts, rest))
                (read_extended t ids0 cs0 p ih.more_ids ih.more_cs ih.extends_ids ih.extends_cs))))

    pub write_each-Written :
        (ts : List (Token Variant × Token Variant)) (ids0 : List Text) (cs0 : List Variant)
        → All IsName ids0
        → All P cs0
        → All (λ e. IsWritable P e.0) ts
        → Written ts ids0 cs0
    write_each-Written [] ids0 cs0 a' a h = record {
      ids = ids0;
      cs = cs0;
      more_ids = [];
      more_cs = [];
      body = [];
      extends_ids = sym (append-nil ids0);
      extends_cs = sym (append-nil cs0);
      names = a';
      canonical = a;
      count = omega arith;
      pools = λ w e. e;
      buffer = λ w e. sym (append-nil w.token_buffer);
      loads = λ hi hc rest. unfold load_tokens in refl;
    }
    write_each-Written ((t, nl) ∷ ts) ids0 cs0 a' a h =
        let p = pool_token-Pooling (pool_kind t.type) t ids0 cs0 a' a h.0.identifier h.0.constant in
        let ih =
          write_each-Written ts (ids0 ++ p.more_ids) (cs0 ++ p.more_cs) p.names p.canonical h.1 in
        let record_bytes = token_record t.type p.i (token_span t) in
        record {
          ids = ih.ids;
          cs = ih.cs;
          more_ids = p.more_ids ++ ih.more_ids;
          more_cs = p.more_cs ++ ih.more_cs;
          body = record_bytes ++ ih.body;
          extends_ids = ih.extends_ids ∙ append_assoc ids0 p.more_ids ih.more_ids;
          extends_cs = ih.extends_cs ∙ append_assoc cs0 p.more_cs ih.more_cs;
          names = ih.names;
          canonical = ih.canonical;
          count = omega (
            arith,
            p.one,
            ih.count,
            length-append p.more_ids ih.more_ids,
            length-append p.more_cs ih.more_cs,
          );
          pools = λ w e. ih.pools (write_token host t nl w) (write_token-pools t ids0 cs0 p nl w e);
          buffer = λ w e.
              ih.buffer (write_token host t nl w) (write_token-pools t ids0 cs0 p nl w e)
              ∙ rw (write_token-buffer t ids0 cs0 p nl w e)
                  (append_assoc w.token_buffer record_bytes ih.body);
          loads = λ hi hc rest. loads_cons t nl ts ids0 cs0 p h.0.fits ih hi hc rest;
        }

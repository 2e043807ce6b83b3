-- ===== src/Buffer/RoundTrip/Marks.antt =====
-- The line starts that the writer marks: its three maps always hold one list of rows, with rising
-- token indices below the counter, also when the continuation lines have left.
use mathlib.Core.List.{map-append}
use barista_script.Common.{
  ℕ, suc, ◌+◌, ◌%◌, ◌≤◌, ◌<◌, ◌≡◌, refl, ap, ◌∙◌, none, some, Option, List, [], ◌∷◌, ◌++◌, map,
  length, All, All-append, arith, ◌&&◌, ltb, ◌==◌, int_max, u32_mod, to_uint32, Bool-cases, inl,
  inr, if◌then◌else◌,
}
use barista_script.Common.Int.{ℤ, pos, negsuc, pos_part, neg_part, ltb_ℤ}
use barista_script.Common.Maps.{lookup, erase}
use barista_script.Host.{Host}
use barista_script.Token.Data.{Token}
use barista_script.Buffer.Format.{span_of}
use barista_script.Buffer.Write.{Writer, mark_line, write_token}
use barista_script.Buffer.Save.{erase_line, drop_continuation}
use barista_script.Buffer.RoundTrip.Words.{FitsInt}
use barista_script.Buffer.RoundTrip.Tokens.{write_each}
use barista_script.Buffer.RoundTrip.Lines.{
  Row, lines_of, columns_of, newlines_of, Rising, Below, RowFits, Below-next, insert_last,
  below_keys,
}

module _ (host : Host) where
  open host use {Variant}

  -- What is asked of the positions of a token and of the newline before it.
  pub record IsPlaced (t nl : Token Variant) : Type 0 where
    pub line_pos : neg_part t.start_line ≡ 0
    pub column_pos : neg_part t.start_column ≡ 0
    pub line_fits : pos_part t.start_line ≤ int_max
    pub column_fits : pos_part t.start_column ≤ int_max
    pub newline_fits : FitsInt (span_of nl)

  pub record Marked (w : Writer host) : Type 0 where
    pub rows : List Row
    pub lines : w.token_lines ≡ lines_of rows
    pub columns : w.token_columns ≡ columns_of rows
    pub newlines : w.token_newlines ≡ newlines_of rows
    pub rising : Rising 0 rows
    pub below : Below w.token_counter rows
    pub fits : All RowFits rows

Rising-append :
    (lo : ℕ) (rows : List Row) (r : Row)
    → Rising lo rows
    → Below r.0 rows
    → lo ≤ r.0
    → Rising lo (rows ++ r ∷ [])
Rising-append lo [] r u h le = (le, tt)
Rising-append lo (x ∷ rows) r u h le = (u.0, Rising-append (suc x.0) rows r u.1 h.1 h.0)

to_uint32-pos : (z : ℤ) → neg_part z ≡ 0 → pos_part z ≤ int_max → to_uint32 z ≤ int_max
to_uint32-pos (pos n) h le = omega arith
to_uint32-pos (negsuc n) h le = absurd (omega arith)

Below-suc : (k : ℕ) (rows : List Row) → Below k rows → Below (suc k) rows
Below-suc k [] h = tt
Below-suc k (r ∷ rows) h = (omega (arith, h.0), Below-suc k rows h.1)

counter_next : (k : ℕ) → k < int_max → (k + 1) % u32_mod ≡ suc k
counter_next k h = omega arith

pub length-le_of_Rising :
    (lo k : ℕ) (rows : List Row) → Rising lo rows → Below k rows → lo ≤ k → lo + length rows ≤ k
length-le_of_Rising lo k [] u b le = omega arith
length-le_of_Rising lo k (r ∷ rows) u b le =
    omega (arith, u.0, length-le_of_Rising (suc r.0) k rows u.1 b.1 b.0)

module _ (host : Host) where
  open host use {Variant}

  write_token-Marked :
      (t nl : Token Variant) (w : Writer host)
      → IsPlaced host t nl
      → w.token_counter < int_max
      → Marked host w
      → Marked host (write_token host t nl w)
  unfolding write_token mark_line
  write_token-Marked t nl w p c m =
      elim (Bool-cases (ltb 0 w.token_counter && ltb_ℤ w.last_token_line t.start_line)) [
        | inl starts ↦
            let k = w.token_counter in
            let r : Row = (k, to_uint32 t.start_line, to_uint32 t.start_column, span_of nl) in
            record {
              rows = m.rows ++ r ∷ [];
              lines = rw (
                starts,
                m.lines,
                insert_last k (to_uint32 t.start_line) (lines_of m.rows)
                    (below_keys (λ r. r.1) k m.rows m.below),
                map-append,
              );
              columns = rw (
                starts,
                m.columns,
                insert_last k (to_uint32 t.start_column) (columns_of m.rows)
                    (below_keys (λ r. r.2) k m.rows m.below),
                map-append,
              );
              newlines = rw (
                starts,
                m.newlines,
                insert_last k (span_of nl) (newlines_of m.rows)
                    (below_keys (λ r. r.3) k m.rows m.below),
                map-append,
              );
              rising = Rising-append 0 m.rows r m.rising m.below (omega arith);
              below = rw (counter_next k c) ((Below-next k m.rows r m.below (omega arith)));
              fits = All-append RowFits m.rows (r ∷ []) m.fits (
                (
                  omega arith,
                  to_uint32-pos t.start_line p.line_pos p.line_fits,
                  to_uint32-pos t.start_column p.column_pos p.column_fits,
                  p.newline_fits,
                ),
                tt,
              );
            }
        | inr inside ↦ record {
          rows = m.rows;
          lines = rw (inside) m.lines;
          columns = rw inside m.columns;
          newlines = rw inside m.newlines;
          rising = m.rising;
          below = rw (counter_next w.token_counter c) ((Below-suc w.token_counter m.rows m.below));
          fits = m.fits;
        }
      ]

  write_token-counter :
      (t nl : Token Variant) (w : Writer host)
      → w.token_counter < int_max
      → (write_token host t nl w).token_counter ≡ suc w.token_counter
  unfolding write_token
  write_token-counter t nl w h = counter_next w.token_counter h

  pub write_each-Marked :
      (ts : List (Token Variant × Token Variant)) (w : Writer host)
      → All (λ e. IsPlaced host e.0 e.1) ts
      → w.token_counter + length ts ≤ int_max
      → Marked host w
      → Marked host (write_each host ts w)
        × ((write_each host ts w).token_counter ≡ w.token_counter + length ts)
  write_each-Marked [] w p c m = (m, omega arith)
  write_each-Marked ((t, nl) ∷ ts) w p c m =
      let e = write_token-counter t nl w (omega arith) in
      let (m', e') =
        write_each-Marked ts (write_token host t nl w) p.1 (omega (arith, e))
          (write_token-Marked t nl w p.0 (omega arith) m) in
      (m', omega (arith, e, e'))

erase_row : ℕ → List Row → List Row
erase_row k [] = []
erase_row k (r ∷ rows) = if r.0 == k then rows else r ∷ erase_row k rows

erase-rows {ℓ} :
    {V : Type ℓ} (f : Row → V) (k : ℕ) (rows : List Row)
    → erase ◌==◌ k (map (λ r. (r.0, f r)) rows) ≡ map (λ r. (r.0, f r)) (erase_row k rows)
unfolding erase erase_row
erase-rows f k [] = refl
erase-rows f k (r ∷ rows) = elim (Bool-cases (r.0 == k)) [
  | inl e ↦ rw e
  | inr e ↦ rw e (ap (◌∷◌ (r.0, f r)) (erase-rows f k rows))
]

Rising-lower : (lo lo' : ℕ) (rows : List Row) → Rising lo rows → lo' ≤ lo → Rising lo' rows
Rising-lower lo lo' [] u le = tt
Rising-lower lo lo' (r ∷ rows) u le = (omega (arith, u.0), u.1)

erase_row-Rising : (lo k : ℕ) (rows : List Row) → Rising lo rows → Rising lo (erase_row k rows)
unfolding erase_row
erase_row-Rising lo k [] u = tt
erase_row-Rising lo k (r ∷ rows) u = elim (Bool-cases (r.0 == k)) [
  | inl e ↦ rw e (Rising-lower (suc r.0) lo rows u.1 (omega (arith, u.0)))
  | inr e ↦ rw e (u.0, erase_row-Rising (suc r.0) k rows u.1)
]

erase_row-All {ℓ} :
    (P : Row → Type ℓ) (k : ℕ) (rows : List Row) → All P rows → All P (erase_row k rows)
unfolding erase_row
erase_row-All P k [] u = tt
erase_row-All P k (r ∷ rows) u = elim (Bool-cases (r.0 == k)) [
  | inl e ↦ rw e u.1
  | inr e ↦ rw e (u.0, erase_row-All P k rows u.1)
]

module _ (host : Host) where
  open host use {Variant}

  -- The continuation lines leave the pools, the bytes and the counter as they are.
  pub record Kept (w w' : Writer host) : Type 0 where
    pub pools : w'.pools ≡ w.pools
    pub token_buffer : w'.token_buffer ≡ w.token_buffer
    pub token_counter : w'.token_counter ≡ w.token_counter

  erase_line-Marked :
      (i : Option ℕ) (w : Writer host)
      → Marked host w
      → Marked host (erase_line host i w) × Kept w (erase_line host i w)
  erase_line-Marked none w m =
      (m, record { pools = refl; token_buffer = refl; token_counter = refl })
  erase_line-Marked (some i) w m = (
    record {
      rows = erase_row i m.rows;
      lines = rw m.lines (erase-rows (λ r. r.1) i m.rows);
      columns = rw m.columns (erase-rows (λ r. r.2) i m.rows);
      newlines = rw m.newlines (erase-rows (λ r. r.3) i m.rows);
      rising = erase_row-Rising 0 i m.rows m.rising;
      below = erase_row-All (λ r. r.0 < w.token_counter) i m.rows m.below;
      fits = erase_row-All RowFits i m.rows m.fits;
    },
    record { pools = refl; token_buffer = refl; token_counter = refl },
  )

  pub drop_continuation-Marked :
      (rev : List (ℕ × ℕ)) (lines : List ℤ) (w : Writer host)
      → Marked host w
      → Marked host (drop_continuation host rev lines w)
        × Kept w (drop_continuation host rev lines w)
  unfolding drop_continuation
  drop_continuation-Marked rev [] w m =
      (m, record { pools = refl; token_buffer = refl; token_counter = refl })
  drop_continuation-Marked rev (line ∷ lines) w m =
      let found = lookup ◌==◌ (to_uint32 line) rev in
      let (m', k) = erase_line-Marked found w m in
      let (m'', k') = drop_continuation-Marked rev lines (erase_line host found w) m' in
      (
        m'',
        record {
          pools = k'.pools ∙ k.pools;
          token_buffer = k'.token_buffer ∙ k.token_buffer;
          token_counter = k'.token_counter ∙ k.token_counter;
        },
      )

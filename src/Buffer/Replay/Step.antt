-- ===== src/Buffer/Replay/Step.antt =====
-- One call of `scan`: its branches as equations, and what they do together.
use barista_script.Common.{
  ◌==◌, ℕ, suc, ◌≡◌, refl, sym, ap, ◌∙◌, true, false, Option, none, some, List, [], ◌∷◌, length,
  arith, Bool-cases, ◌⊎◌, inl, inr, leb→le,
}
use barista_script.Common.Int.{pos}
use barista_script.Common.Maps.{lookup}
use barista_script.Host.{Host}
use barista_script.Token.Types.{TokenType}
use barista_script.Token.Data.{Token, new_token}
use barista_script.Buffer.Format.{apply_span, is_zero}
use barista_script.Buffer.State.{TokenizerBuffer}
use barista_script.Buffer.Replay.{
  State, resolve_pending, start_line, next_token, scan_fuel, scan, at_end, line_start, layout_token,
  clear_indents, scan_line,
}
use barista_script.Buffer.Replay.Effects.{
  KeepsTables, kept_tokens, kept_token_lines, Effect, emits_newline, emits_indent, emits_dedent,
  emits_stored, emits_end, open_indents, due_indents, Does, next_token-Does, start_line-Does,
  resolve_pending-Does, zero_parts, apply_span-type,
}

module _ (host : Host) where
  open host use {Variant}

  -- The branches of `scan`, each with the tests that lead to it.
  module _ (fuel : ℕ) (s : State host) where
    scan_final :
        at_end host s ≡ true
        → s.last_token_was_newline ≡ false
        → scan_fuel host (suc fuel) s
          ≡ some (
            layout_token host s TokenType.newline s.final_newline,
            record s { last_token_was_newline = true },
          )
    unfolding scan_fuel
    scan_final e l = ground arith

    scan_pending :
        (at_end host s ≡ false) ⊎ (s.last_token_was_newline ≡ true)
        → is_zero s.pending_indents ≡ false
        → scan_fuel host (suc fuel) s ≡ some (resolve_pending host s)
    unfolding scan_fuel
    scan_pending e z = ground arith

    scan_inside :
        at_end host s ≡ false
        → is_zero s.pending_indents ≡ true
        → scan_fuel host (suc fuel) s ≡ scan_line host (line_start host s) s
    unfolding scan_fuel
    scan_inside e z = ground arith

    scan_eof :
        at_end host s ≡ true
        → s.last_token_was_newline ≡ true
        → is_zero s.pending_indents ≡ true
        → s.indent_stack ≡ []
        → scan_fuel host (suc fuel) s
          ≡ some (apply_span (new_token host.nil TokenType.tk_eof) s.eof_span (pos 0), s)
    unfolding scan_fuel
    scan_eof e l z i = ground arith

    scan_again :
        {x : ℕ} {xs : List ℕ}
        → at_end host s ≡ true
        → s.last_token_was_newline ≡ true
        → is_zero s.pending_indents ≡ true
        → s.indent_stack ≡ x ∷ xs
        → scan_fuel host (suc fuel) s ≡ scan_fuel host fuel (clear_indents host s)
    unfolding scan_fuel
    scan_again e l z i = ground arith

  scan_final-Does :
      (fuel : ℕ) (s : State host)
      → at_end host s ≡ true
      → s.last_token_was_newline ≡ false
      → Does host s (scan_fuel host (suc fuel) s)
  scan_final-Does fuel s e l = rw (scan_final fuel s e l) (
    refl,
    inl refl,
    emits_newline (apply_span-type _ _ _) l refl refl (omega arith) (omega arith),
  )

  scan_eof-Does :
      (fuel : ℕ) (s : State host)
      → at_end host s ≡ true
      → s.last_token_was_newline ≡ true
      → is_zero s.pending_indents ≡ true
      → s.indent_stack ≡ []
      → Does host s (scan_fuel host (suc fuel) s)
  scan_eof-Does fuel s e l z i = rw (scan_eof fuel s e l z i) (
    refl,
    inl refl,
    emits_end (apply_span-type _ _ _) (leb→le _ _ e) l (zero_parts s.pending_indents z).0
        (omega (arith, zero_parts s.pending_indents z, ap length i)) refl l
        (zero_parts s.pending_indents z).0
        (omega (arith, zero_parts s.pending_indents z, ap length i)),
  )

  scan_line_multiline :
      (s : State host) (line : ℕ)
      → s.multiline_mode ≡ true
      → scan_line host (some line) s ≡ next_token host (record s { current_line = line })
  scan_line_multiline s line m = ground arith

  scan_line_start :
      (s : State host) (line : ℕ)
      → s.multiline_mode ≡ false
      → scan_line host (some line) s ≡ some (start_line host line s)
  scan_line_start s line m = ground arith

  scan_line-Does :
      (s : State host) (o : Option ℕ)
      → at_end host s ≡ false
      → is_zero s.pending_indents ≡ true
      → line_start host s ≡ o
      → Does host s (scan_line host o s)
  scan_line-Does s none e z o =
      next_token-Does host s s (refl) (inl refl) refl refl refl (ground arith)
  scan_line-Does s (some line) e z o =
      let l : s.last_token_was_newline ≡ false = ground arith in
      let there : lookup ◌==◌ s.current s.token_lines ≡ some line = (rw (l) at o) in
      elim (Bool-cases s.multiline_mode) [
        | inl m ↦ rw (scan_line_multiline s line m) (
            next_token-Does host (record s { current_line = line }) s (refl) (inr there) refl refl
              refl (ground arith))
        | inr m ↦ rw (scan_line_start s line m) (start_line-Does host line s z l there)
      ]

  -- What a call does from the state with its indentations cleared, it does from the state itself.
  Effect-transfer :
      {V : Type 0} {c s s' : TokenizerBuffer V} {t : Token V}
      → KeepsTables s c
      → c.current ≡ s.current
      → c.last_token_was_newline ≡ s.last_token_was_newline
      → due_indents c ≡ due_indents s
      → open_indents c ≡ open_indents s
      → Effect c t s'
      → Effect s t s'
  Effect-transfer k c l d o (emits_newline a b e f g h) =
      emits_newline a (sym l ∙ b) e (f ∙ c) (omega (arith, d, o, g)) (omega (arith, d, h))
  Effect-transfer k c l d o (emits_indent a b e f g) =
      emits_indent a (b ∙ l) (e ∙ c) (sym d ∙ f) (g ∙ o)
  Effect-transfer k c l d o (emits_dedent a b e f g h) =
      emits_dedent a (b ∙ l) (e ∙ c) (sym d ∙ f) g (sym o ∙ h)
  Effect-transfer k c l d o (emits_stored a b e f g) =
      emits_stored (rw (← kept_tokens k, ← c) a) (b ∙ ap suc c) e (f ∙ d) (g ∙ o)
  Effect-transfer k c l d o (emits_end a b e f g c' l' d' o') =
      emits_end a (rw (← kept_tokens k, ← c) b) (sym l ∙ e) (sym d ∙ f) (sym o ∙ g) (c' ∙ c) l' d'
        o'

  Does-transfer :
      (c s : State host) (r : Option (Token Variant × State host))
      → KeepsTables s c
      → c.current_line ≡ s.current_line
      → c.current ≡ s.current
      → c.last_token_was_newline ≡ s.last_token_was_newline
      → due_indents c ≡ due_indents s
      → open_indents c ≡ open_indents s
      → Does host c r
      → Does host s r
  Does-transfer c s none k n e l d o x = x
  Does-transfer c s (some (t, s')) k n e l d o (k', inl same, x) =
      (k' ∙ k, inl (same ∙ n), Effect-transfer k e l d o x)
  Does-transfer c s (some (t, s')) k n e l d o (k', inr there, x) =
      (k' ∙ k, inr (rw (← kept_token_lines k, ← e) there), Effect-transfer k e l d o x)

  scan_again-Does :
      (fuel x : ℕ) (xs : List ℕ) (s : State host)
      → at_end host s ≡ true
      → s.last_token_was_newline ≡ true
      → is_zero s.pending_indents ≡ true
      → s.indent_stack ≡ x ∷ xs
      → Does host s (scan_fuel host (suc (suc fuel)) s)
  scan_again-Does fuel x xs s e l z i =
      let (up, down) = zero_parts s.pending_indents z in
      let n : length s.indent_stack ≡ suc (length xs) = ap length i in
      let c = clear_indents host s in
      let z' : is_zero c.pending_indents ≡ false = ground arith in
      rw (scan_again (suc fuel) s e l z i, scan_pending fuel c (inr l) z')
        (Does-transfer c s (some (resolve_pending host c)) (refl) refl refl refl (ground arith)
          (ground arith) (resolve_pending-Does host c z'))

  scan_closed-Does :
      (s : State host) (stack : List ℕ)
      → at_end host s ≡ true
      → s.last_token_was_newline ≡ true
      → is_zero s.pending_indents ≡ true
      → s.indent_stack ≡ stack
      → Does host s (scan_fuel host 2 s)
  scan_closed-Does s [] e l z i = scan_eof-Does 1 s e l z i
  scan_closed-Does s (x ∷ xs) e l z i = scan_again-Does 0 x xs s e l z i

  scan-Does_split :
      (s : State host)
      → (is_zero s.pending_indents ≡ true) ⊎ (is_zero s.pending_indents ≡ false)
      → (at_end host s ≡ true) ⊎ (at_end host s ≡ false)
      → (s.last_token_was_newline ≡ true) ⊎ (s.last_token_was_newline ≡ false)
      → Does host s (scan_fuel host 2 s)
  scan-Does_split s _ (inl e) (inr l) = scan_final-Does 1 s e l
  scan-Does_split s (inl z) (inl e) (inl l) = scan_closed-Does s s.indent_stack e l z refl
  scan-Does_split s (inr z) (inl e) (inl l) =
      rw (scan_pending 1 s (inr l) z) (resolve_pending-Does host s z)
  scan-Does_split s (inr z) (inr e) _ =
      rw (scan_pending 1 s (inl e) z) (resolve_pending-Does host s z)
  scan-Does_split s (inl z) (inr e) _ =
      rw (scan_inside 1 s e z) (scan_line-Does s (line_start host s) e z refl)

  -- Every call of `scan`, from whatever state, returns a token and reads only tokens that are there.
  -- The result keeps the tables and the line, unless the token at `current` begins one, which is then the
  -- line; and the token is a NEWLINE, an INDENT, a DEDENT, the stored token
  -- at `current`, or the end of the file, with the change of `current`, of the newline flag and of the
  -- indentations that belongs to it.
  pub scan-Does : (s : State host) → Does host s (scan host s)
  unfolding scan
  scan-Does s =
      scan-Does_split s (Bool-cases (is_zero s.pending_indents)) (Bool-cases (at_end host s))
        (Bool-cases s.last_token_was_newline)

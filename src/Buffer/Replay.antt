-- ===== src/Buffer/Replay.antt =====
-- src/bs_tokenizer_buffer.cpp `BSTokenizerBuffer::scan` and the small methods above it: the replay
-- of a loaded buffer, which builds the layout tokens again.
pub mod Effects
pub mod Step
pub mod Whole
use barista_script.Common.{
  ℕ, zero, suc, ◌+◌, ◌-◌, ◌%◌, Bool, true, false, not, ◌&&◌, Option, none, some, List, [], ◌∷◌,
  length, get_elem?, ◌==◌, ltb, leb, if◌then◌else◌, u32_mod,
}
use barista_script.Common.Int.{ℤ, pos, pos_part, ◌+ℤ◌, ◌-ℤ◌}
use barista_script.Common.Maps.{lookup}
use barista_script.Host.{Host}
use barista_script.Token.Types.{TokenType}
use barista_script.Token.Data.{Token, new_token}
use barista_script.Buffer.Format.{TokenSpan, zero_span, span_of, apply_span, is_zero}
use barista_script.Buffer.State.{TokenizerBuffer}

abbrev is_positive : ℤ → Bool
is_positive n = ltb 0 (pos_part n)

abbrev indent_span : TokenSpan → TokenSpan
indent_span a = record {
  start_line = a.start_line;
  start_column = if is_positive a.start_line then pos 1 else pos 0;
  end_line = a.start_line;
  end_column = a.start_column;
}

abbrev dedent_span : TokenSpan → TokenSpan
dedent_span a =
    if is_positive a.start_column
    then record (indent_span a) { end_column = a.start_column +ℤ pos 1 }
    else indent_span a

-- The `while` loop: each indentation that is deeper than the column goes, and counts one down.
unfoldable pub pop_indents : ℕ → List ℕ → ℤ → List ℕ × ℤ
pop_indents column [] pending = ([], pending)
pop_indents column (indent ∷ stack) pending =
    let rest = pop_indents column stack (pending -ℤ pos 1) in
    if ltb column indent then rest else (indent ∷ stack, pending)

abbrev top_indent : List ℕ → ℕ
top_indent [] = 0
top_indent (indent ∷ stack) = indent

-- "Check if there's a need to indent/dedent", for `current_column - 1` as a `uint32_t`.
unfoldable pub reindent : ℕ → List ℕ → ℤ → List ℕ × ℤ
reindent column stack pending =
    if ltb (top_indent stack) column
    then (column ∷ stack, pending +ℤ pos 1)
    else pop_indents column stack pending

abbrev pub or_else {ℓ} : {A : Type ℓ} → A → Option A → A
or_else default none = default
or_else default (some a) = a

module _ (host : Host) where
  open host use {Variant}

  abbrev pub State : Type 0
  State = TokenizerBuffer Variant

  abbrev pub set_multiline_mode : Bool → State → State
  set_multiline_mode p_state s = record s { multiline_mode = p_state }

  unfoldable pub push_expression_indented_block : State → State
  push_expression_indented_block s = record s {
    indent_stack_stack = s.indent_stack ∷ s.indent_stack_stack;
  }

  -- Nothing happens, but for an error message, where no block is left.
  abbrev pop_block : List (List ℕ) → State → State
  pop_block [] s = s
  pop_block (stack ∷ stacks) s = record s { indent_stack = stack; indent_stack_stack = stacks }

  unfoldable pub pop_expression_indented_block : State → State
  pop_expression_indented_block s = pop_block s.indent_stack_stack s

  -- `current >= tokens.size()`
  abbrev pub at_end : State → Bool
  at_end s = leb (length s.tokens) s.current

  abbrev pub layout_token : State → TokenType → TokenSpan → Token Variant
  layout_token s type span = apply_span (new_token host.nil type) span (pos s.current_line)

  -- The position that an INDENT or a DEDENT takes its own from.
  abbrev pub anchor : State → TokenSpan
  anchor s = elim (get_elem? s.tokens s.current) [ none ↦ s.eof_span | some t ↦ span_of t ]

  -- "Resolve pending indentation change."
  unfoldable pub resolve_pending : State → Token Variant × State
  resolve_pending s =
      if is_positive s.pending_indents
      then (
        layout_token s TokenType.indent (indent_span (anchor s)),
        record s { pending_indents = s.pending_indents -ℤ pos 1 },
      )
      else (
        layout_token s TokenType.dedent (dedent_span (anchor s)),
        record s { pending_indents = s.pending_indents +ℤ pos 1 },
      )

  -- The NEWLINE at a line start, with the change of indentation that the line makes.
  unfoldable pub start_line : ℕ → State → Token Variant × State
  start_line line s =
      let column = or_else 0 (lookup ◌==◌ s.current s.token_columns) in
      let (stack, pending) =
        reindent ((column + u32_mod - 1) % u32_mod) s.indent_stack s.pending_indents in
      let s' = record s { current_line = line } in
      (
        layout_token s' TokenType.newline
            (or_else zero_span (lookup ◌==◌ s.current s.token_newlines)),
        record s' {
          indent_stack = stack;
          pending_indents = pending;
          last_token_was_newline = true;
        },
      )

  -- The stored token at `current`; `none` is a read outside `tokens`.
  unfoldable pub next_token : State → Option (Token Variant × State)
  next_token s = elim (get_elem? s.tokens s.current) [
    | none ↦ none
    | some t ↦ some (t, record s { current = s.current + 1; last_token_was_newline = false })
  ]

  -- The line that the token at `current` begins, if it begins one and no NEWLINE stands before it.
  abbrev pub line_start : State → Option ℕ
  line_start s = if s.last_token_was_newline then none else lookup ◌==◌ s.current s.token_lines

  -- The end of `scan`, from the check of `token_lines` on.
  abbrev pub scan_line : Option ℕ → State → Option (Token Variant × State)
  scan_line none s = next_token s
  scan_line (some line) s =
      if s.multiline_mode
      then next_token (record s { current_line = line })
      else some (start_line line s)

  -- The end of the file: all open indentations are closed, by another call of `scan`, or all is read.
  abbrev pub clear_indents : State → State
  clear_indents s = record s {
    pending_indents = s.pending_indents -ℤ pos (length s.indent_stack);
    indent_stack = [];
  }

  -- `scan`, where fuel bounds the calls that it makes of itself. `none` is lack of fuel, or a read
  -- outside `tokens`.
  unfoldable pub scan_fuel : ℕ → State → Option (Token Variant × State)
  scan_fuel zero s = none
  scan_fuel (suc fuel) s =
      let again = scan_fuel fuel (clear_indents s) in
      let at_eof = some (apply_span (new_token host.nil TokenType.tk_eof) s.eof_span (pos 0), s) in
      if at_end s && not s.last_token_was_newline
      then some (
        layout_token s TokenType.newline s.final_newline,
        record s { last_token_was_newline = true },
      )
      else if not (is_zero s.pending_indents)
      then some (resolve_pending s)
      else if at_end s
      then elim s.indent_stack [ [] ↦ at_eof | indent ∷ stack ↦ again ]
      else scan_line (line_start s) s

  unfoldable pub scan : State → Option (Token Variant × State)
  scan s = scan_fuel 2 s

-- ===== src/Buffer/Replay/Effects.antt =====
-- What one call of `scan` does: it returns a token in every state that a replay reaches, and the
-- token's type tells how the state has changed.
use barista_script.Common.{
  ℕ, zero, suc, ◌+◌, ◌-◌, ◌%◌, ◌≤◌, ◌<◌, ◌≡◌, refl, ap, Text, Bool, true, false, Option, none, some,
  List, [], ◌∷◌, length, get_elem?, ◌==◌, ltb, u32_mod, arith, Bool-cases, ◌⊎◌, inl, inr,
}
use barista_script.Common.Int.{ℤ, pos, pos_part, neg_part, ◌-ℤ◌}
use barista_script.Common.Maps.{lookup}
use barista_script.Host.{Host}
use barista_script.Token.Types.{TokenType}
use barista_script.Token.Data.{Token}
use barista_script.Buffer.Format.{TokenSpan, apply_span, is_zero}
use barista_script.Buffer.State.{TokenizerBuffer}
use barista_script.Buffer.Replay.{
  State, resolve_pending, pop_indents, reindent, start_line, next_token, or_else,
}

-- What of the buffer a call of `scan` has no business with.
pub record Tables (V : Type 0) : Type 0 where
  pub identifiers : List Text
  pub constants : List V
  pub token_lines : List (ℕ × ℕ)
  pub token_columns : List (ℕ × ℕ)
  pub token_newlines : List (ℕ × TokenSpan)
  pub final_newline : TokenSpan
  pub eof_span : TokenSpan
  pub tokens : List (Token V)
  pub multiline_mode : Bool
  pub indent_stack_stack : List (List ℕ)

abbrev pub tables : {V : Type 0} → TokenizerBuffer V → Tables V
tables s = record {
  identifiers = s.identifiers;
  constants = s.constants;
  token_lines = s.token_lines;
  token_columns = s.token_columns;
  token_newlines = s.token_newlines;
  final_newline = s.final_newline;
  eof_span = s.eof_span;
  tokens = s.tokens;
  multiline_mode = s.multiline_mode;
  indent_stack_stack = s.indent_stack_stack;
}

-- The call keeps the tables of the buffer.
abbrev pub KeepsTables : {V : Type 0} → TokenizerBuffer V → TokenizerBuffer V → Type 0
KeepsTables s s' = tables s' ≡ tables s

pub kept_tokens : {V : Type 0} {a b : Tables V} → a ≡ b → a.tokens ≡ b.tokens
kept_tokens k = ap (λ t. t.tokens) k

pub kept_token_lines : {V : Type 0} {a b : Tables V} → a ≡ b → a.token_lines ≡ b.token_lines
kept_token_lines k = ap (λ t. t.token_lines) k

-- The line stays, or it is the one that the token at `current` begins.
abbrev pub KeepsLine : {V : Type 0} → TokenizerBuffer V → TokenizerBuffer V → Type 0
KeepsLine s s' =
    (s'.current_line ≡ s.current_line)
    ⊎ (lookup ◌==◌ s.current s.token_lines ≡ some s'.current_line)

-- Open indentations and DEDENTs that are due; INDENTs that are due.
abbrev pub open_indents : {V : Type 0} → TokenizerBuffer V → ℕ
open_indents s = length s.indent_stack + neg_part s.pending_indents

abbrev pub due_indents : {V : Type 0} → TokenizerBuffer V → ℕ
due_indents s = pos_part s.pending_indents

pub data Effect {V : Type 0} (s : TokenizerBuffer V) (t : Token V) (s' : TokenizerBuffer V)
    : Type 0 where
  -- A NEWLINE may open or close indentations.
  emits_newline :
      t.type ≡ TokenType.newline
      → s.last_token_was_newline ≡ false
      → s'.last_token_was_newline ≡ true
      → s'.current ≡ s.current
      → due_indents s' + open_indents s ≡ due_indents s + open_indents s'
      → due_indents s' ≤ due_indents s + 1
      → Effect s t s'
  emits_indent :
      t.type ≡ TokenType.indent
      → s'.last_token_was_newline ≡ s.last_token_was_newline
      → s'.current ≡ s.current
      → due_indents s ≡ suc (due_indents s')
      → open_indents s' ≡ open_indents s
      → Effect s t s'
  emits_dedent :
      t.type ≡ TokenType.dedent
      → s'.last_token_was_newline ≡ s.last_token_was_newline
      → s'.current ≡ s.current
      → due_indents s ≡ 0
      → due_indents s' ≡ 0
      → open_indents s ≡ suc (open_indents s')
      → Effect s t s'
  emits_stored :
      get_elem? s.tokens s.current ≡ some t
      → s'.current ≡ suc s.current
      → s'.last_token_was_newline ≡ false
      → due_indents s' ≡ due_indents s
      → open_indents s' ≡ open_indents s
      → Effect s t s'
  emits_end :
      t.type ≡ TokenType.tk_eof
      → length s.tokens ≤ s.current
      → s.last_token_was_newline ≡ true
      → due_indents s ≡ 0
      → open_indents s ≡ 0
      → s'.current ≡ s.current
      → s'.last_token_was_newline ≡ true
      → due_indents s' ≡ 0
      → open_indents s' ≡ 0
      → Effect s t s'

pub apply_span-type :
    {V : Type 0} (t : Token V) (s : TokenSpan) (l : ℤ) → (apply_span t s l).type ≡ t.type
unfolding apply_span
apply_span-type t s l = ground arith

get_elem?-of_lt {ℓ} :
    {A : Type ℓ} (xs : List A) (i : ℕ) → i < length xs → (x : A) × (get_elem? xs i ≡ some x)
get_elem?-of_lt [] i h = absurd (omega arith)
get_elem?-of_lt (x ∷ xs) zero h = (x, refl)
get_elem?-of_lt (x ∷ xs) (suc i) h = get_elem?-of_lt xs i (omega arith)

pop_indents_balance :
    (column : ℕ) (stack : List ℕ) (pending : ℤ)
    → pos_part pending ≡ 0
    → let r = pop_indents column stack pending in
      (pos_part r.1 ≡ 0) × (length r.0 + neg_part r.1 ≡ length stack + neg_part pending)
unfolding pop_indents
pop_indents_balance column [] pending h = omega arith
pop_indents_balance column (indent ∷ stack) pending h =
    ground (arith, pop_indents_balance column stack (pending -ℤ pos 1))

pub zero_parts : (z : ℤ) → is_zero z ≡ true → (pos_part z ≡ 0) × (neg_part z ≡ 0)
zero_parts z h = ground arith

reindent_balance :
    (column : ℕ) (stack : List ℕ) (pending : ℤ)
    → is_zero pending ≡ true
    → let r = reindent column stack pending in
      (pos_part r.1 + length stack ≡ length r.0 + neg_part r.1) × (pos_part r.1 ≤ 1)
unfolding reindent
reindent_balance column stack pending h = ground (arith, pop_indents_balance column stack pending)

module _ (host : Host) where
  open host use {Variant}

  -- The result of a call: a token and a state with the same tables, and what has changed.
  abbrev pub Does : State host → Option (Token Variant × State host) → Type 0
  Does s none = ⊥
  Does s (some (t, s')) = KeepsTables s s' × KeepsLine s s' × Effect s t s'

  pub next_token-Does :
      (s s0 : State host)
      → KeepsTables s0 s
      → KeepsLine s0 s
      → s.current ≡ s0.current
      → s.pending_indents ≡ s0.pending_indents
      → s.indent_stack ≡ s0.indent_stack
      → s.current < length s.tokens
      → Does s0 (next_token host s)
  unfolding next_token
  next_token-Does s s0 k line c p i h =
      let (t, e) = get_elem?-of_lt s.tokens s.current h in
      let e' : get_elem? s0.tokens s0.current ≡ some t = rw (← c, ← kept_tokens k) e in
      rw (e, next_token)
        (
          k,
          line,
          emits_stored e' (omega arith) refl (ap pos_part p)
              (omega (arith, ap length i, ap neg_part p)),
        )

  pub start_line-Does :
      (line : ℕ) (s : State host)
      → is_zero s.pending_indents ≡ true
      → s.last_token_was_newline ≡ false
      → lookup ◌==◌ s.current s.token_lines ≡ some line
      → Does s (some (start_line host line s))
  unfolding start_line
  start_line-Does line s z l there =
      let column = or_else 0 (lookup ◌==◌ s.current s.token_columns) in
      let (balance, one) =
        reindent_balance ((column + u32_mod - 1) % u32_mod) s.indent_stack s.pending_indents z in
      let (up, down) = zero_parts s.pending_indents z in
      (
        refl,
        inr there,
        emits_newline (apply_span-type _ _ _) l refl refl (omega arith) (omega arith),
      )

  pub resolve_pending-Does :
      (s : State host) → is_zero s.pending_indents ≡ false → Does s (some (resolve_pending host s))
  unfolding resolve_pending
  resolve_pending-Does s z = elim (Bool-cases (ltb 0 (pos_part s.pending_indents))) [
    | inl up ↦ rw up (
      refl,
      inl refl,
      emits_indent (apply_span-type _ _ _) refl refl (ground arith) (ground arith),
    )
    | inr down ↦ rw down (
      refl,
      inl refl,
      emits_dedent (apply_span-type _ _ _) refl refl (ground arith) (ground arith) (ground arith),
    )
  ]

-- ===== src/Buffer/State.antt =====
-- src/bs_tokenizer_buffer.h: the fields of `BSTokenizerBuffer`.
use barista_script.Common.{ℕ, Bool, false, List, [], Text}
use barista_script.Common.Int.{ℤ, pos}
use barista_script.Token.Data.{Token}
use barista_script.Buffer.Format.{TokenSpan, zero_span}

-- The values of `token_lines` and `token_columns` are never negative: `set_code_buffer` refuses
-- what does not fit an `int`. The last element of `indent_stack` stands first here, and its values
-- are read as `uint32_t`.
pub record TokenizerBuffer (V : Type 0) : Type 0 where
  pub identifiers : List Text
  pub constants : List V
  pub token_lines : List (ℕ × ℕ)
  pub token_columns : List (ℕ × ℕ)
  pub token_newlines : List (ℕ × TokenSpan)
  pub final_newline : TokenSpan
  pub eof_span : TokenSpan
  pub tokens : List (Token V)
  pub current : ℕ
  pub current_line : ℕ
  pub multiline_mode : Bool
  pub indent_stack : List ℕ
  pub indent_stack_stack : List (List ℕ)
  pub pending_indents : ℤ
  pub last_token_was_newline : Bool

-- A new object.
abbrev pub new_buffer : {V : Type 0} → TokenizerBuffer V
new_buffer = record {
  identifiers = [];
  constants = [];
  token_lines = [];
  token_columns = [];
  token_newlines = [];
  final_newline = zero_span;
  eof_span = zero_span;
  tokens = [];
  current = 0;
  current_line = 1;
  multiline_mode = false;
  indent_stack = [];
  indent_stack_stack = [];
  pending_indents = pos 0;
  last_token_was_newline = false;
}

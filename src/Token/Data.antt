-- ===== src/Token/Data.antt =====
-- src/bs_tokenizer.h `BSTokenizer::Token`, over the type of the host's variants.
use barista_script.Common.{Text, []}
use barista_script.Common.Int.{ℤ, pos, negsuc}
use barista_script.Token.Types.{TokenType}

pub data CursorPlace : Type 0 where
  cursor_none cursor_beginning cursor_middle cursor_end : CursorPlace

pub record Token (V : Type 0) : Type 0 where
  pub type : TokenType
  pub literal : V
  pub start_line : ℤ
  pub end_line : ℤ
  pub start_column : ℤ
  pub end_column : ℤ
  pub cursor_position : ℤ
  pub cursor_place : CursorPlace
  pub source : Text

-- `Token(p_type)`; the literal of a default `Variant` is `nil`.
abbrev pub new_token : {V : Type 0} → V → TokenType → Token V
new_token nil t = record {
  type = t;
  literal = nil;
  start_line = pos 0;
  end_line = pos 0;
  start_column = pos 0;
  end_column = pos 0;
  cursor_position = negsuc 0;
  cursor_place = CursorPlace.cursor_none;
  source = [];
}

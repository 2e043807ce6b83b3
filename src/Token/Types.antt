-- ===== src/Token/Types.antt =====
-- src/bs_tokenizer.h `Token::Type` and the table `token_names` of src/bs_tokenizer.cpp.
-- An enumerator keeps its name in small letters; `tk_` stands before a word that antt reserves,
-- as the source writes `TK_IN` for a word that WinAPI takes.
use Prim.Native.String.{String}
use barista_script.Common.{ℕ, List, [], ◌∷◌, length}

pub data TokenType : Type 0 where
  empty annotation identifier reserved_type_name literal less less_equal greater : TokenType
  greater_equal equal_equal bang_equal tk_and tk_or tk_not ampersand_ampersand : TokenType
  pipe_pipe bang ampersand pipe tilde caret less_less greater_greater plus minus : TokenType
  star star_star slash percent equal plus_equal minus_equal star_equal : TokenType
  star_star_equal slash_equal percent_equal less_less_equal greater_greater_equal : TokenType
  ampersand_equal pipe_equal caret_equal tk_if elif tk_else for while break : TokenType
  continue pass return match when abstract tk_as assert await breakpoint class : TokenType
  class_name enum_name tk_const enum extends final func import tk_in is namespace : TokenType
  preload self signal static super trait trait_name tuple tuple_name uses var : TokenType
  tk_void yield bracket_open bracket_close brace_open brace_close parenthesis_open : TokenType
  parenthesis_close comma semicolon period period_period period_period_period colon : TokenType
  dollar forward_arrow underscore newline indent dedent const_pi const_tau : TokenType
  const_inf const_nan vcs_conflict_marker backtick question_mark error tk_eof : TokenType

-- Each token type with its name, in the order of the table.
abbrev pub token_names : List (TokenType × String)
token_names =
    (empty, "Empty")
    ∷ (annotation, "Annotation")
    ∷ (identifier, "Identifier")
    ∷ (reserved_type_name, "Reserved type name")
    ∷ (literal, "Literal")
    ∷ (less, "<")
    ∷ (less_equal, "<=")
    ∷ (greater, ">")
    ∷ (greater_equal, ">=")
    ∷ (equal_equal, "==")
    ∷ (bang_equal, "!=")
    ∷ (tk_and, "and")
    ∷ (tk_or, "or")
    ∷ (tk_not, "not")
    ∷ (ampersand_ampersand, "&&")
    ∷ (pipe_pipe, "||")
    ∷ (bang, "!")
    ∷ (ampersand, "&")
    ∷ (pipe, "|")
    ∷ (tilde, "~")
    ∷ (caret, "^")
    ∷ (less_less, "<<")
    ∷ (greater_greater, ">>")
    ∷ (plus, "+")
    ∷ (minus, "-")
    ∷ (star, "*")
    ∷ (star_star, "**")
    ∷ (slash, "/")
    ∷ (percent, "%")
    ∷ (equal, "=")
    ∷ (plus_equal, "+=")
    ∷ (minus_equal, "-=")
    ∷ (star_equal, "*=")
    ∷ (star_star_equal, "**=")
    ∷ (slash_equal, "/=")
    ∷ (percent_equal, "%=")
    ∷ (less_less_equal, "<<=")
    ∷ (greater_greater_equal, ">>=")
    ∷ (ampersand_equal, "&=")
    ∷ (pipe_equal, "|=")
    ∷ (caret_equal, "^=")
    ∷ (tk_if, "if")
    ∷ (elif, "elif")
    ∷ (tk_else, "else")
    ∷ (for, "for")
    ∷ (while, "while")
    ∷ (break, "break")
    ∷ (continue, "continue")
    ∷ (pass, "pass")
    ∷ (return, "return")
    ∷ (match, "match")
    ∷ (when, "when")
    ∷ (abstract, "abstract")
    ∷ (tk_as, "as")
    ∷ (assert, "assert")
    ∷ (await, "await")
    ∷ (breakpoint, "breakpoint")
    ∷ (class, "class")
    ∷ (class_name, "class_name")
    ∷ (enum_name, "enum_name")
    ∷ (tk_const, "const")
    ∷ (enum, "enum")
    ∷ (extends, "extends")
    ∷ (final, "final")
    ∷ (func, "func")
    ∷ (import, "import")
    ∷ (tk_in, "in")
    ∷ (is, "is")
    ∷ (namespace, "namespace")
    ∷ (preload, "preload")
    ∷ (self, "self")
    ∷ (signal, "signal")
    ∷ (static, "static")
    ∷ (super, "super")
    ∷ (trait, "trait")
    ∷ (trait_name, "trait_name")
    ∷ (tuple, "tuple")
    ∷ (tuple_name, "tuple_name")
    ∷ (uses, "uses")
    ∷ (var, "var")
    ∷ (tk_void, "void")
    ∷ (yield, "yield")
    ∷ (bracket_open, "[")
    ∷ (bracket_close, "]")
    ∷ (brace_open, "{")
    ∷ (brace_close, "}")
    ∷ (parenthesis_open, "(")
    ∷ (parenthesis_close, ")")
    ∷ (comma, ",")
    ∷ (semicolon, ";")
    ∷ (period, ".")
    ∷ (period_period, "..")
    ∷ (period_period_period, "...")
    ∷ (colon, ":")
    ∷ (dollar, "$")
    ∷ (forward_arrow, "->")
    ∷ (underscore, "_")
    ∷ (newline, "Newline")
    ∷ (indent, "Indent")
    ∷ (dedent, "Dedent")
    ∷ (const_pi, "PI")
    ∷ (const_tau, "TAU")
    ∷ (const_inf, "INF")
    ∷ (const_nan, "NaN")
    ∷ (vcs_conflict_marker, "VCS conflict marker")
    ∷ (backtick, "`")
    ∷ (question_mark, "?")
    ∷ (error, "Error")
    ∷ (tk_eof, "End of file")
    ∷ []

-- `Token::TK_MAX`
abbrev pub tk_max : ℕ
tk_max = length token_names

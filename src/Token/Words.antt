-- ===== src/Token/Words.antt =====
-- src/bs_tokenizer.cpp `BSTokenizerText::potential_identifier`, once the characters of a word are
-- read, and its table `KEYWORDS`. What the text server says of look-alikes is left out: it adds an
-- error beside the identifier that is returned.
use Prim.Native.String.{String}
use barista_script.Common.{
  ℕ, Bool, false, not, ◌&&◌, ◌||◌, Option, none, some, List, [], ◌∷◌, length, ltb, if◌then◌else◌,
  Text, text_eq,
}
use barista_script.Token.Types.{TokenType}
use barista_script.Token.Names.{codes}

-- Each row has its group, the spelling, and the token type; a removed spelling has none.
abbrev pub keyword_rows : List (String × String × Option TokenType)
keyword_rows =
    ("a", "abstract", some TokenType.abstract)
    ∷ ("a", "as", some TokenType.tk_as)
    ∷ ("a", "and", some TokenType.tk_and)
    ∷ ("a", "assert", some TokenType.assert)
    ∷ ("a", "await", some TokenType.await)
    ∷ ("b", "break", some TokenType.break)
    ∷ ("b", "breakpoint", some TokenType.breakpoint)
    ∷ ("c", "class", some TokenType.class)
    ∷ ("c", "class_name", some TokenType.class_name)
    ∷ ("c", "const", some TokenType.tk_const)
    ∷ ("c", "continue", some TokenType.continue)
    ∷ ("e", "elif", some TokenType.elif)
    ∷ ("e", "else", some TokenType.tk_else)
    ∷ ("e", "enum", some TokenType.enum)
    ∷ ("e", "enum_name", some TokenType.enum_name)
    ∷ ("e", "extends", some TokenType.extends)
    ∷ ("f", "final", some TokenType.final)
    ∷ ("f", "for", some TokenType.for)
    ∷ ("f", "func", some TokenType.func)
    ∷ ("i", "if", some TokenType.tk_if)
    ∷ ("i", "import", some TokenType.import)
    ∷ ("i", "in", some TokenType.tk_in)
    ∷ ("i", "is", some TokenType.is)
    ∷ ("l", "long", none)
    ∷ ("m", "match", some TokenType.match)
    ∷ ("n", "namespace", some TokenType.namespace)
    ∷ ("n", "not", some TokenType.tk_not)
    ∷ ("o", "or", some TokenType.tk_or)
    ∷ ("p", "pass", some TokenType.pass)
    ∷ ("p", "preload", some TokenType.preload)
    ∷ ("r", "return", some TokenType.return)
    ∷ ("s", "self", some TokenType.self)
    ∷ ("s", "signal", some TokenType.signal)
    ∷ ("s", "static", some TokenType.static)
    ∷ ("s", "super", some TokenType.super)
    ∷ ("t", "trait", some TokenType.trait)
    ∷ ("t", "trait_name", some TokenType.trait_name)
    ∷ ("t", "tuple", some TokenType.tuple)
    ∷ ("t", "tuple_name", some TokenType.tuple_name)
    ∷ ("u", "uint", none)
    ∷ ("u", "ulong", none)
    ∷ ("u", "uses", some TokenType.uses)
    ∷ ("v", "var", some TokenType.var)
    ∷ ("v", "void", some TokenType.tk_void)
    ∷ ("w", "while", some TokenType.while)
    ∷ ("w", "when", some TokenType.when)
    ∷ ("y", "yield", some TokenType.yield)
    ∷ ("I", "INF", some TokenType.const_inf)
    ∷ ("N", "NAN", some TokenType.const_nan)
    ∷ ("P", "PI", some TokenType.const_pi)
    ∷ ("T", "TAU", some TokenType.const_tau)
    ∷ []

abbrev pub min_keyword_length : ℕ
min_keyword_length = 2

abbrev pub max_keyword_length : ℕ
max_keyword_length = 10

-- The token that is made of a word.
pub data Word : Type 0 where
  underscore_word : Word
  keyword_word : TokenType → Word
  reserved_word : Word
  removed_type_error : Word
  as_bang_error : Word
  true_word : Word
  false_word : Word
  null_word : Word
  identifier_word : Word

-- `switch (_source[_start])`
unfoldable pub in_group : Text → Text → Bool
in_group [] name = false
in_group (g ∷ gs) [] = false
in_group (g ∷ gs) (c ∷ name) = text_eq (g ∷ []) (c ∷ [])

unfoldable pub find_keyword :
    Text → List (String × String × Option TokenType) → Option (Option TokenType)
find_keyword name [] = none
find_keyword name ((group, spelling, type) ∷ rows) =
    let rest = find_keyword name rows in
    if in_group (codes group) name && text_eq name (codes spelling) then some type else rest

unfoldable pub literal_word : Text → Word
literal_word name =
    if text_eq name (codes "true")
    then true_word
    else if text_eq name (codes "null")
    then null_word
    else if text_eq name (codes "false")
    then false_word
    else identifier_word

unfoldable pub keyword_or_literal : Bool → Text → Option (Option TokenType) → Word
keyword_or_literal type_position name none = literal_word name
keyword_or_literal type_position name (some none) =
    if type_position then removed_type_error else reserved_word
keyword_or_literal type_position name (some (some type)) = keyword_word type

-- The word's characters; whether all are ASCII, whether `!` follows, and `_is_type_position`.
unfoldable pub potential_identifier : Bool → Bool → Bool → Text → Word
potential_identifier only_ascii bang type_position name =
    if text_eq name (codes "_")
    then underscore_word
    else if ltb (length name) min_keyword_length || ltb max_keyword_length (length name)
    then identifier_word
    else if not only_ascii
    then identifier_word
    else if text_eq name (codes "as") && bang
    then as_bang_error
    else keyword_or_literal type_position name (find_keyword name keyword_rows)

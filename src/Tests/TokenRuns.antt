-- ===== src/Tests/TokenRuns.antt =====
-- Token types and UTF-8 sources at concrete inputs.
use barista_script.Common.{not, ℕ, ◌≡◌, inl, refl, true, ◌||◌, List, [], ◌∷◌, All, Bytes, arith}
use barista_script.Token.Types.{TokenType}
use barista_script.Token.Classes.{can_precede_bin_op, is_identifier, is_node_name}
use barista_script.Token.Laws.{
  is_keyword, is_other_name, is_node_name-keyword, is_identifier-is_node_name, leads_clause,
}
use barista_script.Common.{false, text_eq}
use barista_script.Token.Index.{index}
use barista_script.Token.Names.{codes, get_name}
use barista_script.Token.Words.{
  potential_identifier, keyword_or_literal, find_keyword, in_group, keyword_word, reserved_word,
}
use barista_script.Token.Keywords.{potential_identifier-get_name}
use barista_script.Token.Source.{
  decode_source, source_text, source_error, decode_fuel, turn_at, turn, lead_form, continue_bytes,
  finish_turn, is_refused, is_overlong, is_surrogate,
}
use barista_script.Token.Source.Utf8.{
  IsScalar, encode_text, encode_scalar, decode_source-encode_text,
}
use barista_script.Token.Source.Sound.{encode_text_of_accepted}

abbrev whole : Bytes → Bytes
whole b = b

-- An overlong form of `/` is refused at its first byte.
overlong_run : decode_source whole (65 ∷ 192 ∷ 175 ∷ []) ≡ source_error 1
unfolding decode_source decode_fuel turn_at turn lead_form continue_bytes finish_turn is_refused
    is_overlong is_surrogate
overlong_run = refl

euro_run : encode_text (8364 ∷ []) ≡ 226 ∷ 130 ∷ 172 ∷ []
unfolding encode_text encode_scalar
euro_run = refl

decode_source-encode_text_example :
    decode_source whole (encode_text (8364 ∷ 65 ∷ [])) ≡ source_text (encode_text (8364 ∷ 65 ∷ []))
decode_source-encode_text_example =
    decode_source-encode_text whole (8364 ∷ 65 ∷ [])
      (inl (omega arith), (inl (omega arith), record {}))

euro_accepted : decode_source whole (226 ∷ 130 ∷ 172 ∷ []) ≡ source_text (226 ∷ 130 ∷ 172 ∷ [])
unfolding decode_source decode_fuel turn_at turn lead_form continue_bytes finish_turn is_refused
    is_overlong is_surrogate
euro_accepted = refl

encode_text_of_accepted_example :
    (cs : List ℕ) × All IsScalar cs × (encode_text cs ≡ 226 ∷ 130 ∷ 172 ∷ [])
encode_text_of_accepted_example =
    encode_text_of_accepted whole (226 ∷ 130 ∷ 172 ∷ []) (226 ∷ 130 ∷ 172 ∷ []) euro_accepted

is_node_name-keyword_example :
    is_node_name TokenType.for ≡ (is_keyword TokenType.for || is_other_name TokenType.for)
is_node_name-keyword_example = is_node_name-keyword TokenType.for

when_run : is_identifier TokenType.when ≡ true
unfolding is_identifier
when_run = refl

is_identifier-is_node_name_example :
    (is_node_name TokenType.when ≡ true)
    × (can_precede_bin_op TokenType.when ≡ not (leads_clause TokenType.when))
is_identifier-is_node_name_example = is_identifier-is_node_name TokenType.when when_run

-- `long` is an ordinary name outside a type, and refused in one; `enum` is a keyword.
reserved_run : potential_identifier true false false (codes "long") ≡ reserved_word
unfolding potential_identifier keyword_or_literal find_keyword in_group text_eq
reserved_run = refl

for-is_keyword : is_keyword TokenType.for ≡ true
unfolding index
for-is_keyword = refl

potential_identifier-get_name_example :
    potential_identifier true false false (get_name TokenType.for) ≡ keyword_word TokenType.for
potential_identifier-get_name_example =
    potential_identifier-get_name TokenType.for false for-is_keyword

-- ===== src/Token/Laws.antt =====
-- The classes of token types, against the enumeration and its names.
use barista_script.Common.{◌≡◌, refl, Bool, true, false, not, arith, leb, ◌&&◌, ◌||◌}
use barista_script.Token.Types.{TokenType}
use barista_script.Token.Index.{index}
use barista_script.Token.Classes.{can_precede_bin_op, is_identifier, is_node_name}

-- Between `IF` and `YIELD` stand the keywords.
abbrev pub is_keyword : TokenType → Bool
is_keyword t = leb (index TokenType.tk_if) (index t) && leb (index t) (index TokenType.yield)

abbrev pub is_other_name : TokenType → Bool
is_other_name TokenType.identifier = true
is_other_name TokenType.reserved_type_name = true
is_other_name TokenType.tk_and = true
is_other_name TokenType.tk_or = true
is_other_name TokenType.tk_not = true
is_other_name TokenType.underscore = true
is_other_name TokenType.const_pi = true
is_other_name TokenType.const_tau = true
is_other_name TokenType.const_inf = true
is_other_name TokenType.const_nan = true
is_other_name _ = false

-- `is_node_name` accepts a token type exactly if it is one of the keywords, which the enumeration
-- has from IF to YIELD, or an identifier, a reserved type name, `and`, `or`, `not`, `_` or one of
-- the four constants.
pub is_node_name-keyword : (t : TokenType) → is_node_name t ≡ (is_keyword t || is_other_name t)
unfolding is_node_name index
is_node_name-keyword TokenType.empty = refl
is_node_name-keyword _ = refl

abbrev pub leads_clause : TokenType → Bool
leads_clause TokenType.match = true
leads_clause TokenType.when = true
leads_clause _ = false

-- What is accepted as an identifier is accepted as a node name; and it may stand before a binary
-- operator exactly if it is neither `match` nor `when`.
pub is_identifier-is_node_name :
    (t : TokenType)
    → is_identifier t ≡ true
    → (is_node_name t ≡ true) × (can_precede_bin_op t ≡ not (leads_clause t))
unfolding is_identifier is_node_name can_precede_bin_op
is_identifier-is_node_name TokenType.match h = (refl, refl)
is_identifier-is_node_name TokenType.when h = (refl, refl)
is_identifier-is_node_name TokenType.identifier h = (refl, refl)
is_identifier-is_node_name TokenType.reserved_type_name h = (refl, refl)
is_identifier-is_node_name TokenType.uses h = (refl, refl)
is_identifier-is_node_name TokenType.const_pi h = (refl, refl)
is_identifier-is_node_name TokenType.const_tau h = (refl, refl)
is_identifier-is_node_name TokenType.const_inf h = (refl, refl)
is_identifier-is_node_name TokenType.const_nan h = (refl, refl)
is_identifier-is_node_name _ h = absurd (ground arith)

-- ===== src/Token/Classes.antt =====
-- src/bs_tokenizer.cpp: `Token::can_precede_bin_op`, `is_identifier` and `is_node_name`, each a
-- `switch` on the type of the token.
use barista_script.Common.{Bool, true, false}
use barista_script.Token.Types.{TokenType}

unfoldable pub can_precede_bin_op : TokenType → Bool
can_precede_bin_op TokenType.identifier = true
can_precede_bin_op TokenType.reserved_type_name = true
can_precede_bin_op TokenType.literal = true
can_precede_bin_op TokenType.self = true
can_precede_bin_op TokenType.bracket_close = true
can_precede_bin_op TokenType.brace_close = true
can_precede_bin_op TokenType.parenthesis_close = true
can_precede_bin_op TokenType.const_pi = true
can_precede_bin_op TokenType.const_tau = true
can_precede_bin_op TokenType.const_inf = true
can_precede_bin_op TokenType.const_nan = true
can_precede_bin_op TokenType.uses = true
can_precede_bin_op TokenType.tuple = true
can_precede_bin_op _ = false

unfoldable pub is_identifier : TokenType → Bool
is_identifier TokenType.identifier = true
is_identifier TokenType.reserved_type_name = true
is_identifier TokenType.match = true
is_identifier TokenType.when = true
is_identifier TokenType.uses = true
is_identifier TokenType.const_pi = true
is_identifier TokenType.const_inf = true
is_identifier TokenType.const_nan = true
is_identifier TokenType.const_tau = true
is_identifier _ = false

unfoldable pub is_node_name : TokenType → Bool
is_node_name TokenType.identifier = true
is_node_name TokenType.reserved_type_name = true
is_node_name TokenType.abstract = true
is_node_name TokenType.tk_and = true
is_node_name TokenType.tk_as = true
is_node_name TokenType.assert = true
is_node_name TokenType.await = true
is_node_name TokenType.break = true
is_node_name TokenType.breakpoint = true
is_node_name TokenType.class_name = true
is_node_name TokenType.class = true
is_node_name TokenType.enum_name = true
is_node_name TokenType.tk_const = true
is_node_name TokenType.const_pi = true
is_node_name TokenType.const_inf = true
is_node_name TokenType.const_nan = true
is_node_name TokenType.const_tau = true
is_node_name TokenType.continue = true
is_node_name TokenType.elif = true
is_node_name TokenType.tk_else = true
is_node_name TokenType.enum = true
is_node_name TokenType.extends = true
is_node_name TokenType.final = true
is_node_name TokenType.for = true
is_node_name TokenType.func = true
is_node_name TokenType.tk_if = true
is_node_name TokenType.import = true
is_node_name TokenType.tk_in = true
is_node_name TokenType.is = true
is_node_name TokenType.match = true
is_node_name TokenType.namespace = true
is_node_name TokenType.tk_not = true
is_node_name TokenType.tk_or = true
is_node_name TokenType.pass = true
is_node_name TokenType.preload = true
is_node_name TokenType.return = true
is_node_name TokenType.self = true
is_node_name TokenType.signal = true
is_node_name TokenType.static = true
is_node_name TokenType.super = true
is_node_name TokenType.trait = true
is_node_name TokenType.trait_name = true
is_node_name TokenType.tuple = true
is_node_name TokenType.tuple_name = true
is_node_name TokenType.uses = true
is_node_name TokenType.underscore = true
is_node_name TokenType.var = true
is_node_name TokenType.tk_void = true
is_node_name TokenType.while = true
is_node_name TokenType.when = true
is_node_name TokenType.yield = true
is_node_name _ = false

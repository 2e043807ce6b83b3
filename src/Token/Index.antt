-- ===== src/Token/Index.antt =====
-- The number that the enumeration gives to each token type.
use barista_script.Common.{ℕ}
use barista_script.Token.Types.{TokenType}

unfoldable pub index : TokenType → ℕ
index TokenType.empty = 0
index TokenType.annotation = 1
index TokenType.identifier = 2
index TokenType.reserved_type_name = 3
index TokenType.literal = 4
index TokenType.less = 5
index TokenType.less_equal = 6
index TokenType.greater = 7
index TokenType.greater_equal = 8
index TokenType.equal_equal = 9
index TokenType.bang_equal = 10
index TokenType.tk_and = 11
index TokenType.tk_or = 12
index TokenType.tk_not = 13
index TokenType.ampersand_ampersand = 14
index TokenType.pipe_pipe = 15
index TokenType.bang = 16
index TokenType.ampersand = 17
index TokenType.pipe = 18
index TokenType.tilde = 19
index TokenType.caret = 20
index TokenType.less_less = 21
index TokenType.greater_greater = 22
index TokenType.plus = 23
index TokenType.minus = 24
index TokenType.star = 25
index TokenType.star_star = 26
index TokenType.slash = 27
index TokenType.percent = 28
index TokenType.equal = 29
index TokenType.plus_equal = 30
index TokenType.minus_equal = 31
index TokenType.star_equal = 32
index TokenType.star_star_equal = 33
index TokenType.slash_equal = 34
index TokenType.percent_equal = 35
index TokenType.less_less_equal = 36
index TokenType.greater_greater_equal = 37
index TokenType.ampersand_equal = 38
index TokenType.pipe_equal = 39
index TokenType.caret_equal = 40
index TokenType.tk_if = 41
index TokenType.elif = 42
index TokenType.tk_else = 43
index TokenType.for = 44
index TokenType.while = 45
index TokenType.break = 46
index TokenType.continue = 47
index TokenType.pass = 48
index TokenType.return = 49
index TokenType.match = 50
index TokenType.when = 51
index TokenType.abstract = 52
index TokenType.tk_as = 53
index TokenType.assert = 54
index TokenType.await = 55
index TokenType.breakpoint = 56
index TokenType.class = 57
index TokenType.class_name = 58
index TokenType.enum_name = 59
index TokenType.tk_const = 60
index TokenType.enum = 61
index TokenType.extends = 62
index TokenType.final = 63
index TokenType.func = 64
index TokenType.import = 65
index TokenType.tk_in = 66
index TokenType.is = 67
index TokenType.namespace = 68
index TokenType.preload = 69
index TokenType.self = 70
index TokenType.signal = 71
index TokenType.static = 72
index TokenType.super = 73
index TokenType.trait = 74
index TokenType.trait_name = 75
index TokenType.tuple = 76
index TokenType.tuple_name = 77
index TokenType.uses = 78
index TokenType.var = 79
index TokenType.tk_void = 80
index TokenType.yield = 81
index TokenType.bracket_open = 82
index TokenType.bracket_close = 83
index TokenType.brace_open = 84
index TokenType.brace_close = 85
index TokenType.parenthesis_open = 86
index TokenType.parenthesis_close = 87
index TokenType.comma = 88
index TokenType.semicolon = 89
index TokenType.period = 90
index TokenType.period_period = 91
index TokenType.period_period_period = 92
index TokenType.colon = 93
index TokenType.dollar = 94
index TokenType.forward_arrow = 95
index TokenType.underscore = 96
index TokenType.newline = 97
index TokenType.indent = 98
index TokenType.dedent = 99
index TokenType.const_pi = 100
index TokenType.const_tau = 101
index TokenType.const_inf = 102
index TokenType.const_nan = 103
index TokenType.vcs_conflict_marker = 104
index TokenType.backtick = 105
index TokenType.question_mark = 106
index TokenType.error = 107
index TokenType.tk_eof = 108

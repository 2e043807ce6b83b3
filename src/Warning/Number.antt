-- ===== src/Warning/Number.antt =====
-- src/bs_warning.h: the number that the enumeration gives to each `Code`.
use barista_script.Common.{ℕ}
use barista_script.Warning.Code.{Code}

unfoldable pub number : Code → ℕ
number Code.unassigned_variable = 0
number Code.unassigned_variable_op_assign = 1
number Code.unused_variable = 2
number Code.unused_local_constant = 3
number Code.unused_private_class_variable = 4
number Code.unused_parameter = 5
number Code.unused_signal = 6
number Code.shadowed_variable = 7
number Code.shadowed_variable_base_class = 8
number Code.shadowed_global_identifier = 9
number Code.mixed_namespace_directory = 10
number Code.unreachable_code = 11
number Code.unreachable_pattern = 12
number Code.standalone_expression = 13
number Code.standalone_ternary = 14
number Code.incompatible_ternary = 15
number Code.untyped_declaration = 16
number Code.inferred_declaration = 17
number Code.unsafe_property_access = 18
number Code.unsafe_method_access = 19
number Code.unsafe_cast = 20
number Code.unsafe_call_argument = 21
number Code.unsafe_void_return = 22
number Code.return_value_discarded = 23
number Code.static_called_on_instance = 24
number Code.missing_tool = 25
number Code.redundant_static_unload = 26
number Code.redundant_await = 27
number Code.missing_await = 28
number Code.assert_always_true = 29
number Code.assert_always_false = 30
number Code.integer_division = 31
number Code.narrowing_conversion = 32
number Code.int_as_enum_without_cast = 33
number Code.int_as_enum_without_match = 34
number Code.enum_variable_without_default = 35
number Code.empty_file = 36
number Code.deprecated_keyword = 37
number Code.confusable_identifier = 38
number Code.confusable_local_declaration = 39
number Code.confusable_local_usage = 40
number Code.confusable_capture_reassignment = 41
number Code.inference_on_variant = 42
number Code.native_method_override = 43
number Code.get_node_default_without_onready = 44
number Code.onready_with_export = 45
number Code.non_exhaustive_match = 46
number Code.match_without_default = 47
number Code.open_enum_match_without_default = 48
number Code.warning_max = 49

-- ===== src/Warning/Code.antt =====
-- src/bs_warning.h: the enumerations of `BSWarning`, and the tables of its codes.
use Prim.Native.String.{String}
use barista_script.Common.{List, [], ◌∷◌}

pub data WarnLevel : Type 0 where
  ignore warn error : WarnLevel

pub data LevelSource : Type 0 where
  level_from_declared_default level_from_project_setting level_setting_malformed : LevelSource

pub data Code : Type 0 where
  unassigned_variable unassigned_variable_op_assign unused_variable unused_local_constant : Code
  unused_private_class_variable unused_parameter unused_signal shadowed_variable : Code
  shadowed_variable_base_class shadowed_global_identifier mixed_namespace_directory : Code
  unreachable_code unreachable_pattern standalone_expression standalone_ternary : Code
  incompatible_ternary untyped_declaration inferred_declaration unsafe_property_access : Code
  unsafe_method_access unsafe_cast unsafe_call_argument unsafe_void_return : Code
  return_value_discarded static_called_on_instance missing_tool redundant_static_unload : Code
  redundant_await missing_await assert_always_true assert_always_false integer_division : Code
  narrowing_conversion int_as_enum_without_cast int_as_enum_without_match : Code
  enum_variable_without_default empty_file deprecated_keyword confusable_identifier : Code
  confusable_local_declaration confusable_local_usage confusable_capture_reassignment : Code
  inference_on_variant native_method_override get_node_default_without_onready : Code
  onready_with_export non_exhaustive_match match_without_default : Code
  open_enum_match_without_default warning_max : Code

-- `default_warning_levels`, each level with its code.
abbrev pub default_warning_levels : List (WarnLevel × Code)
default_warning_levels =
    (WarnLevel.warn, Code.unassigned_variable)
    ∷ (WarnLevel.warn, Code.unassigned_variable_op_assign)
    ∷ (WarnLevel.warn, Code.unused_variable)
    ∷ (WarnLevel.warn, Code.unused_local_constant)
    ∷ (WarnLevel.warn, Code.unused_private_class_variable)
    ∷ (WarnLevel.warn, Code.unused_parameter)
    ∷ (WarnLevel.warn, Code.unused_signal)
    ∷ (WarnLevel.warn, Code.shadowed_variable)
    ∷ (WarnLevel.warn, Code.shadowed_variable_base_class)
    ∷ (WarnLevel.warn, Code.shadowed_global_identifier)
    ∷ (WarnLevel.warn, Code.mixed_namespace_directory)
    ∷ (WarnLevel.warn, Code.unreachable_code)
    ∷ (WarnLevel.warn, Code.unreachable_pattern)
    ∷ (WarnLevel.warn, Code.standalone_expression)
    ∷ (WarnLevel.warn, Code.standalone_ternary)
    ∷ (WarnLevel.warn, Code.incompatible_ternary)
    ∷ (WarnLevel.ignore, Code.untyped_declaration)
    ∷ (WarnLevel.ignore, Code.inferred_declaration)
    ∷ (WarnLevel.ignore, Code.unsafe_property_access)
    ∷ (WarnLevel.ignore, Code.unsafe_method_access)
    ∷ (WarnLevel.ignore, Code.unsafe_cast)
    ∷ (WarnLevel.ignore, Code.unsafe_call_argument)
    ∷ (WarnLevel.warn, Code.unsafe_void_return)
    ∷ (WarnLevel.ignore, Code.return_value_discarded)
    ∷ (WarnLevel.warn, Code.static_called_on_instance)
    ∷ (WarnLevel.warn, Code.missing_tool)
    ∷ (WarnLevel.warn, Code.redundant_static_unload)
    ∷ (WarnLevel.warn, Code.redundant_await)
    ∷ (WarnLevel.warn, Code.missing_await)
    ∷ (WarnLevel.warn, Code.assert_always_true)
    ∷ (WarnLevel.warn, Code.assert_always_false)
    ∷ (WarnLevel.warn, Code.integer_division)
    ∷ (WarnLevel.warn, Code.narrowing_conversion)
    ∷ (WarnLevel.warn, Code.int_as_enum_without_cast)
    ∷ (WarnLevel.warn, Code.int_as_enum_without_match)
    ∷ (WarnLevel.warn, Code.enum_variable_without_default)
    ∷ (WarnLevel.warn, Code.empty_file)
    ∷ (WarnLevel.warn, Code.deprecated_keyword)
    ∷ (WarnLevel.warn, Code.confusable_identifier)
    ∷ (WarnLevel.warn, Code.confusable_local_declaration)
    ∷ (WarnLevel.warn, Code.confusable_local_usage)
    ∷ (WarnLevel.warn, Code.confusable_capture_reassignment)
    ∷ (WarnLevel.error, Code.inference_on_variant)
    ∷ (WarnLevel.error, Code.native_method_override)
    ∷ (WarnLevel.error, Code.get_node_default_without_onready)
    ∷ (WarnLevel.error, Code.onready_with_export)
    ∷ (WarnLevel.warn, Code.non_exhaustive_match)
    ∷ (WarnLevel.ignore, Code.match_without_default)
    ∷ (WarnLevel.warn, Code.open_enum_match_without_default)
    ∷ []

-- The table `names` of `get_name_from_code`.
abbrev pub code_names : List String
code_names =
    "UNASSIGNED_VARIABLE" ∷ "UNASSIGNED_VARIABLE_OP_ASSIGN" ∷ "UNUSED_VARIABLE"
    ∷ "UNUSED_LOCAL_CONSTANT" ∷ "UNUSED_PRIVATE_CLASS_VARIABLE" ∷ "UNUSED_PARAMETER"
    ∷ "UNUSED_SIGNAL" ∷ "SHADOWED_VARIABLE" ∷ "SHADOWED_VARIABLE_BASE_CLASS"
    ∷ "SHADOWED_GLOBAL_IDENTIFIER" ∷ "MIXED_NAMESPACE_DIRECTORY" ∷ "UNREACHABLE_CODE"
    ∷ "UNREACHABLE_PATTERN" ∷ "STANDALONE_EXPRESSION" ∷ "STANDALONE_TERNARY"
    ∷ "INCOMPATIBLE_TERNARY" ∷ "UNTYPED_DECLARATION" ∷ "INFERRED_DECLARATION"
    ∷ "UNSAFE_PROPERTY_ACCESS" ∷ "UNSAFE_METHOD_ACCESS" ∷ "UNSAFE_CAST" ∷ "UNSAFE_CALL_ARGUMENT"
    ∷ "UNSAFE_VOID_RETURN" ∷ "RETURN_VALUE_DISCARDED" ∷ "STATIC_CALLED_ON_INSTANCE" ∷ "MISSING_TOOL"
    ∷ "REDUNDANT_STATIC_UNLOAD" ∷ "REDUNDANT_AWAIT" ∷ "MISSING_AWAIT" ∷ "ASSERT_ALWAYS_TRUE"
    ∷ "ASSERT_ALWAYS_FALSE" ∷ "INTEGER_DIVISION" ∷ "NARROWING_CONVERSION"
    ∷ "INT_AS_ENUM_WITHOUT_CAST" ∷ "INT_AS_ENUM_WITHOUT_MATCH" ∷ "ENUM_VARIABLE_WITHOUT_DEFAULT"
    ∷ "EMPTY_FILE" ∷ "DEPRECATED_KEYWORD" ∷ "CONFUSABLE_IDENTIFIER" ∷ "CONFUSABLE_LOCAL_DECLARATION"
    ∷ "CONFUSABLE_LOCAL_USAGE" ∷ "CONFUSABLE_CAPTURE_REASSIGNMENT" ∷ "INFERENCE_ON_VARIANT"
    ∷ "NATIVE_METHOD_OVERRIDE" ∷ "GET_NODE_DEFAULT_WITHOUT_ONREADY" ∷ "ONREADY_WITH_EXPORT"
    ∷ "NON_EXHAUSTIVE_MATCH" ∷ "MATCH_WITHOUT_DEFAULT" ∷ "OPEN_ENUM_MATCH_WITHOUT_DEFAULT" ∷ []

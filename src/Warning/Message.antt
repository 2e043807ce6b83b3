-- ===== src/Warning/Message.antt =====
-- src/bs_warning.cpp `BSWarning::get_message`, one clause for each `case`. `none` is a read outside
-- `symbols`.
use Prim.Native.String.{String}
use barista_script.Common.{
  ℕ, Option, none, some, List, [], ◌∷◌, length, get_elem?, ltb, if◌then◌else◌, Text, text_eq,
}
use barista_script.Token.Names.{codes}
use barista_script.Warning.Code.{Code}

-- `CHECK_SYMBOLS`
abbrev pub check_symbols : ℕ → List Text → Option Text → Option Text
check_symbols amount symbols message = if ltb (length symbols) amount then some [] else message

-- `symbols[i]` for each `i`.
unfoldable pub select : List Text → List ℕ → Option (List Text)
select symbols [] = some []
select symbols (i ∷ is) =
    let rest = select symbols is in
    elim (get_elem? symbols i) [
      | none ↦ none
      | some symbol ↦ elim rest [ none ↦ none | some others ↦ some (symbol ∷ others) ]
    ]

-- `vformat`, which godot-cpp has, is a parameter.
module _ (vformat : Text → List Text → Text) where
  unfoldable pub format : String → List ℕ → List Text → Option Text
  format text is symbols = elim (select symbols is) [
    | none ↦ none
    | some arguments ↦ some (vformat (codes text) arguments)
  ]

  -- The message where `symbols[i]` is a given text, and where it is not.
  unfoldable pub choose : List Text → ℕ → Text → Option Text → Option Text → Option Text
  choose symbols i text same other = elim (get_elem? symbols i) [
    | none ↦ none
    | some symbol ↦ if text_eq symbol text then same else other
  ]

  unfoldable pub get_message : Code → List Text → Option Text
  get_message Code.unassigned_variable s =
      check_symbols 1 s
        (format "The variable \"%s\" is used before being assigned a value." (0 ∷ []) s)
  get_message Code.unassigned_variable_op_assign s = check_symbols 2 s (
      format
        "The variable \"%s\" is modified with the compound-assignment operator \"%s=\" but was not previously initialized."
        (0 ∷ 1 ∷ []) s)
  get_message Code.unused_variable s = check_symbols 1 s (
      format
        "The local variable \"%s\" is declared but never used in the block. If this is intended, prefix it with an underscore: \"_%s\"."
        (0 ∷ 0 ∷ []) s)
  get_message Code.unused_local_constant s = check_symbols 1 s (
      format
        "The local constant \"%s\" is declared but never used in the block. If this is intended, prefix it with an underscore: \"_%s\"."
        (0 ∷ 0 ∷ []) s)
  get_message Code.unused_private_class_variable s =
      check_symbols 1 s
        (format "The class variable \"%s\" is declared but never used in the class." (0 ∷ []) s)
  get_message Code.unused_parameter s = check_symbols 2 s (
      format
        "The parameter \"%s\" is never used in the function \"%s()\". If this is intended, prefix it with an underscore: \"_%s\"."
        (1 ∷ 0 ∷ 1 ∷ []) s)
  get_message Code.unused_signal s =
      check_symbols 1 s
        (format "The signal \"%s\" is declared but never explicitly used in the class." (0 ∷ []) s)
  get_message Code.shadowed_variable s = check_symbols 4 s (
      format
        "The local %s \"%s\" is shadowing an already-declared %s at line %s in the current class."
        (0 ∷ 1 ∷ 2 ∷ 3 ∷ []) s)
  get_message Code.shadowed_variable_base_class s = check_symbols 4 s (
      if ltb 4 (length s)
      then format
          "The local %s \"%s\" is shadowing an already-declared %s at line %s in the base class \"%s\"."
          (0 ∷ 1 ∷ 2 ∷ 3 ∷ 4 ∷ []) s
      else format
          "The local %s \"%s\" is shadowing an already-declared %s in the base class \"%s\"."
          (0 ∷ 1 ∷ 2 ∷ 3 ∷ []) s)
  get_message Code.shadowed_global_identifier s =
      check_symbols 3 s (format "The %s \"%s\" has the same name as a %s." (0 ∷ 1 ∷ 2 ∷ []) s)
  get_message Code.mixed_namespace_directory s = check_symbols 2 s (
      format "Directory \"%s\" contains global script classes from mixed namespaces: %s."
        (0 ∷ 1 ∷ []) s)
  get_message Code.unreachable_code s =
      check_symbols 1 s
        (format "Unreachable code (statement after return) in function \"%s()\"." (0 ∷ []) s)
  get_message Code.unreachable_pattern s =
      some (codes "Unreachable pattern (pattern after wildcard or bind).")
  get_message Code.standalone_expression s =
      some (codes "Standalone expression (the line may have no effect).")
  get_message Code.standalone_ternary s =
      some (codes "Standalone ternary operator (the return value is being discarded).")
  get_message Code.incompatible_ternary s =
      some (codes "Values of the ternary operator are not mutually compatible.")
  get_message Code.untyped_declaration s = check_symbols 2 s (
      choose s 0 (codes "Function") (format "%s \"%s()\" has no static return type." (0 ∷ 1 ∷ []) s)
        (format "%s \"%s\" has no static type." (0 ∷ 1 ∷ []) s))
  get_message Code.inferred_declaration s =
      check_symbols 2 s (format "%s \"%s\" has an implicitly inferred static type." (0 ∷ 1 ∷ []) s)
  get_message Code.unsafe_property_access s = check_symbols 2 s (
      format
        "The property \"%s\" is not present on the inferred type \"%s\" (but may be present on a subtype)."
        (0 ∷ 1 ∷ []) s)
  get_message Code.unsafe_method_access s = check_symbols 2 s (
      format
        "The method \"%s()\" is not present on the inferred type \"%s\" (but may be present on a subtype)."
        (0 ∷ 1 ∷ []) s)
  get_message Code.unsafe_cast s =
      check_symbols 1 s (format "Casting \"Variant\" to \"%s\" is unsafe." (0 ∷ []) s)
  get_message Code.unsafe_call_argument s = check_symbols 5 s (
      format
        "The argument %s of the %s \"%s()\" requires the subtype \"%s\" but the supertype \"%s\" was provided."
        (0 ∷ 1 ∷ 2 ∷ 3 ∷ 4 ∷ []) s)
  get_message Code.unsafe_void_return s = check_symbols 2 s (
      format
        "The method \"%s()\" returns \"void\" but it's trying to return a call to \"%s()\" that can't be ensured to also be \"void\"."
        (0 ∷ 1 ∷ []) s)
  get_message Code.return_value_discarded s = check_symbols 1 s (
      format "The function \"%s()\" returns a value that will be discarded if not used." (0 ∷ []) s)
  get_message Code.static_called_on_instance s = check_symbols 2 s (
      format
        "The function \"%s()\" is a static function but was called from an instance. Instead, it should be directly called from the type: \"%s.%s()\"."
        (0 ∷ 1 ∷ 0 ∷ []) s)
  get_message Code.missing_tool s = some (
      codes "The base class script has the \"@tool\" annotation, but this script does not have it.")
  get_message Code.redundant_static_unload s = some (
      codes
        "The \"@static_unload\" annotation is redundant because the file does not have a class with static variables.")
  get_message Code.redundant_await s = some (
      codes
        "\"await\" keyword is unnecessary because the expression isn't a coroutine nor a signal.")
  get_message Code.missing_await s = check_symbols 1 s (
      format
        "The call returns a \"%s\" whose result is discarded. Use \"await\", or store or pass the handle if it is awaited elsewhere."
        (0 ∷ []) s)
  get_message Code.assert_always_true s =
      some (codes "Assert statement is redundant because the expression is always true.")
  get_message Code.assert_always_false s =
      some (codes "Assert statement will raise an error because the expression is always false.")
  get_message Code.integer_division s =
      some (codes "Integer division. Decimal part will be discarded.")
  get_message Code.narrowing_conversion s =
      some (codes "Narrowing conversion (float is converted to int and loses precision).")
  get_message Code.int_as_enum_without_cast s = some (
      codes
        "Integer used when an enum value is expected. If this is intended, cast the integer to the enum type using the \"as\" keyword.")
  get_message Code.int_as_enum_without_match s =
      check_symbols 3 s (
        format "Cannot %s %s as Enum \"%s\": no enum member has matching value." (0 ∷ 1 ∷ 2 ∷ []) s)
  get_message Code.enum_variable_without_default s = check_symbols 1 s (
      format
        "The variable \"%s\" has an enum type and does not set an explicit default value. The default will be set to \"0\"."
        (0 ∷ []) s)
  get_message Code.empty_file s = some (codes "Empty script file.")
  get_message Code.deprecated_keyword s = check_symbols 2 s (
      format
        "The \"%s\" keyword is deprecated and will be removed in a future release. Please replace it with \"%s\"."
        (0 ∷ 1 ∷ []) s)
  get_message Code.confusable_identifier s = check_symbols 1 s (
      format
        "The identifier \"%s\" has misleading characters and might be confused with something else."
        (0 ∷ []) s)
  get_message Code.confusable_local_declaration s =
      check_symbols 2 s
        (format "The %s \"%s\" is declared below in the parent block." (0 ∷ 1 ∷ []) s)
  get_message Code.confusable_local_usage s =
      check_symbols 1 s
        (format "The identifier \"%s\" will be shadowed below in the block." (0 ∷ []) s)
  get_message Code.confusable_capture_reassignment s = check_symbols 1 s (
      format "Reassigning lambda capture does not modify the outer local variable \"%s\"." (0 ∷ [])
        s)
  get_message Code.inference_on_variant s = check_symbols 1 s (
      format "The %s type is being inferred from a Variant value, so it will be typed as Variant."
        (0 ∷ []) s)
  get_message Code.native_method_override s = check_symbols 2 s (
      format
        "The method \"%s()\" overrides a method from native class \"%s\". This won't be called by the engine and may not work as expected."
        (0 ∷ 1 ∷ []) s)
  get_message Code.get_node_default_without_onready s = check_symbols 1 s (
      format
        "The default value uses \"%s\" which won't return nodes in the scene tree before \"_ready()\" is called. Use the \"@onready\" annotation to solve this."
        (0 ∷ []) s)
  get_message Code.onready_with_export s = some (
      codes
        "\"@onready\" will set the default value after \"@export\" takes effect and will override it.")
  get_message Code.non_exhaustive_match s = check_symbols 2 s (
      format
        "The \"match\" statement does not cover all values of \"%s\". Unhandled: %s. Add the missing patterns or a \"_\" wildcard branch."
        (0 ∷ 1 ∷ []) s)
  get_message Code.match_without_default s =
      some (
        codes "The \"match\" statement has no \"_\" wildcard branch; some values may go unhandled.")
  get_message Code.open_enum_match_without_default s = check_symbols 2 s (
      choose s 1 []
        (format
          "The \"match\" over \"%s\" has no unguarded \"_\" or bind branch. \"%s\" is carried by an integer that can also hold values outside its declared members, so no set of value patterns closes it."
          (0 ∷ 0 ∷ []) s)
        (format
          "The \"match\" over \"%s\" does not handle: %s. \"%s\" is also carried by an integer that can hold values outside its declared members, so add an unguarded \"_\" or bind branch rather than the missing patterns alone."
          (0 ∷ 1 ∷ 0 ∷ []) s))
  get_message Code.warning_max s = some []

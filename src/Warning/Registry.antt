-- ===== src/Warning/Registry.antt =====
-- src/bs_warning.cpp: the names and the levels of the codes.
use barista_script.Common.{
  ℕ, Option, none, some, not, List, [], ◌∷◌, ◌++◌, map, get_elem?, ◌==◌, if◌then◌else◌, ◌||◌, Text,
  text_eq,
}
use barista_script.Common.Int.{ℤ, pos, pos_part, ltb_ℤ}
use barista_script.Token.Names.{codes}
use barista_script.Host.{Host}
use barista_script.Warning.Code.{Code, WarnLevel, LevelSource, default_warning_levels, code_names}
use barista_script.Warning.Number.{number}

unfoldable pub get_name_from_code : Code → Text
get_name_from_code c = elim (get_elem? code_names (number c)) [ none ↦ [] | some name ↦ codes name ]

-- The loop of `get_code_from_name`, over the codes in the order of their numbers.
unfoldable pub find_code : Text → List Code → Code
find_code name [] = Code.warning_max
find_code name (c ∷ rest) =
    let found = find_code name rest in if text_eq (get_name_from_code c) name then c else found

unfoldable pub get_code_from_name : Text → Code
get_code_from_name name = find_code name (map (λ row. row.1) default_warning_levels)

-- `String::to_lower` is a parameter.
unfoldable pub get_setting_path_from_code : (Text → Text) → Code → Text
get_setting_path_from_code to_lower c =
    codes "debug/barista_script/warnings/" ++ to_lower (get_name_from_code c)

unfoldable pub default_level : Code → Option WarnLevel
default_level c = elim (get_elem? default_warning_levels (number c)) [
  | none ↦ none
  | some row ↦ some row.0
]

-- `(int)level`, and the cast back.
abbrev pub level_number : WarnLevel → ℕ
level_number WarnLevel.ignore = 0
level_number WarnLevel.warn = 1
level_number WarnLevel.error = 2

abbrev pub to_level : ℕ → WarnLevel
to_level n = if n == 0 then WarnLevel.ignore else if n == 1 then WarnLevel.warn else WarnLevel.error

-- A wrong code is reported and read as `IGNORE`.
unfoldable pub get_default_value : Code → ℕ
get_default_value c = elim (default_level c) [ none ↦ 0 | some level ↦ level_number level ]

-- What the engine calls `Variant::NIL` and `Variant::INT`.
abbrev pub type_nil : ℕ
type_nil = 0

abbrev pub type_int : ℕ
type_int = 2

-- The setting as the code reads it: its type, and its value as an `int64_t`.
module _ (host : Host) (to_int : host.Variant → ℤ) where
  -- The source of the level, and `r_level` after the call.
  unfoldable pub resolve_level : Code → host.Variant → WarnLevel → LevelSource × WarnLevel
  resolve_level c setting r_level = elim (default_level c) [
    | none ↦ (LevelSource.level_setting_malformed, r_level)
    | some default ↦
        let level = to_int setting in
        if host.get_type setting == type_nil
        then (LevelSource.level_from_declared_default, default)
        else if not (host.get_type setting == type_int)
        then (LevelSource.level_setting_malformed, r_level)
        else if ltb_ℤ level (pos 0) || ltb_ℤ (pos 2) level
        then (LevelSource.level_setting_malformed, r_level)
        else (LevelSource.level_from_project_setting, to_level (pos_part level))
  ]

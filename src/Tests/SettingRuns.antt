-- ===== src/Tests/SettingRuns.antt =====
-- Project settings as a function from names to numbers, and a warning that they do not configure.
use barista_script.Common.{
  ℕ, ◌<◌, ◌⊎◌, arith, ◌≡◌, refl, Bool, true, false, Option, none, some, [], ◌∷◌, Text, text_eq,
  if◌then◌else◌,
}
use barista_script.Warning.Code.{Code, WarnLevel}
use barista_script.Warning.Number.{number}
use barista_script.Warning.Registry.{default_level, get_setting_path_from_code}
use barista_script.Warning.Settings.{
  Settings, Reported, resolve_level_from_project_settings,
  resolve_level_from_project_settings-Reported,
}
use barista_script.Tests.Engine.{engine, value_of}

abbrev is_some : Option ℕ → Bool
is_some none = false
is_some (some n) = true

abbrev as_variant : Option ℕ → Text
as_variant none = []
as_variant (some n) = 2 ∷ n ∷ []

abbrev table : Settings Text
table = record {
  Store = Text → Option ℕ;
  has_setting = λ s p. is_some (s p);
  declare = λ s p n. λ q. if text_eq p q then some n else s q;
  get_setting_with_override = λ s p. as_variant (s p);
}

-- Another setting of the same warning, for one platform, which shows once the base is declared.
abbrev overridden : Settings Text
overridden = record table {
  get_setting_with_override = λ s p. if is_some (s p) then 2 ∷ 1 ∷ [] else [];
}

abbrev no_settings : Text → Option ℕ
no_settings p = none

abbrev unchanged : Text → Text
unchanged t = t

small_number : number Code.native_method_override < 49
unfolding number
small_number = omega arith

default_run : default_level Code.native_method_override ≡ some WarnLevel.error
unfolding default_level number
default_run = refl

resolve_level_from_project_settings-Reported_example :
    let path = get_setting_path_from_code unchanged Code.native_method_override in
    (s' : Text → Option ℕ) × ((resolve_level_from_project_settings engine value_of unchanged
        overridden Code.native_method_override
        (some no_settings)
        WarnLevel.ignore).1
      ≡ some s')
    × (((overridden.has_setting no_settings path ≡ true) × (s' ≡ no_settings))
        ⊎ ((overridden.has_setting no_settings path ≡ false)
            × (s' ≡ overridden.declare no_settings path 2)))
    × Reported engine value_of unchanged overridden WarnLevel.error WarnLevel.ignore
        (overridden.get_setting_with_override s' path)
        (resolve_level_from_project_settings engine value_of unchanged overridden
          Code.native_method_override
          (some no_settings)
          WarnLevel.ignore).0
resolve_level_from_project_settings-Reported_example =
    resolve_level_from_project_settings-Reported engine value_of unchanged overridden
      Code.native_method_override no_settings WarnLevel.error WarnLevel.ignore small_number
      default_run

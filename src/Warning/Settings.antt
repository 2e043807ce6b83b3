-- ===== src/Warning/Settings.antt =====
-- src/bs_warning.cpp `resolve_level_from_project_settings`: a level read from the live settings.
use mathlib.Core.Option.{some-injective}
use barista_script.Common.{
  ℕ, ◌<◌, ◌≡◌, ◌≢◌, refl, sym, ap, ◌∙◌, Bool, true, false, Option, none, some, Text, ◌==◌, ==_iff,
  if◌then◌else◌, inl, inr, Bool-cases, arith, ◌⊎◌,
}
use barista_script.Common.Int.{ℤ, pos}
use barista_script.Host.{Host}
use barista_script.Warning.Code.{Code, WarnLevel, LevelSource}
use barista_script.Warning.Number.{number}
use barista_script.Warning.Levels.{Resolved, absent, given, malformed, resolve_level-Resolved}
use barista_script.Warning.Registry.{
  default_level, resolve_level, level_number, type_int, type_nil, get_setting_path_from_code,
}

-- The engine's project settings as far as the function calls them. `declare` stands for
-- `set_setting`, `set_initial_value`, `set_as_basic` and `add_property_info` of one setting.
pub record Settings (Variant : Type 0) : Type 1 where
  pub Store : Type 0
  pub has_setting : Store → Text → Bool
  pub declare : Store → Text → ℕ → Store
  pub get_setting_with_override : Store → Text → Variant

module _ (host : Host) (to_int : host.Variant → ℤ) (to_lower : Text → Text)
    (settings : Settings host.Variant) where
  open settings use {Store}

  -- "Declare the base setting".
  abbrev pub declared : Code → WarnLevel → Store → Store
  declared c default store =
      let path = get_setting_path_from_code to_lower c in
      if settings.has_setting store path
      then store
      else settings.declare store path (level_number default)

  -- Whether a level was the declared default: the source that is reported.
  abbrev pub report : WarnLevel → LevelSource × WarnLevel → LevelSource × WarnLevel
  report default (LevelSource.level_setting_malformed, level) =
      (LevelSource.level_setting_malformed, level)
  report default (_, level) =
      if level_number level == level_number default
      then (LevelSource.level_from_declared_default, level)
      else (LevelSource.level_from_project_setting, level)

  -- The source, `r_level` and the settings after the call, which there may be none of.
  unfoldable pub resolve_level_from_project_settings :
      Code → Option Store → WarnLevel → (LevelSource × WarnLevel) × Option Store
  resolve_level_from_project_settings c store r_level = elim (default_level c) [
    | none ↦ ((LevelSource.level_setting_malformed, r_level), store)
    | some default ↦ elim store [
      | none ↦ ((LevelSource.level_from_declared_default, default), none)
      | some s ↦
          let s' = declared c default s in
          (
            report default (
                resolve_level host to_int c
                  (settings.get_setting_with_override s' (get_setting_path_from_code to_lower c))
                  r_level),
            some s',
          )
    ]
  ]

  -- What a call may report of the value that is visible once the setting is declared, for the declared
  -- default and the level that the caller had.
  pub data Reported (default kept : WarnLevel) (value : host.Variant)
      : LevelSource × WarnLevel → Type 0 where
    is_default :
        host.get_type value ≡ type_int
        → to_int value ≡ pos (level_number default)
        → Reported default kept value (LevelSource.level_from_declared_default, default)
    is_configured :
        {l : WarnLevel}
        → host.get_type value ≡ type_int
        → to_int value ≡ pos (level_number l)
        → level_number l ≢ level_number default
        → Reported default kept value (LevelSource.level_from_project_setting, l)
    is_absent :
        host.get_type value ≡ type_nil
        → Reported default kept value (LevelSource.level_from_declared_default, default)
    is_malformed :
        host.get_type value ≢ type_nil
        → (host.get_type value ≡ type_int → (l : WarnLevel) → to_int value ≢ pos (level_number l))
        → Reported default kept value (LevelSource.level_setting_malformed, kept)

  report_equal :
      (d l : WarnLevel)
      → level_number l ≡ level_number d
      → report d (LevelSource.level_from_project_setting, l)
        ≡ (LevelSource.level_from_declared_default, d)
  report_equal WarnLevel.ignore WarnLevel.ignore e = refl
  report_equal WarnLevel.warn WarnLevel.warn e = refl
  report_equal WarnLevel.error WarnLevel.error e = refl
  report_equal WarnLevel.ignore _ e = absurd (ground arith)
  report_equal WarnLevel.warn _ e = absurd (ground arith)
  report_equal WarnLevel.error _ e = absurd (ground arith)

  report_same :
      (d : WarnLevel)
      → report d (LevelSource.level_from_declared_default, d)
        ≡ (LevelSource.level_from_declared_default, d)
  report_same WarnLevel.ignore = refl
  report_same WarnLevel.warn = refl
  report_same WarnLevel.error = refl

  report-Reported :
      (c : Code) (d kept : WarnLevel) (value : host.Variant) (source : LevelSource) (l : WarnLevel)
      → default_level c ≡ some d
      → Resolved host to_int c value kept source l
      → Reported d kept value (report d (source, l))
  report-Reported c d kept value _ _ e (absent t f) =
      rw (some-injective _ _ (sym f ∙ e), report_same d) (is_absent t)
  report-Reported c d kept value _ l e (given t n) =
      elim (Bool-cases (level_number l == level_number d)) [
        | inl same ↦
            let eq : level_number l ≡ level_number d = (==_iff _ _).0 same in
            rw (report_equal d l eq) (is_default t (n ∙ ap pos eq))
        | inr other ↦ rw other (is_configured t n (λ eq. ground (arith, eq, other)))
      ]
  report-Reported c d kept value _ _ e (malformed t n) = is_malformed t n

  -- For a warning of the table and settings that exist, the call declares the warning's setting with its
  -- declared default if the project has none of its name, and changes no settings otherwise. It then
  -- reports the value that is visible under that name, which an override for the platform may give: an
  -- integer that is a level is the level, reported as the declared default if it equals that and as
  -- configured if not; an absent value is the declared default; every other is malformed, and leaves
  -- `r_level` as it was.
  pub resolve_level_from_project_settings-Reported :
      (c : Code) (s : Store) (d r_level : WarnLevel)
      → number c < 49
      → default_level c ≡ some d
      → let path = get_setting_path_from_code to_lower c in
        (s' : Store) × ((resolve_level_from_project_settings c (some s) r_level).1 ≡ some s')
        × (((settings.has_setting s path ≡ true) × (s' ≡ s))
            ⊎ ((settings.has_setting s path ≡ false)
                × (s' ≡ settings.declare s path (level_number d))))
        × Reported d r_level
            (settings.get_setting_with_override s' path)
            (resolve_level_from_project_settings c (some s) r_level).0
  unfolding resolve_level_from_project_settings
  resolve_level_from_project_settings-Reported c s d r_level h e =
      let path = get_setting_path_from_code to_lower c in
      let s' = declared c d s in
      let value = settings.get_setting_with_override s' path in
      (
        s',
        rw (e, resolve_level_from_project_settings) refl,
        elim (Bool-cases (settings.has_setting s path)) [
          | inl there ↦ inl (there, rw (there) refl)
          | inr missing ↦ inr (missing, rw (missing) refl)
        ],
        rw (e, resolve_level_from_project_settings)
            (report-Reported c d r_level value _ _ e
              (resolve_level-Resolved host to_int c value r_level h)),
      )

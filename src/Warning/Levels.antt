-- ===== src/Warning/Levels.antt =====
-- `resolve_level`: the level that a setting gives, and what it refuses.
use barista_script.Common.{
  ◌<◌, ◌≡◌, ◌≢◌, refl, false, some, arith, Bool-cases, inl, inr, ◌==◌, ◌||◌,
}
use barista_script.Common.Int.{ℤ, pos, ltb_ℤ, pos_part}
use barista_script.Host.{Host}
use barista_script.Warning.Code.{Code, WarnLevel, LevelSource}
use barista_script.Warning.Number.{number}
use barista_script.Warning.Registry.{
  default_level, resolve_level, level_number, type_int, type_nil, to_level,
}

level_of : (c : Code) → number c < 49 → (d : WarnLevel) × (default_level c ≡ some d)
unfolding default_level number
level_of Code.warning_max h = absurd (omega arith)
level_of _ h = (_, refl)

module _ (host : Host) (to_int : host.Variant → ℤ) where
  -- What a call may do: for an absent setting the declared default, for an integer that is a level
  -- that level, and for all else no level.
  pub data Resolved (c : Code) (setting : host.Variant) (level : WarnLevel)
      : LevelSource → WarnLevel → Type 0 where
    absent :
        {d : WarnLevel}
        → host.get_type setting ≡ type_nil
        → default_level c ≡ some d
        → Resolved c setting level LevelSource.level_from_declared_default d
    given :
        {l : WarnLevel}
        → host.get_type setting ≡ type_int
        → to_int setting ≡ pos (level_number l)
        → Resolved c setting level LevelSource.level_from_project_setting l
    malformed :
        host.get_type setting ≢ type_nil
        → (host.get_type setting ≡ type_int
            → (l : WarnLevel) → to_int setting ≢ pos (level_number l))
        → Resolved c setting level LevelSource.level_setting_malformed level

  level_number-to_level :
      (z : ℤ)
      → ltb_ℤ z (pos 0) ≡ false
      → ltb_ℤ (pos 2) z ≡ false
      → z ≡ pos (level_number (to_level (pos_part z)))
  level_number-to_level z h k = ground arith

  level_in_range :
      (l : WarnLevel)
      → ltb_ℤ (pos (level_number l)) (pos 0) || ltb_ℤ (pos 2) (pos (level_number l)) ≡ false
  level_in_range WarnLevel.ignore = refl
  level_in_range WarnLevel.warn = refl
  level_in_range WarnLevel.error = refl

  -- `resolve_level` on a code of the table: an absent setting gives the declared default, an integer
  -- that is the number of a level gives that level, and every other setting is malformed and leaves
  -- `r_level` as it was.
  pub resolve_level-Resolved :
      (c : Code) (setting : host.Variant) (level : WarnLevel)
      → number c < 49
      → let r = resolve_level host to_int c setting level in Resolved c setting level r.0 r.1
  unfolding resolve_level
  resolve_level-Resolved c setting level h =
      let (d, e) = level_of c h in
      let out = ltb_ℤ (to_int setting) (pos 0) || ltb_ℤ (pos 2) (to_int setting) in
      elim (Bool-cases (host.get_type setting == type_nil)) [
        | inl n ↦ rw (e, resolve_level) (rw (n) (absent (ground arith) e))
        | inr n ↦ elim (Bool-cases (host.get_type setting == type_int)) [
          | inr i ↦
              rw (e, resolve_level)
                (rw (n, i) (malformed (ground arith) (λ t. absurd (ground arith))))
          | inl i ↦ elim (Bool-cases out) [
            | inl o ↦
                rw (e, resolve_level)
                  (rw (n, i, o)
                    (malformed (ground arith) (λ t l z.
                      let p : out ≡ false = rw (z) (level_in_range l) in ground (arith, p, o))))
            | inr o ↦
                rw (e, resolve_level)
                  (rw (n, i, o)
                    (given (ground arith) (level_number-to_level _ (ground arith) (ground arith))))
          ]
        ]
      ]

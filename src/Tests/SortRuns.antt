-- ===== src/Tests/SortRuns.antt =====
-- A sorted list of two warnings.
use mathlib.Core.Bool.{Bool-set}
use mathlib.Core.List.{eq-or-mem_of_mem-cons, not-mem-nil}
use mathlib.Core.List.Perm.{rfl}
use mathlib.Core.Logic.{∥∥₁_elim}
use barista_script.Common.{◌≡◌, refl, false, List, [], ◌∷◌, inl, inr, text_eq}
use barista_script.Warning.Number.{number}
use barista_script.Warning.Position.{Warning}
use barista_script.Warning.Order.{compare, compare_symbols}
use barista_script.Warning.Sorted.{warning_less, IsSorted, sorted_unique}
use barista_script.Tests.WarningRuns.{unused, empty_file, before, before-IsKey}

abbrev both : List Warning
both = empty_file ∷ unused ∷ []

unused-not_less : warning_less before unused empty_file ≡ false
unfolding compare compare_symbols number text_eq before
unused-not_less = refl

both-IsSorted : IsSorted before both
both-IsSorted = (
  λ y m.
      ∥∥₁_elim (eq-or-mem_of_mem-cons m) (Bool-set _ _)
        (λ o. elim o [ inl e ↦ rw (e) unused-not_less | inr n ↦ absurd (not-mem-nil n) ]),
  (λ y m. absurd (not-mem-nil m), tt),
)

sorted_unique_example : both ≡ both
sorted_unique_example = sorted_unique before before-IsKey both both both-IsSorted both-IsSorted rfl

-- ===== src/Warning/Position.antt =====
-- src/bs_warning.cpp: a warning's position in the source, and its form for the engine.
use barista_script.Common.{
  ℕ, ◌+◌, ◌-◌, Bool, true, false, ◌||◌, ◌&&◌, not, Option, none, some, List, [], ◌∷◌, map, length,
  get_elem?, ltb, ◌==◌, if◌then◌else◌, Text,
}
use barista_script.Common.Int.{ℤ, pos, pos_part, ltb_ℤ}
use barista_script.Warning.Code.{Code}
use barista_script.Warning.Number.{number}
use barista_script.Warning.Registry.{get_name_from_code}
use barista_script.Warning.Message.{get_message}

pub record Warning : Type 0 where
  pub code : Code
  pub start_line : ℤ
  pub start_column : ℤ
  pub end_line : ℤ
  pub end_column : ℤ
  pub symbols : List Text

-- `line.ends_with("\r")` and the cut.
unfoldable pub strip_return : Text → Text
strip_return [] = []
strip_return (c ∷ []) = if c == 13 then [] else c ∷ []
strip_return (c ∷ d ∷ rest) = c ∷ strip_return (d ∷ rest)

-- `split` is `String::split("\n")`.
unfoldable pub line_lengths_of : (Text → List Text) → Text → List ℕ
line_lengths_of split source = elim (map (λ line. length (strip_return line)) (split source)) [
  | [] ↦ 0 ∷ []
  | n ∷ ns ↦ n ∷ ns
]

-- `column < 1 || column > p_line_lengths[line - 1] + 1`; `none` is a read out of range.
unfoldable pub column_outside : List ℕ → ℤ → ℤ → Option Bool
column_outside lengths line column =
    if ltb_ℤ column (pos 1) then some true else elim (get_elem? lengths (pos_part line - 1)) [
      | none ↦ none
      | some n ↦ some (ltb_ℤ (pos (n + 1)) column)
    ]

abbrev pub refuse_if : Option Bool → Option Bool → Option Bool
refuse_if none next = none
refuse_if (some true) next = some false
refuse_if (some false) next = next

abbrev pub equal_ℤ : ℤ → ℤ → Bool
equal_ℤ a b = not (ltb_ℤ a b) && not (ltb_ℤ b a)

unfoldable pub has_valid_position : Warning → List ℕ → Option Bool
has_valid_position w lengths =
    let line_count = pos (length lengths) in
    if ltb_ℤ line_count (pos 1)
    then some false
    else if not (ltb (number w.code) 49)
    then some false
    else if ltb_ℤ w.start_line (pos 1) || ltb_ℤ line_count w.start_line
    then some false
    else if ltb_ℤ w.end_line w.start_line || ltb_ℤ line_count w.end_line
    then some false
    else refuse_if (column_outside lengths w.start_line w.start_column) (
        refuse_if (column_outside lengths w.end_line w.end_column) (
          if equal_ℤ w.end_line w.start_line && ltb_ℤ w.end_column w.start_column
          then some false
          else some true))

-- The five entries of the dictionary.
pub record ValidateEntry : Type 0 where
  pub start_line : ℤ
  pub end_line : ℤ
  pub code : ℕ
  pub string_code : Text
  pub message : Option Text

-- `none` is the empty dictionary.
unfoldable pub to_validate_dictionary :
    (Text → List Text → Text) → Warning → List ℕ → Option ValidateEntry
to_validate_dictionary vformat w lengths = elim (has_valid_position w lengths) [
  | some true ↦ some (record {
    start_line = w.start_line;
    end_line = w.end_line;
    code = number w.code;
    string_code = get_name_from_code w.code;
    message = get_message vformat w.code w.symbols;
  })
  | _ ↦ none
]

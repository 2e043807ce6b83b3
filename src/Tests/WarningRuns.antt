-- ===== src/Tests/WarningRuns.antt =====
-- Warnings at concrete inputs.
use Prim.Native.Nat.{Ordering}
use barista_script.Common.{
  ◌≡◌, ◌⊎◌, refl, ◌<◌, Bool, true, false, not, some, List, [], ◌∷◌, Text, text_eq, text_eq_iff, ltb,
  ◌==◌, arith, if◌then◌else◌,
}
use barista_script.Common.Int.{pos}
use barista_script.Token.Names.{codes}
use barista_script.Warning.Code.{Code, WarnLevel}
use barista_script.Warning.Number.{number}
use barista_script.Warning.Registry.{get_name_from_code, get_code_from_name, resolve_level}
use barista_script.Warning.Position.{Warning, has_valid_position, column_outside}
use barista_script.Warning.Message.{get_message, format, select}
use barista_script.Warning.Order.{
  compare, compare_symbols, IsKey, IsCompare, compare-IsCompare, compare_same,
}
use barista_script.Warning.Span.{IsSpan, has_valid_position-IsSpan}
use barista_script.Warning.Total.{get_code_from_name-get_name_from_code, get_message-Given}
use barista_script.Warning.Levels.{Resolved, resolve_level-Resolved}
use barista_script.Tests.Engine.{engine, value_of}

abbrev pub unused : Warning
unused = record {
  code = Code.unused_variable;
  start_line = pos 2;
  start_column = pos 5;
  end_line = pos 2;
  end_column = pos 9;
  symbols = codes "count" ∷ [];
}

abbrev pub empty_file : Warning
empty_file = record {
  code = Code.empty_file;
  start_line = pos 1;
  start_column = pos 1;
  end_line = pos 1;
  end_column = pos 1;
  symbols = [];
}

-- Texts in the order of their code points.
unfoldable pub before : Text → Text → Bool
before [] [] = false
before [] (y ∷ ys) = true
before (x ∷ xs) [] = false
before (x ∷ xs) (y ∷ ys) = let rest = before xs ys in if x == y then rest else ltb x y

abbrev append_format : Text → List Text → Text
append_format t [] = t
append_format t (x ∷ xs) = x

message_run :
    get_message append_format Code.unused_variable (codes "count" ∷ []) ≡ some (codes "count")
unfolding get_message format select
message_run = refl

short_message_run : get_message append_format Code.unused_parameter (codes "count" ∷ []) ≡ some []
unfolding get_message format select
short_message_run = refl

compare_run : compare before empty_file unused ≡ Ordering.lt
unfolding compare compare_symbols before number text_eq
compare_run = refl

position_run : has_valid_position unused (8 ∷ 7 ∷ []) ≡ some false
unfolding has_valid_position number column_outside
position_run = refl

get_code_from_name-get_name_from_code_example :
    get_code_from_name (get_name_from_code Code.empty_file) ≡ Code.empty_file
get_code_from_name-get_name_from_code_example =
    get_code_from_name-get_name_from_code Code.empty_file

get_message-Given_example :
    (m : Text) × (get_message append_format Code.unused_variable (codes "count" ∷ []) ≡ some m)
get_message-Given_example =
    get_message-Given append_format Code.unused_variable (codes "count" ∷ [])

has_valid_position-IsSpan_example :
    (IsSpan unused (8 ∷ 12 ∷ []) × (has_valid_position unused (8 ∷ 12 ∷ []) ≡ some true))
    ⊎ ((¬ IsSpan unused (8 ∷ 12 ∷ [])) × (has_valid_position unused (8 ∷ 12 ∷ []) ≡ some false))
has_valid_position-IsSpan_example = has_valid_position-IsSpan unused (8 ∷ 12 ∷ [])

in_table : number Code.empty_file < 49
unfolding number
in_table = omega arith

resolve_level-Resolved_example :
    let r = resolve_level engine value_of Code.empty_file (2 ∷ 2 ∷ []) WarnLevel.ignore in
    Resolved engine value_of Code.empty_file (2 ∷ 2 ∷ []) WarnLevel.ignore r.0 r.1
resolve_level-Resolved_example =
    resolve_level-Resolved engine value_of Code.empty_file (2 ∷ 2 ∷ []) WarnLevel.ignore in_table

before_total : (a b : Text) → text_eq a b ≡ false → before b a ≡ not (before a b)
unfolding before text_eq
before_total [] [] h = ground arith
before_total [] (y ∷ b) h = refl
before_total (x ∷ a) [] h = refl
before_total (x ∷ a) (y ∷ b) h = ground (arith, before_total a b)

before_trans : (a b c : Text) → before a b ≡ true → before b c ≡ true → before a c ≡ true
unfolding before
before_trans a [] [] h k = ground arith
before_trans [] [] (z ∷ c) h k = refl
before_trans [] (y ∷ b) (z ∷ c) h k = refl
before_trans (x ∷ a) [] (z ∷ c) h k = ground arith
before_trans a (y ∷ b) [] h k = ground arith
before_trans (x ∷ a) (y ∷ b) (z ∷ c) h k = ground (arith, before_trans a b c)

before_irreflexive : (a : Text) → before a a ≡ false
unfolding before
before_irreflexive [] = refl
before_irreflexive (x ∷ a) = ground (arith, before_irreflexive a)

pub before-IsKey : IsKey text_eq before
before-IsKey = record {
  same_iff = text_eq_iff;
  total = before_total;
  trans = before_trans;
  irreflexive = before_irreflexive;
}

compare-IsCompare_example : IsCompare (compare before)
compare-IsCompare_example = compare-IsCompare before before-IsKey

tied : compare before unused unused ≡ Ordering.eq
unfolding compare compare_symbols number text_eq
tied = refl

compare_same_example : unused ≡ unused
compare_same_example = compare_same before before-IsKey unused unused tied

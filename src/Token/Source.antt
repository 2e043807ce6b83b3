-- ===== src/Token/Source.antt =====
-- src/bs_tokenizer.cpp `BSTokenizer::decode_source`: the check that the bytes of a source are UTF-8.
pub mod Utf8
pub mod Sound
use barista_script.Common.{
  ℕ, zero, suc, ◌+◌, ◌-◌, ◌*◌, ◌/◌, ◌%◌, Bool, true, false, ◌||◌, ◌&&◌, not, Option, none, some,
  List, [], ◌∷◌, length, ltb, leb, ◌==◌, if◌then◌else◌, Bytes, drop,
}

-- How the check ends: it accepts, or it names the byte at which it stopped.
pub data Decoded : Type 0 where
  accepted : Decoded
  invalid_at : ℕ → Decoded

-- The continuation bytes that a lead byte asks for, and its own part of the code point.
unfoldable pub lead_form : ℕ → Option (ℕ × ℕ)
lead_form lead =
    if lead / 32 == 6
    then some (1, lead % 32)
    else if lead / 16 == 14
    then some (2, lead % 16)
    else if lead / 8 == 30
    then some (3, lead % 8)
    else none

-- The loop over the continuation bytes, of which the list has as many as are needed. It gives the
-- code point, or the offset of a byte that is none.
pub data Continued : Type 0 where
  code_point : ℕ → Continued
  stopped_at : ℕ → Continued

unfoldable pub continue_bytes : ℕ → ℕ → ℕ → Bytes → Continued
continue_bytes zero offset point bytes = code_point point
continue_bytes (suc count) offset point [] = stopped_at offset
continue_bytes (suc count) offset point (b ∷ bytes) =
    let rest = continue_bytes count (offset + 1) (point * 64 + b % 64) bytes in
    if not (b / 64 == 2) then stopped_at offset else rest

unfoldable pub is_overlong : ℕ → ℕ → Bool
is_overlong count point =
    (count == 1 && ltb point 128)
    || (count == 2 && ltb point 2048)
    || (count == 3 && ltb point 65536)

unfoldable pub is_surrogate : ℕ → Bool
is_surrogate point = leb 55296 point && leb point 57343

unfoldable pub is_refused : ℕ → ℕ → Bool
is_refused count point = is_overlong count point || is_surrogate point || ltb 1114111 point

-- One turn of the loop at a lead byte that is not ASCII: how many bytes it takes, or where it stops.
pub data Turn : Type 0 where
  takes : ℕ → Turn
  stops : ℕ → Turn

unfoldable pub finish_turn : ℕ → ℕ → Continued → Turn
finish_turn index count (stopped_at offset) = stops offset
finish_turn index count (code_point point) =
    if is_refused count point then stops index else takes count

unfoldable pub turn : ℕ → ℕ → Bytes → Turn
turn index lead rest = elim (lead_form lead) [
  | none ↦ stops index
  | some form ↦
      if ltb (length rest) form.0
      then stops index
      else finish_turn index form.0 (continue_bytes form.0 (index + 1) form.1 rest)
]

unfoldable pub turn_at : ℕ → ℕ → Bytes → Turn
turn_at index lead rest = if ltb lead 128 then takes 0 else turn index lead rest

-- The bytes from `index` on. Each turn takes one byte at least, so their number is enough fuel.
unfoldable pub decode_fuel : ℕ → ℕ → Bytes → Decoded
decode_fuel fuel index [] = accepted
decode_fuel zero index (lead ∷ rest) = invalid_at index
decode_fuel (suc fuel) index (lead ∷ rest) = elim (turn_at index lead rest) [
  | stops offset ↦ invalid_at offset
  | takes count ↦ decode_fuel fuel (index + count + 1) (drop count rest)
]

-- The result is the text that `String::utf8`, a parameter, makes of the bytes, or an offset for the
-- error.
pub data SourceResult (Source : Type 0) : Type 0 where
  source_text : Source → SourceResult Source
  source_error : ℕ → SourceResult Source

unfoldable pub decode_source : {Source : Type 0} → (Bytes → Source) → Bytes → SourceResult Source
decode_source utf8 bytes = elim (decode_fuel (length bytes) 0 bytes) [
  | accepted ↦ source_text (utf8 bytes)
  | invalid_at offset ↦ source_error offset
]

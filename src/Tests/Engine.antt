-- ===== src/Tests/Engine.antt =====
-- An engine for the tests: a variant is its type and a text, and its binary form is that list.
use barista_script.Common.{Bytes, ℕ, [], ◌∷◌, Text, text_eq}
use barista_script.Common.Int.{ℤ, pos, negsuc}
use barista_script.Host.{Host}

-- The type of the variant, or 0 for the empty list.
abbrev pub kind : Text → ℕ
kind [] = 0
kind (t ∷ rest) = t

abbrev pub tail : Text → Text
tail [] = []
tail (t ∷ rest) = rest

-- Like the codec, it gives nothing for nothing.
abbrev pub mark : Bytes → Bytes
mark [] = []
mark (b ∷ rest) = 7 ∷ b ∷ rest

-- A byte in front keeps the binary form from being empty.
abbrev pub engine : Host
engine = record {
  Variant = Text;
  nil = [];
  of_string = λ t. 4 ∷ t;
  of_name = λ t. 21 ∷ t;
  to_name = tail;
  get_type = kind;
  equal = text_eq;
  encode_variant = λ v. 9 ∷ v;
  decode_variant = tail;
  compress_zstd = mark;
  decompress_zstd = λ b n. tail b;
}

-- The value of an integer variant, which stands behind the type.
abbrev pub value_of : Text → ℤ
value_of (t ∷ n ∷ rest) = pos n
value_of _ = negsuc 0

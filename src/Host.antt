-- ===== src/Host.antt =====
-- What the code takes from Godot through godot-cpp: `Variant`, its conversions and its binary
-- form, and the Zstandard codec. The code only calls these, so they are parameters.
use Prim.Native.Nat.{ℕ}
use barista_script.Common.{Bool, Bytes, Text}

pub record Host : Type 1 where
  pub Variant : Type 0
  -- `Variant()`
  pub nil : Variant
  -- `Variant(String)` and `Variant(StringName)`
  pub of_string : Text → Variant
  pub of_name : Text → Variant
  -- `StringName(Variant)`
  pub to_name : Variant → Text
  -- `Variant::get_type()` and `Variant::operator==`
  pub get_type : Variant → ℕ
  pub equal : Variant → Variant → Bool
  -- `BSMarshalls::encode_variant` and `decode_variant`
  pub encode_variant : Variant → Bytes
  pub decode_variant : Bytes → Variant
  -- `BSCompression`
  pub compress_zstd : Bytes → Bytes
  pub decompress_zstd : Bytes → ℕ → Bytes

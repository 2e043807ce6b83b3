-- ===== src/Common/Words.antt =====
-- Bytes, and the 32-bit words of the source: `uint32_t` is a number below 2 ^ 32.
use Prim.Native.Nat.{ℕ, ◌-◌, ◌%◌, ◌<◌}
use mathlib.Core.Bool.{Bool, true, false, ◌&&◌}
use mathlib.Core.Path.{◌≡◌}
use mathlib.Core.Logic.{◌↔◌}
use mathlib.Core.List.{List, [], ◌∷◌}
use native.Mathlib.Omega.{arith}
use barista_script.Common.Int.{ℤ, pos, negsuc}
use barista_script.Common.Tests.{◌==◌}

abbrev pub Bytes : Type 0
Bytes = List ℕ

-- A `String` or a `StringName`: its code points.
abbrev pub Text : Type 0
Text = List ℕ

abbrev pub u32_mod : ℕ
u32_mod = 4294967296

abbrev pub int_max : ℕ
int_max = 2147483647

abbrev pub IsByte : ℕ → Type 0
IsByte b = b < 256

-- the conversion of an `int` to `uint32_t`
abbrev pub to_uint32 : ℤ → ℕ
to_uint32 (pos n) = n % u32_mod
to_uint32 (negsuc n) = u32_mod - 1 - n % u32_mod

unfoldable pub text_eq : Text → Text → Bool
text_eq [] [] = true
text_eq (x ∷ xs) (y ∷ ys) = x == y && text_eq xs ys
text_eq _ _ = false

pub text_eq_iff : (a b : Text) → (text_eq a b ≡ true) ↔ (a ≡ b)
unfolding text_eq
text_eq_iff (x ∷ a) (y ∷ b) = ground (arith, text_eq_iff a b)
text_eq_iff _ _ = ground arith

-- ===== src/Codegen/Packed.antt =====
-- src/bs_function.h: what a word of the stack's address space names.
use Prim.Native.Nat.{bit_or, bit_or-bitwise, digits, max}
use barista_script.Common.{ℕ, zero, suc, ◌/◌, ◌≤◌, ◌<◌, ◌≡◌, refl, ◌∙◌, arith}
use barista_script.Codegen.Address.{
  addr_range, addr_type_stack, pack_address, address_type, address_index,
}

digits_zero : (n a : ℕ) → a ≤ n → digits (λ b. b) max n a 0 ≡ a
digits_zero zero zero h = refl
digits_zero zero (suc a) h = absurd (omega arith)
digits_zero (suc n) zero h = refl
digits_zero (suc n) (suc a) h = rw (digits_zero n (suc a / 2) (omega (arith, h))) (ground arith)

bit_or_zero : (a : ℕ) → bit_or a 0 ≡ a
bit_or_zero a = bit_or-bitwise a 0 ∙ digits_zero a a (omega arith)

pack_stack : (index : ℕ) → pack_address index addr_type_stack ≡ index
unfolding pack_address
pack_stack index = rw (bit_or_zero (index / addr_range)) (omega arith)

-- The word is the slot's number: below the range the type is the stack's, and above it is not.
pub address_type-pack_address :
    (index : ℕ)
    → index < addr_range
    → address_type (pack_address index addr_type_stack) ≡ addr_type_stack
address_type-pack_address index h = rw (pack_stack index) (omega (arith, h))

pub address_index-pack_address :
    (index : ℕ) → index < addr_range → address_index (pack_address index addr_type_stack) ≡ index
address_index-pack_address index h = rw (pack_stack index) (omega (arith, h))

pub address_type-pack_address_outside :
    (index : ℕ)
    → addr_range ≤ index
    → addr_type_stack < address_type (pack_address index addr_type_stack)
address_type-pack_address_outside index h = rw (pack_stack index) (omega (arith, h))

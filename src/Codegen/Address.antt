-- ===== src/Codegen/Address.antt =====
-- src/bs_codegen.h `Address`, and the address words of src/bs_function.h.
use Prim.Native.Nat.{bit_or}
use barista_script.Common.{ℕ, ◌+◌, ◌*◌, ◌/◌, ◌%◌}

pub data AddressMode : Type 0 where
  self class member constant local_variable function_parameter temporary nil : AddressMode

-- The type of the address is left out: nothing here reads it.
pub record Address : Type 0 where
  pub mode : AddressMode
  pub address : ℕ

-- `1 << ADDR_BITS`, and `ADDR_MASK`
abbrev pub addr_range : ℕ
addr_range = 16777216

abbrev pub addr_mask : ℕ
addr_mask = 16777215

abbrev pub addr_type_stack : ℕ
addr_type_stack = 0

abbrev pub addr_type_constant : ℕ
addr_type_constant = 1

abbrev pub addr_type_member : ℕ
addr_type_member = 2

abbrev pub addr_stack_self : ℕ
addr_stack_self = 0

abbrev pub addr_stack_class : ℕ
addr_stack_class = 1

abbrev pub addr_stack_nil : ℕ
addr_stack_nil = 2

abbrev pub fixed_addresses_max : ℕ
fixed_addresses_max = 3

-- `index | (type << ADDR_BITS)`: the type meets the digits above the index's 24.
unfoldable pub pack_address : ℕ → ℕ → ℕ
pack_address index type = index % addr_range + addr_range * bit_or (index / addr_range) type

-- The two parts of a word that is not negative, as the virtual machine takes it apart.
abbrev pub address_type : ℕ → ℕ
address_type word = word / addr_range

abbrev pub address_index : ℕ → ℕ
address_index word = word % addr_range

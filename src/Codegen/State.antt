-- ===== src/Codegen/State.antt =====
-- src/bs_byte_codegen.h: the fields of `BSByteCodeGenerator` that its slots and jumps use, and the
-- writing of words. A `List` that is used as a stack has its back in front here.
use barista_script.Common.{
  ℕ, zero, suc, Bool, true, false, Option, none, some, List, [], ◌∷◌, ◌++◌, length, set,
  if◌then◌else◌, ltb, Text,
}
use barista_script.Common.Int.{ℤ, pos, negsuc}
use barista_script.Codegen.Address.{
  Address, AddressMode, addr_mask, addr_type_stack, addr_type_constant, addr_type_member,
  addr_stack_self, addr_stack_class, addr_stack_nil, pack_address,
}

pub record StackSlot : Type 0 where
  pub type : ℕ
  pub bytecode_indices : List ℕ

pub record Generator : Type 0 where
  pub error : Option Text
  pub opcodes : List ℤ
  pub locals : List StackSlot
  pub dirty_locals : List ℕ
  pub temporaries : List StackSlot
  pub used_temporaries : List ℕ
  pub temporaries_pending_clear : List ℕ
  pub temporaries_pool : List (ℕ × List ℕ)
  pub max_locals : ℕ
  pub block_local_counts : List ℕ
  pub if_jump_addresses : List ℕ
  pub while_jump_addresses : List ℕ
  pub continue_addresses : List ℕ
  pub logic_operator_jump_positions : List ℕ
  pub breaks_to_patch : List (List ℕ)

abbrev pub new_generator : Generator
new_generator = record {
  error = none;
  opcodes = [];
  locals = [];
  dirty_locals = [];
  temporaries = [];
  used_temporaries = [];
  temporaries_pending_clear = [];
  temporaries_pool = [];
  max_locals = 0;
  block_local_counts = [];
  if_jump_addresses = [];
  while_jump_addresses = [];
  continue_addresses = [];
  logic_operator_jump_positions = [];
  breaks_to_patch = [];
}

-- The message is the source's, without the number.
abbrev pub first_error : Option Text → Text → Option Text
first_error none what = some what
first_error (some e) what = some e

unfoldable pub refuse : Text → Generator → Generator
refuse what g = record g { error = first_error g.error what }

unfoldable pub check_address_fits : ℕ → Text → Generator → Generator
check_address_fits index what g = record g {
  error = if ltb addr_mask index then first_error g.error what else g.error;
}

unfoldable pub append : ℤ → Generator → Generator
append value g = record g { opcodes = g.opcodes ++ value ∷ [] }

-- The slot of a temporary notes the position that its address stands at.
unfoldable pub note_position : ℕ → ℕ → List StackSlot → List StackSlot
note_position position slot [] = []
note_position position zero (s ∷ slots) =
    record s { bytecode_indices = s.bytecode_indices ++ position ∷ [] } ∷ slots
note_position position (suc slot) (s ∷ slots) = s ∷ note_position position slot slots

-- `address_of`, for all modes but that of a temporary.
abbrev pub address_word : AddressMode → ℕ → ℤ
address_word AddressMode.self address = pos (pack_address addr_stack_self addr_type_stack)
address_word AddressMode.class address = pos (pack_address addr_stack_class addr_type_stack)
address_word AddressMode.member address = pos (pack_address address addr_type_member)
address_word AddressMode.constant address = pos (pack_address address addr_type_constant)
address_word AddressMode.local_variable address = pos (pack_address address addr_type_stack)
address_word AddressMode.function_parameter address = pos (pack_address address addr_type_stack)
address_word AddressMode.temporary address = negsuc 0
address_word AddressMode.nil address = pos (pack_address addr_stack_nil addr_type_stack)

abbrev pub is_temporary : AddressMode → Bool
is_temporary AddressMode.self = false
is_temporary AddressMode.temporary = true
is_temporary _ = false

abbrev pub is_local : AddressMode → Bool
is_local AddressMode.self = false
is_local AddressMode.local_variable = true
is_local _ = false

-- What `address_of` does to the temporaries, where the code ends at a position.
abbrev pub note : Address → ℕ → List StackSlot → List StackSlot
note a position slots =
    if is_temporary a.mode then note_position position a.address slots else slots

-- `append` of an address: `address_of`, and its word at the end of the code.
unfoldable pub append_address : Address → Generator → Generator
append_address a g =
    append (address_word a.mode a.address)
      (record g { temporaries = note a (length g.opcodes) g.temporaries })

-- `patch_jump`: the word at a position becomes the place where the code ends.
unfoldable pub patch_jump : ℕ → Generator → Generator
patch_jump position g = record g { opcodes = set g.opcodes position (pos (length g.opcodes)) }

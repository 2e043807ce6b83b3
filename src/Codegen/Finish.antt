-- ===== src/Codegen/Finish.antt =====
-- src/bs_byte_codegen.cpp `write_end`: the temporaries get their slots behind the locals. The tables
-- of constants, names and functions that it copies are left out.
use barista_script.Common.{ℕ, suc, ◌+◌, Option, none, some, List, [], ◌∷◌, length, Text}
use barista_script.Common.Int.{ℤ, pos}
use barista_script.Token.Names.{codes}
use barista_script.Codegen.Address.{fixed_addresses_max, addr_type_stack, pack_address}
use barista_script.Codegen.State.{Generator, StackSlot, append, check_address_fits}
use barista_script.Codegen.Patch.{set_each}

abbrev pub opcode_end : ℤ
opcode_end = pos 171

-- What of the function depends on the slots.
pub record Function : Type 0 where
  pub code : List ℤ
  pub stack_size : ℕ

-- The loop over the temporaries, from number `i` on.
unfoldable pub place_temporaries : ℕ → List StackSlot → Generator → Generator
place_temporaries i [] g = g
place_temporaries i (s ∷ slots) g =
    let stack_index = i + g.max_locals + fixed_addresses_max in
    let g1 = check_address_fits stack_index (codes "stack slots") g in
    place_temporaries (suc i) slots (record g1 {
      opcodes =
          set_each s.bytecode_indices g1.opcodes (pos (pack_address stack_index addr_type_stack));
    })

unfoldable pub finish : Option Text → Generator → Option Function
finish (some e) g = none
finish none g = some (record {
  code = (place_temporaries 0 g.temporaries g).opcodes;
  stack_size = fixed_addresses_max + g.max_locals + length g.temporaries;
})

unfoldable pub write_end : Generator → Option Function
write_end g = finish g.error (append opcode_end g)

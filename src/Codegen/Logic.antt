-- ===== src/Codegen/Logic.antt =====
-- src/bs_byte_codegen.cpp: `and` and `or`, whose operands jump to one of two assignments.
use barista_script.Common.{ℕ, Option, none, some, List, [], ◌∷◌, length}
use barista_script.Common.Int.{ℤ, pos}
use barista_script.Codegen.Address.{Address}
use barista_script.Codegen.State.{Generator, append, append_address, patch_jump}
use barista_script.Codegen.Jumps.{
  append_branch, opcode_assign_true, opcode_assign_false, opcode_jump, opcode_jump_if,
  opcode_jump_if_not,
}

-- An operand's test, whose jump is patched at the end.
unfoldable pub write_operand : ℤ → Address → Generator → Generator
write_operand opcode operand g =
    let g1 = append_branch opcode operand g in
    append (pos 0) (record g1 {
      logic_operator_jump_positions = length g1.opcodes ∷ g1.logic_operator_jump_positions;
    })

-- `write_and_left_operand` and `write_and_right_operand`, which are the same, and those of `or`.
abbrev pub write_and_operand : Address → Generator → Generator
write_and_operand = write_operand opcode_jump_if_not

abbrev pub write_or_operand : Address → Generator → Generator
write_or_operand = write_operand opcode_jump_if

-- The two assignments: `through` where no operand jumped, and `jumped` behind it.
unfoldable pub join : ℤ → ℤ → Address → ℕ → ℕ → List ℕ → Generator → Generator
join through jumped target left right rest g =
    let g1 = append opcode_jump (append_address target (append through g)) in
    let skip = length g1.opcodes in
    let g2 =
      patch_jump right
        (patch_jump left (record (append (pos 0) g1) { logic_operator_jump_positions = rest })) in
    patch_jump skip (append_address target (append jumped g2))

unfoldable pub write_end_logic : ℤ → ℤ → Address → List ℕ → Generator → Option Generator
write_end_logic through jumped target [] g = none
write_end_logic through jumped target (right ∷ []) g = none
write_end_logic through jumped target (right ∷ left ∷ rest) g =
    some (join through jumped target left right rest g)

unfoldable pub write_end_and : Address → Generator → Option Generator
write_end_and target g =
    write_end_logic opcode_assign_true opcode_assign_false target g.logic_operator_jump_positions g

unfoldable pub write_end_or : Address → Generator → Option Generator
write_end_or target g =
    write_end_logic opcode_assign_false opcode_assign_true target g.logic_operator_jump_positions g

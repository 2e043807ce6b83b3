-- ===== src/Codegen/Jumps.antt =====
-- src/bs_byte_codegen.cpp: branches, loops and the logic operators, which patch their own jumps. A
-- stack that is empty where its back is read has no value: the source reads through a null pointer.
use barista_script.Common.{ℕ, Option, none, some, List, [], ◌∷◌, ◌++◌, length}
use barista_script.Common.Int.{ℤ, pos}
use barista_script.Codegen.Address.{Address}
use barista_script.Codegen.State.{Generator, append, append_address, patch_jump}

abbrev pub opcode_assign_true : ℤ
opcode_assign_true = pos 26

abbrev pub opcode_assign_false : ℤ
opcode_assign_false = pos 27

abbrev pub opcode_jump : ℤ
opcode_jump = pos 72

abbrev pub opcode_jump_if : ℤ
opcode_jump_if = pos 73

abbrev pub opcode_jump_if_not : ℤ
opcode_jump_if_not = pos 74

abbrev pub opcode_jump_if_shared : ℤ
opcode_jump_if_shared = pos 76

-- An opcode, its address and the place of a jump that is patched later.
unfoldable pub append_branch : ℤ → Address → Generator → Generator
append_branch opcode condition g = append_address condition (append opcode g)

unfoldable pub write_if : Address → Generator → Generator
write_if condition g =
    let g1 = append_branch opcode_jump_if_not condition g in
    append (pos 0) (record g1 { if_jump_addresses = length g1.opcodes ∷ g1.if_jump_addresses })

unfoldable pub write_jump_if_shared : Address → Generator → Generator
write_jump_if_shared value g =
    let g1 = append_branch opcode_jump_if_shared value g in
    append (pos 0) (record g1 { if_jump_addresses = length g1.opcodes ∷ g1.if_jump_addresses })

unfoldable pub write_else : Generator → Option Generator
write_else g = elim g.if_jump_addresses [
  | [] ↦ none
  | position ∷ rest ↦
      let g1 = append opcode_jump g in
      let g2 = patch_jump position (append (pos 0) g1) in
      some (record g2 { if_jump_addresses = length g1.opcodes ∷ rest })
]

-- `write_endif`, and `write_end_jump_if_shared`, which is the same.
unfoldable pub write_endif : Generator → Option Generator
write_endif g = elim g.if_jump_addresses [
  | [] ↦ none
  | position ∷ rest ↦ some (record (patch_jump position g) { if_jump_addresses = rest })
]

unfoldable pub start_while_condition : Generator → Generator
start_while_condition g = record g {
  continue_addresses = length g.opcodes ∷ g.continue_addresses;
  breaks_to_patch = [] ∷ g.breaks_to_patch;
}

unfoldable pub write_while : Address → Generator → Generator
write_while condition g =
    let g1 = append_branch opcode_jump_if_not condition g in
    append (pos 0)
      (record g1 { while_jump_addresses = length g1.opcodes ∷ g1.while_jump_addresses })

-- `for (const int position : breaks_to_patch.back()->get())`
unfoldable pub patch_breaks : List ℕ → Generator → Generator
patch_breaks [] g = g
patch_breaks (position ∷ rest) g = patch_breaks rest (patch_jump position g)

unfoldable pub close_while :
    ℕ → List ℕ → ℕ → List ℕ → List ℕ → List (List ℕ) → Generator → Generator
close_while start starts exit exits breaks outer g =
    let g1 = patch_jump exit (append (pos start) (append opcode_jump g)) in
    record (patch_breaks breaks (record g1 { while_jump_addresses = exits })) {
      breaks_to_patch = outer;
      continue_addresses = starts;
    }

unfoldable pub write_endwhile : Generator → Option Generator
write_endwhile g = elim g.continue_addresses [
  | [] ↦ none
  | start ∷ starts ↦ elim g.while_jump_addresses [
    | [] ↦ none
    | exit ∷ exits ↦ elim g.breaks_to_patch [
      | [] ↦ none
      | breaks ∷ outer ↦ some (close_while start starts exit exits breaks outer g)
    ]
  ]
]

unfoldable pub break_to : List (List ℕ) → Generator → Option Generator
break_to [] g = none
break_to (breaks ∷ outer) g =
    let g1 = append opcode_jump g in
    some
      (append (pos 0) (record g1 { breaks_to_patch = (breaks ++ length g1.opcodes ∷ []) ∷ outer }))

unfoldable pub write_break : Generator → Option Generator
write_break g = break_to g.breaks_to_patch g

unfoldable pub continue_to : List ℕ → Generator → Option Generator
continue_to [] g = none
continue_to (start ∷ starts) g = some (append (pos start) (append opcode_jump g))

unfoldable pub write_continue : Generator → Option Generator
write_continue g = continue_to g.continue_addresses g

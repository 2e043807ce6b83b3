-- ===== src/Tests/CodegenRuns.antt =====
-- A function with a loop that breaks, its locals and its temporaries.
use mathlib.Core.Bool.{true≢false}
use barista_script.Common.{
  ℕ, ◌+◌, ◌<◌, ◌≡◌, refl, sym, Bool, true, false, some, [], ◌∷◌, length, map, arith, get_elem?, ◌≢◌,
}
use barista_script.Common.Int.{pos}
use barista_script.Codegen.Address.{
  pack_address, Address, AddressMode, fixed_addresses_max, addr_type_stack, address_type,
}
use barista_script.Codegen.State.{Generator, new_generator, append, append_address, note_position}
use barista_script.Codegen.Slots.{
  take_temporary, pool_of, add_local, start_block, end_block, is_local_dirty, add_temporary,
  pool_type, has_slot,
}
use barista_script.Codegen.Temporaries.{
  Pooled, IsFresh, add_temporary-IsFresh, Pooling, Pooling-Pooled,
}
use barista_script.Codegen.Locals.{Framing, add_local-dirty}
use barista_script.Codegen.Layout.{Calls, emit}
use barista_script.Codegen.Emitted.{emitted}
use barista_script.Codegen.Notes.{Noted, Writing, Writing-Noted}
use barista_script.Codegen.Finish.{Function, write_end}
use barista_script.Codegen.Placed.{IsFinished, write_end-IsFinished, write_end-misplaced}
use barista_script.Codegen.Jumps.{opcode_assign_true, opcode_assign_false, append_branch}
use barista_script.Codegen.Logic.{write_operand, write_and_operand, write_end_and, write_end_or}
use barista_script.Codegen.Joined.{IsJoined, write_end_and-IsJoined}
use barista_script.Codegen.Backpatch.{emit-emitted}

abbrev third_local : Address
third_local = record { mode = AddressMode.local_variable; address = 5 }

-- while a: if a: break else: continue
abbrev searching : Calls
searching =
    Calls.loop (pos 170 ∷ pos 9 ∷ []) third_local
      (Calls.branch_else third_local Calls.break_loop Calls.continue_loop)

emit-emitted_example : emit searching new_generator ≡ some (emitted searching new_generator)
emit-emitted_example =
    emit-emitted false searching new_generator (refl, refl) (λ h. absurd (true≢false (sym h)))

-- The words that stand in the code.
searching_code :
    (emitted searching new_generator).opcodes
    ≡ map pos (170 ∷ 9 ∷ 74 ∷ 5 ∷ 16 ∷ 74 ∷ 5 ∷ 12 ∷ 72 ∷ 16 ∷ 72 ∷ 14 ∷ 72 ∷ 0 ∷ 72 ∷ 0 ∷ [])
unfolding pack_address
searching_code = refl

abbrev never : ℕ → Bool
never type = false

abbrev one_temporary : Generator
one_temporary = (add_temporary never (some 2) new_generator).1

one_added : Pooling never one_temporary
one_added = Pooling.added (some 2) new_generator Pooling.started

Pooling-Pooled_example : Pooled one_temporary
Pooling-Pooled_example = Pooling-Pooled never one_temporary one_added

add_temporary-IsFresh_example :
    IsFresh (pool_type never (some 2)) one_temporary (add_temporary never (some 2) one_temporary)
add_temporary-IsFresh_example =
    add_temporary-IsFresh never (some 2) one_temporary
      (Pooling-Pooled never one_temporary one_added)

-- A block with one local has been closed.
abbrev after_block : Generator
after_block = end_block (add_local 2 (start_block new_generator)).1

block_closed : Framing after_block
block_closed =
    Framing.closed _ (Framing.local_declared 2 _ (Framing.opened new_generator Framing.started))

add_local-dirty_example :
    ((add_local 4 after_block).0 ≡ length after_block.locals + fixed_addresses_max)
    × ((add_local 4 after_block).0 < fixed_addresses_max + (add_local 4 after_block).1.max_locals)
    × (length after_block.locals < after_block.max_locals
        → is_local_dirty
            (record { mode = AddressMode.local_variable; address = (add_local 4 after_block).0 })
            (add_local 4 after_block).1
          ≡ true)
add_local-dirty_example = add_local-dirty 4 after_block block_closed

-- A word, a temporary and a word that takes its address.
abbrev with_address : Generator
with_address =
    append_address (record { mode = AddressMode.temporary; address = 0 })
      (append (pos 25) one_temporary)

address_written : Writing never with_address
address_written =
    Writing.addressed _ _
      (Writing.wrote (pos 25) _ (Writing.taken (some 2) new_generator Writing.started))

Writing-Noted_example : Noted with_address
Writing-Noted_example = Writing-Noted never with_address address_written

write_end-IsFinished_example :
    (f : Function) × (write_end with_address ≡ some f) × IsFinished with_address f
unfolding append_address append add_temporary take_temporary pool_of note_position
write_end-IsFinished_example =
    write_end-IsFinished with_address (Writing-Noted never with_address address_written) refl
      (omega arith)

-- The same, with as many locals as no address can number.
abbrev with_many_locals : Generator
with_many_locals = record with_address { max_locals = 16777216 }

with_many_locals-Noted : Noted with_many_locals
with_many_locals-Noted =
    Writing-Noted never with_many_locals
      (Writing.other with_address with_many_locals address_written refl refl)

write_end-misplaced_example :
    (f : Function) × (write_end with_many_locals ≡ some f)
    × ((word : ℕ) × (get_elem? f.code 1 ≡ some (pos word)) × (address_type word ≢ addr_type_stack))
unfolding append_address append add_temporary take_temporary pool_of note_position has_slot
write_end-misplaced_example =
    write_end-misplaced with_many_locals 1 0 with_many_locals-Noted refl refl (omega arith)
      (omega arith)

-- Two operands of a logic operator.
abbrev two_operands : Generator
two_operands = write_and_operand third_local (write_and_operand third_local new_generator)

write_end_and-IsJoined_example :
    ((h : Generator) × (write_end_and third_local two_operands ≡ some h)
      × (h.logic_operator_jump_positions ≡ [])
      × IsJoined opcode_assign_true opcode_assign_false third_local 2 5 two_operands h)
    × ((h : Generator) × (write_end_or third_local two_operands ≡ some h)
        × (h.logic_operator_jump_positions ≡ [])
        × IsJoined opcode_assign_false opcode_assign_true third_local 2 5 two_operands h)
unfolding write_operand append_branch append_address append
write_end_and-IsJoined_example =
    write_end_and-IsJoined third_local 2 5 [] two_operands refl (omega arith) (omega arith)

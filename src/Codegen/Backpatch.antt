-- ===== src/Codegen/Backpatch.antt =====
-- src/bs_byte_codegen.cpp: emitting branches and loops by patching gives the code whose jumps are
-- known from the start.
use barista_script.Common.{◌≡◌, ap, ◌∙◌, Bool, true, some, ◌++◌}
use barista_script.Codegen.State.{Generator}
use barista_script.Codegen.Jumps.{start_while_condition, write_break, write_continue}
use barista_script.Codegen.Layout.{Calls, emit}
use barista_script.Codegen.Emitted.{
  emitted, emitted-seq, append_words-opcodes, tested_if, write_if-tested, write_while-tested,
  Placed, Within, NonEmpty-add_breaks, Within-emitted,
}
use barista_script.Codegen.Steps.{emit_words, finish_branch, break_to-eq, continue_to-eq}
use barista_script.Codegen.Branches.{elsed, write_else-elsed, finish_branches}
use barista_script.Codegen.Loops.{in_loop, finish_loop}

-- Emitting the code of a statement, with breaks and continues only inside loops, never reads an
-- empty stack. It adds the code that the layout gives, with the jumps of the loop around still 0,
-- notes these jumps and the addresses of temporaries, and leaves all else as it was.
pub emit-emitted :
    (inside : Bool) (s : Calls) (g : Generator)
    → Placed inside s
    → Within inside g
    → emit s g ≡ some (emitted s g)
unfolding emit write_break write_continue start_while_condition
emit-emitted inside (Calls.words ws) g placed within = ap some (emit_words ws g)
emit-emitted inside (Calls.seq a b) g placed within = rw (emit-emitted inside a g placed.0 within) (
    emit-emitted inside b (emitted a g) placed.1 (Within-emitted inside a g within)
    ∙ ap some (emitted-seq a b g))
emit-emitted inside (Calls.branch c s) g placed within =
    rw (write_if-tested c g, emit-emitted inside s (tested_if c g) placed within)
      (finish_branch c s g)
emit-emitted inside (Calls.branch_else c s t) g placed within =
    rw
      (
        write_if-tested c g,
        emit-emitted inside s (tested_if c g) placed.0 within,
        write_else-elsed c s g,
        emit-emitted inside t (elsed c s g) placed.1
            (λ h. ((within h).0, NonEmpty-add_breaks _ g.breaks_to_patch (within h).1)),
      )
      (finish_branches c s t g)
emit-emitted inside (Calls.loop ws c s) g placed within =
    rw
      (
        append_words-opcodes ws (start_while_condition g),
        start_while_condition,
        write_while-tested c (record (start_while_condition g) { opcodes = g.opcodes ++ ws }),
        emit-emitted true s (in_loop ws c g) placed (λ h. (tt, tt)),
      )
      (finish_loop ws c s g)
emit-emitted inside Calls.break_loop g placed within =
    break_to-eq g.breaks_to_patch g (within placed).1
emit-emitted inside Calls.continue_loop g placed within =
    continue_to-eq g.continue_addresses g (within placed).0

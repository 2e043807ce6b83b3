-- ===== src/Codegen/Loops.antt =====
-- src/bs_byte_codegen.cpp: a loop, emitted by patching.
use barista_script.Common.{
  ℕ, ◌+◌, ◌≡◌, refl, sym, ap, ◌∙◌, some, List, [], ◌∷◌, ◌++◌, length, length-append, set,
  append_assoc, arith,
}
use barista_script.Common.Int.{ℤ, pos}
use barista_script.Codegen.Address.{Address}
use barista_script.Codegen.State.{Generator, append, address_word, note, patch_jump}
use barista_script.Codegen.Jumps.{
  opcode_jump, opcode_jump_if_not, start_while_condition, close_while, write_endwhile,
}
use barista_script.Codegen.Layout.{Calls, layout, layout-append, length-layout, breaks, size}
use barista_script.Codegen.Patch.{
  length-set, set_each, set_each_behind, set_each-layout, patch_breaks-set_each,
}
use barista_script.Codegen.Emitted.{emitted, top, noted, tested_while}
use barista_script.Codegen.Steps.{add_breaks_nil, patch_third}

-- The generator behind the test of a loop.
abbrev pub in_loop : List ℤ → Address → Generator → Generator
in_loop ws c g = tested_while c (record (start_while_condition g) { opcodes = g.opcodes ++ ws })

-- Closing a loop, with the breaks written at once.
close_while-set_each :
    (start : ℕ) (starts : List ℕ) (exit : ℕ) (exits breaks : List ℕ) (outer : List (List ℕ))
    (g : Generator) (code : List ℤ) (end : ℕ)
    → set (g.opcodes ++ opcode_jump ∷ pos start ∷ []) exit (pos end) ≡ code
    → length (g.opcodes ++ opcode_jump ∷ pos start ∷ []) ≡ end
    → close_while start starts exit exits breaks outer g ≡ record g {
      opcodes = set_each breaks code (pos end);
      while_jump_addresses = exits;
      breaks_to_patch = outer;
      continue_addresses = starts;
    }
unfolding close_while patch_jump append
close_while-set_each start starts exit exits breaks outer g code end written there =
    ap {A = Generator} (λ h. record h { breaks_to_patch = outer; continue_addresses = starts })
      (patch_breaks-set_each breaks
        (record (patch_jump exit (append (pos start) (append opcode_jump g))) {
          while_jump_addresses = exits;
        }))
    ∙ ap
        (λ ops. record g {
          opcodes = ops;
          while_jump_addresses = exits;
          breaks_to_patch = outer;
          continue_addresses = starts;
        })
        ops
  where
    long : List ℤ
    long = (g.opcodes ++ opcode_jump ∷ []) ++ pos start ∷ []

    ops :
        set_each breaks
          (set long exit (pos (length long)))
          (pos (length (set long exit (pos (length long)))))
        ≡ set_each breaks code (pos end)
    ops =
        rw
          (
            length-set long exit (pos (length long)),
            append_assoc g.opcodes (opcode_jump ∷ []) (pos start ∷ []),
            there,
            written,
          )
          refl

pub finish_loop :
    (ws : List ℤ) (c : Address) (s : Calls) (g : Generator)
    → write_endwhile (emitted s (in_loop ws c g)) ≡ some (emitted (Calls.loop ws c s) g)
unfolding write_endwhile start_while_condition
finish_loop ws c s g = ap some (
    close_while-set_each n g.continue_addresses (length (g.opcodes ++ ws) + 2)
      g.while_jump_addresses (breaks s behind) g.breaks_to_patch (emitted s (in_loop ws c g)) code
      end written there
    ∙ (λ i. record g {
      opcodes = ops i;
      breaks_to_patch = sym (add_breaks_nil g.breaks_to_patch) i;
      temporaries = noted s (body i) (note c (one i) g.temporaries);
    }))
  where
    n : ℕ
    n = length g.opcodes

    m : ℕ
    m = n + length ws + 3

    end : ℕ
    end = n + length ws + 5 + size s

    test : ℤ → List ℤ
    test to = opcode_jump_if_not ∷ address_word c.mode c.address ∷ to ∷ []

    back : List ℤ
    back = opcode_jump ∷ pos n ∷ []

    behind : ℕ
    behind = length ((g.opcodes ++ ws) ++ test (pos 0))

    code : List ℤ
    code =
        (g.opcodes ++ ws)
        ++ (opcode_jump_if_not ∷ address_word c.mode c.address ∷ pos end ∷ layout s m n 0 back)

    one : length (g.opcodes ++ ws) + 1 ≡ n + length ws + 1
    one = omega (arith, length-append g.opcodes ws)

    body : behind ≡ m
    body = omega (arith, length-append g.opcodes ws, length-append (g.opcodes ++ ws) (test (pos 0)))

    written :
        set
          ((((g.opcodes ++ ws) ++ test (pos 0)) ++ layout s behind n 0 []) ++ back)
          (length (g.opcodes ++ ws) + 2)
          (pos end)
        ≡ code
    written =
        rw
          (
            body,
            append_assoc ((g.opcodes ++ ws) ++ test (pos 0)) (layout s m n 0 []) back,
            ← layout-append s m n 0 [] back,
          )
          (patch_third (g.opcodes ++ ws) (layout s m n 0 back) opcode_jump_if_not
            (address_word c.mode c.address) (pos 0) (pos end))

    there : length ((((g.opcodes ++ ws) ++ test (pos 0)) ++ layout s behind n 0 []) ++ back) ≡ end
    there = omega (
      arith,
      body,
      length-append (((g.opcodes ++ ws) ++ test (pos 0)) ++ layout s behind n 0 []) back,
      length-append ((g.opcodes ++ ws) ++ test (pos 0)) (layout s behind n 0 []),
      length-layout s behind n 0 [],
    )

    front : length ((g.opcodes ++ ws) ++ test (pos end)) ≡ m
    front =
        omega (arith, length-append g.opcodes ws, length-append (g.opcodes ++ ws) (test (pos end)))

    ops :
        set_each (breaks s behind) code (pos end)
        ≡ g.opcodes ++ layout (Calls.loop ws c s) n (top g.continue_addresses) 0 []
    ops =
        ap (λ k. set_each (breaks s k) code (pos end)) body
        ∙ (set_each_behind (breaks s m) (g.opcodes ++ ws) (test (pos end)) _ _ (pos end)
              (set_each-layout s ((g.opcodes ++ ws) ++ test (pos end)) m n end back front)
            ∙ append_assoc g.opcodes ws _)

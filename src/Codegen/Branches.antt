-- ===== src/Codegen/Branches.antt =====
-- src/bs_byte_codegen.cpp: the two branches of an `else`, emitted by patching.
use barista_script.Common.{
  ℕ, ◌+◌, ◌≡◌, sym, ap, ◌∙◌, some, List, [], ◌∷◌, ◌++◌, length, length-append, set, append_assoc,
  arith,
}
use barista_script.Common.Int.{ℤ, pos}
use barista_script.Codegen.Address.{Address}
use barista_script.Codegen.State.{Generator, append, address_word, note, patch_jump}
use barista_script.Codegen.Jumps.{opcode_jump, opcode_jump_if_not, write_else, write_endif}
use barista_script.Codegen.Layout.{Calls, layout, layout-append, length-layout, breaks, size}
use barista_script.Codegen.Patch.{set-append}
use barista_script.Codegen.Emitted.{emitted, top, add_breaks, add_breaks-append, noted, tested_if}
use barista_script.Codegen.Steps.{patch_third}

-- The word behind two parts of the code is written, with more behind it.
patch_last :
    (o front rest : List ℤ) (x v : ℤ) (i : ℕ)
    → i ≡ length o + length front
    → set ((o ++ (front ++ x ∷ [])) ++ rest) i v ≡ o ++ (front ++ v ∷ rest)
patch_last o front rest x v i e =
    rw
      (
        ← append_assoc o front (x ∷ []),
        append_assoc (o ++ front) (x ∷ []) rest,
        ← append_assoc o front (v ∷ rest),
      )
      (set-append (o ++ front) rest x v i (omega (arith, length-append o front)))

-- The generator where the other branch begins.
abbrev pub elsed : Address → Calls → Generator → Generator
elsed c s g = record g {
  opcodes =
      g.opcodes
      ++ (opcode_jump_if_not
          ∷ address_word c.mode c.address
          ∷ pos (length g.opcodes + 5 + size s)
          ∷ layout s (length g.opcodes + 3) (top g.continue_addresses) 0
              (opcode_jump ∷ pos 0 ∷ []));
  breaks_to_patch = add_breaks (breaks s (length g.opcodes + 3)) g.breaks_to_patch;
  temporaries = noted s (length g.opcodes + 3) (note c (length g.opcodes + 1) g.temporaries);
  if_jump_addresses = (length g.opcodes + 4 + size s) ∷ g.if_jump_addresses;
}

pub write_else-elsed :
    (c : Address) (s : Calls) (g : Generator)
    → write_else (emitted s (tested_if c g)) ≡ some (elsed c s g)
unfolding write_else patch_jump append
write_else-elsed c s g = λ i. some (record g {
  opcodes = ops i;
  breaks_to_patch = add_breaks (breaks s (end i)) g.breaks_to_patch;
  temporaries = noted s (end i) (note c (length g.opcodes + 1) g.temporaries);
  if_jump_addresses = jump i ∷ g.if_jump_addresses;
})
  where
    start : ℕ
    start = top g.continue_addresses

    test : List ℤ
    test = opcode_jump_if_not ∷ address_word c.mode c.address ∷ pos 0 ∷ []

    first : ℕ → List ℤ
    first k = layout s k start 0 []

    code : ℕ → List ℤ
    code k = ((g.opcodes ++ test) ++ first k) ++ opcode_jump ∷ []

    end : length (g.opcodes ++ test) ≡ length g.opcodes + 3
    end = length-append g.opcodes test

    jump : length (code (length (g.opcodes ++ test))) ≡ length g.opcodes + 4 + size s
    jump = omega (
      arith,
      end,
      length-append (g.opcodes ++ test) (first (length (g.opcodes ++ test))),
      length-layout s (length (g.opcodes ++ test)) start 0 [],
      length-append ((g.opcodes ++ test) ++ first (length (g.opcodes ++ test))) (opcode_jump ∷ []),
    )

    total : length (code (length (g.opcodes ++ test)) ++ pos 0 ∷ []) ≡ length g.opcodes + 5 + size s
    total = omega (arith, jump, length-append (code (length (g.opcodes ++ test))) (pos 0 ∷ []))

    ops :
        set
          (code (length (g.opcodes ++ test)) ++ pos 0 ∷ [])
          (length g.opcodes + 2)
          (pos (length (code (length (g.opcodes ++ test)) ++ pos 0 ∷ [])))
        ≡ (elsed c s g).opcodes
    ops =
        rw
          (
            total,
            end,
            append_assoc ((g.opcodes ++ test) ++ first (length g.opcodes + 3)) (opcode_jump ∷ [])
                (pos 0 ∷ []),
            append_assoc (g.opcodes ++ test) (first (length g.opcodes + 3))
                (opcode_jump ∷ pos 0 ∷ []),
            ← layout-append s (length g.opcodes + 3) start 0 [] (opcode_jump ∷ pos 0 ∷ []),
          )
          (patch_third g.opcodes _ opcode_jump_if_not (address_word c.mode c.address) (pos 0) _)

pub finish_branches :
    (c : Address) (s t : Calls) (g : Generator)
    → write_endif (emitted t (elsed c s g)) ≡ some (emitted (Calls.branch_else c s t) g)
unfolding write_endif patch_jump
finish_branches c s t g = λ i. some (record g {
  opcodes = ops i;
  breaks_to_patch = brs i;
  temporaries =
      noted t (end i)
        (noted s (length g.opcodes + 3) (note c (length g.opcodes + 1) g.temporaries));
})
  where
    n : ℕ
    n = length g.opcodes

    start : ℕ
    start = top g.continue_addresses

    -- What stands before the open jump, and the code with it.
    front : List ℤ
    front =
        opcode_jump_if_not
        ∷ address_word c.mode c.address
        ∷ pos (n + 5 + size s)
        ∷ layout s (n + 3) start 0 (opcode_jump ∷ [])

    test : List ℤ
    test =
        opcode_jump_if_not
        ∷ address_word c.mode c.address
        ∷ pos (n + 5 + size s)
        ∷ layout s (n + 3) start 0 (opcode_jump ∷ pos 0 ∷ [])

    other : ℕ → List ℤ
    other k = layout t k start 0 []

    end : length (g.opcodes ++ test) ≡ n + 5 + size s
    end = omega (
      arith,
      length-append g.opcodes test,
      length-layout s (n + 3) start 0 (opcode_jump ∷ pos 0 ∷ []),
    )

    split : test ≡ front ++ pos 0 ∷ []
    split =
        ap (λ r. opcode_jump_if_not ∷ address_word c.mode c.address ∷ pos (n + 5 + size s) ∷ r)
          (layout-append s (n + 3) start 0 (opcode_jump ∷ []) (pos 0 ∷ []))

    total :
        length ((g.opcodes ++ test) ++ other (length (g.opcodes ++ test))) ≡ n + 5 + size s + size t
    total = omega (
      arith,
      end,
      length-append (g.opcodes ++ test) (other (length (g.opcodes ++ test))),
      length-layout t (length (g.opcodes ++ test)) start 0 [],
    )

    ops :
        set
          ((g.opcodes ++ test) ++ other (length (g.opcodes ++ test)))
          (n + 4 + size s)
          (pos (length ((g.opcodes ++ test) ++ other (length (g.opcodes ++ test)))))
        ≡ g.opcodes ++ layout (Calls.branch_else c s t) n start 0 []
    ops =
        rw (total, end, split)
          (patch_last g.opcodes front (other (n + 5 + size s)) (pos 0)
              (pos (n + 5 + size s + size t)) (n + 4 + size s)
              (omega (arith, length-layout s (n + 3) start 0 (opcode_jump ∷ [])))
            ∙ ap
                (λ r.
                  g.opcodes
                  ++ (opcode_jump_if_not
                      ∷ address_word c.mode c.address
                      ∷ pos (n + 5 + size s)
                      ∷ r))
                (sym (
                  layout-append s (n + 3) start 0 (opcode_jump ∷ [])
                    (pos (n + 5 + size s + size t) ∷ other (n + 5 + size s)))))

    brs :
        add_breaks
          (breaks t (length (g.opcodes ++ test)))
          (add_breaks (breaks s (n + 3)) g.breaks_to_patch)
        ≡ add_breaks (breaks s (n + 3) ++ breaks t (n + 5 + size s)) g.breaks_to_patch
    brs =
        ap (λ k. add_breaks (breaks t k) (add_breaks (breaks s (n + 3)) g.breaks_to_patch)) end
        ∙ add_breaks-append (breaks s (n + 3)) (breaks t (n + 5 + size s)) g.breaks_to_patch

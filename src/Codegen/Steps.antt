-- ===== src/Codegen/Steps.antt =====
-- src/bs_byte_codegen.cpp: single statements and branches without an `else`, emitted by patching.
use barista_script.Common.{
  ℕ, ◌+◌, ◌≡◌, refl, sym, ap, ◌∙◌, some, List, [], ◌∷◌, ◌++◌, length, length-append, set,
  append_assoc, append-nil, arith,
}
use barista_script.Common.Int.{ℤ, pos}
use barista_script.Codegen.Address.{Address}
use barista_script.Codegen.State.{Generator, append, address_word, note, patch_jump}
use barista_script.Codegen.Jumps.{
  opcode_jump, opcode_jump_if_not, write_endif, break_to, continue_to,
}
use barista_script.Codegen.Layout.{Calls, append_words, layout, length-layout, breaks, size}
use barista_script.Codegen.Patch.{set-append}
use barista_script.Codegen.Emitted.{
  NonEmpty, top, add_breaks, noted, emitted, behind_one, tested_if, append_words-opcodes,
}

-- The third of three words is written, with more behind them.
pub patch_third :
    (o rest : List ℤ) (a b x v : ℤ)
    → set ((o ++ a ∷ b ∷ x ∷ []) ++ rest) (length o + 2) v ≡ o ++ a ∷ b ∷ v ∷ rest
patch_third o rest a b x v =
    rw
      (
        append_assoc o (a ∷ b ∷ x ∷ []) rest,
        ← append_assoc o (a ∷ b ∷ []) (x ∷ rest),
        ← append_assoc o (a ∷ b ∷ []) (v ∷ rest),
      )
      (set-append (o ++ a ∷ b ∷ []) rest x v (length o + 2)
        (omega (arith, length-append o (a ∷ b ∷ []))))

pub finish_branch :
    (c : Address) (s : Calls) (g : Generator)
    → write_endif (emitted s (tested_if c g)) ≡ some (emitted (Calls.branch c s) g)
unfolding write_endif patch_jump
finish_branch c s g = λ i. some (record g {
  opcodes = ops i;
  breaks_to_patch = add_breaks (breaks s (end i)) g.breaks_to_patch;
  temporaries = noted s (end i) (note c (length g.opcodes + 1) g.temporaries);
})
  where
    start : ℕ
    start = top g.continue_addresses

    test : List ℤ
    test = opcode_jump_if_not ∷ address_word c.mode c.address ∷ pos 0 ∷ []

    end : length (g.opcodes ++ test) ≡ length g.opcodes + 3
    end = length-append g.opcodes test

    total :
        (k : ℕ)
        → length ((g.opcodes ++ test) ++ layout s k start 0 []) ≡ length g.opcodes + 3 + size s
    total k = omega (
      arith,
      end,
      length-append (g.opcodes ++ test) (layout s k start 0 []),
      length-layout s k start 0 [],
    )

    ops :
        set
          ((g.opcodes ++ test) ++ layout s (length (g.opcodes ++ test)) start 0 [])
          (length g.opcodes + 2)
          (pos (length ((g.opcodes ++ test) ++ layout s (length (g.opcodes ++ test)) start 0 [])))
        ≡ g.opcodes ++ layout (Calls.branch c s) (length g.opcodes) start 0 []
    ops =
        rw (total (length (g.opcodes ++ test)), end)
          (patch_third g.opcodes _ opcode_jump_if_not (address_word c.mode c.address) (pos 0) _)

pub add_breaks_nil : (bs : List (List ℕ)) → add_breaks [] bs ≡ bs
add_breaks_nil [] = refl
add_breaks_nil (b ∷ bs) = ap (λ x. x ∷ bs) (append-nil b)

pub emit_words : (ws : List ℤ) (g : Generator) → append_words ws g ≡ emitted (Calls.words ws) g
emit_words ws g = append_words-opcodes ws g ∙ (λ i. record g {
  opcodes = g.opcodes ++ sym (append-nil ws) i;
  breaks_to_patch = sym (add_breaks_nil g.breaks_to_patch) i;
})

pub continue_to-eq :
    (starts : List ℕ) (g : Generator)
    → NonEmpty starts
    → continue_to starts g
      ≡ some (record g {
        opcodes = g.opcodes ++ opcode_jump ∷ pos (top starts) ∷ [];
        breaks_to_patch = add_breaks [] g.breaks_to_patch;
      })
unfolding continue_to append
continue_to-eq [] g h = absurd h
continue_to-eq (start ∷ starts) g h = λ i. some (record g {
  opcodes = append_assoc g.opcodes (opcode_jump ∷ []) (pos start ∷ []) i;
  breaks_to_patch = sym (add_breaks_nil g.breaks_to_patch) i;
})

pub break_to-eq :
    (bs : List (List ℕ)) (g : Generator)
    → NonEmpty bs
    → break_to bs g
      ≡ some (record g {
        opcodes = g.opcodes ++ opcode_jump ∷ pos 0 ∷ [];
        breaks_to_patch = add_breaks ((length g.opcodes + 1) ∷ []) bs;
      })
unfolding break_to append
break_to-eq [] g h = absurd h
break_to-eq (b ∷ bs) g h = λ i. some (record g {
  opcodes = append_assoc g.opcodes (opcode_jump ∷ []) (pos 0 ∷ []) i;
  breaks_to_patch = (b ++ behind_one g.opcodes opcode_jump i ∷ []) ∷ bs;
})

-- ===== src/Codegen/Layout.antt =====
-- What the calls of the code generator for nested branches and loops should emit, with every jump
-- known from the start.
use barista_script.Common.{
  ℕ, ◌+◌, ◌≡◌, refl, sym, ap, ◌∙◌, Option, none, some, List, [], ◌∷◌, ◌++◌, length, length-append,
  append_assoc, arith,
}
use barista_script.Common.Int.{ℤ, pos}
use barista_script.Codegen.Address.{Address}
use barista_script.Codegen.State.{Generator, append, address_word}
use barista_script.Codegen.Jumps.{
  opcode_jump, opcode_jump_if_not, write_if, write_else, write_endif, start_while_condition,
  write_while, write_endwhile, write_break, write_continue,
}

-- The calls of the compiler for a statement; `words` are those that write no jump.
pub data Calls : Type 0 where
  words : List ℤ → Calls
  seq : Calls → Calls → Calls
  branch : Address → Calls → Calls
  branch_else : Address → Calls → Calls → Calls
  loop : List ℤ → Address → Calls → Calls
  break_loop continue_loop : Calls

-- The loop's condition is evaluated by `ws` into the address.
unfoldable pub append_words : List ℤ → Generator → Generator
append_words [] g = g
append_words (w ∷ ws) g = append_words ws (append w g)

infixl 5 ◌>>=◌
abbrev ◌>>=◌ : Option Generator → (Generator → Option Generator) → Option Generator
none >>= f = none
some g >>= f = f g

unfoldable pub emit : Calls → Generator → Option Generator
unfolding append_words
emit (Calls.words ws) g = some (append_words ws g)
emit (Calls.seq a b) g = emit a g >>= emit b
emit (Calls.branch c s) g = emit s (write_if c g) >>= write_endif
emit (Calls.branch_else c s t) g = emit s (write_if c g) >>= write_else >>= emit t >>= write_endif
emit (Calls.loop ws c s) g =
    emit s (write_while c (append_words ws (start_while_condition g))) >>= write_endwhile
emit Calls.break_loop g = write_break g
emit Calls.continue_loop g = write_continue g

abbrev pub size : Calls → ℕ
size (Calls.words ws) = length ws
size (Calls.seq a b) = size a + size b
size (Calls.branch c s) = 3 + size s
size (Calls.branch_else c s t) = 5 + size s + size t
size (Calls.loop ws c s) = length ws + 5 + size s
size Calls.break_loop = 2
size Calls.continue_loop = 2

-- The words from `base` on and what follows them, for a loop that begins at `start` and is left
-- to `exit`.
abbrev pub layout : Calls → ℕ → ℕ → ℕ → List ℤ → List ℤ
layout (Calls.words ws) base start exit rest = ws ++ rest
layout (Calls.seq a b) base start exit rest =
    layout a base start exit (layout b (base + size a) start exit rest)
layout (Calls.branch c s) base start exit rest =
    opcode_jump_if_not
    ∷ address_word c.mode c.address
    ∷ pos (base + 3 + size s)
    ∷ layout s (base + 3) start exit rest
layout (Calls.branch_else c s t) base start exit rest =
    opcode_jump_if_not
    ∷ address_word c.mode c.address
    ∷ pos (base + 5 + size s)
    ∷ layout s (base + 3) start exit (
        opcode_jump
        ∷ pos (base + 5 + size s + size t)
        ∷ layout t (base + 5 + size s) start exit rest)
layout (Calls.loop ws c s) base start exit rest =
    ws
    ++ (opcode_jump_if_not
        ∷ address_word c.mode c.address
        ∷ pos (base + length ws + 5 + size s)
        ∷ layout s (base + length ws + 3) base (base + length ws + 5 + size s)
            (opcode_jump ∷ pos base ∷ rest))
layout Calls.break_loop base start exit rest = opcode_jump ∷ pos exit ∷ rest
layout Calls.continue_loop base start exit rest = opcode_jump ∷ pos start ∷ rest

-- The positions of the jumps out of the loop around the code.
abbrev pub breaks : Calls → ℕ → List ℕ
breaks (Calls.words ws) base = []
breaks (Calls.seq a b) base = breaks a base ++ breaks b (base + size a)
breaks (Calls.branch c s) base = breaks s (base + 3)
breaks (Calls.branch_else c s t) base = breaks s (base + 3) ++ breaks t (base + 5 + size s)
breaks (Calls.loop ws c s) base = []
breaks Calls.break_loop base = (base + 1) ∷ []
breaks Calls.continue_loop base = []

pub layout-append :
    (s : Calls) (base start exit : ℕ) (u v : List ℤ)
    → layout s base start exit (u ++ v) ≡ layout s base start exit u ++ v
layout-append (Calls.words ws) base start exit u v = sym (append_assoc ws u v)
layout-append (Calls.seq a b) base start exit u v =
    ap (layout a base start exit) (layout-append b (base + size a) start exit u v)
    ∙ layout-append a base start exit (layout b (base + size a) start exit u) v
layout-append (Calls.branch c s) base start exit u v =
    ap (λ r. opcode_jump_if_not ∷ address_word c.mode c.address ∷ pos (base + 3 + size s) ∷ r)
      (layout-append s (base + 3) start exit u v)
layout-append (Calls.branch_else c s t) base start exit u v =
    ap (λ r. opcode_jump_if_not ∷ address_word c.mode c.address ∷ pos (base + 5 + size s) ∷ r)
      (ap (λ r. layout s (base + 3) start exit (opcode_jump ∷ pos (base + 5 + size s + size t) ∷ r))
          (layout-append t (base + 5 + size s) start exit u v)
        ∙ layout-append s (base + 3) start exit _ v)
layout-append (Calls.loop ws c s) base start exit u v =
    ap
      (λ r.
        ws
        ++ (opcode_jump_if_not
            ∷ address_word c.mode c.address
            ∷ pos (base + length ws + 5 + size s)
            ∷ r))
      (layout-append s (base + length ws + 3) base (base + length ws + 5 + size s) _ v)
    ∙ sym (append_assoc ws _ v)
layout-append Calls.break_loop base start exit u v = refl
layout-append Calls.continue_loop base start exit u v = refl

pub length-layout :
    (s : Calls) (base start exit : ℕ) (rest : List ℤ)
    → length (layout s base start exit rest) ≡ size s + length rest
length-layout (Calls.words ws) base start exit rest = length-append ws rest
length-layout (Calls.seq a b) base start exit rest = omega (
  arith,
  length-layout a base start exit (layout b (base + size a) start exit rest),
  length-layout b (base + size a) start exit rest,
)
length-layout (Calls.branch c s) base start exit rest =
    omega (arith, length-layout s (base + 3) start exit rest)
length-layout (Calls.branch_else c s t) base start exit rest = omega (
  arith,
  length-layout s (base + 3) start exit (
      opcode_jump
      ∷ pos (base + 5 + size s + size t)
      ∷ layout t (base + 5 + size s) start exit rest),
  length-layout t (base + 5 + size s) start exit rest,
)
length-layout (Calls.loop ws c s) base start exit rest = omega (
  arith,
  length-append ws (
      opcode_jump_if_not
      ∷ address_word c.mode c.address
      ∷ pos (base + length ws + 5 + size s)
      ∷ layout s (base + length ws + 3) base (base + length ws + 5 + size s)
          (opcode_jump ∷ pos base ∷ rest)),
  length-layout s (base + length ws + 3) base (base + length ws + 5 + size s)
      (opcode_jump ∷ pos base ∷ rest),
)
length-layout Calls.break_loop base start exit rest = omega arith
length-layout Calls.continue_loop base start exit rest = omega arith

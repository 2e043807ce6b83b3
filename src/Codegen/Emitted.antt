-- ===== src/Codegen/Emitted.antt =====
-- src/bs_byte_codegen.cpp: the generator after the code of a statement.
use barista_script.Common.{
  ℕ, ◌+◌, ◌≡◌, refl, sym, ap, ◌∙◌, Bool, true, List, [], ◌∷◌, ◌++◌, length, length-append,
  append_assoc, append-nil, arith,
}
use barista_script.Common.Int.{ℤ, pos}
use barista_script.Codegen.Address.{Address}
use barista_script.Codegen.State.{Generator, StackSlot, append, append_address, address_word, note}
use barista_script.Codegen.Jumps.{opcode_jump_if_not, append_branch, write_if, write_while}
use barista_script.Codegen.Layout.{
  Calls, append_words, layout, layout-append, length-layout, breaks, size,
}

-- Breaks and continues stand inside a loop.
abbrev pub Placed : Bool → Calls → Type 0
Placed inside (Calls.words ws) = Unit {0}
Placed inside (Calls.seq a b) = Placed inside a × Placed inside b
Placed inside (Calls.branch c s) = Placed inside s
Placed inside (Calls.branch_else c s t) = Placed inside s × Placed inside t
Placed inside (Calls.loop ws c s) = Placed true s
Placed inside Calls.break_loop = inside ≡ true
Placed inside Calls.continue_loop = inside ≡ true

abbrev pub NonEmpty : {A : Type 0} → List A → Type 0
NonEmpty [] = ⊥
NonEmpty (x ∷ xs) = Unit {0}

-- The generator is in a loop, whose start and breaks are on its stacks.
abbrev pub Within : Bool → Generator → Type 0
Within inside g = inside ≡ true → NonEmpty g.continue_addresses × NonEmpty g.breaks_to_patch

-- The start of the loop around.
abbrev pub top : List ℕ → ℕ
top [] = 0
top (start ∷ starts) = start

abbrev pub add_breaks : List ℕ → List (List ℕ) → List (List ℕ)
add_breaks positions [] = []
add_breaks positions (breaks ∷ outer) = (breaks ++ positions) ∷ outer

-- The addresses of temporaries that the code notes.
abbrev pub noted : Calls → ℕ → List StackSlot → List StackSlot
noted (Calls.words ws) base slots = slots
noted (Calls.seq a b) base slots = noted b (base + size a) (noted a base slots)
noted (Calls.branch c s) base slots = noted s (base + 3) (note c (base + 1) slots)
noted (Calls.branch_else c s t) base slots =
    noted t (base + 5 + size s) (noted s (base + 3) (note c (base + 1) slots))
noted (Calls.loop ws c s) base slots =
    noted s (base + length ws + 3) (note c (base + length ws + 1) slots)
noted Calls.break_loop base slots = slots
noted Calls.continue_loop base slots = slots

-- The generator after the code, whose open jumps are 0 and wait for the loop around.
abbrev pub emitted : Calls → Generator → Generator
emitted s g = record g {
  opcodes = g.opcodes ++ layout s (length g.opcodes) (top g.continue_addresses) 0 [];
  breaks_to_patch = add_breaks (breaks s (length g.opcodes)) g.breaks_to_patch;
  temporaries = noted s (length g.opcodes) g.temporaries;
}

pub append_three :
    {A : Type 0} (xs : List A) (a b c : A)
    → ((xs ++ a ∷ []) ++ b ∷ []) ++ c ∷ [] ≡ xs ++ a ∷ b ∷ c ∷ []
append_three xs a b c =
    append_assoc (xs ++ a ∷ []) (b ∷ []) (c ∷ []) ∙ append_assoc xs (a ∷ []) (b ∷ c ∷ [])

pub behind_one : {A : Type 0} (xs : List A) (a : A) → length (xs ++ a ∷ []) ≡ length xs + 1
behind_one xs a = length-append xs (a ∷ [])

pub behind_two :
    {A : Type 0} (xs : List A) (a b : A) → length ((xs ++ a ∷ []) ++ b ∷ []) ≡ length xs + 2
behind_two xs a b = omega (arith, behind_one xs a, behind_one (xs ++ a ∷ []) b)

-- A test and its open jump.
abbrev pub tested : ℤ → Address → Generator → Generator
tested opcode c g = record g {
  opcodes = g.opcodes ++ opcode ∷ address_word c.mode c.address ∷ pos 0 ∷ [];
  temporaries = note c (length g.opcodes + 1) g.temporaries;
}

abbrev pub tested_if : Address → Generator → Generator
tested_if c g = record (tested opcode_jump_if_not c g) {
  if_jump_addresses = (length g.opcodes + 2) ∷ g.if_jump_addresses;
}

abbrev pub tested_while : Address → Generator → Generator
tested_while c g = record (tested opcode_jump_if_not c g) {
  while_jump_addresses = (length g.opcodes + 2) ∷ g.while_jump_addresses;
}

pub write_if-tested : (c : Address) (g : Generator) → write_if c g ≡ tested_if c g
unfolding write_if append_branch append_address append
write_if-tested c g = λ i. record g {
  opcodes = append_three g.opcodes opcode_jump_if_not (address_word c.mode c.address) (pos 0) i;
  if_jump_addresses =
      behind_two g.opcodes opcode_jump_if_not (address_word c.mode c.address) i
      ∷ g.if_jump_addresses;
  temporaries = note c (behind_one g.opcodes opcode_jump_if_not i) g.temporaries;
}

pub write_while-tested : (c : Address) (g : Generator) → write_while c g ≡ tested_while c g
unfolding write_while append_branch append_address append
write_while-tested c g = λ i. record g {
  opcodes = append_three g.opcodes opcode_jump_if_not (address_word c.mode c.address) (pos 0) i;
  while_jump_addresses =
      behind_two g.opcodes opcode_jump_if_not (address_word c.mode c.address) i
      ∷ g.while_jump_addresses;
  temporaries = note c (behind_one g.opcodes opcode_jump_if_not i) g.temporaries;
}

pub append_words-opcodes :
    (ws : List ℤ) (g : Generator) → append_words ws g ≡ record g { opcodes = g.opcodes ++ ws }
unfolding append_words append
append_words-opcodes [] g = ap (λ ops. record g { opcodes = ops }) (sym (append-nil g.opcodes))
append_words-opcodes (w ∷ ws) g =
    append_words-opcodes ws (append w g)
    ∙ (λ i. record g { opcodes = append_assoc g.opcodes (w ∷ []) ws i })

pub NonEmpty-add_breaks :
    (positions : List ℕ) (bs : List (List ℕ)) → NonEmpty bs → NonEmpty (add_breaks positions bs)
NonEmpty-add_breaks positions [] h = h
NonEmpty-add_breaks positions (b ∷ bs) h = tt

pub add_breaks-append :
    (ps qs : List ℕ) (bs : List (List ℕ))
    → add_breaks qs (add_breaks ps bs) ≡ add_breaks (ps ++ qs) bs
add_breaks-append ps qs [] = refl
add_breaks-append ps qs (b ∷ bs) = ap (λ x. x ∷ bs) (append_assoc b ps qs)

pub Within-emitted :
    (inside : Bool) (s : Calls) (g : Generator) → Within inside g → Within inside (emitted s g)
Within-emitted inside s g w h = ((w h).0, NonEmpty-add_breaks _ g.breaks_to_patch (w h).1)

-- Calls behind code.
pub emitted-seq :
    (a b : Calls) (g : Generator) → emitted b (emitted a g) ≡ emitted (Calls.seq a b) g
emitted-seq a b g = λ i. record g {
  opcodes = ops i;
  breaks_to_patch = brs i;
  temporaries = noted b (end i) (noted a n g.temporaries);
}
  where
    n : ℕ
    n = length g.opcodes

    start : ℕ
    start = top g.continue_addresses

    first : List ℤ
    first = layout a n start 0 []

    end : length (g.opcodes ++ first) ≡ n + size a
    end = omega (arith, length-append g.opcodes first, length-layout a n start 0 [])

    ops :
        (g.opcodes ++ first) ++ layout b (length (g.opcodes ++ first)) start 0 []
        ≡ g.opcodes ++ layout a n start 0 (layout b (n + size a) start 0 [])
    ops =
        ap (λ k. (g.opcodes ++ first) ++ layout b k start 0 []) end
        ∙ (append_assoc g.opcodes first _
            ∙ ap (λ xs. g.opcodes ++ xs)
                (sym (layout-append a n start 0 [] (layout b (n + size a) start 0 []))))

    brs :
        add_breaks
          (breaks b (length (g.opcodes ++ first)))
          (add_breaks (breaks a n) g.breaks_to_patch)
        ≡ add_breaks (breaks a n ++ breaks b (n + size a)) g.breaks_to_patch
    brs =
        ap (λ k. add_breaks (breaks b k) (add_breaks (breaks a n) g.breaks_to_patch)) end
        ∙ add_breaks-append (breaks a n) (breaks b (n + size a)) g.breaks_to_patch

-- ===== src/Codegen/Patch.antt =====
-- src/bs_byte_codegen.cpp: what patching the jumps of a loop does to the code.
use barista_script.Common.{
  ℕ, zero, suc, ◌+◌, ◌≡◌, refl, ap, ◌∙◌, List, [], ◌∷◌, ◌++◌, length, length-append, set,
  append_assoc, arith,
}
use barista_script.Common.Int.{ℤ, pos}
use barista_script.Codegen.State.{Generator, address_word, patch_jump}
use barista_script.Codegen.Jumps.{opcode_jump, opcode_jump_if_not, patch_breaks}
use barista_script.Codegen.Layout.{Calls, layout, layout-append, length-layout, breaks, size}

module _ {A : Type 0} where
  pub length-set : (xs : List A) (i : ℕ) (v : A) → length (set xs i v) ≡ length xs
  length-set [] i v = refl
  length-set (x ∷ xs) zero v = refl
  length-set (x ∷ xs) (suc i) v = ap suc (length-set xs i v)

  pub set-append :
      (pre post : List A) (x v : A) (i : ℕ)
      → i ≡ length pre
      → set (pre ++ x ∷ post) i v ≡ pre ++ v ∷ post
  set-append [] post x v zero e = refl
  set-append [] post x v (suc i) e = absurd (omega arith)
  set-append (y ∷ pre) post x v zero e = absurd (omega arith)
  set-append (y ∷ pre) post x v (suc i) e = ap (◌∷◌ y) (set-append pre post x v i (omega arith))

  -- The same value at several positions.
  unfoldable pub set_each : List ℕ → List A → A → List A
  set_each [] xs v = xs
  set_each (i ∷ is) xs v = set_each is (set xs i v) v

  set_each-append :
      (is js : List ℕ) (xs : List A) (v : A)
      → set_each (is ++ js) xs v ≡ set_each js (set_each is xs v) v
  unfolding set_each
  set_each-append [] js xs v = refl
  set_each-append (i ∷ is) js xs v = set_each-append is js (set xs i v) v

  -- Positions behind a part of the list.
  pub set_each_behind :
      (is : List ℕ) (pre mid xs ys : List A) (v : A)
      → set_each is ((pre ++ mid) ++ xs) v ≡ (pre ++ mid) ++ ys
      → set_each is (pre ++ (mid ++ xs)) v ≡ pre ++ (mid ++ ys)
  set_each_behind is pre mid xs ys v h = rw (← append_assoc pre mid xs, ← append_assoc pre mid ys) h

pub patch_breaks-set_each :
    (is : List ℕ) (g : Generator)
    → patch_breaks is g ≡ record g { opcodes = set_each is g.opcodes (pos (length g.opcodes)) }
unfolding patch_breaks patch_jump set_each
patch_breaks-set_each [] g = refl
patch_breaks-set_each (i ∷ is) g =
    patch_breaks-set_each is (patch_jump i g)
    ∙ ap
        (λ n. record g { opcodes = set_each is (set g.opcodes i (pos (length g.opcodes))) (pos n) })
        (length-set g.opcodes i (pos (length g.opcodes)))

layout-rest :
    (s : Calls) (base start exit : ℕ) (rest : List ℤ)
    → layout s base start exit rest ≡ layout s base start exit [] ++ rest
layout-rest s base start exit rest = layout-append s base start exit [] rest

-- Patching the jumps out of a loop gives the code in which they were known.
pub set_each-layout :
    (s : Calls) (pre : List ℤ) (base start exit : ℕ) (rest : List ℤ)
    → length pre ≡ base
    → set_each (breaks s base) (pre ++ layout s base start 0 rest) (pos exit)
      ≡ pre ++ layout s base start exit rest
unfolding set_each
set_each-layout (Calls.words ws) pre base start exit rest e = refl
set_each-layout (Calls.seq a b) pre base start exit rest e =
    set_each-append (breaks a base) (breaks b (base + size a)) _ (pos exit)
    ∙ (ap (λ xs. set_each (breaks b (base + size a)) xs (pos exit))
          (set_each-layout a pre base start exit (layout b (base + size a) start 0 rest) e)
        ∙ rw
            (
              layout-rest a base start exit (layout b (base + size a) start 0 rest),
              layout-rest a base start exit (layout b (base + size a) start exit rest),
            )
            (set_each_behind (breaks b (base + size a)) pre (layout a base start exit []) _ _
              (pos exit)
              (set_each-layout b (pre ++ layout a base start exit []) (base + size a) start exit
                rest
                (omega (
                  arith,
                  length-append pre (layout a base start exit []),
                  length-layout a base start exit [],
                )))))
set_each-layout (Calls.branch c s) pre base start exit rest e =
    set_each_behind (breaks s (base + 3)) pre
      (opcode_jump_if_not ∷ address_word c.mode c.address ∷ pos (base + 3 + size s) ∷ []) _ _
      (pos exit)
      (set_each-layout s (pre ++ _) (base + 3) start exit rest (
        omega (
          arith,
          length-append pre
              (opcode_jump_if_not ∷ address_word c.mode c.address ∷ pos (base + 3 + size s) ∷ []),
        )))
set_each-layout (Calls.branch_else c s t) pre base start exit rest e =
    set_each-append (breaks s (base + 3)) (breaks t (base + 5 + size s)) _ (pos exit)
    ∙ (ap (λ xs. set_each (breaks t (base + 5 + size s)) xs (pos exit))
          (set_each_behind (breaks s (base + 3)) pre test _ _ (pos exit) (
            set_each-layout s (pre ++ test) (base + 3) start exit (skip ++ other 0)
              (omega (arith, length-append pre test))))
        ∙ rw
            (
              layout-append s (base + 3) start exit skip (other 0),
              layout-append s (base + 3) start exit skip (other exit),
            )
            (set_each_behind (breaks t (base + 5 + size s)) pre (test ++ first) _ _ (pos exit) (
              set_each-layout t (pre ++ (test ++ first)) (base + 5 + size s) start exit rest (
                omega (
                  arith,
                  length-append pre (test ++ first),
                  length-layout s (base + 3) start exit skip,
                )))))
  where
    test : List ℤ
    test = opcode_jump_if_not ∷ address_word c.mode c.address ∷ pos (base + 5 + size s) ∷ []

    skip : List ℤ
    skip = opcode_jump ∷ pos (base + 5 + size s + size t) ∷ []

    first : List ℤ
    first = layout s (base + 3) start exit skip

    other : ℕ → List ℤ
    other leave = layout t (base + 5 + size s) start leave rest
set_each-layout (Calls.loop ws c s) pre base start exit rest e = refl
set_each-layout Calls.break_loop pre base start exit rest e =
    set_each_behind ((base + 1) ∷ []) pre (opcode_jump ∷ []) _ _ (pos exit) (
      set-append (pre ++ opcode_jump ∷ []) rest (pos 0) (pos exit) (base + 1)
        (omega (arith, length-append pre (opcode_jump ∷ []))))
set_each-layout Calls.continue_loop pre base start exit rest e = refl

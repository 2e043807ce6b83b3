-- ===== src/Codegen/Notes.antt =====
-- src/bs_byte_codegen.cpp: the positions that temporaries note for their addresses.
use barista_script.Common.{
  ℕ, zero, suc, ◌+◌, ◌<◌, ◌≤◌, ◌≡◌, Bool, true, Option, List, [], ◌∷◌, ◌++◌, length, length-append,
  if◌then◌else◌, ltb, ◌==◌, Bool-cases, inl, inr, arith,
}
use barista_script.Common.Int.{ℤ, pos}
use barista_script.Codegen.Address.{Address}
use barista_script.Codegen.State.{
  Generator, StackSlot, new_generator, append, append_address, note_position, is_temporary,
  address_word, patch_jump,
}
use barista_script.Codegen.Slots.{has_slot, add_temporary, take_temporary, pool_type}
use barista_script.Codegen.Temporaries.{count, count-append}
use barista_script.Codegen.Patch.{length-set}

-- How many notes there are of a position.
abbrev pub notes : ℕ → List StackSlot → ℕ
notes p [] = 0
notes p (s ∷ slots) = count p s.bytecode_indices + notes p slots

-- A position is noted once at most, and none behind the code.
pub record Noted (g : Generator) : Type 0 where
  pub bounded : (p : ℕ) → notes p g.temporaries ≤ (if ltb p (length g.opcodes) then 1 else 0)

pub notes-note_position :
    (p position slot : ℕ) (slots : List StackSlot)
    → notes p (note_position position slot slots) ≤ notes p slots + (if position == p then 1 else 0)
unfolding note_position
notes-note_position p position slot [] = omega arith
notes-note_position p position zero (s ∷ slots) =
    omega (arith, count-append p s.bytecode_indices (position ∷ []))
notes-note_position p position (suc slot) (s ∷ slots) =
    omega (arith, notes-note_position p position slot slots)

pub notes-append : (p : ℕ) (xs ys : List StackSlot) → notes p (xs ++ ys) ≡ notes p xs + notes p ys
notes-append p [] ys = omega arith
notes-append p (x ∷ xs) ys = omega (arith, notes-append p xs ys)

pub count_of_has_slot : (p : ℕ) (is : List ℕ) → has_slot p is ≡ true → 1 ≤ count p is
unfolding has_slot
count_of_has_slot p [] h = ground (arith, h)
count_of_has_slot p (i ∷ is) h = ground (arith, h, count_of_has_slot p is)

-- The notes of a temporary, by its number.
abbrev pub notes_of : List StackSlot → ℕ → List ℕ
notes_of [] i = []
notes_of (s ∷ slots) zero = s.bytecode_indices
notes_of (s ∷ slots) (suc i) = notes_of slots i

pub notes_of-has_slot :
    (p i : ℕ) (slots : List StackSlot) → has_slot p (notes_of slots i) ≡ true → 1 ≤ notes p slots
unfolding has_slot
notes_of-has_slot p i [] h = ground (arith, h)
notes_of-has_slot p zero (s ∷ slots) h = omega (arith, count_of_has_slot p s.bytecode_indices h)
notes_of-has_slot p (suc i) (s ∷ slots) h = omega (arith, notes_of-has_slot p i slots h)

pub Noted-lt :
    (p i : ℕ) (g : Generator)
    → Noted g
    → has_slot p (notes_of g.temporaries i) ≡ true
    → p < length g.opcodes
Noted-lt p i g n noted = ground (arith, n.bounded p, notes_of-has_slot p i g.temporaries noted)

new_generator-Noted : Noted new_generator
new_generator-Noted = record { bounded = λ p. ground arith }

append-Noted : (value : ℤ) (g : Generator) → Noted g → Noted (append value g)
unfolding append
append-Noted value g n = record {
  bounded = λ p. ground (arith, n.bounded p, length-append g.opcodes (value ∷ []));
}

append_address-Noted : (a : Address) (g : Generator) → Noted g → Noted (append_address a g)
unfolding append_address append
append_address-Noted a g n = record {
  bounded = λ p. elim (Bool-cases (is_temporary a.mode)) [
    | inl temporary ↦ rw (temporary) (
        ground (
          arith,
          n.bounded p,
          length-append g.opcodes (address_word a.mode a.address ∷ []),
          notes-note_position p (length g.opcodes) a.address g.temporaries,
        ))
    | inr other ↦
        rw (other) (
          ground (arith, n.bounded p, length-append g.opcodes (address_word a.mode a.address ∷ [])))
  ];
}

patch_jump-Noted : (position : ℕ) (g : Generator) → Noted g → Noted (patch_jump position g)
unfolding patch_jump
patch_jump-Noted position g n = record {
  bounded = λ p. rw (length-set g.opcodes position (pos (length g.opcodes))) (n.bounded p);
}

take_temporary-Noted :
    (type : ℕ) (pool : List ℕ) (g : Generator) → Noted g → Noted (take_temporary type pool g).1
unfolding take_temporary
take_temporary-Noted type [] g n = record {
  bounded = λ p. omega (
    arith,
    n.bounded p,
    notes-append p g.temporaries (record { type = type; bytecode_indices = [] } ∷ []),
  );
}
take_temporary-Noted type (slot ∷ pool) g n = record { bounded = n.bounded }

-- The generator's states, by what happens to the code and to the temporaries.
pub data Writing (never_pooled : ℕ → Bool) : Generator → Type 0 where
  started : Writing never_pooled new_generator
  wrote :
      (value : ℤ) (g : Generator) → Writing never_pooled g → Writing never_pooled (append value g)
  addressed :
      (a : Address) (g : Generator)
      → Writing never_pooled g
      → Writing never_pooled (append_address a g)
  patched :
      (position : ℕ) (g : Generator)
      → Writing never_pooled g
      → Writing never_pooled (patch_jump position g)
  other :
      (g h : Generator)
      → Writing never_pooled g
      → h.opcodes ≡ g.opcodes
      → h.temporaries ≡ g.temporaries
      → Writing never_pooled h
  taken :
      (builtin : Option ℕ) (g : Generator)
      → Writing never_pooled g
      → Writing never_pooled (add_temporary never_pooled builtin g).1

-- In every state that writing words and addresses, patching jumps, adding temporaries and steps that
-- touch neither the code nor the temporaries reach, each
-- position of the code is noted by one temporary at most, and none behind the code.
pub Writing-Noted : (never_pooled : ℕ → Bool) (g : Generator) → Writing never_pooled g → Noted g
unfolding add_temporary
Writing-Noted never_pooled _ Writing.started = new_generator-Noted
Writing-Noted never_pooled _ (Writing.wrote value g w) =
    append-Noted value g (Writing-Noted never_pooled g w)
Writing-Noted never_pooled _ (Writing.addressed a g w) =
    append_address-Noted a g (Writing-Noted never_pooled g w)
Writing-Noted never_pooled _ (Writing.patched position g w) =
    patch_jump-Noted position g (Writing-Noted never_pooled g w)
Writing-Noted never_pooled _ (Writing.other g h w ops slots) = record {
  bounded = λ p. rw (ops, slots) ((Writing-Noted never_pooled g w).bounded p);
}
Writing-Noted never_pooled _ (Writing.taken builtin g w) =
    take_temporary-Noted (pool_type never_pooled builtin) _ g (Writing-Noted never_pooled g w)

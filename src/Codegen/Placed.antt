-- ===== src/Codegen/Placed.antt =====
-- src/bs_byte_codegen.cpp: the word of every temporary is placed, and no other word is touched.
use barista_script.Common.{
  ℕ, zero, suc, ◌+◌, ◌<◌, ◌≤◌, ◌≡◌, ◌≢◌, ==_iff, refl, ap, ◌∙◌, true, false, none, some, List, [],
  ◌∷◌, length, length-append, get_elem?, get_elem?-append_lt, set, if◌then◌else◌, ◌==◌, Bool-cases,
  inl, inr, arith,
}
use barista_script.Common.Int.{ℤ, pos}
use barista_script.Codegen.Address.{
  fixed_addresses_max, addr_type_stack, addr_range, pack_address, address_type, address_index,
}
use barista_script.Codegen.Packed.{
  address_type-pack_address, address_index-pack_address, address_type-pack_address_outside,
}
use barista_script.Codegen.State.{Generator, StackSlot, append, check_address_fits}
use barista_script.Codegen.Slots.{has_slot}
use barista_script.Codegen.Patch.{set_each, length-set}
use barista_script.Codegen.Finish.{Function, place_temporaries, finish, write_end, opcode_end}
use barista_script.Codegen.Notes.{
  Noted, notes, notes_of, notes_of-has_slot, Noted-lt, count_of_has_slot,
}

pub get_elem?-set_eq :
    {A : Type 0} (xs : List A) (p : ℕ) (v : A) → p < length xs → get_elem? (set xs p v) p ≡ some v
get_elem?-set_eq [] p v h = absurd (omega arith)
get_elem?-set_eq (x ∷ xs) zero v h = refl
get_elem?-set_eq (x ∷ xs) (suc p) v h = get_elem?-set_eq xs p v (omega arith)

pub get_elem?-set_ne :
    {A : Type 0} (xs : List A) (i p : ℕ) (v : A) → i ≢ p → get_elem? (set xs i v) p ≡ get_elem? xs p
get_elem?-set_ne [] i p v h = refl
get_elem?-set_ne (x ∷ xs) zero zero v h = absurd (h refl)
get_elem?-set_ne (x ∷ xs) zero (suc p) v h = refl
get_elem?-set_ne (x ∷ xs) (suc i) zero v h = refl
get_elem?-set_ne (x ∷ xs) (suc i) (suc p) v h = get_elem?-set_ne xs i p v (λ e. h (ap suc e))

length-set_each :
    {A : Type 0} (is : List ℕ) (xs : List A) (v : A) → length (set_each is xs v) ≡ length xs
unfolding set_each
length-set_each [] xs v = refl
length-set_each (i ∷ is) xs v = length-set_each is (set xs i v) v ∙ length-set xs i v

-- A value that is there stays when it is written again.
set_each-keeps :
    {A : Type 0} (is : List ℕ) (xs : List A) (p : ℕ) (v : A)
    → get_elem? xs p ≡ some v
    → p < length xs
    → get_elem? (set_each is xs v) p ≡ some v
unfolding set_each
set_each-keeps [] xs p v there h = there
set_each-keeps (i ∷ is) xs p v there h =
    set_each-keeps is (set xs i v) p v
      (elim (Bool-cases (i == p)) [
        | inl same ↦ rw ((==_iff i p).0 same) (get_elem?-set_eq xs p v h)
        | inr other ↦ get_elem?-set_ne xs i p v (λ e. ground (arith, e, other)) ∙ there
      ])
      (omega (arith, h, length-set xs i v))

get_elem?-set_each :
    {A : Type 0} (is : List ℕ) (xs : List A) (p : ℕ) (v : A)
    → p < length xs
    → get_elem? (set_each is xs v) p ≡ (if has_slot p is then some v else get_elem? xs p)
unfolding set_each has_slot
get_elem?-set_each [] xs p v h = refl
get_elem?-set_each (i ∷ is) xs p v h = elim (Bool-cases (i == p)) [
  | inl same ↦ rw same (
      set_each-keeps is (set xs i v) p v (rw ((==_iff i p).0 same) (get_elem?-set_eq xs p v h))
        (omega (arith, h, length-set xs i v)))
  | inr other ↦ rw other (
      get_elem?-set_each is (set xs i v) p v (omega (arith, h, length-set xs i v))
      ∙ ap (λ w. if has_slot p is then some v else w)
          (get_elem?-set_ne xs i p v (λ e. ground (arith, e, other))))
]

-- A word at a position that no temporary noted stays.
place_temporaries-other :
    (i : ℕ) (slots : List StackSlot) (g : Generator) (p : ℕ)
    → p < length g.opcodes
    → ((j : ℕ) → has_slot p (notes_of slots j) ≡ false)
    → get_elem? (place_temporaries i slots g).opcodes p ≡ get_elem? g.opcodes p
unfolding place_temporaries check_address_fits
place_temporaries-other i [] g p h none_noted = refl
place_temporaries-other i (s ∷ slots) g p h none_noted =
    place_temporaries-other (suc i) slots _ p
      (omega (
        arith,
        h,
        length-set_each s.bytecode_indices g.opcodes (pos (pack_address (i + g.max_locals + 3) 0)),
      ))
      (λ j. none_noted (suc j))
    ∙ (get_elem?-set_each s.bytecode_indices g.opcodes p _ h ∙ rw (none_noted 0) refl)

-- A word that a temporary noted becomes the address of its slot.
place_temporaries-noted :
    (i j : ℕ) (slots : List StackSlot) (g : Generator) (p : ℕ)
    → p < length g.opcodes
    → notes p slots ≤ 1
    → has_slot p (notes_of slots j) ≡ true
    → get_elem? (place_temporaries i slots g).opcodes p
      ≡ some (pos (pack_address (i + j + g.max_locals + fixed_addresses_max) addr_type_stack))
unfolding place_temporaries check_address_fits
place_temporaries-noted i j [] g p h once noted =
    absurd (omega (arith, notes_of-has_slot p j [] noted))
place_temporaries-noted i zero (s ∷ slots) g p h once noted =
    place_temporaries-other (suc i) slots _ p
      (omega (
        arith,
        h,
        length-set_each s.bytecode_indices g.opcodes (pos (pack_address (i + g.max_locals + 3) 0)),
      ))
      (λ j. elim (Bool-cases (has_slot p (notes_of slots j))) [
        | inl also ↦ absurd (
            omega (
              arith,
              once,
              count_of_has_slot p s.bytecode_indices noted,
              notes_of-has_slot p j slots also,
            ))
        | inr fine ↦ fine
      ])
    ∙ (get_elem?-set_each s.bytecode_indices g.opcodes p _ h
        ∙ rw noted (ap (λ n. some (pos (pack_address n addr_type_stack))) (omega arith)))
place_temporaries-noted i (suc j) (s ∷ slots) g p h once noted =
    place_temporaries-noted (suc i) j slots _ p
      (omega (
        arith,
        h,
        length-set_each s.bytecode_indices g.opcodes (pos (pack_address (i + g.max_locals + 3) 0)),
      ))
      (omega (arith, once)) noted
    ∙ ap (λ n. some (pos (pack_address n addr_type_stack))) (omega arith)

-- The word at a position names a slot of the stack.
pub record IsStackSlot (code : List ℤ) (p slot : ℕ) : Type 0 where
  pub word : ℕ
  pub there : get_elem? code p ≡ some (pos word)
  pub in_stack : address_type word ≡ addr_type_stack
  pub of_slot : address_index word ≡ slot

-- The words of a finished function: those that temporaries noted name slots of their own behind the
-- locals and within the stack, and all others are as they were emitted.
pub record IsFinished (g : Generator) (f : Function) : Type 0 where
  pub placed :
      (p i : ℕ)
      → i < length g.temporaries
      → has_slot p (notes_of g.temporaries i) ≡ true
      → IsStackSlot f.code p (i + g.max_locals + fixed_addresses_max)
        × (i + g.max_locals + fixed_addresses_max < f.stack_size)
  pub kept :
      (p : ℕ)
      → p < length g.opcodes
      → ((i : ℕ) → has_slot p (notes_of g.temporaries i) ≡ false)
      → get_elem? f.code p ≡ get_elem? g.opcodes p

-- The function that `write_end` gives.
abbrev finished : Generator → Function
finished g = record {
  code = (place_temporaries 0 g.temporaries (append opcode_end g)).opcodes;
  stack_size = fixed_addresses_max + g.max_locals + length g.temporaries;
}

write_end-finished : (g : Generator) → g.error ≡ none → write_end g ≡ some (finished g)
unfolding write_end finish append
write_end-finished g fine = rw fine refl

-- The word of a temporary's slot, whatever its number.
get_elem?-finished :
    (g : Generator) (p i : ℕ)
    → Noted g
    → has_slot p (notes_of g.temporaries i) ≡ true
    → get_elem? (finished g).code p
      ≡ some (pos (pack_address (i + g.max_locals + fixed_addresses_max) addr_type_stack))
unfolding append
get_elem?-finished g p i n noted =
    place_temporaries-noted 0 i g.temporaries (append opcode_end g) p
      (omega (arith, Noted-lt p i g n noted, length-append g.opcodes (opcode_end ∷ [])))
      (ground (arith, n.bounded p)) noted
    ∙ ap (λ k. some (pos (pack_address k addr_type_stack))) (omega arith)

-- Where positions are noted once at most and inside the code, nothing was refused, and the fixed
-- slots, the locals and the temporaries together fit the 24 bits of an address's index, finishing a
-- function makes the word of every temporary name a slot of its own in the stack's address space,
-- behind the locals and within the stack, and leaves the other words as they are.
pub write_end-IsFinished :
    (g : Generator)
    → Noted g
    → g.error ≡ none
    → fixed_addresses_max + g.max_locals + length g.temporaries ≤ addr_range
    → (f : Function) × (write_end g ≡ some f) × IsFinished g f
unfolding append
write_end-IsFinished g n fine fits = (
  finished g,
  write_end-finished g fine,
  record {
    placed = λ p i there noted. (
      record {
        word = pack_address (i + g.max_locals + fixed_addresses_max) addr_type_stack;
        there = get_elem?-finished g p i n noted;
        in_stack = address_type-pack_address _ (omega (arith, there, fits));
        of_slot = address_index-pack_address _ (omega (arith, there, fits));
      },
      omega (arith, there),
    );
    kept = λ p inside none_noted.
        place_temporaries-other 0 g.temporaries (append opcode_end g) p
          (omega (arith, inside, length-append g.opcodes (opcode_end ∷ []))) none_noted
        ∙ get_elem?-append_lt g.opcodes (opcode_end ∷ []) p inside;
  },
)

-- Where positions are noted once at most and inside the code, nothing was refused before the end, and
-- a temporary's slot is behind the range of an address's index, `write_end` returns a function all the
-- same, in which a word of that temporary names an address space that is not the stack's.
pub write_end-misplaced :
    (g : Generator) (p i : ℕ)
    → Noted g
    → g.error ≡ none
    → has_slot p (notes_of g.temporaries i) ≡ true
    → addr_range ≤ i + g.max_locals + fixed_addresses_max
    → i + g.max_locals + fixed_addresses_max < 2147483648
    → (f : Function) × (write_end g ≡ some f)
      × ((word : ℕ) × (get_elem? f.code p ≡ some (pos word))
          × (address_type word ≢ addr_type_stack))
write_end-misplaced g p i n fine noted outside small = (
  finished g,
  write_end-finished g fine,
  (
    pack_address (i + g.max_locals + fixed_addresses_max) addr_type_stack,
    get_elem?-finished g p i n noted,
    λ same. omega (arith, same, address_type-pack_address_outside _ outside),
  ),
)

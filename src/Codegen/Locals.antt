-- ===== src/Codegen/Locals.antt =====
-- src/bs_byte_codegen.cpp: which local slots still hold what an earlier block left in them.
use barista_script.Common.{
  ℕ, zero, suc, ◌+◌, ◌-◌, ◌<◌, ◌≤◌, ◌≡◌, refl, ap, true, false, ◌||◌, ◌&&◌, List, [], ◌∷◌, length,
  length-append, take, if◌then◌else◌, ltb, leb, ◌==◌, Bool-cases, inl, inr, arith,
}
use barista_script.Codegen.Address.{Address, AddressMode, fixed_addresses_max}
use barista_script.Codegen.State.{Generator, new_generator, is_local, check_address_fits}
use barista_script.Codegen.Slots.{
  add_local, start_block, end_block, end_block_at, insert_slot, insert_slots, has_slot, erase_slot,
  is_local_dirty, mark_clear,
}

has_slot-insert_slot :
    (slot j : ℕ) (dirty : List ℕ)
    → has_slot j (insert_slot slot dirty) ≡ ((slot == j) || has_slot j dirty)
unfolding has_slot insert_slot
has_slot-insert_slot slot j [] = ground arith
has_slot-insert_slot slot j (s ∷ dirty) = ground (arith, has_slot-insert_slot slot j dirty)

has_slot-insert_slots :
    (count slot j : ℕ) (dirty : List ℕ)
    → has_slot j (insert_slots count slot dirty)
      ≡ ((leb (slot + 3) j && ltb j (slot + 3 + count)) || has_slot j dirty)
unfolding insert_slots
has_slot-insert_slots zero slot j dirty = ground arith
has_slot-insert_slots (suc count) slot j dirty = ground (
  arith,
  has_slot-insert_slots count (suc slot) j (insert_slot (slot + 3) dirty),
  has_slot-insert_slot (slot + 3) j dirty,
)

has_slot-erase_slot :
    (slot j : ℕ) (dirty : List ℕ)
    → has_slot j (erase_slot slot dirty) ≡ (if slot == j then false else has_slot j dirty)
unfolding has_slot erase_slot
has_slot-erase_slot slot j [] = ground arith
has_slot-erase_slot slot j (s ∷ dirty) = ground (arith, has_slot-erase_slot slot j dirty)

length-take : {A : Type 0} (n : ℕ) (xs : List A) → n ≤ length xs → length (take n xs) ≡ n
length-take zero xs h = refl
length-take (suc n) [] h = absurd (omega arith)
length-take (suc n) (x ∷ xs) h = ap suc (length-take n xs (omega arith))

-- The counts of the open blocks, the inner first, do not exceed the one that is given.
abbrev pub Nested : ℕ → List ℕ → Type 0
Nested bound [] = Unit {0}
Nested bound (count ∷ counts) = (count ≤ bound) × Nested count counts

-- The high-water mark covers every slot, blocks are nested, and every slot that was given back is
-- dirty.
pub record Framed (g : Generator) : Type 0 where
  pub covered : length g.locals ≤ g.max_locals
  pub nested : Nested (length g.locals) g.block_local_counts
  pub given_back :
      (slot : ℕ)
      → length g.locals ≤ slot
      → slot < g.max_locals
      → has_slot (slot + 3) g.dirty_locals ≡ true

Nested-weaken : (a b : ℕ) (counts : List ℕ) → a ≤ b → Nested a counts → Nested b counts
Nested-weaken a b [] le h = tt
Nested-weaken a b (c ∷ counts) le h = (omega (arith, h.0), h.1)

new_generator-Framed : Framed new_generator
new_generator-Framed = record {
  covered = omega arith;
  nested = tt;
  given_back = λ slot h1 h2. absurd (omega arith);
}

pub add_local-Framed : (type : ℕ) (g : Generator) → Framed g → Framed (add_local type g).1
unfolding add_local check_address_fits
add_local-Framed type g f = record {
  covered = ground (
    arith,
    f.covered,
    length-append g.locals (record { type = type; bytecode_indices = [] } ∷ []),
  );
  nested =
      Nested-weaken (length g.locals) _ g.block_local_counts
        (omega (arith, length-append g.locals (record { type = type; bytecode_indices = [] } ∷ [])))
        f.nested;
  given_back = λ slot h1 h2.
      f.given_back slot
        (omega
          (arith, h1, length-append g.locals (record { type = type; bytecode_indices = [] } ∷ [])))
        (ground (
          arith,
          h1,
          h2,
          length-append g.locals (record { type = type; bytecode_indices = [] } ∷ []),
        ));
}

pub start_block-Framed : (g : Generator) → Framed g → Framed (start_block g)
unfolding start_block
start_block-Framed g f = record {
  covered = f.covered;
  nested = (omega arith, f.nested);
  given_back = f.given_back;
}

end_block_at-Framed :
    (counts : List ℕ) (g : Generator)
    → g.block_local_counts ≡ counts
    → Framed g
    → Framed (end_block_at counts g)
unfolding end_block_at
end_block_at-Framed [] g e f = f
end_block_at-Framed (surviving ∷ rest) g e f = record {
  covered = omega (arith, size, f.covered, inner.0);
  nested = rw size inner.1;
  given_back = λ slot h1 h2. ground (
    arith,
    size,
    h1,
    h2,
    inner.0,
    f.given_back slot,
    has_slot-insert_slots (length g.locals - surviving) surviving (slot + 3) g.dirty_locals,
  );
}
  where
    inner : (surviving ≤ length g.locals) × Nested surviving rest
    inner = rw (e) at f.nested

    size : length (take surviving g.locals) ≡ surviving
    size = length-take surviving g.locals inner.0

pub end_block-Framed : (g : Generator) → Framed g → Framed (end_block g)
unfolding end_block
end_block-Framed g f = end_block_at-Framed g.block_local_counts g refl f

-- Clearing an address that is no slot behind the live ones.
pub mark_clear-Framed :
    (a : Address) (g : Generator)
    → a.address < length g.locals + 3
    → Framed g
    → Framed (mark_clear a g)
unfolding mark_clear
mark_clear-Framed a g live f = elim (Bool-cases (is_local a.mode)) [
  | inl local ↦
      rw (local, mark_clear)
        (record {
          covered = f.covered;
          nested = f.nested;
          given_back = λ slot h1 h2. ground (
            arith,
            live,
            h1,
            f.given_back slot h1 h2,
            has_slot-erase_slot a.address (slot + 3) g.dirty_locals,
          );
        })
  | inr other ↦ rw (other, mark_clear) f
]

-- The frame's states: new locals, blocks that open and close, and clearings of live slots.
pub data Framing : Generator → Type 0 where
  started : Framing new_generator
  local_declared : (type : ℕ) (g : Generator) → Framing g → Framing (add_local type g).1
  opened : (g : Generator) → Framing g → Framing (start_block g)
  closed : (g : Generator) → Framing g → Framing (end_block g)
  slot_cleared :
      (a : Address) (g : Generator)
      → a.address < length g.locals + fixed_addresses_max
      → Framing g
      → Framing (mark_clear a g)

Framing-Framed : (g : Generator) → Framing g → Framed g
Framing-Framed _ Framing.started = new_generator-Framed
Framing-Framed _ (Framing.local_declared type g r) = add_local-Framed type g (Framing-Framed g r)
Framing-Framed _ (Framing.opened g r) = start_block-Framed g (Framing-Framed g r)
Framing-Framed _ (Framing.closed g r) = end_block-Framed g (Framing-Framed g r)
Framing-Framed _ (Framing.slot_cleared a g live r) = mark_clear-Framed a g live (Framing-Framed g r)

-- In every state that declarations, blocks and clearings of live slots reach, a new local stands
-- within the frame, in the slot behind the live ones, and it is reported as dirty where any local
-- had that slot before.
pub add_local-dirty :
    (type : ℕ) (g : Generator)
    → Framing g
    → ((add_local type g).0 ≡ length g.locals + fixed_addresses_max)
      × ((add_local type g).0 < fixed_addresses_max + (add_local type g).1.max_locals)
      × (length g.locals < g.max_locals
          → is_local_dirty
              (record { mode = AddressMode.local_variable; address = (add_local type g).0 })
              (add_local type g).1
            ≡ true)
unfolding add_local check_address_fits is_local_dirty
add_local-dirty type g r =
    let f = Framing-Framed g r in
    (
      refl,
      ground (
        arith,
        f.covered,
        length-append g.locals (record { type = type; bytecode_indices = [] } ∷ []),
      ),
      λ reused. f.given_back (length g.locals) (omega arith) reused,
    )

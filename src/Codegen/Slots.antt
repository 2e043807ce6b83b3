-- ===== src/Codegen/Slots.antt =====
-- src/bs_byte_codegen.cpp: local slots, blocks and temporaries.
use barista_script.Common.{
  ℕ, zero, suc, ◌&&◌, take, ◌+◌, ◌-◌, Bool, true, false, Option, none, some, List, [], ◌∷◌, ◌++◌,
  length, if◌then◌else◌, ltb, ◌==◌,
}
use barista_script.Token.Names.{codes}
use barista_script.Codegen.Address.{Address, fixed_addresses_max}
use barista_script.Codegen.State.{Generator, StackSlot, is_local, check_address_fits}

-- `add_local`, for the slot's type; the position of the slot comes with the generator.
unfoldable pub add_local : ℕ → Generator → ℕ × Generator
add_local type g =
    let stack_position = length g.locals + fixed_addresses_max in
    let g1 = check_address_fits stack_position (codes "stack slots") g in
    let locals = g.locals ++ record { type = type; bytecode_indices = [] } ∷ [] in
    (
      stack_position,
      record g1 {
        locals = locals;
        max_locals = if ltb g.max_locals (length locals) then length locals else g.max_locals;
      },
    )

unfoldable pub start_block : Generator → Generator
start_block g = record g { block_local_counts = length g.locals ∷ g.block_local_counts }

-- `HashSet::insert`, and the loop that inserts `count` slots from one on.
unfoldable pub insert_slot : ℕ → List ℕ → List ℕ
insert_slot slot [] = slot ∷ []
insert_slot slot (s ∷ rest) =
    let more = insert_slot slot rest in if s == slot then s ∷ rest else s ∷ more

unfoldable pub insert_slots : ℕ → ℕ → List ℕ → List ℕ
insert_slots zero slot dirty = dirty
insert_slots (suc count) slot dirty =
    insert_slots count (suc slot) (insert_slot (slot + fixed_addresses_max) dirty)

-- `end_block`, for the counts of the open blocks; `Vector::resize` to a size that is not greater.
unfoldable pub end_block_at : List ℕ → Generator → Generator
end_block_at [] g = g
end_block_at (surviving ∷ rest) g = record g {
  dirty_locals = insert_slots (length g.locals - surviving) surviving g.dirty_locals;
  locals = take surviving g.locals;
  block_local_counts = rest;
}

unfoldable pub end_block : Generator → Generator
end_block g = end_block_at g.block_local_counts g

unfoldable pub has_slot : ℕ → List ℕ → Bool
has_slot slot [] = false
has_slot slot (s ∷ rest) = if s == slot then true else has_slot slot rest

unfoldable pub is_local_dirty : Address → Generator → Bool
is_local_dirty a g = is_local a.mode && has_slot a.address g.dirty_locals

unfoldable pub erase_slot : ℕ → List ℕ → List ℕ
erase_slot slot [] = []
erase_slot slot (s ∷ rest) = let more = erase_slot slot rest in if s == slot then more else s ∷ more

-- The end of `clear_address`.
unfoldable pub mark_clear : Address → Generator → Generator
mark_clear a g =
    if is_local a.mode then record g { dirty_locals = erase_slot a.address g.dirty_locals } else g

-- The pool of a type in `temporaries_pool`, which is empty where there is none.
unfoldable pub pool_of : ℕ → List (ℕ × List ℕ) → List ℕ
pool_of type [] = []
pool_of type ((t, pool) ∷ pools) = if t == type then pool else pool_of type pools

unfoldable pub set_pool : ℕ → List ℕ → List (ℕ × List ℕ) → List (ℕ × List ℕ)
set_pool type pool [] = (type, pool) ∷ []
set_pool type pool ((t, old) ∷ pools) =
    let more = set_pool type pool pools in if t == type then (t, pool) ∷ pools else (t, old) ∷ more

-- The type of the pool: `never_pooled` are the engine's reference-counted carriers, and a type that
-- is not built in has none.
unfoldable pub pool_type : (ℕ → Bool) → Option ℕ → ℕ
pool_type never_pooled none = 0
pool_type never_pooled (some type) = if never_pooled type then 0 else type

-- The end of `add_temporary`, for what the pool of the type holds.
unfoldable pub take_temporary : ℕ → List ℕ → Generator → ℕ × Generator
take_temporary type [] g = (
  length g.temporaries,
  record g {
    temporaries = g.temporaries ++ record { type = type; bytecode_indices = [] } ∷ [];
    temporaries_pool = set_pool type [] g.temporaries_pool;
    used_temporaries = length g.temporaries ∷ g.used_temporaries;
  },
)
take_temporary type (slot ∷ pool) g = (
  slot,
  record g {
    temporaries_pool = set_pool type pool g.temporaries_pool;
    used_temporaries = slot ∷ g.used_temporaries;
  },
)

unfoldable pub add_temporary : (ℕ → Bool) → Option ℕ → Generator → ℕ × Generator
add_temporary never_pooled builtin g =
    let type = pool_type never_pooled builtin in
    take_temporary type (pool_of type g.temporaries_pool) g

-- The type of a slot: an index outside the vector has none.
abbrev pub type_of : List StackSlot → ℕ → Option ℕ
type_of [] i = none
type_of (s ∷ slots) zero = some s.type
type_of (s ∷ slots) (suc i) = type_of slots i

-- The slot goes to the end of the pool of its type.
unfoldable pub release : Option ℕ → ℕ → List ℕ → Generator → Option Generator
release none slot used g = none
release (some type) slot used g = some (record g {
  temporaries_pending_clear = insert_slot slot g.temporaries_pending_clear;
  temporaries_pool =
      set_pool type (pool_of type g.temporaries_pool ++ slot ∷ []) g.temporaries_pool;
  used_temporaries = used;
})

unfoldable pub pop_used : List ℕ → Generator → Option Generator
pop_used [] g = some g
pop_used (slot ∷ used) g = release (type_of g.temporaries slot) slot used g

unfoldable pub pop_temporary : Generator → Option Generator
pop_temporary g = pop_used g.used_temporaries g

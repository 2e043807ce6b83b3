-- ===== src/Codegen/Temporaries.antt =====
-- src/bs_byte_codegen.cpp: the pool of temporaries never hands out a slot that is in use.
use mathlib.Core.Option.{none-ne-some, some_inj}
use mathlib.Core.Path.{subst}
use barista_script.Common.{
  ℕ, zero, suc, ◌+◌, ◌<◌, ◌≡◌, refl, sym, ap, ◌∙◌, Bool, Option, some, List, [], ◌∷◌, ◌++◌, length,
  length-append, if◌then◌else◌, ltb, ◌==◌, ==_iff, Bool-cases, inl, inr, arith, All, All-append,
}
use barista_script.Codegen.State.{Generator, StackSlot, new_generator}
use barista_script.Codegen.Slots.{
  insert_slot, pool_of, set_pool, pool_type, take_temporary, add_temporary, type_of, release,
  pop_used, pop_temporary,
}

-- How often a slot occurs.
abbrev pub count : ℕ → List ℕ → ℕ
count slot [] = 0
count slot (s ∷ rest) = (if s == slot then 1 else 0) + count slot rest

abbrev pub pool_count : ℕ → List (ℕ × List ℕ) → ℕ
pool_count slot [] = 0
pool_count slot ((t, pool) ∷ pools) = count slot pool + pool_count slot pools

pub count-append :
    (slot : ℕ) (xs ys : List ℕ) → count slot (xs ++ ys) ≡ count slot xs + count slot ys
count-append slot [] ys = omega arith
count-append slot (x ∷ xs) ys = omega (arith, count-append slot xs ys)

pool_count-set_pool :
    (slot type : ℕ) (pool : List ℕ) (pools : List (ℕ × List ℕ))
    → pool_count slot (set_pool type pool pools) + count slot (pool_of type pools)
      ≡ pool_count slot pools + count slot pool
unfolding set_pool pool_of
pool_count-set_pool slot type pool [] = omega arith
pool_count-set_pool slot type pool ((t, old) ∷ pools) =
    ground (arith, pool_count-set_pool slot type pool pools)

pool_of-set_pool :
    (t type : ℕ) (pool : List ℕ) (pools : List (ℕ × List ℕ))
    → pool_of t (set_pool type pool pools) ≡ (if type == t then pool else pool_of t pools)
unfolding set_pool pool_of
pool_of-set_pool t type pool [] = refl
pool_of-set_pool t type pool ((u, old) ∷ pools) = ground (arith, pool_of-set_pool t type pool pools)

-- Each slot is either in use once or in the pools once, and the pool of a type holds slots of it.
pub record Pooled (g : Generator) : Type 0 where
  pub once :
      (slot : ℕ)
      → count slot g.used_temporaries + pool_count slot g.temporaries_pool
        ≡ (if ltb slot (length g.temporaries) then 1 else 0)
  pub typed :
      (t : ℕ) → All (λ slot. type_of g.temporaries slot ≡ some t) (pool_of t g.temporaries_pool)

type_of-append :
    (slots : List StackSlot) (s : StackSlot) (i t : ℕ)
    → type_of slots i ≡ some t
    → type_of (slots ++ s ∷ []) i ≡ some t
type_of-append [] s i t h = absurd (none-ne-some t h)
type_of-append (x ∷ slots) s zero t h = h
type_of-append (x ∷ slots) s (suc i) t h = type_of-append slots s i t h

type_of-length :
    (slots : List StackSlot) (s : StackSlot)
    → type_of (slots ++ s ∷ []) (length slots) ≡ some s.type
type_of-length [] s = refl
type_of-length (x ∷ slots) s = type_of-length slots s

type_of-some :
    (slots : List StackSlot) (i : ℕ) → i < length slots → (t : ℕ) × (type_of slots i ≡ some t)
type_of-some [] i h = absurd (omega arith)
type_of-some (s ∷ slots) zero h = (s.type, refl)
type_of-some (s ∷ slots) (suc i) h = type_of-some slots i (omega arith)

All-map : {P Q : ℕ → Type 0} (xs : List ℕ) → ((x : ℕ) → P x → Q x) → All P xs → All Q xs
All-map [] f h = tt
All-map (x ∷ xs) f h = (f x h.0, All-map xs f h.1)

-- The pools stay typed when slots are added and one pool is replaced.
typed-set_pool :
    (slots more : List StackSlot) (type : ℕ) (pool : List ℕ) (pools : List (ℕ × List ℕ))
    → ((i t : ℕ) → type_of slots i ≡ some t → type_of more i ≡ some t)
    → ((t : ℕ) → All (λ i. type_of slots i ≡ some t) (pool_of t pools))
    → All (λ i. type_of more i ≡ some type) pool
    → (t : ℕ) → All (λ i. type_of more i ≡ some t) (pool_of t (set_pool type pool pools))
typed-set_pool slots more type pool pools kept typed new t = elim (Bool-cases (type == t)) [
  | inl same ↦ rw (pool_of-set_pool t type pool pools, same) (rw ((==_iff type t).0 same) at new)
  | inr other ↦
      rw (pool_of-set_pool t type pool pools, other)
        (All-map (pool_of t pools) (λ i. kept i t) (typed t))
]

-- What a new temporary is: a slot that was not in use, with the type of its pool.
pub record IsFresh (type : ℕ) (g : Generator) (r : ℕ × Generator) : Type 0 where
  pub unused : count r.0 g.used_temporaries ≡ 0
  pub used : r.1.used_temporaries ≡ r.0 ∷ g.used_temporaries
  pub carrier : type_of r.1.temporaries r.0 ≡ some type
  pub pooled : Pooled r.1

take_temporary-IsFresh :
    (type : ℕ) (pool : List ℕ) (g : Generator)
    → pool_of type g.temporaries_pool ≡ pool
    → Pooled g
    → IsFresh type g (take_temporary type pool g)
unfolding take_temporary
take_temporary-IsFresh type [] g e p = record {
  unused = ground (arith, p.once (length g.temporaries));
  used = refl;
  carrier = type_of-length g.temporaries _;
  pooled = record {
    once = λ slot. ground (
      arith,
      p.once slot,
      pool_count-set_pool slot type [] g.temporaries_pool,
      ap (count slot) e,
      length-append g.temporaries (record { type = type; bytecode_indices = [] } ∷ []),
    );
    typed =
        typed-set_pool g.temporaries _ type [] g.temporaries_pool
          (type_of-append g.temporaries (record { type = type; bytecode_indices = [] })) p.typed tt;
  };
}
take_temporary-IsFresh type (slot ∷ pool) g e p = record {
  unused =
      ground (
        arith,
        p.once slot,
        pool_count-set_pool slot type [] g.temporaries_pool,
        ap (count slot) e,
      );
  used = refl;
  carrier = (rw (e) at (p.typed type)).0;
  pooled = record {
    once = λ j.
        ground
          (arith, p.once j, pool_count-set_pool j type pool g.temporaries_pool, ap (count j) e);
    typed =
        typed-set_pool g.temporaries g.temporaries type pool g.temporaries_pool (λ i t h. h) p.typed
          (rw (e) at (p.typed type)).1;
  };
}

-- Where every slot is in use or pooled once, a new temporary is a slot that was not in use, with the
-- type of its pool, and every slot is in use or pooled once again.
pub add_temporary-IsFresh :
    (never_pooled : ℕ → Bool) (builtin : Option ℕ) (g : Generator)
    → Pooled g
    → IsFresh (pool_type never_pooled builtin) g (add_temporary never_pooled builtin g)
unfolding add_temporary
add_temporary-IsFresh never_pooled builtin g p =
    take_temporary-IsFresh (pool_type never_pooled builtin) _ g refl p

pub pop_used-Pooled :
    (slot : ℕ) (used : List ℕ) (g : Generator)
    → g.used_temporaries ≡ slot ∷ used
    → Pooled g
    → (h : Generator) × (pop_used (slot ∷ used) g ≡ some h) × (h.used_temporaries ≡ used) × Pooled h
unfolding pop_used release
pop_used-Pooled slot used g e p = (
  after,
  rw (found.1) refl,
  refl,
  record {
    once = λ j. ground (
      arith,
      p.once j,
      pool_count-set_pool j found.0 (pool_of found.0 g.temporaries_pool ++ slot ∷ [])
          g.temporaries_pool,
      count-append j (pool_of found.0 g.temporaries_pool) (slot ∷ []),
      ap (count j) e,
    );
    typed =
        typed-set_pool g.temporaries g.temporaries found.0 _ g.temporaries_pool (λ i t h. h) p.typed
          (All-append _ (pool_of found.0 g.temporaries_pool) (slot ∷ []) (p.typed found.0)
            (found.1, tt));
  },
)
  where
    found : (t : ℕ) × (type_of g.temporaries slot ≡ some t)
    found = type_of-some g.temporaries slot (ground (arith, p.once slot, ap (count slot) e))

    after : Generator
    after = record g {
      temporaries_pending_clear = insert_slot slot g.temporaries_pending_clear;
      temporaries_pool =
          set_pool found.0 (pool_of found.0 g.temporaries_pool ++ slot ∷ []) g.temporaries_pool;
      used_temporaries = used;
    }

new_generator-Pooled : Pooled new_generator
unfolding pool_of
new_generator-Pooled = record { once = λ slot. ground arith; typed = λ t. tt }

-- The pool's states: new temporaries and popped ones, in any order.
pub data Pooling (never_pooled : ℕ → Bool) : Generator → Type 0 where
  started : Pooling never_pooled new_generator
  added :
      (builtin : Option ℕ) (g : Generator)
      → Pooling never_pooled g
      → Pooling never_pooled (add_temporary never_pooled builtin g).1
  popped :
      (g h : Generator) → Pooling never_pooled g → pop_temporary g ≡ some h → Pooling never_pooled h

popped-Pooled :
    (used : List ℕ) (g h : Generator)
    → g.used_temporaries ≡ used
    → pop_used used g ≡ some h
    → Pooled g
    → Pooled h
unfolding pop_used
popped-Pooled [] g h e done p = subst Pooled (some_inj.0 done) p
popped-Pooled (slot ∷ used) g h e done p =
    let r = pop_used-Pooled slot used g e p in subst Pooled (some_inj.0 (sym r.1 ∙ done)) r.3

-- In every state that adding and popping temporaries reaches, each slot is in use once or stands in
-- the pools once, and the pool of a type holds slots of that type only.
pub Pooling-Pooled : (never_pooled : ℕ → Bool) (g : Generator) → Pooling never_pooled g → Pooled g
unfolding pop_temporary
Pooling-Pooled never_pooled _ Pooling.started = new_generator-Pooled
Pooling-Pooled never_pooled _ (Pooling.added builtin g r) =
    (add_temporary-IsFresh never_pooled builtin g (Pooling-Pooled never_pooled g r)).pooled
Pooling-Pooled never_pooled _ (Pooling.popped g h r e) =
    popped-Pooled g.used_temporaries g h refl e (Pooling-Pooled never_pooled g r)

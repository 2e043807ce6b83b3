-- ===== src/Buffer/Pool.antt =====
-- src/bs_tokenizer_buffer.cpp: the maps from an identifier or a literal to its pool index, and the
-- vectors that they are turned into ("Reverse maps").
use mathlib.Core.List.{foldl}
use barista_script.Common.{ℕ, ◌&&◌, Bool, none, some, List, length, set, replicate, ◌==◌}
use barista_script.Common.Maps.{lookup, insert}
use barista_script.Host.{Host}

-- `ConstantKey::operator==`
unfoldable pub constant_key_eq : (host : Host) → host.Variant → host.Variant → Bool
constant_key_eq host a b = host.get_type a == host.get_type b && host.equal a b

module _ {K : Type 0} where
  -- The index of a key, which gets the next free one if it is new, and the map behind it.
  unfoldable pub pool_index : (K → K → Bool) → K → List (K × ℕ) → ℕ × List (K × ℕ)
  pool_index eq k m = elim (lookup eq k m) [
    | some i ↦ (i, m)
    | none ↦ (length m, insert eq k (length m) m)
  ]

  -- `resize(size())`, then `write[E.value] = E.key` for each entry.
  unfoldable pub reverse_map : K → List (K × ℕ) → List K
  reverse_map default m = foldl (λ r e. set r e.1 e.0) (replicate (length m) default) m

-- ===== src/Buffer/RoundTrip/Pools.antt =====
-- The pools: a map that `pool_index` has filled numbers its keys in the order in which they came,
-- and the vector made of it holds each key at its number.
use mathlib.Core.List.{foldl}
use barista_script.Common.{
  ℕ, suc, ◌+◌, ◌≤◌, Bool, true, ◌≡◌, refl, sym, ap, ◌∙◌, none, some, List, [], ◌∷◌, ◌++◌, length,
  length-append, get_elem?, get_elem?-append_length, set, replicate, append_assoc, append-nil,
  arith, All, All-append, Bool-cases, inl, inr, ◌⊎◌, Option,
}
use barista_script.Common.Maps.{lookup, insert}
use barista_script.Buffer.Pool.{pool_index, reverse_map}

module _ {K : Type 0} where
  abbrev pub numbered : ℕ → List K → List (K × ℕ)
  numbered i [] = []
  numbered i (k ∷ ks) = (k, i) ∷ numbered (suc i) ks

  numbered-append :
      (i : ℕ) (ks : List K) (k : K)
      → numbered i (ks ++ k ∷ []) ≡ numbered i ks ++ (k, i + length ks) ∷ []
  numbered-append i [] k = ap (λ n. (k, n) ∷ []) (omega arith)
  numbered-append i (x ∷ ks) k = ap (◌∷◌ (x, i)) (
      numbered-append (suc i) ks k
      ∙ ap (λ (n : ℕ). numbered (suc i) ks ++ (k, n) ∷ []) (omega arith))

  pub length-numbered : (i : ℕ) (ks : List K) → length (numbered i ks) ≡ length ks
  length-numbered i [] = refl
  length-numbered i (k ∷ ks) = ap suc (length-numbered (suc i) ks)

  set-append_length :
      (pre : List K) (x : K) (xs : List K) (k : K)
      → set (pre ++ x ∷ xs) (length pre) k ≡ pre ++ k ∷ xs
  set-append_length [] x xs k = refl
  set-append_length (p ∷ pre) x xs k = ap (◌∷◌ p) (set-append_length pre x xs k)

  fill_numbered :
      (d : K) (ks pre : List K) (i : ℕ)
      → i ≡ length pre
      → foldl (λ r e. set r e.1 e.0) (pre ++ replicate (length ks) d) (numbered i ks) ≡ pre ++ ks
  fill_numbered d [] pre i h = refl
  fill_numbered d (k ∷ ks) pre i h =
      rw
        (
          h,
          set-append_length pre d (replicate (length ks) d) k,
          ← append_assoc pre (k ∷ []) (replicate (length ks) d),
        )
        (fill_numbered d ks (pre ++ k ∷ []) (suc (length pre))
            (omega (arith, length-append pre (k ∷ [])))
          ∙ append_assoc pre (k ∷ []) ks)

  pub reverse_map-numbered : (d : K) (ks : List K) → reverse_map d (numbered 0 ks) ≡ ks
  unfolding reverse_map
  reverse_map-numbered d ks = rw (length-numbered 0 ks) (fill_numbered d ks [] 0 refl)

module _ {K : Type 0} (eq : K → K → Bool) (P : K → Type 0)
    (separates : (a b : K) → P a → P b → eq a b ≡ true → a ≡ b) where
  -- What `pool_index` answers for the key `k` over the pool with the keys `ks`.
  pub record Pooled (ks : List K) (k : K) (r : ℕ × List (K × ℕ)) : Type 0 where
    pub more : List K
    pub is_pool : r.1 ≡ numbered 0 (ks ++ more)
    pub found : get_elem? (ks ++ more) r.0 ≡ some k
    pub all : All P (ks ++ more)
    pub one : length more ≤ 1

  lookup_found :
      (i : ℕ) (ks : List K) (k : K) (p : ℕ)
      → All P ks
      → P k
      → lookup eq k (numbered i ks) ≡ some p
      → (q : ℕ) × (p ≡ i + q) × (get_elem? ks q ≡ some k)
  unfolding lookup
  lookup_found i [] k p a pk e = cc
  lookup_found i (x ∷ ks) k p a pk e = elim (Bool-cases (eq x k)) [
    | inl same ↦ (0, ground (arith, same), ap some (separates x k a.0 pk same))
    | inr differs ↦
        let (q, e', g) = lookup_found (suc i) ks k p a.1 pk (ground (arith, differs)) in
        (suc q, omega arith, g)
  ]

  insert_new :
      (k : K) (n : ℕ) (m : List (K × ℕ)) → lookup eq k m ≡ none → insert eq k n m ≡ m ++ (k, n) ∷ []
  unfolding lookup insert
  insert_new k n [] e = refl
  insert_new k n ((j, w) ∷ m) e = ground (arith, insert_new k n m)

  Option-cases : (o : Option ℕ) → (o ≡ none) ⊎ ((n : ℕ) × (o ≡ some n))
  Option-cases none = inl refl
  Option-cases (some n) = inr (n, refl)

  pub pool_index-Pooled :
      (ks : List K) (k : K) → All P ks → P k → Pooled ks k (pool_index eq k (numbered 0 ks))
  unfolding pool_index
  pool_index-Pooled ks k a pk = elim (Option-cases (lookup eq k (numbered 0 ks))) [
    | inl new ↦
        rw (new, pool_index)
          (record {
            more = k ∷ [];
            is_pool =
                insert_new k _ _ new
                ∙ rw (length-numbered 0 ks) (
                    sym (
                      numbered-append 0 ks k
                      ∙ ap (λ (n : ℕ). numbered 0 ks ++ (k, n) ∷ []) (omega arith)));
            found = rw (length-numbered 0 ks) (get_elem?-append_length ks [] k);
            all = All-append P ks (k ∷ []) a (pk, tt);
            one = omega arith;
          })
    | inr (p, old) ↦
        let (q, e, g) = lookup_found 0 ks k p a pk old in
        rw (old, pool_index)
          (record {
            more = [];
            is_pool = rw (append-nil ks) refl;
            found = rw (append-nil ks, e) (rw (add_zero_left q) g);
            all = rw (append-nil ks) a;
            one = omega arith;
          })
  ]
    where
      add_zero_left : (q : ℕ) → 0 + q ≡ q
      add_zero_left q = omega arith

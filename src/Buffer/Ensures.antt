-- ===== src/Buffer/Ensures.antt =====
-- What holds of the value that a reader returns, with no read outside the buffer.
use barista_script.Common.{
  ℕ, ◌≤◌, true, false, ◌≡◌, refl, ◌⊎◌, inl, inr, [], ◌∷◌, length, arith, ltb, Bytes,
}
use barista_script.Buffer.Format.{Load, ok, invalid_data, out_of_bounds, decode_uint32}

abbrev pub Ensures {ℓ} : {A : Type ℓ} → (A → Type 0) → Load A → Type 0
Ensures P (ok a) = P a
Ensures P invalid_data = Unit
Ensures P out_of_bounds = ⊥

-- Nothing is read outside the buffer.
abbrev pub Safe {ℓ} : {A : Type ℓ} → Load A → Type 0
Safe = Ensures (λ _. Unit {0})

-- A word can be read where four bytes are left.
pub decode_uint32_ok : (b : Bytes) → 4 ≤ length b → (n : ℕ) × (decode_uint32 b ≡ ok n)
unfolding decode_uint32
decode_uint32_ok [] h = absurd (omega arith)
decode_uint32_ok (x ∷ []) h = absurd (omega arith)
decode_uint32_ok (x ∷ y ∷ []) h = absurd (omega arith)
decode_uint32_ok (x ∷ y ∷ z ∷ []) h = absurd (omega arith)
decode_uint32_ok (x ∷ y ∷ z ∷ w ∷ b) h = (_, refl)

-- To split on a length check.
pub length-cases : (n k : ℕ) → (ltb n k ≡ true) ⊎ ((ltb n k ≡ false) × (k ≤ n))
length-cases n k = ground arith

-- To split on what a safe reader returns.
pub Ensures-cases {ℓ} :
    {A : Type ℓ} (P : A → Type 0) (m : Load A)
    → Ensures P m
    → ((a : A) × (m ≡ ok a) × P a) ⊎ (m ≡ invalid_data)
Ensures-cases P (ok a) h = inl (a, refl, h)
Ensures-cases P invalid_data h = inr refl
Ensures-cases P out_of_bounds h = absurd h

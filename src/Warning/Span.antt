-- ===== src/Warning/Span.antt =====
-- `has_valid_position` against what a position is, and what the engine is given.
use barista_script.Common.{
  ℕ, zero, suc, ◌<◌, ◌≤◌, ◌≡◌, refl, sym, ap, ◌∙◌, Bool, true, false, ◌||◌, ◌&&◌, not, Option, some,
  List, [], ◌∷◌, length, get_elem?, ltb, if◌then◌else◌, arith, Bool-cases, ◌⊎◌, inl, inr,
}
use barista_script.Common.Int.{ℤ, pos, negsuc, ltb_ℤ}
use barista_script.Warning.Number.{number}
use barista_script.Warning.Position.{
  Warning, has_valid_position, column_outside, refuse_if, equal_ℤ,
}

-- The line with a number, and a column in it: the last one stands behind the last character.
abbrev pub IsPlace : List ℕ → ℤ → ℤ → Type 0
IsPlace lengths line column =
    (l : ℕ) × (n : ℕ) × (c : ℕ) × (line ≡ pos (suc l))
    × (column ≡ pos (suc c))
    × (get_elem? lengths l ≡ some n)
    × (c ≤ n)

-- The end is not before the start.
abbrev pub IsForward : Warning → Type 0
IsForward w =
    (ltb_ℤ w.end_line w.start_line ≡ false)
    × (equal_ℤ w.end_line w.start_line ≡ true → ltb_ℤ w.end_column w.start_column ≡ false)

abbrev pub IsSpan : Warning → List ℕ → Type 0
IsSpan w lengths =
    (number w.code < 49)
    × IsPlace lengths w.start_line w.start_column
    × IsPlace lengths w.end_line w.end_column
    × IsForward w

some-injective : {A : Type 0} {a b : A} → some a ≡ some b → a ≡ b
some-injective {A} {a} {b} e = ground arith

get_elem?-of_lt : (xs : List ℕ) (i : ℕ) → i < length xs → (x : ℕ) × (get_elem? xs i ≡ some x)
get_elem?-of_lt [] i h = absurd (omega arith)
get_elem?-of_lt (x ∷ xs) zero h = (x, refl)
get_elem?-of_lt (x ∷ xs) (suc i) h = get_elem?-of_lt xs i (omega arith)

lt_of_get_elem? : (xs : List ℕ) (i x : ℕ) → get_elem? xs i ≡ some x → i < length xs
lt_of_get_elem? [] i x e = ground arith
lt_of_get_elem? (y ∷ xs) zero x e = omega arith
lt_of_get_elem? (y ∷ xs) (suc i) x e = ground (arith, lt_of_get_elem? xs i x e)

positive : (z : ℤ) → ltb_ℤ z (pos 1) ≡ false → (n : ℕ) × (z ≡ pos (suc n))
positive (pos zero) h = ground arith
positive (pos (suc n)) h = (n, refl)
positive (negsuc n) h = ground arith

column_outside_before :
    (lengths : List ℕ) (line column : ℤ)
    → ltb_ℤ column (pos 1) ≡ true
    → (column_outside lengths line column ≡ some true) × ¬ IsPlace lengths line column
unfolding column_outside
column_outside_before lengths line column t =
    (rw (t) refl, λ (l, n, c, e, f, g, h). ground (arith, f))

column_outside_line :
    (lengths : List ℕ) (l n c : ℕ)
    → get_elem? lengths l ≡ some n
    → column_outside lengths (pos (suc l)) (pos (suc c)) ≡ some (ltb n c)
unfolding column_outside
column_outside_line lengths l n c e = ground arith

-- For a line of the source the test of a column tells whether the place is there.
column_outside-cases :
    (lengths : List ℕ) (line column : ℤ)
    → ltb_ℤ line (pos 1) ≡ false
    → ltb_ℤ (pos (length lengths)) line ≡ false
    → ((column_outside lengths line column ≡ some false) × IsPlace lengths line column)
      ⊎ ((column_outside lengths line column ≡ some true) × ¬ IsPlace lengths line column)
column_outside-cases lengths line column h k = elim (Bool-cases (ltb_ℤ column (pos 1))) [
  | inl t ↦ inr (column_outside_before lengths line column t)
  | inr t ↦
      let (l, e) = positive line h in
      let (c, f) = positive column t in
      let (n, g) = get_elem?-of_lt lengths l (ground (arith, e)) in
      let outside : column_outside lengths line column ≡ some (ltb n c) =
        rw (e, f) (column_outside_line lengths l n c g) in
      elim (Bool-cases (ltb n c)) [
        | inl b ↦ inr (
          outside ∙ ap some b,
          λ (l', n', c', e', f', g', h').
              let p : l' ≡ l = ground (arith, e, e') in
              let q : c' ≡ c = ground (arith, f, f') in
              let r : n' ≡ n = some-injective (sym g' ∙ ap (get_elem? lengths) p ∙ g) in
              ground (arith, q, r, h', b),
        )
        | inr b ↦ inl (outside ∙ ap some b, (l, n, c, e, f, g, ground arith))
      ]
]

-- A result that tells whether P holds.
abbrev Answer : Type 0 → Option Bool → Type 0
Answer P r = (P × (r ≡ some true)) ⊎ ((¬ P) × (r ≡ some false))

guard_step :
    {P : Type 0} (b : Bool) (r : Option Bool)
    → (b ≡ true → ¬ P)
    → (b ≡ false → Answer P r)
    → Answer P (if b then some false else r)
guard_step true r h k = inr (h refl, refl)
guard_step false r h k = k refl

refuse_step :
    {P Q : Type 0} (o r : Option Bool)
    → ((o ≡ some false) × Q) ⊎ ((o ≡ some true) × ¬ Q)
    → (P → Q)
    → (Q → Answer P r)
    → Answer P (refuse_if o r)
refuse_step o r (inl (e, q)) f g = rw (e) (g q)
refuse_step o r (inr (e, n)) f g = rw (e) (inr (λ p. n (f p), refl))

IsPlace-line :
    (lengths : List ℕ) (line column : ℤ)
    → IsPlace lengths line column
    → (ltb_ℤ line (pos 1) ≡ false) × (ltb_ℤ (pos (length lengths)) line ≡ false)
IsPlace-line lengths line column (l, n, c, e, f, g, h) =
    let k = lt_of_get_elem? lengths l n g in (ground (arith, e), ground (arith, e))

-- `has_valid_position` reads no line that is not there: it returns true for the spans that are in
-- the source, with start and end on lines of it and columns that stand at most one past the last
-- character, the end not before the start, and false for all else.
pub has_valid_position-IsSpan :
    (w : Warning) (lengths : List ℕ)
    → (IsSpan w lengths × (has_valid_position w lengths ≡ some true))
      ⊎ ((¬ IsSpan w lengths) × (has_valid_position w lengths ≡ some false))
unfolding has_valid_position
has_valid_position-IsSpan w lengths =
    guard_step (ltb_ℤ (pos (length lengths)) (pos 1)) _
      (λ e (c, p, q, f). ground (arith, IsPlace-line _ _ _ p))
      (λ some_line.
        guard_step (not (ltb (number w.code) 49)) _ (λ e (c, p, q, f). ground arith)
          (λ code.
            guard_step (ltb_ℤ w.start_line (pos 1) || ltb_ℤ (pos (length lengths)) w.start_line) _
              (λ e (c, p, q, f). ground (arith, IsPlace-line _ _ _ p))
              (λ start.
                guard_step
                  (ltb_ℤ w.end_line w.start_line || ltb_ℤ (pos (length lengths)) w.end_line) _
                  (λ e (c, p, q, f). ground (arith, f.0, IsPlace-line _ _ _ q))
                  (λ end.
                    refuse_step _ _
                      (column_outside-cases lengths w.start_line w.start_column (ground arith)
                        (ground arith))
                      (λ (c, p, q, f). p)
                      (λ p.
                        refuse_step _ _
                          (column_outside-cases lengths w.end_line w.end_column (ground arith)
                            (ground arith))
                          (λ (c, p, q, f). q)
                          (λ q.
                            guard_step
                              (equal_ℤ w.end_line w.start_line && ltb_ℤ w.end_column w.start_column)
                              _ (λ e (c, p, q, f). ground (arith, f.1))
                              (λ forward. inl (
                                (ground arith, p, q, (ground arith, λ e. ground arith)),
                                refl,
                              ))))))))

-- ===== src/Warning/Order.antt =====
-- src/bs_warning.cpp `BSWarning::compare`, and its laws.
use Prim.Native.Nat.{Ordering}
use barista_script.Common.{
  ℕ, ◌≡◌, refl, sym, ap, ◌∙◌, Bool, true, false, not, Option, some, List, [], ◌∷◌, ◌++◌, map,
  get_elem?, length, ltb, ◌==◌, ==_iff, if◌then◌else◌, Text, text_eq, arith, ◌↔◌, Bool-cases, inl,
  inr,
}
use barista_script.Common.Int.{ℤ, pos, negsuc, ltb_ℤ}
use barista_script.Warning.Code.{Code, default_warning_levels}
use barista_script.Warning.Number.{number}
use barista_script.Warning.Position.{Warning, equal_ℤ}

-- One key: `if (l != r) { return l < r ? -1 : 1; }`, and the rest of the function where they agree.
-- -1, 0 and 1 are `lt`, `eq` and `gt`.
abbrev pub by_key : Bool → Bool → Ordering → Ordering
by_key same below next = if same then next else if below then Ordering.lt else Ordering.gt

abbrev pub flip : Ordering → Ordering
flip Ordering.lt = Ordering.gt
flip Ordering.eq = Ordering.eq
flip Ordering.gt = Ordering.lt

-- `String::operator<` is a parameter.
module _ (less : Text → Text → Bool) where
  -- The last loop, for lists of one length.
  unfoldable pub compare_symbols : List Text → List Text → Ordering
  compare_symbols (x ∷ xs) (y ∷ ys) = by_key (text_eq x y) (less x y) (compare_symbols xs ys)
  compare_symbols _ _ = Ordering.eq

  unfoldable pub compare : Warning → Warning → Ordering
  compare a b = by_key (equal_ℤ a.start_line b.start_line) (ltb_ℤ a.start_line b.start_line) (
      by_key (equal_ℤ a.start_column b.start_column) (ltb_ℤ a.start_column b.start_column) (
        by_key (number a.code == number b.code) (ltb (number a.code) (number b.code)) (
          by_key (equal_ℤ a.end_line b.end_line) (ltb_ℤ a.end_line b.end_line) (
            by_key (equal_ℤ a.end_column b.end_column) (ltb_ℤ a.end_column b.end_column) (
              by_key (length a.symbols == length b.symbols)
                (ltb (length a.symbols) (length b.symbols))
                (compare_symbols a.symbols b.symbols))))))

-- A test of equality and one of order, as a key has them.
pub record IsKey {A : Type 0} (same below : A → A → Bool) : Type 0 where
  pub same_iff : (a b : A) → (same a b ≡ true) ↔ (a ≡ b)
  pub total : (a b : A) → same a b ≡ false → below b a ≡ not (below a b)
  pub trans : (a b c : A) → below a b ≡ true → below b c ≡ true → below a c ≡ true
  pub irreflexive : (a : A) → below a a ≡ false

ℕ-IsKey : IsKey ◌==◌ ltb
ℕ-IsKey = record {
  same_iff = ==_iff;
  total = λ a b h. ground arith;
  trans = λ a b c h k. ground arith;
  irreflexive = λ a. ground arith;
}

equal_ℤ-eq : (a b : ℤ) → equal_ℤ a b ≡ true → a ≡ b
equal_ℤ-eq (pos a) (pos b) h = ground arith
equal_ℤ-eq (pos a) (negsuc b) h = ground arith
equal_ℤ-eq (negsuc a) (pos b) h = ground arith
equal_ℤ-eq (negsuc a) (negsuc b) h = ground arith

ℤ-IsKey : IsKey equal_ℤ ltb_ℤ
ℤ-IsKey = record {
  same_iff = λ a b. (equal_ℤ-eq a b, λ e. rw (e) (ground arith));
  total = λ a b h. ground arith;
  trans = λ a b c h k. ground arith;
  irreflexive = λ a. ground arith;
}

-- What makes a comparison an order.
pub record IsCompare {A : Type 0} (c : A → A → Ordering) : Type 0 where
  pub flips : (a b : A) → c b a ≡ flip (c a b)
  pub trans : (x y z : A) → c x y ≡ Ordering.lt → c y z ≡ Ordering.lt → c x z ≡ Ordering.lt

by_key-flip :
    (s s' b b' : Bool) (d d' : Ordering)
    → s' ≡ s
    → (s ≡ false → b' ≡ not b)
    → d' ≡ flip d
    → by_key s' b' d' ≡ flip (by_key s b d)
by_key-flip true s' b b' d d' e f g = rw (e) g
by_key-flip false s' true b' d d' e f g = rw (e, f refl) refl
by_key-flip false s' false b' d d' e f g = rw (e, f refl) refl

by_key_below : (s b : Bool) (d : Ordering) → s ≡ false → by_key s b d ≡ Ordering.lt → b ≡ true
by_key_below s true d e h = refl
by_key_below s false d e h = ground arith

by_key_next : (s b : Bool) (d : Ordering) → s ≡ true → by_key s b d ≡ d
by_key_next s b d e = rw (e) refl

by_key_lt : (s b : Bool) (d : Ordering) → s ≡ false → b ≡ true → by_key s b d ≡ Ordering.lt
by_key_lt s b d e f = rw (e, f) refl

by_key_eq :
    (s b : Bool) (d : Ordering) → by_key s b d ≡ Ordering.eq → (s ≡ true) × (d ≡ Ordering.eq)
by_key_eq true b d h = (refl, h)
by_key_eq false true d h = ground arith
by_key_eq false false d h = ground arith

module _ {K : Type 0} {same below : K → K → Bool} (k : IsKey same below) where
  same_refl : (a : K) → same a a ≡ true
  same_refl a = (k.same_iff a a).1 refl

  same-sym : (a b : K) → same b a ≡ same a b
  same-sym a b = elim (Bool-cases (same a b)) [
    | inl e ↦ (k.same_iff b a).1 (sym ((k.same_iff a b).0 e)) ∙ sym e
    | inr e ↦ elim (Bool-cases (same b a)) [
      | inl e' ↦ absurd (ground (arith, (k.same_iff a b).1 (sym ((k.same_iff b a).0 e'))))
      | inr e' ↦ e' ∙ sym e
    ]
  ]

  -- The three steps from x over y to z, where the key changes at one of them or at both.
  same-trans_below : (x y z : K) → below x y ≡ true → below y z ≡ true → same x z ≡ false
  same-trans_below x y z p q = elim (Bool-cases (same x z)) [
    | inr e ↦ e
    | inl e ↦
        let back : below y x ≡ true = rw ((k.same_iff x z).0 e) q in
        absurd (ground (arith, k.trans x y x p back, k.irreflexive x))
  ]

  -- A key before an order makes an order.
  by_key_trans :
      (x y z : K) (d e f : Ordering)
      → (d ≡ Ordering.lt → e ≡ Ordering.lt → f ≡ Ordering.lt)
      → by_key (same x y) (below x y) d ≡ Ordering.lt
      → by_key (same y z) (below y z) e ≡ Ordering.lt
      → by_key (same x z) (below x z) f ≡ Ordering.lt
  by_key_trans x y z d e f next h g = elim (Bool-cases (same x y)) [
    | inl p ↦
        let xy = (k.same_iff x y).0 p in
        elim (Bool-cases (same y z)) [
          | inl q ↦
              let yz = (k.same_iff y z).0 q in
              by_key_next (same x z) (below x z) f ((k.same_iff x z).1 (xy ∙ yz))
              ∙ next (sym (by_key_next _ _ d p) ∙ h) (sym (by_key_next _ _ e q) ∙ g)
          | inr q ↦ rw (xy) (by_key_lt (same y z) (below y z) f q (by_key_below _ _ e q g))
        ]
    | inr p ↦
        let xy = by_key_below _ _ d p h in
        elim (Bool-cases (same y z)) [
          | inl q ↦ rw (← (k.same_iff y z).0 q) (by_key_lt (same x y) (below x y) f p xy)
          | inr q ↦
              let yz = by_key_below _ _ e q g in
              by_key_lt _ _ f (same-trans_below x y z xy yz) (k.trans x y z xy yz)
        ]
  ]

  by_key-IsCompare :
      {W : Type 0} (f : W → K) (d : W → W → Ordering)
      → IsCompare d
      → IsCompare (λ a b. by_key (same (f a) (f b)) (below (f a) (f b)) (d a b))
  by_key-IsCompare f d i = record {
    flips = λ a b.
        by_key-flip (same (f a) (f b)) (same (f b) (f a)) (below (f a) (f b)) (below (f b) (f a))
          (d a b) (d b a) (same-sym (f a) (f b)) (λ e. k.total (f a) (f b) e) (i.flips a b);
    trans = λ x y z h g. by_key_trans (f x) (f y) (f z) (d x y) (d y z) (d x z) (i.trans x y z) h g;
  }

unfoldable of_number : ℕ → Option Code
of_number n = get_elem? (map (λ row. row.1) default_warning_levels ++ (Code.warning_max ∷ [])) n

of_number-number : (c : Code) → of_number (number c) ≡ some c
unfolding of_number number
of_number-number Code.warning_max = refl
of_number-number _ = refl

some-injective : {A : Type 0} {a b : A} → some a ≡ some b → a ≡ b
some-injective {A} {a} {b} e = ground arith

number-injective : (a b : Code) → number a ≡ number b → a ≡ b
number-injective a b e =
    some-injective (sym (of_number-number a) ∙ ap of_number e ∙ of_number-number b)

module _ (less : Text → Text → Bool) (text : IsKey text_eq less) where
  compare_symbols-IsCompare : IsCompare (compare_symbols less)
  unfolding compare_symbols
  compare_symbols-IsCompare = record { flips = flips; trans = trans }
    where
      flips : (a b : List Text) → compare_symbols less b a ≡ flip (compare_symbols less a b)
      flips [] [] = refl
      flips [] (y ∷ b) = refl
      flips (x ∷ a) [] = refl
      flips (x ∷ a) (y ∷ b) =
          by_key-flip _ _ _ _ _ _ (same-sym text x y) (λ e. text.total x y e) (flips a b)

      trans :
          (a b c : List Text)
          → compare_symbols less a b ≡ Ordering.lt
          → compare_symbols less b c ≡ Ordering.lt
          → compare_symbols less a c ≡ Ordering.lt
      trans [] b c h g = ground arith
      trans (x ∷ a) [] c h g = ground arith
      trans (x ∷ a) (y ∷ b) [] h g = ground arith
      trans (x ∷ a) (y ∷ b) (z ∷ c) h g = by_key_trans text x y z _ _ _ (trans a b c) h g

  -- `compare` is a strict order with its opposite: exchanged arguments give the opposite result, and
  -- "less" is transitive.
  pub compare-IsCompare : IsCompare (compare less)
  unfolding compare
  compare-IsCompare =
      by_key-IsCompare ℤ-IsKey (λ w. w.start_line) _
        (by_key-IsCompare ℤ-IsKey (λ w. w.start_column) _
          (by_key-IsCompare ℕ-IsKey (λ w. number w.code) _
            (by_key-IsCompare ℤ-IsKey (λ w. w.end_line) _
              (by_key-IsCompare ℤ-IsKey (λ w. w.end_column) _
                (by_key-IsCompare ℕ-IsKey (λ w. length w.symbols) _
                  (record {
                    flips = λ a b. compare_symbols-IsCompare.flips a.symbols b.symbols;
                    trans = λ a b c. compare_symbols-IsCompare.trans a.symbols b.symbols c.symbols;
                  }))))))

  compare_symbols_same :
      (a b : List Text) → length a ≡ length b → compare_symbols less a b ≡ Ordering.eq → a ≡ b
  unfolding compare_symbols
  compare_symbols_same [] [] e h = refl
  compare_symbols_same [] (y ∷ b) e h = absurd (omega arith)
  compare_symbols_same (x ∷ a) [] e h = absurd (omega arith)
  compare_symbols_same (x ∷ a) (y ∷ b) e h =
      let (s, r) = by_key_eq _ _ _ h in
      let p = (text.same_iff x y).0 s in let q = compare_symbols_same a b (omega arith) r in cc

  -- Only equal warnings compare as equal: a tie leaves nothing to tell them apart.
  pub compare_same : (a b : Warning) → compare less a b ≡ Ordering.eq → a ≡ b
  unfolding compare
  compare_same a b h =
      let (p1, h1) = by_key_eq _ _ _ h in
      let (p2, h2) = by_key_eq _ _ _ h1 in
      let (p3, h3) = by_key_eq _ _ _ h2 in
      let (p4, h4) = by_key_eq _ _ _ h3 in
      let (p5, h5) = by_key_eq _ _ _ h4 in
      let (p6, h6) = by_key_eq _ _ _ h5 in
      let q1 = equal_ℤ-eq _ _ p1 in
      let q2 = equal_ℤ-eq _ _ p2 in
      let q3 = number-injective _ _ ((==_iff _ _).0 p3) in
      let q4 = equal_ℤ-eq _ _ p4 in
      let q5 = equal_ℤ-eq _ _ p5 in
      let q6 = compare_symbols_same _ _ ((==_iff _ _).0 p6) h6 in
      λ i. record {
        code = q3 i;
        start_line = q1 i;
        start_column = q2 i;
        end_line = q4 i;
        end_column = q5 i;
        symbols = q6 i;
      }

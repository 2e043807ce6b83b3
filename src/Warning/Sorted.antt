-- ===== src/Warning/Sorted.antt =====
-- src/bs_warning.cpp `sort_warnings`: what the order of `compare` leaves to the sort.
use mathlib.Core.List.{Mem, mem-cons_self, eq-or-mem_of_mem-cons, Perm}
use mathlib.Core.List.Perm.{mem_iff, symm, cons_inv, nil-eq, eq-nil}
use mathlib.Core.Logic.{∥∥₁_elim}
use mathlib.Core.Bool.{Bool-set}
use Prim.Native.Nat.{Ordering}
use barista_script.Common.{
  ◌≡◌, refl, Bool, true, false, List, [], ◌∷◌, Text, text_eq, inl, inr, arith,
}
use barista_script.Warning.Position.{Warning}
use barista_script.Warning.Order.{compare, flip, IsKey, compare-IsCompare, compare_same}

-- `compare(…) < 0`
abbrev pub is_lt : Ordering → Bool
is_lt Ordering.lt = true
is_lt Ordering.eq = false
is_lt Ordering.gt = false

flip_same : (o : Ordering) → o ≡ flip o → is_lt o ≡ false
flip_same Ordering.lt h = absurd (ground arith)
flip_same Ordering.eq h = refl
flip_same Ordering.gt h = refl

eq_of_neither :
    (o o' : Ordering) → o' ≡ flip o → is_lt o ≡ false → is_lt o' ≡ false → o ≡ Ordering.eq
eq_of_neither Ordering.lt o' f h k = absurd (ground arith)
eq_of_neither Ordering.eq o' f h k = refl
eq_of_neither Ordering.gt o' f h k = absurd (ground arith)

module _ (less : Text → Text → Bool) where
  -- `WarningLess`
  abbrev pub warning_less : Warning → Warning → Bool
  warning_less a b = is_lt (compare less a b)

  -- No warning is less than one that stands before it.
  abbrev pub IsSorted : List Warning → Type 0
  IsSorted [] = Unit {0}
  IsSorted (x ∷ xs) = ((y : Warning) → Mem y xs → warning_less y x ≡ false) × IsSorted xs

  module _ (text : IsKey text_eq less) where
    warning_less_irreflexive : (x : Warning) → warning_less x x ≡ false
    warning_less_irreflexive x =
        flip_same (compare less x x) ((compare-IsCompare less text).flips x x)

    -- Neither is less, so they are the same.
    unordered_same : (x y : Warning) → warning_less x y ≡ false → warning_less y x ≡ false → x ≡ y
    unordered_same x y h k = compare_same less text x y (
        eq_of_neither (compare less x y) (compare less y x)
          ((compare-IsCompare less text).flips x y) h k)

    first_least :
        (x y : Warning) (ys : List Warning)
        → ((z : Warning) → Mem z ys → warning_less z y ≡ false)
        → Mem x (y ∷ ys)
        → warning_less x y ≡ false
    first_least x y ys h m =
        ∥∥₁_elim (eq-or-mem_of_mem-cons m) (Bool-set _ _)
          (λ o. elim o [ inl e ↦ rw (e) (warning_less_irreflexive y) | inr m' ↦ h x m' ])

    -- Two sorted lists of the same warnings are the same list, so the order in which warnings are
    -- found does not show in what is sorted.
    pub sorted_unique : (xs ys : List Warning) → IsSorted xs → IsSorted ys → Perm xs ys → xs ≡ ys
    sorted_unique [] ys s t p = nil-eq p
    sorted_unique (x ∷ xs) [] s t p = eq-nil p
    sorted_unique (x ∷ xs) (y ∷ ys) s t p =
        let e : x ≡ y =
          unordered_same x y (first_least x y ys t.0 ((mem_iff p).0 mem-cons_self))
            (first_least y x xs s.0 ((mem_iff (symm p)).0 mem-cons_self)) in
        let q : Perm xs ys = cons_inv (rw (← e) at p) in let r = sorted_unique xs ys s.1 t.1 q in cc

-- ===== src/Common/TextMaps.antt =====
-- Godot's `HashMap` with `String` keys: the maps of `Maps`, compared by `text_eq`, and their laws.
use mathlib.Core.Bool.{Bool, true, false, true≢false}
use mathlib.Core.Option.{Option, none, some, none-ne-some}
use mathlib.Core.Path.{◌≡◌, refl, ap, sym, ◌∙◌}
use mathlib.Core.Logic.{◌≢◌, inl, inr, ∥∥₁_elim}
use mathlib.Core.List.{
  List, [], ◌∷◌, Mem, mem-cons_self, mem-cons_of_mem, eq-or-mem_of_mem-cons, not-mem-nil, Nodup,
  Nodup-cons,
}
use native.Mathlib.Omega.{arith}
use barista_script.Common.Tests.{if◌then◌else◌, Bool-cases}
use barista_script.Common.Words.{Text, text_eq, text_eq_iff}
use barista_script.Common.Maps.{lookup, insert, keys}

abbrev pub TextMap {ℓ} : Type ℓ → Type ℓ
TextMap V = List (Text × V)

module _ {ℓ} {V : Type ℓ} where
  unfoldable pub find : Text → TextMap V → Option V
  find = lookup text_eq

  unfoldable pub put : Text → V → TextMap V → TextMap V
  put = insert text_eq

  -- `erase`: a map holds a key once, so that all that have it may go.
  unfoldable pub remove : Text → TextMap V → TextMap V
  remove k [] = []
  remove k ((j, v) ∷ m) = let rest = remove k m in if text_eq j k then rest else (j, v) ∷ rest

  abbrev pub is_some : Option V → Bool
  is_some none = false
  is_some (some v) = true

  unfoldable pub has : Text → TextMap V → Bool
  has k m = is_some (find k m)

  pub find-put :
      (j k : Text) (v : V) (m : TextMap V)
      → find j (put k v m) ≡ (if text_eq k j then some v else find j m)
  unfolding find put lookup insert
  find-put j k v [] = refl
  find-put j k v ((i, w) ∷ m) =
      ground (arith, text_eq_iff i k, text_eq_iff i j, text_eq_iff k j, find-put j k v m)

  pub find-remove :
      (j k : Text) (m : TextMap V) → find j (remove k m) ≡ (if text_eq k j then none else find j m)
  unfolding find remove lookup
  find-remove j k [] = ground arith
  find-remove j k ((i, w) ∷ m) =
      ground (arith, text_eq_iff i k, text_eq_iff i j, text_eq_iff k j, find-remove j k m)

  pub find-put_ne : (j k : Text) (v : V) (m : TextMap V) → k ≢ j → find j (put k v m) ≡ find j m
  find-put_ne j k v m ne = ground (arith, text_eq_iff k j, find-put j k v m)

  pub find-put_eq : (k : Text) (v : V) (m : TextMap V) → find k (put k v m) ≡ some v
  find-put_eq k v m = ground (arith, text_eq_iff k k, find-put k k v m)

  pub has-put_ne : (j k : Text) (v : V) (m : TextMap V) → k ≢ j → has j (put k v m) ≡ has j m
  unfolding has
  has-put_ne j k v m ne = ap is_some (find-put_ne j k v m ne)

  -- A path is among the keys when it is found.
  pub keys-find : (k : Text) (v : V) (m : TextMap V) → find k m ≡ some v → Mem k (keys m)
  unfolding find lookup
  keys-find k v [] found = ground arith
  keys-find k v ((j, w) ∷ m) found = elim (Bool-cases (text_eq j k)) [
    | inl same ↦ rw ((text_eq_iff j k).0 same) mem-cons_self
    | inr other ↦ mem-cons_of_mem j (keys-find k v m (rw (other, lookup) at found))
  ]

  pub find-keys : (k : Text) (m : TextMap V) → find k m ≡ none → Mem k (keys m) → ⊥
  unfolding find lookup
  find-keys k [] missing there = not-mem-nil there
  find-keys k ((j, w) ∷ m) missing there = elim (Bool-cases (text_eq j k)) [
    | inl same ↦ absurd (none-ne-some w (sym missing ∙ rw (same, lookup) refl))
    | inr other ↦
        ∥∥₁_elim (eq-or-mem_of_mem-cons there) (λ a b. absurd a)
          (λ c. elim c [
            | inl e ↦ absurd (true≢false (sym ((text_eq_iff j k).1 (sym e)) ∙ other))
            | inr rest ↦ find-keys k m (rw (other, lookup) at missing) rest
          ])
  ]

  pub find_of_not-mem : (k : Text) (m : TextMap V) → (Mem k (keys m) → ⊥) → find k m ≡ none
  find_of_not-mem k m not_there = go (find k m) refl
    where
      go : (found : Option V) → find k m ≡ found → find k m ≡ none
      go none e = e
      go (some v) e = absurd (not_there (keys-find k v m e))

  pub Nodup-keys-put :
      (k : Text) (v : V) (m : TextMap V) → Nodup (keys m) → Nodup (keys (put k v m))
  unfolding put insert
  Nodup-keys-put k v [] d = Nodup-cons.1 (not-mem-nil, d)
  Nodup-keys-put k v ((j, w) ∷ m) d = elim (Bool-cases (text_eq j k)) [
    | inl same ↦ rw (same, insert) d
    | inr other ↦
        rw (other, insert)
          (Nodup-cons.1 (
            find-keys j (put k v m) (
                find-put_ne j k v m (λ e. true≢false (sym ((text_eq_iff j k).1 (sym e)) ∙ other))
                ∙ find_of_not-mem j m (Nodup-cons.0 d).0),
            Nodup-keys-put k v m (Nodup-cons.0 d).1,
          ))
  ]

  pub Nodup-keys-remove : (k : Text) (m : TextMap V) → Nodup (keys m) → Nodup (keys (remove k m))
  unfolding remove
  Nodup-keys-remove k [] d = d
  Nodup-keys-remove k ((j, w) ∷ m) d = elim (Bool-cases (text_eq j k)) [
    | inl same ↦ rw (same, remove) (Nodup-keys-remove k m (Nodup-cons.0 d).1)
    | inr other ↦
        rw (other, remove)
          (Nodup-cons.1 (
            find-keys j (remove k m) (
                ground (
                  arith,
                  find-remove j k m,
                  text_eq_iff k j,
                  text_eq_iff j k,
                  find_of_not-mem j m (Nodup-cons.0 d).0,
                )),
            Nodup-keys-remove k m (Nodup-cons.0 d).1,
          ))
  ]

  pub find-remove_eq : (k : Text) (m : TextMap V) → find k (remove k m) ≡ none
  find-remove_eq k m = ground (arith, text_eq_iff k k, find-remove k k m)

  pub find-remove_ne : (j k : Text) (m : TextMap V) → k ≢ j → find j (remove k m) ≡ find j m
  find-remove_ne j k m ne = ground (arith, text_eq_iff k j, find-remove j k m)

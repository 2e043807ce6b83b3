-- ===== src/Warning/Total.antt =====
-- Names, levels and messages: what holds for every code.
use barista_script.Common.{
  ℕ, ◌<◌, ◌≤◌, ◌≡◌, refl, Bool, true, Option, some, List, [], ◌∷◌, length, get_elem?, ltb, Text,
  arith, ◌&&◌, text_eq, Bool-cases, inl, inr,
}
use Prim.Native.String.{String}
use barista_script.Token.Names.{codes}
use barista_script.Warning.Code.{Code}
use barista_script.Warning.Registry.{get_name_from_code, find_code, get_code_from_name}
use barista_script.Warning.Number.{number}
use barista_script.Warning.Message.{select, format, choose, get_message, check_symbols}

-- Looking up the name of a code gives the code again, so no two codes share a name. A value that is
-- no code has the empty name, which gives the value back.
pub get_code_from_name-get_name_from_code :
    (c : Code) → get_code_from_name (get_name_from_code c) ≡ c
unfolding get_code_from_name find_code get_name_from_code number text_eq
get_code_from_name-get_name_from_code Code.warning_max = refl
get_code_from_name-get_name_from_code _ = refl

abbrev Given : {A : Type 0} → Option A → Type 0
Given {A} o = (a : A) × (o ≡ some a)

abbrev below : ℕ → List ℕ → Bool
below n [] = true
below n (i ∷ is) = ltb i n && below n is

get_elem?-Given : (s : List Text) (i : ℕ) → i < length s → Given (get_elem? s i)
get_elem?-Given [] i h = absurd (omega arith)
get_elem?-Given (x ∷ s) ℕ.zero h = (x, refl)
get_elem?-Given (x ∷ s) (ℕ.suc i) h = get_elem?-Given s i (omega arith)

select-Given :
    (n : ℕ) (s : List Text) (is : List ℕ) → below n is ≡ true → n ≤ length s → Given (select s is)
unfolding select
select-Given n s [] b h = ([], refl)
select-Given n s (i ∷ is) b h =
    let (x, e) = get_elem?-Given s i (ground arith) in
    let (xs, es) = select-Given n s is (ground arith) h in rw (e, es, select) (x ∷ xs, refl)

check_symbols-Given :
    (n : ℕ) (s : List Text) (m : Option Text)
    → (n ≤ length s → Given m)
    → Given (check_symbols n s m)
check_symbols-Given n s m h = elim (Bool-cases (ltb (length s) n)) [
  | inl e ↦ rw (e) ([], refl)
  | inr e ↦ rw (e) (h (ground arith))
]

module _ (vformat : Text → List Text → Text) where
  format-Given :
      (n : ℕ) (t : String) (is : List ℕ) (s : List Text)
      → below n is ≡ true
      → n ≤ length s
      → Given (format vformat t is s)
  unfolding format
  format-Given n t is s b h =
      let (xs, e) = select-Given n s is b h in rw (e, format) (vformat (codes t) xs, refl)

  message-Given :
      (n : ℕ) (t : String) (is : List ℕ) (s : List Text)
      → below n is ≡ true
      → Given (check_symbols n s (format vformat t is s))
  message-Given n t is s b =
      check_symbols-Given n s (format vformat t is s) (format-Given n t is s b)

  choose-Given :
      (s : List Text) (i : ℕ) (t : Text) (a b : Option Text)
      → i < length s
      → Given a
      → Given b
      → Given (choose vformat s i t a b)
  unfolding choose
  choose-Given s i t a b h p q =
      let (x, e) = get_elem?-Given s i h in
      elim (Bool-cases (text_eq x t)) [
        | inl same ↦ rw (e, choose) (rw (same) p)
        | inr other ↦ rw (e, choose) (rw (other) q)
      ]

  -- `get_message` reads no symbol that is not there, for every code and every list of symbols: with
  -- fewer symbols than the message needs it returns the empty text.
  pub get_message-Given :
      (c : Code) (s : List Text) → (m : Text) × (get_message vformat c s ≡ some m)
  unfolding get_message
  get_message-Given Code.untyped_declaration s = check_symbols-Given 2 s _ (λ h.
      choose-Given s 0 _ _ _ (omega arith) (format-Given 2 _ _ s refl h)
        (format-Given 2 _ _ s refl h))
  get_message-Given Code.shadowed_variable_base_class s = check_symbols-Given 4 s _ (λ h.
      elim (Bool-cases (ltb 4 (length s))) [
        | inl e ↦ rw (e) (format-Given 5 _ _ s refl (ground arith))
        | inr e ↦ rw (e) (format-Given 4 _ _ s refl h)
      ])
  get_message-Given Code.open_enum_match_without_default s = check_symbols-Given 2 s _ (λ h.
      choose-Given s 1 _ _ _ (omega arith) (format-Given 2 _ _ s refl h)
        (format-Given 2 _ _ s refl h))
  get_message-Given Code.unassigned_variable s = message-Given 1 _ _ s refl
  get_message-Given Code.unassigned_variable_op_assign s = message-Given 2 _ _ s refl
  get_message-Given Code.unused_variable s = message-Given 1 _ _ s refl
  get_message-Given Code.unused_local_constant s = message-Given 1 _ _ s refl
  get_message-Given Code.unused_private_class_variable s = message-Given 1 _ _ s refl
  get_message-Given Code.unused_parameter s = message-Given 2 _ _ s refl
  get_message-Given Code.unused_signal s = message-Given 1 _ _ s refl
  get_message-Given Code.shadowed_variable s = message-Given 4 _ _ s refl
  get_message-Given Code.shadowed_global_identifier s = message-Given 3 _ _ s refl
  get_message-Given Code.mixed_namespace_directory s = message-Given 2 _ _ s refl
  get_message-Given Code.unreachable_code s = message-Given 1 _ _ s refl
  get_message-Given Code.inferred_declaration s = message-Given 2 _ _ s refl
  get_message-Given Code.unsafe_property_access s = message-Given 2 _ _ s refl
  get_message-Given Code.unsafe_method_access s = message-Given 2 _ _ s refl
  get_message-Given Code.unsafe_cast s = message-Given 1 _ _ s refl
  get_message-Given Code.unsafe_call_argument s = message-Given 5 _ _ s refl
  get_message-Given Code.unsafe_void_return s = message-Given 2 _ _ s refl
  get_message-Given Code.return_value_discarded s = message-Given 1 _ _ s refl
  get_message-Given Code.static_called_on_instance s = message-Given 2 _ _ s refl
  get_message-Given Code.missing_await s = message-Given 1 _ _ s refl
  get_message-Given Code.int_as_enum_without_match s = message-Given 3 _ _ s refl
  get_message-Given Code.enum_variable_without_default s = message-Given 1 _ _ s refl
  get_message-Given Code.deprecated_keyword s = message-Given 2 _ _ s refl
  get_message-Given Code.confusable_identifier s = message-Given 1 _ _ s refl
  get_message-Given Code.confusable_local_declaration s = message-Given 2 _ _ s refl
  get_message-Given Code.confusable_local_usage s = message-Given 1 _ _ s refl
  get_message-Given Code.confusable_capture_reassignment s = message-Given 1 _ _ s refl
  get_message-Given Code.inference_on_variant s = message-Given 1 _ _ s refl
  get_message-Given Code.native_method_override s = message-Given 2 _ _ s refl
  get_message-Given Code.get_node_default_without_onready s = message-Given 1 _ _ s refl
  get_message-Given Code.non_exhaustive_match s = message-Given 2 _ _ s refl
  get_message-Given _ s = (_, refl)

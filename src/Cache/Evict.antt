-- ===== src/Cache/Evict.antt =====
-- src/bs_cache.cpp `evict_entries_with_missing_files`: what it evicts, and the states that the
-- operations of the cache reach.
use mathlib.Core.List.{
  Mem, eq-or-mem_of_mem-cons, not-mem-nil, mem-cons_of_mem, mem-cons_self, Mem-prop,
}
use mathlib.Core.Logic.{∥∥₁_elim, inl, inr, ◌⊎◌}
use mathlib.Core.Bool.{true≢false}
use barista_script.Common.{
  Bool, true, false, not, ◌&&◌, ◌≡◌, ◌≢◌, refl, sym, ap, ◌∙◌, [], ◌∷◌, List, Text, text_eq,
  text_eq_iff, some, none, Option, if◌then◌else◌, Bool-cases,
}
use barista_script.Common.Maps.{keys}
use barista_script.Common.TextMaps.{
  has, is_some, find-keys, find, find-put_eq, find-put_ne, find-remove_eq, find-remove_ne,
  keys-find,
}
use barista_script.Cache.Miss.{MissReason}
use barista_script.Cache.State.{Entry, ParseCache}
use barista_script.Cache.Lookup.{bury, evict_keys, evict_entries_with_missing_files}

-- `filter` of the keys whose file is missing.
abbrev pub missing : (Text → Bool) → List Text → List Text
missing file_exists [] = []
missing file_exists (k ∷ ks) =
    let rest = missing file_exists ks in if file_exists k then rest else k ∷ rest

either : {A : Type 0} (b : Bool) → ◌≡◌ {A = Option A} none (if b then none else none)
either true = refl
either false = refl

module _ (file_exists : Text → Bool) where
  evicted-missing :
      (ks : List Text) (c : ParseCache) → (evict_keys file_exists ks c).0 ≡ missing file_exists ks
  unfolding evict_keys
  evicted-missing [] c = refl
  evicted-missing (k ∷ ks) c = elim (Bool-cases (file_exists k)) [
    | inl there ↦ rw (there, evict_keys) (evicted-missing ks c)
    | inr gone ↦
        rw (gone, evict_keys) (ap (◌∷◌ k) (evicted-missing ks (bury MissReason.evicted k c)))
  ]

  find-bury_ne :
      (k j : Text) (c : ParseCache)
      → k ≢ j
      → (find j (bury MissReason.evicted k c).entries ≡ find j c.entries)
        × (find j (bury MissReason.evicted k c).rejected ≡ find j c.rejected)
  unfolding bury
  find-bury_ne k j c ne =
      (find-remove_ne j k c.entries ne, find-put_ne j k MissReason.evicted c.rejected ne)

  find-bury_eq :
      (k : Text) (c : ParseCache)
      → (find k (bury MissReason.evicted k c).entries ≡ none)
        × (find k (bury MissReason.evicted k c).rejected ≡ some MissReason.evicted)
  unfolding bury
  find-bury_eq k c = (find-remove_eq k c.entries, find-put_eq k MissReason.evicted c.rejected)

  -- What the loop does to a path whose file exists, or that is no key: nothing.
  evict_keys-kept :
      (ks : List Text) (c : ParseCache) (j : Text)
      → (Mem j ks → file_exists j ≡ true)
      → (find j (evict_keys file_exists ks c).1.entries ≡ find j c.entries)
        × (find j (evict_keys file_exists ks c).1.rejected ≡ find j c.rejected)
  unfolding evict_keys
  evict_keys-kept [] c j kept = (refl, refl)
  evict_keys-kept (k ∷ ks) c j kept = elim (Bool-cases (file_exists k)) [
    | inl there ↦ rw (there, evict_keys) (evict_keys-kept ks c j (λ m. kept (mem-cons_of_mem k m)))
    | inr gone ↦
        rw (gone, evict_keys)
          (let ne : k ≢ j = λ e. true≢false (sym (kept (rw e mem-cons_self)) ∙ rw (e) at gone) in
            let rest =
              evict_keys-kept ks (bury MissReason.evicted k c) j
                (λ m. kept (mem-cons_of_mem k m)) in
            (rest.0 ∙ (find-bury_ne k j c ne).0, rest.1 ∙ (find-bury_ne k j c ne).1))
  ]

  IsEvicted : Text → ParseCache → Type 0
  IsEvicted j c = (find j c.entries ≡ none) × (find j c.rejected ≡ some MissReason.evicted)

  mem-tail : {j k : Text} {ks : List Text} → k ≢ j → Mem j (k ∷ ks) → Mem j ks
  mem-tail ne there =
      ∥∥₁_elim (eq-or-mem_of_mem-cons there) Mem-prop
        (λ o. elim o [ inl e ↦ absurd (ne (sym e)) | inr later ↦ later ])

  bury-IsEvicted :
      (k j : Text) (ks : List Text) (c : ParseCache)
      → Mem j (k ∷ ks) ⊎ IsEvicted j c
      → Mem j ks ⊎ IsEvicted j (bury MissReason.evicted k c)
  unfolding IsEvicted
  bury-IsEvicted k j ks c m = elim (Bool-cases (text_eq k j)) [
    | inl same ↦ rw ((text_eq_iff k j).0 same) (inr (find-bury_eq j c))
    | inr other ↦
        let ne : k ≢ j = λ e. true≢false (sym ((text_eq_iff k j).1 e) ∙ other) in
        elim m [
          | inl there ↦ inl (mem-tail ne there)
          | inr evicted ↦
              inr ((find-bury_ne k j c ne).0 ∙ evicted.0, (find-bury_ne k j c ne).1 ∙ evicted.1)
        ]
  ]

  -- A path whose file is missing: its entry goes, and the reason stays.
  evict_keys-IsEvicted :
      (ks : List Text) (c : ParseCache) (j : Text)
      → (Mem j ks) ⊎ IsEvicted j c
      → file_exists j ≡ false
      → IsEvicted j (evict_keys file_exists ks c).1
  unfolding evict_keys
  evict_keys-IsEvicted [] c j (inl m) gone = absurd (not-mem-nil m)
  evict_keys-IsEvicted [] c j (inr h) gone = h
  evict_keys-IsEvicted (k ∷ ks) c j m missing = elim (Bool-cases (file_exists k)) [
    | inl there ↦
        let ne : k ≢ j = λ e. true≢false (sym there ∙ rw (sym e) at missing) in
        rw (there, evict_keys)
          (evict_keys-IsEvicted ks c j (elim m [ inl l ↦ inl (mem-tail ne l) | inr h ↦ inr h ])
            missing)
    | inr gone ↦
        rw (gone, evict_keys)
          (evict_keys-IsEvicted ks (bury MissReason.evicted k c) j (bury-IsEvicted k j ks c m)
            missing)
  ]

  -- The eviction as it is meant: the entries and the tombstones of each path, by whether its file
  -- exists.
  pub record Evicts (c : ParseCache) (r : List Text × ParseCache) : Type 0 where
    pub evicted : r.0 ≡ missing file_exists (keys c.entries)
    pub entries :
        (j : Text) → find j r.1.entries ≡ (if file_exists j then find j c.entries else none)
    pub rejected :
        (j : Text)
        → find j r.1.rejected ≡ (
            if has j c.entries && not (file_exists j)
            then some MissReason.evicted
            else find j c.rejected)

  evicts_path :
      (c : ParseCache) (j : Text) (found : Option Entry)
      → find j c.entries ≡ found
      → (find j (evict_keys file_exists (keys c.entries) c).1.entries
          ≡ (if file_exists j then found else none))
        × (find j (evict_keys file_exists (keys c.entries) c).1.rejected ≡ (
            if is_some found && not (file_exists j)
            then some MissReason.evicted
            else find j c.rejected))
  unfolding IsEvicted
  evicts_path c j none e =
      let kept = evict_keys-kept (keys c.entries) c j (λ m. absurd (find-keys j c.entries e m)) in
      (kept.0 ∙ (e ∙ either (file_exists j)), kept.1)
  evicts_path c j (some entry) e = elim (Bool-cases (file_exists j)) [
    | inl there ↦
        let kept = evict_keys-kept (keys c.entries) c j (λ m. there) in
        rw there (kept.0 ∙ e, kept.1)
    | inr gone ↦
        rw gone
          (evict_keys-IsEvicted (keys c.entries) c j (inl (keys-find j entry c.entries e)) gone)
  ]

  -- After the eviction the entries are exactly the former ones whose files exist; each of the others
  -- is a tombstone with the reason of the eviction and is named in the result, in the order of the
  -- map, and the other tombstones stay.
  pub evict_entries-Evicts :
      (c : ParseCache) → Evicts c (evict_entries_with_missing_files file_exists c)
  unfolding evict_entries_with_missing_files has
  evict_entries-Evicts c = record {
    evicted = evicted-missing (keys c.entries) c;
    entries = λ j. (evicts_path c j _ refl).0;
    rejected = λ j. (evicts_path c j _ refl).1;
  }

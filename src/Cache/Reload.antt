-- ===== src/Cache/Reload.antt =====
-- src/bs_cache.cpp: `load` of a whole store that `flush` wrote.
use mathlib.Core.List.{
  Mem, mem-cons_self, mem-cons_of_mem, eq-or-mem_of_mem-cons, Nodup, Nodup-cons, not-mem-nil,
  Mem-prop,
}
use mathlib.Core.Bool.{true≢false}
use mathlib.Core.Logic.{∥∥₁_elim, inl, inr}
use barista_script.Common.{
  ℕ, suc, false, ◌||◌, ◌≡◌, refl, sym, ◌∙◌, length, ◌++◌, [], ◌∷◌, List, append_assoc, arith, Text,
  Bytes, text_eq, text_eq_iff, some, Bool-cases,
}
use barista_script.Common.TextMaps.{TextMap, find, put, has, find-put_ne, find-put_eq, has-put_ne}
use barista_script.Buffer.Format.{ok}
use barista_script.Cache.Bytes.{cache_format_version}
use barista_script.Cache.State.{Entry, ParseCache}
use barista_script.Cache.Load.{
  Utf8, StoreRecord, decode_record, records_read, narrows, accept, load_records,
}
use barista_script.Cache.Flush.{encode_record, encode_records, entry_of}
use barista_script.Cache.RoundTrip.{Fits, decode_record-encode_record}

-- What the loop over the records builds, for records of this version.
unfoldable pub accept_keys : TextMap Entry → List Text → ParseCache → ParseCache
accept_keys m [] c = c
accept_keys m (key ∷ rest) c =
    accept_keys m rest (record c { entries = put key (entry_of m key) c.entries })

-- No record's key has been read.
unfoldable pub Fresh : List Text → ParseCache → Type 0
Fresh sorted c = (k : Text) → Mem k sorted → (has k c.entries || has k c.rejected) ≡ false

load_records-step :
    (utf8 : Utf8) (size left : ℕ) (b : Bytes) (c : ParseCache) (r : StoreRecord)
    → decode_record utf8 b ≡ ok r
    → (has r.key c.entries || has r.key c.rejected) ≡ false
    → narrows r ≡ false
    → load_records utf8 size (suc left) b c ≡ load_records utf8 size left r.rest (accept r c)
unfolding load_records
load_records-step utf8 size left b c r decoded new fits = rw (decoded, load_records, new, fits) refl

pub load_records-encode_records :
    (utf8 : Utf8) (size : ℕ) (m : TextMap Entry) (sorted : List Text) (rest : Bytes)
    (c : ParseCache)
    → Nodup sorted
    → Fresh sorted c
    → ((k : Text) → Mem k sorted → Fits utf8 k (entry_of m k))
    → load_records utf8 size
        (length sorted)
        (encode_records utf8 cache_format_version m sorted ++ rest)
        c
      ≡ ok (records_read (accept_keys m sorted c) rest)
unfolding load_records encode_records accept_keys Fresh accept
load_records-encode_records utf8 size m [] rest c distinct fresh fits = refl
load_records-encode_records utf8 size m (key ∷ sorted) rest c distinct fresh fits =
    rw
      (append_assoc (encode_record utf8 cache_format_version key (entry_of m key))
        (encode_records utf8 cache_format_version m sorted) rest)
      (load_records-step utf8 size (length sorted) _ c _
          (decode_record-encode_record utf8 cache_format_version key (entry_of m key)
            (encode_records utf8 cache_format_version m sorted ++ rest) (omega arith)
            (fits key mem-cons_self))
          (fresh key mem-cons_self) (ground (arith, (fits key mem-cons_self).payload_length))
        ∙ load_records-encode_records utf8 size m sorted rest
            (record c { entries = put key (entry_of m key) c.entries }) (Nodup-cons.0 distinct).1
            (λ k there.
              rw
                (has-put_ne k key (entry_of m key) c.entries
                  (λ e. (Nodup-cons.0 distinct).0 (rw (← e) at there)))
                (fresh k (mem-cons_of_mem key there)))
            (λ k there. fits k (mem-cons_of_mem key there)))

pub find-accept_keys_other :
    (m : TextMap Entry) (sorted : List Text) (c : ParseCache) (j : Text)
    → (Mem j sorted → ⊥)
    → find j (accept_keys m sorted c).entries ≡ find j c.entries
unfolding accept_keys
find-accept_keys_other m [] c j not_there = refl
find-accept_keys_other m (key ∷ sorted) c j not_there =
    find-accept_keys_other m sorted _ j (λ there. not_there (mem-cons_of_mem key there))
    ∙ find-put_ne j key (entry_of m key) c.entries (λ e. not_there (rw e mem-cons_self))

pub find-accept_keys :
    (m : TextMap Entry) (sorted : List Text) (c : ParseCache) (j : Text)
    → Nodup sorted
    → Mem j sorted
    → find j (accept_keys m sorted c).entries ≡ some (entry_of m j)
unfolding accept_keys
find-accept_keys m [] c j distinct there = absurd (not-mem-nil there)
find-accept_keys m (key ∷ sorted) c j distinct there = elim (Bool-cases (text_eq key j)) [
  | inl same ↦
      let e : key ≡ j = (text_eq_iff key j).0 same in
      find-accept_keys_other m sorted _ j (rw (e) at (Nodup-cons.0 distinct).0)
      ∙ rw (e) (find-put_eq j (entry_of m j) c.entries)
  | inr other ↦ find-accept_keys m sorted _ j (Nodup-cons.0 distinct).1 (
      ∥∥₁_elim (eq-or-mem_of_mem-cons there) Mem-prop (λ o. elim o [
        | inl e ↦ absurd (true≢false (sym ((text_eq_iff key j).1 (sym e)) ∙ other))
        | inr later ↦ later
      ]))
]

-- The other fields stay.
pub accept_keys-fields :
    (m : TextMap Entry) (sorted : List Text) (c : ParseCache)
    → ((accept_keys m sorted c).rejected ≡ c.rejected)
      × ((accept_keys m sorted c).store_corrupt ≡ c.store_corrupt)
      × ((accept_keys m sorted c).load_report ≡ c.load_report)
unfolding accept_keys
accept_keys-fields m [] c = (refl, refl, refl)
accept_keys-fields m (key ∷ sorted) c =
    accept_keys-fields m sorted (record c { entries = put key (entry_of m key) c.entries })

-- ===== src/Tests/CacheRuns.antt =====
-- A cache with two scripts, flushed to a disk, loaded, looked up and evicted.
use mathlib.Core.List.{Mem, Nodup-cons, Nodup-nil, not-mem-nil, eq-or-mem_of_mem-cons}
use mathlib.Core.List.Perm
use mathlib.Core.Logic.{∥∥₁_elim, inl, inr}
use mathlib.Core.Bool.{Bool-set}
use barista_script.Common.{
  ◌≡◌, ◌≢◌, refl, Bool, true, false, none, [], ◌∷◌, List, Text, Bytes, text_eq, arith, take,
  text_eq_iff, ◌↔◌,
}
use barista_script.Common.Maps.{lookup}
use barista_script.Common.TextMaps.{find}
use barista_script.Buffer.Format.{ok}
use barista_script.Cache.Bytes.{cache_format_version}
use barista_script.Cache.Miss.{MissReason}
use barista_script.Cache.State.{ParseCache, cleared}
use barista_script.Cache.Load.{Utf8, contents, load}
use barista_script.Cache.Lookup.{evict_entries_with_missing_files, hit, miss}
use barista_script.Cache.Lookup
use barista_script.Cache.Flush.{
  WriteFault, Disk, Answers, flush, flush_store, flush_ok, temp_path_of, entry_of,
}
use barista_script.Cache.Atomic.{IsAtomic, flush_store-IsAtomic}
use barista_script.Cache.Success.{Obliges, flush_store-flush_ok}
use barista_script.Cache.RoundTrip.{Fits}
use barista_script.Cache.Kept.{Restores, load-flush, read_file}
use barista_script.Cache.Served.{lookup-flush}
use barista_script.Cache.Verdict.{Outcome, load-Outcome}
use barista_script.Cache.Answers.{IsAnswer, lookup-IsAnswer, lookup-put}
use barista_script.Cache.Parser.{Status, ParserRef, Phases}
use barista_script.Cache.Evict.{Evicts, evict_entries-Evicts}
use barista_script.Cache.History.{Step, Reachable, Reachable-WellFormed}
use barista_script.Cache.Invariant.{WellFormed}

-- Text below 128 is its own encoding.
abbrev ascii : Utf8
ascii = record { encode = λ t. t; decode = λ b. b }

abbrev path : Text
path = 97 ∷ []

abbrev source : Text
source = 120 ∷ 61 ∷ 49 ∷ []

abbrev payload : Bytes
payload = 7 ∷ 8 ∷ 9 ∷ []

abbrev one_entry : ParseCache
one_entry = record cleared {
  entries = (path, record { source_digest = 1234567; payload = payload }) ∷ [];
}

abbrev same_order : List Text → List Text
same_order l = l

abbrev no_disk : Disk
no_disk q = none

abbrev answers : Answers
answers = record {
  path_error = none;
  opens = true;
  written = λ b. b;
  write_ok = true;
  read_ok = true;
  resolve_error = none;
  renames = true;
}

abbrev unique : Bytes → Text
unique b = 48 ∷ []

-- A disk that loses what is written behind the first byte.
abbrev full_disk : Answers
full_disk = record answers { written = take 1 }

flush_store-IsAtomic_example :
    IsAtomic path
      (temp_path_of path (48 ∷ []))
      payload
      no_disk
      (flush_store WriteFault.no_fault full_disk path (48 ∷ []) payload no_disk)
flush_store-IsAtomic_example =
    flush_store-IsAtomic WriteFault.no_fault full_disk path (48 ∷ []) payload no_disk

obliging : (store : Bytes) → Obliges answers store
obliging store = record {
  path_error = refl;
  opens = refl;
  written = refl;
  write_ok = refl;
  read_ok = refl;
  resolve_error = refl;
  renames = refl;
}

flush_store-flush_ok_example :
    ((flush_store WriteFault.no_fault answers path (48 ∷ []) payload no_disk).0 ≡ flush_ok)
    ↔ Obliges answers payload
flush_store-flush_ok_example = flush_store-flush_ok answers path (48 ∷ []) payload no_disk

Fits-path : (k : Text) → Mem k (path ∷ []) → Fits ascii k (entry_of one_entry.entries k)
unfolding find lookup text_eq
Fits-path k there = rw ((text_eq_iff k path).0 same) (record {
  key_length = omega arith;
  key_nonempty = omega arith;
  bytes_nonempty = omega arith;
  round_trip = refl;
  digest = omega arith;
  payload_length = omega arith;
})
  where
    same : text_eq k path ≡ true
    same =
        ∥∥₁_elim (eq-or-mem_of_mem-cons there) (Bool-set _ _) (λ o. elim o [
          | inl e ↦ (text_eq_iff k path).1 e
          | inr later ↦ absurd (not-mem-nil later)
        ])

flushed :
    (flush ascii same_order unique WriteFault.no_fault answers path cache_format_version one_entry
      no_disk).0
    ≡ flush_ok
unfolding flush
flushed = (flush_store-flush_ok answers path _ _ no_disk).1 (obliging _)

load-flush_example :
    (r : MissReason × ParseCache) × (load ascii path (
        read_file
          (flush ascii same_order unique WriteFault.no_fault answers path cache_format_version
            one_entry no_disk).1
          path)
      ≡ ok r)
    × Restores one_entry.entries r
load-flush_example =
    load-flush ascii same_order unique WriteFault.no_fault answers path one_entry no_disk
      (λ l. Perm.refl l) (Nodup-cons.1 (not-mem-nil, Nodup-nil)) (omega arith) Fits-path flushed

lookup-flush_example :
    (r : MissReason × ParseCache) × (load ascii path (
        read_file
          (flush ascii same_order unique WriteFault.no_fault answers path cache_format_version
            one_entry no_disk).1
          path)
      ≡ ok r)
    × ((Lookup.lookup ascii (λ q. true) path source r.1).0
        ≡ (Lookup.lookup ascii (λ q. true) path source one_entry).0)
unfolding find lookup
lookup-flush_example =
    lookup-flush ascii same_order unique WriteFault.no_fault answers path one_entry no_disk
      (λ q. true) path source (λ l. Perm.refl l) (Nodup-cons.1 (not-mem-nil, Nodup-nil))
      (omega arith) Fits-path flushed refl refl

-- A store that is cut off in the version tag of its only record.
abbrev cut_off : Bytes
cut_off = 66 ∷ 83 ∷ 80 ∷ 67 ∷ 1 ∷ 0 ∷ 0 ∷ 0 ∷ 2 ∷ []

load-Outcome_example :
    (r : MissReason × ParseCache) × (load ascii path (contents cut_off) ≡ ok r)
    × Outcome ascii (contents cut_off) r
load-Outcome_example = load-Outcome ascii path (contents cut_off) (omega arith)

abbrev only_path : Text → Bool
only_path q = text_eq q path

lookup-IsAnswer_example :
    IsAnswer ascii only_path path source one_entry
      (Lookup.lookup ascii only_path path source one_entry)
lookup-IsAnswer_example = lookup-IsAnswer ascii only_path path source one_entry

evict_entries-Evicts_example :
    Evicts (λ q. false) one_entry (evict_entries_with_missing_files (λ q. false) one_entry)
evict_entries-Evicts_example = evict_entries-Evicts (λ q. false) one_entry

abbrev after_put : ParseCache
after_put = Lookup.put ascii path source payload cleared

reached : Reachable ascii (Lookup.lookup ascii only_path path source after_put).1
reached =
    Reachable.called after_put _
      (Reachable.called cleared _ Reachable.created (Step.put_step path source payload))
      (Step.lookup_step only_path path source)

Reachable-WellFormed_example : WellFormed (Lookup.lookup ascii only_path path source after_put).1
Reachable-WellFormed_example = Reachable-WellFormed ascii _ reached

lookup-put_example :
    (only_path path ≡ true
      → Lookup.lookup ascii only_path path source (Lookup.put ascii path source payload one_entry)
        ≡ (hit payload, Lookup.put ascii path source payload one_entry))
    × ((other text : Text)
        → path ≢ other
        → (Lookup.lookup ascii only_path other text
            (Lookup.put ascii path source payload one_entry)).0
          ≡ (Lookup.lookup ascii only_path other text one_entry).0)
lookup-put_example = lookup-put ascii only_path path source payload one_entry

-- A parser whose interface phase fails.
abbrev failing : Phases
failing = record {
  read_source_code = (0, source);
  hash = λ t. 5;
  parse = λ t r. (0, r);
  resolve_inheritance = λ r. (0, r);
  resolve_interface = λ r. (43, r);
  resolve_body = λ r. (0, r);
}

abbrev new_ref : ParserRef
new_ref = record {
  status = Status.empty;
  result = 0;
  source_hash = 0;
  has_parser = false;
  clearing = false;
}

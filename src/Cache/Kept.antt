-- ===== src/Cache/Kept.antt =====
-- src/bs_cache.cpp: a cache that is flushed and loaded again.
use mathlib.Core.List.{Mem, Nodup, Perm}
use mathlib.Core.List.Perm.{mem_iff, nodup}
use barista_script.Common.{
  ℕ, ◌<◌, false, not, ◌||◌, ltb, take, drop, ◌≡◌, refl, sym, ap, ◌∙◌, length, length-append, [],
  List, append-nil, arith, Text, Bytes, u32_mod, some, none, Option, text_eq, text_eq_iff,
}
use barista_script.Common.Maps.{keys, lookup}
use barista_script.Common.TextMaps.{TextMap, has, find, keys-find, find-keys}
use barista_script.Buffer.Format.{ok}
use barista_script.Cache.Bytes.{
  cache_format_version, length-put_bytes, put_u32, get_u32, get_bytes-put_bytes, drop-put_bytes,
}
use barista_script.Cache.Miss.{MissReason}
use barista_script.Cache.State.{Entry, ParseCache, cleared}
use barista_script.Cache.Load.{
  Utf8, FileRead, not_found, contents, load, load_contents, load_records, store_magic, records_read,
  finish_load,
}
use barista_script.Cache.Flush.{
  WriteFault, Disk, Answers, flush_ok, encode_records, encode_store, entry_of, flush,
}
use barista_script.Cache.Atomic.{flush_store-IsAtomic}
use barista_script.Cache.RoundTrip.{Fits}
use barista_script.Cache.Reload.{
  Fresh, accept_keys, load_records-encode_records, find-accept_keys, find-accept_keys_other,
  accept_keys-fields,
}

-- A cache with the entries of the map, no tombstones and nothing to report.
pub record Restores (m : TextMap Entry) (r : MissReason × ParseCache) : Type 0 where
  pub reason : r.0 ≡ MissReason.cold
  pub entries : (k : Text) → find k r.1.entries ≡ find k m
  pub rejected : r.1.rejected ≡ []
  pub store_corrupt : r.1.store_corrupt ≡ false
  pub load_report : r.1.load_report ≡ []

load_contents-step :
    (utf8 : Utf8) (path : Text) (b : Bytes) (n : ℕ) (c : ParseCache)
    → (ltb (length b) 8 || not (text_eq (take 4 b) store_magic)) ≡ false
    → get_u32 (drop 4 b) ≡ ok n
    → load_records utf8 (length b) n (drop 4 (drop 4 b)) cleared ≡ ok (records_read c [])
    → load_contents utf8 path b ≡ ok (MissReason.cold, c)
unfolding load_contents finish_load
load_contents-step utf8 path b n c magic count loop = rw (magic, load_contents, count, loop) refl

load_contents-encode_store :
    (utf8 : Utf8) (path : Text) (m : TextMap Entry) (sorted : List Text)
    → Nodup sorted
    → length sorted < u32_mod
    → ((k : Text) → Mem k sorted → Fits utf8 k (entry_of m k))
    → load_contents utf8 path (encode_store utf8 cache_format_version m sorted)
      ≡ ok (MissReason.cold, accept_keys m sorted cleared)
unfolding encode_store Fresh has find lookup
load_contents-encode_store utf8 path m sorted distinct few fits =
    load_contents-step utf8 path whole (length sorted) (accept_keys m sorted cleared)
      (ground (
        arith,
        length-append (put_u32 (length sorted)) records,
        length-put_bytes 4 (length sorted),
        (text_eq_iff store_magic store_magic).1 refl,
      ))
      (get_bytes-put_bytes 4 (length sorted) records few)
      (rw (drop-put_bytes 4 (length sorted) records) (
        rw (sym (append-nil records))
          (load_records-encode_records utf8 _ m sorted [] cleared distinct (λ k there. refl) fits)))
  where
    whole : Bytes
    whole = encode_store utf8 cache_format_version m sorted

    records : Bytes
    records = encode_records utf8 cache_format_version m sorted

entry_of-some : (m : TextMap Entry) (k : Text) (e : Entry) → find k m ≡ some e → entry_of m k ≡ e
entry_of-some m k e found = rw (found, entry_of) refl

find-accept_keys-cleared :
    (m : TextMap Entry) (sorted : List Text)
    → Perm (keys m) sorted
    → Nodup sorted
    → (k : Text) (found : Option Entry) → find k m ≡ found
    → find k (accept_keys m sorted cleared).entries ≡ found
unfolding find lookup
find-accept_keys-cleared m sorted same distinct k none missing =
    find-accept_keys_other m sorted cleared k
      (λ there. find-keys k m missing ((mem_iff same).1 there))
find-accept_keys-cleared m sorted same distinct k (some e) found =
    find-accept_keys m sorted cleared k distinct ((mem_iff same).0 (keys-find k e m found))
    ∙ ap some (entry_of-some m k e found)

accept_keys-Restores :
    (m : TextMap Entry) (sorted : List Text)
    → Perm (keys m) sorted
    → Nodup sorted
    → Restores m (MissReason.cold, accept_keys m sorted cleared)
accept_keys-Restores m sorted same distinct = record {
  reason = refl;
  entries = λ k. find-accept_keys-cleared m sorted same distinct k (find k m) refl;
  rejected = (accept_keys-fields m sorted cleared).0;
  store_corrupt = (accept_keys-fields m sorted cleared).1;
  load_report = (accept_keys-fields m sorted cleared).2;
}

-- What reading a path gives.
abbrev pub read_file : Disk → Text → FileRead
read_file disk path = elim (disk path) [ none ↦ not_found | some bytes ↦ contents bytes ]

read_file-some :
    (disk : Disk) (path : Text) (b : Bytes) → disk path ≡ some b → read_file disk path ≡ contents b
read_file-some disk path b there = rw (there, read_file) refl

-- A flush that reports success, of entries whose keys are distinct, whose keys and payloads fit their
-- length fields and whose payloads fit an `int`, leaves a store that loads, as a cold one and without a
-- report, to a cache that holds under every path the entry that the flushed one held there, if any. It
-- has no tombstone and no corrupt mark, whatever the flushed one had of them. The engine's sort keeps
-- the keys, and its UTF-8 decoder gives each key back from its encoding.
pub load-flush :
    (utf8 : Utf8) (sort : List Text → List Text) (unique : Bytes → Text) (fault : WriteFault)
    (a : Answers) (path : Text) (c : ParseCache) (disk : Disk)
    → ((l : List Text) → Perm l (sort l))
    → Nodup (keys c.entries)
    → length (sort (keys c.entries)) < u32_mod
    → ((k : Text) → Mem k (keys c.entries) → Fits utf8 k (entry_of c.entries k))
    → (flush utf8 sort unique fault a path cache_format_version c disk).0 ≡ flush_ok
    → (r : MissReason × ParseCache) × (load utf8 path
          (read_file (flush utf8 sort unique fault a path cache_format_version c disk).1 path)
        ≡ ok r)
      × Restores c.entries r
unfolding flush load
load-flush utf8 sort unique fault a path c disk sorts distinct few fits done = (
  (MissReason.cold, accept_keys c.entries sorted cleared),
  rw
      (read_file-some _ path store
        ((flush_store-IsAtomic fault a path (unique store) store disk).on_success done))
      (load_contents-encode_store utf8 path c.entries sorted (nodup same distinct) few
        (λ k there. fits k ((mem_iff same).1 there))),
  accept_keys-Restores c.entries sorted same (nodup same distinct),
)
  where
    sorted : List Text
    sorted = sort (keys c.entries)

    same : Perm (keys c.entries) sorted
    same = sorts (keys c.entries)

    store : Bytes
    store = encode_store utf8 cache_format_version c.entries sorted

-- ===== src/Cache/Served.antt =====
-- src/bs_cache.cpp: what a cache answers that was flushed and loaded again.
use mathlib.Core.List.{Mem, Nodup, Perm}
use barista_script.Common.{
  ◌<◌, ◌≡◌, sym, ◌∙◌, Bool, false, none, length, List, Text, Bytes, u32_mod,
}
use barista_script.Common.Maps.{keys, lookup}
use barista_script.Common.TextMaps.{find}
use barista_script.Buffer.Format.{ok}
use barista_script.Cache.Bytes.{cache_format_version}
use barista_script.Cache.Miss.{MissReason}
use barista_script.Cache.State.{ParseCache}
use barista_script.Cache.Load.{Utf8, load}
use barista_script.Cache.Lookup
use barista_script.Cache.Flush.{WriteFault, Disk, Answers, flush_ok, entry_of, flush}
use barista_script.Cache.RoundTrip.{Fits}
use barista_script.Cache.Answers.{lookup-same}
use barista_script.Cache.Kept.{Restores, read_file, load-flush}

Restores-lookup :
    (utf8 : Utf8) (file_exists : Text → Bool) (q source : Text) (c : ParseCache)
    (r : MissReason × ParseCache)
    → Restores c.entries r
    → find q c.rejected ≡ none
    → c.store_corrupt ≡ false
    → (Lookup.lookup utf8 file_exists q source r.1).0
      ≡ (Lookup.lookup utf8 file_exists q source c).0
unfolding find lookup
Restores-lookup utf8 file_exists q source c r s fresh sound =
    lookup-same utf8 file_exists q source r.1 c (rw (s.rejected) (sym fresh)) (s.entries q)
      (s.store_corrupt ∙ sym sound)

-- A flush that reports success, of entries whose keys are distinct, whose keys and payloads fit their
-- length fields and whose payloads fit an `int`, by a sort that keeps the keys and with UTF-8 that
-- decodes what it encodes, leaves a store that loads; and for a path that the flushed cache had no tombstone of, in a
-- cache whose own store was not corrupt, the loaded cache answers every lookup as the flushed one.
pub lookup-flush :
    (utf8 : Utf8) (sort : List Text → List Text) (unique : Bytes → Text) (fault : WriteFault)
    (a : Answers) (path : Text) (c : ParseCache) (disk : Disk) (file_exists : Text → Bool)
    (q source : Text)
    → ((l : List Text) → Perm l (sort l))
    → Nodup (keys c.entries)
    → length (sort (keys c.entries)) < u32_mod
    → ((k : Text) → Mem k (keys c.entries) → Fits utf8 k (entry_of c.entries k))
    → (flush utf8 sort unique fault a path cache_format_version c disk).0 ≡ flush_ok
    → find q c.rejected ≡ none
    → c.store_corrupt ≡ false
    → (r : MissReason × ParseCache) × (load utf8 path
          (read_file (flush utf8 sort unique fault a path cache_format_version c disk).1 path)
        ≡ ok r)
      × ((Lookup.lookup utf8 file_exists q source r.1).0
          ≡ (Lookup.lookup utf8 file_exists q source c).0)
lookup-flush utf8 sort unique fault a path c disk file_exists q source sorts distinct few fits done
      fresh sound =
    let (r, loaded, s) =
      load-flush utf8 sort unique fault a path c disk sorts distinct few fits done in
    (r, loaded, Restores-lookup utf8 file_exists q source c r s fresh sound)

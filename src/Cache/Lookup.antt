-- ===== src/Cache/Lookup.antt =====
-- src/bs_cache.cpp: `lookup`, `put` and `evict_entries_with_missing_files`.
use barista_script.Common.{
  Bool, not, Option, none, some, List, [], ◌∷◌, ◌++◌, ◌==◌, if◌then◌else◌, Text, Bytes,
}
use barista_script.Common.Maps.{keys}
use barista_script.Common.TextMaps.{TextMap, find, remove}
use barista_script.Common.TextMaps
use barista_script.Cache.Bytes.{compute_source_digest}
use barista_script.Cache.Miss.{MissReason}
use barista_script.Cache.State.{Entry, miss_line, ParseCache}
use barista_script.Cache.Load.{Utf8}

-- `hit` and `payload`, or the reason of the miss.
pub data LookupResult : Type 0 where
  hit : Bytes → LookupResult
  miss : MissReason → LookupResult

-- The entry of a path becomes a tombstone, and the report says so.
unfoldable pub bury : MissReason → Text → ParseCache → ParseCache
bury reason path c = record c {
  entries = remove path c.entries;
  rejected = TextMaps.put path reason c.rejected;
  load_report = c.load_report ++ miss_line reason path ∷ [];
}

-- `file_exists` answers for the disk.
module _ (utf8 : Utf8) (file_exists : Text → Bool) where
  -- The path's entry, against the disk and the source.
  unfoldable pub check_entry : Text → Text → Entry → ParseCache → LookupResult × ParseCache
  check_entry path source entry c =
      if not (file_exists path)
      then (miss MissReason.evicted, bury MissReason.evicted path c)
      else if not (compute_source_digest (utf8.encode source) == entry.source_digest)
      then (miss MissReason.digest_mismatch, bury MissReason.digest_mismatch path c)
      else (hit entry.payload, c)

  -- The branches of `lookup`, for what the two maps hold of the path.
  unfoldable pub look :
      Option MissReason → Option Entry → Text → Text → ParseCache → LookupResult × ParseCache
  look (some reason) entry path source c = (miss reason, c)
  look none (some entry) path source c = check_entry path source entry c
  look none none path source c =
      (miss (if c.store_corrupt then MissReason.corrupt else MissReason.cold), c)

  unfoldable pub lookup : Text → Text → ParseCache → LookupResult × ParseCache
  lookup path source c = look (find path c.rejected) (find path c.entries) path source c

unfoldable pub put : Utf8 → Text → Text → Bytes → ParseCache → ParseCache
put utf8 path source payload c = record c {
  entries =
      TextMaps.put path
        (record { source_digest = compute_source_digest (utf8.encode source); payload = payload })
        c.entries;
  rejected = remove path c.rejected;
}

module _ (file_exists : Text → Bool) where
  -- The loop over the keys, and the paths that are evicted.
  unfoldable pub evict_keys : List Text → ParseCache → List Text × ParseCache
  evict_keys [] c = ([], c)
  evict_keys (key ∷ rest) c =
      let there = file_exists key in
      let (evicted, c') = evict_keys rest (if there then c else bury MissReason.evicted key c) in
      (if there then evicted else key ∷ evicted, c')

  unfoldable pub evict_entries_with_missing_files : ParseCache → List Text × ParseCache
  evict_entries_with_missing_files c = evict_keys (keys c.entries) c

-- ===== src/Cache/History.antt =====
-- src/bs_cache.cpp: the states that the operations of the parse cache reach.
use barista_script.Common.{Bool, ◌≡◌, Text, Bytes}
use barista_script.Buffer.Format.{ok}
use barista_script.Cache.Miss.{MissReason}
use barista_script.Cache.State.{ParseCache, cleared}
use barista_script.Cache.Load.{Utf8, FileRead, load}
use barista_script.Cache.Lookup.{evict_entries_with_missing_files}
use barista_script.Cache.Lookup
use barista_script.Cache.Invariant.{
  WellFormed, cleared-WellFormed, refused-WellFormed, put-WellFormed, lookup-WellFormed,
  evict_keys-WellFormed,
}
use barista_script.Cache.Verdict.{Outcome, Outcome-of_load}

-- One call on the cache, over a disk and files that may differ from call to call. A flush changes
-- no field.
pub data Step (utf8 : Utf8) (c : ParseCache) : ParseCache → Type 0 where
  load_step :
      (path : Text) (f : FileRead) (r : MissReason × ParseCache)
      → load utf8 path f ≡ ok r
      → Step utf8 c r.1
  lookup_step :
      (file_exists : Text → Bool) (path source : Text)
      → Step utf8 c (Lookup.lookup utf8 file_exists path source c).1
  put_step :
      (path source : Text) (payload : Bytes) → Step utf8 c (Lookup.put utf8 path source payload c)
  evict_step :
      (file_exists : Text → Bool) → Step utf8 c (evict_entries_with_missing_files file_exists c).1
  clear_step : Step utf8 c cleared

pub data Reachable (utf8 : Utf8) : ParseCache → Type 0 where
  created : Reachable utf8 cleared
  called : (c d : ParseCache) → Reachable utf8 c → Step utf8 c d → Reachable utf8 d

Outcome-WellFormed :
    (utf8 : Utf8) (f : FileRead) (r : MissReason × ParseCache) → Outcome utf8 f r → WellFormed r.1
Outcome-WellFormed utf8 f _ (Outcome.accepted c whole w fine) = w
Outcome-WellFormed utf8 f _ (Outcome.discarded line no_whole) = refused-WellFormed line

Step-WellFormed : (utf8 : Utf8) (c d : ParseCache) → Step utf8 c d → WellFormed c → WellFormed d
unfolding evict_entries_with_missing_files
Step-WellFormed utf8 c _ (Step.load_step path f r e) w =
    Outcome-WellFormed utf8 f r (Outcome-of_load utf8 path f r e)
Step-WellFormed utf8 c _ (Step.lookup_step file_exists path source) w =
    lookup-WellFormed utf8 file_exists path source c w
Step-WellFormed utf8 c _ (Step.put_step path source payload) w =
    put-WellFormed utf8 path source payload c w
Step-WellFormed utf8 c _ (Step.evict_step file_exists) w = evict_keys-WellFormed file_exists _ c w
Step-WellFormed utf8 c _ Step.clear_step w = cleared-WellFormed

-- In every state that loads, lookups, puts, evictions and clearings reach, no path is held twice by a
-- map and none is both an entry and a tombstone.
pub Reachable-WellFormed : (utf8 : Utf8) (c : ParseCache) → Reachable utf8 c → WellFormed c
Reachable-WellFormed utf8 _ Reachable.created = cleared-WellFormed
Reachable-WellFormed utf8 _ (Reachable.called c d r s) =
    Step-WellFormed utf8 c d s (Reachable-WellFormed utf8 c r)

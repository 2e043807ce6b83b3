-- ===== src/Cache/Miss.antt =====
-- src/bs_cache.h `BSMissReason`, and `bs_miss` of src/bs_cache.cpp.
use barista_script.Common.{ℕ, List, [], ◌∷◌, ◌++◌, Text, if◌then◌else◌, ◌==◌}
use barista_script.Common.Int.{ℤ, pos, negsuc}
use barista_script.Token.Names.{codes}

pub data MissReason : Type 0 where
  cold version_mismatch digest_mismatch corrupt evicted : MissReason

-- An index outside the enumeration is reported and read as `CORRUPT`.
unfoldable pub from_index : ℤ → MissReason
from_index (negsuc n) = MissReason.corrupt
from_index (pos n) =
    if n == 0
    then MissReason.cold
    else if n == 1
    then MissReason.version_mismatch
    else if n == 2
    then MissReason.digest_mismatch
    else if n == 3
    then MissReason.corrupt
    else if n == 4
    then MissReason.evicted
    else MissReason.corrupt

abbrev pub miss_index : MissReason → ℕ
miss_index MissReason.cold = 0
miss_index MissReason.version_mismatch = 1
miss_index MissReason.digest_mismatch = 2
miss_index MissReason.corrupt = 3
miss_index MissReason.evicted = 4

unfoldable pub get_name : MissReason → Text
get_name MissReason.cold = codes "COLD"
get_name MissReason.version_mismatch = codes "VERSION_MISMATCH"
get_name MissReason.digest_mismatch = codes "DIGEST_MISMATCH"
get_name MissReason.corrupt = codes "CORRUPT"
get_name MissReason.evicted = codes "EVICTED"

unfoldable pub get_log_line : MissReason → Text → Text
get_log_line MissReason.cold path = codes "cold cache: no entry for '" ++ (path ++ codes "'")
get_log_line MissReason.version_mismatch path =
    codes "discarding cache entry for '"
    ++ (path
        ++ codes
            "': its version tag does not match this language version, and no upgrade is attempted")
get_log_line MissReason.digest_mismatch path =
    codes "discarding cache entry for '"
    ++ (path ++ codes "': the source on disk does not match the digest the entry was written for")
get_log_line MissReason.corrupt path =
    codes "discarding corrupt cache data naming '"
    ++ (path
        ++ codes "': the store is truncated, fails its checksum, or is not a BaristaScript cache")
get_log_line MissReason.evicted path =
    codes "evicting cache entry for '" ++ (path ++ codes "': the script file no longer exists")

unfoldable pub get_names : List Text
get_names =
    codes "COLD"
    ∷ codes "VERSION_MISMATCH"
    ∷ codes "DIGEST_MISMATCH"
    ∷ codes "CORRUPT"
    ∷ codes "EVICTED"
    ∷ []

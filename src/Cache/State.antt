-- ===== src/Cache/State.antt =====
-- src/bs_cache.h: the fields of `BSParseCache`.
use barista_script.Common.{ℕ, Bool, true, false, List, [], ◌∷◌, Text, Bytes}
use barista_script.Common.TextMaps.{TextMap}
use barista_script.Cache.Miss.{MissReason}

pub record Entry : Type 0 where
  pub source_digest : ℕ
  pub payload : Bytes

-- A line of the load report, as what the source composes it of.
pub data ReportLine : Type 0 where
  miss_line : MissReason → Text → ReportLine
  unreadable_line : Text → ℕ → ReportLine
  duplicate_line : Text → ReportLine
  damaged_line : ℕ → ℕ → ReportLine
  trailing_line : ℕ → ℕ → ReportLine

pub record ParseCache : Type 0 where
  pub entries : TextMap Entry
  pub rejected : TextMap MissReason
  pub store_corrupt : Bool
  pub load_report : List ReportLine

-- `clear`
abbrev pub cleared : ParseCache
cleared = record { entries = []; rejected = []; store_corrupt = false; load_report = [] }

-- What `load` leaves of a store that it refuses.
abbrev pub refused : ReportLine → ParseCache
refused line = record cleared { store_corrupt = true; load_report = line ∷ [] }

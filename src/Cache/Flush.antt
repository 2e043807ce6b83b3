-- ===== src/Cache/Flush.antt =====
-- src/bs_cache.cpp `BSParseCache::flush`, over the disk and what the system answers.
use barista_script.Common.{
  ℕ, ◌/◌, Bool, true, false, not, ◌||◌, Option, none, some, List, [], ◌∷◌, ◌++◌, length, take,
  if◌then◌else◌, Text, Bytes, text_eq,
}
use barista_script.Common.Maps.{keys}
use barista_script.Common.TextMaps.{TextMap, find}
use barista_script.Token.Names.{codes}
use barista_script.Cache.Bytes.{put_u32, put_u64, compute_entry_checksum}
use barista_script.Cache.State.{Entry, ParseCache}
use barista_script.Cache.Load.{Utf8, store_magic}

pub data WriteFault : Type 0 where
  no_fault before_write after_write_before_rename truncate_temp_after_write : WriteFault
  remove_temp_before_promotion : WriteFault

-- The files, by path.
abbrev pub Disk : Type 0
Disk = Text → Option Bytes

unfoldable pub set_file : Text → Option Bytes → Disk → Disk
set_file path file disk = λ q. if text_eq path q then file else disk q

-- What the system answers during one flush: the error of resolving the store path, whether the temp
-- file opens, the bytes that reach the disk, whether writing and reading back report success, the
-- error of resolving the paths again, and whether the rename is made.
pub record Answers : Type 0 where
  pub path_error : Option ℕ
  pub opens : Bool
  pub written : Bytes → Bytes
  pub write_ok : Bool
  pub read_ok : Bool
  pub resolve_error : Option ℕ
  pub renames : Bool

-- `OK`, `ERR_FILE_CANT_WRITE`, or the error of a path that is refused.
pub data FlushResult : Type 0 where
  flush_ok cant_write : FlushResult
  path_refused : ℕ → FlushResult

-- `entries[key]`: a key that is missing reads as a default entry.
abbrev pub entry_of : TextMap Entry → Text → Entry
entry_of entries key = elim (find key entries) [
  | some entry ↦ entry
  | none ↦ record { source_digest = 0; payload = [] }
]

module _ (utf8 : Utf8) where
  -- The record of one key, without its checksum.
  unfoldable pub record_bytes : ℕ → Text → Entry → Bytes
  record_bytes version_tag key entry =
      put_u32 version_tag
      ++ (put_u32 (length (utf8.encode key))
          ++ (utf8.encode key
              ++ (put_u64 entry.source_digest
                  ++ (put_u32 (length entry.payload) ++ entry.payload))))

  unfoldable pub encode_record : ℕ → Text → Entry → Bytes
  encode_record version_tag key entry =
      let bytes = record_bytes version_tag key entry in
      bytes ++ put_u64 (compute_entry_checksum bytes)

  unfoldable pub encode_records : ℕ → TextMap Entry → List Text → Bytes
  encode_records version_tag entries [] = []
  encode_records version_tag entries (key ∷ rest) =
      encode_record version_tag key (entry_of entries key)
      ++ encode_records version_tag entries rest

  -- The whole store, for keys in the order that they are sorted in.
  unfoldable pub encode_store : ℕ → TextMap Entry → List Text → Bytes
  encode_store version_tag entries sorted =
      store_magic ++ (put_u32 (length sorted) ++ encode_records version_tag entries sorted)

-- `temp_path`, for the text that the hash and the counter give.
abbrev pub temp_path_of : Text → Text → Text
temp_path_of path unique = path ++ (codes "." ++ (unique ++ codes ".tmp"))

-- `bs_replace_file`, for the file under the source: one rename, which needs it; what is refused
-- changes nothing.
unfoldable pub replace_file :
    Option ℕ → Bool → Option Bytes → Text → Text → Disk → FlushResult × Disk
replace_file (some e) renames file source target disk = (path_refused e, disk)
replace_file none renames none source target disk = (cant_write, disk)
replace_file none false (some bytes) source target disk = (cant_write, disk)
replace_file none true (some bytes) source target disk =
    (flush_ok, set_file source none (set_file target (some bytes) disk))

abbrev pub is_ok : FlushResult → Bool
is_ok flush_ok = true
is_ok cant_write = false
is_ok (path_refused e) = false

abbrev pub truncates : WriteFault → Bool
truncates WriteFault.no_fault = false
truncates WriteFault.truncate_temp_after_write = true
truncates _ = false

-- The replacement, which discards the temp file when it fails.
unfoldable pub finish_promotion : Answers → Text → Text → Disk → FlushResult × Disk
finish_promotion a path temp disk =
    let (result, after) = replace_file a.resolve_error a.renames (disk temp) temp path disk in
    (result, if is_ok result then after else set_file temp none after)

-- From the read-back on: the file under `temp` is the whole store.
unfoldable pub promote : WriteFault → Answers → Text → Text → Disk → FlushResult × Disk
promote WriteFault.after_write_before_rename a path temp disk = (cant_write, disk)
promote WriteFault.remove_temp_before_promotion a path temp disk =
    finish_promotion a path temp (set_file temp none disk)
promote _ a path temp disk = finish_promotion a path temp disk

-- The read-back, of a temp file that holds `found`.
unfoldable pub read_back :
    WriteFault → Answers → Text → Text → Bytes → Bytes → Disk → FlushResult × Disk
read_back fault a path temp store found disk =
    if not a.read_ok || not (text_eq found store)
    then (cant_write, set_file temp none disk)
    else promote fault a path temp (set_file temp (some found) disk)

-- From the write on: `reached` is what the temp file holds after it.
unfoldable pub write_temp :
    WriteFault → Answers → Text → Text → Bytes → Bytes → Disk → FlushResult × Disk
write_temp fault a path temp store reached disk =
    if not a.write_ok
    then (cant_write, set_file temp none disk)
    else read_back fault a path temp store
        (if truncates fault then take (length store / 2) reached else reached) disk

-- The path's check and the opening of the temp file.
unfoldable pub open_temp :
    Option ℕ → Bool → WriteFault → Answers → Text → Text → Bytes → Disk → FlushResult × Disk
open_temp (some e) opens fault a path temp store disk = (path_refused e, disk)
open_temp none false fault a path temp store disk = (cant_write, disk)
open_temp none true fault a path temp store disk =
    write_temp fault a path temp store (a.written store) disk

unfoldable pub flush_store : WriteFault → Answers → Text → Text → Bytes → Disk → FlushResult × Disk
flush_store WriteFault.before_write a path unique store disk = (cant_write, disk)
flush_store WriteFault.no_fault a path unique store disk =
    open_temp a.path_error a.opens WriteFault.no_fault a path (temp_path_of path unique) store disk
flush_store fault a path unique store disk =
    open_temp a.path_error a.opens fault a path (temp_path_of path unique) store disk

-- `sort` is the engine's `Vector<String>::sort`, and `unique` what it takes to name the temp file.
unfoldable pub flush :
    Utf8
    → (List Text → List Text)
    → (Bytes → Text)
    → WriteFault
    → Answers
    → Text
    → ℕ
    → ParseCache
    → Disk
    → FlushResult × Disk
flush utf8 sort unique fault a path version_tag c disk =
    let store = encode_store utf8 version_tag c.entries (sort (keys c.entries)) in
    flush_store fault a path (unique store) store disk

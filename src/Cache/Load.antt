-- ===== src/Cache/Load.antt =====
-- src/bs_cache.cpp `BSParseCache::load`. `invalid_data` stands for `CORRUPT_RECORD`, and
-- `out_of_bounds` for a read outside the file's bytes or a write outside a payload.
use barista_script.Common.{
  ℕ, zero, suc, ◌+◌, ◌-◌, Bool, not, ◌&&◌, ◌||◌, [], ◌∷◌, ◌++◌, length, take, drop, ltb, ◌==◌,
  if◌then◌else◌, Text, Bytes, text_eq,
}
use barista_script.Common.TextMaps.{has, put}
use barista_script.Buffer.Format.{Load, ok, invalid_data, out_of_bounds, ◌>>=◌, ◌>>◌, fail_if}
use barista_script.Cache.Bytes.{get_u32, get_u64, compute_entry_checksum, cache_format_version}
use barista_script.Cache.Miss.{MissReason}
use barista_script.Cache.State.{
  Entry, ReportLine, miss_line, unreadable_line, duplicate_line, damaged_line, trailing_line,
  ParseCache, cleared, refused,
}

-- "BSPC"
abbrev pub store_magic : Bytes
store_magic = 66 ∷ 83 ∷ 80 ∷ 67 ∷ []

-- `String::to_utf8_buffer` and `String::utf8`
pub record Utf8 : Type 0 where
  pub encode : Text → Bytes
  pub decode : Bytes → Text

-- What reading a file gives.
pub data FileRead : Type 0 where
  not_found : FileRead
  unreadable : ℕ → FileRead
  contents : Bytes → FileRead

-- A record that is sound, and the bytes behind it.
pub record StoreRecord : Type 0 where
  pub version_tag : ℕ
  pub key : Text
  pub entry : Entry
  pub rest : Bytes

pub data Loading : Type 0 where
  records_read : ParseCache → Bytes → Loading
  store_refused : ReportLine → Loading

-- `(int)payload_length` is negative, for a record that is to become an entry.
abbrev pub narrows : StoreRecord → Bool
narrows r = r.version_tag == cache_format_version && ltb 2147483647 (length r.entry.payload)

-- A record of this version is an entry, and one of another leaves a tombstone.
unfoldable pub accept : StoreRecord → ParseCache → ParseCache
accept r c =
    if r.version_tag == cache_format_version
    then record c { entries = put r.key r.entry c.entries }
    else record c {
      rejected = put r.key MissReason.version_mismatch c.rejected;
      load_report = c.load_report ++ miss_line MissReason.version_mismatch r.key ∷ [];
    }

unfoldable pub finish_load : ℕ → Loading → MissReason × ParseCache
finish_load entry_count (store_refused line) = (MissReason.corrupt, refused line)
finish_load entry_count (records_read c []) = (MissReason.cold, c)
finish_load entry_count (records_read c (b ∷ rest)) =
    (MissReason.corrupt, refused (trailing_line (length (b ∷ rest)) entry_count))

module _ (utf8 : Utf8) where
  -- The bytes from the key on, and the record's bytes as a whole for the checksum.
  unfoldable pub decode_fields : ℕ → ℕ → Bytes → Bytes → Load StoreRecord
  decode_fields version_tag key_length whole b = do
    fail_if (key_length == 0 || ltb (length b) key_length)
    let key_bytes = take key_length b
    let key = utf8.decode key_bytes
    fail_if (length key == 0)
    fail_if (not (text_eq (utf8.encode key) key_bytes))
    let b1 = drop key_length b
    fail_if (ltb (length b1) 8)
    source_digest ← get_u64 b1
    fail_if (ltb (length (drop 8 b1)) 4)
    payload_length ← get_u32 (drop 8 b1)
    let b2 = drop 4 (drop 8 b1)
    fail_if (ltb (length b2) payload_length)
    fail_if (ltb (length (drop payload_length b2)) 8)
    stored_entry_digest ← get_u64 (drop payload_length b2)
    fail_if (
        not (
          compute_entry_checksum (take (20 + key_length + payload_length) whole)
          == stored_entry_digest))
    ok (record {
      version_tag = version_tag;
      key = key;
      entry = record { source_digest = source_digest; payload = take payload_length b2 };
      rest = drop 8 (drop payload_length b2);
    })

  -- The record that begins at the first of the bytes.
  unfoldable pub decode_record : Bytes → Load StoreRecord
  decode_record b = do
    fail_if (ltb (length b) 4)
    version_tag ← get_u32 b
    fail_if (ltb (length (drop 4 b)) 4)
    key_length ← get_u32 (drop 4 b)
    decode_fields version_tag key_length b (drop 4 (drop 4 b))

  -- The loop over the records. A payload's size is narrowed to an `int`, and one that does not fit is
  -- written to an array that was not resized. For a file of `size` bytes.
  unfoldable pub load_records : ℕ → ℕ → Bytes → ParseCache → Load Loading
  load_records size zero b c = ok (records_read c b)
  load_records size (suc left) b c = elim (decode_record b) [
    | out_of_bounds ↦ out_of_bounds
    | invalid_data ↦ ok (store_refused (damaged_line (size - length b) size))
    | ok r ↦
        let next = load_records size left r.rest (accept r c) in
        if has r.key c.entries || has r.key c.rejected
        then ok (store_refused (duplicate_line r.key))
        else if narrows r
        then out_of_bounds
        else next
  ]

  unfoldable pub load_contents : Text → Bytes → Load (MissReason × ParseCache)
  load_contents path b =
      if ltb (length b) 8 || not (text_eq (take 4 b) store_magic)
      then ok (MissReason.corrupt, refused (miss_line MissReason.corrupt path))
      else do
        entry_count ← get_u32 (drop 4 b)
        loading ← load_records (length b) entry_count (drop 4 (drop 4 b)) cleared
        ok (finish_load entry_count loading)

  unfoldable pub load : Text → FileRead → Load (MissReason × ParseCache)
  load path not_found = ok (MissReason.cold, cleared)
  load path (unreadable e) = ok (MissReason.corrupt, refused (unreadable_line path e))
  load path (contents b) = load_contents path b

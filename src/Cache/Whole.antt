-- ===== src/Cache/Whole.antt =====
-- src/bs_cache.cpp: a store that is whole, apart from how `load` goes over it.
use barista_script.Common.{
  ℕ, suc, ◌≤◌, false, not, ◌||◌, ◌≡◌, refl, ◌∙◌, length, [], ltb, ◌==◌, take, drop, arith, Text,
  Bytes, text_eq, text_eq_iff, Bool-cases, inl, inr,
}
use barista_script.Common.TextMaps.{has}
use barista_script.Buffer.Format.{ok}
use barista_script.Cache.Bytes.{get_u32, cache_format_version}
use barista_script.Cache.Miss.{MissReason}
use barista_script.Cache.State.{ParseCache, cleared}
use barista_script.Cache.Load.{
  Utf8, StoreRecord, FileRead, not_found, contents, narrows, accept, records_read, decode_record,
  load_records, finish_load, load_contents, load, store_magic,
}
use barista_script.Cache.Invariant.{WellFormed, cleared-WellFormed, accept-WellFormed}

-- Bytes that are so many sound records, of different keys, and nothing else.
pub data Records (utf8 : Utf8) : ℕ → Bytes → ParseCache → ParseCache → Type 0 where
  no_more : (c : ParseCache) → Records utf8 0 [] c c
  one_more :
      (left : ℕ) (b : Bytes) (c d : ParseCache) (r : StoreRecord)
      → decode_record utf8 b ≡ ok r
      → (has r.key c.entries || has r.key c.rejected) ≡ false
      → narrows r ≡ false
      → Records utf8 left r.rest (accept r c) d
      → Records utf8 (suc left) b c d

-- What a file holds as a whole: nothing if it is missing, and what its records say if they are as many
-- as its header says and fill it.
pub data Whole (utf8 : Utf8) : FileRead → ParseCache → Type 0 where
  no_store : Whole utf8 not_found cleared
  whole_store :
      (b : Bytes) (n : ℕ) (d : ParseCache)
      → 8 ≤ length b
      → take 4 b ≡ store_magic
      → get_u32 (drop 4 b) ≡ ok n
      → Records utf8 n (drop 4 (drop 4 b)) cleared d
      → Whole utf8 (contents b) d

pub load_records-Records :
    (utf8 : Utf8) (size n : ℕ) (b : Bytes) (c d : ParseCache)
    → Records utf8 n b c d
    → load_records utf8 size n b c ≡ ok (records_read d [])
unfolding load_records
load_records-Records utf8 size _ _ _ _ (Records.no_more c) = refl
load_records-Records utf8 size _ _ _ _ (Records.one_more left b c d r decoded new fits more) =
    rw (decoded, load_records, new, fits)
      (load_records-Records utf8 size left r.rest (accept r c) d more)

pub header_fine :
    (b : Bytes)
    → 8 ≤ length b
    → take 4 b ≡ store_magic
    → (ltb (length b) 8 || not (text_eq (take 4 b) store_magic)) ≡ false
header_fine b long magic = ground (arith, long, (text_eq_iff (take 4 b) store_magic).1 magic)

-- A whole store is loaded.
pub load-Whole :
    (utf8 : Utf8) (path : Text) (f : FileRead) (d : ParseCache)
    → Whole utf8 f d
    → load utf8 path f ≡ ok (MissReason.cold, d)
unfolding load load_contents finish_load
load-Whole utf8 path _ _ Whole.no_store = refl
load-Whole utf8 path _ _ (Whole.whole_store b n d long magic count records) =
    rw
      (
        header_fine b long magic,
        load_contents,
        count,
        load_records-Records utf8 (length b) n (drop 4 (drop 4 b)) cleared d records,
      )
      refl

store_corrupt-accept :
    (r : StoreRecord) (c : ParseCache) → (accept r c).store_corrupt ≡ c.store_corrupt
unfolding accept
store_corrupt-accept r c = elim (Bool-cases (r.version_tag == cache_format_version)) [
  | inl current ↦ rw (current, accept) refl
  | inr stale ↦ rw (stale, accept) refl
]

Records-WellFormed :
    (utf8 : Utf8) (n : ℕ) (b : Bytes) (c d : ParseCache)
    → Records utf8 n b c d
    → WellFormed c
    → WellFormed d × (d.store_corrupt ≡ c.store_corrupt)
Records-WellFormed utf8 _ _ _ _ (Records.no_more c) w = (w, refl)
Records-WellFormed utf8 _ _ _ _ (Records.one_more left b c d r decoded new fits more) w =
    let rest =
      Records-WellFormed utf8 left r.rest (accept r c) d more (accept-WellFormed r c new w) in
    (rest.0, rest.1 ∙ store_corrupt-accept r c)

pub Whole-WellFormed :
    (utf8 : Utf8) (f : FileRead) (d : ParseCache)
    → Whole utf8 f d
    → WellFormed d × (d.store_corrupt ≡ false)
Whole-WellFormed utf8 _ _ Whole.no_store = (cleared-WellFormed, refl)
Whole-WellFormed utf8 _ _ (Whole.whole_store b n d long magic count records) =
    Records-WellFormed utf8 n (drop 4 (drop 4 b)) cleared d records cleared-WellFormed

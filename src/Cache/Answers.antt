-- ===== src/Cache/Answers.antt =====
-- src/bs_cache.cpp: what `lookup`, `put` and the eviction answer.
use barista_script.Common.{
  ℕ, Bool, true, not, ◌≡◌, ◌≢◌, refl, ap, ◌∙◌, inl, inr, Text, Bytes, some, none, Option, ◌==◌,
  ==_iff, Bool-cases, arith,
}
use barista_script.Common.TextMaps.{find, find-put_eq, find-put_ne, find-remove_eq, find-remove_ne}
use barista_script.Cache.Bytes.{compute_source_digest}
use barista_script.Cache.Miss.{MissReason}
use barista_script.Cache.State.{Entry, ParseCache}
use barista_script.Cache.Load.{Utf8}
use barista_script.Cache.Lookup.{
  LookupResult, hit, miss, bury, check_entry, look, evict_keys, evict_entries_with_missing_files,
}
use barista_script.Cache.Lookup

entry_eq :
    (entry : Entry) (digest : ℕ)
    → digest ≡ entry.source_digest
    → entry ≡ record { source_digest = digest; payload = entry.payload }
entry_eq entry digest e = rw e refl

module _ (utf8 : Utf8) (file_exists : Text → Bool) where
  -- What a hit rests on.
  pub record Supported (path source : Text) (payload : Bytes) (c : ParseCache) : Type 0 where
    pub exists : file_exists path ≡ true
    pub entry :
        find path c.entries
        ≡ some (record {
          source_digest = compute_source_digest (utf8.encode source);
          payload = payload;
        })
    pub not_rejected : find path c.rejected ≡ none

  -- A hit rests on an entry of this source and changes nothing; after a miss, every later lookup of
  -- the path misses for the same reason and changes nothing.
  pub data IsAnswer (path source : Text) (before : ParseCache)
      : LookupResult × ParseCache → Type 0 where
    sound_hit :
        (payload : Bytes)
        → Supported path source payload before
        → IsAnswer path source before (hit payload, before)
    lasting_miss :
        (reason : MissReason) (after : ParseCache)
        → ((other : Text) → Lookup.lookup utf8 file_exists path other after ≡ (miss reason, after))
        → IsAnswer path source before (miss reason, after)

  lookup-rejected :
      (reason : MissReason) (path other : Text) (c : ParseCache)
      → find path c.rejected ≡ some reason
      → Lookup.lookup utf8 file_exists path other c ≡ (miss reason, c)
  unfolding Lookup.lookup look
  lookup-rejected reason path other c there = rw there refl

  buried :
      (reason : MissReason) (path source : Text) (c : ParseCache)
      → IsAnswer path source c (miss reason, bury reason path c)
  unfolding bury
  buried reason path source c = IsAnswer.lasting_miss reason (bury reason path c) (λ other.
      lookup-rejected reason path other (bury reason path c) (find-put_eq path reason c.rejected))

  check_entry-IsAnswer :
      (path source : Text) (entry : Entry) (c : ParseCache)
      → find path c.rejected ≡ none
      → find path c.entries ≡ some entry
      → IsAnswer path source c (check_entry utf8 file_exists path source entry c)
  unfolding check_entry
  check_entry-IsAnswer path source entry c not_rejected found =
      elim (Bool-cases (not (file_exists path))) [
        | inl gone ↦ rw (gone, check_entry) (buried MissReason.evicted path source c)
        | inr there ↦
            elim (Bool-cases
              (not (compute_source_digest (utf8.encode source) == entry.source_digest))) [
                | inl changed ↦
                    rw (there, check_entry, changed)
                      (buried MissReason.digest_mismatch path source c)
                | inr same ↦
                    rw (there, check_entry, same)
                      (IsAnswer.sound_hit entry.payload (record {
                        exists = ground (arith, there);
                        entry = found ∙ ap some (entry_eq entry _ (ground (arith, same)));
                        not_rejected = not_rejected;
                      }))
              ]
      ]

  look-IsAnswer :
      (path source : Text) (c : ParseCache) (rejected : Option MissReason) (entry : Option Entry)
      → find path c.rejected ≡ rejected
      → find path c.entries ≡ entry
      → IsAnswer path source c (look utf8 file_exists rejected entry path source c)
  unfolding look Lookup.lookup
  look-IsAnswer path source c (some reason) entry r e =
      IsAnswer.lasting_miss reason c (λ other. lookup-rejected reason path other c r)
  look-IsAnswer path source c none (some entry) r e = check_entry-IsAnswer path source entry c r e
  look-IsAnswer path source c none none r e = IsAnswer.lasting_miss _ c (λ other. rw (r, e) refl)

  -- A hit rests on an entry that was made of this very source digest, for a file that exists and a
  -- path that is not rejected, gives its payload and changes nothing; after a miss, every later
  -- lookup of the path, with whatever source, misses for the same reason and changes nothing.
  pub lookup-IsAnswer :
      (path source : Text) (c : ParseCache)
      → IsAnswer path source c (Lookup.lookup utf8 file_exists path source c)
  unfolding Lookup.lookup
  lookup-IsAnswer path source c = look-IsAnswer path source c _ _ refl refl

  check_entry-answer :
      (path source : Text) (entry : Entry) (c d : ParseCache)
      → (check_entry utf8 file_exists path source entry c).0
        ≡ (check_entry utf8 file_exists path source entry d).0
  unfolding check_entry
  check_entry-answer path source entry c d = elim (Bool-cases (not (file_exists path))) [
    | inl gone ↦ rw (gone, check_entry) refl
    | inr there ↦
        elim (Bool-cases
          (not (compute_source_digest (utf8.encode source) == entry.source_digest))) [
            | inl changed ↦ rw (there, check_entry, changed) refl
            | inr same ↦ rw (there, check_entry, same) refl
          ]
  ]

  -- Of the cache itself the answer reads only whether the store is corrupt.
  look-answer :
      (rejected : Option MissReason) (entry : Option Entry) (path source : Text) (c d : ParseCache)
      → c.store_corrupt ≡ d.store_corrupt
      → (look utf8 file_exists rejected entry path source c).0
        ≡ (look utf8 file_exists rejected entry path source d).0
  unfolding look
  look-answer (some reason) entry path source c d same = refl
  look-answer none (some entry) path source c d same = check_entry-answer path source entry c d
  look-answer none none path source c d same = rw same refl

  -- Caches that hold the same of a path answer the same.
  pub lookup-same :
      (path source : Text) (c d : ParseCache)
      → find path c.rejected ≡ find path d.rejected
      → find path c.entries ≡ find path d.entries
      → c.store_corrupt ≡ d.store_corrupt
      → (Lookup.lookup utf8 file_exists path source c).0
        ≡ (Lookup.lookup utf8 file_exists path source d).0
  unfolding Lookup.lookup
  lookup-same path source c d rejected entries corrupt =
      rw (rejected, entries)
        (look-answer (find path d.rejected) (find path d.entries) path source c d corrupt)

  -- What is put for a file that exists is found by the lookup with its source, whatever the cache
  -- held or rejected before; the lookup of another path answers as before.
  pub lookup-put :
      (path source : Text) (payload : Bytes) (c : ParseCache)
      → (file_exists path ≡ true
          → Lookup.lookup utf8 file_exists path source (Lookup.put utf8 path source payload c)
            ≡ (hit payload, Lookup.put utf8 path source payload c))
        × ((other text : Text)
            → path ≢ other
            → (Lookup.lookup utf8 file_exists other text (Lookup.put utf8 path source payload c)).0
              ≡ (Lookup.lookup utf8 file_exists other text c).0)
  unfolding Lookup.lookup Lookup.put look check_entry
  lookup-put path source payload c = (
    λ there.
        rw
          (
            find-remove_eq path c.rejected,
            find-put_eq path fresh c.entries,
            look,
            there,
            check_entry,
            (==_iff fresh.source_digest fresh.source_digest).1 refl,
          )
          refl,
    λ other text ne.
        rw (find-remove_ne other path c.rejected ne, find-put_ne other path fresh c.entries ne)
          (look-answer (find other c.rejected) (find other c.entries) other text _ c refl),
  )
    where
      fresh : Entry
      fresh = record {
        source_digest = compute_source_digest (utf8.encode source);
        payload = payload;
      }

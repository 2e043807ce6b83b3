-- ===== src/Cache/Invariant.antt =====
-- src/bs_cache.cpp: what every operation of the parse cache keeps.
use mathlib.Core.List.{Nodup, Nodup-nil}
use mathlib.Core.Bool.{true≢false}
use barista_script.Common.{
  Bool, false, not, ◌&&◌, ◌||◌, ◌≡◌, refl, sym, ◌∙◌, inl, inr, [], ◌∷◌, List, arith, Text, Bytes,
  text_eq, text_eq_iff, some, none, Option, ◌==◌, Bool-cases,
}
use barista_script.Common.Maps.{keys, lookup}
use barista_script.Common.TextMaps.{
  TextMap, find, put, has, remove, find-put, has-put_ne, find-remove, Nodup-keys-put,
  Nodup-keys-remove,
}
use barista_script.Cache.Bytes.{cache_format_version, compute_source_digest}
use barista_script.Cache.Miss.{MissReason}
use barista_script.Cache.State.{Entry, ParseCache, ReportLine, cleared, refused}
use barista_script.Cache.Load.{Utf8, StoreRecord, accept}
use barista_script.Cache.Lookup.{
  bury, check_entry, look, evict_keys, evict_entries_with_missing_files,
}
use barista_script.Cache.Lookup

-- Each path is held once, as an entry or as a tombstone but not as both.
pub record WellFormed (c : ParseCache) : Type 0 where
  pub entries : Nodup (keys c.entries)
  pub rejected : Nodup (keys c.rejected)
  pub apart : (k : Text) → (has k c.entries && has k c.rejected) ≡ false

pub cleared-WellFormed : WellFormed cleared
unfolding has find lookup
cleared-WellFormed = record { entries = Nodup-nil; rejected = Nodup-nil; apart = λ k. refl }

pub refused-WellFormed : (line : ReportLine) → WellFormed (refused line)
unfolding has find lookup
refused-WellFormed line = record { entries = Nodup-nil; rejected = Nodup-nil; apart = λ k. refl }

and_comm : (a b : Bool) → (a && b) ≡ (b && a)
and_comm a b = ground arith

or_comm : (a b : Bool) → (a || b) ≡ (b || a)
or_comm a b = ground arith

other_false : (a b c : Bool) → (b || c) ≡ false → (a && c) ≡ false
other_false a b c h = ground arith

module _ {V W : Type 0} where
  -- A path that enters one map while it is removed from the other.
  apart-put-remove :
      (k j : Text) (v : V) (m : TextMap V) (n : TextMap W)
      → (has j m && has j n) ≡ false
      → (has j (put k v m) && has j (remove k n)) ≡ false
  unfolding has
  apart-put-remove k j v m n h = elim (Bool-cases (text_eq k j)) [
    | inl same ↦ rw (find-put j k v m, find-remove j k n, same) refl
    | inr other ↦ rw (find-put j k v m, find-remove j k n, other) h
  ]

  -- A path that is new to both maps enters one.
  apart-put :
      (k j : Text) (v : V) (m : TextMap V) (n : TextMap W)
      → (has k m || has k n) ≡ false
      → (has j m && has j n) ≡ false
      → (has j (put k v m) && has j n) ≡ false
  apart-put k j v m n new h = elim (Bool-cases (text_eq k j)) [
    | inl same ↦
        let gone : (has j m || has j n) ≡ false = rw ((text_eq_iff k j).0 same) at new in
        other_false (has j (put k v m)) (has j m) (has j n) gone
    | inr other ↦ rw (has-put_ne j k v m (λ e. true≢false (sym ((text_eq_iff k j).1 e) ∙ other))) h
  ]

pub bury-WellFormed :
    (reason : MissReason) (k : Text) (c : ParseCache) → WellFormed c → WellFormed (bury reason k c)
unfolding bury
bury-WellFormed reason k c w = record {
  entries = Nodup-keys-remove k c.entries w.entries;
  rejected = Nodup-keys-put k reason c.rejected w.rejected;
  apart = λ j.
      and_comm (has j (remove k c.entries)) (has j (put k reason c.rejected))
      ∙ apart-put-remove k j reason c.rejected c.entries
          (and_comm (has j c.rejected) (has j c.entries) ∙ w.apart j);
}

pub put-WellFormed :
    (utf8 : Utf8) (path source : Text) (payload : Bytes) (c : ParseCache)
    → WellFormed c
    → WellFormed (Lookup.put utf8 path source payload c)
unfolding Lookup.put
put-WellFormed utf8 path source payload c w = record {
  entries = Nodup-keys-put path _ c.entries w.entries;
  rejected = Nodup-keys-remove path c.rejected w.rejected;
  apart = λ j. apart-put-remove path j _ c.entries c.rejected (w.apart j);
}

check_entry-WellFormed :
    (utf8 : Utf8) (file_exists : Text → Bool) (path source : Text) (entry : Entry) (c : ParseCache)
    → WellFormed c
    → WellFormed (check_entry utf8 file_exists path source entry c).1
unfolding check_entry
check_entry-WellFormed utf8 file_exists path source entry c w =
    elim (Bool-cases (not (file_exists path))) [
      | inl gone ↦ rw (gone, check_entry) (bury-WellFormed MissReason.evicted path c w)
      | inr there ↦
          elim (Bool-cases
            (not (compute_source_digest (utf8.encode source) == entry.source_digest))) [
              | inl changed ↦
                  rw (there, check_entry, changed)
                    (bury-WellFormed MissReason.digest_mismatch path c w)
              | inr same ↦ rw (there, check_entry, same) w
            ]
    ]

look-WellFormed :
    (utf8 : Utf8) (file_exists : Text → Bool) (rejected : Option MissReason) (entry : Option Entry)
    (path source : Text) (c : ParseCache)
    → WellFormed c
    → WellFormed (look utf8 file_exists rejected entry path source c).1
unfolding look
look-WellFormed utf8 file_exists (some reason) entry path source c w = w
look-WellFormed utf8 file_exists none (some entry) path source c w =
    check_entry-WellFormed utf8 file_exists path source entry c w
look-WellFormed utf8 file_exists none none path source c w = w

pub lookup-WellFormed :
    (utf8 : Utf8) (file_exists : Text → Bool) (path source : Text) (c : ParseCache)
    → WellFormed c
    → WellFormed (Lookup.lookup utf8 file_exists path source c).1
unfolding Lookup.lookup
lookup-WellFormed utf8 file_exists path source c w =
    look-WellFormed utf8 file_exists _ _ path source c w

pub evict_keys-WellFormed :
    (file_exists : Text → Bool) (keys : List Text) (c : ParseCache)
    → WellFormed c
    → WellFormed (evict_keys file_exists keys c).1
unfolding evict_keys
evict_keys-WellFormed file_exists [] c w = w
evict_keys-WellFormed file_exists (k ∷ ks) c w = elim (Bool-cases (file_exists k)) [
  | inl there ↦ rw (there, evict_keys) (evict_keys-WellFormed file_exists ks c w)
  | inr gone ↦
      rw (gone, evict_keys)
        (evict_keys-WellFormed file_exists ks (bury MissReason.evicted k c)
          (bury-WellFormed MissReason.evicted k c w))
]

pub accept-WellFormed :
    (r : StoreRecord) (c : ParseCache)
    → (has r.key c.entries || has r.key c.rejected) ≡ false
    → WellFormed c
    → WellFormed (accept r c)
unfolding accept
accept-WellFormed r c new w = elim (Bool-cases (r.version_tag == cache_format_version)) [
  | inl current ↦
      rw (current, accept)
        (record {
          entries = Nodup-keys-put r.key r.entry c.entries w.entries;
          rejected = w.rejected;
          apart = λ j. apart-put r.key j r.entry c.entries c.rejected new (w.apart j);
        })
  | inr stale ↦
      rw (stale, accept)
        (record {
          entries = w.entries;
          rejected = Nodup-keys-put r.key MissReason.version_mismatch c.rejected w.rejected;
          apart = λ j.
              and_comm (has j c.entries) (has j (put r.key MissReason.version_mismatch c.rejected))
              ∙ apart-put r.key j MissReason.version_mismatch c.rejected c.entries
                  (or_comm (has r.key c.rejected) (has r.key c.entries) ∙ new)
                  (and_comm (has j c.rejected) (has j c.entries) ∙ w.apart j);
        })
]

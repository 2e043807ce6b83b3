-- ===== src/Cache/RoundTrip.antt =====
-- src/bs_cache.cpp: `load` reads back the records that `flush` writes.
use barista_script.Common.{
  ℕ, ◌+◌, ◌<◌, true, false, ◌||◌, ◌≡◌, refl, sym, ap, ◌∙◌, length, length-append, take, drop,
  take-append, drop-append, ◌++◌, [], ◌∷◌, ltb, ◌==◌, ==_iff, append_assoc, arith, Text, Bytes,
  text_eq, text_eq_iff, u32_mod,
}
use barista_script.Buffer.Format.{ok}
use barista_script.Cache.Bytes.{
  put_u32, put_u64, get_u32, get_u64, get_bytes-put_bytes, drop-put_bytes, length-put_bytes,
  length-prefix, length-put_bytes_prefix, u64_mod, hash_bytes, compute_entry_checksum,
  entry_checksum_basis,
}
use barista_script.Cache.State.{Entry}
use barista_script.Cache.Load.{Utf8, decode_fields, decode_record}
use barista_script.Cache.Flush.{record_bytes, encode_record}

pub u64_mod-hash_bytes : (b : Bytes) (hash : ℕ) → hash < u64_mod → hash_bytes b hash < u64_mod
unfolding hash_bytes
u64_mod-hash_bytes [] hash h = h
u64_mod-hash_bytes (x ∷ b) hash h = u64_mod-hash_bytes b _ (omega arith)

u64_mod-compute_entry_checksum : (b : Bytes) → compute_entry_checksum b < u64_mod
unfolding compute_entry_checksum
u64_mod-compute_entry_checksum b = u64_mod-hash_bytes b entry_checksum_basis (omega arith)

-- The lengths fit their fields, the payload's an `int` too, and the key survives its encoding.
pub record Fits (utf8 : Utf8) (key : Text) (entry : Entry) : Type 0 where
  pub key_length : length (utf8.encode key) < u32_mod
  pub key_nonempty : 0 < length key
  pub bytes_nonempty : 0 < length (utf8.encode key)
  pub round_trip : utf8.decode (utf8.encode key) ≡ key
  pub digest : entry.source_digest < u64_mod
  pub payload_length : length entry.payload < 2147483648

-- The bytes from the key's end on.
tail_bytes : Entry → ℕ → Bytes → Bytes
tail_bytes entry checksum rest =
    put_u64 entry.source_digest
    ++ (put_u32 (length entry.payload) ++ (entry.payload ++ (put_u64 checksum ++ rest)))

decode_fields-tail :
    (utf8 : Utf8) (version_tag : ℕ) (key : Text) (entry : Entry) (whole rest : Bytes)
    → Fits utf8 key entry
    → (checksum : ℕ) → checksum < u64_mod
    → compute_entry_checksum (take (20 + length (utf8.encode key) + length entry.payload) whole)
      ≡ checksum
    → decode_fields utf8 version_tag
        (length (utf8.encode key))
        whole
        (utf8.encode key ++ tail_bytes entry checksum rest)
      ≡ ok (record { version_tag = version_tag; key = key; entry = entry; rest = rest })
unfolding decode_fields tail_bytes
decode_fields-tail utf8 version_tag key entry whole rest fits checksum small sum =
    rw (h1, t1, d1, fits.round_trip, h2, h3, h4, g1, d2, h5, g2, d3, t2, d4, h6, h7, g3, sum, h8)
      (rw (drop-put_bytes 8 checksum rest) refl)
  where
    kb : Bytes
    kb = utf8.encode key

    b4 : Bytes
    b4 = put_u64 checksum ++ rest

    b3 : Bytes
    b3 = entry.payload ++ b4

    b2 : Bytes
    b2 = put_u32 (length entry.payload) ++ b3

    b1 : Bytes
    b1 = put_u64 entry.source_digest ++ b2

    h1 : (length kb == 0 || ltb (length (kb ++ b1)) (length kb)) ≡ false
    h1 = ground (arith, fits.bytes_nonempty, length-prefix kb b1)

    t1 : take (length kb) (kb ++ b1) ≡ kb
    t1 = take-append kb b1

    d1 : drop (length kb) (kb ++ b1) ≡ b1
    d1 = drop-append kb b1

    h2 : (length key == 0) ≡ false
    h2 = ground (arith, fits.key_nonempty)

    h3 : text_eq kb kb ≡ true
    h3 = (text_eq_iff kb kb).1 refl

    h4 : ltb (length b1) 8 ≡ false
    h4 = length-put_bytes_prefix 8 entry.source_digest b2

    g1 : get_u64 b1 ≡ ok entry.source_digest
    g1 = get_bytes-put_bytes 8 entry.source_digest b2 fits.digest

    d2 : drop 8 b1 ≡ b2
    d2 = drop-put_bytes 8 entry.source_digest b2

    h5 : ltb (length b2) 4 ≡ false
    h5 = length-put_bytes_prefix 4 (length entry.payload) b3

    g2 : get_u32 b2 ≡ ok (length entry.payload)
    g2 = get_bytes-put_bytes 4 (length entry.payload) b3 (omega (arith, fits.payload_length))

    d3 : drop 4 b2 ≡ b3
    d3 = drop-put_bytes 4 (length entry.payload) b3

    h6 : ltb (length b3) (length entry.payload) ≡ false
    h6 = length-prefix entry.payload b4

    t2 : take (length entry.payload) b3 ≡ entry.payload
    t2 = take-append entry.payload b4

    d4 : drop (length entry.payload) b3 ≡ b4
    d4 = drop-append entry.payload b4

    h7 : ltb (length b4) 8 ≡ false
    h7 = length-put_bytes_prefix 8 checksum rest

    g3 : get_u64 b4 ≡ ok checksum
    g3 = get_bytes-put_bytes 8 checksum rest small

    h8 : (checksum == checksum) ≡ true
    h8 = (==_iff checksum checksum).1 refl

length-record_bytes :
    (utf8 : Utf8) (version_tag : ℕ) (key : Text) (entry : Entry)
    → length (record_bytes utf8 version_tag key entry)
      ≡ 20 + length (utf8.encode key) + length entry.payload
unfolding record_bytes
length-record_bytes utf8 version_tag key entry = ground (
  arith,
  length-append (put_u32 version_tag) (
      put_u32 (length (utf8.encode key))
      ++ (utf8.encode key
          ++ (put_u64 entry.source_digest ++ (put_u32 (length entry.payload) ++ entry.payload)))),
  length-append (put_u32 (length (utf8.encode key))) (
      utf8.encode key
      ++ (put_u64 entry.source_digest ++ (put_u32 (length entry.payload) ++ entry.payload))),
  length-append (utf8.encode key)
      (put_u64 entry.source_digest ++ (put_u32 (length entry.payload) ++ entry.payload)),
  length-append (put_u64 entry.source_digest) (put_u32 (length entry.payload) ++ entry.payload),
  length-append (put_u32 (length entry.payload)) entry.payload,
  length-put_bytes 4 version_tag,
  length-put_bytes 4 (length (utf8.encode key)),
  length-put_bytes 8 entry.source_digest,
  length-put_bytes 4 (length entry.payload),
)

decode_record-header :
    (utf8 : Utf8) (version_tag key_length : ℕ) (x : Bytes)
    → version_tag < u32_mod
    → key_length < u32_mod
    → decode_record utf8 (put_u32 version_tag ++ (put_u32 key_length ++ x))
      ≡ decode_fields utf8 version_tag key_length
          (put_u32 version_tag ++ (put_u32 key_length ++ x))
          x
unfolding decode_record
decode_record-header utf8 version_tag key_length x small fits =
    rw
      (
        length-put_bytes_prefix 4 version_tag (put_u32 key_length ++ x),
        get_bytes-put_bytes 4 version_tag (put_u32 key_length ++ x) small,
        drop-put_bytes 4 version_tag (put_u32 key_length ++ x),
        length-put_bytes_prefix 4 key_length x,
        get_bytes-put_bytes 4 key_length x fits,
        drop-put_bytes 4 key_length x,
      )
      refl

record_bytes-layout :
    (utf8 : Utf8) (version_tag : ℕ) (key : Text) (entry : Entry) (checksum : ℕ) (rest : Bytes)
    → record_bytes utf8 version_tag key entry ++ (put_u64 checksum ++ rest)
      ≡ put_u32 version_tag
        ++ (put_u32 (length (utf8.encode key))
            ++ (utf8.encode key ++ tail_bytes entry checksum rest))
unfolding record_bytes tail_bytes
record_bytes-layout utf8 version_tag key entry checksum rest = simp (append_assoc)

-- A record that is written is read back, up to the bytes behind it.
pub decode_record-encode_record :
    (utf8 : Utf8) (version_tag : ℕ) (key : Text) (entry : Entry) (rest : Bytes)
    → version_tag < u32_mod
    → Fits utf8 key entry
    → decode_record utf8 (encode_record utf8 version_tag key entry ++ rest)
      ≡ ok (record { version_tag = version_tag; key = key; entry = entry; rest = rest })
unfolding encode_record
decode_record-encode_record utf8 version_tag key entry rest small fits =
    rw (append_assoc bytes (put_u64 checksum) rest, layout)
      (decode_record-header utf8 version_tag (length (utf8.encode key)) _ small fits.key_length
        ∙ decode_fields-tail utf8 version_tag key entry _ rest fits checksum
            (u64_mod-compute_entry_checksum bytes)
            (ap compute_entry_checksum (
              ap (take (20 + length (utf8.encode key) + length entry.payload)) (sym layout)
              ∙ (ap (λ n. take n (bytes ++ (put_u64 checksum ++ rest)))
                    (sym (length-record_bytes utf8 version_tag key entry))
                  ∙ take-append bytes (put_u64 checksum ++ rest)))))
  where
    bytes : Bytes
    bytes = record_bytes utf8 version_tag key entry

    checksum : ℕ
    checksum = compute_entry_checksum bytes

    layout :
        bytes ++ (put_u64 checksum ++ rest)
        ≡ put_u32 version_tag
          ++ (put_u32 (length (utf8.encode key))
              ++ (utf8.encode key ++ tail_bytes entry checksum rest))
    layout = record_bytes-layout utf8 version_tag key entry checksum rest

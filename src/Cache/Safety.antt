-- ===== src/Cache/Safety.antt =====
-- src/bs_cache.cpp: `load` reads nothing outside the bytes.
use barista_script.Common.{
  ℕ, zero, suc, ◌≤◌, ◌+◌, ◌*◌, Bool, true, false, not, ◌<◌, ◌-◌, ◌||◌, ◌≡◌, refl, inl, inr, length,
  [], ◌∷◌, arith, Bytes, text_eq, ◌==◌, Bool-cases, ltb, take, drop, length-drop,
}
use barista_script.Common.TextMaps.{has}
use barista_script.Buffer.Format.{Load, ok, invalid_data, out_of_bounds, ◌>>=◌, ◌>>◌, fail_if}
use barista_script.Buffer.Ensures.{Ensures, Ensures-cases}
use barista_script.Cache.Bytes.{get_bytes, compute_entry_checksum}
use barista_script.Cache.State.{ParseCache, damaged_line, duplicate_line}
use barista_script.Cache.Load.{
  Utf8, StoreRecord, narrows, Loading, records_read, store_refused, accept, decode_fields,
  decode_record, load_records,
}

-- `Ensures`, as a predicate that stays as it is written, so that its steps can be chained.
record Guarded {A : Type 0} (P : A → Type 0) (m : Load A) : Type 0 where
  ensures : Ensures P m

guarded : {A : Type 0} (P : A → Type 0) (a : A) → P a → Guarded P (ok a)
guarded P a h = record { ensures = h }

guard_step :
    {A : Type 0} {P : A → Type 0} (c : Bool) (k : Load A)
    → (c ≡ false → Guarded P k)
    → Guarded P (fail_if c >> k)
guard_step true k h = record { ensures = tt }
guard_step false k h = h refl

pub get_bytes_ok : (n : ℕ) (b : Bytes) → n ≤ length b → (v : ℕ) × (get_bytes n b ≡ ok v)
unfolding get_bytes
get_bytes_ok zero b h = (0, refl)
get_bytes_ok (suc n) [] h = absurd (omega arith)
get_bytes_ok (suc n) (x ∷ b) h =
    let r = get_bytes_ok n b (omega arith) in (x + 256 * r.0, rw (r.1) refl)

get_step :
    {A : Type 0} {P : A → Type 0} (n : ℕ) (b : Bytes) (k : ℕ → Load A)
    → ltb (length b) n ≡ false
    → ((v : ℕ) → Guarded P (k v))
    → Guarded P (get_bytes n b >>= k)
get_step n b k room h = let r = get_bytes_ok n b (ground arith) in rw (r.1) (h r.0)

-- The payload of a record and what is behind it are parts of the bytes.
abbrev pub Sized : ℕ → StoreRecord → Type 0
Sized n r = (length r.entry.payload ≤ n) × (length r.rest ≤ n)

length-take_le : (n : ℕ) (b : Bytes) → length (take n b) ≤ length b
length-take_le zero b = omega arith
length-take_le (suc n) [] = omega arith
length-take_le (suc n) (x ∷ b) = omega (arith, length-take_le n b)

length-drop_le : (n : ℕ) (b : Bytes) → length (drop n b) ≤ length b
length-drop_le n b = omega (arith, length-drop n b)

sized :
    (k n : ℕ) (b : Bytes)
    → let b2 = drop 4 (drop 8 (drop k b)) in
      (length (take n b2) ≤ length b) × (length (drop 8 (drop n b2)) ≤ length b)
sized k n b =
    let b2 = drop 4 (drop 8 (drop k b)) in
    let inner : length b2 ≤ length b = omega (
      arith,
      length-drop_le 4 (drop 8 (drop k b)),
      length-drop_le 8 (drop k b),
      length-drop_le k b,
    ) in
    (
      omega (arith, inner, length-take_le n b2),
      omega (arith, inner, length-drop_le 8 (drop n b2), length-drop_le n b2),
    )

decode_fields-Guarded :
    (utf8 : Utf8) (version_tag key_length : ℕ) (whole b : Bytes)
    → Guarded (Sized (length b)) (decode_fields utf8 version_tag key_length whole b)
unfolding decode_fields
decode_fields-Guarded utf8 version_tag key_length whole b =
    guard_step (key_length == 0 || ltb (length b) key_length) _ (λ h1.
      guard_step (length (utf8.decode (take key_length b)) == 0) _ (λ h2.
        guard_step
          (not (text_eq (utf8.encode (utf8.decode (take key_length b))) (take key_length b))) _
          (λ h3. guard_step (ltb (length b1) 8) _ (λ h4. get_step 8 b1 _ h4 (λ source_digest.
            guard_step (ltb (length (drop 8 b1)) 4) _ (λ h5.
              get_step 4 (drop 8 b1) _ h5 (λ payload_length.
                guard_step (ltb (length b2) payload_length) _ (λ h6.
                  guard_step (ltb (length (drop payload_length b2)) 8) _ (λ h7.
                    get_step 8 (drop payload_length b2) _ h7 (λ digest.
                      guard_step
                        (not (
                          compute_entry_checksum (take (20 + key_length + payload_length) whole)
                          == digest))
                        _ (λ h8. guarded _ _ (sized key_length payload_length b))))))))))))
  where
    b1 : Bytes
    b1 = drop key_length b

    b2 : Bytes
    b2 = drop 4 (drop 8 b1)

Guarded-weaken :
    (m n : ℕ) (l : Load StoreRecord) → m ≤ n → Guarded (Sized m) l → Guarded (Sized n) l
Guarded-weaken m n (ok r) h s = record {
  ensures = (omega (arith, h, s.ensures.0), omega (arith, h, s.ensures.1));
}
Guarded-weaken m n invalid_data h s = record { ensures = tt }
Guarded-weaken m n out_of_bounds h s = absurd s.ensures

decode_record-Guarded :
    (utf8 : Utf8) (b : Bytes) → Guarded (Sized (length b)) (decode_record utf8 b)
unfolding decode_record
decode_record-Guarded utf8 b = guard_step (ltb (length b) 4) _ (λ h1.
    get_step 4 b _ h1 (λ version_tag. guard_step (ltb (length (drop 4 b)) 4) _ (λ h2.
      get_step 4 (drop 4 b) _ h2 (λ key_length.
        Guarded-weaken (length (drop 4 (drop 4 b))) (length b) _
          (omega (arith, length-drop_le 4 b, length-drop_le 4 (drop 4 b)))
          (decode_fields-Guarded utf8 version_tag key_length b (drop 4 (drop 4 b)))))))

pub decode_record-Sized :
    (utf8 : Utf8) (b : Bytes) → Ensures (Sized (length b)) (decode_record utf8 b)
decode_record-Sized utf8 b = (decode_record-Guarded utf8 b).ensures

-- The loop reads nothing outside the bytes, and no payload of theirs is too long.
pub load_records-ok :
    (utf8 : Utf8) (size left : ℕ) (b : Bytes) (c : ParseCache)
    → length b < 2147483648
    → (l : Loading) × (load_records utf8 size left b c ≡ ok l)
unfolding load_records
load_records-ok utf8 size zero b c small = (records_read c b, refl)
load_records-ok utf8 size (suc left) b c small =
    elim (Ensures-cases (Sized (length b)) (decode_record utf8 b) (decode_record-Sized utf8 b)) [
      | inr damaged ↦
          (store_refused (damaged_line (size - length b) size), rw (damaged, load_records) refl)
      | inl (r, decoded, sizes) ↦ elim (Bool-cases (has r.key c.entries || has r.key c.rejected)) [
        | inl known ↦ (store_refused (duplicate_line r.key), rw (decoded, load_records, known) refl)
        | inr new ↦
            let fits : narrows r ≡ false = ground (arith, sizes, small) in
            let rest =
              load_records-ok utf8 size left r.rest (accept r c) (omega (arith, small, sizes)) in
            (rest.0, rw (decoded, load_records, new, fits) rest.1)
      ]
    ]

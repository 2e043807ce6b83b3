-- ===== src/Cache/Verdict.antt =====
-- src/bs_cache.cpp: the verdict of `load` on any file.
use barista_script.Common.{
  ℕ, zero, suc, ◌<◌, true, false, not, ◌||◌, ◌≡◌, refl, sym, ap, ◌∙◌, inl, inr, length, length-drop,
  [], ◌∷◌, ltb, take, drop, arith, Text, Bytes, text_eq, text_eq_iff, Bool, Bool-cases,
}
use mathlib.Core.Bool.{true≢false}
use barista_script.Common.TextMaps.{has}
use barista_script.Buffer.Format.{Load, ok, invalid_data, out_of_bounds}
use barista_script.Cache.Bytes.{get_u32}
use barista_script.Cache.Miss.{MissReason}
use barista_script.Cache.State.{ParseCache, ReportLine, cleared, refused, trailing_line, miss_line}
use barista_script.Cache.Load.{
  Utf8, StoreRecord, FileRead, not_found, unreadable, contents, narrows, Loading, records_read,
  store_refused, accept, decode_record, load_records, finish_load, load_contents, load, store_magic,
}
use barista_script.Cache.Invariant.{WellFormed}
use barista_script.Cache.Safety.{load_records-ok, get_bytes_ok, Sized, decode_record-Sized}
use barista_script.Buffer.Ensures.{Ensures-cases}
use barista_script.Cache.Whole.{Records, Whole, load-Whole, Whole-WellFormed}

-- A load accepts a store that is whole, and answers as its records say; it refuses any other whole,
-- with empty maps, the corrupt mark and one line of report.
pub data Outcome (utf8 : Utf8) (f : FileRead) : MissReason × ParseCache → Type 0 where
  accepted :
      (c : ParseCache)
      → Whole utf8 f c
      → WellFormed c
      → c.store_corrupt ≡ false
      → Outcome utf8 f (MissReason.cold, c)
  discarded :
      (line : ReportLine)
      → ((c : ParseCache) → Whole utf8 f c → ⊥)
      → Outcome utf8 f (MissReason.corrupt, refused line)

-- What the loop says of the records.
Read : Utf8 → ℕ → Bytes → ParseCache → Loading → Type 0
Read utf8 n b c (records_read d []) = Records utf8 n b c d
Read utf8 n b c (records_read d (x ∷ rest)) = Unit
Read utf8 n b c (store_refused line) = Unit

-- A property of the value, where there is one.
abbrev Given : {A : Type 0} → (A → Type 0) → Load A → Type 0
Given P (ok a) = P a
Given P invalid_data = Unit
Given P out_of_bounds = Unit

Read-step :
    (utf8 : Utf8) (left : ℕ) (b : Bytes) (c : ParseCache) (r : StoreRecord) (l : Loading)
    → decode_record utf8 b ≡ ok r
    → (has r.key c.entries || has r.key c.rejected) ≡ false
    → narrows r ≡ false
    → Read utf8 left r.rest (accept r c) l
    → Read utf8 (suc left) b c l
unfolding Read
Read-step utf8 left b c r (records_read d []) decoded new fits h =
    Records.one_more left b c d r decoded new fits h
Read-step utf8 left b c r (records_read d (x ∷ rest)) decoded new fits h = tt
Read-step utf8 left b c r (store_refused line) decoded new fits h = tt

Given-map :
    {A : Type 0} (P Q : A → Type 0) (m : Load A) → ((a : A) → P a → Q a) → Given P m → Given Q m
Given-map P Q (ok a) f h = f a h
Given-map P Q invalid_data f h = tt
Given-map P Q out_of_bounds f h = tt

load_records-Read :
    (utf8 : Utf8) (size n : ℕ) (b : Bytes) (c : ParseCache)
    → Given (Read utf8 n b c) (load_records utf8 size n b c)
unfolding load_records Read
load_records-Read utf8 size zero [] c = Records.no_more c
load_records-Read utf8 size zero (x ∷ b) c = tt
load_records-Read utf8 size (suc left) b c =
    elim (Ensures-cases (Sized (length b)) (decode_record utf8 b) (decode_record-Sized utf8 b)) [
      | inr damaged ↦ rw (damaged, load_records) tt
      | inl (r, decoded, sizes) ↦ elim (Bool-cases (has r.key c.entries || has r.key c.rejected)) [
        | inl known ↦ rw (decoded, load_records, known) tt
        | inr new ↦ elim (Bool-cases (narrows r)) [
          | inl long ↦ rw (decoded, load_records, new, long) tt
          | inr fits ↦
              rw (decoded, load_records, new, fits)
                (Given-map (Read utf8 left r.rest (accept r c)) (Read utf8 (suc left) b c)
                  (load_records utf8 size left r.rest (accept r c))
                  (λ l. Read-step utf8 left b c r l decoded new fits)
                  (load_records-Read utf8 size left r.rest (accept r c)))
        ]
      ]
    ]

says_cold : Load (MissReason × ParseCache) → Bool
says_cold (ok (MissReason.cold, c)) = true
says_cold _ = false

-- A load that refuses a file has no whole store before it.
refusal :
    (utf8 : Utf8) (path : Text) (f : FileRead) (line : ReportLine)
    → load utf8 path f ≡ ok (MissReason.corrupt, refused line)
    → Outcome utf8 f (MissReason.corrupt, refused line)
unfolding says_cold
refusal utf8 path f line e =
    Outcome.discarded line (λ c w. true≢false (ap says_cold (sym (load-Whole utf8 path f c w) ∙ e)))

finish_load-Outcome :
    (utf8 : Utf8) (path : Text) (b : Bytes) (n : ℕ) (l : Loading)
    → (ltb (length b) 8 || not (text_eq (take 4 b) store_magic)) ≡ false
    → get_u32 (drop 4 b) ≡ ok n
    → Read utf8 n (drop 4 (drop 4 b)) cleared l
    → load utf8 path (contents b) ≡ ok (finish_load n l)
    → Outcome utf8 (contents b) (finish_load n l)
unfolding finish_load Read
finish_load-Outcome utf8 path b n (store_refused line) good count h e =
    refusal utf8 path (contents b) line e
finish_load-Outcome utf8 path b n (records_read c []) good count h e =
    let whole =
      Whole.whole_store b n c (ground (arith, good))
        (ground (arith, good, text_eq_iff (take 4 b) store_magic)) count h in
    Outcome.accepted c whole (Whole-WellFormed utf8 (contents b) c whole).0
      (Whole-WellFormed utf8 (contents b) c whole).1
finish_load-Outcome utf8 path b n (records_read c (x ∷ rest)) good count h e =
    refusal utf8 path (contents b) (trailing_line (length (x ∷ rest)) n) e

load_contents-loop :
    (utf8 : Utf8) (path : Text) (b : Bytes) (n : ℕ)
    → (ltb (length b) 8 || not (text_eq (take 4 b) store_magic)) ≡ false
    → get_u32 (drop 4 b) ≡ ok n
    → (m : Load Loading) → load_records utf8 (length b) n (drop 4 (drop 4 b)) cleared ≡ m
    → Given (Read utf8 n (drop 4 (drop 4 b)) cleared) m
    → Given (Outcome utf8 (contents b)) (load_contents utf8 path b)
unfolding load_contents load
load_contents-loop utf8 path b n good count (ok l) e h =
    rw (good, load_contents, count, e)
      (finish_load-Outcome utf8 path b n l good count h (rw (good, load_contents, count, e) refl))
load_contents-loop utf8 path b n good count invalid_data e h = rw (good, load_contents, count, e) tt
load_contents-loop utf8 path b n good count out_of_bounds e h =
    rw (good, load_contents, count, e) tt

count_of :
    (b : Bytes)
    → (ltb (length b) 8 || not (text_eq (take 4 b) store_magic)) ≡ false
    → (n : ℕ) × (get_u32 (drop 4 b) ≡ ok n)
count_of b good = get_bytes_ok 4 (drop 4 b) (ground (arith, good, length-drop 4 b))

load-Given : (utf8 : Utf8) (path : Text) (f : FileRead) → Given (Outcome utf8 f) (load utf8 path f)
unfolding load load_contents
load-Given utf8 path not_found =
    Outcome.accepted cleared Whole.no_store
      (Whole-WellFormed utf8 not_found cleared Whole.no_store).0 refl
load-Given utf8 path (unreadable e) = refusal utf8 path (unreadable e) _ refl
load-Given utf8 path (contents b) =
    elim (Bool-cases (ltb (length b) 8 || not (text_eq (take 4 b) store_magic))) [
      | inl bad ↦
          rw (bad, load_contents) (refusal utf8 path (contents b) _ (rw (bad, load_contents) refl))
      | inr good ↦
          let (n, count) = count_of b good in
          load_contents-loop utf8 path b n good count _ refl
            (load_records-Read utf8 (length b) n (drop 4 (drop 4 b)) cleared)
    ]

Given-ok : {A : Type 0} (P : A → Type 0) (m : Load A) (a : A) → m ≡ ok a → Given P m → P a
Given-ok P m a e h = rw (e) at h

pub Outcome-of_load :
    (utf8 : Utf8) (path : Text) (f : FileRead) (r : MissReason × ParseCache)
    → load utf8 path f ≡ ok r
    → Outcome utf8 f r
Outcome-of_load utf8 path f r e =
    Given-ok (Outcome utf8 f) (load utf8 path f) r e (load-Given utf8 path f)

abbrev pub file_size : FileRead → ℕ
file_size not_found = 0
file_size (unreadable e) = 0
file_size (contents b) = length b

load-ok :
    (utf8 : Utf8) (path : Text) (f : FileRead)
    → file_size f < 2147483648
    → (r : MissReason × ParseCache) × (load utf8 path f ≡ ok r)
unfolding load load_contents
load-ok utf8 path not_found small = (_, refl)
load-ok utf8 path (unreadable e) small = (_, refl)
load-ok utf8 path (contents b) small =
    elim (Bool-cases (ltb (length b) 8 || not (text_eq (take 4 b) store_magic))) [
      | inl bad ↦ (
        (MissReason.corrupt, refused (miss_line MissReason.corrupt path)),
        rw (bad, load_contents) refl,
      )
      | inr good ↦
          let (n, count) = count_of b good in
          let (l, e) =
            load_records-ok utf8 (length b) n (drop 4 (drop 4 b)) cleared
              (omega (arith, small, length-drop 4 b, length-drop 4 (drop 4 b))) in
          (finish_load n l, rw (good, load_contents, count, e) refl)
    ]

-- Whatever a file of less than 2 GiB holds, a load ends with a verdict and reads nothing outside the
-- file. It accepts the file exactly if that is missing or is whole, with the magic, as many sound
-- records of different paths as the header says, and nothing behind them; the cache is then what the
-- records say, with each path held once. It refuses every other file whole: every map is empty, the
-- store is marked as corrupt, and the report has the one line that says why.
pub load-Outcome :
    (utf8 : Utf8) (path : Text) (f : FileRead)
    → file_size f < 2147483648
    → (r : MissReason × ParseCache) × (load utf8 path f ≡ ok r) × Outcome utf8 f r
load-Outcome utf8 path f small =
    let (r, e) = load-ok utf8 path f small in (r, e, Outcome-of_load utf8 path f r e)

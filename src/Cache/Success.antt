-- ===== src/Cache/Success.antt =====
-- src/bs_cache.cpp: when a flush reports success.
use mathlib.Core.Bool.{true≢false}
use barista_script.Common.{
  ℕ, Bool, true, false, not, ◌||◌, ◌≡◌, ◌≢◌, refl, sym, ap, ◌∙◌, Option, none, some, inl, inr,
  arith, Text, Bytes, text_eq, text_eq_iff, Bool-cases, ◌↔◌,
}
use barista_script.Cache.Flush.{
  WriteFault, Disk, Answers, FlushResult, flush_ok, cant_write, temp_path_of, replace_file, is_ok,
  finish_promotion, promote, read_back, write_temp, open_temp, flush_store,
}
use barista_script.Cache.Atomic.{set_file_eq}

-- The system does all that the flush of a store asks for.
pub record Obliges (a : Answers) (store : Bytes) : Type 0 where
  pub path_error : a.path_error ≡ none
  pub opens : a.opens ≡ true
  pub written : a.written store ≡ store
  pub write_ok : a.write_ok ≡ true
  pub read_ok : a.read_ok ≡ true
  pub resolve_error : a.resolve_error ≡ none
  pub renames : a.renames ≡ true

failure : (e : FlushResult) → is_ok e ≡ false → e ≢ flush_ok
failure e h same = true≢false (sym (ap is_ok same) ∙ h)

replace_file-flush_ok :
    (error : Option ℕ) (renames : Bool) (file : Option Bytes) (source target : Text) (disk : Disk)
    → (replace_file error renames file source target disk).0 ≡ flush_ok
    → (error ≡ none) × (renames ≡ true)
unfolding replace_file
replace_file-flush_ok (some e) renames file source target disk h = absurd (failure _ refl h)
replace_file-flush_ok none renames none source target disk h = absurd (failure _ refl h)
replace_file-flush_ok none false (some b) source target disk h = absurd (failure _ refl h)
replace_file-flush_ok none true (some b) source target disk h = (refl, refl)

-- From the read-back on, for a temp file that holds `found`.
read_back-flush_ok :
    (a : Answers) (path temp : Text) (store found : Bytes) (disk : Disk)
    → (read_back WriteFault.no_fault a path temp store found disk).0 ≡ flush_ok
    → (a.read_ok ≡ true) × (found ≡ store) × (a.resolve_error ≡ none) × (a.renames ≡ true)
unfolding read_back promote finish_promotion
read_back-flush_ok a path temp store found disk h =
    elim (Bool-cases (not a.read_ok || not (text_eq found store))) [
      | inl refused ↦ absurd (failure cant_write refl (rw (refused) at h))
      | inr same ↦
          let r = replace_file-flush_ok a.resolve_error a.renames _ temp path _ (rw (same) at h) in
          (ground (arith, same), ground (arith, same, text_eq_iff found store), r.0, r.1)
    ]

write_temp-flush_ok :
    (a : Answers) (path temp : Text) (store : Bytes) (disk : Disk)
    → (write_temp WriteFault.no_fault a path temp store (a.written store) disk).0 ≡ flush_ok
    → (a.write_ok ≡ true)
      × ((a.read_ok ≡ true)
          × (a.written store ≡ store)
          × (a.resolve_error ≡ none)
          × (a.renames ≡ true))
unfolding write_temp
write_temp-flush_ok a path temp store disk h = elim (Bool-cases (not a.write_ok)) [
  | inl refused ↦ absurd (failure cant_write refl (rw (refused) at h))
  | inr fine ↦ (
    ground (arith, fine),
    read_back-flush_ok a path temp store (a.written store) disk (rw (fine) at h),
  )
]

open_temp-flush_ok :
    (error : Option ℕ) (opens : Bool) (a : Answers) (path temp : Text) (store : Bytes) (disk : Disk)
    → (open_temp error opens WriteFault.no_fault a path temp store disk).0 ≡ flush_ok
    → (error ≡ none)
      × (opens ≡ true)
      × ((a.write_ok ≡ true)
          × ((a.read_ok ≡ true)
              × (a.written store ≡ store)
              × (a.resolve_error ≡ none)
              × (a.renames ≡ true)))
unfolding open_temp
open_temp-flush_ok (some e) opens a path temp store disk h = absurd (failure _ refl h)
open_temp-flush_ok none false a path temp store disk h = absurd (failure _ refl h)
open_temp-flush_ok none true a path temp store disk h =
    (refl, refl, write_temp-flush_ok a path temp store disk h)

flush_store-Obliges :
    (a : Answers) (path unique : Text) (store : Bytes) (disk : Disk)
    → (flush_store WriteFault.no_fault a path unique store disk).0 ≡ flush_ok
    → Obliges a store
unfolding flush_store
flush_store-Obliges a path unique store disk h =
    let (p, o, (w, (r, s, e, m))) =
      open_temp-flush_ok a.path_error a.opens a path (temp_path_of path unique) store disk h in
    record {
      path_error = p;
      opens = o;
      written = s;
      write_ok = w;
      read_ok = r;
      resolve_error = e;
      renames = m;
    }

flush_store-of_Obliges :
    (a : Answers) (path unique : Text) (store : Bytes) (disk : Disk)
    → Obliges a store
    → (flush_store WriteFault.no_fault a path unique store disk).0 ≡ flush_ok
unfolding flush_store open_temp write_temp read_back promote finish_promotion replace_file
flush_store-of_Obliges a path unique store disk o =
    rw
      (
        o.path_error,
        o.opens,
        o.write_ok,
        write_temp,
        o.written,
        o.read_ok,
        (text_eq_iff store store).1 refl,
        set_file_eq (temp_path_of path unique) (some store) disk,
        o.resolve_error,
        o.renames,
      )
      refl

-- A flush with no simulated fault reports success exactly if the system has done all that it was asked:
-- the path was accepted, the temp file opened, all the bytes reached the disk, writing and reading back
-- were reported fine, and the paths resolved again and the rename was made. No failure is swallowed.
pub flush_store-flush_ok :
    (a : Answers) (path unique : Text) (store : Bytes) (disk : Disk)
    → ((flush_store WriteFault.no_fault a path unique store disk).0 ≡ flush_ok) ↔ Obliges a store
flush_store-flush_ok a path unique store disk =
    (flush_store-Obliges a path unique store disk, flush_store-of_Obliges a path unique store disk)

-- ===== src/Cache/Atomic.antt =====
-- src/bs_cache.cpp `BSParseCache::flush`: what is under the store path after a flush.
use barista_script.Common.{
  ℕ, ◌/◌, Bool, true, false, not, ◌||◌, ◌≡◌, ◌≢◌, refl, sym, ◌∙◌, ap, Option, ◌⊎◌, inl, inr, none,
  some, length, length-append, take, ◌++◌, if◌then◌else◌, arith, Text, Bytes, text_eq, text_eq_iff,
  Bool-cases,
}
use mathlib.Core.Bool.{true≢false}
use barista_script.Token.Names.{codes}
use barista_script.Cache.Flush.{
  WriteFault, Disk, set_file, Answers, FlushResult, flush_ok, cant_write, path_refused,
  temp_path_of, replace_file, is_ok, truncates, finish_promotion, promote, read_back, write_temp,
  open_temp, flush_store,
}

-- A successful flush puts the store under its path; one that fails leaves what was there; both
-- leave every file alone that is not the store or the temp file.
pub record IsAtomic (path temp : Text) (store : Bytes) (before : Disk) (r : FlushResult × Disk)
    : Type 0 where
  pub on_success : r.0 ≡ flush_ok → r.1 path ≡ some store
  pub on_failure : r.0 ≢ flush_ok → r.1 path ≡ before path
  pub elsewhere : (q : Text) → q ≢ path → q ≢ temp → r.1 q ≡ before q

pub temp_path_of_ne : (path unique : Text) → temp_path_of path unique ≢ path
temp_path_of_ne path unique h = omega (
  arith,
  ap length h,
  length-append path (codes "." ++ (unique ++ codes ".tmp")),
  length-append (codes ".") (unique ++ codes ".tmp"),
)

pub set_file_eq : (path : Text) (f : Option Bytes) (disk : Disk) → set_file path f disk path ≡ f
unfolding set_file
set_file_eq path f disk = rw ((text_eq_iff path path).1 refl)

text_eq_ne : (p q : Text) → p ≢ q → text_eq p q ≡ false
text_eq_ne p q ne = ground (arith, text_eq_iff p q)

pub set_file_ne :
    (path : Text) (f : Option Bytes) (disk : Disk) (q : Text)
    → path ≢ q
    → set_file path f disk q ≡ disk q
unfolding set_file
set_file_ne path f disk q ne = rw (text_eq_ne path q ne)

-- A failure whose disk differs from `before` only under `temp`.
fails :
    (path temp : Text) (store : Bytes) (before : Disk) (e : FlushResult) (disk : Disk)
    → is_ok e ≡ false
    → temp ≢ path
    → ((q : Text) → q ≢ temp → disk q ≡ before q)
    → IsAtomic path temp store before (e, disk)
fails path temp store before e disk h ne same = record {
  on_success = λ ok. absurd (true≢false (sym (ap is_ok ok) ∙ h));
  on_failure = λ not_ok. same path (λ p. ne (sym p));
  elsewhere = λ q ne_path ne_temp. same q ne_temp;
}

-- Discarding the temp file as well.
discarded :
    (path temp : Text) (store : Bytes) (before : Disk) (e : FlushResult) (disk : Disk)
    → is_ok e ≡ false
    → temp ≢ path
    → ((q : Text) → q ≢ temp → disk q ≡ before q)
    → IsAtomic path temp store before (e, set_file temp none disk)
discarded path temp store before e disk h ne same =
    fails path temp store before e (set_file temp none disk) h ne
      (λ q nq. set_file_ne temp none disk q (λ p. nq (sym p)) ∙ same q nq)

renamed :
    (path temp : Text) (store : Bytes) (before disk : Disk)
    → temp ≢ path
    → ((q : Text) → q ≢ temp → disk q ≡ before q)
    → IsAtomic path temp store before
        (flush_ok, set_file temp none (set_file path (some store) disk))
renamed path temp store before disk ne same = record {
  on_success = λ ok.
      set_file_ne temp none (set_file path (some store) disk) path ne
      ∙ set_file_eq path (some store) disk;
  on_failure = λ not_ok. absurd (not_ok refl);
  elsewhere = λ q ne_path ne_temp.
      set_file_ne temp none (set_file path (some store) disk) q (λ p. ne_temp (sym p))
      ∙ (set_file_ne path (some store) disk q (λ p. ne_path (sym p)) ∙ same q ne_temp);
}

-- A replacement fails and changes nothing, or moves the temp file.
abbrev Replaced : Text → Text → Disk → Bytes → FlushResult × Disk → Type 0
Replaced temp path disk store r =
    ((e : FlushResult) × (is_ok e ≡ false) × (r ≡ (e, disk)))
    ⊎ (r ≡ (flush_ok, set_file temp none (set_file path (some store) disk)))

replace_file-Replaced :
    (error : Option ℕ) (renames : Bool) (file : Option Bytes) (temp path : Text) (disk : Disk)
    (store : Bytes)
    → (file ≡ some store) ⊎ (file ≡ none)
    → Replaced temp path disk store (replace_file error renames file temp path disk)
unfolding replace_file
replace_file-Replaced (some e) renames file temp path disk store there =
    inl (path_refused e, refl, refl)
replace_file-Replaced none renames file temp path disk store (inr gone) =
    rw gone (inl (cant_write, refl, refl))
replace_file-Replaced none false file temp path disk store (inl whole) =
    rw whole (inl (cant_write, refl, refl))
replace_file-Replaced none true file temp path disk store (inl whole) = rw whole (inr refl)

finish_promotion-IsAtomic :
    (a : Answers) (path temp : Text) (store : Bytes) (before disk : Disk)
    → temp ≢ path
    → ((q : Text) → q ≢ temp → disk q ≡ before q)
    → (disk temp ≡ some store) ⊎ (disk temp ≡ none)
    → IsAtomic path temp store before (finish_promotion a path temp disk)
unfolding finish_promotion
finish_promotion-IsAtomic a path temp store before disk ne same there =
    elim (replace_file-Replaced a.resolve_error a.renames (disk temp) temp path disk store there) [
      | inl (e, failure, eq) ↦
          rw (eq, failure) (discarded path temp store before e disk failure ne same)
      | inr eq ↦ rw eq (renamed path temp store before disk ne same)
    ]

promote-IsAtomic :
    (fault : WriteFault) (a : Answers) (path temp : Text) (store : Bytes) (before disk : Disk)
    → temp ≢ path
    → ((q : Text) → q ≢ temp → disk q ≡ before q)
    → disk temp ≡ some store
    → IsAtomic path temp store before (promote fault a path temp disk)
unfolding promote
promote-IsAtomic WriteFault.after_write_before_rename a path temp store before disk ne same whole =
    fails path temp store before cant_write disk refl ne same
promote-IsAtomic WriteFault.remove_temp_before_promotion a path temp store before disk ne same
      whole =
    finish_promotion-IsAtomic a path temp store before (set_file temp none disk) ne
      (λ q nq. set_file_ne temp none disk q (λ p. nq (sym p)) ∙ same q nq)
      (inr (set_file_eq temp none disk))
promote-IsAtomic WriteFault.no_fault a path temp store before disk ne same whole =
    finish_promotion-IsAtomic a path temp store before disk ne same (inl whole)
promote-IsAtomic _ a path temp store before disk ne same whole =
    finish_promotion-IsAtomic a path temp store before disk ne same (inl whole)

-- What a reading that is accepted read is the store.
accepted :
    (read_ok : Bool) (found store : Bytes)
    → (not read_ok || not (text_eq found store)) ≡ false
    → found ≡ store
accepted read_ok found store h = ground (arith, text_eq_iff found store)

read_back-IsAtomic :
    (fault : WriteFault) (a : Answers) (path temp : Text) (store found : Bytes) (disk : Disk)
    → temp ≢ path
    → IsAtomic path temp store disk (read_back fault a path temp store found disk)
unfolding read_back
read_back-IsAtomic fault a path temp store found disk ne =
    elim (Bool-cases (not a.read_ok || not (text_eq found store))) [
      | inl refused ↦
          rw (refused, read_back)
            (discarded path temp store disk cant_write disk refl ne (λ q nq. refl))
      | inr same ↦
          rw (same, read_back)
            (promote-IsAtomic fault a path temp store disk (set_file temp (some found) disk) ne
              (λ q nq. set_file_ne temp (some found) disk q (λ p. nq (sym p)))
              (set_file_eq temp (some found) disk ∙ ap some (accepted a.read_ok found store same)))
    ]

write_temp-IsAtomic :
    (fault : WriteFault) (a : Answers) (path temp : Text) (store reached : Bytes) (disk : Disk)
    → temp ≢ path
    → IsAtomic path temp store disk (write_temp fault a path temp store reached disk)
unfolding write_temp
write_temp-IsAtomic fault a path temp store reached disk ne = elim (Bool-cases (not a.write_ok)) [
  | inl refused ↦
      rw (refused, write_temp)
        (discarded path temp store disk cant_write disk refl ne (λ q nq. refl))
  | inr fine ↦
      rw (fine, write_temp)
        (read_back-IsAtomic fault a path temp store
          (if truncates fault then take (length store / 2) reached else reached) disk ne)
]

open_temp-IsAtomic :
    (error : Option ℕ) (opens : Bool) (fault : WriteFault) (a : Answers) (path temp : Text)
    (store : Bytes) (disk : Disk)
    → temp ≢ path
    → IsAtomic path temp store disk (open_temp error opens fault a path temp store disk)
unfolding open_temp
open_temp-IsAtomic (some e) opens fault a path temp store disk ne =
    fails path temp store disk (path_refused e) disk refl ne (λ q nq. refl)
open_temp-IsAtomic none false fault a path temp store disk ne =
    fails path temp store disk cant_write disk refl ne (λ q nq. refl)
open_temp-IsAtomic none true fault a path temp store disk ne =
    write_temp-IsAtomic fault a path temp store (a.written store) disk ne

-- Whatever the fault that is simulated and whatever the system answers, a flush leaves under the
-- store path the whole new store when it reports success, and what was there before when it does
-- not; it changes no file but that one and the temp file.
pub flush_store-IsAtomic :
    (fault : WriteFault) (a : Answers) (path unique : Text) (store : Bytes) (disk : Disk)
    → IsAtomic path
        (temp_path_of path unique)
        store
        disk
        (flush_store fault a path unique store disk)
unfolding flush_store
flush_store-IsAtomic WriteFault.before_write a path unique store disk =
    fails path (temp_path_of path unique) store disk cant_write disk refl
      (temp_path_of_ne path unique) (λ q nq. refl)
flush_store-IsAtomic WriteFault.no_fault a path unique store disk =
    open_temp-IsAtomic a.path_error a.opens _ a path _ store disk (temp_path_of_ne path unique)
flush_store-IsAtomic _ a path unique store disk =
    open_temp-IsAtomic a.path_error a.opens _ a path _ store disk (temp_path_of_ne path unique)

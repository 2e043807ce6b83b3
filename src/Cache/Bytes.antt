-- ===== src/Cache/Bytes.antt =====
-- src/bs_cache.cpp: fixed-width numbers in a store, and its two hashes.
use Prim.Native.Nat.{bit_xor}
use barista_script.Common.{
  ℕ, zero, suc, ◌+◌, ◌*◌, ◌/◌, ◌%◌, ◌<◌, ◌≡◌, [], ◌∷◌, ◌++◌, length, arith, Bytes, refl, drop, ltb,
  length-append, false,
}
use barista_script.Buffer.Format.{Load, ok, out_of_bounds, ◌>>=◌}

-- `bs_put_u32` and `bs_put_u64`: 4 or 8 bytes of a value, the low byte first.
unfoldable pub put_bytes : ℕ → ℕ → Bytes
put_bytes zero value = []
put_bytes (suc left) value = value % 256 ∷ put_bytes left (value / 256)

abbrev pub put_u32 : ℕ → Bytes
put_u32 = put_bytes 4

abbrev pub put_u64 : ℕ → Bytes
put_u64 = put_bytes 8

-- `bs_get_u32` and `bs_get_u64` at the first of the bytes.
unfoldable pub get_bytes : ℕ → Bytes → Load ℕ
get_bytes zero bytes = ok 0
get_bytes (suc left) [] = out_of_bounds
get_bytes (suc left) (b ∷ bytes) = do high ← get_bytes left bytes; ok (b + 256 * high)

abbrev pub get_u32 : Bytes → Load ℕ
get_u32 = get_bytes 4

abbrev pub get_u64 : Bytes → Load ℕ
get_u64 = get_bytes 8

abbrev pub u64_mod : ℕ
u64_mod = 18446744073709551616

abbrev pub fnv_prime : ℕ
fnv_prime = 1099511628211

-- `bs_hash_bytes`
unfoldable pub hash_bytes : Bytes → ℕ → ℕ
hash_bytes [] hash = hash
hash_bytes (b ∷ bytes) hash = hash_bytes bytes (bit_xor hash b * fnv_prime % u64_mod)

abbrev pub source_digest_basis : ℕ
source_digest_basis = 14695981039346656037

abbrev pub entry_checksum_basis : ℕ
entry_checksum_basis = 1469598103934665403

abbrev pub cache_format_version : ℕ
cache_format_version = 2

-- `compute_source_digest`, of the UTF-8 bytes of a source.
unfoldable pub compute_source_digest : Bytes → ℕ
compute_source_digest utf8 =
    hash_bytes (put_u32 cache_format_version ++ (put_u64 (length utf8) ++ utf8)) source_digest_basis

unfoldable pub compute_entry_checksum : Bytes → ℕ
compute_entry_checksum record_bytes = hash_bytes record_bytes entry_checksum_basis

-- The number of values that the bytes can hold.
abbrev pub byte_range : ℕ → ℕ
byte_range zero = 1
byte_range (suc n) = 256 * byte_range n

pub get_bytes-put_bytes :
    (n value : ℕ) (rest : Bytes)
    → value < byte_range n
    → get_bytes n (put_bytes n value ++ rest) ≡ ok value
unfolding get_bytes put_bytes
get_bytes-put_bytes zero value rest h = ground arith
get_bytes-put_bytes (suc n) value rest h =
    rw (get_bytes-put_bytes n (value / 256) rest (omega arith)) (ground arith)

pub drop-put_bytes : (n value : ℕ) (rest : Bytes) → drop n (put_bytes n value ++ rest) ≡ rest
unfolding put_bytes
drop-put_bytes zero value rest = refl
drop-put_bytes (suc n) value rest = drop-put_bytes n (value / 256) rest

pub length-put_bytes : (n value : ℕ) → length (put_bytes n value) ≡ n
unfolding put_bytes
length-put_bytes zero value = refl
length-put_bytes (suc n) value = omega (arith, length-put_bytes n (value / 256))

-- The bytes in front are there.
pub length-prefix : (a b : Bytes) → ltb (length (a ++ b)) (length a) ≡ false
length-prefix a b = ground (arith, length-append a b)

pub length-put_bytes_prefix :
    (n value : ℕ) (rest : Bytes) → ltb (length (put_bytes n value ++ rest)) n ≡ false
length-put_bytes_prefix n value rest =
    ground (arith, length-append (put_bytes n value) rest, length-put_bytes n value)

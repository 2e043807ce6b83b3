-- ===== src/Buffer/RoundTrip/Names.antt =====
-- Names and constants: what `parse_code_string` writes for the pools, `set_code_buffer` reads.
use Prim.Native.Nat.{bit_xor}
use barista_script.Common.{
  ℕ, suc, ◌*◌, ◌/◌, ◌%◌, ◌<◌, ◌≡◌, refl, ap, ◌∙◌, some, List, [], ◌∷◌, ◌++◌, map, drop, length,
  length-append, drop-append, take-append, append_assoc, arith, All, Bytes, Text, u32_mod, ◌==◌,
  ==_iff, ltb_of_ge, all_below, all_below_sound, true, false, ◌≢◌,
}
use barista_script.Host.{Host}
use barista_script.Buffer.Format.{ok, ◌>>=◌, encode_uint32, name_mask}
use barista_script.Buffer.Save.{is_nil, encode_code_points, encode_identifiers, encode_constants}
use barista_script.Buffer.Load.{byte_at, decode_name, load_identifiers, load_constants}
use barista_script.Buffer.RoundTrip.Words.{
  decode_uint32-encode_uint32, drop-encode_uint32, length-encode_uint32,
}
use barista_script.Buffer.RoundTrip.Tokens.{IsName}

mask_table : all_below 256 (λ b. bit_xor (bit_xor b name_mask) name_mask == b) ≡ true
unfolding all_below
mask_table = refl

mask_twice : (b : ℕ) → b < 256 → bit_xor (bit_xor b name_mask) name_mask ≡ b
mask_twice b h = (==_iff _ b).0 (all_below_sound 256 _ b mask_table h)

masked : ℕ → Bytes
masked c = map (λ b. bit_xor b name_mask) (encode_uint32 c)

decode_name_step :
    (c n : ℕ) (rest : Bytes)
    → c < u32_mod
    → decode_name (suc n) (masked c ++ rest) ≡ (decode_name n rest >>= λ name. ok (c ∷ name))
unfolding masked decode_name byte_at encode_uint32
decode_name_step c n rest h = rw (
  mask_twice (c % 256) (omega arith),
  mask_twice (c / 256 % 256) (omega arith),
  mask_twice (c / 256 / 256 % 256) (omega arith),
  mask_twice (c / 256 / 256 / 256 % 256) (omega arith),
  decode_uint32-encode_uint32 c [] h,
)

decode_name-encode_code_points :
    (name : Text) (rest : Bytes)
    → All (λ c. c < u32_mod) name
    → decode_name (length name) (encode_code_points name ++ rest) ≡ ok name
unfolding encode_code_points masked
decode_name-encode_code_points [] rest h = unfold decode_name in refl
decode_name-encode_code_points (c ∷ name) rest h = rw append_assoc (
    decode_name_step c (length name) (encode_code_points name ++ rest) h.0
    ∙ ap (λ m. m >>= λ name. ok (c ∷ name)) (decode_name-encode_code_points name rest h.1))

length-encode_code_points : (name : Text) → length (encode_code_points name) ≡ length name * 4
unfolding encode_code_points encode_uint32
length-encode_code_points [] = refl
length-encode_code_points (c ∷ name) = omega (arith, length-encode_code_points name)

pub load_identifiers-encode_identifiers :
    (names : List Text) (rest : Bytes)
    → All IsName names
    → load_identifiers (length names) (encode_identifiers names ++ rest) ≡ ok (names, rest)
unfolding load_identifiers encode_identifiers
load_identifiers-encode_identifiers [] rest h = refl
load_identifiers-encode_identifiers (name ∷ names) rest h =
    let n = length name in
    let r = encode_identifiers names ++ rest in
    let b = encode_code_points name ++ r in
    let l = length-append (encode_uint32 n) b in
    let l' = length-append (encode_code_points name) r in
    let d : drop (n * 4) b ≡ r =
      rw (← length-encode_code_points name) (drop-append (encode_code_points name) r) in
    rw (append_assoc, append_assoc)
      (rw
        (
          ltb_of_ge (length (encode_uint32 n ++ b)) 4 (omega (arith, l, length-encode_uint32 n)),
          decode_uint32-encode_uint32 n b h.0.length_fits,
          drop-encode_uint32 n b,
          ltb_of_ge (length b) (n * 4) (omega (arith, l', length-encode_code_points name)),
          decode_name-encode_code_points name r h.0.points_fit,
        )
        (rw (d, load_identifiers-encode_identifiers names rest h.1)))

pub is_nil-false : (b : Bytes) → b ≢ [] → is_nil b ≡ false
is_nil-false [] h = absurd (h refl)
is_nil-false (x ∷ b) h = refl

module _ (host : Host) where
  open host use {Variant}

  -- The binary form of a constant: it is not empty, its size fits 32 bits, and it reads back.
  pub record IsEncodable (v : Variant) : Type 0 where
    pub not_empty : host.encode_variant v ≢ []
    pub size_fits : length (host.encode_variant v) < u32_mod
    pub decodes : host.decode_variant (host.encode_variant v) ≡ v

  -- The constants have a binary form, which reads back.
  pub load_constants-encode_constants :
      (cs : List Variant)
      → All IsEncodable cs
      → (bytes : Bytes) × (encode_constants host cs ≡ some bytes)
        × ((rest : Bytes) → load_constants host (length cs) (bytes ++ rest) ≡ ok (cs, rest))
  unfolding load_constants encode_constants
  load_constants-encode_constants [] h = ([], refl, λ rest. refl)
  load_constants-encode_constants (v ∷ vs) h =
      let (bytes, e, loads) = load_constants-encode_constants vs h.1 in
      let code = host.encode_variant v in
      let n = length code in
      (
        encode_uint32 n ++ (code ++ bytes),
        rw (is_nil-false code h.0.not_empty, e, encode_constants),
        λ rest.
            rw (append_assoc (encode_uint32 n) (code ++ bytes) rest, append_assoc code bytes rest)
              (rw
                (
                  ltb_of_ge (length (encode_uint32 n ++ (code ++ (bytes ++ rest)))) 4 (
                      omega (
                        arith,
                        length-append (encode_uint32 n) (code ++ (bytes ++ rest)),
                        length-encode_uint32 n,
                      )),
                  decode_uint32-encode_uint32 n (code ++ (bytes ++ rest)) h.0.size_fits,
                  drop-encode_uint32 n (code ++ (bytes ++ rest)),
                  ltb_of_ge (length (code ++ (bytes ++ rest))) n
                      (omega (arith, length-append code (bytes ++ rest))),
                  take-append code (bytes ++ rest),
                  drop-append code (bytes ++ rest),
                  h.0.decodes,
                )
                (rw (loads rest))),
      )

-- ===== src/Providers/Der/Key.antt =====
-- A whole key in DER: the parser reads its modulus.
use mathlib.Core.List.{append_assoc, append-nil}
use esp32_rig.Base.{
  ℕ, ◌+◌, ◌*◌, ◌≤◌, ◌≡◌, refl, sym, subst, ◌∙◌, ap, true, false, [], ◌∷◌, ◌++◌, arith, length, eqb,
  leb, ok, length-append,
}
use esp32_rig.Providers.Der.{
  Bytes, check_oid, key_bits, modulus_bits, spki_rsa_bits, bit_length, rsa_encryption_oid,
}
use esp32_rig.Providers.Der.Sizes.{AreBytes, bit_length-full}
use esp32_rig.Providers.Der.Encoded.{
  Size, Sizes, item, StandsAt, start_of, item_at, past, slice-at, byte_at-at, onward,
}

-- A SubjectPublicKeyInfo of an RSA key, with a size for each of its items; what the parser does not
-- look at is any bytes.
pub record Key : Type 0 where
  pub modulus : Bytes
  pub exponent : Bytes
  pub parameters : Bytes
  pub after_key : Bytes
  pub after_bits : Bytes
  pub spki_size : Size
  pub algorithm_size : Size
  pub oid_size : Size
  pub bits_size : Size
  pub key_size : Size
  pub modulus_size : Size

module _ (k : Key) where
  abbrev modulus_item : Bytes
  modulus_item = item 0x02 k.modulus_size k.modulus

  abbrev key_item : Bytes
  key_item = item 0x30 k.key_size (modulus_item ++ k.exponent)

  abbrev bits : Bytes
  bits = 0 ∷ (key_item ++ k.after_key)

  abbrev bits_item : Bytes
  bits_item = item 0x03 k.bits_size bits

  abbrev algorithm : Bytes
  algorithm = item 0x06 k.oid_size rsa_encryption_oid ++ k.parameters

  abbrev algorithm_item : Bytes
  algorithm_item = item 0x30 k.algorithm_size algorithm

  abbrev body : Bytes
  body = algorithm_item ++ (bits_item ++ k.after_bits)

  abbrev pub spki : Bytes
  spki = item 0x30 k.spki_size body

  -- Each size is that of its contents.
  abbrev pub IsSized : Type 0
  IsSized =
      Sizes k.spki_size body
      × Sizes k.algorithm_size algorithm
      × Sizes k.oid_size rsa_encryption_oid
      × Sizes k.bits_size bits
      × Sizes k.key_size (modulus_item ++ k.exponent)
      × Sizes k.modulus_size k.modulus

  module _ (der : Bytes) (at : ℕ) (rest : Bytes) where
    modulus_bits-key :
        Sizes k.key_size (modulus_item ++ k.exponent)
        → Sizes k.modulus_size k.modulus
        → StandsAt der at (key_item ++ rest)
        → modulus_bits der at ≡ ok (bit_length k.modulus)
    unfolding modulus_bits
    modulus_bits-key sized inner there =
        let contents = modulus_item ++ k.exponent in
        let (key, in_key) = item_at der at 0x30 contents rest k.key_size sized there in
        let start = start_of at k.key_size in
        let in_key' =
          subst (StandsAt der start) (append_assoc modulus_item k.exponent rest) in_key in
        let (modulus, in_modulus) =
          item_at der start 0x02 k.modulus (k.exponent ++ rest) k.modulus_size inner in_key' in
        rw (key, modulus)
          (ap (λ read. ok (bit_length read))
            (slice-at der (start_of start k.modulus_size) k.modulus (k.exponent ++ rest)
              in_modulus))

  module _ (der : Bytes) (at : ℕ) (rest : Bytes) where
    key_bits-key :
        Sizes k.bits_size bits
        → Sizes k.key_size (modulus_item ++ k.exponent)
        → Sizes k.modulus_size k.modulus
        → StandsAt der at (bits_item ++ rest)
        → key_bits der at ≡ ok (bit_length k.modulus)
    unfolding key_bits
    key_bits-key sized of_key inner there =
        let (read, in_bits) = item_at der at 0x03 bits rest k.bits_size sized there in
        let start = start_of at k.bits_size in
        let unused = byte_at-at der start 0 _ in_bits in
        let in_key =
          subst (StandsAt der (start + 1)) (append_assoc key_item k.after_key rest)
            (onward der start 0 _ in_bits) in
        let gap : leb (start + length bits) start ≡ false = ground arith in
        rw (read, gap, unused)
          (modulus_bits-key der (start + 1) (k.after_key ++ rest) of_key inner in_key)

    check_oid-key :
        Sizes k.oid_size rsa_encryption_oid
        → StandsAt der at (algorithm ++ rest)
        → check_oid der at ≡ ok tt
    unfolding check_oid
    check_oid-key sized there =
        let there' =
          subst (StandsAt der at)
            (append_assoc (item 0x06 k.oid_size rsa_encryption_oid) k.parameters rest) there in
        let (oid, in_oid) =
          item_at der at 0x06 rsa_encryption_oid (k.parameters ++ rest) k.oid_size sized there' in
        rw
          (
            oid,
            slice-at der (start_of at k.oid_size) rsa_encryption_oid (k.parameters ++ rest) in_oid,
          )
          refl

  spki_rsa_bits-eq : IsSized → spki_rsa_bits spki ≡ ok (bit_length k.modulus)
  unfolding spki_rsa_bits
  spki_rsa_bits-eq (s0, s1, s2, s3, s4, s5) =
      let start = start_of 0 k.spki_size in
      let (outer, in_outer) =
        item_at spki 0 0x30 body [] k.spki_size s0
          (sym (append-nil spki), omega (arith, length-append spki [])) in
      let in_body = subst (StandsAt spki start) (append-nil body) in_outer in
      let (inner, in_algorithm) =
        item_at spki start 0x30 algorithm (bits_item ++ k.after_bits) k.algorithm_size s1 in_body in
      let from = start_of start k.algorithm_size in
      let in_bits = past spki from algorithm (bits_item ++ k.after_bits) in_algorithm in
      let all : eqb (start + length body) (length spki) ≡ true = ground (arith, in_body.1) in
      rw (outer, all, inner, check_oid-key spki from (bits_item ++ k.after_bits) s2 in_algorithm)
        (key_bits-key spki (from + length algorithm) k.after_bits s3 s4 s5 in_bits)

-- The modulus of a key, as a positive number in whole bytes: a zero, and bytes of which the first
-- has its highest bit set. Then the parser gives eight bits for each of these bytes, whatever the
-- forms in which the items' sizes are written and whatever else the key holds where the parser does
-- not look.
pub spki_rsa_bits-key :
    (k : Key) (b : ℕ) (bytes : Bytes)
    → IsSized k
    → k.modulus ≡ 0 ∷ b ∷ bytes
    → AreBytes (b ∷ bytes)
    → 128 ≤ b
    → spki_rsa_bits (spki k) ≡ ok (8 * length (b ∷ bytes))
spki_rsa_bits-key k b bytes sized modulus small high =
    spki_rsa_bits-eq k sized
    ∙ ap (λ m. ok (bit_length m)) modulus
    ∙ ap (λ n. ok n) (bit_length-full b bytes small high)

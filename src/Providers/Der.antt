-- ===== src/Providers/Der.antt =====
-- providers.py: the size of an RSA key, read from its DER bytes. A byte is a number below 256.
pub mod Reads
pub mod Sizes
pub mod Encoded
pub mod Key
use esp32_rig.Base.{
  ℕ, zero, suc, ◌+◌, ◌-◌, ◌*◌, ◌%◌, ◌≡◌, Bool, true, false, ◌/◌, not, ◌&&◌, ◌||◌, Option, none,
  some, List, [], ◌∷◌, length, take, eqb, ltb, leb, if◌then◌else◌, Result, ok, err, ◌>>=◌, ◌>>◌,
  refuse,
}

abbrev pub Bytes : Type 0
Bytes = List ℕ

-- What stops the parser: its own refusals, each with its message, and a subscript that is out of
-- range.
pub data DerError : Type 0 where
  truncated malformed_length no_spki no_rsa_key no_public_key no_rsa_public_key no_modulus :
      DerError
  index_error : DerError

abbrev pub drop : {A : Type 0} → ℕ → List A → List A
drop zero xs = xs
drop (suc n) [] = []
drop (suc n) (x ∷ xs) = drop n xs

-- `data[i]`
abbrev pub head_or : Bytes → Result DerError ℕ
head_or [] = err index_error
head_or (b ∷ bs) = ok b

abbrev pub byte_at : Bytes → ℕ → Result DerError ℕ
byte_at bytes i = head_or (drop i bytes)

-- `data[i:j]`
abbrev pub slice : Bytes → ℕ → ℕ → Bytes
slice bytes i j = take (j - i) (drop i bytes)

-- `int.from_bytes(bytes, "big")`
abbrev pub from_bytes_onto : ℕ → Bytes → ℕ
from_bytes_onto n [] = n
from_bytes_onto n (b ∷ bs) = from_bytes_onto (n * 256 + b) bs

abbrev pub from_bytes : Bytes → ℕ
from_bytes = from_bytes_onto 0

-- The tag, and where the contents start and end.
pub record Item : Type 0 where
  pub tag : ℕ
  pub start : ℕ
  pub end : ℕ

abbrev pub item_to : Bytes → ℕ → ℕ → ℕ → Result DerError Item
item_to bytes tag start size =
    if ltb (length bytes) (start + size)
    then err truncated
    else ok (record { tag = tag; start = start; end = start + size })

-- The length is in `count` bytes that follow.
abbrev pub long_item : Bytes → ℕ → ℕ → ℕ → Result DerError Item
long_item bytes tag start count = do
  refuse (eqb count 0 || (ltb 4 count || ltb (length bytes) (start + count))) malformed_length
  item_to bytes tag (start + count) (from_bytes (slice bytes start (start + count)))

abbrev pub sized_item : Bytes → ℕ → ℕ → ℕ → Result DerError Item
sized_item bytes offset tag size =
    if leb 128 size
    then long_item bytes tag (offset + 2) (size % 128)
    else item_to bytes tag (offset + 2) size

-- `_der_item`; of a byte, `& 0x80` is set from 128 on and `& 0x7F` is what is left of 128.
unfoldable pub der_item : Bytes → ℕ → Result DerError Item
der_item bytes offset = do
  refuse (ltb (length bytes) (offset + 2)) truncated
  tag ← byte_at bytes offset
  size ← byte_at bytes (offset + 1)
  sized_item bytes offset tag size

abbrev pub same_bytes : Bytes → Bytes → Bool
same_bytes [] [] = true
same_bytes (x ∷ xs) (y ∷ ys) = eqb x y && same_bytes xs ys
same_bytes _ _ = false

abbrev pub rsa_encryption_oid : Bytes
rsa_encryption_oid = 0x2a ∷ 0x86 ∷ 0x48 ∷ 0x86 ∷ 0xf7 ∷ 0x0d ∷ 0x01 ∷ 0x01 ∷ 0x01 ∷ []

-- `int.bit_length`, of a number that so many halvings bring to 0.
abbrev pub bit_length_within : ℕ → ℕ → ℕ
bit_length_within zero n = 0
bit_length_within (suc k) n = if eqb n 0 then 0 else suc (bit_length_within k (n / 2))

abbrev pub bit_length : Bytes → ℕ
bit_length bytes = bit_length_within (8 * length bytes) (from_bytes bytes)

unfoldable pub check_oid : Bytes → ℕ → Result DerError (Unit {0})
check_oid der start = do
  oid ← der_item der start
  refuse
      (not (eqb oid.tag 0x06) || not (same_bytes (slice der oid.start oid.end) rsa_encryption_oid))
      no_rsa_key

unfoldable pub modulus_bits : Bytes → ℕ → Result DerError ℕ
modulus_bits der start = do
  key ← der_item der start
  refuse (not (eqb key.tag 0x30)) no_rsa_public_key
  modulus ← der_item der key.start
  refuse (not (eqb modulus.tag 0x02)) no_modulus
  ok (bit_length (slice der modulus.start modulus.end))

unfoldable pub key_bits : Bytes → ℕ → Result DerError ℕ
key_bits der start = do
  bits ← der_item der start
  refuse (not (eqb bits.tag 0x03) || leb bits.end bits.start) no_public_key
  unused ← byte_at der bits.start
  refuse (not (eqb unused 0)) no_public_key
  modulus_bits der (bits.start + 1)

unfoldable pub spki_rsa_bits : Bytes → Result DerError ℕ
spki_rsa_bits der = do
  spki ← der_item der 0
  refuse (not (eqb spki.tag 0x30) || not (eqb spki.end (length der))) no_spki
  algorithm ← der_item der spki.start
  refuse (not (eqb algorithm.tag 0x30)) no_spki
  check_oid der algorithm.start
  key_bits der algorithm.end

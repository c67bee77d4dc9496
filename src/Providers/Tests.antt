-- ===== src/Providers/Tests.antt =====
-- A small key, and a day of messages.
use esp32_rig.Base.{◌≡◌, refl, arith, false, some, [], ◌∷◌, ok}
use esp32_rig.Providers.Der.{spki_rsa_bits}
use esp32_rig.Providers.Der.Reads.{is_index_error, spki_rsa_bits-reads}
use esp32_rig.Providers.Der.Encoded.{short, long}
use esp32_rig.Providers.Der.Key.{Key, IsSized, spki, spki_rsa_bits-key}
use esp32_rig.Providers.Budget.{
  Text, undecodable, dated, number, decode_error, consume_budget, consume_all, IsAllowance,
  consume_all-granted, budget_used,
}

-- Sixteen bits; the sizes are written in each of the forms.
abbrev key : Key
key = record {
  modulus = 0 ∷ 0x80 ∷ 0x01 ∷ [];
  exponent = 2 ∷ 1 ∷ 3 ∷ [];
  parameters = 5 ∷ 0 ∷ [];
  after_key = [];
  after_bits = [];
  spki_size = long (0 ∷ 30 ∷ []);
  algorithm_size = short 13;
  oid_size = short 9;
  bits_size = long (12 ∷ []);
  key_size = short 9;
  modulus_size = long (3 ∷ []);
}

sizes : IsSized key
sizes = (
  (omega arith, omega arith, refl),
  (omega arith, refl),
  (omega arith, refl),
  (omega arith, omega arith, refl),
  (omega arith, refl),
  (omega arith, omega arith, refl),
)

spki_rsa_bits-key_example : spki_rsa_bits (spki key) ≡ ok 16
spki_rsa_bits-key_example =
    spki_rsa_bits-key key 0x80 (1 ∷ []) sizes refl (omega arith, (omega arith, tt)) (omega arith)

-- A length that runs past the end.
spki_rsa_bits-reads_example : is_index_error (spki_rsa_bits (0x30 ∷ 0x82 ∷ 0x01 ∷ [])) ≡ false
spki_rsa_bits-reads_example = spki_rsa_bits-reads (0x30 ∷ 0x82 ∷ 0x01 ∷ [])

abbrev today : Text
today = dated "2026-09-15" (number 3)

consume_all-granted_example :
    IsAllowance 5 "2026-09-15" 4 today (some 3) (consume_all 5 "2026-09-15" 4 today)
unfolding budget_used
consume_all-granted_example = consume_all-granted 5 "2026-09-15" 4 today

-- A file that cannot be decoded is an error, not a day on which nothing was used.
undecoded : (consume_budget 5 "2026-09-15" undecodable).0 ≡ decode_error
unfolding consume_budget
undecoded = refl

-- ===== src/Providers/Der/Sizes.antt =====
-- How many bits a number of so many bytes has.
use esp32_rig.Base.{
  ℕ, zero, suc, ◌+◌, ◌*◌, ◌/◌, ◌≤◌, ◌<◌, ◌≡◌, refl, subst, ◌∙◌, ap, [], ◌∷◌, arith, length, All,
}
use esp32_rig.Providers.Der.{Bytes, from_bytes_onto, from_bytes, bit_length_within, bit_length}

abbrev pow2 : ℕ → ℕ
pow2 zero = 1
pow2 (suc k) = 2 * pow2 k

-- A number with so many zero bytes put after it.
abbrev scale : ℕ → ℕ → ℕ
scale zero n = n
scale (suc k) n = scale k (n * 256)

abbrev pub AreBytes : Bytes → Type 0
AreBytes = All (λ b. b < 256)

scale_mono : (k m n : ℕ) → m ≤ n → scale k m ≤ scale k n
scale_mono zero m n h = h
scale_mono (suc k) m n h = scale_mono k (m * 256) (n * 256) (omega arith)

abbrev eight_up : ℕ → ℕ
eight_up j = suc (suc (suc (suc (suc (suc (suc (suc j)))))))

eight_more : (j : ℕ) → pow2 j * 256 ≡ pow2 (eight_up j)
eight_more j = omega arith

scale-pow2 : (k j : ℕ) → scale k (pow2 j) ≡ pow2 (8 * k + j)
scale-pow2 zero j = ap pow2 (omega arith)
scale-pow2 (suc k) j =
    ap (scale k) (eight_more j) ∙ scale-pow2 k (eight_up j) ∙ ap pow2 (omega arith)

from_bytes_onto-bounds :
    (n : ℕ) (bytes : Bytes)
    → AreBytes bytes
    → (scale (length bytes) n ≤ from_bytes_onto n bytes)
      × (from_bytes_onto n bytes < scale (length bytes) (n + 1))
from_bytes_onto-bounds n [] h = (omega arith, omega arith)
from_bytes_onto-bounds n (b ∷ bs) h =
    let (low, high) = from_bytes_onto-bounds (n * 256 + b) bs h.1 in
    let less = scale_mono (length bs) (n * 256) (n * 256 + b) (omega arith) in
    let more = scale_mono (length bs) (n * 256 + b + 1) ((n + 1) * 256) (omega (arith, h.0)) in
    (omega arith, omega arith)

bit_length_within-zero : (k : ℕ) → bit_length_within k 0 ≡ 0
bit_length_within-zero zero = refl
bit_length_within-zero (suc k) = refl

bit_length_within-pow2 :
    (j k n : ℕ) → j < k → pow2 j ≤ n → n < pow2 (suc j) → bit_length_within k n ≡ suc j
bit_length_within-pow2 j zero n h low high = absurd (omega arith)
bit_length_within-pow2 zero (suc k) n h low high =
    subst (λ m. bit_length_within (suc k) m ≡ 1) {x = 1} {y = n} (omega arith)
      (ap suc (bit_length_within-zero k))
bit_length_within-pow2 (suc j) (suc k) n h low high =
    ground (arith, bit_length_within-pow2 j k (n / 2) (omega arith) (omega arith) (omega arith))

-- A number whose first byte has its highest bit set uses every bit of its bytes.
pub bit_length-full :
    (b : ℕ) (bytes : Bytes)
    → AreBytes (b ∷ bytes)
    → 128 ≤ b
    → bit_length (0 ∷ b ∷ bytes) ≡ 8 * length (b ∷ bytes)
bit_length-full b bytes h high =
    let size = length bytes in
    let (low, less) = from_bytes_onto-bounds b bytes h.1 in
    let from = scale_mono size 128 b high in
    let to = scale_mono size (b + 1) 256 (omega (arith, h.0)) in
    let lower : scale size 128 ≡ pow2 (8 * size + 7) = scale-pow2 size 7 in
    let upper : scale size 256 ≡ pow2 (suc (8 * size + 7)) =
      scale-pow2 size 8 ∙ ap pow2 {x = 8 * size + 8} {y = suc (8 * size + 7)} (omega arith) in
    let same : from_bytes_onto b bytes ≡ from_bytes (0 ∷ b ∷ bytes) =
      ap (λ n. from_bytes_onto n bytes) {x = b} {y = 0 * 256 + b} (omega arith) in
    bit_length_within-pow2 (8 * size + 7) (8 * length (0 ∷ b ∷ bytes)) (from_bytes (0 ∷ b ∷ bytes))
      (omega arith) (omega arith) (omega arith)
    ∙ omega arith

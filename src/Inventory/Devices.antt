-- ===== src/Inventory/Devices.antt =====
-- The devices that a search finds, and what counts the names and the MACs of boards.
use esp32_rig.Base.{
  ℕ, ◌+◌, ◌≡◌, refl, ap, ap₂, subst, inl, inr, String, Bool, true, false, ◌&&◌, Option, none, some,
  List, [], ◌∷◌, ◌++◌, arith, any, first, if◌then◌else◌, ◌==◌, Result, ok, err, All, All-with,
  Bool-cases, Option-cases,
}
use esp32_rig.Inventory.{
  Mac, normalize_mac, same_mac, Device, Board, Instrument, by_mac, is_free_at, mac_device,
  device_of, has_mac,
}

-- How often a name stands in a list.
abbrev pub times : String → List String → ℕ
times k [] = 0
times k (x ∷ xs) = (if x == k then 1 else 0) + times k xs

pub times-append : (k : String) (xs ys : List String) → times k (xs ++ ys) ≡ times k xs + times k ys
times-append k [] ys = omega arith
times-append k (x ∷ xs) ys = omega (arith, times-append k xs ys)

abbrev pub board_ids : List Board → List String
board_ids [] = []
board_ids (b ∷ bs) = b.id ∷ board_ids bs

pub board_ids-append : (xs ys : List Board) → board_ids (xs ++ ys) ≡ board_ids xs ++ board_ids ys
board_ids-append [] ys = refl
board_ids-append (x ∷ xs) ys = ap (λ ids. x.id ∷ ids) (board_ids-append xs ys)

abbrev pub is_mac : Option Mac → Mac → Bool
is_mac none m = false
is_mac (some n) m = same_mac n m

-- The board has the MAC.
abbrev pub holds : Mac → Board → Bool
holds m b = is_mac b.mac m

abbrev pub is_instrument : Mac → Instrument → Bool
is_instrument m i = same_mac i.mac m

-- The board is what the device is.
abbrev pub is_at : Board → Device → Bool
is_at b d = d.port == b.port && (d.chip == b.chip && (d.target == b.target && holds d.mac b))

abbrev pub IsPlugged : List Device → Board → Type 0
IsPlugged devices b = any (is_at b) devices ≡ true

-- The discovery writes a MAC as the registry does.
abbrev pub AreNormal : List Device → Type 0
AreNormal = All (λ d. normalize_mac d.mac ≡ d.mac)

-- Which branch an equation is of.
pub taken : {A : Type 0} {x z : A} (y : A) (b : Bool) → b ≡ true → (if b then x else y) ≡ z → x ≡ z
taken y true h e = e
taken y false h e = absurd (cc)

pub passed_over :
    {A : Type 0} {y z : A} (x : A) (b : Bool) → b ≡ false → (if b then x else y) ≡ z → y ≡ z
passed_over x true h e = absurd (cc)
passed_over x false h e = e

pub err-ok : {E A : Type 0} {e : E} {a : A} → ◌≡◌ {A = Result E A} (err e) (ok a) → ◌≡◌ {A = ℕ} 0 1
err-ok h = cc

pub same_mac_eq : (a b : Mac) → same_mac a b ≡ true → a ≡ b
same_mac_eq [] [] h = refl
same_mac_eq (c ∷ cs) (d ∷ ds) h =
    ap₂ (λ x xs. x ∷ xs) (ground arith) (same_mac_eq cs ds (ground arith))
same_mac_eq [] (d ∷ ds) h = absurd (cc)
same_mac_eq (c ∷ cs) [] h = absurd (cc)

pub same_mac_refl : (a : Mac) → same_mac a a ≡ true
same_mac_refl [] = refl
same_mac_refl (c ∷ cs) = ground (arith, same_mac_refl cs)

-- What holds of every device holds of one that was found.
pub All-by_mac :
    (P : Device → Type 0) (mac : Mac) (devices : List Device) (d : Device)
    → All P devices
    → by_mac mac devices ≡ some d
    → P d × (same_mac d.mac mac ≡ true)
All-by_mac P mac [] d h e = absurd (cc)
All-by_mac P mac (x ∷ xs) d h e = elim (Option-cases (by_mac mac xs)) [
  | inr (y, found) ↦
      let same : y ≡ d = ground (arith, found) in
      subst (λ z. P z × (same_mac z.mac mac ≡ true)) same (All-by_mac P mac xs y h.1 found)
  | inl gone ↦ elim (Bool-cases (same_mac x.mac mac)) [
    | inl hit ↦
        let same : x ≡ d = ground (arith, gone, hit) in
        subst (λ z. P z × (same_mac z.mac mac ≡ true)) same (h.0, hit)
    | inr other ↦ absurd (ground (arith, gone, other))
  ]
]

pub All-first :
    (P : Device → Type 0) (q : Device → Bool) (devices : List Device) (d : Device)
    → All P devices
    → first q devices ≡ some d
    → P d
All-first P q [] d h e = absurd (cc)
All-first P q (x ∷ xs) d h e = elim (Bool-cases (q x)) [
  | inl hit ↦ let same : x ≡ d = ground (arith, hit) in subst P same h.0
  | inr other ↦ All-first P q xs d h.1 (ground (arith, other))
]

All-mac_device :
    (P : Device → Type 0) (mac : Option Mac) (devices : List Device) (d : Device)
    → All P devices
    → mac_device mac devices ≡ some d
    → P d
All-mac_device P none devices d h e = absurd (cc)
All-mac_device P (some mac) devices d h e = (All-by_mac P (normalize_mac mac) devices d h e).0

pub All-device_of :
    (P : Device → Type 0) (b : Board) (claimed : List Mac) (devices : List Device) (d : Device)
    → All P devices
    → device_of b claimed devices ≡ some d
    → P d
All-device_of P b claimed devices d h e = elim (Bool-cases (has_mac b.mac)) [
  | inl own ↦ All-mac_device P b.mac devices d h (ground (arith, own))
  | inr port ↦ All-first P (is_free_at b.port claimed) devices d h (ground (arith, port))
]

pub any-each : (p : Device → Bool) (xs : List Device) → All (λ x. p x ≡ true → any p xs ≡ true) xs
any-each p [] = tt
any-each p (x ∷ xs) = (
  λ h. rw h refl,
  All-with (λ y. p y ≡ true → any p xs ≡ true) (λ y. p y ≡ true → any p (x ∷ xs) ≡ true) xs
      (λ y f h. ground (arith, f h)) (any-each p xs),
)

-- ===== src/Inventory/Reconciled.antt =====
-- What a reconciled inventory says of every registered board and every device.
use esp32_rig.Base.{
  ℕ, ◌+◌, ◌≡◌, refl, ap, subst, ◌∙◌, inl, inr, String, Bool, true, false, not, ◌||◌, Option, none,
  some, List, [], ◌∷◌, ◌++◌, arith, any, filter, lookup, same_name, if◌then◌else◌, ◌==◌, ok, ok-inj,
  All, All-intro, any-append, Bool-cases, >>=-eq-ok,
}
use esp32_rig.Inventory.{
  Mac, same_mac, is_in, Device, Board, Instrument, kinds, InventoryResult, by_mac, Found,
  none_found, plugged_instrument, instrument_with, find_instruments, find_boards, reconcile,
}
use esp32_rig.Inventory.Devices.{
  times, times-append, board_ids, taken, passed_over, err-ok, same_mac_eq, All-by_mac, holds,
  is_instrument, IsPlugged, AreNormal,
}
use esp32_rig.Inventory.Claims.{loop-IsKept}

abbrev pub instrument_ids : List Instrument → List String
instrument_ids [] = []
instrument_ids (i ∷ rest) = i.id ∷ instrument_ids rest

instrument_ids-append :
    (xs ys : List Instrument) → instrument_ids (xs ++ ys) ≡ instrument_ids xs ++ instrument_ids ys
instrument_ids-append [] ys = refl
instrument_ids-append (x ∷ xs) ys = ap (λ ids. x.id ∷ ids) (instrument_ids-append xs ys)

module _ (devices : List Device) (k : String) (m : Mac) where
  abbrev counted : Found Instrument → ℕ
  counted f = times k (instrument_ids f.active) + times k f.missing

  abbrev IsClaimed : Found Instrument → Type 0
  IsClaimed f = is_in m f.claimed ≡ any (is_instrument m) f.active

  abbrev IsTurned : Instrument → Found Instrument → Found Instrument → Type 0
  IsTurned i f f' = IsClaimed f' × (counted f' ≡ counted f + (if i.id == k then 1 else 0))

  turn-IsTurned :
      (device : Option Device) (i : Instrument) (f f' : Found Instrument)
      → by_mac i.mac devices ≡ device
      → instrument_with device i f ≡ ok f'
      → IsClaimed f
      → IsTurned i f f'
  turn-IsTurned none i f f' found e kept =
      subst (IsTurned i f) (ok-inj e) (kept, omega (arith, times-append k f.missing (i.id ∷ [])))
  turn-IsTurned (some d) i f f' found e kept =
      elim (Bool-cases (same_name (lookup i.kind kinds) (some d.target))) [
        | inr wrong ↦ absurd (
            omega (
              arith,
              err-ok (passed_over _ (same_name (lookup i.kind kinds) (some d.target)) wrong e),
            ))
        | inl same ↦
            let all = All-intro (λ x. Unit) devices (λ x. tt) in
            let own =
              same_mac_eq d.mac i.mac (All-by_mac (λ x. Unit) i.mac devices d all found).1 in
            let read = ap (λ n. same_mac n m) own in
            let macs = any-append (is_instrument m) f.active (plugged_instrument d i ∷ []) in
            let ids = times-append k (instrument_ids f.active) (i.id ∷ []) in
            let names =
              ap (times k) (instrument_ids-append f.active (plugged_instrument d i ∷ [])) in
            subst (IsTurned i f)
              (ok-inj (taken _ (same_name (lookup i.kind kinds) (some d.target)) same e))
              (ground (arith, kept), omega arith)
      ]

  instruments-IsTurned :
      (is : List Instrument) (f g : Found Instrument)
      → find_instruments devices is f ≡ ok g
      → IsClaimed f
      → IsClaimed g × (counted g ≡ counted f + times k (instrument_ids is))
  instruments-IsTurned [] f g e kept =
      subst (λ h. IsClaimed h × (counted h ≡ counted f + 0)) (ok-inj e) (kept, omega arith)
  instruments-IsTurned (i ∷ is) f g e kept =
      let (f', turn, rest) = >>=-eq-ok (instrument_with (by_mac i.mac devices) i f) _ e in
      let (kept', one) = turn-IsTurned (by_mac i.mac devices) i f f' refl turn kept in
      let (kept'', more) = instruments-IsTurned is f' g rest kept' in (kept'', omega arith)

or-false : (b : Bool) → b ≡ b || false
or-false true = refl
or-false false = refl

filter-same :
    (p q : Device → Bool) (xs : List Device)
    → ((d : Device) → p d ≡ q d)
    → filter p xs ≡ filter q xs
filter-same p q [] h = refl
filter-same p q (x ∷ xs) h = ground (arith, h x, filter-same p q xs h)

abbrev assembled : List Device → Found Instrument → Found Board → InventoryResult
assembled devices seen found = record {
  boards = found.active;
  missing = found.missing;
  unregistered = filter (λ d. not (is_in d.mac found.claimed)) devices;
  instruments = seen.active;
  missing_instruments = seen.missing;
}

-- Every name is accounted for, the active boards are there, and what nobody has is unregistered.
abbrev pub IsReconciled :
    List Board → List Device → List Instrument → String → InventoryResult → Type 0
IsReconciled registered devices instruments k r =
    (times k (board_ids r.boards) + times k r.missing ≡ times k (board_ids registered))
    × (times k (instrument_ids r.instruments) + times k r.missing_instruments
        ≡ times k (instrument_ids instruments))
    × All (IsPlugged devices) r.boards
    × (r.unregistered
        ≡ filter (λ d. not (any (is_instrument d.mac) r.instruments || any (holds d.mac) r.boards))
            devices)

assembled-IsReconciled :
    (chips : List (String × String)) (registered : List Board) (devices : List Device)
    (instruments : List Instrument) (seen : Found Instrument) (found : Found Board) (k : String)
    → AreNormal devices
    → find_instruments devices instruments (none_found []) ≡ ok seen
    → find_boards chips devices registered (none_found seen.claimed) ≡ ok found
    → IsReconciled registered devices instruments k (assembled devices seen found)
assembled-IsReconciled chips registered devices instruments seen found k normal first_loop
      second_loop =
    let of_instruments = λ (m : Mac).
      instruments-IsTurned devices k m instruments (none_found []) seen first_loop refl in
    let of_boards = λ (m : Mac).
      loop-IsKept chips devices normal k m (is_in m seen.claimed) registered
        (none_found seen.claimed) found second_loop (or-false (is_in m seen.claimed), tt) in
    (
      omega (arith, (of_boards []).1),
      omega (arith, (of_instruments []).1),
      (of_boards []).0.1,
      filter-same _ _ devices (λ d. ap not (
          (of_boards d.mac).0.0
          ∙ ap (λ b. b || any (holds d.mac) found.active) (of_instruments d.mac).0)),
    )

-- A registry, the devices of a discovery, whose MACs are written as `normalize_mac` writes them, and
-- the instruments are reconciled, and nothing is refused. Then every name stands as often among the
-- active and the missing boards together as among the registered ones, and so for the instruments;
-- every active board has the port, the chip, the target and the MAC of a device that was found; and
-- the unregistered devices are, in their order, those whose MAC no active instrument and no active
-- board has.
pub reconcile-IsReconciled :
    (chips : List (String × String)) (registered : List Board) (devices : List Device)
    (instruments : List Instrument) (r : InventoryResult) (k : String)
    → AreNormal devices
    → reconcile chips registered devices instruments ≡ ok r
    → IsReconciled registered devices instruments k r
unfolding reconcile
reconcile-IsReconciled chips registered devices instruments r k normal e =
    let (seen, first_loop, e1) =
      >>=-eq-ok (find_instruments devices instruments (none_found [])) _ e in
    let (found, second_loop, e2) =
      >>=-eq-ok (find_boards chips devices registered (none_found seen.claimed)) _ e1 in
    subst (IsReconciled registered devices instruments k) (ok-inj e2) (
      assembled-IsReconciled chips registered devices instruments seen found k normal first_loop
        second_loop)

-- ===== src/Inventory/Claims.antt =====
-- What a turn of the loop over the registered boards keeps.
use esp32_rig.Base.{
  ℕ, ◌+◌, ◌≡◌, refl, sym, ap, subst, ◌∙◌, ◌⊎◌, inl, inr, String, Bool, true, ◌||◌, Option, none,
  some, List, [], ◌∷◌, arith, any, lookup, if◌then◌else◌, ◌==◌, eq_iff, Result, ok, err, refuse,
  ok-inj, All, All-append, any-append, Bool-cases, >>=-eq-ok,
}
use esp32_rig.Inventory.{
  Mac, normalize_mac, same_mac, is_in, Device, Board, BoardError, Found, miss, claim, device_of,
  check_mac, are_pairs, check_chip, post_init, plugged, as_error, board_with, find_boards, no_id,
  no_port,
}
use esp32_rig.Inventory.Devices.{
  times, times-append, board_ids, board_ids-append, taken, passed_over, err-ok, same_mac_refl,
  All-device_of, any-each, holds, is_at, IsPlugged, AreNormal,
}

module _ (chips : List (String × String)) where
  -- The board that a device makes of a registered one.
  abbrev renewed : Device → Board → Board
  renewed d b = record (plugged chips d b) { mac = some (normalize_mac d.mac) }

  check_mac-ok :
      (mac : Mac) (found : Option Mac)
      → check_mac chips (some mac) ≡ ok found
      → found ≡ some (normalize_mac mac)
  check_mac-ok mac found e = elim (Bool-cases (are_pairs 5 (normalize_mac mac))) [
    | inl right ↦ sym (ok-inj (taken _ (are_pairs 5 (normalize_mac mac)) right e))
    | inr wrong ↦
        absurd (omega (arith, err-ok (passed_over _ (are_pairs 5 (normalize_mac mac)) wrong e)))
  ]

  post_init-ok :
      (d : Device) (b b' : Board) → post_init chips (plugged chips d b) ≡ ok b' → b' ≡ renewed d b
  unfolding post_init
  post_init-ok d b b' e =
      let (u, c, e1) = >>=-eq-ok (refuse (b.id == "") no_id) _ e in
      let (u', c', e2) = >>=-eq-ok (refuse (d.port == "") no_port) _ e1 in
      let (u'', c'', e3) = >>=-eq-ok (check_chip chips (lookup b.target chips) d.chip) _ e2 in
      let (mac, m, e4) = >>=-eq-ok (check_mac chips (some d.mac)) _ e3 in
      sym (ok-inj e4)
      ∙ ap (λ found. record (plugged chips d b) { mac = found }) (check_mac-ok d.mac mac m)

  as_error-ok : (r : Result BoardError Board) (b : Board) → as_error chips r ≡ ok b → r ≡ ok b
  as_error-ok (ok c) b e = ap ok (ok-inj e)
  as_error-ok (err c) b e = absurd (cc)

  -- A turn of the loop misses the board, or claims a device for it.
  board_with-cases :
      (device : Option Device) (b : Board) (f f' : Found Board)
      → board_with chips device b f ≡ ok f'
      → (f' ≡ miss b.id f)
        ⊎ ((d : Device) × (device ≡ some d)
            × (d.target == b.target ≡ true)
            × (f' ≡ claim d.mac (renewed d b) f))
  unfolding board_with
  board_with-cases none b f f' e = inl (sym (ok-inj e))
  board_with-cases (some d) b f f' e = elim (Bool-cases (d.target == b.target)) [
    | inr wrong ↦ absurd (omega (arith, err-ok (passed_over _ (d.target == b.target) wrong e)))
    | inl same ↦
        let (b', made, e1) =
          >>=-eq-ok (as_error chips (post_init chips (plugged chips d b))) _
            (taken _ (d.target == b.target) same e) in
        let new = post_init-ok d b b' (as_error-ok (post_init chips (plugged chips d b)) b' made) in
        inr (d, refl, same, sym (ok-inj e1) ∙ ap (λ c. claim d.mac c f) new)
  ]

  -- What the loop keeps, for a name, a MAC and the devices.
  abbrev pub tally : String → Found Board → ℕ
  tally k f = times k (board_ids f.active) + times k f.missing

  module _ (devices : List Device) (normal : AreNormal devices) (k : String) (m : Mac) where
    abbrev pub IsKept : Bool → Found Board → Type 0
    IsKept start f =
        (is_in m f.claimed ≡ start || any (holds m) f.active) × All (IsPlugged devices) f.active

    at_device :
        (d : Device) (b : Board)
        → d.target == b.target ≡ true
        → normalize_mac d.mac ≡ d.mac
        → (is_at (renewed d b) d ≡ true → IsPlugged devices (renewed d b))
        → IsPlugged devices (renewed d b)
    at_device d b same own found =
        let read : same_mac (normalize_mac d.mac) d.mac ≡ true =
          ap (λ n. same_mac n d.mac) own ∙ same_mac_refl d.mac in
        found (ground (arith, eq_iff d.port d.port, eq_iff d.chip d.chip))

    turn-IsKept :
        (start : Bool) (b : Board) (f f' : Found Board)
        → board_with chips (device_of b f.claimed devices) b f ≡ ok f'
        → IsKept start f
        → IsKept start f' × (tally k f' ≡ tally k f + (if b.id == k then 1 else 0))
    turn-IsKept start b f f' e kept =
        elim (board_with-cases (device_of b f.claimed devices) b f f' e) [
          | inl missed ↦
              subst (λ g. IsKept start g × (tally k g ≡ tally k f + (if b.id == k then 1 else 0)))
                (sym missed) (kept, omega (arith, times-append k f.missing (b.id ∷ [])))
          | inr (d, found, same, done) ↦
              let own =
                All-device_of (λ x. normalize_mac x.mac ≡ x.mac) b f.claimed devices d normal
                  found in
              let plug = at_device d b same own (
                All-device_of _ b f.claimed devices d (any-each (is_at (renewed d b)) devices)
                  found) in
              let read : same_mac (normalize_mac d.mac) m ≡ same_mac d.mac m =
                ap (λ n. same_mac n m) own in
              let macs = any-append (holds m) f.active (renewed d b ∷ []) in
              let ids = times-append k (board_ids f.active) (b.id ∷ []) in
              let names = ap (times k) (board_ids-append f.active (renewed d b ∷ [])) in
              subst (λ g. IsKept start g × (tally k g ≡ tally k f + (if b.id == k then 1 else 0)))
                (sym done)
                (
                  (
                    ground (arith, kept.0),
                    All-append (IsPlugged devices) f.active (renewed d b ∷ []) kept.1 (plug, tt),
                  ),
                  omega arith,
                )
        ]

    pub loop-IsKept :
        (start : Bool) (bs : List Board) (f g : Found Board)
        → find_boards chips devices bs f ≡ ok g
        → IsKept start f
        → IsKept start g × (tally k g ≡ tally k f + times k (board_ids bs))
    unfolding find_boards
    loop-IsKept start [] f g e kept =
        subst (λ h. IsKept start h × (tally k h ≡ tally k f + 0)) (ok-inj e) (kept, omega arith)
    loop-IsKept start (b ∷ bs) f g e kept =
        let (f', turn, rest) =
          >>=-eq-ok (board_with chips (device_of b f.claimed devices) b f) _ e in
        let (kept', one) = turn-IsKept start b f f' turn kept in
        let (kept'', more) = loop-IsKept start bs f' g rest kept' in (kept'', omega arith)

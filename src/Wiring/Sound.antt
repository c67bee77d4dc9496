-- ===== src/Wiring/Sound.antt =====
-- What holds of the wiring that is accepted.
use esp32_rig.Base.{
  ℕ, ◌≡◌, refl, subst, ap, ◌∙◌, String, true, false, ◌||◌, some, List, [], ◌∷◌, ◌++◌, arith, All,
  Option-cases, ◌⊎◌, inl, inr, map,
}
use esp32_rig.Wiring.{
  PinTables, Channel, Wire, Instrument, Board, Checked, Refusal, fine, refused, Landed, is_in,
  is_landed, land, board_named, esp32_io_channels, check_wireable, can_drive, check_end,
  check_board, check_wires, check_instruments, validate_instruments,
}

abbrev pub wires : List Instrument → List (String × Wire)
wires [] = []
wires (i ∷ is) = map (λ w. (i.id, w)) i.wiring ++ wires is

-- Each wire lands on a pin that none before it has.
abbrev pub IsApart : List (String × Wire) → Landed → Type 0
IsApart [] landed = Unit {0}
IsApart ((id, w) ∷ ws) landed = (is_landed w landed ≡ false) × IsApart ws (land id w landed)

abbrev pub land_all : List (String × Wire) → Landed → Landed
land_all [] landed = landed
land_all ((id, w) ∷ ws) landed = land_all ws (land id w landed)

IsApart-append :
    (xs ys : List (String × Wire)) (landed : Landed)
    → IsApart xs landed
    → IsApart ys (land_all xs landed)
    → IsApart (xs ++ ys) landed
IsApart-append [] ys landed a b = b
IsApart-append ((id, w) ∷ xs) ys landed a b = (a.0, IsApart-append xs ys (land id w landed) a.1 b)

-- No channel is wired twice.
abbrev pub IsOnce : List ℕ → List Wire → Type 0
IsOnce used [] = Unit {0}
IsOnce used (w ∷ ws) = (is_in used w.channel ≡ false) × IsOnce (w.channel ∷ used) ws

-- A channel, a registered board, a pin that may be wired, and a side that can drive.
pub record IsSafe (tables : PinTables) (boards : List Board) (w : Wire) : Type 0 where
  pub ch : Channel
  pub board : Board
  pub has_channel : esp32_io_channels w.channel ≡ some ch
  pub registered : board_named w.board boards ≡ some board
  pub pin : check_wireable tables board.target w.pin ≡ true
  pub driven : ch.drive || can_drive tables board.target w.pin ≡ true

Checked-cases :
    (r : Checked Landed) → ((why : Refusal) × (r ≡ refused why)) ⊎ ((a : Landed) × (r ≡ fine a))
Checked-cases (refused why) = inl (why, refl)
Checked-cases (fine a) = inr (a, refl)

module _ (tables : PinTables) (boards : List Board) where
  check_end-lands :
      (id : String) (ch : Channel) (w : Wire) (landed after : Landed)
      → esp32_io_channels w.channel ≡ some ch
      → check_end tables boards id ch w landed ≡ fine after
      → IsSafe tables boards w × (is_landed w landed ≡ false) × (after ≡ land id w landed)
  unfolding check_end
  check_end-lands id ch w landed after c e = elim (Option-cases (board_named w.board boards)) [
    | inl b ↦ absurd (ground arith)
    | inr (b, found) ↦ (
      record {
        ch = ch;
        board = b;
        has_channel = c;
        registered = found;
        pin = ground arith;
        driven = ground arith;
      },
      ground arith,
      ground arith,
    )
  ]

  check_wires-lands :
      (id : String) (used : List ℕ) (ws : List Wire) (landed after : Landed)
      → check_wires tables (some boards) id used ws landed ≡ fine after
      → (All (IsSafe tables boards) ws × IsOnce used ws)
        × IsApart (map (λ w. (id, w)) ws) landed
        × (after ≡ land_all (map (λ w. (id, w)) ws) landed)
  unfolding check_wires check_board
  check_wires-lands id used [] landed after e = ((tt, tt), tt, ground arith)
  check_wires-lands id used (w ∷ ws) landed after e =
      elim (Option-cases (esp32_io_channels w.channel)) [
        | inl none_there ↦ absurd (ground arith)
        | inr (ch, c) ↦ elim (Checked-cases (check_end tables boards id ch w landed)) [
          | inl (why, r) ↦ absurd (ground arith)
          | inr (next, f) ↦
              let (safe, apart, same) = check_end-lands id ch w landed next c f in
              let (all, rest, last) =
                check_wires-lands id (w.channel ∷ used) ws next after (ground arith) in
              (
                ((safe, all.0), (ground arith, all.1)),
                (apart, subst (IsApart (map (λ v. (id, v)) ws)) same rest),
                last ∙ ap (land_all (map (λ v. (id, v)) ws)) same,
              )
        ]
      ]

  -- What is accepted of one instrument.
  abbrev pub IsSound : Instrument → Type 0
  IsSound i = All (IsSafe tables boards) i.wiring × IsOnce [] i.wiring

  check_instruments-lands :
      (is : List Instrument) (landed after : Landed)
      → check_instruments tables (some boards) is landed ≡ fine after
      → All IsSound is × IsApart (wires is) landed
  unfolding check_instruments
  check_instruments-lands [] landed after e = (tt, tt)
  check_instruments-lands (i ∷ is) landed after e =
      elim (Checked-cases (check_wires tables (some boards) i.id [] i.wiring landed)) [
        | inl (why, r) ↦ absurd (ground arith)
        | inr (next, f) ↦
            let (sound, apart, same) = check_wires-lands i.id [] i.wiring landed next f in
            let (all, rest) = check_instruments-lands is next after (ground arith) in
            (
              (sound, all),
              IsApart-append (map (λ w. (i.id, w)) i.wiring) (wires is) landed apart
                  (subst (IsApart (wires is)) same rest),
            )
      ]

  -- Of instruments that are accepted against the registered boards: every wire joins a channel that
  -- the instrument has to a wireable pin of a registered board, and one of the two can drive it; no
  -- channel of an instrument is wired twice; and no pin of a board has two wires, of one instrument
  -- or of two.
  pub validate_instruments-IsSound :
      (is accepted : List Instrument)
      → validate_instruments tables (some boards) is ≡ fine accepted
      → (accepted ≡ is) × All IsSound is × IsApart (wires is) []
  unfolding validate_instruments
  validate_instruments-IsSound is accepted e =
      elim (Checked-cases (check_instruments tables (some boards) is [])) [
        | inl (why, r) ↦ absurd (ground arith)
        | inr (after, f) ↦
            let (sound, apart) = check_instruments-lands is [] after f in
            (ground arith, sound, apart)
      ]

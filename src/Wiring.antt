-- ===== src/Wiring.antt =====
-- core/alteriom_hil/instrument_registry.py and pins.py: instruments, the jumpers from their channels
-- to the pins of boards, and what is refused of them. The tables of pins come from the descriptors of
-- the families (core/alteriom_hil/devices/families), and are a parameter.
pub mod Sound
mod Tests
use esp32_rig.Base.{
  ℕ, String, Bool, true, false, not, ◌&&◌, ◌||◌, Option, none, some, List, [], ◌∷◌, any, all, first,
  eqb, if◌then◌else◌, ◌==◌, map,
}

-- WIREABLE_PINS and INPUT_ONLY_PINS; a family may have no table of the first.
pub record PinTables : Type 0 where
  pub wireable : String → Option (List ℕ)
  pub input_only : String → List ℕ

pub record Channel : Type 0 where
  pub pin : ℕ
  pub drive : Bool
  pub pull : Bool
  pub adc : Bool

abbrev pub is_in : List ℕ → ℕ → Bool
is_in pins n = any (eqb n) pins

abbrev pub plain_pins : List ℕ
plain_pins = 4 ∷ 13 ∷ 14 ∷ 16 ∷ 17 ∷ 18 ∷ 19 ∷ 21 ∷ 22 ∷ 23 ∷ 25 ∷ 26 ∷ 27 ∷ []

abbrev pub sense_pins : List ℕ
sense_pins = 34 ∷ 35 ∷ 36 ∷ 39 ∷ []

abbrev pub channel : ℕ → Bool → Bool → Bool → Channel
channel pin drive pull adc = record { pin = pin; drive = drive; pull = pull; adc = adc }

-- The table of the one kind of instrument, esp32-io.
unfoldable pub esp32_io_channels : ℕ → Option Channel
esp32_io_channels n =
    if is_in plain_pins n
    then some (channel n true true false)
    else if is_in (32 ∷ 33 ∷ []) n
    then some (channel n true true true)
    else if is_in sense_pins n
    then some (channel n false false true)
    else none

pub record Wire : Type 0 where
  pub channel : ℕ
  pub board : String
  pub pin : ℕ

pub record Instrument : Type 0 where
  pub id : String
  pub mac : String
  pub wiring : List Wire

-- A registered board, as the checks read it.
pub record Board : Type 0 where
  pub id : String
  pub target : String
  pub mac : Option String

-- Why a file of instruments is refused.
pub data Refusal : Type 0 where
  duplicate_ids duplicate_macs mac_of_board id_of_board : Refusal
  no_channel wired_twice not_registered not_wireable nothing_drives pin_taken : Wire → Refusal

pub data Checked (A : Type 0) : Type 0 where
  fine : A → Checked A
  refused : Refusal → Checked A

-- What each end of a wire was given to.
abbrev pub Landed : Type 0
Landed = List ((String × ℕ) × (String × ℕ))

abbrev pub is_landed : Wire → Landed → Bool
is_landed w = any (λ e. (e.0.0 == w.board) && eqb e.0.1 w.pin)

abbrev pub land : String → Wire → Landed → Landed
land id w landed = ((w.board, w.pin), (id, w.channel)) ∷ landed

-- The first of an id; `load_registry` refuses two boards of one id.
abbrev pub board_named : String → List Board → Option Board
board_named k = first (λ b. b.id == k)

abbrev pub has_twice : List String → Bool
has_twice [] = false
has_twice (k ∷ ks) = any (λ j. j == k) ks || has_twice ks

-- Board MACs are in lower case here, as the registry's comparison makes them.
abbrev pub board_has_mac : String → Board → Bool
board_has_mac mac b = elim b.mac [ none ↦ false | some m ↦ m == mac ]

-- The first instrument, by position, that is a board too.
abbrev pub check_identities : List Board → List Instrument → Option Refusal
check_identities boards [] = none
check_identities boards (i ∷ is) =
    let rest = check_identities boards is in
    if any (board_has_mac i.mac) boards
    then some mac_of_board
    else if any (λ b. b.id == i.id) boards
    then some id_of_board
    else rest

abbrev pub check_registered : Option (List Board) → List Instrument → Option Refusal
check_registered registered is = elim registered [
  | none ↦ none
  | some boards ↦ check_identities boards is
]

module _ (tables : PinTables) where
  unfoldable pub check_wireable : String → ℕ → Bool
  check_wireable target pin = elim (tables.wireable target) [
    | none ↦ false
    | some pins ↦ is_in pins pin
  ]

  unfoldable pub can_drive : String → ℕ → Bool
  can_drive target pin = not (is_in (tables.input_only target) pin)

  -- The checks of one wire against the registered boards.
  unfoldable pub check_end : List Board → String → Channel → Wire → Landed → Checked Landed
  unfolding check_wireable can_drive
  check_end boards id ch w landed = elim (board_named w.board boards) [
    | none ↦ refused (not_registered w)
    | some b ↦
        if not (check_wireable b.target w.pin)
        then refused (not_wireable w)
        else if not ch.drive && not (can_drive b.target w.pin)
        then refused (nothing_drives w)
        else if is_landed w landed
        then refused (pin_taken w)
        else fine (land id w landed)
  ]

  unfoldable pub check_board :
      Option (List Board) → String → Channel → Wire → Landed → Checked Landed
  unfolding check_end
  check_board registered id ch w landed = elim registered [
    | none ↦ fine landed
    | some boards ↦ check_end boards id ch w landed
  ]

  unfoldable pub check_wires :
      Option (List Board) → String → List ℕ → List Wire → Landed → Checked Landed
  unfolding check_board esp32_io_channels
  check_wires registered id used [] landed = fine landed
  check_wires registered id used (w ∷ ws) landed = elim (esp32_io_channels w.channel) [
    | none ↦ refused (no_channel w)
    | some ch ↦
        if is_in used w.channel
        then refused (wired_twice w)
        else elim (check_board registered id ch w landed) [
          | refused why ↦ refused why
          | fine after ↦ check_wires registered id (w.channel ∷ used) ws after
        ]
  ]

  unfoldable pub check_instruments : Option (List Board) → List Instrument → Landed → Checked Landed
  unfolding check_wires
  check_instruments registered [] landed = fine landed
  check_instruments registered (i ∷ is) landed =
      elim (check_wires registered i.id [] i.wiring landed) [
        | refused why ↦ refused why
        | fine after ↦ check_instruments registered is after
      ]

  unfoldable pub validate_instruments :
      Option (List Board) → List Instrument → Checked (List Instrument)
  unfolding check_instruments
  validate_instruments registered is =
      if has_twice (map (λ i. i.id) is)
      then refused duplicate_ids
      else if has_twice (map (λ i. i.mac) is)
      then refused duplicate_macs
      else elim (check_registered registered is) [
        | some why ↦ refused why
        | none ↦ elim (check_instruments registered is []) [
          | refused why ↦ refused why
          | fine _ ↦ fine is
        ]
      ]

-- ===== src/Wiring/Tests.antt =====
-- Two instruments on two boards.
use esp32_rig.Base.{ℕ, ◌≡◌, refl, String, none, some, List, [], ◌∷◌, All}
use esp32_rig.Wiring.{
  PinTables, Wire, Instrument, Board, refused, pin_taken, esp32_io_channels, check_wireable,
  can_drive, check_end, check_board, check_wires, check_instruments, validate_instruments,
}
use esp32_rig.Wiring.Sound.{IsSound, IsApart, wires, validate_instruments-IsSound}

abbrev tables : PinTables
tables = record { wireable = λ target. some (4 ∷ 5 ∷ 18 ∷ []); input_only = λ target. 5 ∷ [] }

abbrev boards : List Board
boards = record { id = "c6-1"; target = "esp32-c6"; mac = none } ∷ []

abbrev wire : ℕ → ℕ → Wire
wire channel pin = record { channel = channel; board = "c6-1"; pin = pin }

abbrev instrument : String → List Wire → Instrument
instrument id ws = record { id = id; mac = id; wiring = ws }

abbrev both : List Instrument
both = instrument "io-1" (wire 4 4 ∷ wire 34 18 ∷ []) ∷ instrument "io-2" (wire 13 5 ∷ []) ∷ []

validate_instruments-IsSound_example :
    (both ≡ both) × All (IsSound tables boards) both × IsApart (wires both) []
unfolding validate_instruments check_instruments check_wires check_board check_end check_wireable
    can_drive esp32_io_channels
validate_instruments-IsSound_example = validate_instruments-IsSound tables boards both both refl

-- Both ends of the last wire would be in use.
clash :
    validate_instruments tables
      (some boards)
      (instrument "io-1" (wire 4 4 ∷ []) ∷ instrument "io-2" (wire 13 4 ∷ []) ∷ [])
    ≡ refused (pin_taken (wire 13 4))
unfolding validate_instruments check_instruments check_wires check_board check_end check_wireable
    can_drive esp32_io_channels
clash = refl

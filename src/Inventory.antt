-- ===== src/Inventory.antt =====
-- core/alteriom_hil/board_registry.py and board.py: the boards that a rig has registered, matched
-- with the devices that a discovery found on its ports. A MAC address is the list of its characters'
-- code points, which are ASCII. The chips of the families come from their descriptors
-- (core/alteriom_hil/devices/families), and are a parameter.
pub mod Devices
pub mod Claims
pub mod Reconciled
mod Tests
use esp32_rig.Base.{
  ℕ, zero, suc, ◌+◌, String, Bool, true, false, not, ◌&&◌, ◌||◌, Option, none, some, List, [], ◌∷◌,
  ◌++◌, map, any, first, filter, lookup, eqb, leb, same_name, if◌then◌else◌, ◌==◌, Result, ok, err,
  ◌>>=◌, ◌>>◌, refuse,
}

abbrev pub Mac : Type 0
Mac = List ℕ

-- What `str.strip` takes off.
abbrev pub is_space : ℕ → Bool
is_space c = (leb 9 c && leb c 13) || (leb 28 c && leb c 32)

-- `str.lower`
abbrev pub lower : ℕ → ℕ
lower c = if leb 65 c && leb c 90 then c + 32 else c

-- "-" made ":"
abbrev pub colon : ℕ → ℕ
colon c = if eqb c 45 then 58 else c

abbrev pub left_strip : Mac → Mac
left_strip [] = []
left_strip (c ∷ cs) = let rest = left_strip cs in if is_space c then rest else c ∷ cs

-- A character put before a text that has been stripped on the right.
abbrev pub before : ℕ → Mac → Mac
before c [] = if is_space c then [] else c ∷ []
before c (d ∷ ds) = c ∷ d ∷ ds

abbrev pub right_strip : Mac → Mac
right_strip [] = []
right_strip (c ∷ cs) = before c (right_strip cs)

unfoldable pub normalize_mac : Mac → Mac
normalize_mac mac = map colon (map lower (right_strip (left_strip mac)))

abbrev pub same_mac : Mac → Mac → Bool
same_mac [] [] = true
same_mac (c ∷ cs) (d ∷ ds) = eqb c d && same_mac cs ds
same_mac _ _ = false

abbrev pub is_in : Mac → List Mac → Bool
is_in mac macs = any (λ m. same_mac m mac) macs

abbrev pub is_hex : ℕ → Bool
is_hex c = (leb 48 c && leb c 57) || (leb 97 c && leb c 102)

-- `[0-9a-f]{2}` and then `:[0-9a-f]{2}` so many times, to the end.
abbrev pub are_pairs : ℕ → Mac → Bool
are_pairs zero (a ∷ b ∷ []) = is_hex a && is_hex b
are_pairs (suc n) (a ∷ b ∷ c ∷ rest) = is_hex a && is_hex b && eqb c 58 && are_pairs n rest
are_pairs _ _ = false

pub record Device : Type 0 where
  pub port : String
  pub chip : String
  pub target : String
  pub mac : Mac
  pub usb_path : Option String
  pub usb_serial : Option String
  pub transport : Option String

pub record Board : Type 0 where
  pub id : String
  pub port : String
  pub chip : String
  pub baud : ℕ
  pub flash_baud : ℕ
  pub target : String
  pub mac : Option Mac
  pub usb_path : Option String
  pub power_hub : Option String
  pub power_port : Option ℕ
  pub tags : List String

-- The checks of an instrument passed when it was made, and do not read what is replaced here.
pub record Instrument : Type 0 where
  pub id : String
  pub kind : String
  pub mac : Mac
  pub port : String
  pub usb_path : Option String

-- `KINDS`, by the chip family of each.
abbrev pub kinds : List (String × String)
kinds = ("esp32-io", "esp32") ∷ []

pub data BoardError : Type 0 where
  no_id no_port unsupported_target wrong_chip invalid_mac : BoardError

pub data ReconcileError : Type 0 where
  wrong_instrument : Instrument → Device → ReconcileError
  wrong_board : Board → Device → ReconcileError
  board_error : BoardError → ReconcileError

pub record InventoryResult : Type 0 where
  pub boards : List Board
  pub missing : List String
  pub unregistered : List Device
  pub instruments : List Instrument
  pub missing_instruments : List String

-- `{device.mac: device}`: of two with one MAC, the last.
abbrev pub by_mac : Mac → List Device → Option Device
by_mac mac [] = none
by_mac mac (d ∷ ds) = elim (by_mac mac ds) [
  | some e ↦ some e
  | none ↦ if same_mac d.mac mac then some d else none
]

-- `if board.mac`
abbrev pub has_mac : Option Mac → Bool
has_mac none = false
has_mac (some []) = false
has_mac (some (c ∷ cs)) = true

-- What the loops have claimed, found and missed so far.
pub record Found (A : Type 0) : Type 0 where
  pub claimed : List Mac
  pub active : List A
  pub missing : List String

abbrev pub none_found : {A : Type 0} → List Mac → Found A
none_found macs = record { claimed = macs; active = []; missing = [] }

abbrev pub miss : {A : Type 0} → String → Found A → Found A
miss id f = record f { missing = f.missing ++ id ∷ [] }

abbrev pub claim : {A : Type 0} → Mac → A → Found A → Found A
claim mac a f = record f { claimed = mac ∷ f.claimed; active = f.active ++ a ∷ [] }

abbrev pub plugged_instrument : Device → Instrument → Instrument
plugged_instrument d i = record i { port = d.port; usb_path = d.usb_path }

abbrev pub instrument_with :
    Option Device → Instrument → Found Instrument → Result ReconcileError (Found Instrument)
instrument_with none i f = ok (miss i.id f)
instrument_with (some d) i f =
    if same_name (lookup i.kind kinds) (some d.target)
    then ok (claim d.mac (plugged_instrument d i) f)
    else err (wrong_instrument i d)

abbrev pub find_instruments :
    List Device → List Instrument → Found Instrument → Result ReconcileError (Found Instrument)
find_instruments devices [] f = ok f
find_instruments devices (i ∷ rest) f = do
  f' ← instrument_with (by_mac i.mac devices) i f
  find_instruments devices rest f'

abbrev pub is_free_at : String → List Mac → Device → Bool
is_free_at port claimed d = d.port == port && not (is_in d.mac claimed)

abbrev pub mac_device : Option Mac → List Device → Option Device
mac_device none devices = none
mac_device (some mac) devices = by_mac (normalize_mac mac) devices

-- By the MAC of a board that has one, by the port of one that has none.
abbrev pub device_of : Board → List Mac → List Device → Option Device
device_of b claimed devices =
    if has_mac b.mac then mac_device b.mac devices else first (is_free_at b.port claimed) devices

module _ (chips : List (String × String)) where
  abbrev pub check_mac : Option Mac → Result BoardError (Option Mac)
  check_mac none = ok none
  check_mac (some mac) =
      if are_pairs 5 (normalize_mac mac) then ok (some (normalize_mac mac)) else err invalid_mac

  abbrev pub check_chip : Option String → String → Result BoardError (Unit {0})
  check_chip none chip = err unsupported_target
  check_chip (some expected) chip = refuse (not (chip == expected)) wrong_chip

  -- `Board.__post_init__`
  unfoldable pub post_init : Board → Result BoardError Board
  post_init b = do
    refuse (b.id == "") no_id
    refuse (b.port == "") no_port
    check_chip (lookup b.target chips) b.chip
    mac ← check_mac b.mac
    ok (record b { mac = mac })

  abbrev pub plugged : Device → Board → Board
  plugged d b = record b { port = d.port; chip = d.chip; mac = some d.mac; usb_path = d.usb_path }

  abbrev pub as_error : Result BoardError Board → Result ReconcileError Board
  as_error (ok b) = ok b
  as_error (err e) = err (board_error e)

  abbrev pub board_with : Option Device → Board → Found Board → Result ReconcileError (Found Board)
  unfolding post_init
  board_with none b f = ok (miss b.id f)
  board_with (some d) b f =
      if d.target == b.target
      then (do b' ← as_error (post_init (plugged d b)); ok (claim d.mac b' f))
      else err (wrong_board b d)

  abbrev pub find_boards :
      List Device → List Board → Found Board → Result ReconcileError (Found Board)
  unfolding post_init
  find_boards devices [] f = ok f
  find_boards devices (b ∷ rest) f = do
    f' ← board_with (device_of b f.claimed devices) b f
    find_boards devices rest f'

  -- Instruments first.
  unfoldable pub reconcile :
      List Board → List Device → List Instrument → Result ReconcileError InventoryResult
  unfolding board_with find_boards
  reconcile registered devices instruments = do
    seen ← find_instruments devices instruments (none_found [])
    found ← find_boards devices registered (none_found seen.claimed)
    ok (record {
      boards = found.active;
      missing = found.missing;
      unregistered = filter (λ d. not (is_in d.mac found.claimed)) devices;
      instruments = seen.active;
      missing_instruments = seen.missing;
    })

-- ===== src/Inventory/Tests.antt =====
-- A rig with an instrument, a board known by its MAC and one known by its port.
use esp32_rig.Base.{ℕ, ◌≡◌, refl, String, Option, none, some, List, [], ◌∷◌, map, ok, Result}
use esp32_rig.Inventory.{
  Mac, Device, Board, Instrument, InventoryResult, ReconcileError, normalize_mac, reconcile,
  plugged,
}
use esp32_rig.Inventory.Reconciled.{IsReconciled, reconcile-IsReconciled}

-- "aa:aa:aa:aa:aa:0n", and as an operator may write it.
abbrev mac : ℕ → Mac
mac n = 97 ∷ 97 ∷ 58 ∷ 97 ∷ 97 ∷ 58 ∷ 97 ∷ 97 ∷ 58 ∷ 97 ∷ 97 ∷ 58 ∷ 97 ∷ 97 ∷ 58 ∷ 48 ∷ n ∷ []

abbrev typed : ℕ → Mac
typed n =
    32 ∷ 65 ∷ 97 ∷ 45 ∷ 97 ∷ 65 ∷ 45 ∷ 97 ∷ 97 ∷ 58 ∷ 65 ∷ 65 ∷ 58 ∷ 97 ∷ 97 ∷ 45 ∷ 48 ∷ n ∷ 10 ∷ []

as_typed : normalize_mac (typed 49) ≡ mac 49
unfolding normalize_mac
as_typed = refl

abbrev device : String → Mac → Device
device port m = record {
  port = port;
  chip = "esp32";
  target = "esp32";
  mac = m;
  usb_path = none;
  usb_serial = none;
  transport = none;
}

abbrev board : String → String → Option Mac → Board
board id port m = record {
  id = id;
  port = port;
  chip = "esp32";
  baud = 115200;
  flash_baud = 460800;
  target = "esp32";
  mac = m;
  usb_path = none;
  power_hub = none;
  power_port = none;
  tags = [];
}

abbrev instrument : Instrument
instrument = record { id = "io"; kind = "esp32-io"; mac = mac 49; port = ""; usb_path = none }

abbrev chips : List (String × String)
chips = ("esp32", "esp32") ∷ []

abbrev devices : List Device
devices = device "p1" (mac 49) ∷ device "p2" (mac 50) ∷ device "p3" (mac 51) ∷ []

-- The instrument's port is no board's; one board's port is stale, and one is not there.
abbrev registered : List Board
registered =
    board "one" "p1" none ∷ board "two" "p9" (some (typed 50)) ∷ board "three" "p2" none ∷ []

abbrev found : InventoryResult
found = record {
  boards = plugged chips (device "p2" (mac 50)) (board "two" "p9" none) ∷ [];
  missing = "one" ∷ "three" ∷ [];
  unregistered = device "p3" (mac 51) ∷ [];
  instruments = record instrument { port = "p1" } ∷ [];
  missing_instruments = [];
}

reconcile-IsReconciled_example : IsReconciled registered devices (instrument ∷ []) "one" found
unfolding normalize_mac reconcile
reconcile-IsReconciled_example =
    reconcile-IsReconciled chips registered devices (instrument ∷ []) found "one"
      (refl, (refl, (refl, tt))) refl

-- A board known by its port, registered before the board whose MAC the device there has: both are
-- active on the one device.
abbrev claimed_twice : Result ReconcileError InventoryResult
unfolding reconcile
claimed_twice =
    reconcile chips (board "one" "p2" none ∷ board "two" "p2" (some (mac 50)) ∷ [])
      (device "p2" (mac 50) ∷ []) []

abbrev ports : Result ReconcileError InventoryResult → List (String × String)
ports (ok r) = map {B = String × String} (λ b. (b.id, b.port)) r.boards
ports _ = []

both_active : ports claimed_twice ≡ ("one", "p2") ∷ ("two", "p2") ∷ []
unfolding normalize_mac claimed_twice reconcile
both_active = refl

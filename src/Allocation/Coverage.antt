-- ===== src/Allocation/Coverage.antt =====
-- allocation.py: what a run did not exercise, from the boards that it got.
pub mod Fits
use esp32_rig.Base.{
  ℕ, min, String, Bool, true, false, ◌&&◌, List, [], ◌∷◌, ltb, if◌then◌else◌, length, take, filter,
  subset, sorted_set, ◌==◌,
}
use esp32_rig.Allocation.{Board, Need}
use esp32_rig.Allocation.Needs.{remove_board, remove_boards}

-- A need that the boards do not meet.
pub record Shortage : Type 0 where
  pub target : String
  pub wanted : ℕ
  pub got : ℕ
  pub tags : List String
  pub optional : Bool

-- A hold makes no difference to a run that has its boards.
abbrev pub covers : Need → Board → Bool
covers n b = b.target == n.target && subset n.tags b.tags

abbrev pub shortage : Need → ℕ → Shortage
shortage n got = record {
  target = n.target;
  wanted = n.count;
  got = got;
  tags = sorted_set n.tags;
  optional = n.optional;
}

unfoldable pub coverage : List Need → List Board → List Shortage
unfolding remove_board
coverage [] pool = []
coverage (n ∷ ns) pool =
    let matching = filter (covers n) pool in
    let got = min (length matching) n.count in
    let rest = coverage ns (remove_boards (take got matching) pool) in
    if ltb got n.count then shortage n got ∷ rest else rest

-- ===== src/Allocation/Needs.antt =====
-- allocation.py: what one need asks of a set of boards, and whether an idle rig has it all.
use esp32_rig.Base.{
  ℕ, min, String, Bool, true, false, not, ◌&&◌, Option, none, some, List, [], ◌∷◌, map, ltb,
  if◌then◌else◌, is_some, length, take, filter, subset, same_name, same_texts, ◌==◌,
}
use esp32_rig.Allocation.{HoldState, reserved, quarantined, Hold, Board, Need, Demand}

abbrev pub ids : List Board → List String
ids = map λ b. b.id

abbrev pub held_out : Board → Bool
held_out b = is_some b.hold

-- `_matches`
unfoldable pub matches : Board → Need → Bool
matches b n = not (held_out b) && (b.target == n.target && subset n.tags b.tags)

-- `_required`
unfoldable pub required : Need → Bool
required n = not n.optional

-- `_take`
unfoldable pub take_count : Need → List Board → ℕ
unfolding required
take_count n boards =
    if required n then n.count else min n.count (length (filter (λ b. matches b n) boards))

-- `_hold`
abbrev pub hold_state : Board → Option HoldState
hold_state b = elim b.hold [ none ↦ none | some h ↦ some h.state ]

abbrev pub is_reserved : Board → Bool
is_reserved b = elim b.hold [
  | none ↦ false
  | some h ↦ elim h.state [ reserved ↦ true | quarantined ↦ false ]
]

abbrev pub same_state : HoldState → HoldState → Bool
same_state reserved reserved = true
same_state quarantined quarantined = true
same_state _ _ = false

abbrev pub same_hold : Option Hold → Option Hold → Bool
same_hold none none = true
same_hold (some a) (some b) = same_state a.state b.state && same_name a.reason b.reason
same_hold _ _ = false

-- Two mappings with equal values.
unfoldable pub same_board : Board → Board → Bool
same_board a b =
    a.id == b.id
    && (a.target == b.target
        && (same_texts a.tags b.tags && (same_hold a.hold b.hold && same_name a.worker b.worker)))

-- `pool.remove(board)`: the first entry of the pool that equals the board.
unfoldable pub remove_board : Board → List Board → List Board
unfolding same_board
remove_board b [] = []
remove_board b (x ∷ pool) =
    let rest = remove_board b pool in if same_board x b then pool else x ∷ rest

abbrev pub remove_boards : List Board → List Board → List Board
remove_boards [] pool = pool
remove_boards (b ∷ bs) pool = remove_boards bs (remove_board b pool)

-- The loop of `_fits_idle` over the needs, on the boards that the earlier ones left.
unfoldable pub needs_fit : List Need → List Board → Bool
unfolding take_count remove_board
needs_fit [] pool = true
needs_fit (n ∷ ns) pool =
    let matching = filter (λ b. matches b n) pool in
    let rest = needs_fit ns (remove_boards (take n.count matching) pool) in
    if ltb (length matching) (take_count n pool) then false else rest

-- `if demand.boards`
abbrev pub names_boards : Demand → Bool
names_boards d = elim d.boards [ [] ↦ false | b ∷ bs ↦ true ]

-- `_fits_idle`
unfoldable pub fits_idle : Demand → List Board → Bool
fits_idle d boards =
    if names_boards d then subset d.boards (ids boards) else needs_fit d.needs boards

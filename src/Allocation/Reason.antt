-- ===== src/Allocation/Reason.antt =====
-- allocation.py: why a run waits. Each sentence the source writes is a constructor, with the values
-- that it interpolates.
use esp32_rig.Base.{
  ℕ, String, Bool, not, ◌&&◌, Option, none, some, List, [], ◌∷◌, map, leb, if◌then◌else◌, length,
  filter, any, first, contains, lookup, sorted_set, ◌==◌,
}
use esp32_rig.Allocation.{Board, Need, Demand, Grant}
use esp32_rig.Allocation.Needs.{ids, matches, take_count, held_out, is_reserved, names_boards}

-- A need that the connected boards do not meet: how many do, and the boards held out of it.
pub record ShortNeed : Type 0 where
  pub need : Need
  pub free : ℕ
  pub out : List Board

pub data Shortfall : Type 0 where
  not_connected : List String → Shortfall
  needs_short : List ShortNeed → Shortfall
  -- `the rig has ...`: the targets of the connected boards.
  rig_has : List String → Shortfall

pub data Reason : Type 0 where
  queue_paused : Reason
  rig_not_connected : String → Reason
  rig_lacks_profile : String → Demand → Reason
  no_worker_runs : Demand → Reason
  -- `queued behind run ... which was queued first and needs ... to itself`
  behind_whole : Demand → String → Reason
  held_alone : String → Grant → Reason
  wait_idle : String → List Grant → Reason
  wait_rediscover : String → Shortfall → Reason
  no_slot : Option String → ℕ → ℕ → Reason
  resource_used : String → Grant → Reason
  behind_resource : Demand → String → Reason
  board_used : String → Grant → Reason
  board_reserved : String → Option String → Reason
  behind_board : Demand → String → Reason
  board_waited : String → Reason
  behind_family : Demand → String → Reason
  family_short : Need → List Grant → Reason
  -- No sentence: the source raises an exception here.
  raised : Reason

abbrev pub short_need : List Board → Need → ShortNeed
short_need boards n = record {
  need = n;
  free = length (filter (λ b. matches b n) boards);
  out = filter (λ b. held_out b && matches (record b { hold = none }) n) boards;
}

-- `'; '.join(short)`, or what the rig has when no need is short by itself.
abbrev pub needs_shortfall : List Need → List Board → Shortfall
needs_shortfall [] boards = rig_has (map (λ b. b.target) boards)
needs_shortfall (n ∷ ns) boards = needs_short (map (short_need boards) (n ∷ ns))

abbrev pub is_short : List Board → Need → Bool
is_short boards n = not (leb (take_count n boards) (length (filter (λ b. matches b n) boards)))

-- `_shortfall`
unfoldable pub shortfall : Demand → List Board → Shortfall
shortfall d boards =
    if names_boards d
    then not_connected (sorted_set (filter (λ k. not (contains k (ids boards))) d.boards))
    else needs_shortfall (filter (is_short boards) d.needs) boards

abbrev pub explain_reserved : Board → Reason
explain_reserved b = board_reserved b.id (elim b.hold [ none ↦ none | some h ↦ h.reason ])

abbrev pub or_else {ℓ} : {A : Type ℓ} → Option A → Option A → Option A
or_else (some a) o = some a
or_else none o = o

-- Whom a named board waits for, when no run holds it and it is not reserved.
unfoldable pub explain_ahead :
    String → List Board → List (String × Demand) → List (String × Demand) → Reason
explain_ahead k boards ahead targets_ahead =
    let by_target = elim (first (λ b. b.id == k) boards) as (λ _. Option Demand) [
      | none ↦ lookup "" targets_ahead
      | some b ↦ lookup b.target targets_ahead
    ] in
    elim (or_else (lookup k ahead) by_target) [ none ↦ board_waited k | some d ↦ behind_board d k ]

unfoldable pub explain_board :
    String
    → List Board
    → List (String × Grant)
    → List (String × Demand)
    → List (String × Demand)
    → Reason
unfolding explain_ahead
explain_board k boards held ahead targets_ahead = elim (lookup k held) [
  | some g ↦ board_used k g
  | none ↦ elim (first (λ b. b.id == k) boards) [
    | none ↦ explain_ahead k boards ahead targets_ahead
    | some b ↦
        if is_reserved b then explain_reserved b else explain_ahead k boards ahead targets_ahead
  ]
]

-- The runs that hold a board which the need could have.
abbrev pub users : Need → List Board → List (String × Grant) → List Grant
users n boards [] = []
users n boards ((k, g) ∷ held) =
    let rest = users n boards held in
    if any (λ b. b.id == k && matches b n) boards then g ∷ rest else rest

unfoldable pub explain_family :
    Demand → String → List Board → List (String × Grant) → List (String × Demand) → Reason
explain_family d t boards held targets_ahead = elim (lookup t targets_ahead) [
  | some ahead ↦ behind_family ahead t
  | none ↦ elim (first (λ n. n.target == t) d.needs) [
    | none ↦ raised
    | some n ↦ family_short n (users n boards held)
  ]
]

-- `_explain`
unfoldable pub explain :
    Demand
    → String
    → List Board
    → List (String × Grant)
    → List (String × Demand)
    → List (String × Demand)
    → Reason
unfolding explain_board explain_family
explain d short boards held ahead targets_ahead =
    if names_boards d
    then explain_board short boards held ahead targets_ahead
    else explain_family d short boards held targets_ahead

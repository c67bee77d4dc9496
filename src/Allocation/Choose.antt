-- ===== src/Allocation/Choose.antt =====
-- allocation.py: the boards that a demand gets, or the family or board that it is short of.
pub mod Sound
use esp32_rig.Base.{
  ℕ, String, Bool, not, ◌&&◌, ◌||◌, none, some, List, [], ◌∷◌, ◌++◌, ltb, eqb, if◌then◌else◌,
  length, take, filter, first, contains, has_key, sorted_set,
}
use esp32_rig.Allocation.{Board, Need, Demand}
use esp32_rig.Allocation.Needs.{ids, matches, take_count, is_reserved, names_boards}

-- `_choose` returns a list of boards or the name of what is short.
pub data Choice : Type 0 where
  chosen : List String → Choice
  short : String → Choice

-- What the boards are chosen against: held by running jobs, and wanted by jobs ahead.
module _ (boards : List Board) (held ahead : List String)
    (targets_ahead : List (String × Demand)) where
  -- A named board that the demand cannot have now.
  unfoldable pub unavailable : String → Bool
  unavailable k =
      contains k held || (contains k ahead || contains k (ids (filter is_reserved boards)))

  unfoldable pub choose_named : List String → Choice
  unfolding unavailable
  choose_named wanted =
      let taken = ids (filter (λ b. contains b.id wanted) boards) in
      elim (first unavailable wanted) [
        | some k ↦ short k
        | none ↦ elim (first (λ b. contains b.id taken && has_key b.target targets_ahead) boards) [
          | some b ↦ short b.id
          | none ↦ chosen (sorted_set taken)
        ]
      ]

  unfoldable pub free_for : Need → List String → List String
  free_for n got = ids (
      filter
        (λ b.
          matches b n
          && (not (contains b.id held) && (not (contains b.id ahead) && not (contains b.id got))))
        boards)

  -- What this need can ask for: boards that an earlier need has not taken.
  unfoldable pub wanted_of : Need → List String → ℕ
  wanted_of n got = take_count n (filter (λ b. not (contains b.id got)) boards)

  -- One round of the loop over the needs.
  unfoldable pub choose_need : Need → List String → Choice
  unfolding free_for wanted_of
  choose_need n got =
      let wanted = wanted_of n got in
      let free = free_for n got in
      if eqb wanted 0
      then chosen got
      else if has_key n.target targets_ahead
      then short n.target
      else if ltb (length free) wanted
      then short n.target
      else chosen (got ++ take wanted free)

  unfoldable pub choose_needs : List Need → List String → Choice
  choose_needs [] got = chosen got
  choose_needs (n ∷ ns) got = elim (choose_need n got) [
    | short k ↦ short k
    | chosen got' ↦ choose_needs ns got'
  ]

  -- `_choose`
  unfoldable pub choose : Demand → Choice
  choose d = if names_boards d then choose_named d.boards else choose_needs d.needs []

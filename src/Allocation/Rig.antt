-- ===== src/Allocation/Rig.antt =====
-- allocation.py, class `_Rig`: one set of boards that a run's allocation must come from entirely.
mod Holders
pub mod Exclusive
use esp32_rig.Base.{
  ◌≡◌, refl, ◌⊎◌, inl, inr, ℕ, max, String, Bool, true, false, not, ◌&&◌, ◌||◌, Option, none, some,
  List, [], ◌∷◌, ◌++◌, leb, eqb, if◌then◌else◌, length, filter, first, contains, subset, lookup,
  put, set_default, sorted_set,
}
use esp32_rig.Allocation.{Board, Need, Demand, Grant}
use esp32_rig.Allocation.Needs.{ids, take_count, held_out, names_boards, fits_idle}
use esp32_rig.Allocation.Choose.{chosen, short, choose}
use esp32_rig.Allocation.Reason.{
  Reason, behind_whole, held_alone, wait_idle, wait_rediscover, no_slot, resource_used,
  behind_resource, shortfall, explain,
}

pub record Rig : Type 0 where
  pub name : Option String
  pub boards : List Board
  pub active : List Grant
  pub limit : ℕ
  pub profiles : Option (List String)
  pub alone_in_farm : Bool
  pub blocked_whole : Option Demand
  pub blocked_targets : List (String × Demand)
  pub blocked_boards : List (String × Demand)
  pub blocked_resources : List (String × Demand)

-- `_Rig.__init__`
unfoldable pub new_rig :
    Option String → List Board → List Grant → ℕ → Option (List String) → Bool → Rig
new_rig name boards active limit profiles alone_in_farm = record {
  name = name;
  boards = boards;
  active = active;
  limit = max 1 limit;
  profiles = profiles;
  alone_in_farm = alone_in_farm;
  blocked_whole = none;
  blocked_targets = [];
  blocked_boards = [];
  blocked_resources = [];
}

abbrev pub word : Rig → String
word r = elim r.name [ none ↦ "the rig" | some n ↦ n ]

unfoldable pub runs_profile : Rig → Demand → Bool
runs_profile r d = elim r.profiles [
  | none ↦ true
  | some known ↦ elim d.profile [ none ↦ true | some p ↦ contains p known ]
]

unfoldable pub has_boards : Rig → Bool
has_boards r = elim r.boards [ [] ↦ false | b ∷ bs ↦ true ]

unfoldable pub eligible : Rig → Demand → Bool
unfolding runs_profile has_boards
eligible r d =
    if not (runs_profile r d)
    then false
    else if names_boards d
    then subset d.boards (ids r.boards)
    else if d.whole_rig
    then has_boards r || r.alone_in_farm
    else fits_idle d r.boards

-- The loops of `block`, over needs, named boards and resources.
unfoldable pub block_targets :
    Demand → List Board → List Need → List (String × Demand) → List (String × Demand)
block_targets d boards [] m = m
block_targets d boards (n ∷ ns) m =
    block_targets d boards ns (if eqb (take_count n boards) 0 then m else set_default n.target d m)

unfoldable pub block_keys : Demand → List String → List (String × Demand) → List (String × Demand)
block_keys d [] m = m
block_keys d (k ∷ ks) m = block_keys d ks (set_default k d m)

unfoldable pub block : Rig → Demand → Bool → Rig
unfolding block_targets block_keys
block r d whole =
    if whole
    then record r { blocked_whole = elim r.blocked_whole [ none ↦ some d | some e ↦ some e ] }
    else record r {
      blocked_targets = block_targets d r.boards d.needs r.blocked_targets;
      blocked_boards = block_keys d d.boards r.blocked_boards;
      blocked_resources = block_keys d d.resources r.blocked_resources;
    }

-- `attempt` returns a grant, or why not and whether it holds the whole rig back.
pub data Outcome : Type 0 where
  granted : Grant → Outcome
  refused : Reason → Bool → Outcome

pub Outcome-cases :
    (o : Outcome)
    → ((g : Grant) × (o ≡ granted g)) ⊎ ((why : Reason) × (whole : Bool) × (o ≡ refused why whole))
Outcome-cases (granted g) = inl (g, refl)
Outcome-cases (refused why whole) = inr (why, whole, refl)

abbrev pub all_resources : List String
all_resources = "gateway" ∷ "mqtt" ∷ []

abbrev pub all_boards : Rig → List String
all_boards r = ids (filter (λ b. not (held_out b)) r.boards)

unfoldable pub grant_alone : Rig → Demand → List String → Grant
grant_alone r d picked = record {
  job_id = d.job_id;
  label = d.label;
  kind = d.kind;
  boards = if d.whole_rig && d.holds_boards then all_boards r else picked;
  resources = all_resources;
  shared = false;
  whole_rig = d.whole_rig;
  since = "";
  worker = r.name;
}

unfoldable pub grant_shared : Rig → Demand → List String → Grant
grant_shared r d picked = record {
  job_id = d.job_id;
  label = d.label;
  kind = d.kind;
  boards = picked;
  resources = d.resources;
  shared = true;
  whole_rig = false;
  since = "";
  worker = r.name;
}

-- An idle rig: the demand starts alone, with nothing held and nothing wanted ahead.
unfoldable pub attempt_idle : Rig → Demand → Bool → Outcome
attempt_idle r d feasible =
    if feasible
    then elim (choose r.boards [] [] [] d) [
      | short k ↦ refused (explain d k r.boards [] [] []) false
      | chosen picked ↦ granted (grant_alone r d picked)
    ]
    else granted (grant_alone r d [])

abbrev pub put_all : Grant → List String → List (String × Grant) → List (String × Grant)
put_all g [] m = m
put_all g (k ∷ ks) m = put_all g ks (put k g m)

-- Which grant holds each board, and each resource; a later grant's entry wins.
unfoldable pub holders :
    (Grant → List String) → List Grant → List (String × Grant) → List (String × Grant)
holders keys [] m = m
holders keys (g ∷ gs) m = holders keys gs (put_all g (keys g) m)

abbrev pub keys_of {ℓ} : {V : Type ℓ} → List (String × V) → List String
keys_of [] = []
keys_of ((k, v) ∷ m) = k ∷ keys_of m

-- A concurrent run beside others: its boards.
unfoldable pub attempt_boards : Rig → Demand → List (String × Grant) → Outcome
attempt_boards r d held =
    elim (choose r.boards (keys_of held) (keys_of r.blocked_boards) r.blocked_targets d) [
      | short k ↦ refused (explain d k r.boards held r.blocked_boards r.blocked_targets) false
      | chosen picked ↦ granted (grant_shared r d picked)
    ]

-- The first of these resources that the dictionary has, with its entry.
abbrev pub first_key {ℓ} : {V : Type ℓ} → List String → List (String × V) → Option (String × V)
first_key [] m = none
first_key (k ∷ ks) m = elim (lookup k m) [ some v ↦ some (k, v) | none ↦ first_key ks m ]

-- A concurrent run beside others: its slot and its resources, then its boards.
unfoldable pub attempt_shared : Rig → Demand → Outcome
attempt_shared r d =
    let wanted = sorted_set d.resources in
    if leb r.limit (length r.active)
    then refused (no_slot r.name (length r.active) r.limit) false
    else elim (first_key wanted (holders (λ g. g.resources) r.active [])) [
      | some (k, g) ↦ refused (resource_used k g) false
      | none ↦ elim (first_key wanted r.blocked_resources) [
        | some (k, e) ↦ refused (behind_resource e k) false
        | none ↦ attempt_boards r d (holders (λ g. g.boards) r.active [])
      ]
    ]

abbrev pub runs_alone : Rig → Demand → Bool
runs_alone r d = d.whole_rig || (not d.concurrent || eqb r.limit 1)

abbrev pub is_feasible : Rig → Demand → Bool
is_feasible r d = d.whole_rig || fits_idle d r.boards

-- A run that needs the rig to itself.
unfoldable pub attempt_alone : Rig → Demand → Outcome
attempt_alone r d = elim r.active [
  | [] ↦ attempt_idle r d (is_feasible r d)
  | g ∷ gs ↦
      if is_feasible r d
      then refused (wait_idle (word r) (g ∷ gs)) true
      else refused (wait_rediscover (word r) (shortfall d r.boards)) true
]

unfoldable pub attempt : Rig → Demand → Outcome
attempt r d = elim r.blocked_whole [
  | some e ↦ refused (behind_whole e (word r)) (runs_alone r d)
  | none ↦ elim (first (λ g. not g.shared) r.active) [
    | some g ↦ refused (held_alone (word r) g) (runs_alone r d)
    | none ↦
        if runs_alone r d || not (is_feasible r d) then attempt_alone r d else attempt_shared r d
  ]
]

-- `rig.active.append(outcome)`
abbrev pub activate : Grant → Rig → Rig
activate g r = record r { active = r.active ++ g ∷ [] }

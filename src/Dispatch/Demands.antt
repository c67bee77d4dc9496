-- ===== src/Dispatch/Demands.antt =====
-- service.py, `_demand`: what a queued run asks of the rig.
use esp32_rig.Base.{
  String, Bool, true, false, not, Option, none, some, List, [], ◌∷◌, lookup, sorted_set,
  if◌then◌else◌, ◌==◌,
}
use esp32_rig.Allocation.{Need, Demand}
use esp32_rig.Store.Jobs.{Job, Fields}

-- What the dispatcher reads of a profile.
pub record Profile : Type 0 where
  pub name : String
  pub label : String
  pub exclusive : Bool
  pub needs : List Need
  pub concurrent : Bool
  pub resources : List String

abbrev pub default_profile : String
default_profile = "painlessmesh"

-- `request.get(key) or None`
abbrev pub text_of : String → Fields → Option String
text_of key request = elim (lookup key request) [
  | none ↦ none
  | some t ↦ if t == "" then none else some t
]

abbrev pub or_else : Option String → String → String
or_else none d = d
or_else (some t) d = t

-- A demand for the whole rig.
abbrev pub whole : String → String → String → Bool → Demand
whole job_id label kind holds_boards = record {
  job_id = job_id;
  label = label;
  kind = kind;
  whole_rig = true;
  concurrent = false;
  boards = [];
  needs = [];
  resources = [];
  holds_boards = holds_boards;
  profile = none;
  rig = none;
}

-- `common`, with nothing asked yet.
abbrev pub common : Job → Profile → Demand
common j spec = record {
  job_id = j.id;
  label = spec.label;
  kind = j.kind;
  whole_rig = false;
  concurrent = spec.concurrent;
  boards = [];
  needs = [];
  resources = spec.resources;
  holds_boards = true;
  profile = some spec.name;
  rig = text_of "rig" j.request;
}

abbrev pub demand_of : Job → Profile → List String → Demand
demand_of j spec [] =
    if spec.exclusive
    then record (common j spec) { concurrent = false; whole_rig = true }
    else record (common j spec) { needs = spec.needs }
demand_of j spec (k ∷ ks) = record (common j spec) { boards = sorted_set (k ∷ ks) }

-- `boards_in` gives the boards that a request names.
module _ (boards_in : Fields → List String) (profiles : List (String × Profile)) where
  unfoldable pub demand : Job → Demand
  demand j =
      if not (j.kind == "suite")
      then whole j.id (if j.kind == "inventory" then "discovery" else j.kind) j.kind false
      else elim (lookup (or_else (lookup "profile" j.request) default_profile) profiles) [
        | none ↦ whole j.id (or_else (text_of "profile" j.request) j.kind) "suite" true
        | some spec ↦ demand_of j spec (boards_in j.request)
      ]

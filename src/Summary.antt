-- ===== src/Summary.antt =====
-- rig/alteriom_hil/report.py: what `summarize` says of the runs of a release: the gate and a row for
-- each capability. The counts that the report only prints are left out.
pub mod Rows
mod Tests
use esp32_rig.Base.{
  ℕ, String, Bool, true, false, not, ◌&&◌, ◌||◌, Option, none, some, List, [], ◌∷◌, ◌++◌, map, any,
  filter, length, sorted_set, set_default, put, contains, if◌then◌else◌, ◌==◌,
}

-- A run's record, as `summarize` reads it for these.
pub record RunRecord : Type 0 where
  pub verdict : String
  pub failure_class : Option String
  pub hil_only_reason : Option String
  pub capabilities : List String

abbrev pub Records : Type 0
Records = List RunRecord

abbrev pub has_failed : RunRecord → Bool
has_failed r = r.verdict == "failed" || r.verdict == "error"

abbrev pub is_infra : Option String → Bool
is_infra none = false
is_infra (some c) = c == "infra"

abbrev pub failed_itself : RunRecord → Bool
failed_itself r = has_failed r && not (is_infra r.failure_class)

abbrev pub failed_on_rig : RunRecord → Bool
failed_on_rig r = has_failed r && is_infra r.failure_class

-- `(failure_class or "real_bug") == "real_bug"`
abbrev pub is_real_bug : Option String → Bool
is_real_bug none = true
is_real_bug (some c) = c == "" || c == "real_bug"

abbrev pub hil_only_reasons : List String
hil_only_reasons = "radio_timing" ∷ "ota" ∷ "power" ∷ "soak" ∷ "multi_node" ∷ "peripheral" ∷ []

abbrev pub is_hil_only : Option String → Bool
is_hil_only none = false
is_hil_only (some reason) = contains reason hil_only_reasons

-- The runs that only a rig could fail.
unfoldable pub bug_catch_delta : Records → ℕ
bug_catch_delta records = length (
    filter (λ r. has_failed r && (is_hil_only r.hil_only_reason && is_real_bug r.failure_class))
      records)

pub data Status : Type 0 where
  failed validated blocked skipped not_validated : Status

pub data Gate : Type 0 where
  incomplete gate_failed gate_blocked gate_passed : Gate

-- The runs that name a capability; one that names it twice counts twice in the code, which changes
-- nothing that is asked here.
abbrev pub runs_of : String → Records → Records
runs_of k = filter (λ r. contains k r.capabilities)

unfoldable pub status_of : Records → Status
status_of runs =
    if any failed_itself runs
    then failed
    else if any (λ r. r.verdict == "passed") runs
    then validated
    else if any failed_on_rig runs
    then blocked
    else if any (λ r. r.verdict == "skipped") runs
    then skipped
    else not_validated

abbrev pub marks : Records → List String
marks [] = []
marks (r ∷ rest) = r.capabilities ++ marks rest

abbrev pub not_listed : String
not_listed = "(not in the profile's catalog)"

abbrev pub add_marks : List String → List (String × String) → List (String × String)
add_marks [] table = table
add_marks (k ∷ ks) table = add_marks ks (set_default k not_listed table)

-- The description and the status.
abbrev pub Row : Type 0
Row = String × Status

abbrev pub rows : List (String × String) → Records → List (String × Row)
unfolding status_of
rows [] records = []
rows ((k, description) ∷ table) records =
    (k, (description, status_of (runs_of k records))) ∷ rows table records

unfoldable pub capabilities : List (String × String) → Records → List (String × Row)
unfolding rows
capabilities catalog records = rows (add_marks (sorted_set (marks records)) catalog) records

abbrev pub is_nil : Records → Bool
is_nil [] = true
is_nil (r ∷ rest) = false

unfoldable pub validation_gate : Records → Gate
validation_gate records =
    if is_nil records
    then incomplete
    else if any failed_itself records
    then gate_failed
    else if any has_failed records
    then gate_blocked
    else gate_passed

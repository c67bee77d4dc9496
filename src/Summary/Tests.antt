-- ===== src/Summary/Tests.antt =====
-- A release of three runs.
use esp32_rig.Base.{◌≡◌, refl, String, Option, none, some, List, [], ◌∷◌, lookup}
use esp32_rig.Summary.{
  RunRecord, Records, failed, capabilities, validation_gate, gate_failed, not_listed, status_of,
  bug_catch_delta,
}
use esp32_rig.Summary.Rows.{capabilities-lookup, validation_gate-failed}

abbrev run : String → Option String → Option String → List String → RunRecord
run verdict class reason names = record {
  verdict = verdict;
  failure_class = class;
  hil_only_reason = reason;
  capabilities = names;
}

abbrev records : Records
records =
    run "passed" none none ("ota" ∷ [])
    ∷ run "failed" none (some "ota") ("node.reset" ∷ [])
    ∷ run "error" (some "infra") none ("ota" ∷ [])
    ∷ []

capabilities-lookup_example :
    lookup "node.reset" (capabilities (("ota", "updates") ∷ ("mesh", "mesh") ∷ []) records)
    ≡ some (not_listed, failed)
unfolding status_of
capabilities-lookup_example =
    capabilities-lookup "node.reset" (("ota", "updates") ∷ ("mesh", "mesh") ∷ []) records

validation_gate-failed_example : validation_gate records ≡ gate_failed
unfolding capabilities status_of
validation_gate-failed_example = validation_gate-failed "node.reset" not_listed [] records refl

counted_once : bug_catch_delta records ≡ 1
unfolding bug_catch_delta
counted_once = refl

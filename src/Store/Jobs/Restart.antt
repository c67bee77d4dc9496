-- ===== src/Store/Jobs/Restart.antt =====
-- jobstore.py: the runs that a restart of the service found, and results of before results had a
-- summary.
use esp32_rig.Base.{
  ℕ, String, Bool, true, false, not, ◌&&◌, none, some, List, [], ◌∷◌, ◌++◌, map, filter, has_key,
  lookup, put, if◌then◌else◌, ◌==◌,
}
use esp32_rig.Store.Table.{update_where, order_by}
use esp32_rig.Store.Jobs.{
  Job, Jobs, Fields, Stage, Status, is_queued, failed, update, update_progress, older, is_live,
}

-- A stage that a restart interrupted.
unfoldable pub settle_stage : ℕ → Stage → Stage
settle_stage now s =
    if s.status == "running"
    then record s {
      status = "failed";
      summary = some "Farm service restarted during this stage";
      finished_at = some now;
    }
    else if s.status == "pending"
    then record s { status = "skipped" }
    else s

abbrev pub interrupted : Fields
interrupted =
    ("summary", "Pipeline interrupted: the service restarted")
    ∷ ("detail", "The previous service process ended before the job completed.")
    ∷ []

-- `keep_remote and job.get("worker")`: a run on a worker that may still be doing it.
abbrev pub is_remote : Bool → Job → Bool
is_remote keep_remote j = keep_remote && elim j.worker [ none ↦ false | some w ↦ not (w == "") ]

-- One row of the loop: the jobs to queue again, and the table.
unfoldable pub recover_row : Bool → ℕ → Job → List Job × Jobs → List Job × Jobs
recover_row keep_remote now j (again, jobs) =
    if is_queued j.status
    then (again ++ j ∷ [], jobs)
    else if is_remote keep_remote j
    then (again, jobs)
    else (
      again,
      update j.id failed now interrupted
          (update_progress j.id (map (settle_stage now) j.progress) jobs),
    )

unfoldable pub recover_rows : Bool → ℕ → List Job → List Job × Jobs → List Job × Jobs
recover_rows keep_remote now [] acc = acc
recover_rows keep_remote now (j ∷ js) acc =
    recover_rows keep_remote now js (recover_row keep_remote now j acc)

unfoldable pub recover_incomplete : Bool → ℕ → Jobs → List Job × Jobs
recover_incomplete keep_remote now jobs =
    recover_rows keep_remote now (order_by older (filter is_live jobs)) ([], jobs)

abbrev pub legacy_summary : String → String
legacy_summary kind =
    if kind == "inventory"
    then "Hardware discovery failed"
    else if kind == "build"
    then "Artifact build failed"
    else if kind == "suite"
    then "Validation pipeline failed"
    else "Farm job failed"

-- A failed result from before results had a summary.
unfoldable pub normalize_result : String → Fields → Fields
normalize_result kind result = elim (lookup "error" result) [
  | none ↦ result
  | some e ↦
      if has_key "summary" result
      then result
      else put "technical_error" e (
          put "detail" "This legacy run predates structured stage tracking; see the technical log."
            (put "summary" (legacy_summary kind) (filter (λ f. not (f.0 == "error")) result)))
]

abbrev pub is_failed : Status → Bool
is_failed failed = true
is_failed _ = false

unfoldable pub normalize_legacy_failures : Jobs → Jobs
normalize_legacy_failures =
    update_where (λ j. is_failed j.status)
      (λ j. record j {
        result = elim j.result [ none ↦ none | some r ↦ some (normalize_result j.kind r) ];
      })

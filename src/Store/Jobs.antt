-- ===== src/Store/Jobs.antt =====
-- jobstore.py: the life of a run, from `create` to its end.
pub mod Race
pub mod Restart
pub mod Recover
use esp32_rig.Base.{
  ℕ, ◌+◌, String, ◌≡◌, refl, Bool, true, false, not, ◌&&◌, ◌||◌, Option, none, some, List, [], ◌∷◌,
  ◌++◌, map, length, filter, first, any, is_some, has_key, lookup, put, if◌then◌else◌, ltb, leb,
  eqb, ◌==◌,
}
use esp32_rig.Store.Table.{update_where, count_where, delete_where, order_by}

pub data Status : Type 0 where
  queued running passed failed cancelled : Status

abbrev pub is_queued : Status → Bool
is_queued queued = true
is_queued _ = false

abbrev pub is_running : Status → Bool
is_running running = true
is_running _ = false

-- `status in ("passed", "failed", "cancelled")`
abbrev pub is_finished : Status → Bool
is_finished queued = false
is_finished running = false
is_finished _ = true

-- One entry of a run's progress.
pub record Stage : Type 0 where
  pub key : String
  pub status : String
  pub summary : Option String
  pub finished_at : Option ℕ

abbrev pub Fields : Type 0
Fields = List (String × String)

-- A row of `jobs`.
pub record Job : Type 0 where
  pub id : String
  pub kind : String
  pub status : Status
  pub created_at : ℕ
  pub started_at : Option ℕ
  pub finished_at : Option ℕ
  pub request : Fields
  pub result : Option Fields
  pub log_path : String
  pub progress : List Stage
  pub priority : ℕ
  pub egress_bytes : ℕ
  pub worker : Option String
  pub grant : Option Fields

abbrev pub Jobs : Type 0
Jobs = List Job

abbrev pub has_id : String → Job → Bool
has_id k j = j.id == k

-- WHERE id=? AND status='queued'
abbrev pub is_queued_job : String → Job → Bool
is_queued_job k j = has_id k j && is_queued j.status

abbrev pub is_running_job : String → Job → Bool
is_running_job k j = has_id k j && is_running j.status

-- The row that `create` inserts.
abbrev pub new_job : String → String → ℕ → Fields → String → List Stage → Job
new_job id kind now request log_path progress = record {
  id = id;
  kind = kind;
  status = queued;
  created_at = now;
  started_at = none;
  finished_at = none;
  request = request;
  result = none;
  log_path = log_path;
  progress = progress;
  priority = 0;
  egress_bytes = 0;
  worker = none;
  grant = none;
}

-- `none`: the id is taken, and the INSERT fails on the primary key.
unfoldable pub create : String → String → ℕ → Fields → String → List Stage → Jobs → Option Jobs
create id kind now request log_path progress jobs =
    if any (has_id id) jobs
    then none
    else some (jobs ++ new_job id kind now request log_path progress ∷ [])

-- INSERT OR IGNORE of a finished job that another farm ran.
unfoldable pub import_job : Job → String → String → Jobs → Bool × Jobs
import_job job worker log_path jobs = if any (has_id job.id) jobs then (false, jobs) else (
  true,
  jobs
      ++ record job {
        log_path = log_path;
        priority = 0;
        egress_bytes = 0;
        worker = some worker;
        grant = none;
      }
        ∷ [],
)

unfoldable pub set_lease : String → String → Fields → Jobs → Jobs
set_lease id worker grant =
    update_where (has_id id) (λ j. record j { worker = some worker; grant = some grant })

unfoldable pub requeue : String → Jobs → Bool × Jobs
requeue id jobs = (
  eqb (count_where (is_running_job id) jobs) 1,
  update_where (is_running_job id)
      (λ j. record j { status = queued; started_at = none; worker = none; grant = none }) jobs,
)

abbrev pub names_worker : String → Job → Bool
names_worker w j = elim j.worker [ none ↦ false | some v ↦ v == w ]

unfoldable pub running_on : String → Jobs → List Job
running_on w = filter (λ j. is_running j.status && names_worker w j)

-- The columns that `update` sets, by the new status.
abbrev pub set_status : Status → ℕ → Fields → Job → Job
set_status queued now result j = record j { status = queued }
set_status running now result j = record j { status = running; started_at = some now }
set_status passed now result j = record j {
  status = passed;
  finished_at = some now;
  result = some result;
}
set_status failed now result j = record j {
  status = failed;
  finished_at = some now;
  result = some result;
}
set_status cancelled now result j = record j {
  status = cancelled;
  finished_at = some now;
  result = some result;
}

unfoldable pub update : String → Status → ℕ → Fields → Jobs → Jobs
update id status now result = update_where (has_id id) (set_status status now result)

abbrev pub cancel_row : ℕ → Fields → Job → Job
cancel_row now result j = record j {
  status = cancelled;
  finished_at = some now;
  result = some result;
}

abbrev pub start_row : ℕ → Job → Job
start_row now j = record j { status = running; started_at = some now }

unfoldable pub cancel_if_queued : String → ℕ → Fields → Jobs → Bool × Jobs
cancel_if_queued id now result jobs = (
  eqb (count_where (is_queued_job id) jobs) 1,
  update_where (is_queued_job id) (cancel_row now result) jobs,
)

unfoldable pub claim : String → ℕ → Jobs → Bool × Jobs
claim id now jobs = (
  eqb (count_where (is_queued_job id) jobs) 1,
  update_where (is_queued_job id) (start_row now) jobs,
)

unfoldable pub add_job_egress : String → ℕ → Jobs → Jobs
add_job_egress id count jobs =
    if eqb count 0
    then jobs
    else update_where (has_id id) (λ j. record j { egress_bytes = j.egress_bytes + count }) jobs

unfoldable pub update_progress : String → List Stage → Jobs → Jobs
update_progress id progress = update_where (has_id id) (λ j. record j { progress = progress })

abbrev pub get : String → Jobs → Option Job
get id = first (has_id id)

-- What `delete_job` does of the runs: `false` for one that is not there, `none` for the ValueError.
unfoldable pub delete_job : String → Jobs → Option (Bool × Jobs)
delete_job id jobs = elim (get id jobs) [
  | none ↦ some (false, jobs)
  | some j ↦ if is_finished j.status then some (true, delete_where (has_id id) jobs) else none
]

abbrev pub older : Job → Job → Bool
older a b = ltb a.created_at b.created_at

abbrev pub is_live : Job → Bool
is_live j = not (is_finished j.status)

-- ===== src/Dispatch/Cancels.antt =====
-- service.py, `cancel`: a queued run is cancelled at once, and the thread of a running one is asked
-- to stop. A turn says what other threads do between its statements, up to the one that cancels a
-- queued run; without another turn nothing comes between.
pub mod Single
pub mod Taken
pub mod Answers
pub mod Asked
use esp32_rig.Base.{
  not, ◌&&◌, ◌++◌, ℕ, String, Bool, true, false, ◌≡◌, refl, ◌||◌, Option, none, some, List, [], ◌∷◌,
  map, put, Result, ok, err, if◌then◌else◌, ◌==◌,
}
use esp32_rig.Store.Jobs.{
  Status, is_running, is_queued, Stage, Job, Jobs, Fields, get, cancel_if_queued, update_progress,
  requeue,
}
use esp32_rig.Dispatch.{Service, is_portal, Step, act_all, pop}

pub data Uncancelled : Type 0 where
  no_such_job : Uncancelled
  -- the status that a run can no longer be cancelled from
  job_is : Status → Uncancelled
  -- the race was lost in every turn
  raced : Uncancelled

abbrev pub skip_stage : Stage → Stage
skip_stage stage =
    if stage.status == "pending" || stage.status == "running"
    then record stage { status = "skipped" }
    else stage

abbrev pub skip_stages : List Stage → List Stage
skip_stages [] = []
skip_stages (p ∷ ps) = skip_stage p ∷ skip_stages ps

abbrev pub field : String → Option String → Fields
field key none = []
field key (some t) = (key, t) ∷ []

-- The result of a cancelled run; a field that is null is left out.
abbrev pub result_of : String → Option String → Option String → Fields
result_of summary detail superseded_by =
    ("summary", summary) ∷ field "detail" detail
    ++ ("cancelled", "true") ∷ field "superseded_by" superseded_by

abbrev pub ask : String → String → Option String → Service → Service
ask id summary detail s = record s {
  cancel_requests = put id (record { summary = summary; detail = detail }) s.cancel_requests;
}

-- The stages that are marked skipped are those that were read.
abbrev pub cancel_row_of : String → ℕ → Fields → Job → Service → Service
cancel_row_of id now result j s = record s {
  jobs = update_progress id (skip_stages j.progress) (cancel_if_queued id now result s.jobs).1;
}

-- What other threads do during a call of `cancel`: between its reading of a running run and the
-- request to stop it; once the portal has taken the run back; once it is queued again, before it is
-- read a second time; and before the statement that cancels a queued run.
pub record Turn : Type 0 where
  pub before_request : List Step
  pub before_requeue : List Step
  pub before_reread : List Step
  pub before_write : List Step

abbrev pub quiet : Turn
quiet = record { before_request = []; before_requeue = []; before_reread = []; before_write = [] }

-- The store and the answer. `again` is the call of `cancel` after a race that was lost.
abbrev pub Answer : Type 0
Answer = Service × Result Uncancelled (Unit {0})

unfoldable pub cancel_read :
    (Service → Answer) → String → ℕ → Fields → List Step → Job → Service → Answer
cancel_read again id now result meanwhile j s =
    let s' = act_all meanwhile s in
    let more = again s' in
    if is_queued j.status
    then (if (cancel_if_queued id now result s'.jobs).0
        then (cancel_row_of id now result j s', ok tt)
        else more)
    else (s, err (job_is j.status))

-- The run was leased to a worker that had not taken it: it is queued again.
abbrev pub take_back : String → Turn → Service → Service
take_back id turn s =
    let s' =
      act_all turn.before_requeue (record s { cancel_requests = pop id s.cancel_requests }) in
    act_all turn.before_reread (record s' { jobs = (requeue id s'.jobs).1 })

-- `unlease` says whether the portal took a run back that no worker had taken yet.
module _ (unlease : String → Service → Bool) (id : String) (now : ℕ) (summary : String)
    (detail superseded_by : Option String) where
  -- The second reading, of a run that was queued again.
  unfoldable pub cancel_reread : (Service → Answer) → Turn → Service → Answer
  unfolding cancel_read
  cancel_reread again turn s = elim (get id s.jobs) [
    | none ↦ (s, err no_such_job)
    | some j ↦
        cancel_read again id now (result_of summary detail superseded_by) turn.before_write j s
  ]

  unfoldable pub cancel_running : (Service → Answer) → Turn → Service → Answer
  unfolding cancel_reread
  cancel_running again turn s =
      if not (is_portal s.mode && unlease id s)
      then (s, ok tt)
      else cancel_reread again turn (take_back id turn s)

  unfoldable pub cancel_turn : (Service → Answer) → Turn → Service → Answer
  unfolding cancel_read cancel_running
  cancel_turn again turn s = elim (get id s.jobs) [
    | none ↦ (s, err no_such_job)
    | some j ↦
        if is_running j.status
        then cancel_running again turn (ask id summary detail (act_all turn.before_request s))
        else cancel_read again id now (result_of summary detail superseded_by) turn.before_write j s
  ]

  unfoldable pub cancel : List Turn → Service → Answer
  unfolding cancel_turn
  cancel [] s = cancel_turn (λ s'. (s', err raced)) quiet s
  cancel (turn ∷ turns) s = cancel_turn (λ s'. cancel turns s') turn s

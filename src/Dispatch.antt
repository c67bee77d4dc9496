-- ===== src/Dispatch.antt =====
-- core/alteriom_hil/service.py: BaseManager, from a queued run to a running one. This file has what
-- the manager keeps of its runs, and what other threads do to it meanwhile.
pub mod Demands
pub mod Starts
pub mod Cancels
pub mod Supersede
mod Tests
use esp32_rig.Base.{
  ℕ, String, Bool, true, false, not, Option, none, some, List, [], ◌∷◌, filter, if◌then◌else◌, ◌==◌,
}
use esp32_rig.Allocation.{Grant}
use esp32_rig.Allocation.Reason.{Reason}
use esp32_rig.Store.Jobs.{
  Status, is_finished, Stage, Fields, Jobs, create, claim, cancel_if_queued, update, requeue,
}
use esp32_rig.Store.Queue.{Promotion, promote}

pub data Mode : Type 0 where
  standalone node portal : Mode

abbrev pub is_portal : Mode → Bool
is_portal portal = true
is_portal _ = false

-- Why a queued run has not started. The text of `no_worker_ready` lists these workers.
pub data Why : Type 0 where
  planned : Reason → Why
  no_worker_connected : Why
  no_worker_ready : List String → Why

-- What a run's thread is asked to stop with.
pub record Request : Type 0 where
  pub summary : String
  pub detail : Option String

-- `store`, `_grants`, `_waiting` and `_cancel_requests`.
pub record Service : Type 0 where
  pub mode : Mode
  pub jobs : Jobs
  pub grants : List (String × Grant)
  pub waiting : List (String × Why)
  pub cancel_requests : List (String × Request)

-- `d.pop(k, None)`
abbrev pub pop {ℓ} : {V : Type ℓ} → String → List (String × V) → List (String × V)
pop k = filter (λ e. not (e.0 == k))

unfoldable pub release : String → Service → Service
release id s = record s { grants = pop id s.grants }

-- What another thread does between two statements of this one: a submission, a cancellation of a
-- queued run, a promotion, a claim by the dispatcher, the end of a run, whose thread writes its
-- outcome and then gives up what it held, and a cancellation on a portal that takes a running run back
-- from a worker that had not taken it: what was kept for it is given up, and it is queued again.
pub data Step : Type 0 where
  creates : String → String → ℕ → Fields → String → List Stage → Step
  cancels : String → ℕ → Fields → Step
  promotes : String → Step
  claims : String → ℕ → Step
  ends : String → Status → ℕ → Fields → Step
  releases : String → Step
  requeues : String → Step

-- The jobs after a statement that may fail.
abbrev pub created : Option Jobs → Jobs → Jobs
created none jobs = jobs
created (some jobs') jobs = jobs'

abbrev pub promoted_in : Promotion → Jobs → Jobs
promoted_in (Promotion.promoted jobs') jobs = jobs'
promoted_in _ jobs = jobs

abbrev pub act_on : Step → Jobs → Jobs
act_on (creates id kind now request log_path progress) jobs =
    created (create id kind now request log_path progress jobs) jobs
act_on (cancels id now result) jobs = (cancel_if_queued id now result jobs).1
act_on (promotes id) jobs = promoted_in (promote id jobs) jobs
act_on (claims id now) jobs = (claim id now jobs).1
act_on (ends id status now result) jobs =
    if is_finished status then update id status now result jobs else jobs
act_on (releases id) jobs = jobs
act_on (requeues id) jobs = (requeue id jobs).1

abbrev pub act_grants : Step → List (String × Grant) → List (String × Grant)
act_grants (releases id) grants = pop id grants
act_grants (requeues id) grants = pop id grants
act_grants _ grants = grants

unfoldable pub act : Step → Service → Service
act step s = record s { jobs = act_on step s.jobs; grants = act_grants step s.grants }

unfoldable pub act_all : List Step → Service → Service
act_all [] s = s
act_all (step ∷ steps) s = act_all steps (act step s)

-- ===== src/Dispatch/Cancels/Taken.antt =====
-- A run that a portal takes back is running again only if somebody claims it.
use esp32_rig.Base.{
  ℕ, String, Bool, true, false, ◌≡◌, refl, ap, ◌∙◌, some, List, [], ◌∷◌, arith, any, length, filter,
  eq_iff, filter-append, length-append, Bool-cases, Option-cases, inl, inr, ◌==◌,
}
use esp32_rig.Store.Table.{count_where, count_where-update_none, count_where-update_where}
use esp32_rig.Store.Jobs.{
  Status, is_queued, is_running, is_finished, Stage, Job, Jobs, Fields, has_id, is_queued_job,
  is_running_job, new_job, create, claim, start_row, cancel_if_queued, cancel_row, update,
  set_status, requeue, get,
}
use esp32_rig.Store.Queue.{promote}
use esp32_rig.Dispatch.{
  Service, Step, creates, cancels, promotes, claims, ends, releases, requeues, act, act_on, act_all,
  created, promoted_in, pop,
}
use esp32_rig.Dispatch.Cancels.{Turn, take_back}
use esp32_rig.Dispatch.Cancels.Single.{IsSingle, act_all-IsSingle, requeue-IsSingle}

abbrev claims_it : String → Step → Bool
claims_it k (claims id now) = k == id
claims_it k _ = false

-- Whether somebody claims the run.
abbrev pub claims_any : String → List Step → Bool
claims_any k = any (claims_it k)

-- Whether, in some turn, somebody claims the run between its return to the queue and its second
-- reading.
abbrev pub claimed_back : String → List Turn → Bool
claimed_back k = any (λ turn. claims_any k turn.before_reread)

pub act_all-mode : (steps : List Step) (s : Service) → (act_all steps s).mode ≡ s.mode
unfolding act_all act
act_all-mode [] s = refl
act_all-mode (step ∷ steps) s = act_all-mode steps (act step s)

abbrev IsStill : String → Jobs → Type 0
IsStill k jobs = count_where (is_running_job k) jobs ≡ 0

create-IsStill :
    (id kind : String) (now : ℕ) (request : Fields) (log_path : String) (progress : List Stage)
    (k : String) (jobs : Jobs)
    → IsStill k jobs
    → IsStill k (created (create id kind now request log_path progress jobs) jobs)
unfolding create
create-IsStill id kind now request log_path progress k jobs o =
    elim (Bool-cases (any (has_id id) jobs)) [
      | inl taken ↦ rw taken o
      | inr free ↦
          let j = new_job id kind now request log_path progress in
          rw free (
            ap length (filter-append (is_running_job k) jobs (j ∷ []))
            ∙ length-append (filter (is_running_job k) jobs) (filter (is_running_job k) (j ∷ []))
            ∙ ground (arith, o))
    ]

promote-IsStill :
    (id k : String) (jobs : Jobs) → IsStill k jobs → IsStill k (promoted_in (promote id jobs) jobs)
unfolding promote
promote-IsStill id k jobs o = elim (Option-cases (get id jobs)) [
  | inl nobody ↦ rw (nobody, promoted_in) o
  | inr (j, found) ↦ elim (Bool-cases (is_queued j.status)) [
    | inl waits ↦
        rw (found, promoted_in, waits)
          (count_where-update_none (is_running_job k) (has_id id) _ jobs (λ j _ e. e) o)
    | inr not_waiting ↦ rw (found, promoted_in, not_waiting) o
  ]
]

set_status-still :
    (status : Status) (now : ℕ) (result : Fields) (j : Job)
    → is_finished status ≡ true
    → is_running (set_status status now result j).status ≡ false
set_status-still Status.queued now result j e = absurd (cc)
set_status-still Status.running now result j e = absurd (cc)
set_status-still Status.passed now result j e = refl
set_status-still Status.failed now result j e = refl
set_status-still Status.cancelled now result j e = refl

act_on-IsStill :
    (step : Step) (k : String) (jobs : Jobs)
    → claims_it k step ≡ false
    → IsStill k jobs
    → IsStill k (act_on step jobs)
unfolding claim cancel_if_queued update requeue
act_on-IsStill (creates id kind now request log_path progress) k jobs other o =
    create-IsStill id kind now request log_path progress k jobs o
act_on-IsStill (cancels id now result) k jobs other o =
    count_where-update_none (is_running_job k) (is_queued_job id) (cancel_row now result) jobs
      (λ j _ _. ground arith) o
act_on-IsStill (promotes id) k jobs other o = promote-IsStill id k jobs o
act_on-IsStill (claims id now) k jobs other o =
    count_where-update_none (is_running_job k) (is_queued_job id) (start_row now) jobs
      (λ j h _. ground (arith, h, other, eq_iff j.id id, eq_iff j.id k, eq_iff k id)) o
act_on-IsStill (ends id status now result) k jobs other o = elim (Bool-cases (is_finished status)) [
  | inl finished ↦ rw finished (
      count_where-update_none (is_running_job k) (has_id id) (set_status status now result) jobs
        (λ j _ _. let s = set_status-still status now result j finished in ground arith) o)
  | inr live ↦ rw live o
]
act_on-IsStill (releases id) k jobs other o = o
act_on-IsStill (requeues id) k jobs other o =
    count_where-update_none (is_running_job k) (is_running_job id) _ jobs (λ j _ _. ground arith) o

act_all-IsStill :
    (steps : List Step) (k : String) (s : Service)
    → claims_any k steps ≡ false
    → IsStill k s.jobs
    → IsStill k (act_all steps s).jobs
unfolding act_all act
act_all-IsStill [] k s other o = o
act_all-IsStill (step ∷ steps) k s other o =
    act_all-IsStill steps k (act step s) (ground arith)
      (act_on-IsStill step k s.jobs (ground arith) o)

requeue-IsStill : (id : String) (jobs : Jobs) → IsStill id (requeue id jobs).1
unfolding requeue
requeue-IsStill id jobs = count_where-update_where (is_running_job id) _ jobs (λ j h. ground arith)

get-still :
    (k : String) (jobs : Jobs) (j : Job)
    → get k jobs ≡ some j
    → IsStill k jobs
    → is_running j.status ≡ false
get-still k [] j found o = absurd (cc)
get-still k (x ∷ jobs) j found o = ground (arith, get-still k jobs j)

module _ (id : String) (turn : Turn) (s : Service) where
  abbrev put_back : Service
  put_back = act_all turn.before_requeue (record s { cancel_requests = pop id s.cancel_requests })

  pub take_back-IsSingle : IsSingle id s.jobs → IsSingle id (take_back id turn s).jobs
  take_back-IsSingle single =
      act_all-IsSingle turn.before_reread id
        (record put_back { jobs = (requeue id put_back.jobs).1 })
        (requeue-IsSingle id id put_back.jobs (act_all-IsSingle turn.before_requeue id _ single))

  pub take_back-mode : (take_back id turn s).mode ≡ s.mode
  take_back-mode =
      act_all-mode turn.before_reread (record put_back { jobs = (requeue id put_back.jobs).1 })
      ∙ act_all-mode turn.before_requeue _

  pub taken_back-running :
      (j : Job)
      → get id (take_back id turn s).jobs ≡ some j
      → is_running j.status ≡ true
      → claims_any id turn.before_reread ≡ true
  taken_back-running j found runs = elim (Bool-cases (claims_any id turn.before_reread)) [
    | inl claimed ↦ claimed
    | inr nobody ↦
        let still = get-still id (take_back id turn s).jobs j found (
          act_all-IsStill turn.before_reread id
            (record put_back { jobs = (requeue id put_back.jobs).1 }) nobody
            (requeue-IsStill id put_back.jobs)) in
        absurd (cc)
  ]

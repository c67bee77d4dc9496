-- ===== src/Dispatch/Starts/Off.antt =====
-- Runs that are no longer queued, and what keeps them so.
use esp32_rig.Base.{
  ℕ, String, Bool, true, false, ◌≡◌, refl, ap, subst, ◌∙◌, ◌||◌, List, [], ◌∷◌, arith, any, length,
  filter, Bool-cases, Option-cases, inl, inr, eq_iff, any-append, filter-append, length-append,
  ◌==◌,
}
use esp32_rig.Store.Table.{
  update_where, count_where, any-update_where, count_where-update_none, count_where-any,
}
use esp32_rig.Store.Jobs.{
  Status, is_queued, is_finished, Job, Jobs, Fields, Stage, has_id, is_queued_job, is_running_job,
  new_job, create, claim, cancel_if_queued, update, set_status, start_row, cancel_row, requeue, get,
}
use esp32_rig.Store.Jobs.Race.{after_claim}
use esp32_rig.Store.Queue.{promote}
use esp32_rig.Dispatch.{
  Step, creates, cancels, promotes, claims, ends, releases, requeues, act_on, created, promoted_in,
}

-- The run is there, and not queued.
pub record IsOff (k : String) (jobs : Jobs) : Type 0 where
  pub there : any (has_id k) jobs ≡ true
  pub off : count_where (is_queued_job k) jobs ≡ 0

pub update_where-IsOff :
    (p : Job → Bool) (f : Job → Job) (k : String) (jobs : Jobs)
    → ((j : Job) → has_id k (f j) ≡ has_id k j)
    → ((j : Job) → p j ≡ true → is_queued_job k j ≡ false → is_queued_job k (f j) ≡ false)
    → IsOff k jobs
    → IsOff k (update_where p f jobs)
update_where-IsOff p f k jobs same stays o = record {
  there = any-update_where (has_id k) p f jobs same ∙ o.there;
  off = count_where-update_none (is_queued_job k) p f jobs stays o.off;
}

create-IsOff :
    (id kind : String) (now : ℕ) (request : Fields) (log_path : String) (progress : List Stage)
    (k : String) (jobs : Jobs)
    → IsOff k jobs
    → IsOff k (created (create id kind now request log_path progress jobs) jobs)
unfolding create
create-IsOff id kind now request log_path progress k jobs o =
    elim (Bool-cases (any (has_id id) jobs)) [
      | inl taken ↦ rw taken o
      | inr free ↦
          let apart : (id == k) ≡ false = elim (Bool-cases (id == k)) [
            | inl same ↦
                absurd (
                  cc
                    (o.there, subst (λ i. any (has_id i) jobs ≡ false) ((eq_iff id k).0 same) free))
            | inr other ↦ other
          ] in
          let j = new_job id kind now request log_path progress in
          rw free (record {
            there = any-append (has_id k) jobs (j ∷ []) ∙ ap (λ b. b || (id == k || false)) o.there;
            off =
                ap length (filter-append (is_queued_job k) jobs (j ∷ []))
                ∙ length-append (filter (is_queued_job k) jobs) (filter (is_queued_job k) (j ∷ []))
                ∙ ground (arith, o.off);
          })
    ]

claim-IsOff :
    (id : String) (now : ℕ) (k : String) (jobs : Jobs)
    → IsOff k jobs
    → IsOff k (claim id now jobs).1
unfolding claim
claim-IsOff id now k jobs o =
    update_where-IsOff (is_queued_job id) (start_row now) k jobs (λ j. refl) (λ j _ _. ground arith)
      o

cancel-IsOff :
    (id : String) (now : ℕ) (result : Fields) (k : String) (jobs : Jobs)
    → IsOff k jobs
    → IsOff k (cancel_if_queued id now result jobs).1
unfolding cancel_if_queued
cancel-IsOff id now result k jobs o =
    update_where-IsOff (is_queued_job id) (cancel_row now result) k jobs (λ j. refl)
      (λ j _ _. ground arith) o

promote-IsOff :
    (id k : String) (jobs : Jobs) → IsOff k jobs → IsOff k (promoted_in (promote id jobs) jobs)
unfolding promote
promote-IsOff id k jobs o = elim (Option-cases (get id jobs)) [
  | inl nobody ↦ rw (nobody, promoted_in) o
  | inr (j, found) ↦ elim (Bool-cases (is_queued j.status)) [
    | inl waits ↦
        rw (found, promoted_in, waits)
          (update_where-IsOff (has_id id) _ k jobs (λ j. refl) (λ j _ e. e) o)
    | inr not_waiting ↦ rw (found, promoted_in, not_waiting) o
  ]
]

set_status-off :
    (status : Status) (now : ℕ) (result : Fields) (k : String) (j : Job)
    → is_finished status ≡ true
    → (has_id k (set_status status now result j) ≡ has_id k j)
      × (is_queued (set_status status now result j).status ≡ false)
set_status-off Status.queued now result k j e = absurd (cc)
set_status-off Status.running now result k j e = absurd (cc)
set_status-off Status.passed now result k j e = (refl, refl)
set_status-off Status.failed now result k j e = (refl, refl)
set_status-off Status.cancelled now result k j e = (refl, refl)

-- Only the run that is handed back is queued again.
pub requeue-IsOff :
    (id k : String) (jobs : Jobs) → (k == id) ≡ false → IsOff k jobs → IsOff k (requeue id jobs).1
unfolding requeue
requeue-IsOff id k jobs apart o =
    update_where-IsOff (is_running_job id) _ k jobs (λ j. refl)
      (λ j h e. ground (arith, eq_iff j.id id, eq_iff j.id k, eq_iff k id)) o

-- Whether the step takes a running run back into the queue.
abbrev pub takes_back : String → Step → Bool
takes_back k (requeues id) = k == id
takes_back k _ = false

-- Nothing else that another thread does queues such a run.
pub act_on-IsOff :
    (step : Step) (k : String) (jobs : Jobs)
    → takes_back k step ≡ false
    → IsOff k jobs
    → IsOff k (act_on step jobs)
unfolding update
act_on-IsOff (creates id kind now request log_path progress) k jobs stays o =
    create-IsOff id kind now request log_path progress k jobs o
act_on-IsOff (cancels id now result) k jobs stays o = cancel-IsOff id now result k jobs o
act_on-IsOff (promotes id) k jobs stays o = promote-IsOff id k jobs o
act_on-IsOff (claims id now) k jobs stays o = claim-IsOff id now k jobs o
act_on-IsOff (ends id status now result) k jobs stays o = elim (Bool-cases (is_finished status)) [
  | inl finished ↦ rw finished (
      update_where-IsOff (has_id id) (set_status status now result) k jobs
        (λ j. (set_status-off status now result k j finished).0)
        (λ j _ _. let s = set_status-off status now result k j finished in ground arith) o)
  | inr live ↦ rw live o
]
act_on-IsOff (releases id) k jobs stays o = o
act_on-IsOff (requeues id) k jobs stays o = requeue-IsOff id k jobs stays o

-- The run that was claimed is no longer queued.
pub claimed-IsOff :
    (id : String) (now : ℕ) (jobs : Jobs)
    → (claim id now jobs).0 ≡ true
    → IsOff id (claim id now jobs).1
unfolding claim
claimed-IsOff id now jobs e = record {
  there =
      any-update_where (has_id id) (is_queued_job id) (start_row now) jobs (λ j. refl)
      ∙ count_where-any (is_queued_job id) (has_id id) jobs (λ j h. ground arith) (ground arith);
  off = after_claim id now now [] jobs;
}

pub claim-others :
    (id : String) (now : ℕ) (k : String) (jobs : Jobs)
    → IsOff k jobs
    → IsOff k (claim id now jobs).1
claim-others = claim-IsOff

-- ===== src/Dispatch/Cancels/Single.antt =====
-- A run has one row.
use esp32_rig.Base.{
  ℕ, ◌+◌, ◌≤◌, String, Bool, true, false, ◌≡◌, refl, sym, ap, subst, ◌∙◌, some, List, [], ◌∷◌, ◌++◌,
  arith, any, length, filter, Bool-cases, Option-cases, inl, inr, eq_iff, filter-append,
  length-append, ◌==◌,
}
use esp32_rig.Store.Table.{update_where, count_where}
use esp32_rig.Store.Jobs.{
  Status, is_queued, is_finished, Job, Jobs, Fields, Stage, has_id, is_queued_job, is_running_job,
  new_job, create, claim, cancel_if_queued, update, set_status, requeue, get,
}
use esp32_rig.Store.Queue.{promote}
use esp32_rig.Dispatch.{
  Service, Step, creates, cancels, promotes, claims, ends, releases, requeues, act, act_on, act_all,
  created, promoted_in,
}

-- At most one row has this id.
abbrev pub IsSingle : String → Jobs → Type 0
IsSingle k jobs = count_where (has_id k) jobs ≤ 1

count-same :
    (q p : Job → Bool) (f : Job → Job) (jobs : Jobs)
    → ((j : Job) → q (f j) ≡ q j)
    → count_where q (update_where p f jobs) ≡ count_where q jobs
count-same q p f [] h = refl
count-same q p f (j ∷ jobs) h = ground (arith, count-same q p f jobs h, h j)

update_where-IsSingle :
    (p : Job → Bool) (f : Job → Job) (k : String) (jobs : Jobs)
    → ((j : Job) → has_id k (f j) ≡ has_id k j)
    → IsSingle k jobs
    → IsSingle k (update_where p f jobs)
update_where-IsSingle p f k jobs same h =
    subst (λ n. n ≤ 1) (sym (count-same (has_id k) p f jobs same)) h

count_where-not_any : (q : Job → Bool) (jobs : Jobs) → any q jobs ≡ false → count_where q jobs ≡ 0
count_where-not_any q [] e = refl
count_where-not_any q (j ∷ jobs) e = ground (arith, count_where-not_any q jobs)

create-IsSingle :
    (id kind : String) (now : ℕ) (request : Fields) (log_path : String) (progress : List Stage)
    (k : String) (jobs : Jobs)
    → IsSingle k jobs
    → IsSingle k (created (create id kind now request log_path progress jobs) jobs)
unfolding create
create-IsSingle id kind now request log_path progress k jobs h =
    elim (Bool-cases (any (has_id id) jobs)) [
      | inl taken ↦ rw taken h
      | inr free ↦
          let j = new_job id kind now request log_path progress in
          let sum : count_where (has_id k) (jobs ++ j ∷ [])
              ≡ count_where (has_id k) jobs + count_where (has_id k) (j ∷ []) =
            ap length (filter-append (has_id k) jobs (j ∷ []))
            ∙ length-append (filter (has_id k) jobs) (filter (has_id k) (j ∷ [])) in
          rw (free, sum)
            (elim (Bool-cases (id == k)) [
              | inl same ↦
                  let absent =
                    count_where-not_any (has_id k) jobs
                      (subst (λ i. any (has_id i) jobs ≡ false) ((eq_iff id k).0 same) free) in
                  rw same (omega (arith, absent))
              | inr other ↦ rw other (omega (arith, h))
            ])
    ]

set_status-has_id :
    (status : Status) (now : ℕ) (result : Fields) (k : String) (j : Job)
    → has_id k (set_status status now result j) ≡ has_id k j
set_status-has_id Status.queued now result k j = refl
set_status-has_id Status.running now result k j = refl
set_status-has_id Status.passed now result k j = refl
set_status-has_id Status.failed now result k j = refl
set_status-has_id Status.cancelled now result k j = refl

promote-IsSingle :
    (id k : String) (jobs : Jobs)
    → IsSingle k jobs
    → IsSingle k (promoted_in (promote id jobs) jobs)
unfolding promote
promote-IsSingle id k jobs h = elim (Option-cases (get id jobs)) [
  | inl nobody ↦ rw (nobody, promoted_in) h
  | inr (j, found) ↦ elim (Bool-cases (is_queued j.status)) [
    | inl waits ↦
        rw (found, promoted_in, waits) (update_where-IsSingle (has_id id) _ k jobs (λ j. refl) h)
    | inr not_waiting ↦ rw (found, promoted_in, not_waiting) h
  ]
]

pub requeue-IsSingle :
    (id k : String) (jobs : Jobs) → IsSingle k jobs → IsSingle k (requeue id jobs).1
unfolding requeue
requeue-IsSingle id k jobs h = update_where-IsSingle (is_running_job id) _ k jobs (λ j. refl) h

act_on-IsSingle :
    (step : Step) (k : String) (jobs : Jobs) → IsSingle k jobs → IsSingle k (act_on step jobs)
unfolding claim cancel_if_queued update
act_on-IsSingle (creates id kind now request log_path progress) k jobs h =
    create-IsSingle id kind now request log_path progress k jobs h
act_on-IsSingle (cancels id now result) k jobs h =
    update_where-IsSingle (is_queued_job id) _ k jobs (λ j. refl) h
act_on-IsSingle (promotes id) k jobs h = promote-IsSingle id k jobs h
act_on-IsSingle (claims id now) k jobs h =
    update_where-IsSingle (is_queued_job id) _ k jobs (λ j. refl) h
act_on-IsSingle (ends id status now result) k jobs h = elim (Bool-cases (is_finished status)) [
  | inl finished ↦ rw finished (
      update_where-IsSingle (has_id id) (set_status status now result) k jobs
        (set_status-has_id status now result k) h)
  | inr live ↦ rw live h
]
act_on-IsSingle (releases id) k jobs h = h
act_on-IsSingle (requeues id) k jobs h = requeue-IsSingle id k jobs h

pub act_all-IsSingle :
    (steps : List Step) (k : String) (s : Service)
    → IsSingle k s.jobs
    → IsSingle k (act_all steps s).jobs
unfolding act_all act
act_all-IsSingle [] k s h = h
act_all-IsSingle (step ∷ steps) k s h =
    act_all-IsSingle steps k (act step s) (act_on-IsSingle step k s.jobs h)

count_where-le :
    (p q : Job → Bool) (jobs : Jobs)
    → ((j : Job) → p j ≡ true → q j ≡ true)
    → count_where p jobs ≤ count_where q jobs
count_where-le p q [] h = omega arith
count_where-le p q (j ∷ jobs) h = ground (arith, count_where-le p q jobs h, h j)

-- The run that was read as queued is the one queued row of its id.
pub count-queued :
    (k : String) (jobs : Jobs) (j : Job)
    → IsSingle k jobs
    → get k jobs ≡ some j
    → is_queued j.status ≡ true
    → count_where (is_queued_job k) jobs ≡ 1
count-queued k [] j h found waits = absurd (cc)
count-queued k (x ∷ jobs) j h found waits =
    let fewer = count_where-le (is_queued_job k) (has_id k) jobs (λ j e. ground arith) in
    ground (arith, count-queued k jobs j, fewer)

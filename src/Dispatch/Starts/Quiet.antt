-- ===== src/Dispatch/Starts/Quiet.antt =====
-- The dispatcher when nothing happens between its statements.
use mathlib.Core.List.{Perm}
use esp32_rig.Base.{
  ℕ, ◌≤◌, String, true, false, ◌≡◌, refl, sym, ap, ap₂, subst, ◌∙◌, Option, none, some, List, [],
  ◌∷◌, ◌++◌, arith, map, lookup, Bool-cases, Option-cases, inl, inr, eq_iff, if◌then◌else◌, ◌==◌,
}
use esp32_rig.Allocation.{Grant}
use esp32_rig.Allocation.Plan.{plan}
use esp32_rig.Allocation.Plan.Complete.{decided-plan, jobs_of}
use esp32_rig.Store.Table.{count_where}
use esp32_rig.Store.Jobs.{Job, Jobs, Fields, is_queued_job, claim, start_row}
use esp32_rig.Store.Jobs.Race.{after_claim}
use esp32_rig.Dispatch.{Service, is_portal, act_all, Why, planned}
use esp32_rig.Dispatch.Demands.{demand, demand_of, Profile, or_else, default_profile}
use esp32_rig.Allocation.Reason.{Reason}
use esp32_rig.Dispatch.Starts.{
  Context, farm_of, hand_out, keep_grant, start_one, start_all, queued_jobs, decision, dispatch,
}
use esp32_rig.Dispatch.Starts.Occurs.{
  occurs, occurs-Perm, occurs-append, count-update_apart, ids_of, occurs-queued,
}

-- No run is queued twice.
abbrev pub AllSingle : Jobs → Type 0
AllSingle jobs = (k : String) → count_where (is_queued_job k) jobs ≤ 1

-- Each of these runs is queued.
abbrev AllQueued : Jobs → List Grant → Type 0
AllQueued jobs gs =
    (k : String) → occurs k (map (λ g. g.job_id) gs) ≤ count_where (is_queued_job k) jobs

claim-one :
    (id : String) (now : ℕ) (jobs : Jobs)
    → count_where (is_queued_job id) jobs ≡ 1
    → (claim id now jobs).0 ≡ true
unfolding claim
claim-one id now jobs e = ground (arith, e)

claim-count :
    (id : String) (now : ℕ) (k : String) (jobs : Jobs)
    → count_where (is_queued_job k) (claim id now jobs).1
      ≡ (if k == id then 0 else count_where (is_queued_job k) jobs)
unfolding claim
claim-count id now k jobs = elim (Bool-cases (k == id)) [
  | inl same ↦
      let k_id : k ≡ id = (eq_iff k id).0 same in
      rw same (
        subst (λ i. count_where (is_queued_job i) (claim id now jobs).1 ≡ 0) (sym k_id)
          (after_claim id now now [] jobs))
  | inr other ↦ rw other (
      count-update_apart (is_queued_job k) (is_queued_job id) (start_row now) jobs
        (λ j h. ground (arith, eq_iff j.id id, eq_iff j.id k, eq_iff k id)))
]

module _ (boards_in : Fields → List String) (lease_out : String → Grant → Jobs → Jobs) (now : ℕ)
    (since : String)
    (leases : (id k : String) (g : Grant) (jobs : Jobs)
      → count_where (is_queued_job k) (lease_out id g jobs)
        ≡ count_where (is_queued_job k) jobs) where
  -- What a round does to a service that runs its own jobs.
  record Goes (g : Grant) (s s' : Service) : Type 0 where
    mode : s'.mode ≡ s.mode
    waiting : s'.waiting ≡ s.waiting
    counts :
        (k : String) → count_where (is_queued_job k) s'.jobs ≡ count_where (is_queued_job k) s.jobs

  hand_out-Goes :
      (worker : Option String) (g : Grant) (s : Service)
      → is_portal s.mode ≡ false
      → ((hand_out boards_in lease_out now since worker g s).0 ≡ true)
        × Goes g s (hand_out boards_in lease_out now since worker g s).1
  unfolding hand_out
  hand_out-Goes (some w) g s alone =
      (refl, record { mode = refl; waiting = refl; counts = λ k. leases g.job_id k g s.jobs })
  hand_out-Goes none g s alone =
      rw alone (refl, record { mode = refl; waiting = refl; counts = λ k. refl })

  start_one-Goes :
      (g : Grant) (s : Service)
      → is_portal s.mode ≡ false
      → count_where (is_queued_job g.job_id) s.jobs ≡ 1
      → ((start_one boards_in lease_out now since g s).0 ≡ true)
        × Goes g
            (record s { jobs = (claim g.job_id now s.jobs).1 })
            (start_one boards_in lease_out now since g s).1
  unfolding start_one
  start_one-Goes g s alone queued =
      let claimed : (claim g.job_id now s.jobs).0 ≡ true = claim-one g.job_id now s.jobs queued in
      let (begun, goes) =
        hand_out-Goes g.worker g
          (keep_grant boards_in lease_out now since g (claim g.job_id now s.jobs).1 s) alone in
      rw claimed (begun, record { mode = goes.mode; waiting = goes.waiting; counts = goes.counts })

  -- If all of them are queued, all of them start.
  start_all-all :
      (gs : List Grant) (s : Service)
      → is_portal s.mode ≡ false
      → AllSingle s.jobs
      → AllQueued s.jobs gs
      → ((start_all boards_in lease_out now since gs [] s).0 ≡ map (λ g. g.job_id) gs)
        × ((start_all boards_in lease_out now since gs [] s).1.waiting ≡ s.waiting)
  unfolding start_all act_all
  start_all-all [] s alone single queued = (refl, refl)
  start_all-all (g ∷ gs) s alone single queued =
      let one : count_where (is_queued_job g.job_id) s.jobs ≡ 1 =
        (let a = single g.job_id in
          let b = queued g.job_id in ground (arith, a, b, eq_iff g.job_id g.job_id)) in
      let (begun, goes) = start_one-Goes g s alone one in
      let s' = (start_one boards_in lease_out now since g s).1 in
      let left : (k : String)
          → count_where (is_queued_job k) s'.jobs
            ≡ (if k == g.job_id then 0 else count_where (is_queued_job k) s.jobs) =
        λ k. goes.counts k ∙ claim-count g.job_id now k s.jobs in
      let (rest, waits) =
        start_all-all gs s' (ap is_portal goes.mode ∙ alone)
          (λ k. let a = single k in let b = left k in ground (arith, a, b))
          (λ k.
            let a = queued k in
            let b = left k in
            let c = single k in ground (arith, a, b, c, eq_iff k g.job_id, eq_iff g.job_id k)) in
      rw begun (ap (λ l. g.job_id ∷ l) rest, waits ∙ goes.waiting)

-- A demand is of its run.
demand_of-id :
    (j : Job) (spec : Profile) (boards : List String) → (demand_of j spec boards).job_id ≡ j.id
demand_of-id j spec [] = ground arith
demand_of-id j spec (k ∷ ks) = refl

demand-id :
    (boards_in : Fields → List String) (profiles : List (String × Profile)) (j : Job)
    → (demand boards_in profiles j).job_id ≡ j.id
unfolding demand
demand-id boards_in profiles j = elim (Bool-cases (j.kind == "suite")) [
  | inl suite ↦
      elim (Option-cases (lookup (or_else (lookup "profile" j.request) default_profile) profiles)) [
        | inl unknown ↦ simp (suite, unknown)
        | inr (spec, known) ↦ simp (suite, known, demand_of-id j spec (boards_in j.request))
      ]
  | inr other ↦ simp other
]

jobs_of-demand :
    (boards_in : Fields → List String) (profiles : List (String × Profile)) (jobs : List Job)
    → jobs_of (map (demand boards_in profiles) jobs) ≡ ids_of jobs
jobs_of-demand boards_in profiles [] = refl
jobs_of-demand boards_in profiles (j ∷ jobs) =
    ap₂ (λ k l. k ∷ l) (demand-id boards_in profiles j) (jobs_of-demand boards_in profiles jobs)

abbrev waits_for : List (String × Reason) → List (String × Why)
waits_for = map (λ e. (e.0, planned e.1))

planned-ids : (w : List (String × Reason)) → map (λ e. e.0) (waits_for w) ≡ map (λ e. e.0) w
planned-ids [] = refl
planned-ids (e ∷ w) = ap (λ l. e.0 ∷ l) (planned-ids w)

module _ (boards_in : Fields → List String) (lease_out : String → Grant → Jobs → Jobs) (now : ℕ)
    (since : String)
    (leases : (id k : String) (g : Grant) (jobs : Jobs)
      → count_where (is_queued_job k) (lease_out id g jobs)
        ≡ count_where (is_queued_job k) jobs) where
  decision-AllQueued :
      (c : Context) (s : Service)
      → AllQueued s.jobs (decision boards_in lease_out now since c s).start
  unfolding decision
  decision-AllQueued c s k =
      let p =
        plan (map (demand boards_in c.profiles) (queued_jobs boards_in lease_out now since s))
          (farm_of c s) c.paused in
      let both = occurs-append k (map (λ g. g.job_id) p.start) (map (λ e. e.0) p.waiting) in
      let all_of : occurs k (map (λ g. g.job_id) p.start ++ map (λ e. e.0) p.waiting)
          ≡ count_where (is_queued_job k) s.jobs =
        occurs-Perm k (
          decided-plan
            (map (demand boards_in c.profiles) (queued_jobs boards_in lease_out now since s))
            (farm_of c s) c.paused)
        ∙ ap (occurs k)
            (jobs_of-demand boards_in c.profiles (queued_jobs boards_in lease_out now since s))
        ∙ occurs-queued k s.jobs in
      omega (arith, both, all_of)

  decision-Perm :
      (c : Context) (s : Service)
      → let p = decision boards_in lease_out now since c s in
        Perm
          (map (λ g. g.job_id) p.start ++ map (λ e. e.0) p.waiting)
          (ids_of (queued_jobs boards_in lease_out now since s))
  unfolding decision
  decision-Perm c s =
      let jobs = queued_jobs boards_in lease_out now since s in
      subst (Perm _) (jobs_of-demand boards_in c.profiles jobs)
        (decided-plan (map (demand boards_in c.profiles) jobs) (farm_of c s) c.paused)

  -- On a farm that is no portal, when no other thread acts meanwhile: every run that the plan starts
  -- is started, and the runs that were started and those that were given a reason to wait are
  -- together the queued runs, each once.
  pub dispatch-decided :
      (c : Context) (s : Service)
      → is_portal s.mode ≡ false
      → AllSingle s.jobs
      → let (ids, s') = dispatch boards_in lease_out now since c [] s in
        (ids ≡ map (λ g. g.job_id) (decision boards_in lease_out now since c s).start)
        × Perm
            (ids ++ map (λ e. e.0) s'.waiting)
            (ids_of (queued_jobs boards_in lease_out now since s))
  unfolding dispatch
  dispatch-decided c s alone single =
      let p = decision boards_in lease_out now since c s in
      let waits = record s { waiting = waits_for p.waiting } in
      let (begun, left) =
        start_all-all boards_in lease_out now since leases p.start waits alone single
          (decision-AllQueued c s) in
      let here : dispatch boards_in lease_out now since c [] s
          ≡ start_all boards_in lease_out now since p.start [] waits =
        rw alone refl in
      let told : map (λ e. e.0) (start_all boards_in lease_out now since p.start [] waits).1.waiting
          ≡ map (λ e. e.0) p.waiting =
        ap (map (λ e. e.0)) left ∙ planned-ids p.waiting in
      rw here (
        begun,
        subst (λ l. Perm l (ids_of (queued_jobs boards_in lease_out now since s)))
            (sym (ap₂ (λ a b. a ++ b) begun told)) (decision-Perm c s),
      )

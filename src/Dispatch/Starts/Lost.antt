-- ===== src/Dispatch/Starts/Lost.antt =====
-- A run that somebody cancels while the dispatcher decides.
use esp32_rig.Base.{
  ℕ, String, Bool, true, false, ◌≡◌, refl, subst, Option, none, some, List, [], ◌∷◌, arith, any,
  contains, Bool-cases, inl, inr, eq_iff, ◌==◌,
}
use esp32_rig.Allocation.{Grant}
use esp32_rig.Store.Jobs.{Jobs, Fields, claim}
use esp32_rig.Dispatch.{Service, Step, is_portal, release, act, act_all}
use esp32_rig.Dispatch.Starts.{hand_out, keep_grant, start_one, start_all, first_turn, later_turns}
use esp32_rig.Dispatch.Starts.Off.{IsOff, takes_back, act_on-IsOff, claim-others, requeue-IsOff}

-- Whether another thread takes a run back into the queue.
abbrev pub takes_any_back : String → List Step → Bool
takes_any_back k = any (takes_back k)

pub act_all-IsOff :
    (steps : List Step) (k : String) (s : Service)
    → takes_any_back k steps ≡ false
    → IsOff k s.jobs
    → IsOff k (act_all steps s).jobs
unfolding act_all act
act_all-IsOff [] k s stays o = o
act_all-IsOff (step ∷ steps) k s stays o =
    act_all-IsOff steps k (act step s) (ground arith) (act_on-IsOff step k s.jobs (ground arith) o)

-- A run that is not queued is not the one that was claimed.
claimed-apart :
    (id : String) (now : ℕ) (k : String) (jobs : Jobs)
    → IsOff k jobs
    → (claim id now jobs).0 ≡ true
    → (k == id) ≡ false
unfolding claim
claimed-apart id now k jobs o claimed = elim (Bool-cases (k == id)) [
  | inl same ↦
      let mine : IsOff id jobs = subst (λ i. IsOff i jobs) ((eq_iff k id).0 same) o in
      absurd (ground (arith, mine.off))
  | inr other ↦ other
]

turns-split :
    (k : String) (turns : List (List Step))
    → any (takes_any_back k) turns ≡ false
    → (takes_any_back k (first_turn turns) ≡ false)
      × (any (takes_any_back k) (later_turns turns) ≡ false)
turns-split k [] stays = (refl, refl)
turns-split k (t ∷ ts) stays = (ground arith, ground arith)

module _ (boards_in : Fields → List String) (lease_out : String → Grant → Jobs → Jobs) (now : ℕ)
    (since : String)
    (leases : (id k : String) (g : Grant) (jobs : Jobs)
      → IsOff k jobs
      → IsOff k (lease_out id g jobs)) where
  hand_out-IsOff :
      (worker : Option String) (g : Grant) (k : String) (s : Service)
      → (k == g.job_id) ≡ false
      → IsOff k s.jobs
      → IsOff k (hand_out boards_in lease_out now since worker g s).1.jobs
  unfolding hand_out release
  hand_out-IsOff (some w) g k s apart o = leases g.job_id k g s.jobs o
  hand_out-IsOff none g k s apart o = elim (Bool-cases (is_portal s.mode)) [
    | inl here ↦ rw here (requeue-IsOff g.job_id k s.jobs apart o)
    | inr elsewhere ↦ rw elsewhere o
  ]

  start_one-IsOff :
      (g : Grant) (k : String) (s : Service)
      → IsOff k s.jobs
      → IsOff k (start_one boards_in lease_out now since g s).1.jobs
        × ((start_one boards_in lease_out now since g s).0 ≡ true → (k == g.job_id) ≡ false)
  unfolding start_one
  start_one-IsOff g k s o = elim (Bool-cases (claim g.job_id now s.jobs).0) [
    | inl claimed ↦
        let apart = claimed-apart g.job_id now k s.jobs o claimed in
        rw claimed (
          hand_out-IsOff g.worker g k
              (keep_grant boards_in lease_out now since g (claim g.job_id now s.jobs).1 s) apart
              (claim-others g.job_id now k s.jobs o),
          λ _. apart,
        )
    | inr lost ↦ rw lost (claim-others g.job_id now k s.jobs o, λ e. absurd (cc))
  ]

  -- A run that is there and no longer queued, because somebody cancelled it for instance, is not
  -- started in what is left of the dispatcher's loop, and is not queued again: whether or not the plan
  -- starts it, and whatever other threads do before the claims, as long as no cancellation takes the
  -- run back from a worker that had not taken it, and the portal, when it leases a run to a worker,
  -- queues none.
  pub start_all-lost :
      (gs : List Grant) (turns : List (List Step)) (k : String) (s : Service)
      → any (takes_any_back k) turns ≡ false
      → IsOff k s.jobs
      → (contains k (start_all boards_in lease_out now since gs turns s).0 ≡ false)
        × IsOff k (start_all boards_in lease_out now since gs turns s).1.jobs
  unfolding start_all
  start_all-lost [] turns k s stays o = (refl, o)
  start_all-lost (g ∷ gs) turns k s stays o =
      let s' = act_all (first_turn turns) s in
      let (here, later) = turns-split k turns stays in
      let (o', apart) = start_one-IsOff g k s' (act_all-IsOff (first_turn turns) k s here o) in
      let (rest, last) =
        start_all-lost gs (later_turns turns) k (start_one boards_in lease_out now since g s').1
          later o' in
      (
        elim (Bool-cases (start_one boards_in lease_out now since g s').0) [
          | inl started ↦
              rw started (ground (arith, rest, apart started, eq_iff k g.job_id, eq_iff g.job_id k))
          | inr left ↦ rw left rest
        ],
        last,
      )

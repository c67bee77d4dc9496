-- ===== src/Dispatch/Starts/Rounds.antt =====
-- What the running jobs hold, round after round of the dispatcher.
use mathlib.Core.List.{append-nil}
use esp32_rig.Base.{ℕ, ◌≤◌, String, sym, subst, Option, List, [], ◌∷◌, arith, length}
use esp32_rig.Allocation.{Grant}
use esp32_rig.Allocation.Plan.{runs_on}
use esp32_rig.Allocation.Plan.Safety.{bound_of}
use esp32_rig.Allocation.Rig.Exclusive.{IsExclusive}
use esp32_rig.Store.Jobs.{Jobs, Fields}
use esp32_rig.Dispatch.{Service, Step, act_all}
use esp32_rig.Dispatch.Starts.{farm_of, values, dispatch, Context, Round, worker}
use esp32_rig.Dispatch.Starts.Off.{IsOff}
use esp32_rig.Dispatch.Starts.Kept.{AllOff, AllApart, act_all-IsKept}
use esp32_rig.Dispatch.Starts.Held.{dispatch-AllApart}

IsExclusive-bound :
    (bound bound' : ℕ) (gs : List Grant)
    → length gs ≤ bound'
    → IsExclusive bound gs
    → IsExclusive bound' gs
IsExclusive-bound bound bound' gs fits x = record {
  boards = x.boards;
  resources = x.resources;
  alone = x.alone;
  within = fits;
}

-- On every worker the running jobs exclude one another, however many there are.
abbrev pub AllExcluding : List Grant → Type 0
AllExcluding gs = AllApart (λ k. length (runs_on k gs)) gs

-- No job that holds something is queued, and the running jobs exclude one another.
pub record IsSound (s : Service) : Type 0 where
  pub off : AllOff s.jobs s.grants
  pub apart : AllExcluding (values s.grants)

module _ (boards_in : Fields → List String) (lease_out : String → Grant → Jobs → Jobs) (now : ℕ)
    (since : String)
    (leases : (id k : String) (g : Grant) (jobs : Jobs)
      → IsOff k jobs
      → IsOff k (lease_out id g jobs)) where
  act_all-IsSound : (steps : List Step) (s : Service) → IsSound s → IsSound (act_all steps s)
  act_all-IsSound steps s h =
      let bound : Option String → ℕ = λ k. length (runs_on k (values s.grants)) in
      let h' =
        act_all-IsKept bound steps s []
          (record { off = h.off; apart = subst (AllApart bound) (sym (append-nil _)) h.apart }) in
      let after = values (act_all steps s).grants in
      let apart : AllApart bound after = subst (AllApart bound) (append-nil after) h'.apart in
      record {
        off = h'.off;
        apart = λ k.
            IsExclusive-bound (bound k) (length (runs_on k after)) (runs_on k after) (omega arith)
              (apart k);
      }

  dispatch-IsSound :
      (c : Context) (turns : List (List Step)) (s : Service)
      → IsSound s
      → IsSound (dispatch boards_in lease_out now since c turns s).1
  unfolding farm_of
  dispatch-IsSound c turns s h =
      let f = farm_of c s in
      let before : AllApart (bound_of f) (values s.grants) = λ k.
        IsExclusive-bound (length (runs_on k (values s.grants))) (bound_of f k)
          (runs_on k (values s.grants)) (omega arith) (h.apart k) in
      let (off, apart) =
        dispatch-AllApart boards_in lease_out now since leases c turns s h.off before in
      let after = values (dispatch boards_in lease_out now since c turns s).1.grants in
      record {
        off = off;
        apart = λ k.
            IsExclusive-bound (bound_of f k) (length (runs_on k after)) (runs_on k after)
              (omega arith) (apart k);
      }

  -- From a service where no job that holds something is queued and the running jobs of a worker
  -- exclude one another, one that runs nothing for instance, every sequence of passes of the
  -- dispatcher leaves it so: whichever workers, boards, limits and holds each pass finds, and
  -- whatever other threads submit, cancel, promote, end or take back from a worker in between and
  -- before each claim.
  pub worker-IsSound :
      (rounds : List Round) (s : Service)
      → IsSound s
      → IsSound (worker boards_in lease_out now since rounds s)
  unfolding worker
  worker-IsSound [] s h = h
  worker-IsSound (r ∷ rs) s h =
      worker-IsSound rs _ (
        dispatch-IsSound r.context r.turns (act_all r.meanwhile s)
          (act_all-IsSound r.meanwhile s h))

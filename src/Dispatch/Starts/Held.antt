-- ===== src/Dispatch/Starts/Held.antt =====
-- What the running jobs hold, whatever the dispatcher starts and whatever happens meanwhile.
use mathlib.Core.List.{append_assoc, append-nil, map-append}
use esp32_rig.Base.{
  ℕ, String, true, ◌≡◌, refl, sym, ap, subst, ◌∙◌, ◌&&◌, Option, none, some, List, [], ◌∷◌, ◌++◌,
  map, put, Bool-cases, inl, inr, ◌==◌,
}
use esp32_rig.Allocation.{Grant}
use esp32_rig.Allocation.Plan.{runs_on}
use esp32_rig.Allocation.Plan.Safety.{AllExclusive, bound_of, plan-AllExclusive}
use esp32_rig.Allocation.Rig.Exclusive.{IsExclusive}
use esp32_rig.Store.Jobs.{Jobs, Fields, claim}
use esp32_rig.Dispatch.{planned, Service, is_portal, Step, act_all, release}
use esp32_rig.Dispatch.Starts.{
  Context, farm_of, values, with_since, keep_grant, hand_out, start_one, start_all, decision,
  dispatch, first_turn, later_turns, is_empty, online,
}
use esp32_rig.Dispatch.Starts.Thin.{dropped, kept, Alike, Thin-refl, Thin-append, runs_on-Thin}
use esp32_rig.Dispatch.Starts.Off.{IsOff, claimed-IsOff, claim-others}
use esp32_rig.Dispatch.Starts.Kept.{
  AllOff, AllApart, AllOff-map, put-fresh, values-filter, IsKept, pop-AllOff, act_all-IsKept,
}

module _ (bound : Option String → ℕ) (boards_in : Fields → List String)
    (lease_out : String → Grant → Jobs → Jobs) (now : ℕ) (since : String)
    (leases : (id k : String) (g : Grant) (jobs : Jobs)
      → IsOff k jobs
      → IsOff k (lease_out id g jobs)) where
  put-AllOff :
      (jobs : Jobs) (id : String) (g : Grant) (grants : List (String × Grant))
      → IsOff id jobs
      → AllOff jobs grants
      → AllOff jobs (put id g grants)
  put-AllOff jobs id g [] o h = (o, tt)
  put-AllOff jobs id g ((k, w) ∷ grants) o h = elim (Bool-cases (k == id)) [
    | inl same ↦ rw same (o, h.1)
    | inr other ↦ rw other (h.0, put-AllOff jobs id g grants o h.1)
  ]

  -- The grant is kept beside the others.
  keep_grant-IsKept :
      (g : Grant) (s : Service) (rest : List Grant)
      → (claim g.job_id now s.jobs).0 ≡ true
      → IsKept bound s (g ∷ rest)
      → IsKept bound
          (keep_grant boards_in lease_out now since g (claim g.job_id now s.jobs).1 s)
          rest
  keep_grant-IsKept g s rest claimed h =
      let jobs' = (claim g.job_id now s.jobs).1 in
      let g' = with_since g since in
      let alike : Alike g' g = record {
        boards = refl;
        resources = refl;
        shared = refl;
        worker = refl;
      } in
      let last : values (put g.job_id g' s.grants) ++ rest ≡ values s.grants ++ g' ∷ rest =
        ap (λ l. values l ++ rest) (put-fresh s.jobs now g.job_id g' s.grants claimed h.off)
        ∙ ap (λ l. l ++ rest) (map-append (λ e. e.1) s.grants ((g.job_id, g') ∷ []))
        ∙ append_assoc (values s.grants) (g' ∷ []) rest in
      record {
        off =
            put-AllOff jobs' g.job_id g' s.grants (claimed-IsOff g.job_id now s.jobs claimed)
              (AllOff-map s.jobs jobs' s.grants (λ k. claim-others g.job_id now k s.jobs) h.off);
        apart = subst (AllApart bound) (sym last) (
            runs_on-Thin bound
              (Thin-append (Thin-refl (values s.grants)) (kept alike (Thin-refl rest))) h.apart);
      }

  hand_out-IsKept :
      (worker : Option String) (g : Grant) (s : Service) (rest : List Grant)
      → IsKept bound s rest
      → IsKept bound (hand_out boards_in lease_out now since worker g s).1 rest
  unfolding hand_out release
  hand_out-IsKept (some w) g s rest h = record {
    off =
        AllOff-map s.jobs (lease_out g.job_id g s.jobs) s.grants (λ k. leases g.job_id k g s.jobs)
          h.off;
    apart = h.apart;
  }
  hand_out-IsKept none g s rest h = elim (Bool-cases (is_portal s.mode)) [
    | inl here ↦ rw here (record {
      off = pop-AllOff bound g.job_id s.jobs s.grants h.off;
      apart = runs_on-Thin bound (Thin-append (values-filter _ s.grants) (Thin-refl rest)) h.apart;
    })
    | inr elsewhere ↦ rw elsewhere h
  ]

  start_one-IsKept :
      (g : Grant) (s : Service) (rest : List Grant)
      → IsKept bound s (g ∷ rest)
      → IsKept bound (start_one boards_in lease_out now since g s).1 rest
  unfolding start_one
  start_one-IsKept g s rest h = elim (Bool-cases (claim g.job_id now s.jobs).0) [
    | inl claimed ↦ rw claimed (
        hand_out-IsKept g.worker g
          (keep_grant boards_in lease_out now since g (claim g.job_id now s.jobs).1 s) rest
          (keep_grant-IsKept g s rest claimed h))
    | inr lost ↦ rw lost (record {
      off =
          AllOff-map s.jobs (claim g.job_id now s.jobs).1 s.grants
            (λ k. claim-others g.job_id now k s.jobs) h.off;
      apart =
          runs_on-Thin bound (Thin-append (Thin-refl (values s.grants)) (dropped (Thin-refl rest)))
            h.apart;
    })
  ]

  start_all-IsKept :
      (gs : List Grant) (turns : List (List Step)) (s : Service)
      → IsKept bound s gs
      → IsKept bound (start_all boards_in lease_out now since gs turns s).1 []
  unfolding start_all
  start_all-IsKept [] turns s h = h
  start_all-IsKept (g ∷ gs) turns s h = start_all-IsKept gs (later_turns turns) _ (
      start_one-IsKept g (act_all (first_turn turns) s) gs
        (act_all-IsKept bound (first_turn turns) s (g ∷ gs) h))

module _ (boards_in : Fields → List String) (lease_out : String → Grant → Jobs → Jobs) (now : ℕ)
    (since : String)
    (leases : (id k : String) (g : Grant) (jobs : Jobs)
      → IsOff k jobs
      → IsOff k (lease_out id g jobs)) where
  -- While no job that holds something is queued, and on each worker the running jobs hold no board and
  -- no resource twice, with a job that is not shared alone there: the dispatcher keeps it so, whatever
  -- it starts and whatever other threads submit, cancel, promote or end before each of its claims.
  -- The jobs on a worker stay within its limit, or within those that ran there before.
  pub dispatch-AllApart :
      (c : Context) (turns : List (List Step)) (s : Service)
      → AllOff s.jobs s.grants
      → AllApart (bound_of (farm_of c s)) (values s.grants)
      → let s' = (dispatch boards_in lease_out now since c turns s).1 in
        AllOff s'.jobs s'.grants × AllApart (bound_of (farm_of c s)) (values s'.grants)
  unfolding dispatch decision farm_of
  dispatch-AllApart c turns s off apart =
      elim (Bool-cases (is_portal s.mode && is_empty (online c))) [
        | inl nobody ↦ rw nobody (off, apart)
        | inr somebody ↦
            let f = farm_of c s in
            let waits = record s {
              waiting =
                  map (λ e. (e.0, planned e.1))
                    (decision boards_in lease_out now since c s).waiting;
            } in
            let before : AllExclusive f [] = λ k.
              subst (λ l. IsExclusive (bound_of f k) (runs_on k l))
                (sym (append-nil (values s.grants))) (apart k) in
            let kept_all =
              start_all-IsKept (bound_of f) boards_in lease_out now since leases
                (decision boards_in lease_out now since c s).start turns waits
                (record { off = off; apart = plan-AllExclusive _ f c.paused before }) in
            rw somebody (
              kept_all.off,
              λ k.
                  subst (λ l. IsExclusive (bound_of f k) (runs_on k l)) (append-nil _)
                    (kept_all.apart k),
            )
      ]

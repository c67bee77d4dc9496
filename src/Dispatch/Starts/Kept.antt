-- ===== src/Dispatch/Starts/Kept.antt =====
-- What the running jobs hold, through what other threads do.
use esp32_rig.Base.{
  ℕ, String, Bool, true, ◌≡◌, refl, ap, subst, Option, List, [], ◌∷◌, ◌++◌, arith, filter, put,
  Bool-cases, inl, inr, eq_iff, All, All-filter, ◌==◌,
}
use esp32_rig.Allocation.{Grant}
use esp32_rig.Allocation.Plan.{runs_on}
use esp32_rig.Allocation.Rig.Exclusive.{IsExclusive}
use esp32_rig.Store.Jobs.{Jobs, claim, requeue}
use esp32_rig.Dispatch.{
  Service, Step, creates, cancels, promotes, claims, ends, releases, requeues, act, act_on,
  act_grants, act_all, pop,
}
use esp32_rig.Dispatch.Starts.{values}
use esp32_rig.Dispatch.Starts.Thin.{
  Thin, ended, dropped, kept, Alike-refl, Thin-refl, Thin-append, runs_on-Thin,
}
use esp32_rig.Dispatch.Starts.Off.{IsOff, act_on-IsOff, requeue-IsOff}

-- No job that holds something is queued.
abbrev pub AllOff : Jobs → List (String × Grant) → Type 0
AllOff jobs = All (λ e. IsOff e.0 jobs)

-- On each worker the kept grants and those still to start exclude one another.
abbrev pub AllApart : (Option String → ℕ) → List Grant → Type 0
AllApart bound gs = (k : Option String) → IsExclusive (bound k) (runs_on k gs)

pub AllOff-map :
    (jobs jobs' : Jobs) (grants : List (String × Grant))
    → ((k : String) → IsOff k jobs → IsOff k jobs')
    → AllOff jobs grants
    → AllOff jobs' grants
AllOff-map jobs jobs' [] f h = tt
AllOff-map jobs jobs' (e ∷ es) f h = (f e.0 h.0, AllOff-map jobs jobs' es f h.1)

-- A job whose row was queued held nothing, so that a grant for it comes last.
pub put-fresh :
    (jobs : Jobs) (now : ℕ) (id : String) (g : Grant) (grants : List (String × Grant))
    → (claim id now jobs).0 ≡ true
    → AllOff jobs grants
    → put id g grants ≡ grants ++ (id, g) ∷ []
unfolding claim
put-fresh jobs now id g [] queued h = refl
put-fresh jobs now id g ((k, w) ∷ grants) queued h = elim (Bool-cases (k == id)) [
  | inl same ↦
      let o : IsOff id jobs = subst (λ i. IsOff i jobs) ((eq_iff k id).0 same) h.0 in
      absurd (ground (arith, o.off))
  | inr other ↦ rw other (ap (λ l. (k, w) ∷ l) (put-fresh jobs now id g grants queued h.1))
]

pub values-filter :
    (p : String × Grant → Bool) (grants : List (String × Grant))
    → Thin (values (filter p grants)) (values grants)
values-filter p [] = ended
values-filter p (e ∷ es) = elim (Bool-cases (p e)) [
  | inl stays ↦ rw stays (kept (Alike-refl e.1) (values-filter p es))
  | inr goes ↦ rw goes (dropped (values-filter p es))
]

-- What is kept through a round, with these grants still to start.
pub record IsKept (bound : Option String → ℕ) (s : Service) (rest : List Grant) : Type 0 where
  pub off : AllOff s.jobs s.grants
  pub apart : AllApart bound (values s.grants ++ rest)

module _ (bound : Option String → ℕ) where
  -- What is given up with a run that is queued again is what was kept for it.
  pub pop-AllOff :
      (id : String) (jobs : Jobs) (grants : List (String × Grant))
      → AllOff jobs grants
      → AllOff (requeue id jobs).1 (pop id grants)
  pop-AllOff id jobs [] h = tt
  pop-AllOff id jobs (e ∷ es) h = elim (Bool-cases (e.0 == id)) [
    | inl same ↦ rw same (pop-AllOff id jobs es h.1)
    | inr other ↦ rw other (requeue-IsOff id e.0 jobs other h.0, pop-AllOff id jobs es h.1)
  ]

  act-AllOff :
      (step : Step) (jobs : Jobs) (grants : List (String × Grant))
      → AllOff jobs grants
      → AllOff (act_on step jobs) (act_grants step grants)
  act-AllOff (releases id) jobs grants h = All-filter _ _ grants h
  act-AllOff (requeues id) jobs grants h = pop-AllOff id jobs grants h
  act-AllOff (creates id kind at request log progress) jobs grants h =
      AllOff-map jobs _ grants
        (λ k. act_on-IsOff (creates id kind at request log progress) k jobs refl) h
  act-AllOff (cancels id at result) jobs grants h =
      AllOff-map jobs _ grants (λ k. act_on-IsOff (cancels id at result) k jobs refl) h
  act-AllOff (promotes id) jobs grants h =
      AllOff-map jobs _ grants (λ k. act_on-IsOff (promotes id) k jobs refl) h
  act-AllOff (claims id at) jobs grants h =
      AllOff-map jobs _ grants (λ k. act_on-IsOff (claims id at) k jobs refl) h
  act-AllOff (ends id status at result) jobs grants h =
      AllOff-map jobs _ grants (λ k. act_on-IsOff (ends id status at result) k jobs refl) h

  act_grants-Thin :
      (step : Step) (grants : List (String × Grant))
      → Thin (values (act_grants step grants)) (values grants)
  act_grants-Thin (releases id) grants = values-filter _ grants
  act_grants-Thin (requeues id) grants = values-filter _ grants
  act_grants-Thin (creates _ _ _ _ _ _) grants = Thin-refl _
  act_grants-Thin (cancels _ _ _) grants = Thin-refl _
  act_grants-Thin (promotes _) grants = Thin-refl _
  act_grants-Thin (claims _ _) grants = Thin-refl _
  act_grants-Thin (ends _ _ _ _) grants = Thin-refl _

  pub act_all-IsKept :
      (steps : List Step) (s : Service) (rest : List Grant)
      → IsKept bound s rest
      → IsKept bound (act_all steps s) rest
  unfolding act_all act
  act_all-IsKept [] s rest h = h
  act_all-IsKept (step ∷ steps) s rest h = act_all-IsKept steps (act step s) rest (record {
    off = act-AllOff step s.jobs s.grants h.off;
    apart =
        runs_on-Thin bound (Thin-append (act_grants-Thin step s.grants) (Thin-refl rest)) h.apart;
  })

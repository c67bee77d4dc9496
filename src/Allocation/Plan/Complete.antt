-- ===== src/Allocation/Plan/Complete.antt =====
-- The plan decides every queued run once: it starts it or says why it waits.
use mathlib.Core.List.{Perm, perm_middle, map-append, append_assoc, append-nil}
use mathlib.Core.List.Perm
use esp32_rig.Base.{
  String, ◌≡◌, refl, ap, Bool, true, false, List, [], ◌∷◌, ◌++◌, map, arith, inl, inr, All-intro,
}
use esp32_rig.Allocation.{Demand, Grant}
use esp32_rig.Allocation.Reason.{Reason, queue_paused}
use esp32_rig.Allocation.Rig.{
  Rig, attempt, granted, attempt_alone, attempt_idle, attempt_shared, attempt_boards, grant_alone,
  grant_shared,
}
use esp32_rig.Allocation.Plan.{
  Plan, Farm, plan, no_plan, place, place_all, settle, try_rigs, candidates, wait_for, Tried-cases,
  Offer-cases, rigs_of, first_reason,
}
use esp32_rig.Allocation.Plan.Safety.{try_rigs-started}

abbrev pub started_jobs : Plan → List String
started_jobs p = map (λ g. g.job_id) p.start

abbrev pub waiting_jobs : Plan → List String
waiting_jobs p = map (λ e. e.0) p.waiting

abbrev pub decided : Plan → List String
decided p = started_jobs p ++ waiting_jobs p

attempt-job : (r : Rig) (d : Demand) (g : Grant) → attempt r d ≡ granted g → g.job_id ≡ d.job_id
unfolding attempt attempt_alone attempt_idle attempt_shared attempt_boards grant_alone grant_shared
attempt-job r d g e = ground arith

wait_for-perm :
    (d : Demand) (why : Reason) (p : Plan)
    → Perm (decided (wait_for d why p)) (d.job_id ∷ decided p)
wait_for-perm d why p =
    rw (map-append (λ e. e.0) p.waiting ((d.job_id, why) ∷ []), ← append_assoc)
      (Perm.trans (perm_middle (decided p) []) (rw append-nil (Perm.refl _)))

start-perm :
    (g : Grant) (p : Plan)
    → Perm (decided (record p { start = p.start ++ g ∷ [] })) (g.job_id ∷ decided p)
start-perm g p =
    rw (map-append (λ h. h.job_id) p.start (g ∷ []), append_assoc)
      (perm_middle (started_jobs p) (waiting_jobs p))

settle-perm :
    (d : Demand) (rigs rs : List Rig) (p : Plan)
    → Perm (decided (settle d (try_rigs d rs) rigs p).1) (d.job_id ∷ decided p)
unfolding settle
settle-perm d rigs rs p = elim (Tried-cases (try_rigs d rs)) [
  | inl (r, g, e) ↦
      let anything = All-intro (λ _. Unit {0}) rs (λ _. tt) in
      let (_, granting) = try_rigs-started (λ _. Unit {0}) d rs r g anything e in
      rw (e, settle, ← attempt-job r d g granting) (start-perm g p)
  | inr (outs, e) ↦ rw (e, settle) (wait_for-perm d (first_reason outs) p)
]

place-perm :
    (d : Demand) (rigs : List Rig) (p : Plan)
    → Perm (decided (place d rigs p).1) (d.job_id ∷ decided p)
unfolding place
place-perm d rigs p = elim (Offer-cases (candidates d rigs)) [
  | inr (why, e) ↦ rw (e, place) (wait_for-perm d why p)
  | inl (rs, e) ↦ rw (e, place) (settle-perm d rigs rs p)
]

abbrev pub jobs_of : List Demand → List String
jobs_of = map λ d. d.job_id

place_all-perm :
    (ds : List Demand) (rigs : List Rig) (p : Plan)
    → Perm (decided (place_all ds rigs p).1) (jobs_of ds ++ decided p)
unfolding place_all
place_all-perm [] rigs p = Perm.refl _
place_all-perm (d ∷ ds) rigs p =
    let (rigs', p') = place d rigs p in
    Perm.trans (place_all-perm ds rigs' p') (
      Perm.trans (Perm.append_left (jobs_of ds) (place-perm d rigs p))
        (perm_middle (jobs_of ds) (decided p)))

map-fst-paused :
    (ds : List Demand)
    → waiting_jobs (record { start = []; waiting = map (λ d. (d.job_id, queue_paused)) ds })
      ≡ jobs_of ds
map-fst-paused [] = refl
map-fst-paused (d ∷ ds) = ap (λ l. d.job_id ∷ l) (map-fst-paused ds)

-- The jobs that the plan starts and those that it gives a reason to wait are together the jobs of
-- the queue, each as often as it is queued: none is dropped and none is decided twice.
pub decided-plan :
    (queue : List Demand) (f : Farm) (paused : Bool)
    → Perm (decided (plan queue f paused)) (jobs_of queue)
unfolding plan
decided-plan queue f true = rw (map-fst-paused queue) (Perm.refl _)
decided-plan queue f false =
    rw (append-nil (jobs_of queue)) at (place_all-perm queue (rigs_of f) no_plan)

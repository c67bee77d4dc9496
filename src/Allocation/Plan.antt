-- ===== src/Allocation/Plan.antt =====
-- allocation.py, `plan`: which of the queued demands start now, over every rig of the farm.
pub mod Safety
pub mod Complete
use esp32_rig.Base.{
  ◌≡◌, refl, ◌⊎◌, inl, inr, ℕ, String, Bool, Option, none, some, List, [], ◌∷◌, ◌++◌, map, eqb,
  if◌then◌else◌, length, filter, any, same_name,
}
use esp32_rig.Allocation.{Board, Demand, Grant}
use esp32_rig.Allocation.Reason.{
  Reason, queue_paused, rig_not_connected, rig_lacks_profile, no_worker_runs, raised,
}
use esp32_rig.Allocation.Rig.{
  Rig, new_rig, runs_profile, eligible, block, granted, refused, attempt, activate,
}

-- `waiting` is a dictionary: a demand's entry is its latest.
pub record Plan : Type 0 where
  pub start : List Grant
  pub waiting : List (String × Reason)

-- The dispatcher's arguments: what the running jobs hold, and each worker's limit and profiles.
pub record Farm : Type 0 where
  pub boards : List Board
  pub running : List Grant
  pub limit : ℕ
  pub limits : List (Option String × ℕ)
  pub profiles : List (Option String × List String)

abbrev pub has_name : Option String → List (Option String) → Bool
has_name k names = any (same_name k) names

-- Names in their first order, each once.
unfoldable pub distinct : List (Option String) → List (Option String) → List (Option String)
distinct [] names = names
distinct (k ∷ ks) names = distinct ks (if has_name k names then names else names ++ k ∷ [])

abbrev pub name_of {ℓ} : {V : Type ℓ} → Option String → List (Option String × V) → Option V
name_of k [] = none
name_of k ((j, v) ∷ m) = if same_name j k then some v else name_of k m

abbrev pub or_one : List (Option String) → List (Option String)
or_one [] = none ∷ []
or_one (k ∷ ks) = k ∷ ks

unfoldable pub rig_names : Farm → List (Option String)
unfolding distinct
rig_names f = or_one (
    distinct
      (map (λ b. b.worker) f.boards ++ (map (λ g. g.worker) f.running ++ map (λ e. e.0) f.limits))
      [])

abbrev pub limit_of : Farm → Option String → ℕ
limit_of f k = elim (name_of k f.limits) [ none ↦ f.limit | some l ↦ l ]

-- The runs on one worker.
abbrev pub runs_on : Option String → List Grant → List Grant
runs_on k = filter (λ g. same_name g.worker k)

unfoldable pub rig_of : Farm → Bool → Option String → Rig
unfolding new_rig
rig_of f alone k =
    new_rig k (filter (λ b. same_name b.worker k) f.boards) (runs_on k f.running) (limit_of f k)
      (name_of k f.profiles) alone

unfoldable pub rigs_of : Farm → List Rig
unfolding rig_names rig_of
rigs_of f = let names = rig_names f in map (rig_of f (eqb (length names) 1)) names

-- The candidates of a demand, or why it has none.
pub data Offer : Type 0 where
  offered : List Rig → Offer
  nobody : Reason → Offer

-- Among the rigs it may run on: those that could take it, or the first that runs its profile.
unfoldable pub candidates_in : Demand → List Rig → Offer
candidates_in d rigs = elim (filter (λ r. eligible r d) rigs) [
  | r ∷ rs ↦ offered (r ∷ rs)
  | [] ↦ elim (filter (λ r. runs_profile r d) rigs) [
    | [] ↦ nobody (no_worker_runs d)
    | r ∷ rs ↦ offered (r ∷ [])
  ]
]

unfoldable pub candidates_named : Demand → String → List Rig → Offer
unfolding candidates_in
candidates_named d k rigs = elim rigs [
  | [] ↦ nobody (rig_not_connected k)
  | r ∷ rs ↦ if runs_profile r d then candidates_in d (r ∷ rs) else nobody (rig_lacks_profile k d)
]

unfoldable pub candidates : Demand → List Rig → Offer
unfolding candidates_named candidates_in
candidates d rigs = elim d.rig [
  | none ↦ candidates_in d rigs
  | some k ↦ candidates_named d k (filter (λ r. same_name r.name (some k)) rigs)
]

-- What came of trying the candidates in order: the rig that started it with the grant, or each
-- rig's refusal.
pub data Tried : Type 0 where
  started : Rig → Grant → Tried
  declined : List (Rig × Reason × Bool) → Tried

abbrev pub decline : Rig → Reason → Bool → Tried → Tried
decline r why whole (started q g) = started q g
decline r why whole (declined rest) = declined ((r, why, whole) ∷ rest)

pub Tried-cases :
    (t : Tried)
    → ((r : Rig) × (g : Grant) × (t ≡ started r g))
      ⊎ ((outs : List (Rig × Reason × Bool)) × (t ≡ declined outs))
Tried-cases (started r g) = inl (r, g, refl)
Tried-cases (declined outs) = inr (outs, refl)

pub Offer-cases :
    (o : Offer) → ((rs : List Rig) × (o ≡ offered rs)) ⊎ ((why : Reason) × (o ≡ nobody why))
Offer-cases (offered rs) = inl (rs, refl)
Offer-cases (nobody why) = inr (why, refl)

unfoldable pub try_rigs : Demand → List Rig → Tried
try_rigs d [] = declined []
try_rigs d (r ∷ rs) =
    let rest = try_rigs d rs in
    elim (attempt r d) [ granted g ↦ started r g | refused why whole ↦ decline r why whole rest ]

-- A rig changed in place: it is known by its name.
unfoldable pub update_rig : Option String → (Rig → Rig) → List Rig → List Rig
update_rig k f [] = []
update_rig k f (r ∷ rs) = (if same_name r.name k then f r else r) ∷ update_rig k f rs

unfoldable pub block_all : Demand → List (Rig × Reason × Bool) → List Rig → List Rig
unfolding update_rig
block_all d [] rigs = rigs
block_all d ((r, why, whole) ∷ rest) rigs =
    block_all d rest (update_rig r.name (λ q. block q d whole) rigs)

abbrev pub wait_for : Demand → Reason → Plan → Plan
wait_for d why p = record p { waiting = p.waiting ++ (d.job_id, why) ∷ [] }

-- `outcomes[0][1][0]`
abbrev pub first_reason : List (Rig × Reason × Bool) → Reason
first_reason [] = raised
first_reason ((r, why, whole) ∷ rest) = why

unfoldable pub settle : Demand → Tried → List Rig → Plan → List Rig × Plan
unfolding update_rig block_all
settle d (started r g) rigs p =
    (update_rig r.name (activate g) rigs, record p { start = p.start ++ g ∷ [] })
settle d (declined outs) rigs p = (block_all d outs rigs, wait_for d (first_reason outs) p)

-- One round of the loop over the queue.
unfoldable pub place : Demand → List Rig → Plan → List Rig × Plan
place d rigs p = elim (candidates d rigs) [
  | nobody why ↦ (rigs, wait_for d why p)
  | offered rs ↦ settle d (try_rigs d rs) rigs p
]

unfoldable pub place_all : List Demand → List Rig → Plan → List Rig × Plan
place_all [] rigs p = (rigs, p)
place_all (d ∷ ds) rigs p = let (rigs', p') = place d rigs p in place_all ds rigs' p'

abbrev pub no_plan : Plan
no_plan = record { start = []; waiting = [] }

unfoldable pub plan : List Demand → Farm → Bool → Plan
plan queue f paused =
    if paused
    then record { start = []; waiting = map (λ d. (d.job_id, queue_paused)) queue }
    else (place_all queue (rigs_of f) no_plan).1

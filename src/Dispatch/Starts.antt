-- ===== src/Dispatch/Starts.antt =====
-- service.py, `_dispatch`: the queued runs that start now. Between its statements other threads act:
-- the turns say how, one list of steps before each claim.
pub mod Thin
pub mod Off
pub mod Occurs
pub mod Kept
pub mod Held
pub mod Lost
pub mod Rounds
pub mod Quiet
use esp32_rig.Base.{
  ℕ, String, Bool, true, false, not, ◌&&◌, ◌||◌, Option, none, some, List, [], ◌∷◌, map, filter,
  any, lookup, contains, sorted_set, put, if◌then◌else◌, ◌==◌,
}
use esp32_rig.Allocation.{Board, Hold, Demand, Grant}
use esp32_rig.Allocation.Plan.{Plan, Farm, plan}
use esp32_rig.Store.Jobs.{Job, Jobs, Fields, is_queued, claim, requeue}
use esp32_rig.Store.Queue.{active}
use esp32_rig.Store.Holds.{HeldBoard, Holds}
use esp32_rig.Dispatch.{
  Mode, is_portal, Why, planned, no_worker_connected, no_worker_ready, Service, release, Step,
  act_all,
}
use esp32_rig.Dispatch.Demands.{Profile, demand}

-- A worker that `online_workers` lists; names are all different.
pub record Worker : Type 0 where
  pub name : String
  pub update_state : Option String
  pub drained : Bool
  pub max_runs : ℕ
  pub profiles : List String

-- What else the dispatcher reads: the boards are those of the last inventory.
pub record Context : Type 0 where
  pub profiles : List (String × Profile)
  pub workers : List Worker
  pub boards : List Board
  pub holds : Holds
  pub max_runs : ℕ
  pub paused : Bool

abbrev pub updating_states : List String
updating_states = "pending" ∷ "staged" ∷ "installing" ∷ []

abbrev pub is_updating : Worker → Bool
is_updating w =
    elim w.update_state [ none ↦ false | some s ↦ contains s updating_states ] || w.drained

abbrev pub names_of : List Worker → List String
names_of = map (λ w. w.name)

unfoldable pub updating : Context → List String
updating c = names_of (filter is_updating c.workers)

unfoldable pub online : Context → List Worker
unfolding updating
online c = filter (λ w. not (contains w.name (updating c))) c.workers

-- `holds.get(board["id"])`
abbrev pub hold_of : Holds → String → Option Hold
hold_of holds id = elim (lookup id holds) [
  | none ↦ none
  | some h ↦ some (record { state = h.state; reason = h.reason })
]

abbrev pub with_hold : Holds → Board → Board
with_hold holds b = record b { hold = hold_of holds b.id }

abbrev pub is_on : List String → Board → Bool
is_on names b = elim b.worker [ none ↦ false | some w ↦ contains w names ]

-- The boards of the plan; on a portal, none of a worker that is updating.
unfoldable pub plan_boards : Mode → Context → List Board
unfolding updating
plan_boards mode c = map (with_hold c.holds) (
    filter (λ b. not (b.id == "") && not (is_on (if is_portal mode then updating c else []) b))
      c.boards)

abbrev pub values : List (String × Grant) → List Grant
values = map (λ e. e.1)

unfoldable pub farm_of : Context → Service → Farm
unfolding plan_boards online
farm_of c s = record {
  boards = plan_boards s.mode c;
  running = values s.grants;
  limit = c.max_runs;
  limits = if is_portal s.mode then map (λ w. (some w.name, w.max_runs)) (online c) else [];
  profiles = if is_portal s.mode then map (λ w. (some w.name, w.profiles)) (online c) else [];
}

abbrev pub with_since : Grant → String → Grant
with_since g since = record g { since = since }

abbrev pub is_empty {ℓ} : {A : Type ℓ} → List A → Bool
is_empty [] = true
is_empty (x ∷ xs) = false

abbrev pub first_turn : List (List Step) → List Step
first_turn [] = []
first_turn (t ∷ ts) = t

abbrev pub later_turns : List (List Step) → List (List Step)
later_turns [] = []
later_turns (t ∷ ts) = ts

-- What one pass of `_worker` meets, after what other threads did since the last.
pub record Round : Type 0 where
  pub meanwhile : List Step
  pub context : Context
  pub turns : List (List Step)

-- `boards_in` gives the boards that a request names, and `lease_out` is what the portal does with a
-- run, by its id, that a worker is to take.
module _ (boards_in : Fields → List String) (lease_out : String → Grant → Jobs → Jobs) (now : ℕ)
    (since : String) where
  -- The rest of a round of the loop, once the run is claimed and its grant kept.
  unfoldable pub hand_out : Option String → Grant → Service → Bool × Service
  unfolding release
  hand_out (some w) g s = (true, record s { jobs = lease_out g.job_id g s.jobs })
  hand_out none g s =
      if is_portal s.mode
      then (false, record (release g.job_id s) { jobs = (requeue g.job_id s.jobs).1 })
      else (true, s)

  -- `with_since`: the grant as it is kept.
  abbrev pub keep_grant : Grant → Jobs → Service → Service
  keep_grant g jobs s = record s {
    jobs = jobs;
    grants = put g.job_id (with_since g since) s.grants;
  }

  -- One round of the loop; it says whether the run is started.
  unfoldable pub start_one : Grant → Service → Bool × Service
  unfolding hand_out
  start_one g s =
      let (claimed, jobs) = claim g.job_id now s.jobs in
      if claimed
      then hand_out g.worker g (keep_grant g jobs s)
      else (false, record s { jobs = jobs })

  unfoldable pub start_all : List Grant → List (List Step) → Service → List String × Service
  unfolding start_one
  start_all [] turns s = ([], s)
  start_all (g ∷ gs) turns s =
      let (started, s') = start_one g (act_all (first_turn turns) s) in
      let (ids, s'') = start_all gs (later_turns turns) s' in
      (if started then g.job_id ∷ ids else ids, s'')

  abbrev pub queued_jobs : Service → List Job
  queued_jobs s = filter (λ j. is_queued j.status) (active s.jobs)

  unfoldable pub decision : Context → Service → Plan
  decision c s = plan (map (demand boards_in c.profiles) (queued_jobs s)) (farm_of c s) c.paused

  abbrev pub no_worker : Context → Why
  no_worker c =
      if is_empty (updating c)
      then no_worker_connected
      else no_worker_ready (sorted_set (updating c))

  unfoldable pub dispatch : Context → List (List Step) → Service → List String × Service
  unfolding decision
  dispatch c turns s =
      if is_portal s.mode && is_empty (online c)
      then ([], record s { waiting = map (λ j. (j.id, no_worker c)) (queued_jobs s) })
      else start_all (decision c s).start turns
          (record s { waiting = map (λ e. (e.0, planned e.1)) (decision c s).waiting })

  unfoldable pub worker : List Round → Service → Service
  worker [] s = s
  worker (r ∷ rs) s = worker rs (dispatch r.context r.turns (act_all r.meanwhile s)).1

-- ===== src/Dispatch/Tests.antt =====
-- The dispatcher on a small farm: two runs are queued, of a profile that asks for one board.
use mathlib.Core.List.{Perm}
use esp32_rig.Base.{
  ok, err, ℕ, String, Bool, true, false, ◌≡◌, refl, ◌≤◌, subst, Bool-cases, inl, inr, arith, Option,
  none, List, [], ◌∷◌, ◌++◌, map, contains, eq_iff, ◌==◌,
}
use esp32_rig.Allocation.{Grant}
use esp32_rig.Allocation.Rig.{
  block, eligible, grant_alone, grant_shared, attempt_idle, attempt_alone, holders, attempt_boards,
  attempt_shared, attempt,
}
use esp32_rig.Allocation.Needs.{matches, needs_fit, fits_idle}
use esp32_rig.Allocation.Choose.{choose_need, choose_needs, choose}
use esp32_rig.Allocation.Plan.{rigs_of, candidates, try_rigs, settle, place, place_all, plan}
use esp32_rig.Store.Table.{count_where}
use esp32_rig.Store.Jobs.{
  update, running, requeue, Job, Jobs, Fields, Status, new_job, set_lease, is_queued_job,
  cancel_if_queued, claim,
}
use esp32_rig.Store.Queue.{active, ahead_active}
use esp32_rig.Dispatch.{
  act, Why, Service, Step, standalone, portal, cancels, claims, ends, releases, requeues, creates,
  act_all,
}
use esp32_rig.Dispatch.Demands.{Profile, demand}
use esp32_rig.Dispatch.Starts.{
  Context, Round, farm_of, start_all, start_one, hand_out, dispatch, decision, worker, queued_jobs,
}
use esp32_rig.Dispatch.Starts.Off.{IsOff, update_where-IsOff}
use esp32_rig.Dispatch.Starts.Kept.{AllApart}
use esp32_rig.Dispatch.Starts.Rounds.{IsSound, worker-IsSound}
use esp32_rig.Dispatch.Starts.Lost.{start_all-lost}
use esp32_rig.Dispatch.Starts.Occurs.{ids_of, count-update_apart}
use esp32_rig.Dispatch.Starts.Quiet.{AllSingle, dispatch-decided}
use esp32_rig.Dispatch.Cancels.{
  job_is, Turn, quiet, cancel, cancel_turn, cancel_running, cancel_reread, cancel_read,
}
use esp32_rig.Dispatch.Supersede.{supersede, supersede_all, is_superseded}
use esp32_rig.Dispatch.Supersede.Spared.{IsLeftAlone, supersede-spares}

abbrev run : String → ℕ → Job
run id at = new_job id "suite" at (("profile", "mesh") ∷ []) "log" []

abbrev mesh : Profile
mesh = record {
  name = "mesh";
  label = "mesh";
  exclusive = false;
  needs = record { target = "esp32-c6"; count = 1; tags = []; optional = false } ∷ [];
  concurrent = true;
  resources = [];
}

abbrev context : Context
context = record {
  profiles = ("mesh", mesh) ∷ [];
  workers = [];
  boards = record { id = "c6-1"; target = "esp32-c6"; tags = []; hold = none; worker = none } ∷ [];
  holds = [];
  max_runs = 2;
  paused = false;
}

abbrev service : Service
service = record {
  mode = standalone;
  jobs = run "a" 1 ∷ run "b" 2 ∷ [];
  grants = [];
  waiting = [];
  cancel_requests = [];
}

-- The request of these runs names no boards, and a lease is written as `set_lease` writes it.
abbrev no_boards : Fields → List String
no_boards request = []

abbrev lease : String → Grant → Jobs → Jobs
lease id g = set_lease id "bench" []

lease-IsOff : (id k : String) (g : Grant) (jobs : Jobs) → IsOff k jobs → IsOff k (lease id g jobs)
unfolding set_lease
lease-IsOff id k g jobs o = update_where-IsOff _ _ k jobs (λ j. refl) (λ j _ e. e) o

lease-count :
    (id k : String) (g : Grant) (jobs : Jobs)
    → count_where (is_queued_job k) (lease id g jobs) ≡ count_where (is_queued_job k) jobs
unfolding set_lease
lease-count id k g jobs = count-update_apart (is_queued_job k) _ _ jobs (λ j _. refl)

-- The first run takes the board, and the second waits.
starts : (dispatch no_boards lease 5 "now" context [] service).0 ≡ "a" ∷ []
unfolding dispatch decision demand farm_of start_all start_one hand_out active ahead_active claim
    act_all plan place place_all rigs_of candidates try_rigs settle attempt attempt_alone
    attempt_idle attempt_shared attempt_boards grant_shared grant_alone holders eligible choose
    choose_needs choose_need fits_idle needs_fit matches block
starts = refl

-- Between the two rounds the first run ends and a third is submitted.
abbrev two_rounds : List Round
two_rounds =
    record { meanwhile = []; context = context; turns = (cancels "b" 4 [] ∷ []) ∷ [] }
    ∷ record {
      meanwhile =
          ends "a" Status.passed 6 [] ∷ releases "a" ∷ creates "c" "suite" 7 [] "log" [] ∷ [];
      context = context;
      turns = [];
    }
    ∷ []

idle_apart : (bound : Option String → ℕ) → AllApart bound []
idle_apart bound k = record { boards = tt; resources = tt; alone = inl refl; within = omega arith }

worker-IsSound_example : IsSound (worker no_boards lease 5 "now" two_rounds service)
worker-IsSound_example =
    worker-IsSound no_boards lease 5 "now" lease-IsOff two_rounds service
      (record { off = tt; apart = idle_apart _ })

abbrev kept_grant : Grant
kept_grant = record {
  job_id = "a";
  label = "mesh";
  kind = "suite";
  boards = "c6-1" ∷ [];
  resources = [];
  shared = true;
  whole_rig = false;
  since = "";
  worker = none;
}

abbrev after_cancel : Service
after_cancel = record service { jobs = (cancel_if_queued "a" 4 [] service.jobs).1 }

-- Meanwhile another run is taken back from its worker.
abbrev other_back : List (List Step)
other_back = (requeues "b" ∷ []) ∷ []

start_all-lost_example :
    (contains "a" (start_all no_boards lease 5 "now" (kept_grant ∷ []) other_back after_cancel).0
      ≡ false)
    × IsOff "a" (start_all no_boards lease 5 "now" (kept_grant ∷ []) other_back after_cancel).1.jobs
unfolding cancel_if_queued
start_all-lost_example =
    start_all-lost no_boards lease 5 "now" lease-IsOff (kept_grant ∷ []) other_back "a" after_cancel
      refl (record { there = refl; off = refl })

single : AllSingle service.jobs
single k = elim (Bool-cases ("a" == k)) [
  | inl first_run ↦
      subst (λ i. count_where (is_queued_job i) service.jobs ≤ 1) ((eq_iff "a" k).0 first_run)
        (omega arith)
  | inr other ↦ ground (arith, other)
]

dispatch-decided_example :
    ((dispatch no_boards lease 5 "now" context [] service).0
      ≡ map (λ (g : Grant). g.job_id) (decision no_boards lease 5 "now" context service).start)
    × Perm
        ((dispatch no_boards lease 5 "now" context [] service).0
          ++ map
              (λ (e : String × Why). e.0)
              (dispatch no_boards lease 5 "now" context [] service).1.waiting)
        (ids_of (queued_jobs no_boards lease 5 "now" service))
dispatch-decided_example =
    dispatch-decided no_boards lease 5 "now" lease-count context service refl single

abbrev never : String → Service → Bool
never id s = false

abbrev always : String → Service → Bool
always id s = true

-- A portal takes the run back, and it is claimed again before it is read.
abbrev leased_out : Service
leased_out = record service { mode = portal; jobs = record (run "a" 1) { status = running } ∷ [] }

abbrev claimed_again : List Turn
claimed_again = record quiet { before_reread = claims "a" 8 ∷ [] } ∷ []

refused_running :
    (cancel always "a" 9 "Cancelled" none none claimed_again leased_out).1 ≡ err (job_is running)
unfolding cancel cancel_turn cancel_running cancel_reread cancel_read act_all act claim requeue
refused_running = refl

-- The run is claimed between its reading and the statement that cancels it: its thread is asked.
claimed_first :
    (cancel never "a" 9 "Cancelled" none none
      (record quiet { before_write = claims "a" 8 ∷ [] } ∷ [])
      service).1
    ≡ ok tt
unfolding cancel cancel_turn cancel_running cancel_read cancel_if_queued act_all act claim
claimed_first = refl

-- A third run, at another commit of the branch of a run that is going.
abbrev at_commit : String → Job → Job
at_commit sha j = record j { request = ("profile", "mesh") ∷ ("resolved_sha", sha) ∷ [] }

abbrev pushed : Service
pushed = record service {
  jobs =
      record (at_commit "1111" (run "a" 1)) { status = running }
      ∷ run "b" 2
      ∷ at_commit "2222" (run "c" 3)
      ∷ [];
}

abbrev newer_commit : Fields
newer_commit = ("profile", "mesh") ∷ ("resolved_sha", "2222") ∷ []

asked_to_stop :
    (supersede never "c" "suite" newer_commit 9 "Superseded" none [] pushed).1 ≡ ok ("a" ∷ [])
unfolding supersede supersede_all is_superseded cancel cancel_turn cancel_running cancel_read active
    ahead_active act_all
asked_to_stop = refl

-- The run that is superseded ends before it is cancelled: the submission fails, after its own run
-- was queued.
ends_first :
    (supersede never "c" "suite" newer_commit 9 "Superseded" none
      ((ends "a" Status.passed 8 [] ∷ [], []) ∷ [])
      pushed).1
    ≡ err (job_is Status.passed)
unfolding supersede supersede_all is_superseded cancel cancel_turn cancel_running cancel_read active
    ahead_active act_all act update
ends_first = refl

supersede-spares_example :
    IsLeftAlone "b" pushed
      (supersede never "c" "suite" newer_commit 9 "Superseded" none [] pushed).0
unfolding active ahead_active is_superseded
supersede-spares_example =
    supersede-spares never "c" "suite" newer_commit 9 "Superseded" none "2222" "b" pushed refl refl

-- ===== src/Allocation/Tests.antt =====
-- Small farms and queues: what the dispatcher decides on them.
use esp32_rig.Base.{ℕ, ◌≡◌, refl, String, Bool, true, false, none, List, [], ◌∷◌, inl, arith}
use esp32_rig.Allocation.{Board, Need, Demand, Grant}
use esp32_rig.Allocation.Needs.{matches, needs_fit, fits_idle}
use esp32_rig.Allocation.Choose.{choose_need, choose_needs, choose}
use esp32_rig.Allocation.Rig.{
  block, eligible, grant_alone, grant_shared, attempt_idle, attempt_alone, holders, attempt_boards,
  attempt_shared, attempt,
}
use esp32_rig.Allocation.Coverage.{coverage, shortage}
use esp32_rig.Allocation.Coverage.Fits.{is_nil, is_nil-coverage}
use esp32_rig.Allocation.Plan.{Farm, rigs_of, candidates, try_rigs, settle, place, place_all, plan}
use mathlib.Core.List.{Perm}
use esp32_rig.Allocation.Plan.Complete.{decided, decided-plan}
use esp32_rig.Allocation.Plan.Safety.{AllExclusive, plan-AllExclusive}

abbrev board : String → String → Board
board id target = record { id = id; target = target; tags = []; hold = none; worker = none }

abbrev need : String → ℕ → Bool → Need
need target count optional = record {
  target = target;
  count = count;
  tags = [];
  optional = optional;
}

abbrev demand : String → Bool → List Need → Demand
demand job_id concurrent needs = record {
  job_id = job_id;
  label = "suite";
  kind = "suite";
  whole_rig = false;
  concurrent = concurrent;
  boards = [];
  needs = needs;
  resources = [];
  holds_boards = true;
  profile = none;
  rig = none;
}

abbrev bench : List Board
bench = board "c6-1" "esp32-c6" ∷ board "c3-1" "esp32-c3" ∷ board "c6-2" "esp32-c6" ∷ []

abbrev farm : ℕ → Farm
farm limit = record { boards = bench; running = []; limit = limit; limits = []; profiles = [] }

abbrev one_c6 : List Need
one_c6 = need "esp32-c6" 1 false ∷ []

abbrev queue : List Demand
queue =
    demand "a" true one_c6
    ∷ demand "b" true (need "esp32-c6" 2 false ∷ [])
    ∷ demand "c" true one_c6
    ∷ demand "d" true (need "esp32-c3" 1 false ∷ [])
    ∷ []

abbrev started_on : List Grant → List (String × List String)
started_on [] = []
started_on (g ∷ gs) = (g.job_id, g.boards) ∷ started_on gs

-- The second run waits for two C6s, and the third may not take the one that is free.
starts : started_on (plan queue (farm 3) false).start ≡ ("a", "c6-1" ∷ []) ∷ ("d", "c3-1" ∷ []) ∷ []
unfolding plan place place_all rigs_of candidates try_rigs settle attempt attempt_alone attempt_idle
    attempt_shared attempt_boards grant_shared grant_alone holders eligible choose choose_needs
    choose_need fits_idle needs_fit matches block
starts = refl

idle_exclusive : (limit : ℕ) → AllExclusive (farm limit) []
idle_exclusive limit k = record {
  boards = tt;
  resources = tt;
  alone = inl refl;
  within = omega arith;
}

plan-AllExclusive_example : AllExclusive (farm 3) (plan queue (farm 3) false).start
plan-AllExclusive_example = plan-AllExclusive queue (farm 3) false (idle_exclusive 3)

decided-plan_example : Perm (decided (plan queue (farm 3) false)) ("a" ∷ "b" ∷ "c" ∷ "d" ∷ [])
decided-plan_example = decided-plan queue (farm 3) false

abbrev four_boards : List Need
four_boards = need "esp32-c6" 2 false ∷ need "esp32-c3" 2 false ∷ []

is_nil-coverage_example : is_nil (coverage four_boards bench) ≡ needs_fit four_boards bench
is_nil-coverage_example =
    is_nil-coverage four_boards bench (refl, (refl, tt)) (refl, (refl, (refl, tt)))

missing : coverage four_boards bench ≡ shortage (need "esp32-c3" 2 false) 1 ∷ []
unfolding coverage
missing = refl

-- ===== src/Store/Tests.antt =====
-- A small store: what its statements do on it.
use esp32_rig.Base.{
  ℕ, ◌≤◌, ◌≡◌, refl, String, true, false, Option, none, some, List, [], ◌∷◌, arith, All, filter,
  lookup,
}
use esp32_rig.Allocation.{reserved, quarantined}
use esp32_rig.Store.Table.{order_by}
use esp32_rig.Store.Jobs.{
  Job, Jobs, Stage, running, new_job, is_live, older, claim, cancel_if_queued,
}
use esp32_rig.Store.Jobs.Restart.{recover_incomplete}
use esp32_rig.Store.Jobs.Race.{one_winner}
use esp32_rig.Store.Jobs.Recover.{is_waiting, is_lost, recover_incomplete-settles}
use esp32_rig.Store.Queue.{next_queued, top_priority, promote}
use esp32_rig.Store.Queue.Promote.{next_queued-promote}
use esp32_rig.Store.Commands.Sealed.{Request, IsSealed, serve_all, serve_all-IsSealed, adds, takes}
use esp32_rig.Store.Signins.{Code, OauthState, new_code, create_signin_code}
use esp32_rig.Store.Signins.Codes.{tries, create-tries}
use esp32_rig.Store.Holds.{
  Holds, HeldBoard, Verdict, Settings, clean, board_failed, inconclusive, apply_quarantine,
}
use esp32_rig.Store.Holds.Quarantine.{apply_quarantine-reserved}
use esp32_rig.Store.Enrollments.{Enrollment, waiting, claim_enrollment}
use esp32_rig.Store.Enrollments.Once.{claim_enrollment-once}
use esp32_rig.Store.Events.{Delivery, Deliveries}

abbrev job : String → ℕ → Job
job id now = new_job id "suite" now [] "log" []

abbrev stage : String → String → Stage
stage key status = record { key = key; status = status; summary = none; finished_at = none }

abbrev busy : Job
busy = record (job "a" 1) {
  status = running;
  started_at = some 2;
  progress = stage "flash" "running" ∷ stage "test" "pending" ∷ [];
}

abbrev jobs : Jobs
jobs = busy ∷ job "b" 3 ∷ job "c" 4 ∷ []

abbrev promoted_jobs : Jobs
promoted_jobs = busy ∷ job "b" 3 ∷ record (job "c" 4) { priority = 1 } ∷ []

next_queued-promote_example : (j : Job) × (next_queued promoted_jobs ≡ some j) × (j.id ≡ "c")
unfolding promote top_priority
next_queued-promote_example = next_queued-promote "c" jobs promoted_jobs refl

one_winner_example :
    (cancel_if_queued "b" 6 [] (claim "b" 5 jobs).1 ≡ (false, (claim "b" 5 jobs).1))
    × (claim "b" 6 (cancel_if_queued "b" 5 [] jobs).1 ≡ (false, (cancel_if_queued "b" 5 [] jobs).1))
    × (claim "b" 6 (claim "b" 5 jobs).1 ≡ (false, (claim "b" 5 jobs).1))
one_winner_example = one_winner "b" 5 6 [] jobs

claimed : (claim "b" 5 jobs).0 ≡ true
unfolding claim
claimed = refl

recover_incomplete-settles_example :
    ((recover_incomplete false 9 jobs).0 ≡ filter is_waiting (order_by older (filter is_live jobs)))
    × All (λ r. is_lost false r ≡ false) (recover_incomplete false 9 jobs).1
recover_incomplete-settles_example = recover_incomplete-settles false 9 jobs

abbrev new_code_for : Code
new_code_for = new_code "digest" "a@b" "browser" 100 none none 10

abbrev guesses : List (String × String × ℕ)
guesses =
    ("1", "browser", 20) ∷ ("2", "browser", 21) ∷ ("3", "browser", 22) ∷ ("4", "browser", 23) ∷ []

-- The address has asked before, and another one has a code.
abbrev elsewhere : Code
elsewhere = new_code "other" "c@d" "browser" 100 none none 9

abbrev codes_before : List Code
codes_before = new_code "old" "a@b" "browser" 100 none none 9 ∷ elsewhere ∷ []

create-tries_example : tries "a@b" 2 guesses (elsewhere ∷ new_code_for ∷ []) ≤ 2
unfolding create_signin_code
create-tries_example =
    create-tries "digest" "a@b" "browser" 100 none none 10 2 codes_before
      (elsewhere ∷ new_code_for ∷ []) guesses (omega arith) refl

abbrev states : List OauthState
states =
    record { state = "s"; next = none; created_at = 1; expires_at = 9; browser = some "mine" } ∷ []

abbrev verdict : String → ℕ → Verdict
verdict job at = record {
  job_id = job;
  board_id = "c6-1";
  checked_at = at;
  verdict = "red";
  outcome = board_failed;
  failed = "boot" ∷ [];
}

abbrev strict : Settings
strict = record { enabled = true; after_failures = 2 }

abbrev history : List Verdict
history = verdict "j2" 8 ∷ record (verdict "j1" 7) { outcome = inconclusive } ∷ verdict "j0" 6 ∷ []

abbrev unheld : Option HeldBoard
unheld = none

abbrev quarantine : HeldBoard
quarantine = record {
  state = quarantined;
  reason = none;
  since = 6;
  by = some "canary";
  job_id = some "j0";
}

abbrev recovered : List Verdict
recovered = record (verdict "j3" 9) { outcome = clean } ∷ history

abbrev bench_work : HeldBoard
bench_work = record {
  state = reserved;
  reason = some "soldering";
  since = 1;
  by = some "me";
  job_id = none;
}

abbrev holds : Holds
holds = ("c6-1", bench_work) ∷ []

apply_quarantine-reserved_example :
    lookup "c6-1"
      (apply_quarantine (λ n checks. "red") strict "j2" 10 history ("c6-1" ∷ "c6-2" ∷ []) holds)
    ≡ some bench_work
apply_quarantine-reserved_example =
    apply_quarantine-reserved (λ n checks. "red") strict "j2" 10 history ("c6-1" ∷ "c6-2" ∷ [])
      holds "c6-1" bench_work refl refl

abbrev enrollments : List Enrollment
enrollments =
    record {
      id = "e";
      name = "rig-2";
      token = "old";
      note = none;
      created_by = none;
      created_at = 1;
      expires_at = 10;
      status = waiting;
      used_at = none;
      used_from = none;
      hostname = none;
    }
    ∷ []

claim_enrollment-once_example :
    claim_enrollment "e" 6 none none (claim_enrollment "e" 5 none none enrollments).1
    ≡ (false, (claim_enrollment "e" 5 none none enrollments).1)
unfolding claim_enrollment
claim_enrollment-once_example =
    claim_enrollment-once "e" 5 6 none none none none enrollments (omega arith) refl

abbrev delivery : Delivery
delivery = record {
  id = 0;
  sub_id = "hook";
  delivery_id = "d";
  event = "job.finished";
  attempt = 1;
  state = "delivered";
  at = 3;
}

abbrev log : Deliveries
log = record { rows = record delivery { id = 1 } ∷ []; last = 1 }

abbrev requests : List Request
requests =
    adds "c1" "rig-1" "provider_set" (("sealed", "9f86d0") ∷ []) none 1
    ∷ adds "c2" "rig-1" "restart" [] none 2
    ∷ takes "rig-1" 3
    ∷ []

serve_all-IsSealed_example : All IsSealed (serve_all requests [])
serve_all-IsSealed_example = serve_all-IsSealed requests

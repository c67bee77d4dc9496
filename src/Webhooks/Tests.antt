-- ===== src/Webhooks/Tests.antt =====
-- A delivery that fails twice, and what subscriptions take.
use esp32_rig.Base.{
  ℕ, String, true, false, ◌≡◌, ◌⊎◌, refl, some, [], ◌∷◌, Result, ok, err, if◌then◌else◌, ltb, ◌==◌,
}
use esp32_rig.Webhooks.{
  Subscription, events, valid_event, wants, takes, success, failed, dead, tried, deliver_loop,
  deliver,
}
use esp32_rig.Webhooks.Tries.{Succeeds, GivesUp, deliver-tries}

abbrev send : ℕ → Result String ℕ
send attempt = if ltb attempt 3 then err "HTTP 503" else ok 200

abbrev subscription : ℕ → Subscription
subscription retries = record {
  scope = "farm";
  asked = "run.failed" ∷ [];
  active = true;
  max_retries = retries;
  backoff_ms = 500;
}

third_time : deliver send (subscription 5) ≡ (
  tried send 500 1 failed ∷ tried send 500 2 failed ∷ tried send 500 3 success ∷ [],
  500 ∷ 1000 ∷ [],
)
unfolding deliver deliver_loop tried
third_time = refl

gives_up :
    deliver send (subscription 2) ≡ (tried send 500 1 failed ∷ tried send 500 2 dead ∷ [], 500 ∷ [])
unfolding deliver deliver_loop tried
gives_up = refl

deliver-tries_example :
    Succeeds send 500 5 1 (deliver send (subscription 5))
    ⊎ GivesUp send 500 5 1 (deliver send (subscription 5))
deliver-tries_example = deliver-tries send (subscription 5)

-- The names of these tests, at their dots.
abbrev partition : String → String × String
partition name = if name == "run.failed" then ("run", "failed") else (name, "")

run_failed :
    takes partition
      (subscription 5)
      (record { event = "run"; action = some "failed"; rig = some "lab" })
    ≡ true
unfolding takes wants
run_failed = refl

run_passed :
    takes partition
      (subscription 5)
      (record { event = "run"; action = some "passed"; rig = some "lab" })
    ≡ false
unfolding takes wants
run_passed = refl

named : valid_event partition "run.failed" ≡ true
unfolding valid_event events
named = refl

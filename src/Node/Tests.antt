-- ===== src/Node/Tests.antt =====
-- A run's report, sent to a small portal.
use esp32_rig.Base.{
  ℕ, zero, suc, ◌+◌, ◌≤◌, ◌≡◌, refl, arith, true, false, Option, none, some, [], ◌∷◌, ◌++◌, length,
  ok,
}
use esp32_rig.Node.{Bytes, PortalError, Node, Portal, returned, ship_log}
use esp32_rig.Node.Spent.{evidences, results}
use esp32_rig.Node.Once.{deliver_all, deliver_all-once}
use esp32_rig.Node.Logs.{ship_log-sends}

-- It keeps one log, and does not answer the first result.
abbrev State : Type 0
State = Bytes × ℕ

abbrev answer : ℕ → Option PortalError
answer zero = some (record { status = none })
answer (suc n) = none

abbrev portal : Portal State
portal = record {
  post_log = λ job offset chunk p. (ok (some (offset + length chunk)), (p.0 ++ chunk, p.1));
  post_evidence = λ job bytes p. (none, p);
  post_result = λ job report p. (answer p.1, (p.0, p.1 + 1));
}

abbrev node : Node
node = record {
  logs = ("j", 1 ∷ 2 ∷ 3 ∷ []) ∷ [];
  evidence = ("j", 9 ∷ []) ∷ [];
  outbox = ("j", record { payload = "passed"; evidence = true; evidence_sent = false }) ∷ [];
  offsets = ("j", 1) ∷ [];
  leased = "j" ∷ [];
}

ship_log-sends_example :
    ((ship_log portal 4 true "j" node (1 ∷ [], 0)).0 ≡ returned)
    × ((ship_log portal 4 true "j" node (1 ∷ [], 0)).2.0 ≡ 1 ∷ 2 ∷ 3 ∷ [])
ship_log-sends_example =
    ship_log-sends portal (λ job p. p.0) 4 "j" (1 ∷ 2 ∷ 3 ∷ []) node (1 ∷ [], 0)
      (λ job offset chunk p e. (refl, refl)) refl refl refl (omega arith)

deliver_all-once_example :
    (evidences "j" (deliver_all portal 4 ("j" ∷ "j" ∷ "j" ∷ []) node (1 ∷ [], 0)).0 ≤ 1)
    × (results "j" (deliver_all portal 4 ("j" ∷ "j" ∷ "j" ∷ []) node (1 ∷ [], 0)).0 ≤ 1)
deliver_all-once_example = deliver_all-once portal 4 ("j" ∷ "j" ∷ "j" ∷ []) node (1 ∷ [], 0) "j"

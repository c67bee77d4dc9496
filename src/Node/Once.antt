-- ===== src/Node/Once.antt =====
-- farm_node.py, `_deliver`: tries of reports, and what the portal acknowledges of each.
use esp32_rig.Base.{
  ℕ, ◌+◌, ◌≤◌, ◌≡◌, refl, ap, ◌∙◌, String, true, Option, none, some, List, [], ◌∷◌, ◌++◌, arith,
  lookup,
}
use esp32_rig.Node.{
  Report, Node, Portal, Event, evidence_acknowledged, result_acknowledged, ship_log, deliver,
}
use esp32_rig.Node.Spent.{
  evidences, results, unsent, waiting, IsSpent, after-IsSpent, ship_log-outbox,
}

evidences-append :
    (k : String) (xs ys : List Event) → evidences k (xs ++ ys) ≡ evidences k xs + evidences k ys
evidences-append k [] ys = omega arith
evidences-append k (evidence_acknowledged job ∷ xs) ys = omega (arith, evidences-append k xs ys)
evidences-append k (result_acknowledged job ∷ xs) ys = evidences-append k xs ys

results-append :
    (k : String) (xs ys : List Event) → results k (xs ++ ys) ≡ results k xs + results k ys
results-append k [] ys = omega arith
results-append k (evidence_acknowledged job ∷ xs) ys = results-append k xs ys
results-append k (result_acknowledged job ∷ xs) ys = omega (arith, results-append k xs ys)

module _ {P : Type 0} (portal : Portal P) (fuel : ℕ) where
  -- A turn at a run, which does nothing where the outbox has no entry of it.
  abbrev pub deliver_found : Option Report → String → Node → P → List Event × Node × P
  unfolding deliver
  deliver_found none job n p = ([], n, p)
  deliver_found (some r) job n p = deliver portal fuel job r n p

  -- Turns at the runs that are named, one after another.
  pub deliver_all : List String → Node → P → List Event × Node × P
  unfolding deliver_found
  deliver_all [] n p = ([], n, p)
  deliver_all (job ∷ jobs) n p =
      let turn = deliver_found (lookup job n.outbox) job n p in
      let rest = deliver_all jobs turn.1 turn.2 in (rest.0 ++ turn.0, rest.1, rest.2)

  found-IsSpent :
      (k job : String) (found : Option Report) (n : Node) (p : P)
      → lookup job n.outbox ≡ found
      → IsSpent k n (deliver_found found job n p)
  unfolding deliver_found deliver
  found-IsSpent k job none n p held = (omega arith, omega arith)
  found-IsSpent k job (some r) n p held =
      let same = ship_log-outbox portal fuel true job n p in
      let left = ap (lookup k) same in
      after-IsSpent k n portal (ship_log portal fuel true job n p) job r
        (ap (lookup job) same ∙ held)
        (omega (arith, ap unsent left), omega (arith, ap waiting left))

  deliver_all-IsSpent :
      (k : String) (jobs : List String) (n : Node) (p : P) → IsSpent k n (deliver_all jobs n p)
  unfolding deliver_all
  deliver_all-IsSpent k [] n p = (omega arith, omega arith)
  deliver_all-IsSpent k (job ∷ jobs) n p =
      let turn = deliver_found (lookup job n.outbox) job n p in
      let rest = deliver_all jobs turn.1 turn.2 in
      let first = found-IsSpent k job (lookup job n.outbox) n p refl in
      let more = deliver_all-IsSpent k jobs turn.1 turn.2 in
      (
        omega (arith, evidences-append k rest.0 turn.0, first.0, more.0),
        omega (arith, results-append k rest.0 turn.0, first.1, more.1),
      )

unsent-le : (r : Option Report) → unsent r ≤ 1
unsent-le none = omega arith
unsent-le (some r) = ground arith

waiting-le : (r : Option Report) → waiting r ≤ 1
waiting-le none = omega arith
waiting-le (some r) = omega arith

-- Whatever the portal answers, and however often the reports of whatever runs are tried: the portal
-- tells the node once at most that it took the evidence of a run, and once at most that it took its
-- result. What it took of a request whose answer was lost is not counted.
pub deliver_all-once :
    {P : Type 0} (portal : Portal P) (fuel : ℕ) (jobs : List String) (n : Node) (p : P) (k : String)
    → (evidences k (deliver_all portal fuel jobs n p).0 ≤ 1)
      × (results k (deliver_all portal fuel jobs n p).0 ≤ 1)
deliver_all-once portal fuel jobs n p k =
    let spent = deliver_all-IsSpent portal fuel k jobs n p in
    (
      omega (arith, spent.0, unsent-le (lookup k n.outbox)),
      omega (arith, spent.1, waiting-le (lookup k n.outbox)),
    )

-- ===== src/Node/Spent.antt =====
-- What one try of a report takes from what may still be acknowledged of its entry.
use esp32_rig.Base.{
  ℕ, ◌+◌, ◌≤◌, ◌≡◌, refl, ap, subst, String, Bool, true, false, not, ◌&&◌, Option, none, some, List,
  [], ◌∷◌, arith, lookup, put, if◌then◌else◌, ◌==◌, eq_iff, inl, inr, Bool-cases, Option-cases,
}
use esp32_rig.Node.{
  Bytes, PortalError, Outcome, returned, out_of_fuel, raised, Report, Node, Portal, Event,
  evidence_acknowledged, result_acknowledged, is_refusal, without, finish, ship_log, sent,
  evidence_answered, end_result, send_evidence, after_log,
}

-- How often the portal said that it took the evidence, and the result, of a run.
abbrev pub evidences : String → List Event → ℕ
evidences k [] = 0
evidences k (evidence_acknowledged job ∷ rest) = (if job == k then 1 else 0) + evidences k rest
evidences k (result_acknowledged job ∷ rest) = evidences k rest

abbrev pub results : String → List Event → ℕ
results k [] = 0
results k (evidence_acknowledged job ∷ rest) = results k rest
results k (result_acknowledged job ∷ rest) = (if job == k then 1 else 0) + results k rest

abbrev pub unsent : Option Report → ℕ
unsent none = 0
unsent (some r) = if r.evidence_sent then 0 else 1

abbrev pub waiting : Option Report → ℕ
waiting none = 0
waiting (some r) = 1

-- What may still be acknowledged of a run's entry.
abbrev pub evidence_left : String → Node → ℕ
evidence_left k n = unsent (lookup k n.outbox)

abbrev pub result_left : String → Node → ℕ
result_left k n = waiting (lookup k n.outbox)

lookup-without :
    {V : Type 0} (k j : String) (d : List (String × V))
    → lookup k (without j d) ≡ (if k == j then none else lookup k d)
lookup-without k j [] = ground arith
lookup-without k j ((i, v) ∷ d) =
    ground (arith, lookup-without k j d, eq_iff i j, eq_iff i k, eq_iff k j)

lookup-put :
    {V : Type 0} (k j : String) (v : V) (d : List (String × V))
    → lookup k (put j v d) ≡ (if k == j then some v else lookup k d)
lookup-put k j v [] = ground (arith, eq_iff k j, eq_iff j k)
lookup-put k j v ((i, w) ∷ d) =
    ground (arith, lookup-put k j v d, eq_iff i j, eq_iff i k, eq_iff k j, eq_iff j k)

-- What was acknowledged of an attempt, and what is left for the next.
abbrev pub IsSpent : {P : Type 0} → String → Node → List Event × Node × P → Type 0
IsSpent k n (events, n', p) =
    (evidences k events + evidence_left k n' ≤ evidence_left k n)
    × (results k events + result_left k n' ≤ result_left k n)

finish-evidence : (k job : String) (n : Node) → evidence_left k (finish job n) ≤ evidence_left k n
finish-evidence k job n = ground (arith, ap unsent (lookup-without k job n.outbox))

finish-result : (k job : String) (n : Node) → result_left k (finish job n) ≤ result_left k n
finish-result k job n = ground (arith, ap waiting (lookup-without k job n.outbox))

finish-taken :
    (k job : String) (r : Report) (n : Node)
    → lookup job n.outbox ≡ some r
    → (if job == k then 1 else 0) + result_left k (finish job n) ≤ result_left k n
finish-taken k job r n held = elim (Bool-cases (job == k)) [
  | inl same ↦
      let gone : lookup k (without job n.outbox) ≡ none =
        ground (arith, lookup-without k job n.outbox, eq_iff job k, eq_iff k job) in
      let there : lookup k n.outbox ≡ some r =
        subst (λ j. lookup j n.outbox ≡ some r) ((eq_iff job k).0 same) held in
      rw (same, gone, there) (omega arith)
  | inr apart ↦ rw apart (omega (arith, finish-result k job n))
]

module _ (k : String) (n0 : Node) where
  abbrev pub IsLess : List Event → Node → Type 0
  IsLess events n =
      (evidences k events + evidence_left k n ≤ evidence_left k n0)
      × (results k events + result_left k n ≤ result_left k n0)

  refused-IsSpent :
      {P : Type 0} (e : PortalError) (events : List Event) (job : String) (n : Node) (p : P)
      → IsLess events n
      → IsSpent k n0 (if is_refusal e.status then (events, finish job n, p) else (events, n, p))
  refused-IsSpent e events job n p h = elim (Bool-cases (is_refusal e.status)) [
    | inl over ↦
        rw over
          (omega (arith, h.0, finish-evidence k job n), omega (arith, h.1, finish-result k job n))
    | inr again ↦ rw again h
  ]

  result-IsSpent :
      {P : Type 0} (answered : Option PortalError × P) (events : List Event) (job : String)
      (r : Report) (n : Node) (portal : Portal P)
      → lookup job n.outbox ≡ some r
      → IsLess events n
      → IsSpent k n0 (end_result portal answered events job n)
  result-IsSpent (none, p) events job r n portal held h =
      (omega (arith, h.0, finish-evidence k job n), omega (arith, h.1, finish-taken k job r n held))
  result-IsSpent (some e, p) events job r n portal held h = refused-IsSpent e events job n p h

  abbrev marked : String → Report → Node → Node
  marked job r n = record n { outbox = put job (record r { evidence_sent = true }) n.outbox }

  marked-IsLess :
      (job : String) (r : Report) (n : Node)
      → lookup job n.outbox ≡ some r
      → r.evidence_sent ≡ false
      → IsLess [] n
      → IsLess (evidence_acknowledged job ∷ []) (marked job r n)
  marked-IsLess job r n held fresh h =
      let new = lookup-put k job (record r { evidence_sent = true }) n.outbox in
      elim (Bool-cases (job == k)) [
        | inl same ↦
            let there : lookup k n.outbox ≡ some r =
              subst (λ j. lookup j n.outbox ≡ some r) ((eq_iff job k).0 same) held in
            let now : lookup k (marked job r n).outbox ≡ some (record r { evidence_sent = true }) =
              ground (arith, new, eq_iff job k, eq_iff k job) in
            let before : evidence_left k n ≡ 1 = rw (there, fresh) refl in
            let before' : result_left k n ≡ 1 = rw there refl in
            rw (same, now) (omega (arith, h.0, before), omega (arith, h.1, before'))
        | inr apart ↦
            let now : lookup k (marked job r n).outbox ≡ lookup k n.outbox =
              ground (arith, new, eq_iff job k, eq_iff k job) in
            rw (apart, now) (omega (arith, h.0), omega (arith, h.1))
      ]

  evidence-IsSpent :
      {P : Type 0} (portal : Portal P) (answered : Option PortalError × P) (job : String)
      (r : Report) (n : Node)
      → lookup job n.outbox ≡ some r
      → r.evidence_sent ≡ false
      → IsLess [] n
      → IsSpent k n0 (evidence_answered portal answered job r n)
  evidence-IsSpent portal (some e, p) job r n held fresh h = refused-IsSpent e [] job n p h
  evidence-IsSpent portal (none, p) job r n held fresh h =
      result-IsSpent (portal.post_result job (sent portal r) p) (evidence_acknowledged job ∷ []) job
        (sent portal r) (marked job r n) portal
        (ground (arith, lookup-put job job (sent portal r) n.outbox, eq_iff job job))
        (marked-IsLess job r n held fresh h)

  send-IsSpent :
      {P : Type 0} (portal : Portal P) (found : Option Bytes) (job : String) (r : Report) (n : Node)
      (p : P)
      → lookup job n.outbox ≡ some r
      → IsLess [] n
      → IsSpent k n0 (send_evidence portal found job r n p)
  send-IsSpent portal none job r n p held h =
      result-IsSpent (portal.post_result job r p) [] job r n portal held h
  send-IsSpent portal (some bytes) job r n p held h =
      elim (Bool-cases (r.evidence && not r.evidence_sent)) [
        | inl send ↦ rw send (
            evidence-IsSpent portal (portal.post_evidence job bytes p) job r n held (ground arith)
              h)
        | inr skip ↦ rw skip (result-IsSpent (portal.post_result job r p) [] job r n portal held h)
      ]

  pub after-IsSpent :
      {P : Type 0} (portal : Portal P) (shipped : Outcome × Node × P) (job : String) (r : Report)
      → lookup job shipped.1.outbox ≡ some r
      → IsLess [] shipped.1
      → IsSpent k n0 (after_log portal shipped job r)
  after-IsSpent portal (out_of_fuel, n, p) job r held h = h
  after-IsSpent portal (raised e, n, p) job r held h = refused-IsSpent e [] job n p h
  after-IsSpent portal (returned, n, p) job r held h =
      send-IsSpent portal (lookup job n.evidence) job r n p held h

pub ship_log-outbox :
    {P : Type 0} (portal : Portal P) (fuel : ℕ) (until_done : Bool) (job : String) (n : Node)
    (p : P)
    → (ship_log portal fuel until_done job n p).1.outbox ≡ n.outbox
unfolding ship_log
ship_log-outbox portal fuel until_done job n p = elim (Option-cases (lookup job n.logs)) [
  | inl missing ↦ rw missing refl
  | inr (log, found) ↦ rw found refl
]

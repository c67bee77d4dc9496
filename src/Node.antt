-- ===== src/Node.antt =====
-- rig/alteriom_hil/farm_node.py: what a rig that works for a portal sends it of a run: its log in
-- chunks, its evidence and its result. The portal is not in the repository: what it answers to each
-- request, from a state of its own, is a parameter. A log does not grow while it is sent here.
pub mod Logs
pub mod Spent
pub mod Once
mod Tests
use esp32_rig.Base.{
  ℕ, zero, suc, ◌+◌, ◌*◌, String, Bool, true, false, not, ◌&&◌, ◌||◌, Option, none, some, List, [],
  ◌∷◌, ◌++◌, filter, length, take, lookup, put, is_some, eqb, ltb, if◌then◌else◌, ◌==◌, Result, ok,
  err,
}

abbrev pub Bytes : Type 0
Bytes = List ℕ

abbrev pub drop : ℕ → Bytes → Bytes
drop zero xs = xs
drop (suc n) [] = []
drop (suc n) (x ∷ xs) = drop n xs

-- The status that the portal answered, if it answered.
pub record PortalError : Type 0 where
  pub status : Option ℕ

pub data Outcome : Type 0 where
  returned out_of_fuel : Outcome
  raised : PortalError → Outcome

-- An entry of the outbox; its status, result and progress are one payload.
pub record Report : Type 0 where
  pub payload : String
  pub evidence : Bool
  pub evidence_sent : Bool

-- The logs and the evidence are files; a run that left neither has none.
pub record Node : Type 0 where
  pub logs : List (String × Bytes)
  pub evidence : List (String × Bytes)
  pub outbox : List (String × Report)
  pub offsets : List (String × ℕ)
  pub leased : List String

-- The portal's answers; that to a chunk is the size it gives, if it gives one.
pub record Portal (P : Type 0) : Type 0 where
  pub post_log : String → ℕ → Bytes → P → Result PortalError (Option ℕ) × P
  pub post_evidence : String → Bytes → P → Option PortalError × P
  pub post_result : String → Report → P → Option PortalError × P

abbrev pub log_chunk_bytes : ℕ
log_chunk_bytes = 64 * 1024

abbrev pub value_or : Option ℕ → ℕ → ℕ
value_or none n = n
value_or (some m) n = m

abbrev pub is_nil : Bytes → Bool
is_nil [] = true
is_nil (b ∷ bs) = false

-- An answer of the portal that it took this of a run. One whose answer is lost is none: the node sends
-- it again, and the portal may by then have taken it.
pub data Event : Type 0 where
  evidence_acknowledged result_acknowledged : String → Event

abbrev pub is_refusal : Option ℕ → Bool
is_refusal none = false
is_refusal (some status) = eqb status 403 || (eqb status 404 || eqb status 409)

abbrev pub without : {V : Type 0} → String → List (String × V) → List (String × V)
without k = filter (λ e. not (e.0 == k))

-- The entry and its evidence are removed, and the run is the portal's no more.
abbrev pub finish : String → Node → Node
finish job n = record n {
  outbox = without job n.outbox;
  evidence = without job n.evidence;
  leased = filter (λ k. not (k == job)) n.leased;
  offsets = without job n.offsets;
}

module _ {P : Type 0} (portal : Portal P) where
  -- The turns of `_ship_log`, over the offset.
  unfoldable pub ship_loop : ℕ → Bool → String → Bytes → ℕ → P → Outcome × ℕ × P
  ship_loop zero until_done job log offset p = (out_of_fuel, offset, p)
  ship_loop (suc fuel) until_done job log offset p =
      let chunk = take log_chunk_bytes (drop offset log) in
      let answered = portal.post_log job offset chunk p in
      if is_nil chunk then (returned, offset, p) else elim (answered.0) [
        | err e ↦ (raised e, offset, answered.1)
        | ok size ↦
            let next = value_or size offset in
            let more = ship_loop fuel until_done job log next answered.1 in
            if not until_done && ltb (length chunk) log_chunk_bytes
            then (returned, next, answered.1)
            else more
      ]

  abbrev pub logged : String → Node → Outcome × ℕ × P → Outcome × Node × P
  logged job n (outcome, offset, p) = (outcome, record n { offsets = put job offset n.offsets }, p)

  abbrev pub ship_file : ℕ → Bool → String → Option Bytes → Node → P → Outcome × Node × P
  unfolding ship_loop
  ship_file fuel until_done job none n p = (returned, n, p)
  ship_file fuel until_done job (some log) n p =
      logged job n (ship_loop fuel until_done job log (value_or (lookup job n.offsets) 0) p)

  -- `_ship_log`; an offset that is not kept is 0.
  unfoldable pub ship_log : ℕ → Bool → String → Node → P → Outcome × Node × P
  unfolding ship_file
  ship_log fuel until_done job n p = ship_file fuel until_done job (lookup job n.logs) n p

  abbrev pub end_with : Option PortalError → List Event → String → Node → P → List Event × Node × P
  end_with none events job n p = (events, finish job n, p)
  end_with (some e) events job n p =
      if is_refusal e.status then (events, finish job n, p) else (events, n, p)

  abbrev pub end_result :
      Option PortalError × P → List Event → String → Node → List Event × Node × P
  end_result (none, p) events job n = end_with none (result_acknowledged job ∷ events) job n p
  end_result (some e, p) events job n = end_with (some e) events job n p

  abbrev pub send_result : String → Report → List Event → Node → P → List Event × Node × P
  send_result job report events n p = end_result (portal.post_result job report p) events job n

  abbrev pub sent : Report → Report
  sent report = record report { evidence_sent = true }

  abbrev pub evidence_answered :
      Option PortalError × P → String → Report → Node → List Event × Node × P
  evidence_answered (some e, p) job report n = end_with (some e) [] job n p
  evidence_answered (none, p) job report n =
      send_result job (sent report) (evidence_acknowledged job ∷ [])
        (record n { outbox = put job (sent report) n.outbox }) p

  abbrev pub send_evidence : Option Bytes → String → Report → Node → P → List Event × Node × P
  send_evidence none job report n p = send_result job report [] n p
  send_evidence (some bytes) job report n p =
      if report.evidence && not report.evidence_sent
      then evidence_answered (portal.post_evidence job bytes p) job report n
      else send_result job report [] n p

  abbrev pub after_log : Outcome × Node × P → String → Report → List Event × Node × P
  after_log (out_of_fuel, n, p) job report = ([], n, p)
  after_log (raised e, n, p) job report = end_with (some e) [] job n p
  after_log (returned, n, p) job report = send_evidence (lookup job n.evidence) job report n p

  -- `_deliver` of an entry of the outbox, with what the portal said that it took, the last first.
  unfoldable pub deliver : ℕ → String → Report → Node → P → List Event × Node × P
  unfolding ship_log
  deliver fuel job report n p = after_log (ship_log fuel true job n p) job report

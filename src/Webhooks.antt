-- ===== src/Webhooks.antt =====
-- core/alteriom_hil/webhooks.py: the events that the farm sends to other software, and the tries of
-- one delivery. An event's envelope, its signature and the clock are left out.
pub mod Tries
mod Tests
use esp32_rig.Base.{
  ℕ, zero, suc, ◌+◌, ◌*◌, ◌-◌, max, String, Bool, true, false, not, ◌&&◌, ◌||◌, Option, none, some,
  List, [], ◌∷◌, ◌++◌, map, contains, lookup, eqb, Result, ok, err, if◌then◌else◌, ◌==◌,
}

-- Each base type with its actions.
unfoldable pub events : List (String × List String)
events =
    ("rig", "joined" ∷ "online" ∷ "offline" ∷ "behind" ∷ "drained" ∷ "resumed" ∷ [])
    ∷ ("run", "queued" ∷ "started" ∷ "passed" ∷ "failed" ∷ "cancelled" ∷ [])
    ∷ ("board", "red" ∷ "recovered" ∷ "registered" ∷ "missing" ∷ [])
    ∷ ("queue", "paused" ∷ "resumed" ∷ [])
    ∷ ("health", "ok" ∷ "degraded" ∷ "unhealthy" ∷ [])
    ∷ []

abbrev pub wildcard : String
wildcard = "*"

pub record Subscription : Type 0 where
  pub scope : String
  pub asked : List String
  pub active : Bool
  pub max_retries : ℕ
  pub backoff_ms : ℕ

pub record Event : Type 0 where
  pub event : String
  pub action : Option String
  pub rig : Option String

-- `partition` gives what stands before the first dot of a text, and what after.
module _ (partition : String → String × String) where
  unfoldable pub valid_event : String → Bool
  unfolding events
  valid_event name =
      let (base, action) = partition name in
      if name == wildcard then true else elim (lookup base events) [
        | none ↦ false
        | some actions ↦ action == "" || contains action actions
      ]

  -- `action or ""`
  abbrev pub text_of : Option String → String
  text_of none = ""
  text_of (some t) = t

  abbrev pub asks_for : String → String → Option String → Bool
  asks_for name event action =
      let (base, wanted) = partition name in
      name == wildcard || base == event && (wanted == "" || wanted == text_of action)

  unfoldable pub wants : List String → String → Option String → Bool
  wants [] event action = false
  wants (name ∷ asked) event action = asks_for name event action || wants asked event action

  unfoldable pub takes : Subscription → Event → Bool
  unfolding wants
  takes s e =
      s.active && (s.scope == "farm" || s.scope == text_of e.rig) && wants s.asked e.event e.action

-- What a try is recorded as: one that is not the last, and one after which nobody tries again.
pub data State : Type 0 where
  success failed dead : State

pub record Try : Type 0 where
  pub attempt : ℕ
  pub answer : Result String ℕ
  pub state : State

abbrev pub doubled : ℕ → ℕ → ℕ
doubled zero b = b
doubled (suc n) b = 2 * doubled n b

-- `(backoff_ms / 1000) * (2 ** (attempt - 1))`, in thousandths
abbrev pub wait_after : ℕ → ℕ → ℕ
wait_after backoff attempt = doubled (attempt - 1) backoff

-- `send` says what each try comes to: the status that was answered, or the text of an error.
module _ (send : ℕ → Result String ℕ) (backoff : ℕ) where
  unfoldable pub tried : ℕ → State → Try
  tried attempt state = record { attempt = attempt; answer = send attempt; state = state }

  -- After a try that failed, with so many left: what is recorded and how long the waits are.
  abbrev pub retry : ℕ → ℕ → List Try × List ℕ → List Try × List ℕ
  retry zero attempt rest = (tried attempt dead ∷ [], [])
  retry (suc left) attempt rest =
      (tried attempt failed ∷ rest.0, wait_after backoff attempt ∷ rest.1)

  unfoldable pub deliver_loop : ℕ → ℕ → List Try × List ℕ
  deliver_loop zero attempt = ([], [])
  deliver_loop (suc left) attempt =
      let rest = deliver_loop left (attempt + 1) in
      elim (send attempt) [
        | ok status ↦ (tried attempt success ∷ [], [])
        | err e ↦ retry left attempt rest
      ]

unfoldable pub deliver : (ℕ → Result String ℕ) → Subscription → List Try × List ℕ
unfolding deliver_loop
deliver send s = deliver_loop send s.backoff_ms (max 1 s.max_retries) 1

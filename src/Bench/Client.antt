-- ===== src/Bench/Client.antt =====
-- rig/alteriom_hil/protocol.py: BoardClient, and what it asks of its serial capture.
pub mod Waits
use esp32_rig.Base.{
  ℕ, zero, suc, ◌+◌, ◌-◌, ◌/◌, String, Bool, true, false, not, ◌&&◌, ◌||◌, Option, none, some, List,
  [], ◌∷◌, ◌++◌, length, any, first, lookup, if◌then◌else◌, ◌==◌,
}

-- A frame of the board: its `evt`, and its other fields as text.
pub record Event : Type 0 where
  pub evt : String
  pub fields : List (String × String)

-- What one `next_event` gives, and by how much it brings the deadline nearer.
pub record Poll : Type 0 where
  pub event : Option Event
  pub spent : ℕ

pub data Outcome : Type 0 where
  got : Event → Outcome
  timed_out unfinished : Outcome

-- How a wait ends: the events that it held back, what the capture still gives, the time that is
-- left. It is `unfinished` where the list of polls ends before the deadline.
pub record Waited : Type 0 where
  pub outcome : Outcome
  pub pending : List Event
  pub polls : List Poll
  pub left : ℕ

abbrev pub drop_first : (Event → Bool) → List Event → List Event
drop_first p [] = []
drop_first p (e ∷ es) = let rest = drop_first p es in if p e then es else e ∷ rest

unfoldable pub wait_loop : (Event → Bool) → List Poll → ℕ → List Event → Waited
wait_loop p polls zero pending = record {
  outcome = timed_out;
  pending = pending;
  polls = polls;
  left = 0;
}
wait_loop p [] (suc n) pending = record {
  outcome = unfinished;
  pending = pending;
  polls = [];
  left = suc n;
}
wait_loop p (poll ∷ polls) (suc n) pending = elim poll.event [
  | none ↦ wait_loop p polls (suc n - poll.spent) pending
  | some e ↦
      let rest = wait_loop p polls (suc n - poll.spent) (pending ++ e ∷ []) in
      if p e
      then record { outcome = got e; pending = pending; polls = polls; left = suc n - poll.spent }
      else rest
]

unfoldable pub wait_for : (Event → Bool) → ℕ → Bool → List Event → List Poll → Waited
wait_for p timeout consume pending polls = elim (first p pending) [
  | some e ↦ record {
    outcome = got e;
    pending = if consume then drop_first p pending else pending;
    polls = polls;
    left = timeout;
  }
  | none ↦ wait_loop p polls timeout pending
]

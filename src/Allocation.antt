-- ===== src/Allocation.antt =====
-- core/alteriom_hil/allocation.py: which queued runs start now, on which boards, and why the rest
-- wait. This file has the data; the children have the operations, and below each its theorems.
pub mod Needs
pub mod Coverage
pub mod Choose
pub mod Reason
pub mod Rig
pub mod Plan
mod Tests
use esp32_rig.Base.{ℕ, String, Bool, Option, List}

-- Why a board is out of the pool: bench work, or failing its own checks.
pub data HoldState : Type 0 where
  reserved quarantined : HoldState

pub record Hold : Type 0 where
  pub state : HoldState
  pub reason : Option String

-- A connected board, as a mapping: an absent or empty `hold` is `none`.
pub record Board : Type 0 where
  pub id : String
  pub target : String
  pub tags : List String
  pub hold : Option Hold
  pub worker : Option String

-- One family that a profile asks for.
pub record Need : Type 0 where
  pub target : String
  pub count : ℕ
  pub tags : List String
  pub optional : Bool

-- What one queued job asks of the rig.
pub record Demand : Type 0 where
  pub job_id : String
  pub label : String
  pub kind : String
  pub whole_rig : Bool
  pub concurrent : Bool
  pub boards : List String
  pub needs : List Need
  pub resources : List String
  pub holds_boards : Bool
  pub profile : Option String
  pub rig : Option String

-- What a started job holds until it ends.
pub record Grant : Type 0 where
  pub job_id : String
  pub label : String
  pub kind : String
  pub boards : List String
  pub resources : List String
  pub shared : Bool
  pub whole_rig : Bool
  pub since : String
  pub worker : Option String

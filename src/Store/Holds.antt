-- ===== src/Store/Holds.antt =====
-- jobstore.py and service.py: boards held out of the pool, the verdicts of the health check on each
-- board, and the quarantine that they decide.
pub mod Quarantine
use esp32_rig.Base.{
  ℕ, suc, ◌+◌, String, Bool, true, false, not, ◌&&◌, ◌||◌, Option, none, some, List, [], ◌∷◌, ◌++◌,
  map, eqb, leb, ltb, take, filter, first, lookup, put, is_some, sorted_set, sorted_texts,
  if◌then◌else◌, ◌==◌,
}
use esp32_rig.Allocation.{HoldState, reserved, quarantined}
use esp32_rig.Store.Table.{delete_where, order_by}

-- A row of `board_holds` but its board, which keys the table.
pub record HeldBoard : Type 0 where
  pub state : HoldState
  pub reason : Option String
  pub since : ℕ
  pub by : Option String
  pub job_id : Option String

abbrev pub Holds : Type 0
Holds = List (String × HeldBoard)

-- INSERT OR REPLACE
unfoldable pub set_hold :
    String → HoldState → Option String → Option String → Option String → ℕ → Holds → Holds
set_hold board state reason by job_id now holds =
    put board (record { state = state; reason = reason; since = now; by = by; job_id = job_id })
      holds

abbrev pub drop_key {ℓ} : {V : Type ℓ} → String → List (String × V) → List (String × V)
drop_key k = delete_where (λ e. e.0 == k)

unfoldable pub release_hold : String → Holds → Option HeldBoard × Holds
release_hold board holds = elim (lookup board holds) [
  | none ↦ (none, holds)
  | some h ↦ (some h, drop_key board holds)
]

pub data Check : Type 0 where
  clean board_failed inconclusive : Check

-- A row of `board_verdicts`; `clean` is the outcome that the table spells "passed".
pub record Verdict : Type 0 where
  pub job_id : String
  pub board_id : String
  pub checked_at : ℕ
  pub verdict : String
  pub outcome : Check
  pub failed : List String

abbrev pub is_verdict_of : String → String → Verdict → Bool
is_verdict_of job board v = v.job_id == job && v.board_id == board

-- INSERT OR REPLACE on (job_id, board_id): the row is a new one, the table's last.
unfoldable pub record_board_verdict : Verdict → List Verdict → List Verdict
record_board_verdict v verdicts =
    delete_where (is_verdict_of v.job_id v.board_id) verdicts ++ v ∷ []

-- ORDER BY checked_at DESC, rowid DESC
abbrev pub later : Verdict → Verdict → Bool
later a b = leb b.checked_at a.checked_at

unfoldable pub board_verdicts : String → ℕ → List Verdict → List Verdict
board_verdicts board limit verdicts =
    take limit (order_by later (filter (λ v. v.board_id == board) verdicts))

abbrev pub is_inconclusive : Verdict → Bool
is_inconclusive v = elim v.outcome [ inconclusive ↦ true | _ ↦ false ]

abbrev pub is_failure : Verdict → Bool
is_failure v = elim v.outcome [ board_failed ↦ true | _ ↦ false ]

abbrev pub is_clean : Verdict → Bool
is_clean v = elim v.outcome [ clean ↦ true | _ ↦ false ]

-- The loop over the history, newest first: how many failures in a row, and which checks failed.
unfoldable pub streak_of : List Verdict → ℕ × List String → ℕ × List String
streak_of [] acc = acc
streak_of (v ∷ vs) (streak, checks) = elim v.outcome [
  | inconclusive ↦ streak_of vs (streak, checks)
  | clean ↦ (streak, checks)
  | board_failed ↦ streak_of vs (streak + 1, checks ++ v.failed)
]

pub record Settings : Type 0 where
  pub enabled : Bool
  pub after_failures : ℕ

-- What is decided of one board, before the table is written.
pub data Decision : Type 0 where
  hold_it : ℕ → List String → Decision
  release_it leave_it : Decision

abbrev pub is_quarantined : HeldBoard → Bool
is_quarantined h = elim h.state [ quarantined ↦ true | reserved ↦ false ]

abbrev pub is_of_job : String → Option Verdict → Bool
is_of_job job o = elim o [ none ↦ false | some v ↦ v.job_id == job ]

abbrev pub head : List Verdict → Option Verdict
head [] = none
head (v ∷ vs) = some v

abbrev pub cleared_by : String → Option Verdict → Bool
cleared_by job o = elim o [ none ↦ false | some v ↦ is_clean v && v.job_id == job ]

unfoldable pub decide_free : Settings → String → List Verdict → Decision
decide_free settings job history =
    let (streak, checks) = streak_of history (0, []) in
    if leb settings.after_failures streak && is_of_job job (head history)
    then hold_it streak (sorted_set checks)
    else leave_it

unfoldable pub decide : Settings → String → Option HeldBoard → List Verdict → Decision
decide settings job hold history = elim hold [
  | some h ↦
      if is_quarantined h && cleared_by job (first (λ v. not (is_inconclusive v)) history)
      then release_it
      else leave_it
  | none ↦ if settings.enabled then decide_free settings job history else leave_it
]

-- What a decision writes; the reason's text is an argument.
unfoldable pub enact : (ℕ → List String → String) → String → ℕ → String → Decision → Holds → Holds
unfolding release_hold set_hold
enact text job now board (hold_it streak checks) holds =
    set_hold board quarantined (some (text streak checks)) (some "canary") (some job) now holds
enact text job now board release_it holds = (release_hold board holds).1
enact text job now board leave_it holds = holds

-- The loop of `_apply_quarantine`: the holds were read once, before it.
unfoldable pub apply_boards :
    (ℕ → List String → String)
    → Settings
    → String
    → ℕ
    → List Verdict
    → Holds
    → List String
    → Holds
    → Holds
apply_boards text settings job now verdicts before [] holds = holds
apply_boards text settings job now verdicts before (b ∷ bs) holds =
    apply_boards text settings job now verdicts before bs (
      enact text job now b (decide settings job (lookup b before) (board_verdicts b 50 verdicts))
        holds)

unfoldable pub apply_quarantine :
    (ℕ → List String → String) → Settings → String → ℕ → List Verdict → List String → Holds → Holds
apply_quarantine text settings job now verdicts boards holds =
    apply_boards text settings job now verdicts holds (sorted_texts boards) holds

-- ===== src/Store/Queue.antt =====
-- jobstore.py: the order of the queue, and the run that is promoted to its front.
pub mod Promote
use esp32_rig.Base.{
  ℕ, suc, ◌+◌, max, String, Bool, true, false, not, ◌&&◌, ◌||◌, Option, none, some, List, [], ◌∷◌,
  filter, ltb, leb, eqb, if◌then◌else◌,
}
use esp32_rig.Store.Table.{update_where, order_by}
use esp32_rig.Store.Jobs.{Status, is_queued, is_running, is_live, Job, Jobs, has_id, get}

-- ORDER BY priority DESC, created_at
unfoldable pub ahead : Job → Job → Bool
ahead a b =
    ltb b.priority a.priority || (eqb a.priority b.priority && ltb a.created_at b.created_at)

-- ORDER BY CASE status WHEN 'running' THEN 0 ELSE 1 END, priority DESC, created_at
unfoldable pub ahead_active : Job → Job → Bool
unfolding ahead
ahead_active a b =
    if is_running a.status
    then (if is_running b.status then ahead a b else true)
    else if is_running b.status
    then false
    else ahead a b

unfoldable pub active : Jobs → List Job
active jobs = order_by ahead_active (filter is_live jobs)

abbrev pub is_waiting : Job → Bool
is_waiting j = is_queued j.status

abbrev pub head : List Job → Option Job
head [] = none
head (j ∷ js) = some j

unfoldable pub next_queued : Jobs → Option Job
next_queued jobs = head (order_by ahead (filter is_waiting jobs))

-- COALESCE(MAX(priority), 0) over these jobs
unfoldable pub top_priority : List Job → ℕ
top_priority [] = 0
top_priority (j ∷ js) = max j.priority (top_priority js)

-- The errors of `promote`.
pub data Promotion : Type 0 where
  promoted : Jobs → Promotion
  no_such_job : Promotion
  not_queued : Status → Promotion

unfoldable pub promote : String → Jobs → Promotion
unfolding top_priority
promote id jobs = elim (get id jobs) [
  | none ↦ no_such_job
  | some j ↦
      if is_waiting j
      then promoted (
          update_where (has_id id)
            (λ r. record r { priority = top_priority (filter is_waiting jobs) + 1 }) jobs)
      else not_queued j.status
]

-- ===== src/Store/Events.antt =====
-- jobstore.py: the console's lines, the webhooks' deliveries, the farm's settings, and what retention
-- removed.
pub mod Bounds
use esp32_rig.Base.{
  ℕ, suc, ◌+◌, ◌-◌, ◌%◌, min, max, String, Bool, true, false, not, ◌&&◌, ◌||◌, Option, none, some,
  List, [], ◌∷◌, ◌++◌, map, contains, eqb, ltb, leb, length, take, filter, first, lookup, put,
  if◌then◌else◌, ◌==◌,
}
use esp32_rig.Store.Table.{update_where, count_where, delete_where}

-- A row of `events`.
pub record Event : Type 0 where
  pub id : ℕ
  pub at : ℕ
  pub worker : Option String
  pub source : String
  pub kind : String
  pub level : String
  pub text : String
  pub job_id : Option String
  pub command_id : Option String

-- The table, and the id that AUTOINCREMENT gave last.
pub record Console : Type 0 where
  pub rows : List Event
  pub last : ℕ

abbrev pub event_keep : ℕ
event_keep = 5000

abbrev pub event_prune_every : ℕ
event_prune_every = 250

-- `written - EVENT_KEEP` is at least `id`, in numbers that may be below zero.
abbrev pub is_past : ℕ → Event → Bool
is_past written e = leb (e.id + event_keep) written

abbrev pub prune : ℕ → List Event → List Event
prune written rows =
    if eqb (written % event_prune_every) 0 then delete_where (is_past written) rows else rows

-- The line's fields come in a row whose id is not used; its text is cut by the caller's `text[:2000]`.
unfoldable pub record_event : Event → Console → ℕ × Console
record_event line console =
    let written = console.last + 1 in
    (
      written,
      record {
        rows = prune written (console.rows ++ record line { id = written } ∷ []);
        last = written;
      },
    )

abbrev pub min_id : List Event → ℕ
min_id [] = 0
min_id (e ∷ []) = e.id
min_id (e ∷ f ∷ es) = min e.id (min_id (f ∷ es))

abbrev pub max_id : List Event → ℕ
max_id [] = 0
max_id (e ∷ es) = max e.id (max_id es)

pub record Tail : Type 0 where
  pub events : List Event
  pub cursor : ℕ
  pub newest : ℕ
  pub missed : ℕ

abbrev pub last_id : List Event → ℕ → ℕ
last_id [] after = after
last_id (e ∷ es) after = last_id es e.id

-- `worker = ? OR worker IS NULL`, or no condition
abbrev pub is_shown : Option String → Event → Bool
is_shown worker e = elim worker [
  | none ↦ true
  | some w ↦ elim e.worker [ none ↦ true | some v ↦ v == w ]
]

-- Rows are in the order of their ids, so ORDER BY id is the table's order.
unfoldable pub events_since : ℕ → Option String → ℕ → Console → Tail
events_since after worker limit console =
    let events =
      take (max 1 (min limit 500))
        (filter (λ e. ltb after e.id && is_shown worker e) console.rows) in
    record {
      events = events;
      cursor = last_id events after;
      newest = max_id console.rows;
      missed =
          if not (eqb after 0) && ltb (after + 1) (min_id console.rows)
          then min_id console.rows - after - 1
          else 0;
    }

-- A row of `webhook_deliveries`, but what the outcome says.
pub record Delivery : Type 0 where
  pub id : ℕ
  pub sub_id : String
  pub delivery_id : String
  pub event : String
  pub attempt : ℕ
  pub state : String
  pub at : ℕ

abbrev pub webhook_deliveries_kept : ℕ
webhook_deliveries_kept = 200

pub record Deliveries : Type 0 where
  pub rows : List Delivery
  pub last : ℕ

abbrev pub is_of : String → Delivery → Bool
is_of sub d = d.sub_id == sub

-- The newest of a list in the order of the ids: what `ORDER BY id DESC LIMIT n` picks.
abbrev pub keep_newest : String → ℕ → List Delivery → List Delivery
keep_newest sub n [] = []
keep_newest sub n (d ∷ ds) =
    let rest = keep_newest sub n ds in
    if is_of sub d && leb n (count_where (is_of sub) ds) then rest else d ∷ rest

unfoldable pub record_webhook_delivery : Delivery → Deliveries → Deliveries
record_webhook_delivery d log =
    let written = log.last + 1 in
    record {
      rows =
          keep_newest d.sub_id webhook_deliveries_kept (log.rows ++ record d { id = written } ∷ []);
      last = written;
    }

-- ===== src/Store/Commands.antt =====
-- jobstore.py: what a portal asks of a rig. A sealed argument is the rig's to read: the portal
-- keeps no copy once the rig has it.
pub mod Sealed
use esp32_rig.Base.{
  ℕ, String, Bool, true, false, not, ◌&&◌, ◌||◌, Option, none, some, List, [], ◌∷◌, ◌++◌, map, eqb,
  ltb, filter, first, lookup, has_key, put, if◌then◌else◌, ◌==◌,
}
use esp32_rig.Store.Table.{update_where, count_where, order_by}
use esp32_rig.Store.Jobs.{Fields}

pub data Status : Type 0 where
  queued sent running : Status
  ended : String → Status

-- `status IN ('queued', 'sent', 'running')`
abbrev pub is_open : Status → Bool
is_open (ended s) = false
is_open _ = true

abbrev pub is_queued : Status → Bool
is_queued queued = true
is_queued _ = false

abbrev pub is_sent : Status → Bool
is_sent sent = true
is_sent _ = false

-- A row of `worker_commands`.
pub record Command : Type 0 where
  pub id : String
  pub worker : String
  pub kind : String
  pub args : Fields
  pub status : Status
  pub result : Option Fields
  pub detail : Option String
  pub requested_by : Option String
  pub created_at : ℕ
  pub sent_at : Option ℕ
  pub started_at : Option ℕ
  pub finished_at : Option ℕ

abbrev pub Commands : Type 0
Commands = List Command

abbrev pub has_id : String → Command → Bool
has_id k c = c.id == k

abbrev pub placeholder : String
placeholder = "(sealed)"

-- `kind IN ('provider_set', 'notify_set')`
abbrev pub is_sealed_kind : Command → Bool
is_sealed_kind c = c.kind == "provider_set" || c.kind == "notify_set"

-- `args["sealed"] = SEALED_PLACEHOLDER`, where there is a sealed argument
abbrev pub blank : Fields → Fields
blank args = if has_key "sealed" args then put "sealed" placeholder args else args

unfoldable pub forget_sealed : (Command → Bool) → Commands → Commands
forget_sealed p =
    update_where (λ c. is_sealed_kind c && p c) (λ c. record c { args = blank c.args })

-- What the API returns of a command's arguments.
unfoldable pub decode_command : Bool → Command → Command
decode_command sealed c = if sealed then c else record c { args = blank c.args }

-- `id` is a fresh uuid4.
unfoldable pub add_command :
    String → String → String → Fields → Option String → ℕ → Commands → Commands
add_command id worker kind args by now commands =
    commands
    ++ record {
      id = id;
      worker = worker;
      kind = kind;
      args = args;
      status = queued;
      result = none;
      detail = none;
      requested_by = by;
      created_at = now;
      sent_at = none;
      started_at = none;
      finished_at = none;
    }
      ∷ []

unfoldable pub start_command : String → ℕ → Commands → Bool × Commands
start_command id now commands = (
  not (eqb (count_where (λ c. has_id id c && is_sent c.status) commands) 0),
  update_where (λ c. has_id id c && is_sent c.status)
      (λ c. record c { status = running; started_at = some now }) commands,
)

abbrev pub older : Command → Command → Bool
older a b = ltb a.created_at b.created_at

abbrev pub is_for : String → Command → Bool
is_for w c = c.worker == w && is_queued c.status

-- One round of the loop of `take_commands`.
abbrev pub send_row : ℕ → Command → Command
send_row now c = record c { status = sent; sent_at = some now }

unfoldable pub mark_sent : ℕ → String → Commands → Commands
unfolding forget_sealed
mark_sent now id commands =
    forget_sealed (has_id id) (update_where (has_id id) (send_row now) commands)

unfoldable pub mark_all : ℕ → List Command → Commands → Commands
mark_all now [] commands = commands
mark_all now (c ∷ cs) commands = mark_all now cs (mark_sent now c.id commands)

-- The answer is the rows as they were read, before they were blanked.
unfoldable pub take_commands : String → ℕ → Commands → List Command × Commands
take_commands w now commands =
    let rows = order_by older (filter (is_for w) commands) in
    (map (decode_command true) rows, mark_all now rows commands)

abbrev pub end_row : String → Option Fields → Option String → ℕ → Command → Command
end_row status result detail now c = record c {
  status = ended status;
  result = result;
  detail = detail;
  finished_at = some now;
}

unfoldable pub finish_command :
    String → String → Option Fields → Option String → ℕ → Commands → Bool × Commands
unfolding forget_sealed
finish_command id status result detail now commands = (
  eqb (count_where (λ c. has_id id c && is_open c.status) commands) 1,
  forget_sealed (has_id id) (
      update_where (λ c. has_id id c && is_open c.status) (end_row status result detail now)
        commands),
)

abbrev pub expire_row : ℕ → Command → Command
expire_row now c = record c {
  status = ended "expired";
  detail = some "the worker never reported on it";
  finished_at = some now;
}

unfoldable pub expire_commands : ℕ → ℕ → Commands → ℕ × Commands
unfolding forget_sealed
expire_commands older_than now commands = (
  count_where (λ c. is_open c.status && ltb c.created_at older_than) commands,
  forget_sealed (λ c. not (is_open c.status))
      (update_where (λ c. is_open c.status && ltb c.created_at older_than) (expire_row now)
        commands),
)

-- ===== src/Store/Accounts.antt =====
-- jobstore.py: people who signed in, the sessions that they hold, and two accounts made one.
-- A timestamp is a number of microseconds here, the unit of `isoformat`.
pub mod Unique
pub mod Found
pub mod Merge
pub mod Address
pub mod Moved
pub mod Sessions
pub mod Polls
pub mod Logins
mod Tests
use esp32_rig.Base.{
  ℕ, ◌+◌, ◌-◌, ◌/◌, String, Bool, true, false, not, ◌&&◌, ◌||◌, Option, none, some, List, [], ◌∷◌,
  ◌++◌, map, any, first, is_some, lookup, put, same_name, eqb, ltb, leb, if◌then◌else◌, ◌==◌,
  Result, ok, err,
}
use esp32_rig.Store.Table.{update_where, delete_where, order_by}
use esp32_rig.Store.Jobs.{Job, Fields}
use esp32_rig.Store.Signins.{Session}
use esp32_rig.Store.Enrollments.{RigDetails}

-- A row of `accounts`.
pub record Account : Type 0 where
  pub id : String
  pub handle : String
  pub email : Option String
  pub email_verified_at : Option ℕ
  pub github_id : Option ℕ
  pub github_login : Option String
  pub display_name : Option String
  pub role : String
  pub created_at : ℕ
  pub last_seen_at : Option ℕ
  pub github_repo_token : Option String
  pub github_repo_scope : Option String
  pub github_repo_granted_at : Option ℕ

abbrev pub Accounts : Type 0
Accounts = List Account

abbrev pub has_id : String → Account → Bool
has_id k a = a.id == k

abbrev pub has_handle : String → Account → Bool
has_handle k a = a.handle == k

-- A UNIQUE column holds NULL as often as it likes.
abbrev pub same_text : Option String → Option String → Bool
same_text (some s) (some t) = s == t
same_text _ _ = false

abbrev pub same_number : Option ℕ → Option ℕ → Bool
same_number (some m) (some n) = eqb m n
same_number _ _ = false

-- Two rows that the table's PRIMARY KEY and UNIQUE columns do not let stand together.
abbrev pub clashes : Account → Account → Bool
clashes a b =
    (a.id == b.id || a.handle == b.handle)
    || (same_text a.email b.email || same_number a.github_id b.github_id)

-- `account(by, value)`, by each of the columns that it allows.
pub data Column : Type 0 where
  by_id by_handle by_email : String → Column
  by_github_id : ℕ → Column

abbrev pub has_value : Column → Account → Bool
has_value (by_id k) a = has_id k a
has_value (by_handle k) a = has_handle k a
has_value (by_email k) a = same_text (some k) a.email
has_value (by_github_id n) a = same_number (some n) a.github_id

unfoldable pub account : Column → Accounts → Option Account
account by = first (has_value by)

unfoldable pub handle_taken : String → Accounts → Bool
handle_taken handle = any (has_handle handle)

-- INSERT INTO accounts: none if a row that is there clashes.
abbrev pub insert_account : Account → Accounts → Option Accounts
insert_account a rows = if any (clashes a) rows then none else some (rows ++ a ∷ [])

abbrev pub verified_now : Option String → Bool → ℕ → Option ℕ
verified_now none verified now = none
verified_now (some email) verified now = if not (email == "") && verified then some now else none

-- The id is what `uuid4` gave.
abbrev pub new_account :
    String
    → String
    → Option String
    → Bool
    → Option ℕ
    → Option String
    → Option String
    → String
    → ℕ
    → Account
new_account id handle email verified github_id login display role now = record {
  id = id;
  handle = handle;
  email = email;
  email_verified_at = verified_now email verified now;
  github_id = github_id;
  github_login = login;
  display_name = display;
  role = role;
  created_at = now;
  last_seen_at = some now;
  github_repo_token = none;
  github_repo_scope = none;
  github_repo_granted_at = none;
}

unfoldable pub create_account :
    String
    → String
    → Option String
    → Bool
    → Option ℕ
    → Option String
    → Option String
    → String
    → ℕ
    → Accounts
    → Option Accounts
create_account id handle email verified github_id login display role now =
    insert_account (new_account id handle email verified github_id login display role now)

-- A keyword argument of `update_account`; any name but the allowed ones is `other`.
pub data Change : Type 0 where
  set_email set_github_login set_display_name set_repo_token set_repo_scope : Option String → Change
  set_role : String → Change
  set_email_verified_at set_github_id set_last_seen_at set_repo_granted_at : Option ℕ → Change
  other : String → Change

abbrev pub is_unknown : Change → Bool
is_unknown (other name) = true
is_unknown _ = false

abbrev pub apply_change : Change → Account → Account
apply_change (set_email v) a = record a { email = v }
apply_change (set_github_login v) a = record a { github_login = v }
apply_change (set_display_name v) a = record a { display_name = v }
apply_change (set_repo_token v) a = record a { github_repo_token = v }
apply_change (set_repo_scope v) a = record a { github_repo_scope = v }
apply_change (set_role v) a = record a { role = v }
apply_change (set_email_verified_at v) a = record a { email_verified_at = v }
apply_change (set_github_id v) a = record a { github_id = v }
apply_change (set_last_seen_at v) a = record a { last_seen_at = v }
apply_change (set_repo_granted_at v) a = record a { github_repo_granted_at = v }
apply_change (other name) a = a

abbrev pub apply_changes : List Change → Account → Account
apply_changes [] a = a
apply_changes (c ∷ cs) a = apply_changes cs (apply_change c a)

-- UPDATE accounts ... WHERE id=?: none if the row it leaves clashes with another.
abbrev pub update_row : String → (Account → Account) → Accounts → Option Accounts
update_row id f rows =
    if any (λ a. has_id id a && any (clashes (f a)) (delete_where (has_id id) rows)) rows
    then none
    else some (update_where (has_id id) f rows)

pub data UpdateError : Type 0 where
  value_error integrity_error : UpdateError

abbrev pub written : Option Accounts → Result UpdateError Accounts
written none = err integrity_error
written (some rows) = ok rows

unfoldable pub update_account : String → List Change → Accounts → Result UpdateError Accounts
update_account id changes rows = if any is_unknown changes then err value_error else elim changes [
  | [] ↦ ok rows
  | c ∷ cs ↦ written (update_row id (apply_changes (c ∷ cs)) rows)
]

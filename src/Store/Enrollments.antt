-- ===== src/Store/Enrollments.antt =====
-- jobstore.py: rigs being added, by a one-time token that the store knows by its digest.
pub mod Once
use esp32_rig.Base.{
  ℕ, String, Bool, true, false, not, ◌&&◌, ◌||◌, Option, none, some, List, [], ◌∷◌, ◌++◌, any, eqb,
  ltb, take, filter, first, contains, if◌then◌else◌, ◌==◌,
}
use esp32_rig.Store.Table.{update_where, count_where, delete_where, order_by}

pub data Progress : Type 0 where
  waiting used : Progress

abbrev pub is_waiting : Progress → Bool
is_waiting waiting = true
is_waiting used = false

-- A row of `enrollments`.
pub record Enrollment : Type 0 where
  pub id : String
  pub name : String
  pub token : String
  pub note : Option String
  pub created_by : Option String
  pub created_at : ℕ
  pub expires_at : ℕ
  pub status : Progress
  pub used_at : Option ℕ
  pub used_from : Option String
  pub hostname : Option String

abbrev pub has_id : String → Enrollment → Bool
has_id k e = e.id == k

abbrev pub has_token : String → Enrollment → Bool
has_token t e = e.token == t

-- `none`: the id or the token's digest is taken.
unfoldable pub add_enrollment :
    String
    → String
    → String
    → Option String
    → Option String
    → ℕ
    → ℕ
    → List Enrollment
    → Option (List Enrollment)
add_enrollment id name token note by now expires_at rows =
    if any (λ e. has_id id e || has_token token e) rows
    then none
    else some (
        rows
        ++ record {
          id = id;
          name = name;
          token = token;
          note = note;
          created_by = by;
          created_at = now;
          expires_at = expires_at;
          status = waiting;
          used_at = none;
          used_from = none;
          hostname = none;
        }
          ∷ [])

unfoldable pub enrollment_by_token : String → List Enrollment → Option Enrollment
enrollment_by_token token = first (has_token token)

-- WHERE id=? AND status='waiting' AND expires_at > ?
abbrev pub is_claimable : String → ℕ → Enrollment → Bool
is_claimable id now e = has_id id e && (is_waiting e.status && ltb now e.expires_at)

abbrev pub use_row : ℕ → Option String → Option String → Enrollment → Enrollment
use_row now address hostname e = record e {
  status = used;
  used_at = some now;
  used_from = address;
  hostname = hostname;
}

unfoldable pub claim_enrollment :
    String → ℕ → Option String → Option String → List Enrollment → Bool × List Enrollment
claim_enrollment id now address hostname rows = (
  eqb (count_where (is_claimable id now) rows) 1,
  update_where (is_claimable id now) (use_row now address hostname) rows,
)

abbrev pub unuse_row : Enrollment → Enrollment
unuse_row e = record e { status = waiting; used_at = none; used_from = none; hostname = none }

unfoldable pub unclaim_enrollment : String → List Enrollment → List Enrollment
unclaim_enrollment id = update_where (has_id id) unuse_row

abbrev pub renew_row : String → ℕ → Enrollment → Enrollment
renew_row token expires_at e = record (unuse_row e) { token = token; expires_at = expires_at }

unfoldable pub renew_enrollment : String → String → ℕ → List Enrollment → List Enrollment
renew_enrollment id token expires_at = update_where (has_id id) (renew_row token expires_at)

-- A row of `rig_details`.
pub record RigDetails : Type 0 where
  pub name : String
  pub description : Option String
  pub location : Option String
  pub updated_by : Option String
  pub updated_at : ℕ
  pub owner : Option String
  pub visibility : Option String

abbrev pub no_details : String → Option String → ℕ → RigDetails
no_details name by now = record {
  name = name;
  description = none;
  location = none;
  updated_by = by;
  updated_at = now;
  owner = none;
  visibility = none;
}

abbrev pub is_rig : String → RigDetails → Bool
is_rig name r = r.name == name

-- INSERT ... ON CONFLICT(name) DO UPDATE: a change of the rig's row, or of a new one.
abbrev pub upsert :
    String → (RigDetails → RigDetails) → Option String → ℕ → List RigDetails → List RigDetails
upsert name f by now rows =
    if any (is_rig name) rows
    then update_where (is_rig name) (λ r. f (record r { updated_by = by; updated_at = now })) rows
    else rows ++ f (no_details name by now) ∷ []

unfoldable pub set_rig_owner :
    String → Option String → Option String → ℕ → List RigDetails → List RigDetails
set_rig_owner name owner by now = upsert name (λ r. record r { owner = owner }) by now

unfoldable pub set_rig_visibility :
    String → String → Option String → ℕ → List RigDetails → List RigDetails
set_rig_visibility name visibility by now =
    upsert name (λ r. record r { visibility = some visibility }) by now

unfoldable pub set_rig_details :
    String → Option String → Option String → Option String → ℕ → List RigDetails → List RigDetails
set_rig_details name description location by now =
    upsert name (λ r. record r { description = description; location = location }) by now

unfoldable pub delete_rig_details : String → List RigDetails → List RigDetails
delete_rig_details name = delete_where (is_rig name)

unfoldable pub rename_enrollments :
    String → String → List Enrollment → List RigDetails → List Enrollment × List RigDetails
rename_enrollments name new_name rows details = (
  update_where (λ e. e.name == name) (λ e. record e { name = new_name }) rows,
  update_where (is_rig name) (λ r. record r { name = new_name }) details,
)

unfoldable pub delete_enrollments : String → List Enrollment → ℕ × List Enrollment
delete_enrollments name rows =
    (count_where (λ e. e.name == name) rows, delete_where (λ e. e.name == name) rows)

unfoldable pub recent_enrollments : ℕ → List Enrollment → List Enrollment
recent_enrollments limit rows = take limit (order_by (λ a b. ltb b.created_at a.created_at) rows)

-- SELECT DISTINCT name: as a set, in which a name may stand twice.
unfoldable pub pending_enrollment_names : List Enrollment → List String
pending_enrollment_names [] = []
pending_enrollment_names (e ∷ es) =
    let rest = pending_enrollment_names es in if is_waiting e.status then e.name ∷ rest else rest

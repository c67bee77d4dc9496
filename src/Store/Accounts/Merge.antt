-- ===== src/Store/Accounts/Merge.antt =====
-- jobstore.py: `merge_accounts`, over the tables that it writes.
use esp32_rig.Base.{String, Bool, false, Option, none, some, List, put, lookup, same_name, ◌==◌}
use esp32_rig.Store.Table.{update_where, delete_where}
use esp32_rig.Store.Jobs.{Job, Jobs}
use esp32_rig.Store.Signins.{Session}
use esp32_rig.Store.Enrollments.{RigDetails}
use esp32_rig.Store.Accounts.{Account, Accounts, account, by_id, has_id, update_row}

pub record Portal : Type 0 where
  pub accounts : Accounts
  pub sessions : List Session
  pub rigs : List RigDetails
  pub jobs : Jobs

abbrev pub is_session_for : String → Session → Bool
is_session_for id s = s.account_id == id

abbrev pub is_owned_by : String → RigDetails → Bool
is_owned_by handle r = same_name r.owner (some handle)

-- json_extract(request_json, '$.submitted_by') = ?
abbrev pub is_submitted_by : String → Job → Bool
is_submitted_by handle j = same_name (lookup "submitted_by" j.request) (some handle)

abbrev pub with_submitter : String → Job → Job
with_submitter handle j = record j { request = put "submitted_by" handle j.request }

-- `email or verified` of Python on what the columns hold.
abbrev pub or_else : {A : Type 0} → Option A → Option A → Option A
or_else (some a) b = some a
or_else none b = b

-- The survivor's row, which takes an address only if it has none.
abbrev pub take_email : Account → Account → Account
take_email drop a = record a {
  email = drop.email;
  email_verified_at = or_else a.email_verified_at drop.email_verified_at;
}

-- What the two rows hold of an address is passed first.
abbrev pub with_email :
    Option String → Option String → Account → Account → Accounts → Option Accounts
with_email none (some e) keep drop rows = update_row keep.id (take_email drop) rows
with_email _ _ keep drop rows = some rows

abbrev pub moved : Account → Account → Portal → Accounts → Portal
moved keep drop p rows = record {
  accounts = rows;
  sessions =
      update_where (is_session_for drop.id) (λ s. record s { account_id = keep.id }) p.sessions;
  rigs = update_where (is_owned_by drop.handle) (λ r. record r { owner = some keep.handle }) p.rigs;
  jobs = update_where (is_submitted_by drop.handle) (with_submitter keep.handle) p.jobs;
}

abbrev pub moved_with : Account → Account → Portal → Option Accounts → Option Portal
moved_with keep drop p none = none
moved_with keep drop p (some rows) = some (moved keep drop p rows)

abbrev pub merge_rows : Account → Account → Portal → Option Portal
merge_rows keep drop p =
    moved_with keep drop p
      (with_email keep.email drop.email keep drop (delete_where (has_id drop.id) p.accounts))

abbrev pub merge_found : Option Account → Option Account → Bool → Portal → Option Portal
merge_found (some keep) (some drop) false p = merge_rows keep drop p
merge_found _ _ _ p = some p

-- `none`: a statement failed, and the transaction is rolled back.
unfoldable pub merge_accounts : String → String → Portal → Option Portal
unfolding account
merge_accounts keep_id drop_id p =
    merge_found (account (by_id keep_id) p.accounts) (account (by_id drop_id) p.accounts)
      (keep_id == drop_id) p

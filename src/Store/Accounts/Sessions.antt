-- ===== src/Store/Accounts/Sessions.antt =====
-- jobstore.py: a browser's session and the account behind it; who owns a GitHub login.
use esp32_rig.Base.{
  ℕ, ◌+◌, ◌-◌, ◌/◌, String, Bool, true, ◌&&◌, Option, none, some, List, [], ◌∷◌, ◌++◌, any, first,
  filter, ◌*◌, if◌then◌else◌, ◌==◌, leb, ltb,
}
use esp32_rig.Store.Table.{update_where, order_by}
use esp32_rig.Store.Signins.{Session}
use esp32_rig.Store.Accounts.{Account, Accounts, account, by_id, has_id}

abbrev pub is_session : String → Session → Bool
is_session digest s = s.digest == digest

-- `none`: the digest is taken.
unfoldable pub create_session :
    String → String → ℕ → Option String → ℕ → List Session → Option (List Session)
create_session digest account_id expires_at address now sessions =
    if any (is_session digest) sessions
    then none
    else some (
        sessions
        ++ record {
          digest = digest;
          account_id = account_id;
          created_at = now;
          expires_at = expires_at;
          last_seen_at = some now;
          address = address;
        }
          ∷ [])

-- In tenths of a second, to which the seconds are rounded; a time that is not yet passed is 0.
abbrev pub elapsed : ℕ → ℕ → ℕ
elapsed start end = (end - start + 50_000) / 100_000

abbrev pub seen_write_seconds : ℕ
seen_write_seconds = 60

-- A row that was seen lately is left as it is.
abbrev pub is_stale : Option ℕ → ℕ → Bool
is_stale none now = true
is_stale (some seen) now = leb (10 * seen_write_seconds) (elapsed seen now)

abbrev pub is_live : String → ℕ → Session → Bool
is_live digest now s = is_session digest s && ltb now s.expires_at

-- The join: a digest has one session at most, and an id one account.
abbrev pub account_of : Option Session → Accounts → Option Account
account_of none accounts = none
account_of (some s) accounts = account (by_id s.account_id) accounts

abbrev pub session_row : String → ℕ → List Session → Accounts → Option Account
session_row digest now sessions = account_of (first (is_live digest now) sessions)

abbrev pub see_session : ℕ → Session → Session
see_session now s = record s { last_seen_at = some now }

abbrev pub see_account : ℕ → Account → Account
see_account now a = record a { last_seen_at = some now }

-- `account.pop("github_repo_token", None)`
abbrev pub shown : Account → Account
shown a = record a { github_repo_token = none }

abbrev pub seen_row :
    Option Account → String → ℕ → List Session → Accounts → Option Account × List Session × Accounts
seen_row none digest now sessions accounts = (none, sessions, accounts)
seen_row (some row) digest now sessions accounts =
    if is_stale row.last_seen_at now
    then (
      some (shown row),
      update_where (is_session digest) (see_session now) sessions,
      update_where (has_id row.id) (see_account now) accounts,
    )
    else (some (shown row), sessions, accounts)

unfoldable pub session_account :
    String → ℕ → List Session → Accounts → Option Account × List Session × Accounts
session_account digest now sessions accounts =
    seen_row (session_row digest now sessions accounts) digest now sessions accounts

-- `COALESCE(last_seen_at, created_at)`
abbrev pub coalesce : Option ℕ → ℕ → ℕ
coalesce none created = created
coalesce (some seen) created = seen

abbrev pub last_used : Session → ℕ
last_used s = coalesce s.last_seen_at s.created_at

abbrev pub is_live_of : String → ℕ → Session → Bool
is_live_of account_id now s = s.account_id == account_id && ltb now s.expires_at

unfoldable pub account_sessions : String → ℕ → List Session → List Session
account_sessions account_id now sessions =
    order_by (λ a b. ltb (last_used b) (last_used a)) (filter (is_live_of account_id now) sessions)

-- A row of `github_logins`.
pub record Login : Type 0 where
  pub login : String
  pub github_id : ℕ
  pub first_seen_at : ℕ

abbrev pub is_login : String → Login → Bool
is_login name l = l.login == name

-- INSERT OR IGNORE
unfoldable pub claim_github_login : String → ℕ → ℕ → List Login → List Login
claim_github_login name github_id now logins =
    if any (is_login name) logins
    then logins
    else logins ++ record { login = name; github_id = github_id; first_seen_at = now } ∷ []

abbrev pub owner_of : Option Login → Option ℕ
owner_of none = none
owner_of (some l) = some l.github_id

unfoldable pub github_login_owner : String → List Login → Option ℕ
github_login_owner name logins = owner_of (first (is_login name) logins)

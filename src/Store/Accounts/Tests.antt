-- ===== src/Store/Accounts/Tests.antt =====
-- Two people of a small portal.
use esp32_rig.Base.{arith, ◌≡◌, refl, String, true, false, none, some, [], ◌∷◌}
use esp32_rig.Store.Jobs.{Job, new_job}
use esp32_rig.Store.Signins.{Session}
use esp32_rig.Store.Enrollments.{no_details}
use esp32_rig.Store.Accounts.{Account, new_account, account}
use esp32_rig.Store.Accounts.Merge.{Portal, merge_accounts}
use esp32_rig.Store.Accounts.Moved.{merge_accounts-IsMerged, IsMerged}
use esp32_rig.Store.Accounts.Sessions.{github_login_owner}
use esp32_rig.Store.Accounts.Polls.{poll_all, session_account-polls}
use esp32_rig.Store.Accounts.Logins.{claim_all, claim_all-owner}

abbrev ann : Account
ann = new_account "1" "ann" none false (some 7) (some "ann") none "user" 0

abbrev bob : Account
bob = new_account "2" "bob" (some "bob@farm") true none none none "user" 0

abbrev cat : Account
cat = new_account "3" "cat" (some "cat@farm") true none none none "user" 0

abbrev session : String → String → Session
session digest id = record {
  digest = digest;
  account_id = id;
  created_at = 0;
  expires_at = 1_000_000_000;
  last_seen_at = some 0;
  address = none;
}

abbrev run : String → String → Job
run id by = new_job id "suite" 0 (("submitted_by", by) ∷ []) "log" []

abbrev portal : Portal
portal = record {
  accounts = ann ∷ bob ∷ cat ∷ [];
  sessions = session "a" "1" ∷ session "b" "2" ∷ session "c" "3" ∷ [];
  rigs = record (no_details "north" none 0) { owner = some "bob" } ∷ [];
  jobs = run "j1" "ann" ∷ run "j2" "bob" ∷ [];
}

merge_accounts-IsMerged_example :
    (q : Portal) × (merge_accounts "1" "2" portal ≡ some q) × IsMerged ann bob portal "1" "bob" q
unfolding account
merge_accounts-IsMerged_example =
    merge_accounts-IsMerged ann bob portal "1" "bob" ((refl, (refl, (refl, tt)))) refl refl refl

session_account-polls_example :
    poll_all "b" (61_000_000 ∷ 70_000_000 ∷ 120_000_000 ∷ []) portal.sessions portal.accounts
    ≡ poll_all "b" (61_000_000 ∷ []) portal.sessions portal.accounts
unfolding account
session_account-polls_example =
    session_account-polls "b" 61_000_000 (70_000_000 ∷ 120_000_000 ∷ []) portal.sessions
      portal.accounts bob (omega arith) refl refl (omega arith, (omega arith, tt))

claim_all-owner_example :
    github_login_owner "ann" (claim_all (("ann", 7, 0) ∷ ("bob", 9, 1) ∷ ("ann", 8, 2) ∷ []) [])
    ≡ some 7
unfolding github_login_owner
claim_all-owner_example =
    claim_all-owner "ann" (("ann", 7, 0) ∷ ("bob", 9, 1) ∷ ("ann", 8, 2) ∷ []) []

-- ===== src/Store/Signins.antt =====
-- jobstore.py: one-time codes and states of a sign-in, and the sessions that it opens.
pub mod Codes
use esp32_rig.Base.{
  ℕ, suc, ◌+◌, String, Bool, true, false, not, ◌&&◌, ◌||◌, Option, none, some, List, [], ◌∷◌, ◌++◌,
  eqb, ltb, leb, length, filter, first, if◌then◌else◌, ◌==◌,
}
use esp32_rig.Store.Table.{update_where, count_where, delete_where, order_by}

-- A row of `signin_codes`.
pub record Code : Type 0 where
  pub digest : String
  pub email : String
  pub next : Option String
  pub browser : String
  pub created_at : ℕ
  pub expires_at : ℕ
  pub address : Option String
  pub attempts : ℕ

abbrev pub signin_code_attempts : ℕ
signin_code_attempts = 5

abbrev pub for_email : String → Code → Bool
for_email email c = c.email == email

abbrev pub has_digest : String → Code → Bool
has_digest d c = c.digest == d

abbrev pub new_code : String → String → String → ℕ → Option String → Option String → ℕ → Code
new_code digest email browser expires_at address next now = record {
  digest = digest;
  email = email;
  next = next;
  browser = browser;
  created_at = now;
  expires_at = expires_at;
  address = address;
  attempts = 0;
}

-- One code for an address: it replaces any that is there. The digest is the primary key, and that
-- of a code kept for another address makes the INSERT fail.
unfoldable pub create_signin_code :
    String
    → String
    → String
    → ℕ
    → Option String
    → Option String
    → ℕ
    → List Code
    → Option (List Code)
create_signin_code digest email browser expires_at address next now codes =
    let kept = delete_where (for_email email) codes in
    if eqb (count_where (has_digest digest) kept) 0
    then some (kept ++ new_code digest email browser expires_at address next now ∷ [])
    else none

abbrev pub is_live_for : String → ℕ → Code → Bool
is_live_for email now c = for_email email c && ltb now c.expires_at

-- `hmac.compare_digest` on both digests
abbrev pub is_right : String → String → Code → Bool
is_right digest browser c = c.digest == digest && c.browser == browser

abbrev pub count_guess : Code → Code
count_guess c = record c { attempts = c.attempts + 1 }

abbrev pub spent_by : String → String → Code → Bool
spent_by digest email c = has_digest digest c && for_email email c

abbrev pub worn_out : String → ℕ → Code → Bool
worn_out digest attempts c = has_digest digest c && leb attempts c.attempts

-- A right guess takes the row; a wrong one counts against it, and too many take it.
unfoldable pub guess : Code → String → String → String → ℕ → List Code → Option Code × List Code
guess row email digest browser attempts codes =
    if is_right digest browser row
    then (
      if eqb (count_where (spent_by row.digest email) codes) 1 then some row else none,
      delete_where (spent_by row.digest email) codes,
    )
    else (
      none,
      delete_where (worn_out row.digest attempts)
          (update_where (has_digest row.digest) count_guess codes),
    )

unfoldable pub consume_signin_code :
    String → String → String → ℕ → ℕ → List Code → Option Code × List Code
unfolding guess
consume_signin_code email digest browser now attempts codes =
    elim (first (is_live_for email now) codes) [
      | none ↦ (none, codes)
      | some row ↦ guess row email digest browser attempts codes
    ]

-- A row of `oauth_states`.
pub record OauthState : Type 0 where
  pub state : String
  pub next : Option String
  pub created_at : ℕ
  pub expires_at : ℕ
  pub browser : Option String

abbrev pub is_state : String → OauthState → Bool
is_state k s = s.state == k

unfoldable pub create_oauth_state :
    String → String → ℕ → Option String → ℕ → List OauthState → Option (List OauthState)
create_oauth_state state browser expires_at next now states =
    if eqb (count_where (is_state state) states) 0
    then some (
        states
        ++ record {
          state = state;
          next = next;
          created_at = now;
          expires_at = expires_at;
          browser = some browser;
        }
          ∷ [])
    else none

-- The browser that began is the one that comes back.
abbrev pub same_browser : String → OauthState → Bool
same_browser browser s = elim s.browser [ none ↦ false | some b ↦ not (b == "") && b == browser ]

unfoldable pub consume_oauth_state :
    String → String → ℕ → List OauthState → Option OauthState × List OauthState
consume_oauth_state state browser now states = (
  elim (first (is_state state) states) [
    | none ↦ none
    | some row ↦
        if not (eqb (count_where (is_state state) states) 1) || leb row.expires_at now
        then none
        else if same_browser browser row
        then some row
        else none
  ],
  delete_where (is_state state) states,
)

-- A row of `sessions`.
pub record Session : Type 0 where
  pub digest : String
  pub account_id : String
  pub created_at : ℕ
  pub expires_at : ℕ
  pub last_seen_at : Option ℕ
  pub address : Option String

unfoldable pub delete_session : String → List Session → List Session
delete_session digest = delete_where (λ s. s.digest == digest)

abbrev pub is_session_of : String → String → Session → Bool
is_session_of account digest s = s.account_id == account && s.digest == digest

unfoldable pub delete_account_session : String → String → List Session → ℕ × List Session
delete_account_session account digest sessions = (
  count_where (is_session_of account digest) sessions,
  delete_where (is_session_of account digest) sessions,
)

abbrev pub is_other_session : String → String → Session → Bool
is_other_session account keep s = s.account_id == account && not (s.digest == keep)

unfoldable pub delete_other_sessions : String → String → List Session → ℕ × List Session
delete_other_sessions account keep sessions = (
  count_where (is_other_session account keep) sessions,
  delete_where (is_other_session account keep) sessions,
)

-- `prune_signins`, over the three tables.
unfoldable pub prune_signins :
    ℕ → List Session → List Code → List OauthState → List Session × List Code × List OauthState
prune_signins now sessions codes states = (
  delete_where (λ s. leb s.expires_at now) sessions,
  delete_where (λ c. leb c.expires_at now) codes,
  delete_where (λ s. leb s.expires_at now) states,
)

-- ===== src/Store/Accounts/Polls.antt =====
-- What polls of a session write, and who owns a login.
use esp32_rig.Base.{
  ℕ, ◌*◌, ◌≤◌, ◌<◌, ◌≡◌, refl, sym, ap, subst, ◌∙◌, String, Bool, true, Option, none, some, List,
  [], ◌∷◌, arith, All, first, inl, inr, Bool-cases, Option-cases,
}
use esp32_rig.Store.Table.{update_where, count_where, update_where-none}
use esp32_rig.Store.Signins.{Session}
use esp32_rig.Store.Accounts.{Account, Accounts, account, has_id}
use esp32_rig.Store.Accounts.Found.{first-updated, first_passes}
use esp32_rig.Store.Accounts.Sessions.{
  is_session, is_live, elapsed, seen_write_seconds, is_stale, account_of, session_row, see_session,
  see_account, session_account,
}

-- Polls of one session, each at a time; what is left is the two tables.
abbrev pub poll_all : String → List ℕ → List Session → Accounts → List Session × Accounts
unfolding session_account
poll_all digest [] sessions accounts = (sessions, accounts)
poll_all digest (now ∷ later) sessions accounts =
    let polled = session_account digest now sessions accounts in
    poll_all digest later polled.1 polled.2

module _ (digest : String) where
  none_live :
      (at : ℕ) (sessions : List Session)
      → count_where (is_session digest) sessions ≡ 0
      → first (is_live digest at) sessions ≡ none
  none_live at [] h = refl
  none_live at (s ∷ rest) h = ground (arith, none_live at rest)

  seen_none :
      (now : ℕ) (sessions : List Session)
      → count_where (is_session digest) sessions ≡ 0
      → update_where (is_session digest) (see_session now) sessions ≡ sessions
  seen_none now sessions = update_where-none (is_session digest) (see_session now) sessions

  first_session :
      (p : Session → Bool) (r s : Session) (rest : List Session)
      → p r ≡ true
      → first p (r ∷ rest) ≡ some s
      → r ≡ s
  first_session p r s rest h e = ground arith

  -- The digest finds the same account later, if it finds one.
  same_account :
      (now later : ℕ) (sessions : List Session) (s s' : Session)
      → count_where (is_session digest) sessions ≤ 1
      → first (is_live digest now) sessions ≡ some s
      → first (is_live digest later) (update_where (is_session digest) (see_session now) sessions)
        ≡ some s'
      → s'.account_id ≡ s.account_id
  same_account now later [] s s' h e e' = absurd (cc)
  same_account now later (r ∷ rest) s s' h e e' = elim (Bool-cases (is_session digest r)) [
    | inl d ↦
        let gone : count_where (is_session digest) rest ≡ 0 = ground arith in
        let here : r ≡ s = ground (arith, none_live now rest gone) in
        let there : see_session now r ≡ s' =
          ground (arith, seen_none now rest gone, none_live later rest gone) in
        sym (ap (λ t. t.account_id) there) ∙ ap (λ t. t.account_id) here
    | inr d ↦ same_account now later rest s s' (ground arith) (ground arith) (ground arith)
  ]

module _ (digest : String) (now : ℕ) (sessions : List Session) (accounts : Accounts) where
  abbrev sessions' : List Session
  sessions' = update_where (is_session digest) (see_session now) sessions

  abbrev accounts' : Account → Accounts
  accounts' row = update_where (has_id row.id) (see_account now) accounts

  -- What a session finds once its rows are written is the row that was.
  found_again :
      (later : ℕ) (s s' : Session) (row : Account)
      → count_where (is_session digest) sessions ≤ 1
      → first (is_live digest now) sessions ≡ some s
      → account_of (some s) accounts ≡ some row
      → first (is_live digest later) sessions' ≡ some s'
      → account_of (some s') (accounts' row) ≡ some (see_account now row)
  unfolding account
  found_again later s s' row one live held live' =
      let same = same_account digest now later sessions s s' one live live' in
      let id = first_passes s.account_id accounts row held in
      subst (λ k. first (has_id k) (accounts' row) ≡ some (see_account now row)) (id ∙ sym same)
        (first-updated row.id (see_account now) (λ k b. refl) row accounts
          (subst (λ k. first (has_id k) accounts ≡ some row) (sym id) held))

  -- A poll that finds the rows fresh leaves them.
  poll_fresh :
      (later : ℕ) (s : Session) (row : Account)
      → count_where (is_session digest) sessions ≤ 1
      → first (is_live digest now) sessions ≡ some s
      → account_of (some s) accounts ≡ some row
      → elapsed now later < 10 * seen_write_seconds
      → ((session_account digest later sessions' (accounts' row)).1 ≡ sessions')
        × ((session_account digest later sessions' (accounts' row)).2 ≡ accounts' row)
  unfolding session_account
  poll_fresh later s row one live held soon =
      elim (Option-cases (first (is_live digest later) sessions')) [
        | inl gone ↦ rw gone (refl, refl)
        | inr (s', found) ↦
            rw (found, found_again later s s' row one live held found) (ground arith)
      ]

  polls_fresh :
      (times : List ℕ) (s : Session) (row : Account)
      → count_where (is_session digest) sessions ≤ 1
      → first (is_live digest now) sessions ≡ some s
      → account_of (some s) accounts ≡ some row
      → All (λ t. elapsed now t < 10 * seen_write_seconds) times
      → poll_all digest times sessions' (accounts' row) ≡ (sessions', accounts' row)
  unfolding poll_all
  polls_fresh [] s row one live held soon = refl
  polls_fresh (t ∷ times) s row one live held soon =
      let step = poll_fresh t s row one live held soon.0 in
      rw (step.0, step.1) (polls_fresh times s row one live held soon.1)

-- A poll that finds an account.
account_of-some :
    (found : Option Session) (accounts : Accounts) (row : Account)
    → account_of found accounts ≡ some row
    → (s : Session) × (found ≡ some s)
account_of-some none accounts row e = absurd (cc)
account_of-some (some s) accounts row e = (s, refl)

-- A session whose digest stands in one row at most is polled, its account is found and was not seen
-- in the last 60 seconds. Then any further polls of it in the 60 seconds after, as `_elapsed` rounds
-- them, leave the sessions and the accounts as the first poll left them.
pub session_account-polls :
    (digest : String) (now : ℕ) (times : List ℕ) (sessions : List Session) (accounts : Accounts)
    (row : Account)
    → count_where (is_session digest) sessions ≤ 1
    → session_row digest now sessions accounts ≡ some row
    → is_stale row.last_seen_at now ≡ true
    → All (λ t. elapsed now t < 10 * seen_write_seconds) times
    → poll_all digest (now ∷ times) sessions accounts ≡ poll_all digest (now ∷ []) sessions accounts
unfolding poll_all session_account
session_account-polls digest now times sessions accounts row one found stale soon =
    let held = account_of-some (first (is_live digest now) sessions) accounts row found in
    rw (found, stale)
      (polls_fresh digest now sessions accounts times held.0 row one held.1
        (subst (λ f. account_of f accounts ≡ some row) held.1 found) soon)

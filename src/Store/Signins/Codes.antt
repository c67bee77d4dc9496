-- ===== src/Store/Signins/Codes.antt =====
-- How often a sign-in code can be tried.
use esp32_rig.Base.{
  ℕ, ◌+◌, ◌-◌, ◌≤◌, ◌<◌, ◌≡◌, refl, String, Bool, true, inl, inr, Option, none, some, List, [], ◌∷◌,
  ◌++◌, arith, eq_iff, first, is_some, All, All-append, if◌then◌else◌, Bool-cases, Option-cases,
}
use esp32_rig.Store.Table.{update_where, delete_where}
use esp32_rig.Store.Signins.{
  Code, for_email, has_digest, is_live_for, is_right, count_guess, spent_by, worn_out,
  consume_signin_code, create_signin_code, new_code, OauthState, is_state, consume_oauth_state,
}

-- The guesses that are left at the codes of an address.
abbrev pub budget : String → ℕ → List Code → ℕ
budget email limit [] = 0
budget email limit (c ∷ cs) =
    (if for_email email c then limit - c.attempts else 0) + budget email limit cs

-- No code of the address has used up its guesses.
abbrev HasGuesses : String → ℕ → List Code → Type 0
HasGuesses email limit = All (λ c. for_email email c ≡ true → c.attempts < limit)

module _ (email : String) (limit : ℕ) where
  budget-delete :
      (p : Code → Bool) (codes : List Code)
      → budget email limit (delete_where p codes) ≤ budget email limit codes
  budget-delete p [] = omega arith
  budget-delete p (c ∷ cs) = ground (arith, budget-delete p cs)

  delete-HasGuesses :
      (p : Code → Bool) (codes : List Code)
      → HasGuesses email limit codes
      → HasGuesses email limit (delete_where p codes)
  delete-HasGuesses p [] h = tt
  delete-HasGuesses p (c ∷ cs) h = ground (arith, delete-HasGuesses p cs h.1)

  -- A right guess takes the row, with the guesses that it had.
  budget-spent :
      (digest : String) (now : ℕ) (row : Code) (codes : List Code)
      → HasGuesses email limit codes
      → first (is_live_for email now) codes ≡ some row
      → row.digest ≡ digest
      → budget email limit (delete_where (spent_by digest email) codes) + 1
        ≤ budget email limit codes
  budget-spent digest now row [] h e same = absurd (cc)
  budget-spent digest now row (c ∷ cs) h e same = ground (
    arith,
    eq_iff c.digest digest,
    budget-spent digest now row cs h.1,
    budget-delete (spent_by digest email) cs,
  )

  budget-update :
      (digest : String) (codes : List Code)
      → budget email limit (update_where (has_digest digest) count_guess codes)
        ≤ budget email limit codes
  budget-update digest [] = omega arith
  budget-update digest (c ∷ cs) = ground (arith, budget-update digest cs)

  -- A wrong one counts against it.
  budget-guess :
      (digest : String) (now : ℕ) (row : Code) (codes : List Code)
      → HasGuesses email limit codes
      → first (is_live_for email now) codes ≡ some row
      → row.digest ≡ digest
      → budget email limit (update_where (has_digest digest) count_guess codes) + 1
        ≤ budget email limit codes
  budget-guess digest now row [] h e same = absurd (cc)
  budget-guess digest now row (c ∷ cs) h e same =
      ground
        (arith, eq_iff c.digest digest, budget-guess digest now row cs h.1, budget-update digest cs)

  guess-HasGuesses :
      (digest : String) (codes : List Code)
      → HasGuesses email limit codes
      → HasGuesses email limit (
          delete_where (worn_out digest limit) (update_where (has_digest digest) count_guess codes))
  guess-HasGuesses digest [] h = tt
  guess-HasGuesses digest (c ∷ cs) h = ground (arith, guess-HasGuesses digest cs h.1)

  abbrev after_guess : String → String → ℕ → List Code → List Code
  after_guess digest browser now codes =
      (consume_signin_code email digest browser now limit codes).1

  abbrev worn : Code → List Code → List Code
  worn row codes =
      delete_where (worn_out row.digest limit)
        (update_where (has_digest row.digest) count_guess codes)

  module _ (digest browser : String) (now : ℕ) (codes : List Code) where
    after_guess-none :
        first (is_live_for email now) codes ≡ none → after_guess digest browser now codes ≡ codes
    unfolding consume_signin_code
    after_guess-none e = ground arith

    after_guess-some :
        (row : Code)
        → first (is_live_for email now) codes ≡ some row
        → after_guess digest browser now codes ≡ (
            if is_right digest browser row
            then delete_where (spent_by row.digest email) codes
            else worn row codes)
    unfolding consume_signin_code
    after_guess-some row e = ground arith

    abbrev Spends : ℕ → List Code → Type 0
    Spends n codes' =
        HasGuesses email limit codes' × (n + budget email limit codes' ≤ budget email limit codes)

    consume-budget :
        HasGuesses email limit codes
        → Spends
            (if is_some (first (is_live_for email now) codes) then 1 else 0)
            (after_guess digest browser now codes)
    consume-budget h = elim (Option-cases (first (is_live_for email now) codes)) [
      | inl e ↦ rw (after_guess-none e) (rw e (h, omega arith))
      | inr (row, e) ↦ elim (Bool-cases (is_right digest browser row)) [
        | inl right ↦ rw (after_guess-some row e) (
            rw (e, right)
              (
                delete-HasGuesses (spent_by row.digest email) codes h,
                omega (arith, budget-spent row.digest now row codes h e refl),
              ))
        | inr wrong ↦ rw (after_guess-some row e) (
            rw (e, wrong)
              (
                guess-HasGuesses row.digest codes h,
                omega (
                  arith,
                  budget-delete (worn_out row.digest limit)
                      (update_where (has_digest row.digest) count_guess codes),
                  budget-guess row.digest now row codes h e refl,
                ),
              ))
      ]
    ]

  -- How many of these guesses, made one after another, met a live code of the address.
  pub tries : List (String × String × ℕ) → List Code → ℕ
  tries [] codes = 0
  tries ((digest, browser, now) ∷ gs) codes =
      (if is_some (first (is_live_for email now) codes) then 1 else 0)
      + tries gs (after_guess digest browser now codes)

  pub tries-le-budget :
      (gs : List (String × String × ℕ)) (codes : List Code)
      → HasGuesses email limit codes
      → tries gs codes ≤ budget email limit codes
  unfolding tries
  tries-le-budget [] codes h = omega arith
  tries-le-budget ((digest, browser, now) ∷ gs) codes h =
      let (kept, spent) = consume-budget digest browser now codes h in
      omega (arith, tries-le-budget gs (after_guess digest browser now codes) kept)

  budget-append :
      (cs ds : List Code)
      → budget email limit (cs ++ ds) ≡ budget email limit cs + budget email limit ds
  budget-append [] ds = omega arith
  budget-append (x ∷ xs) ds = omega (arith, budget-append xs ds)

  budget-replaced :
      (codes : List Code) → budget email limit (delete_where (for_email email) codes) ≡ 0
  budget-replaced [] = refl
  budget-replaced (c ∷ cs) = ground (arith, budget-replaced cs)

  replaced-HasGuesses :
      (codes : List Code) → HasGuesses email limit (delete_where (for_email email) codes)
  replaced-HasGuesses [] = tt
  replaced-HasGuesses (c ∷ cs) = elim (Bool-cases (for_email email c)) [
    | inl mine ↦ rw mine (replaced-HasGuesses cs)
    | inr other ↦ rw other ((λ mine. absurd (cc (mine, other))), replaced-HasGuesses cs)
  ]

-- A code that was just asked for, where the number of guesses that is allowed is not 0: of the guesses
-- made one after another at its address, at most so many meet a live code, right or wrong, while no
-- other code is asked for there.
pub create-tries :
    (digest email browser : String) (expires_at : ℕ) (address next : Option String) (now limit : ℕ)
    (codes codes' : List Code) (gs : List (String × String × ℕ))
    → 0 < limit
    → create_signin_code digest email browser expires_at address next now codes ≡ some codes'
    → tries email limit gs codes' ≤ limit
unfolding create_signin_code
create-tries digest email browser expires_at address next now limit codes codes' gs pos e =
    let kept = delete_where (for_email email) codes in
    let code = new_code digest email browser expires_at address next now in
    let rows : codes' ≡ kept ++ code ∷ [] = ground arith in
    let usable : HasGuesses email limit (kept ++ code ∷ []) =
      All-append _ kept (code ∷ []) (replaced-HasGuesses email limit codes) ((λ _. pos), tt) in
    let fresh : budget email limit (code ∷ []) ≡ limit = ground (arith, eq_iff email email) in
    rw rows (
      omega (
        arith,
        tries-le-budget email limit gs (kept ++ code ∷ []) usable,
        budget-append email limit kept (code ∷ []),
        budget-replaced email limit codes,
        fresh,
      ))

module _ (state browser : String) (now : ℕ) (states : List OauthState) where
  state-gone :
      (xs : List OauthState) → first (is_state state) (delete_where (is_state state) xs) ≡ none
  state-gone [] = refl
  state-gone (s ∷ xs) = ground (arith, state-gone xs)

  -- A state is spent by being presented, right or wrong: whoever presents it next, from whatever
  -- browser and whenever, gets nothing.
  pub consume_oauth_state-spends :
      (again : String) (later : ℕ)
      → (consume_oauth_state state again later (consume_oauth_state state browser now states).1).0
        ≡ none
  unfolding consume_oauth_state
  consume_oauth_state-spends again later = rw (state-gone states, consume_oauth_state)

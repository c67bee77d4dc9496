-- ===== src/Store/Enrollments/Once.antt =====
-- A join token serves one rig.
use esp32_rig.Base.{
  ℕ, ◌+◌, ◌≤◌, ◌≡◌, refl, String, true, false, Option, none, List, [], ◌∷◌, arith, eq_iff, first,
  All, ◌==◌,
}
use esp32_rig.Store.Table.{update_where, count_where, update_where-none}
use esp32_rig.Store.Enrollments.{
  Enrollment, is_claimable, use_row, claim_enrollment, has_id, has_token, renew_row,
  renew_enrollment, enrollment_by_token,
}

-- A row that the claim takes is no longer there to claim, and any that is has the id.
claimed-le :
    (id : String) (now later : ℕ) (address hostname : Option String) (xs : List Enrollment)
    → count_where
          (is_claimable id later)
          (update_where (is_claimable id now) (use_row now address hostname) xs)
        + count_where (is_claimable id now) xs
      ≤ count_where (has_id id) xs
claimed-le id now later address hostname [] = omega arith
claimed-le id now later address hostname (x ∷ xs) =
    ground (arith, claimed-le id now later address hostname xs)

-- Of two callers with the token of one enrolment, one gets it: after a claim that succeeded any
-- other claim of the enrolment fails and changes nothing, at whatever time and from wherever.
pub claim_enrollment-once :
    (id : String) (now later : ℕ) (address hostname address' hostname' : Option String)
    (rows : List Enrollment)
    → count_where (has_id id) rows ≤ 1
    → (claim_enrollment id now address hostname rows).0 ≡ true
    → claim_enrollment id later address' hostname' (claim_enrollment id now address hostname rows).1
      ≡ (false, (claim_enrollment id now address hostname rows).1)
unfolding claim_enrollment
claim_enrollment-once id now later address hostname address' hostname' rows one won =
    let rows' = update_where (is_claimable id now) (use_row now address hostname) rows in
    let gone : count_where (is_claimable id later) rows' ≡ 0 =
      ground (arith, claimed-le id now later address hostname rows) in
    ground (
      arith,
      gone,
      update_where-none (is_claimable id later) (use_row later address' hostname') rows' gone,
    )

token-gone :
    (id old token : String) (expires_at : ℕ) (xs : List Enrollment)
    → (old == token) ≡ false
    → All (λ e. has_token old e ≡ true → has_id id e ≡ true) xs
    → first (has_token old) (update_where (has_id id) (renew_row token expires_at) xs) ≡ none
token-gone id old token expires_at [] ne h = refl
token-gone id old token expires_at (x ∷ xs) ne h =
    ground
      (arith, h.0, token-gone id old token expires_at xs ne h.1, eq_iff old token, eq_iff token old)

-- A new token for a rig that has not joined: the old one, which was no other's, finds nothing.
pub renew_enrollment-forgets :
    (id old token : String) (expires_at : ℕ) (rows : List Enrollment)
    → (old == token) ≡ false
    → All (λ e. has_token old e ≡ true → has_id id e ≡ true) rows
    → enrollment_by_token old (renew_enrollment id token expires_at rows) ≡ none
unfolding enrollment_by_token renew_enrollment
renew_enrollment-forgets id old token expires_at rows ne h =
    token-gone id old token expires_at rows ne h

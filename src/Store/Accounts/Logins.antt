-- ===== src/Store/Accounts/Logins.antt =====
-- Who owns a GitHub login, after any claims.
use esp32_rig.Base.{
  ℕ, ◌≡◌, refl, ap, ◌∙◌, String, Bool, true, false, Option, none, some, List, [], ◌∷◌, ◌++◌, arith,
  any, first, if◌then◌else◌, ◌==◌, eq_iff, inl, inr, Bool-cases,
}
use esp32_rig.Store.Accounts.Sessions.{
  Login, is_login, claim_github_login, github_login_owner, owner_of,
}

-- Claims of one farm's logins, in their order.
abbrev pub Claim : Type 0
Claim = String × ℕ × ℕ

pub claim_all : List Claim → List Login → List Login
unfolding claim_github_login
claim_all [] logins = logins
claim_all ((name, id, now) ∷ claims) logins =
    claim_all claims (claim_github_login name id now logins)

abbrev pub first_claim : String → List Claim → Option ℕ
first_claim name [] = none
first_claim name ((other, id, now) ∷ claims) =
    if other == name then some id else first_claim name claims

abbrev pub or_first : Option ℕ → Option ℕ → Option ℕ
or_first (some id) claimed = some id
or_first none claimed = claimed

owner-append :
    (name : String) (l : Login) (logins : List Login)
    → owner_of (first (is_login name) (logins ++ l ∷ []))
      ≡ or_first
          (owner_of (first (is_login name) logins))
          (if is_login name l then some l.github_id else none)
owner-append name l [] = ground arith
owner-append name l (m ∷ ms) = ground (arith, owner-append name l ms)

owner-held :
    (name other : String) (id : ℕ) (logins : List Login)
    → any (is_login other) logins ≡ true
    → owner_of (first (is_login name) logins)
      ≡ or_first (owner_of (first (is_login name) logins)) (if other == name then some id else none)
owner-held name other id [] e = absurd (cc)
owner-held name other id (l ∷ ls) e = ground (
  arith,
  owner-held name other id ls,
  eq_iff l.login other,
  eq_iff other name,
  eq_iff l.login name,
)

owner-claim :
    (name other : String) (id now : ℕ) (logins : List Login)
    → owner_of (first (is_login name) (claim_github_login other id now logins))
      ≡ or_first (owner_of (first (is_login name) logins)) (if other == name then some id else none)
unfolding claim_github_login
owner-claim name other id now logins = elim (Bool-cases (any (is_login other) logins)) [
  | inl h ↦ rw h (owner-held name other id logins h)
  | inr h ↦ rw h (owner-append name _ logins)
]

or_first-none : (o : Option ℕ) → o ≡ or_first o none
or_first-none none = refl
or_first-none (some id) = refl

or_first-or_first :
    (o : Option ℕ) (b : Bool) (id : ℕ) (claimed : Option ℕ)
    → or_first (or_first o (if b then some id else none)) claimed
      ≡ or_first o (if b then some id else claimed)
or_first-or_first (some j) b id claimed = refl
or_first-or_first none true id claimed = refl
or_first-or_first none false id claimed = refl

-- After any claims, a login is owned by who owned it before them, and if nobody did by the first
-- of the claims that names it: no later claim changes the owner.
pub claim_all-owner :
    (name : String) (claims : List Claim) (logins : List Login)
    → github_login_owner name (claim_all claims logins)
      ≡ or_first (github_login_owner name logins) (first_claim name claims)
unfolding claim_all github_login_owner
claim_all-owner name [] logins = or_first-none (github_login_owner name logins)
claim_all-owner name ((other, id, now) ∷ claims) logins =
    claim_all-owner name claims (claim_github_login other id now logins)
    ∙ ap (λ o. or_first o (first_claim name claims)) (owner-claim name other id now logins)
    ∙ or_first-or_first (github_login_owner name logins) (other == name) id
        (first_claim name claims)

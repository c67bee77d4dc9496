-- ===== src/Store/Accounts/Unique.antt =====
-- Which rows of the accounts can stand together.
use esp32_rig.Base.{
  ℕ, ◌≡◌, refl, ap, subst, String, Bool, true, false, ◌&&◌, Option, none, some, [], ◌∷◌, arith, any,
  first, eq_iff, inl, inr, Bool-cases,
}
use esp32_rig.Store.Table.{update_where, delete_where}
use esp32_rig.Store.Accounts.{
  Account, Accounts, has_id, same_text, same_number, clashes, update_row,
}

-- No two rows clash.
abbrev pub IsUnique : Accounts → Type 0
IsUnique [] = Unit
IsUnique (a ∷ rest) = (any (clashes a) rest ≡ false) × IsUnique rest

pub any-weaken :
    (p q : Account → Bool) (rows : Accounts)
    → ((a : Account) → q a ≡ true → p a ≡ true)
    → any p rows ≡ false
    → any q rows ≡ false
any-weaken p q [] h e = refl
any-weaken p q (a ∷ rest) h e = ground (arith, h a, any-weaken p q rest h)

pub any-delete :
    (p q : Account → Bool) (rows : Accounts)
    → any q rows ≡ false
    → any q (delete_where p rows) ≡ false
any-delete p q [] e = refl
any-delete p q (a ∷ rest) e = ground (arith, any-delete p q rest)

same_text_sym : (a b : Option String) → same_text a b ≡ same_text b a
same_text_sym (some s) (some t) = ground (arith, eq_iff s t, eq_iff t s)
same_text_sym none none = refl
same_text_sym (some s) none = refl
same_text_sym none (some t) = refl

same_number_sym : (a b : Option ℕ) → same_number a b ≡ same_number b a
same_number_sym (some m) (some n) = ground arith
same_number_sym none none = refl
same_number_sym (some m) none = refl
same_number_sym none (some n) = refl

clashes_sym : (a b : Account) → clashes a b ≡ clashes b a
clashes_sym a b = ground (
  arith,
  eq_iff a.id b.id,
  eq_iff b.id a.id,
  eq_iff a.handle b.handle,
  eq_iff b.handle a.handle,
  same_text_sym a.email b.email,
  same_number_sym a.github_id b.github_id,
)

pub delete-IsUnique :
    (p : Account → Bool) (rows : Accounts) → IsUnique rows → IsUnique (delete_where p rows)
delete-IsUnique p [] u = tt
delete-IsUnique p (a ∷ rest) u = elim (Bool-cases (p a)) [
  | inl e ↦ rw e (delete-IsUnique p rest u.1)
  | inr e ↦ rw e (any-delete p (clashes a) rest u.0, delete-IsUnique p rest u.1)
]

-- Below a row, none has its id.
pub no_other :
    (k : String) (b : Account) (rows : Accounts)
    → has_id k b ≡ true
    → any (clashes b) rows ≡ false
    → any (has_id k) rows ≡ false
no_other k b rows h =
    any-weaken (clashes b) (has_id k) rows
      (λ c same. ground (arith, eq_iff b.id k, eq_iff c.id k, eq_iff b.id c.id))

any-none :
    (p q : Account → Bool) (rows : Accounts)
    → any p rows ≡ false
    → any (λ b. p b && q b) rows ≡ false
any-none p q [] e = refl
any-none p q (b ∷ bs) e = ground (arith, any-none p q bs)

pub delete-none :
    (p : Account → Bool) (rows : Accounts) → any p rows ≡ false → delete_where p rows ≡ rows
delete-none p [] e = refl
delete-none p (b ∷ bs) e = ground (arith, delete-none p bs)

pub update-none :
    (p : Account → Bool) (f : Account → Account) (rows : Accounts)
    → any p rows ≡ false
    → update_where p f rows ≡ rows
update-none p f [] e = refl
update-none p f (b ∷ bs) e = ground (arith, update-none p f bs)

pub first-head :
    (p : Account → Bool) (b : Account) (bs : Accounts) (a : Account)
    → p b ≡ true
    → first p (b ∷ bs) ≡ some a
    → b ≡ a
first-head p b bs a h e = ground arith

-- What holds of no row does not hold of one that a search finds.
pub first-any :
    (p q : Account → Bool) (rows : Accounts) (a : Account)
    → any q rows ≡ false
    → first p rows ≡ some a
    → q a ≡ false
first-any p q [] a n e = absurd (cc)
first-any p q (b ∷ bs) a n e = elim (Bool-cases (p b)) [
  | inl h ↦ subst (λ c. q c ≡ false) (first-head p b bs a h e) (ground arith)
  | inr h ↦ first-any p q bs a (ground arith) (ground arith)
]

-- In such a table a test of the rows with an id is the test of the first one.
pub any-row :
    (k : String) (g : Account → Bool) (rows : Accounts) (a : Account)
    → IsUnique rows
    → first (has_id k) rows ≡ some a
    → any (λ b. has_id k b && g b) rows ≡ g a
any-row k g [] a u e = absurd (cc)
any-row k g (b ∷ bs) a u e = elim (Bool-cases (has_id k b)) [
  | inl h ↦ ground (
    arith,
    any-none (has_id k) g bs (no_other k b bs h u.0),
    ap g (first-head (has_id k) b bs a h e),
  )
  | inr h ↦ ground (arith, any-row k g bs a u.1)
]

-- The others do not clash with it.
pub picked-apart :
    (k : String) (rows : Accounts) (a : Account)
    → IsUnique rows
    → first (has_id k) rows ≡ some a
    → any (clashes a) (delete_where (has_id k) rows) ≡ false
picked-apart k [] a u e = absurd (cc)
picked-apart k (b ∷ bs) a u e = elim (Bool-cases (has_id k b)) [
  | inl h ↦ rw h (
      subst (λ c. any (clashes c) (delete_where (has_id k) bs) ≡ false)
        (first-head (has_id k) b bs a h e) (any-delete (has_id k) (clashes b) bs u.0))
  | inr h ↦
      ground
        (arith, clashes_sym a b, first-any (has_id k) (clashes b) bs a u.0, picked-apart k bs a u.1)
]

-- An UPDATE that keeps the ids keeps the table so, or fails.
any-update :
    (k : String) (f : Account → Account) (b : Account) (rows : Accounts)
    → has_id k b ≡ false
    → any (clashes b) rows ≡ false
    → any (λ a. has_id k a && clashes (f a) b) rows ≡ false
    → any (clashes b) (update_where (has_id k) f rows) ≡ false
any-update k f b [] h n m = refl
any-update k f b (a ∷ bs) h n m = ground (arith, any-update k f b bs h, clashes_sym b (f a))

module _ (k : String) (f : Account → Account) where
  clashing : Accounts → Account → Bool
  clashing others a = has_id k a && any (clashes (f a)) others

  update-IsUnique :
      (rows : Accounts)
      → IsUnique rows
      → any (clashing (delete_where (has_id k) rows)) rows ≡ false
      → IsUnique (update_where (has_id k) f rows)
  unfolding clashing
  update-IsUnique [] u e = tt
  update-IsUnique (b ∷ bs) u e = elim (Bool-cases (has_id k b)) [
    | inl h ↦
        let gone = no_other k b bs h u.0 in
        rw (h, update-none (has_id k) f bs gone)
          (ground (arith, delete-none (has_id k) bs gone), u.1)
    | inr h ↦
        let others = delete_where (has_id k) bs in
        let below : any (λ a. has_id k a && any (clashes (f a)) (b ∷ others)) bs ≡ false =
          ground arith in
        rw h (
          any-update k f b bs h u.0 (
              any-weaken (clashing (b ∷ others)) (λ a. has_id k a && clashes (f a) b) bs
                (λ a. ground arith) below),
          update-IsUnique bs u.1
              (any-weaken (clashing (b ∷ others)) (clashing others) bs (λ a. ground arith) below),
        )
  ]

  pub update_row-IsUnique :
      (rows rows' : Accounts) → IsUnique rows → update_row k f rows ≡ some rows' → IsUnique rows'
  unfolding clashing
  update_row-IsUnique rows rows' u e =
      elim (Bool-cases (any (clashing (delete_where (has_id k) rows)) rows)) [
        | inl c ↦ absurd (ground arith)
        | inr c ↦ subst IsUnique (ground arith) (update-IsUnique rows u c)
      ]

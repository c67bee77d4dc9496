-- ===== src/Store/Accounts/Found.antt =====
-- Which account an id finds after a statement.
use esp32_rig.Base.{
  ◌≡◌, refl, ap, subst, String, false, none, some, [], ◌∷◌, arith, first, if◌then◌else◌, ◌==◌,
  eq_iff, inl, inr, Bool-cases,
}
use esp32_rig.Store.Table.{update_where, delete_where}
use esp32_rig.Store.Accounts.{Account, Accounts, has_id}
use esp32_rig.Store.Accounts.Unique.{first-head}

pub first-delete :
    (k d : String) (rows : Accounts)
    → first (has_id k) (delete_where (has_id d) rows)
      ≡ (if k == d then none else first (has_id k) rows)
first-delete k d [] = ground arith
first-delete k d (b ∷ bs) =
    ground (arith, first-delete k d bs, eq_iff b.id k, eq_iff b.id d, eq_iff k d)

module _ (j : String) (f : Account → Account)
    (same : (k : String) (b : Account) → has_id k (f b) ≡ has_id k b) where
  pub first-updated :
      (a : Account) (rows : Accounts)
      → first (has_id j) rows ≡ some a
      → first (has_id j) (update_where (has_id j) f rows) ≡ some (f a)
  first-updated a [] e = absurd (cc)
  first-updated a (b ∷ bs) e = elim (Bool-cases (has_id j b)) [
    | inl h ↦ ground (arith, same j b, ap f (first-head (has_id j) b bs a h e))
    | inr h ↦ ground (arith, first-updated a bs)
  ]

  pub first-other :
      (k : String) (rows : Accounts)
      → k == j ≡ false
      → first (has_id k) (update_where (has_id j) f rows) ≡ first (has_id k) rows
  first-other k [] e = refl
  first-other k (b ∷ bs) e =
      ground (arith, same k b, first-other k bs e, eq_iff b.id k, eq_iff b.id j, eq_iff k j)

pub first_passes :
    (k : String) (rows : Accounts) (a : Account) → first (has_id k) rows ≡ some a → a.id ≡ k
first_passes k [] a e = absurd (cc)
first_passes k (b ∷ bs) a e = elim (Bool-cases (has_id k b)) [
  | inl h ↦ subst (λ c. c.id ≡ k) (first-head (has_id k) b bs a h e) ((eq_iff b.id k).0 h)
  | inr h ↦ first_passes k bs a (ground arith)
]

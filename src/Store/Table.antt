-- ===== src/Store/Table.antt =====
-- The SQL that the store uses on one table.
use esp32_rig.Base.{
  ℕ, ◌≡◌, refl, Bool, true, false, not, List, [], ◌∷◌, arith, any, length, filter, if◌then◌else◌,
  All, Bool-cases, inl, inr,
}

module _ {ℓ} {A : Type ℓ} where
  -- UPDATE ... WHERE
  abbrev pub update_where : (A → Bool) → (A → A) → List A → List A
  update_where p f [] = []
  update_where p f (x ∷ xs) = (if p x then f x else x) ∷ update_where p f xs

  -- The rows that a statement's WHERE picks: its `rowcount`.
  abbrev pub count_where : (A → Bool) → List A → ℕ
  count_where p xs = length (filter p xs)

  -- DELETE FROM ... WHERE
  abbrev pub delete_where : (A → Bool) → List A → List A
  delete_where p = filter (λ x. not (p x))

  -- ORDER BY: `before a b` says that `a` must stand before `b`; rows that tie keep the table's order.
  abbrev pub insert_by : (A → A → Bool) → A → List A → List A
  insert_by before a [] = a ∷ []
  insert_by before a (x ∷ xs) =
      let rest = insert_by before a xs in if before x a then x ∷ rest else a ∷ x ∷ xs

  abbrev pub order_by : (A → A → Bool) → List A → List A
  order_by before [] = []
  order_by before (x ∷ xs) = insert_by before x (order_by before xs)

  -- Once no row is left that the WHERE picks, the statement does nothing.
  pub update_where-none :
      (p : A → Bool) (f : A → A) (xs : List A) → count_where p xs ≡ 0 → update_where p f xs ≡ xs
  update_where-none p f [] h = refl
  update_where-none p f (x ∷ xs) h = ground (arith, update_where-none p f xs)

  pub count_where-update_where :
      (p : A → Bool) (f : A → A) (xs : List A)
      → ((x : A) → p x ≡ true → p (f x) ≡ false)
      → count_where p (update_where p f xs) ≡ 0
  count_where-update_where p f [] h = refl
  count_where-update_where p f (x ∷ xs) h = ground (arith, count_where-update_where p f xs h, h x)

  pub All-update_where {κ κ'} :
      (P : A → Type κ) (Q : A → Type κ') (p : A → Bool) (f : A → A) (xs : List A)
      → ((x : A) → p x ≡ true → P x → Q (f x))
      → ((x : A) → p x ≡ false → P x → Q x)
      → All P xs
      → All Q (update_where p f xs)
  All-update_where P Q p f [] hit miss h = tt
  All-update_where P Q p f (x ∷ xs) hit miss h = elim (Bool-cases (p x)) [
    | inl e ↦ rw e (hit x e h.0, All-update_where P Q p f xs hit miss h.1)
    | inr e ↦ rw e (miss x e h.0, All-update_where P Q p f xs hit miss h.1)
  ]

  All-insert_by {κ} :
      (P : A → Type κ) (before : A → A → Bool) (a : A) (xs : List A)
      → P a
      → All P xs
      → All P (insert_by before a xs)
  All-insert_by P before a [] pa h = (pa, tt)
  All-insert_by P before a (x ∷ xs) pa h = elim (Bool-cases (before x a)) [
    | inl e ↦ rw e (h.0, All-insert_by P before a xs pa h.1)
    | inr e ↦ rw e (pa, h)
  ]

  pub All-order_by {κ} :
      (P : A → Type κ) (before : A → A → Bool) (xs : List A) → All P xs → All P (order_by before xs)
  All-order_by P before [] h = tt
  All-order_by P before (x ∷ xs) h =
      All-insert_by P before x (order_by before xs) h.0 (All-order_by P before xs h.1)

  -- What an UPDATE leaves alone in every row that it changes.
  pub any-update_where :
      (q p : A → Bool) (f : A → A) (xs : List A)
      → ((x : A) → q (f x) ≡ q x)
      → any q (update_where p f xs) ≡ any q xs
  any-update_where q p f [] h = refl
  any-update_where q p f (x ∷ xs) h = ground (arith, any-update_where q p f xs h, h x)

  pub count_where-update_none :
      (q p : A → Bool) (f : A → A) (xs : List A)
      → ((x : A) → p x ≡ true → q x ≡ false → q (f x) ≡ false)
      → count_where q xs ≡ 0
      → count_where q (update_where p f xs) ≡ 0
  count_where-update_none q p f [] h e = refl
  count_where-update_none q p f (x ∷ xs) h e =
      ground (arith, count_where-update_none q p f xs h, h x)

  pub count_where-any :
      (p q : A → Bool) (xs : List A)
      → ((x : A) → p x ≡ true → q x ≡ true)
      → count_where p xs ≡ 1
      → any q xs ≡ true
  count_where-any p q [] h e = absurd (cc)
  count_where-any p q (x ∷ xs) h e = ground (arith, count_where-any p q xs h, h x)

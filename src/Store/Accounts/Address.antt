-- ===== src/Store/Accounts/Address.antt =====
-- The row that a merge leaves, and the address that it takes.
use esp32_rig.Base.{
  ◌≡◌, refl, sym, subst, ◌∙◌, String, Bool, false, ◌&&◌, ◌||◌, Option, none, some, [], ◌∷◌, arith,
  any, first, if◌then◌else◌, ◌==◌, eq_iff, inl, inr, Bool-cases,
}
use esp32_rig.Store.Table.{update_where, delete_where}
use esp32_rig.Store.Accounts.{Account, Accounts, has_id, update_row, clashes}
use esp32_rig.Store.Accounts.Unique.{
  IsUnique, delete-IsUnique, update_row-IsUnique, any-weaken, any-row, picked-apart, any-delete,
}
use esp32_rig.Store.Accounts.Found.{first-delete, first-updated, first-other}
use esp32_rig.Store.Accounts.Merge.{take_email, with_email}

-- The survivor takes the other's address when it has none of its own.
abbrev pub survivor : Option String → Option String → Account → Account → Account
survivor none (some e) keep drop = take_email drop keep
survivor _ _ keep drop = keep

any-either :
    (p q : Account → Bool) (rows : Accounts)
    → any p rows ≡ false
    → any q rows ≡ false
    → any (λ a. p a || q a) rows ≡ false
any-either p q [] hp hq = refl
any-either p q (a ∷ rest) hp hq = ground (arith, any-either p q rest)

module _ (keep drop : Account) (rows : Accounts) (u : IsUnique rows) where
  unfoldable pub left : Accounts
  left = delete_where (has_id drop.id) rows

  still_first :
      first (has_id keep.id) rows ≡ some keep
      → keep.id == drop.id ≡ false
      → first (has_id keep.id) left ≡ some keep
  unfolding left
  still_first k apart = ground (arith, first-delete keep.id drop.id rows)

  -- What the survivor becomes clashes with no row but its own.
  take_email-apart :
      first (has_id keep.id) rows ≡ some keep
      → first (has_id drop.id) rows ≡ some drop
      → keep.id == drop.id ≡ false
      → any (clashes (take_email drop keep)) (delete_where (has_id keep.id) left) ≡ false
  unfolding left
  take_email-apart k d apart =
      let others = delete_where (has_id keep.id) left in
      let of_keep =
        picked-apart keep.id left keep (delete-IsUnique (has_id drop.id) rows u)
          (still_first k apart) in
      let of_drop =
        any-delete (has_id keep.id) (clashes drop) left (picked-apart drop.id rows drop u d) in
      any-weaken (λ a. clashes keep a || clashes drop a) (clashes (take_email drop keep)) others
        (λ a. ground arith) (any-either (clashes keep) (clashes drop) others of_keep of_drop)

  -- A row found under its id.
  found_or :
      (k j : String) (a : Account) (found : Accounts)
      → first (has_id j) found ≡ some a
      → first (has_id k) found ≡ (if k == j then some a else first (has_id k) found)
  found_or k j a found e = elim (Bool-cases (k == j)) [
    | inl h ↦ rw h (subst (λ i. first (has_id i) found ≡ some a) (sym ((eq_iff k j).0 h)) e)
    | inr h ↦ rw h refl
  ]

  module _ (k : first (has_id keep.id) rows ≡ some keep)
      (d : first (has_id drop.id) rows ≡ some drop) (apart : keep.id == drop.id ≡ false) where
    kept_as_is :
        (rest : Accounts) × (some left ≡ some rest)
        × IsUnique rest
        × ((j : String)
            → first (has_id j) rest ≡ (if j == keep.id then some keep else first (has_id j) left))
    unfolding left
    kept_as_is = (
      left,
      refl,
      delete-IsUnique (has_id drop.id) rows u,
      λ j. found_or j keep.id keep left (still_first k apart),
    )

    pub with_email-eq :
        (e f : Option String)
        → (rest : Accounts) × (with_email e f keep drop left ≡ some rest)
          × IsUnique rest
          × ((j : String)
              → first (has_id j) rest
                ≡ (if j == keep.id then some (survivor e f keep drop) else first (has_id j) left))
    unfolding left
    with_email-eq none none = kept_as_is
    with_email-eq (some e) none = kept_as_is
    with_email-eq (some e) (some f) = kept_as_is
    with_email-eq none (some f) = (
      changed,
      done,
      update_row-IsUnique keep.id (take_email drop) left changed rest_u done,
      found,
    )
      where
        changed : Accounts
        changed = update_where (has_id keep.id) (take_email drop) left

        rest_u : IsUnique left
        rest_u = delete-IsUnique (has_id drop.id) rows u

        free :
            any
              (λ a.
                has_id keep.id a
                && any (clashes (take_email drop a)) (delete_where (has_id keep.id) left))
              left
            ≡ false
        free =
            any-row keep.id
              (λ a. any (clashes (take_email drop a)) (delete_where (has_id keep.id) left)) left
              keep rest_u (still_first k apart)
            ∙ take_email-apart k d apart

        done : update_row keep.id (take_email drop) left ≡ some changed
        done = rw free refl

        found :
            (j : String)
            → first (has_id j) changed
              ≡ (if j == keep.id then some (take_email drop keep) else first (has_id j) left)
        found j = elim (Bool-cases (j == keep.id)) [
          | inl h ↦ rw h (
              subst (λ i. first (has_id i) changed ≡ some (take_email drop keep))
                (sym ((eq_iff j keep.id).0 h))
                (first-updated keep.id (take_email drop) (λ i b. refl) keep left
                  (still_first k apart)))
          | inr h ↦ rw h (first-other keep.id (take_email drop) (λ i b. refl) j left h)
        ]

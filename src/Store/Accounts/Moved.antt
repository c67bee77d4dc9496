-- ===== src/Store/Accounts/Moved.antt =====
-- What a merge of two accounts leaves to either: sessions, rigs and runs.
use esp32_rig.Base.{
  ℕ, ◌+◌, ◌≡◌, refl, ap, String, Bool, true, false, none, some, List, [], ◌∷◌, arith, first,
  if◌then◌else◌, ◌==◌, eq_iff, same_name, same_name→eq, lookup,
}
use esp32_rig.Store.Table.{update_where, count_where, delete_where}
use esp32_rig.Store.Commands.Sealed.{lookup-put}
use esp32_rig.Store.Accounts.{Account, Accounts, account, by_id, has_id, clashes}
use esp32_rig.Store.Accounts.Unique.{IsUnique, picked-apart, first-any}
use esp32_rig.Store.Accounts.Found.{first-delete}
use esp32_rig.Store.Accounts.Address.{survivor, left, with_email-eq}
use esp32_rig.Store.Accounts.Merge.{
  Portal, is_session_for, is_owned_by, is_submitted_by, with_submitter, moved, merge_accounts,
  merge_rows,
}

-- The rows that go by the key `k`, out of those that went by it before.
abbrev pub inherited : String → String → String → ℕ → ℕ → ℕ → ℕ
inherited k keep drop own kept dropped =
    if k == drop then 0 else if k == keep then kept + dropped else own

module _ {A : Type 0} (has : String → A → Bool) (f : A → A) (keep drop : String) where
  count_where-moved :
      ((k : String) (x : A) → has drop x ≡ true → has k (f x) ≡ keep == k)
      → ((k : String) (x : A) → has drop x ≡ true → has k x ≡ drop == k)
      → keep == drop ≡ false
      → (k : String) (xs : List A)
      → count_where (has k) (update_where (has drop) f xs)
        ≡ inherited k keep drop
            (count_where (has k) xs)
            (count_where (has keep) xs)
            (count_where (has drop) xs)
  count_where-moved to own apart k [] = ground arith
  count_where-moved to own apart k (x ∷ xs) = ground (
    arith,
    count_where-moved to own apart k xs,
    to k x,
    own k x,
    own keep x,
    eq_iff k drop,
    eq_iff k keep,
    eq_iff drop k,
    eq_iff keep k,
    eq_iff drop keep,
    eq_iff keep drop,
  )

apart_handles :
    (keep drop : Account) (rows : Accounts)
    → IsUnique rows
    → first (has_id keep.id) rows ≡ some keep
    → first (has_id drop.id) rows ≡ some drop
    → keep.id == drop.id ≡ false
    → keep.handle == drop.handle ≡ false
apart_handles keep drop rows u k d apart =
    let of_drop = picked-apart drop.id rows drop u d in
    let found : first (has_id keep.id) (delete_where (has_id drop.id) rows) ≡ some keep =
      ground (arith, first-delete keep.id drop.id rows) in
    ground (
      arith,
      first-any (has_id keep.id) (clashes drop) (delete_where (has_id drop.id) rows) keep of_drop
          found,
      eq_iff keep.handle drop.handle,
      eq_iff drop.handle keep.handle,
    )

-- What the id and the handle hold after the merge.
unfoldable pub IsMerged : Account → Account → Portal → String → String → Portal → Type 0
IsMerged keep drop p id handle q =
    IsUnique q.accounts
    × (account (by_id id) q.accounts ≡ (
        if id == drop.id
        then none
        else if id == keep.id
        then some (survivor keep.email drop.email keep drop)
        else account (by_id id) p.accounts))
    × (count_where (is_session_for id) q.sessions
        ≡ inherited id keep.id drop.id (count_where (is_session_for id) p.sessions)
            (count_where (is_session_for keep.id) p.sessions)
            (count_where (is_session_for drop.id) p.sessions))
    × (count_where (is_owned_by handle) q.rigs
        ≡ inherited handle keep.handle drop.handle (count_where (is_owned_by handle) p.rigs)
            (count_where (is_owned_by keep.handle) p.rigs)
            (count_where (is_owned_by drop.handle) p.rigs))
    × (count_where (is_submitted_by handle) q.jobs
        ≡ inherited handle keep.handle drop.handle (count_where (is_submitted_by handle) p.jobs)
            (count_where (is_submitted_by keep.handle) p.jobs)
            (count_where (is_submitted_by drop.handle) p.jobs))

pub merge_rows-IsMerged :
    (keep drop : Account) (p : Portal) (id handle : String)
    → IsUnique p.accounts
    → first (has_id keep.id) p.accounts ≡ some keep
    → first (has_id drop.id) p.accounts ≡ some drop
    → keep.id == drop.id ≡ false
    → (q : Portal) × (merge_rows keep drop p ≡ some q) × IsMerged keep drop p id handle q
unfolding account IsMerged left
merge_rows-IsMerged keep drop p id handle u k d apart =
    let held = with_email-eq keep drop p.accounts u k d apart keep.email drop.email in
    let handles = apart_handles keep drop p.accounts u k d apart in
    (
      moved keep drop p held.0,
      rw held.1 refl,
      (
        held.2,
        ground (
          arith,
          held.3 id,
          first-delete id drop.id p.accounts,
          eq_iff id drop.id,
          eq_iff id keep.id,
        ),
        count_where-moved is_session_for _ keep.id drop.id (λ j s h. refl)
            (λ j s h. ap (λ i. i == j) ((eq_iff s.account_id drop.id).0 h)) apart id p.sessions,
        count_where-moved is_owned_by _ keep.handle drop.handle (λ j r h. refl)
            (λ j r h. ap (λ o. same_name o (some j)) (same_name→eq r.owner (some drop.handle) h))
            handles handle p.rigs,
        count_where-moved is_submitted_by (with_submitter keep.handle) keep.handle drop.handle
            (λ j run h.
              ap (λ o. same_name o (some j)) (lookup-put "submitted_by" keep.handle run.request))
            (λ j run h.
              ap (λ o. same_name o (some j))
                (same_name→eq (lookup "submitted_by" run.request) (some drop.handle) h))
            handles handle p.jobs,
      ),
    )

-- Where no two accounts clash, a merge of two different accounts of the table raises nothing. After
-- it no two clash, the dropped id is nobody's, the survivor's row has the dropped one's address if
-- it had none and is as it was otherwise, and every other id finds what it did. For every id the
-- sessions, and for every handle the rigs and the runs of any status, are counted: the dropped one
-- has none, the survivor those of both, any other as many as before.
pub merge_accounts-IsMerged :
    (keep drop : Account) (p : Portal) (id handle : String)
    → IsUnique p.accounts
    → account (by_id keep.id) p.accounts ≡ some keep
    → account (by_id drop.id) p.accounts ≡ some drop
    → keep.id == drop.id ≡ false
    → (q : Portal) × (merge_accounts keep.id drop.id p ≡ some q) × IsMerged keep drop p id handle q
unfolding merge_accounts account
merge_accounts-IsMerged keep drop p id handle u k d apart =
    let merged = merge_rows-IsMerged keep drop p id handle u k d apart in
    (merged.0, rw (k, d, apart) merged.1, merged.2)

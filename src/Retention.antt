-- ===== src/Retention.antt =====
-- core/alteriom_hil/artifact_store.py: which bundles of firmware a prune deletes.
pub mod Kept
pub mod Newest
mod Tests
use esp32_rig.Base.{
  ℕ, zero, suc, ◌+◌, String, Bool, true, false, not, ◌&&◌, Option, none, some, List, [], ◌∷◌, ◌++◌,
  filter, map, ltb, leb, if◌then◌else◌, ◌==◌,
}
use esp32_rig.Store.Table.{order_by}

-- An entry; `used` is `when(last_used_at)`, the distant past for a stamp that does not parse.
pub record Bundle : Type 0 where
  pub id : String
  pub profile : String
  pub used : ℕ
  pub pinned : Bool
  pub held : Bool

abbrev pub is_candidate : Bundle → Bool
is_candidate b = not b.pinned && not b.held

-- `by_profile.setdefault(profile, []).append(entry)`: the groups, in the order of their first entry.
abbrev pub Groups : Type 0
Groups = List (String × List Bundle)

unfoldable pub add_to : Bundle → Groups → Groups
add_to b [] = (b.profile, b ∷ []) ∷ []
add_to b ((k, g) ∷ rest) =
    let tail = add_to b rest in if k == b.profile then (k, g ++ b ∷ []) ∷ rest else (k, g) ∷ tail

unfoldable pub group : List Bundle → Groups → Groups
group [] groups = groups
group (b ∷ bs) groups = group bs (add_to b groups)

-- Sorted by last use, newest first; entries that tie keep their order.
abbrev pub newer : Bundle → Bundle → Bool
newer a b = ltb b.used a.used

abbrev pub older : Bundle → Bundle → Bool
older a b = ltb a.used b.used

abbrev pub skip : ℕ → List Bundle → List Bundle
skip zero bs = bs
skip (suc n) [] = []
skip (suc n) (b ∷ bs) = skip n bs

abbrev pub beyond : Option ℕ → List Bundle → List Bundle
beyond keep bs = elim keep [ none ↦ bs | some n ↦ skip n bs ]

abbrev pub is_past : Option ℕ → Bundle → Bool
is_past cutoff b = elim cutoff [ none ↦ true | some c ↦ ltb b.used c ]

unfoldable pub choose_groups : Option ℕ → Option ℕ → Groups → List Bundle
choose_groups cutoff keep [] = []
choose_groups cutoff keep ((k, g) ∷ rest) =
    filter (is_past cutoff) (beyond keep (order_by newer g)) ++ choose_groups cutoff keep rest

-- The bundles that two rules choose, oldest first.
unfoldable pub prunable : List Bundle → Option ℕ → Option ℕ → List Bundle
unfolding group choose_groups
prunable entries cutoff keep =
    order_by older (choose_groups cutoff keep (group (filter is_candidate entries) []))

-- `none`: no rule was said. The cutoff is `now - timedelta(days=older_than_days)`.
unfoldable pub select_prunable : List Bundle → Option ℕ → Option ℕ → Option (List String)
unfolding prunable
select_prunable entries none none = none
select_prunable entries none (some n) = some (map (λ b. b.id) (prunable entries none (some n)))
select_prunable entries (some c) keep = some (map (λ b. b.id) (prunable entries (some c) keep))

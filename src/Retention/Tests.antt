-- ===== src/Retention/Tests.antt =====
-- Bundles of two profiles, one of them pinned.
use esp32_rig.Base.{ℕ, refl, String, Bool, true, false, none, some, List, [], ◌∷◌, All}
use esp32_rig.Retention.{Bundle, select_prunable, prunable, choose_groups, group, add_to}
use esp32_rig.Retention.Kept.{IsPrunable, select_prunable-IsPrunable}

abbrev bundle : String → String → ℕ → Bool → Bundle
bundle id profile used pinned = record {
  id = id;
  profile = profile;
  used = used;
  pinned = pinned;
  held = false;
}

abbrev bundles : List Bundle
bundles =
    bundle "new" "mesh" 9 false
    ∷ bundle "pinned" "mesh" 1 true
    ∷ bundle "old" "mesh" 2 false
    ∷ bundle "mid" "mesh" 5 false
    ∷ bundle "only" "canary" 1 false
    ∷ []

select_prunable-IsPrunable_example : All (IsPrunable bundles none) ("old" ∷ "mid" ∷ [])
unfolding select_prunable prunable choose_groups group add_to
select_prunable-IsPrunable_example =
    select_prunable-IsPrunable bundles none (some 1) ("old" ∷ "mid" ∷ []) refl

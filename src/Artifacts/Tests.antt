-- ===== src/Artifacts/Tests.antt =====
-- A bundle of one directory, unpacked.
use esp32_rig.Base.{◌≤◌, ◌≡◌, refl, arith, none, some, List, [], ◌∷◌, All}
use esp32_rig.Artifacts.{
  Name, Member, file, directory, outside_itself, too_large, extract_bundle, parts_of, check_members,
  place, place_all,
}
use esp32_rig.Artifacts.Inside.{IsInside}
use esp32_rig.Artifacts.Contained.{written, extract_bundle-IsContained}
use esp32_rig.Artifacts.Placed.{files_of, extract_bundle-files}

-- "b/", "b/./x" and "b\\d\\y".
abbrev members : List Member
members =
    record { name = 98 ∷ 47 ∷ []; kind = directory; size = 0; content = none }
    ∷ record {
      name = 98 ∷ 47 ∷ 46 ∷ 47 ∷ 120 ∷ [];
      kind = file;
      size = 2;
      content = some (7 ∷ 8 ∷ []);
    }
    ∷ record {
      name = 98 ∷ 92 ∷ 100 ∷ 92 ∷ 121 ∷ [];
      kind = file;
      size = 1;
      content = some (9 ∷ []);
    }
    ∷ []

-- "/srv/new"
abbrev target : List Name
target = (115 ∷ 114 ∷ 118 ∷ []) ∷ (110 ∷ 101 ∷ 119 ∷ []) ∷ []

extract_bundle-IsContained_example :
    All (IsInside target) (extract_bundle members target (some 3)).0
    × (written (extract_bundle members target (some 3)).0 ≤ 3)
extract_bundle-IsContained_example =
    extract_bundle-IsContained members target (some 3)
      (omega arith, (omega arith, (omega arith, tt)))

extract_bundle-files_example :
    files_of (extract_bundle members target none).0
    ≡ ((115 ∷ 114 ∷ 118 ∷ []) ∷ (110 ∷ 101 ∷ 119 ∷ []) ∷ (120 ∷ []) ∷ [], 7 ∷ 8 ∷ [])
      ∷ ((115 ∷ 114 ∷ 118 ∷ []) ∷ (110 ∷ 101 ∷ 119 ∷ []) ∷ (100 ∷ []) ∷ (121 ∷ []) ∷ [], 9 ∷ [])
      ∷ []
unfolding parts_of extract_bundle check_members place place_all
extract_bundle-files_example = extract_bundle-files members target none refl

-- "b/../x" is refused before anything is made, and so are three bytes where two are the limit.
abbrev climbing : Member
climbing = record {
  name = 98 ∷ 47 ∷ 46 ∷ 46 ∷ 47 ∷ 120 ∷ [];
  kind = file;
  size = 0;
  content = some [];
}

climbs : extract_bundle (climbing ∷ members) target none ≡ ([], some outside_itself)
unfolding parts_of extract_bundle check_members
climbs = refl

overflows : extract_bundle members target (some 2) ≡ ([], some too_large)
unfolding parts_of extract_bundle check_members
overflows = refl

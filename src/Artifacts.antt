-- ===== src/Artifacts.antt =====
-- core/alteriom_hil/artifacts.py: a bundle of firmware unpacked below a directory. A name is the list
-- of its characters' code points. `tarfile` reads the archive into the members that are given here.
-- What is done to the disk is the list of the steps; one that the operating system refuses ends it
-- there.
pub mod Inside
pub mod Contained
pub mod Placed
mod Tests
use esp32_rig.Base.{
  ℕ, ◌+◌, ◌*◌, Bool, true, false, not, ◌&&◌, ◌||◌, Option, none, some, List, [], ◌∷◌, ◌++◌, map,
  any, filter, length, eqb, ltb, if◌then◌else◌, Result, ok, err, ◌>>=◌, ◌>>◌, refuse,
}

abbrev pub Name : Type 0
Name = List ℕ

abbrev pub same_name : Name → Name → Bool
same_name [] [] = true
same_name (c ∷ cs) (d ∷ ds) = eqb c d && same_name cs ds
same_name _ _ = false

-- A character put before the first of the parts.
abbrev pub prepend : ℕ → List Name → List Name
prepend c [] = (c ∷ []) ∷ []
prepend c (part ∷ parts) = (c ∷ part) ∷ parts

-- `name.split("/")`
abbrev pub split : Name → List Name
split [] = [] ∷ []
split (c ∷ cs) = let rest = split cs in if eqb c 47 then [] ∷ rest else prepend c rest

-- `name.replace("\\\\", "/")`
abbrev pub slashed : Name → Name
slashed = map (λ c. if eqb c 92 then 47 else c)

-- `part not in ("", ".")`
abbrev pub is_part : Name → Bool
is_part part = not (same_name part [] || same_name part (46 ∷ []))

abbrev pub is_parent : Name → Bool
is_parent part = same_name part (46 ∷ 46 ∷ [])

unfoldable pub parts_of : Name → List Name
parts_of name = filter is_part (split (slashed name))

abbrev pub starts_with_slash : Name → Bool
starts_with_slash [] = false
starts_with_slash (c ∷ cs) = eqb c 47

pub data Kind : Type 0 where
  file directory other : Kind

abbrev pub is_file : Kind → Bool
is_file file = true
is_file _ = false

abbrev pub is_other : Kind → Bool
is_other other = true
is_other _ = false

-- The size is what `max(member.size, 0)` gives; the content is what `extractfile` reads, if anything.
pub record Member : Type 0 where
  pub name : Name
  pub kind : Kind
  pub size : ℕ
  pub content : Option (List ℕ)

pub data BundleError : Type 0 where
  empty_archive not_regular outside_itself too_large not_one_directory beside_it cannot_read :
      BundleError

pub data Step : Type 0 where
  make_directory : List Name → Step
  write_file : List Name → List ℕ → Step

abbrev pub is_nil : {A : Type 0} → List A → Bool
is_nil [] = true
is_nil (x ∷ xs) = false

-- `set.add`
abbrev pub add_top : Name → List Name → List Name
add_top top tops = if any (same_name top) tops then tops else top ∷ tops

abbrev pub add_first : List Name → List Name → List Name
add_first [] tops = tops
add_first (part ∷ parts) tops = add_top part tops

-- The first loop: the tops, or the first refusal.
unfoldable pub check_members : ℕ → List Member → List Name → ℕ → Result BundleError (List Name)
check_members limit [] tops total = ok tops
check_members limit (m ∷ rest) tops total = do
  refuse (is_other m.kind) not_regular
  refuse
      (starts_with_slash (slashed m.name)
        || (any is_parent (parts_of m.name) || is_nil (parts_of m.name)))
      outside_itself
  refuse (ltb limit (total + m.size)) too_large
  check_members limit rest (add_first (parts_of m.name) tops) (total + m.size)

abbrev pub tail : List Name → List Name
tail [] = []
tail (part ∷ parts) = parts

-- All but the last, as `Path.parent`.
abbrev pub parent : List Name → List Name
parent [] = []
parent (part ∷ []) = []
parent (part ∷ more ∷ parts) = part ∷ parent (more ∷ parts)

abbrev pub write_content : List Name → List Name → Option (List ℕ) → List Step × Option BundleError
write_content folder target none = (make_directory folder ∷ [], some cannot_read)
write_content folder target (some content) =
    (make_directory folder ∷ write_file target content ∷ [], none)

-- A turn of the second loop: its steps, and what it raises.
abbrev pub place_kind :
    List Name → List Name → Kind → Option (List ℕ) → List Step × Option BundleError
place_kind destination below file content =
    write_content (parent (destination ++ below)) (destination ++ below) content
place_kind destination below directory content = (make_directory (destination ++ below) ∷ [], none)
place_kind destination below other content =
    write_content (parent (destination ++ below)) (destination ++ below) content

abbrev pub beside : Kind → List Step × Option BundleError
beside file = ([], some beside_it)
beside _ = ([], none)

unfoldable pub place : List Name → Member → List Step × Option BundleError
place destination m =
    if eqb (length (parts_of m.name)) 1
    then beside m.kind
    else place_kind destination (tail (parts_of m.name)) m.kind m.content

abbrev pub after_step :
    List Step × Option BundleError → List Step × Option BundleError → List Step × Option BundleError
after_step (steps, some e) rest = (steps, some e)
after_step (steps, none) rest = (steps ++ rest.0, rest.1)

unfoldable pub place_all : List Name → List Member → List Step × Option BundleError
place_all destination [] = ([], none)
place_all destination (m ∷ rest) = after_step (place destination m) (place_all destination rest)

abbrev pub max_bundle_bytes : ℕ
max_bundle_bytes = 256 * 1024 * 1024

abbrev pub limit_of : Option ℕ → ℕ
limit_of none = max_bundle_bytes
limit_of (some limit) = limit

abbrev pub place_under :
    List Name → List Member → Result BundleError (List Name) → List Step × Option BundleError
place_under destination members (err e) = ([], some e)
place_under destination members (ok tops) =
    if eqb (length tops) 1
    then after_step (make_directory destination ∷ [], none) (place_all destination members)
    else ([], some not_one_directory)

-- The steps on the disk, and the error if there is one.
unfoldable pub extract_bundle : List Member → List Name → Option ℕ → List Step × Option BundleError
extract_bundle members destination limit =
    if is_nil members
    then ([], some empty_archive)
    else place_under destination members (check_members (limit_of limit) members [] 0)

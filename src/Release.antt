-- ===== src/Release.antt =====
-- core/alteriom_hil/release.py: the document that says what a release is. What `json.loads` gives of
-- its text is an argument, with each field as the code tests it.
pub mod Updates
pub mod Checked
mod Tests
use esp32_rig.Base.{
  ℕ, String, Bool, true, false, not, ◌&&◌, ◌||◌, Option, none, some, List, [], ◌∷◌, ◌++◌, map, eqb,
  same_name, Result, ok, err, ◌>>=◌, ◌>>◌, refuse, if◌then◌else◌, ◌==◌,
}

-- A field that must be a whole number.
pub data Size : Type 0 where
  no_number negative : Size
  count : ℕ → Size

abbrev pub is_number : Size → Bool
is_number no_number = false
is_number _ = true

-- A file that a document names; a field that is no text is `none`.
pub record RawFile : Type 0 where
  pub name : Option String
  pub sha256 : Option String
  pub bytes : Size

pub data Part : Type 0 where
  mapping : RawFile → Part
  other : Part

pub record RawFirmware : Type 0 where
  pub file : RawFile
  pub version : Option String
  pub revision : Option String
  -- `none`: no list
  pub families : Option (List (Option String))

pub data FirmwareField : Type 0 where
  -- null or absent, no mapping, {}
  absent no_mapping empty : FirmwareField
  carries : RawFirmware → FirmwareField

-- A version or a commit is a text, where there is one.
pub record Document : Type 0 where
  pub schema : Size
  pub version : Option String
  pub commit : Option String
  -- `none`: no list
  pub packages : Option (List Part)
  -- `none`: no mapping
  pub dashboard : Option RawFile
  pub firmware : FirmwareField

pub data Body : Type 0 where
  -- no JSON, or JSON that is no mapping
  no_json no_document : Body
  document : Document → Body

pub data ReleaseError : Type 0 where
  not_json bad_schema other_release no_packages bad_firmware : ReleaseError
  bad_name uncheckable firmware_unversioned firmware_for_none : ReleaseError
  missing differs : String → ReleaseError

-- A file whose entry was checked, and a document all of whose entries were.
pub record File : Type 0 where
  pub name : String
  pub sha256 : String
  pub bytes : Size

pub record Manifest : Type 0 where
  pub version : Option String
  pub commit : Option String
  pub packages : List File
  pub dashboard : File
  pub firmware : Option File

-- `entries` of a document that was checked.
unfoldable pub entries : Manifest → List File
entries m = m.packages ++ m.dashboard ∷ elim m.firmware [ none ↦ [] | some f ↦ f ∷ [] ]

abbrev pub is_schema : Size → Bool
is_schema (count n) = eqb n 1
is_schema _ = false

-- `commit is not None and manifest.get("commit") != commit`
abbrev pub is_other : Option String → Option String → Bool
is_other none commit = false
is_other (some asked) commit = not (same_name commit (some asked))

abbrev pub all_texts : List (Option String) → Bool
all_texts [] = true
all_texts (none ∷ ks) = false
all_texts (some k ∷ ks) = all_texts ks

unfoldable pub check_firmware : FirmwareField → Result ReleaseError (Unit {0})
check_firmware absent = ok tt
check_firmware no_mapping = err bad_firmware
check_firmware empty = err firmware_unversioned
check_firmware (carries f) = elim f.version [
  | none ↦ err firmware_unversioned
  | some v ↦ elim f.revision [
    | none ↦ err firmware_unversioned
    | some r ↦ elim f.families [
      | none ↦ err firmware_for_none
      | some [] ↦ err firmware_for_none
      | some (k ∷ ks) ↦ if all_texts (k ∷ ks) then ok tt else err firmware_for_none
    ]
  ]
]

-- `is_release_file` is whether a text is RELEASE_FILE_PATTERN's.
module _ (is_release_file : String → Bool) where
  unfoldable pub check_file : RawFile → Result ReleaseError File
  check_file f = elim f.name [
    | none ↦ err bad_name
    | some name ↦ if not (is_release_file name) then err bad_name else elim f.sha256 [
      | none ↦ err uncheckable
      | some sha ↦
          if is_number f.bytes
          then ok (record { name = name; sha256 = sha; bytes = f.bytes })
          else err uncheckable
    ]
  ]

  unfoldable pub check_part : Part → Result ReleaseError File
  unfolding check_file
  check_part other = err bad_name
  check_part (mapping f) = check_file f

  unfoldable pub check_parts : List Part → Result ReleaseError (List File)
  unfolding check_part
  check_parts [] = ok []
  check_parts (p ∷ ps) = do f ← check_part p; fs ← check_parts ps; ok (f ∷ fs)

  unfoldable pub check_carried : FirmwareField → Result ReleaseError (Option File)
  unfolding check_file
  check_carried (carries f) = do file ← check_file f.file; ok (some file)
  check_carried _ = ok none

  abbrev pub is_no_mapping : FirmwareField → Bool
  is_no_mapping no_mapping = true
  is_no_mapping _ = false

  -- The packages and the dashboard, if the document has both.
  abbrev pub parts_of : Document → Result ReleaseError (List Part × RawFile)
  parts_of d = elim d.packages [
    | none ↦ err no_packages
    | some [] ↦ err no_packages
    | some (p ∷ ps) ↦ elim d.dashboard [ none ↦ err no_packages | some f ↦ ok (p ∷ ps, f) ]
  ]

  unfoldable pub parse_document : Document → Option String → Result ReleaseError Manifest
  unfolding check_parts check_file check_carried check_firmware
  parse_document d commit = do
    refuse (not (is_schema d.schema)) bad_schema
    refuse (is_other commit d.commit) other_release
    parts ← parts_of d
    refuse (is_no_mapping d.firmware) bad_firmware
    packages ← check_parts parts.0
    dashboard ← check_file parts.1
    carried ← check_carried d.firmware
    check_firmware d.firmware
    ok (record {
      version = d.version;
      commit = d.commit;
      packages = packages;
      dashboard = dashboard;
      firmware = carried;
    })

  unfoldable pub parse_manifest : Body → Option String → Result ReleaseError Manifest
  unfolding parse_document
  parse_manifest no_json commit = err not_json
  parse_manifest no_document commit = err bad_schema
  parse_manifest (document d) commit = parse_document d commit

-- The content of a file is a text; `size_of` and `sha256_of` are its size and digest in bytes.
module _ (size_of : String → ℕ) (sha256_of : String → String) where
  abbrev pub has_size : Size → ℕ → Bool
  has_size (count n) m = eqb m n
  has_size _ m = false

  abbrev pub is_described : File → String → Bool
  is_described f content = has_size f.bytes (size_of content) && sha256_of content == f.sha256

  -- `none`: there is no such file.
  unfoldable pub check_files : List File → (String → Option String) → Result ReleaseError (Unit {0})
  check_files [] read = ok tt
  check_files (f ∷ fs) read =
      let rest = check_files fs read in
      elim (read f.name) [
        | none ↦ err (missing f.name)
        | some content ↦ if is_described f content then rest else err (differs f.name)
      ]

  unfoldable pub check : Manifest → (String → Option String) → Result ReleaseError (Unit {0})
  unfolding check_files entries
  check m = check_files (entries m)

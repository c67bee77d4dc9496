-- ===== src/Release/Updates.antt =====
-- rig/alteriom_hil/updates.py: a release is fetched, checked, and handed to the unit that installs it.
pub mod Staged
use esp32_rig.Base.{
  ℕ, String, Bool, true, false, not, Option, none, some, List, [], ◌∷◌, lookup, put, Result, ok,
  err, if◌then◌else◌, ltb, eqb, ◌||◌, ◌&&◌, ◌==◌,
}
use esp32_rig.Release.{Body, Manifest, File, ReleaseError, entries, parse_manifest, check}

abbrev pub Version : Type 0
Version = ℕ × ℕ × ℕ

abbrev pub is_later : Version → Version → Bool
is_later (a, b, c) (x, y, z) = ltb x a || eqb x a && (ltb y b || eqb y b && ltb z c)

-- `newer`, of what `version_tuple` gives.
unfoldable pub newer : Option Version → Option Version → Bool
newer have none = false
newer none (some offered) = true
newer (some have) (some offered) = is_later offered have

pub record Status : Type 0 where
  pub state : String
  pub version : Option String
  pub commit : Option String

pub record Request : Type 0 where
  pub version : Option String
  pub commit : Option String

-- The directory `update`: the files of each release by name, status.json and request.json.
pub record Update : Type 0 where
  pub releases : List (String × List (String × String))
  pub status : Option Status
  pub request : Option Request

pub data UpdateError : Type 0 where
  no_release_document download_failed : UpdateError
  unusable : ReleaseError → UpdateError
  not_carried : String → UpdateError
  refused : ReleaseError → UpdateError

-- What the code looked for on GitHub: a version, and a URL for each asset.
pub record Available : Type 0 where
  pub version : Option String
  pub assets : List (String × String)

abbrev pub dir_of : String → Update → List (String × String)
dir_of v u = elim (lookup v u.releases) [ none ↦ [] | some files ↦ files ]

abbrev pub write_file : String → String → String → Update → Update
write_file v name content u = record u {
  releases = put v (put name content (dir_of v u)) u.releases;
}

abbrev pub write_status : String → Option String → Option String → Update → Update
write_status state version commit u = record u {
  status = some (record { state = state; version = version; commit = commit });
}

-- `str(manifest.get("version") or available.get("version"))`
abbrev pub text_of : Option String → String
text_of none = "None"
text_of (some t) = t

abbrev pub first_text : Option String → Option String → Option String
first_text none other = other
first_text (some t) other = if t == "" then other else some t

abbrev pub version_of : Manifest → Available → String
version_of m available = text_of (first_text m.version available.version)

-- `fetch` gives what is behind a URL, or `none` where it raises; `parse_json` reads a text as JSON,
-- and `printed` writes a manifest as JSON.
module _ (is_release_file : String → Bool) (size_of : String → ℕ) (sha256_of : String → String)
    (fetch : String → Option String) (parse_json : String → Body)
    (printed : Manifest → String) where
  -- The loop over the files that the manifest names.
  unfoldable pub fetch_files :
      List File
      → String
      → Option String
      → List (String × String)
      → Update
      → Update × Result UpdateError (Unit {0})
  fetch_files [] v commit assets u = (u, ok tt)
  fetch_files (f ∷ fs) v commit assets u =
      let u' = write_status "downloading" (some v) commit u in
      elim (lookup f.name assets) [
        | none ↦ (u, err (not_carried f.name))
        | some url ↦ elim (fetch url) [
          | none ↦ (u', err download_failed)
          | some content ↦ fetch_files fs v commit assets (write_file v f.name content u')
        ]
      ]

  unfoldable pub hand_over : Manifest → String → Update → Update × Result UpdateError Request
  hand_over m v u =
      let request : Request = record { version = some v; commit = m.commit } in
      elim (check size_of sha256_of m (λ name. lookup name (dir_of v u))) [
        | err e ↦ (u, err (refused e))
        | ok done ↦ (
          record (write_status "staged" (some v) m.commit u) { request = some request },
          ok request,
        )
      ]

  unfoldable pub stage_manifest :
      Manifest → Available → Update → Update × Result UpdateError Request
  unfolding fetch_files hand_over
  stage_manifest m available u =
      let v = version_of m available in
      let (u', fetched) =
        fetch_files (entries m) v m.commit available.assets
          (write_file v "release.json" (printed m) u) in
      elim fetched [ err e ↦ (u', err e) | ok done ↦ hand_over m v u' ]

  unfoldable pub stage : Available → Update → Update × Result UpdateError Request
  unfolding stage_manifest
  stage available u =
      let u' = write_status "downloading" available.version none u in
      elim (lookup "release.json" available.assets) [
        | none ↦ (u, err no_release_document)
        | some url ↦ elim (fetch url) [
          | none ↦ (u', err download_failed)
          | some body ↦ elim (parse_manifest is_release_file (parse_json body) none) [
            | err e ↦ (u', err (unusable e))
            | ok m ↦ stage_manifest m available u'
          ]
        ]
      ]

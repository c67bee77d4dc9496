-- ===== src/Release/Tests.antt =====
-- A release of one package and a dashboard, staged.
use esp32_rig.Base.{
  ℕ, String, Bool, true, ◌≡◌, refl, Option, none, some, [], ◌∷◌, if◌then◌else◌, ◌==◌,
}
use esp32_rig.Release.{
  Body, document, no_json, Document, mapping, RawFile, count, absent, Manifest, parse_manifest,
  parse_document, check_parts, check_part, check_file, check_carried, check_firmware, entries,
  check, check_files,
}
use esp32_rig.Release.Updates.{
  Update, Available, fetch_files, hand_over, stage_manifest, stage, newer,
}
use esp32_rig.Release.Updates.Staged.{IsHandedOver, stage-IsHandedOver}

abbrev part : String → RawFile
part name = record { name = some name; sha256 = some name; bytes = count 3 }

abbrev release : Document
release = record {
  schema = count 1;
  version = some "1.2.0";
  commit = some "c0ffee";
  packages = some (mapping (part "core.whl") ∷ []);
  dashboard = some (part "dash.tar.gz");
  firmware = absent;
}

abbrev available : Available
available = record {
  version = some "1.2.0";
  assets = ("release.json", "u0") ∷ ("core.whl", "u1") ∷ ("dash.tar.gz", "u2") ∷ [];
}

-- The URLs that answer; the content of a file is its own digest and has three bytes.
abbrev web : String → Option String
web url =
    if url == "u0"
    then some "release"
    else if url == "u1"
    then some "core.whl"
    else if url == "u2"
    then some "dash.tar.gz"
    else none

abbrev any_name : String → Bool
any_name name = true

abbrev three : String → ℕ
three content = 3

abbrev itself : String → String
itself content = content

abbrev reads : String → Body
reads text = if text == "release" then document release else no_json

abbrev print : Manifest → String
print m = "release"

abbrev nothing_staged : Update
nothing_staged = record { releases = []; status = none; request = none }

stages :
    (stage any_name three itself web reads print available nothing_staged).0.request
    ≡ some (record { version = some "1.2.0"; commit = some "c0ffee" })
unfolding stage stage_manifest fetch_files hand_over parse_manifest parse_document check_parts
    check_part check_file check_carried check_firmware entries check check_files
stages = refl

newer_patch : newer (some (1, 2, 9)) (some (1, 3, 0)) ≡ true
unfolding newer
newer_patch = refl

stage-IsHandedOver_example :
    IsHandedOver any_name three itself web reads print available nothing_staged
      (stage any_name three itself web reads print available nothing_staged)
stage-IsHandedOver_example =
    stage-IsHandedOver any_name three itself web reads print available nothing_staged

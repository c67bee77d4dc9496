-- ===== src/Access/Tests.antt =====
-- Keys and roles on examples. The digest of a key is the key itself.
use esp32_rig.Base.{
  ◌||◌, ◌&&◌, String, Bool, true, false, ◌≡◌, refl, none, some, List, [], ◌∷◌, ok, ◌==◌,
}
use esp32_rig.Access.{Identity}
use esp32_rig.Access.Routes.{
  allowed, node_route, user_writes, account_route, half_route, node_routes, account_routes,
}
use esp32_rig.Access.Routes.Roles.{allowed-undeclared}
use esp32_rig.Access.Keys.{
  Entry, keys, not_a_mapping, must_be_mapping, parse_keys, check_entry, raws, append_key,
}
use esp32_rig.Access.Keys.Parsed.{IsChecked, parse_keys-IsChecked}
use esp32_rig.Access.KeyStore.{
  Disk, stamped, reload, absent, of_file, KeyStore, invalid, cannot_load, read_document, create,
  revoke, written, refresh, find_key, identify, keep_keys,
}
use esp32_rig.Access.KeyStore.Held.{create-identify}
use esp32_rig.Access.KeyStore.Revoked.{revoke-identify}
use esp32_rig.Access.KeyStore.Unreadable.{refresh-unreadable, stamped_disk}

-- A pattern matches itself, and the reports of a worker match one path besides.
abbrev exactly : String → String → Bool
exactly pattern path =
    pattern == path
    || pattern == "/api/v1/workers/[a-z0-9][a-z0-9._-]{0,31}/(hello|heartbeat|lease)"
      && path == "/api/v1/workers/lab/lease"

-- Every name and digest is well formed.
abbrev anything : String → String → Bool
anything pattern path = true

abbrev digest : String → String
digest key = key

abbrev bench_caller : Identity
bench_caller = record { name = "bench"; role = "node"; kind = "key" }

abbrev person : Identity
person = record { name = "mira"; role = "user"; kind = "account" }

abbrev lease : String
lease = "/api/v1/workers/lab/lease"

allowed-undeclared_example : allowed exactly person "POST" "/api/v1/keys" [] ≡ false
unfolding node_route node_routes user_writes account_route account_routes half_route
allowed-undeclared_example =
    allowed-undeclared exactly person "POST" "/api/v1/keys" [] refl refl refl refl refl refl refl

abbrev first_key : Entry
first_key = record {
  name = "bench";
  role = "node";
  sha256 = "k1";
  created_at = some "t";
  note = none;
}

abbrev other_key : Entry
other_key = record {
  name = "mira";
  role = "user";
  sha256 = "k2";
  created_at = some "t";
  note = none;
}

abbrev two_keys : List Entry
two_keys = first_key ∷ other_key ∷ []

parse_keys-IsChecked_example :
    IsChecked anything two_keys [] [] × (parse_keys anything (keys (raws two_keys)) ≡ ok two_keys)
unfolding parse_keys check_entry
parse_keys-IsChecked_example = parse_keys-IsChecked anything (keys (raws two_keys)) two_keys refl

abbrev store : KeyStore
store = record { farm = "token"; has_file = true; stamp = absent; keys = []; error = none }

abbrev on_disk : List Entry → Disk
on_disk es = written anything digest (stamped 7 9) es

create-identify_example :
    (identify anything digest (on_disk two_keys) (some "k2") (record store { stamp = reload })).0
    ≡ some (record { name = "mira"; role = "user"; kind = "key" })
unfolding create parse_keys check_entry append_key
create-identify_example =
    create-identify anything digest (on_disk (first_key ∷ [])) (on_disk two_keys) "mira" "user" none
      [] "t" "k2" 7 9 store (record store { stamp = reload }) refl refl refl

revoke-identify_example : ("bench" == "mira") ≡ false
unfolding revoke identify parse_keys check_entry
revoke-identify_example =
    revoke-identify anything digest (on_disk two_keys) (on_disk (first_key ∷ [])) "mira" 7 9 store
      (record store { stamp = reload }) "k1" bench_caller refl refl refl

refresh-unreadable_example :
    (find_key anything digest "k1"
        (refresh anything digest (stamped_disk anything digest 7 9 (ok not_a_mapping)) store)
      ≡ none)
    × ((refresh anything digest (stamped_disk anything digest 7 9 (ok not_a_mapping)) store).error
        ≡ some (cannot_load (invalid must_be_mapping)))
    × (refresh anything digest
          (stamped_disk anything digest 7 9 (ok (keys (raws two_keys))))
          (refresh anything digest (stamped_disk anything digest 7 9 (ok not_a_mapping)) store)
        ≡ keep_keys (of_file 7 9) two_keys store)
unfolding read_document parse_keys check_entry
refresh-unreadable_example =
    refresh-unreadable anything digest 7 9 (ok not_a_mapping) (ok (keys (raws two_keys)))
      (invalid must_be_mapping) two_keys store "k1" refl refl refl refl

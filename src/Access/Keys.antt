-- ===== src/Access/Keys.antt =====
-- api_keys.py: the keys file. A document is what `yaml.safe_load` gives of the file, and a field that
-- is absent, or not a text, is `none`.
pub mod Parsed
pub mod Appended
use esp32_rig.Base.{
  String, Bool, true, false, not, ◌&&◌, ◌||◌, Option, none, some, List, [], ◌∷◌, ◌++◌, any,
  contains, Result, ok, err, ◌>>=◌, ◌>>◌, refuse, if◌then◌else◌, ◌==◌,
}

pub record RawEntry : Type 0 where
  pub name : Option String
  pub role : Option String
  pub sha256 : Option String
  pub created_at : Option String
  pub note : Option String

-- An entry that was checked.
pub record Entry : Type 0 where
  pub name : String
  pub role : String
  pub sha256 : String
  pub created_at : Option String
  pub note : Option String

pub data Node : Type 0 where
  mapping : RawEntry → Node
  other : Node

pub data Document : Type 0 where
  -- None or {}, or a mapping with no keys or none in the list
  empty : Document
  keys : List Node → Document
  keys_no_list not_a_mapping : Document

pub data KeyError : Type 0 where
  must_be_mapping must_be_list entry_no_mapping : KeyError
  bad_name farm_name bad_role bad_digest name_twice same_key : KeyError

abbrev pub farm_key_name : String
farm_key_name = "farm"

abbrev pub roles : List String
roles = "admin" ∷ "user" ∷ "node" ∷ []

abbrev pub name_pattern : String
name_pattern = "[a-z0-9][a-z0-9._-]{0,31}\\Z"

abbrev pub digest_pattern : String
digest_pattern = "[0-9a-f]{64}\\Z"

abbrev pub raw : Entry → Node
raw e = mapping (record {
  name = some e.name;
  role = some e.role;
  sha256 = some e.sha256;
  created_at = e.created_at;
  note = e.note;
})

abbrev pub raws : List Entry → List Node
raws [] = []
raws (e ∷ es) = raw e ∷ raws es

module _ (fullmatch : String → String → Bool) where
  unfoldable pub check_name : Option String → Result KeyError String
  check_name none = err bad_name
  check_name (some name) = do
    refuse (not (fullmatch name_pattern name)) bad_name
    refuse (name == farm_key_name) farm_name
    ok name

  unfoldable pub check_role : Option String → Result KeyError String
  check_role none = err bad_role
  check_role (some role) = do refuse (not (contains role roles)) bad_role; ok role

  unfoldable pub check_digest : Option String → Result KeyError String
  check_digest none = err bad_digest
  check_digest (some sha) = do refuse (not (fullmatch digest_pattern sha)) bad_digest; ok sha

  -- One round of the loop, with the names and digests before it.
  unfoldable pub check_entry : Node → List String → List String → Result KeyError Entry
  unfolding check_name check_role check_digest
  check_entry other names digests = err entry_no_mapping
  check_entry (mapping e) names digests = do
    name ← check_name e.name
    role ← check_role e.role
    sha ← check_digest e.sha256
    refuse (contains name names) name_twice
    refuse (contains sha digests) same_key
    ok (record { name = name; role = role; sha256 = sha; created_at = e.created_at; note = e.note })

  unfoldable pub parse_entries :
      List Node → List String → List String → Result KeyError (List Entry)
  parse_entries [] names digests = ok []
  parse_entries (n ∷ ns) names digests = do
    e ← check_entry n names digests
    rest ← parse_entries ns (e.name ∷ names) (e.sha256 ∷ digests)
    ok (e ∷ rest)

  unfoldable pub parse_keys : Document → Result KeyError (List Entry)
  unfolding parse_entries
  parse_keys empty = ok []
  parse_keys not_a_mapping = err must_be_mapping
  parse_keys keys_no_list = err must_be_list
  parse_keys (keys ns) = parse_entries ns [] []

  -- `updated = parse_keys({"keys": [*entries, entry]})`, for an entry with the digest of a new key.
  unfoldable pub append_key : List Entry → Node → Result KeyError (List Entry)
  unfolding parse_entries
  append_key entries entry = parse_entries (raws entries ++ entry ∷ []) [] []

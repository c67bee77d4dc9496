-- ===== src/Access/KeyStore.antt =====
-- api_keys.py: KeyStore, which reads the keys file again when its stamp changes. The keys file is an
-- argument; a method that writes it returns it. A stamp is the file's time and size.
pub mod Held
pub mod Revoked
pub mod Unreadable
use esp32_rig.Base.{
  ℕ, String, Bool, true, false, not, ◌&&◌, ◌||◌, Option, none, some, List, [], ◌∷◌, ◌++◌, map, any,
  first, filter, length, eqb, contains, Result, ok, err, ◌>>=◌, ◌>>◌, refuse, if◌then◌else◌, ◌==◌,
}
use esp32_rig.Access.{Identity}
use esp32_rig.Access.Keys.{
  Entry, Node, RawEntry, mapping, Document, empty, keys, KeyError, farm_key_name, parse_keys, raws,
  append_key,
}

pub data Stat : Type 0 where
  gone stat_fails : Stat
  stamped : ℕ → ℕ → Stat

pub data LoadError : Type 0 where
  unreadable : LoadError
  invalid : KeyError → LoadError

-- The keys file: what `stat` says of it, and what reading it gives.
pub record Disk : Type 0 where
  pub stat : Stat
  pub content : Result LoadError Document

-- The stamp of the file that was read last: of none, of one, or of one that must be read again.
pub data Stamp : Type 0 where
  absent reload : Stamp
  of_file : ℕ → ℕ → Stamp

pub data Failure : Type 0 where
  cannot_stat : Failure
  cannot_load : LoadError → Failure

pub record KeyStore : Type 0 where
  pub farm : String
  pub has_file : Bool
  pub stamp : Stamp
  pub keys : List (String × Identity)
  pub error : Option Failure

abbrev pub same_stamp : Stamp → Stamp → Bool
same_stamp absent absent = true
same_stamp (of_file t s) (of_file u v) = eqb t u && eqb s v
same_stamp _ _ = false

abbrev pub held : Entry → String × Identity
held e = (e.sha256, record { name = e.name; role = e.role; kind = "key" })

abbrev pub invalid_of {ℓ} : {A : Type ℓ} → Result KeyError A → Result LoadError A
invalid_of (ok a) = ok a
invalid_of (err e) = err (invalid e)

abbrev pub forget : LoadError → KeyStore → KeyStore
forget e store = record store { keys = []; stamp = reload; error = some (cannot_load e) }

abbrev pub keep_keys : Stamp → List Entry → KeyStore → KeyStore
keep_keys stamp entries store = record store {
  keys = map held entries;
  stamp = stamp;
  error = none;
}

-- Why a key was not made.
pub data CreateError : Type 0 where
  no_keys_file own_token key_exists account_handle : CreateError
  not_loaded : LoadError → CreateError
  refused : KeyError → CreateError

module _ (fullmatch : String → String → Bool) (sha256 : String → String) where
  unfoldable pub read_document : Result LoadError Document → Result LoadError (List Entry)
  read_document (err e) = err e
  read_document (ok d) = invalid_of (parse_keys fullmatch d)

  unfoldable pub load_at : Stat → Result LoadError Document → Result LoadError (List Entry)
  unfolding read_document
  load_at gone content = ok []
  load_at stat_fails content = read_document content
  load_at (stamped t s) content = read_document content

  unfoldable pub load_keys : Disk → Result LoadError (List Entry)
  unfolding load_at
  load_keys disk = load_at disk.stat disk.content

  -- The file was found under a stamp.
  unfoldable pub reread : Disk → Stamp → KeyStore → KeyStore
  unfolding load_keys
  reread disk stamp store = if same_stamp stamp store.stamp then store else elim (load_keys disk) [
    | err e ↦ forget e store
    | ok entries ↦ keep_keys stamp entries store
  ]

  unfoldable pub refresh : Disk → KeyStore → KeyStore
  unfolding reread
  refresh disk store = if not store.has_file then store else elim disk.stat [
    | stat_fails ↦ record store { error = some cannot_stat }
    | gone ↦ reread disk absent store
    | stamped t s ↦ reread disk (of_file t s) store
  ]

  -- The first identity whose digest is the key's; the farm's own is before the others.
  unfoldable pub find_key : String → KeyStore → Option Identity
  find_key digest store =
      if digest == store.farm
      then some (record { name = farm_key_name; role = "admin"; kind = "key" })
      else elim (first (λ k. digest == k.0) store.keys) [ none ↦ none | some k ↦ some k.1 ]

  -- `none`, or an empty key, is nobody's.
  unfoldable pub identify : Disk → Option String → KeyStore → Option Identity × KeyStore
  unfolding refresh find_key
  identify disk presented store = elim presented [
    | none ↦ (none, store)
    | some key ↦
        if key == ""
        then (none, store)
        else (find_key (sha256 key) (refresh disk store), refresh disk store)
  ]

  -- `write_keys`: the file replaced, with what `stat` will say of it.
  abbrev pub written : Stat → List Entry → Disk
  written stat entries = record { stat = stat; content = ok (keys (raws entries)) }

  abbrev pub new_entry : String → String → Option String → String → String → Node
  new_entry name role note created_at key = mapping (record {
    name = some name;
    role = some role;
    sha256 = some (sha256 key);
    created_at = some created_at;
    note = elim note [ none ↦ none | some t ↦ if t == "" then none else some t ];
  })

  unfoldable pub add_key :
      List Entry
      → String
      → String
      → Option String
      → List String
      → String
      → String
      → Result CreateError (List Entry)
  add_key entries name role note reserved created_at key =
      if contains name reserved
      then err account_handle
      else elim (append_key fullmatch entries (new_entry name role note created_at key)) [
        | err e ↦ err (refused e)
        | ok updated ↦ ok updated
      ]

  abbrev pub loaded : Disk → Result CreateError (List Entry)
  loaded disk = elim (load_keys disk) [ err e ↦ err (not_loaded e) | ok entries ↦ ok entries ]

  -- `key` is the new random key, `stat` what the file system will say of the new file.
  unfoldable pub create :
      Disk
      → String
      → String
      → Option String
      → List String
      → String
      → String
      → Stat
      → KeyStore
      → Result CreateError (Disk × KeyStore)
  unfolding add_key load_keys
  create disk name role note reserved created_at key stat store = do
    refuse (not store.has_file) no_keys_file
    refuse (name == farm_key_name) own_token
    entries ← loaded disk
    refuse (any (λ e. e.name == name) entries) key_exists
    updated ← add_key entries name role note reserved created_at key
    ok (written stat updated, record store { stamp = reload })

  abbrev pub without : String → List Entry → List Entry
  without name = filter (λ e. not (e.name == name))

  -- `err`: the file cannot be read. The answer says whether there was such a key.
  unfoldable pub revoke :
      Disk → String → Stat → KeyStore → Result LoadError (Bool × Disk × KeyStore)
  unfolding load_keys
  revoke disk name stat store =
      if not store.has_file || name == farm_key_name then ok (false, disk, store) else do
        entries ← load_keys disk
        ok (
            if eqb (length (without name entries)) (length entries)
            then (false, disk, store)
            else (true, written stat (without name entries), record store { stamp = reload }))

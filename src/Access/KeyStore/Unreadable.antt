-- ===== src/Access/KeyStore/Unreadable.antt =====
-- A keys file that cannot be read, or that says what it may not.
use esp32_rig.Base.{
  ℕ, String, Bool, true, false, ◌≡◌, refl, none, some, List, Result, ok, err, if◌then◌else◌, ◌==◌,
}
use esp32_rig.Access.Keys.{Entry, Document, farm_key_name}
use esp32_rig.Access.KeyStore.{
  Disk, stamped, of_file, KeyStore, LoadError, cannot_load, read_document, load_at, load_keys,
  reread, refresh, find_key, keep_keys, forget, same_stamp,
}

module _ (fullmatch : String → String → Bool) (sha256 : String → String) where
  abbrev pub stamped_disk : ℕ → ℕ → Result LoadError Document → Disk
  stamped_disk t s content = record { stat = stamped t s; content = content }

  refresh-broken :
      (t s : ℕ) (content : Result LoadError Document) (e : LoadError) (store : KeyStore)
      → store.has_file ≡ true
      → same_stamp (of_file t s) store.stamp ≡ false
      → read_document fullmatch sha256 content ≡ err e
      → refresh fullmatch sha256 (stamped_disk t s content) store ≡ forget e store
  unfolding refresh reread load_keys load_at
  refresh-broken t s content e store there changed bad = simp (there, changed, bad)

  refresh-repaired :
      (t s : ℕ) (content : Result LoadError Document) (e : LoadError) (es : List Entry)
      (store : KeyStore)
      → store.has_file ≡ true
      → read_document fullmatch sha256 content ≡ ok es
      → refresh fullmatch sha256 (stamped_disk t s content) (forget e store)
        ≡ keep_keys (of_file t s) es store
  unfolding refresh reread load_keys load_at
  refresh-repaired t s content e es store there good = simp (there, good)

  find_key-forget :
      (d : String) (e : LoadError) (store : KeyStore)
      → find_key fullmatch sha256 d (forget e store) ≡ (
          if d == store.farm
          then some (record { name = farm_key_name; role = "admin"; kind = "key" })
          else none)
  unfolding find_key
  find_key-forget d e store = refl

  -- When the keys file has changed to one that cannot be read, or that says what it may not, nobody
  -- is let in on what it said before: only the farm's own token names a caller, and the store keeps
  -- the reason. Once the file is good again its keys are taken, even if its time and size are those
  -- of the bad file.
  pub refresh-unreadable :
      (t s : ℕ) (bad good : Result LoadError Document) (e : LoadError) (es : List Entry)
      (store : KeyStore) (d : String)
      → store.has_file ≡ true
      → same_stamp (of_file t s) store.stamp ≡ false
      → read_document fullmatch sha256 bad ≡ err e
      → read_document fullmatch sha256 good ≡ ok es
      → (find_key fullmatch sha256 d (refresh fullmatch sha256 (stamped_disk t s bad) store) ≡ (
          if d == store.farm
          then some (record { name = farm_key_name; role = "admin"; kind = "key" })
          else none))
        × ((refresh fullmatch sha256 (stamped_disk t s bad) store).error ≡ some (cannot_load e))
        × (refresh fullmatch sha256
              (stamped_disk t s good)
              (refresh fullmatch sha256 (stamped_disk t s bad) store)
            ≡ keep_keys (of_file t s) es store)
  refresh-unreadable t s bad good e es store d there changed fails reads =
      rw (refresh-broken t s bad e store there changed fails)
        (find_key-forget d e store, refl, refresh-repaired t s good e es store there reads)

-- ===== src/Access/KeyStore/Held.antt =====
-- Who a key is, after the changes to the file.
use esp32_rig.Base.{
  ℕ, String, Bool, true, false, not, ◌≡◌, refl, sym, subst, ap, ap₂, ◌∙◌, Option, some, List, [],
  ◌∷◌, ◌++◌, arith, any, Result, ok, err, refuse, >>=-eq-ok, ok-inj, Result-cases, inl, inr, eq_iff,
  ◌==◌,
}
use esp32_rig.Access.Keys.{Entry, Document, farm_key_name, parse_keys, append_key}
use esp32_rig.Access.Keys.Parsed.{
  IsChecked, parse_entries-raws, parse_entries-IsChecked, parse_keys-IsChecked,
}
use esp32_rig.Access.KeyStore.{
  Disk, Stat, gone, stat_fails, stamped, reload, of_file, KeyStore, LoadError, held, load_keys,
  load_at, read_document, reread, refresh, find_key, identify, written, new_entry, add_key, create,
  loaded, keep_keys,
}
use esp32_rig.Access.Keys.Appended.{appended, first-last}

module _ (fullmatch : String → String → Bool) (sha256 : String → String) where
  -- Who a key is, once the store has looked at a file that was just written.
  pub find_key-written :
      (t s : ℕ) (es : List Entry) (store : KeyStore) (d : String)
      → store.has_file ≡ true
      → IsChecked fullmatch es [] []
      → find_key fullmatch sha256 d (
          refresh fullmatch sha256
            (written fullmatch sha256 (stamped t s) es)
            (record store { stamp = reload }))
        ≡ find_key fullmatch sha256 d (keep_keys (of_file t s) es store)
  unfolding refresh reread load_keys parse_keys find_key
  find_key-written t s es store d there c = rw (there, parse_entries-raws fullmatch es [] [] c) refl

  read-IsChecked :
      (content : Result LoadError Document) (es : List Entry)
      → read_document fullmatch sha256 content ≡ ok es
      → IsChecked fullmatch es [] []
  unfolding read_document
  read-IsChecked (err e) es h = absurd (cc)
  read-IsChecked (ok d) es h = elim (Result-cases (parse_keys fullmatch d)) [
    | inl (parsed, p) ↦
        subst (λ l. IsChecked fullmatch l [] []) (ok-inj (rw p at h))
          (parse_keys-IsChecked fullmatch d parsed p).0
    | inr (e, p) ↦ absurd (cc (rw p at h))
  ]

  load_at-IsChecked :
      (stat : Stat) (content : Result LoadError Document) (es : List Entry)
      → load_at fullmatch sha256 stat content ≡ ok es
      → IsChecked fullmatch es [] []
  unfolding load_at
  load_at-IsChecked gone content es h = subst (λ l. IsChecked fullmatch l [] []) (ok-inj h) tt
  load_at-IsChecked stat_fails content es h = read-IsChecked content es h
  load_at-IsChecked (stamped t s) content es h = read-IsChecked content es h

  pub load_keys-IsChecked :
      (disk : Disk) (es : List Entry)
      → load_keys fullmatch sha256 disk ≡ ok es
      → IsChecked fullmatch es [] []
  unfolding load_keys
  load_keys-IsChecked disk es h = load_at-IsChecked disk.stat disk.content es h

  add_key-appended :
      (es : List Entry) (name role : String) (remark : Option String) (reserved : List String)
      (created_at key : String) (out : List Entry)
      → add_key fullmatch sha256 es name role remark reserved created_at key ≡ ok out
      → append_key fullmatch es (new_entry fullmatch sha256 name role remark created_at key)
        ≡ ok out
  unfolding add_key
  add_key-appended es name role remark reserved created_at key out h = ground arith

  -- What a key that was made did to the file.
  record IsMade (disk disk' : Disk) (name role : String) (remark : Option String)
      (created_at key : String) (stat : Stat) (store store' : KeyStore) : Type 0 where
    before : List Entry
    after : List Entry
    there : store.has_file ≡ true
    load : load_keys fullmatch sha256 disk ≡ ok before
    append :
        append_key fullmatch before (new_entry fullmatch sha256 name role remark created_at key)
        ≡ ok after
    file : disk' ≡ written fullmatch sha256 stat after
    same : store' ≡ record store { stamp = reload }

  create-IsMade :
      (disk disk' : Disk) (name role : String) (remark : Option String) (reserved : List String)
      (created_at key : String) (stat : Stat) (store store' : KeyStore)
      → create fullmatch sha256 disk name role remark reserved created_at key stat store
        ≡ ok (disk', store')
      → IsMade disk disk' name role remark created_at key stat store store'
  unfolding create
  create-IsMade disk disk' name role remark reserved created_at key stat store store' h =
      let (_, there, h) = >>=-eq-ok (refuse (not store.has_file) _) _ h in
      let (_, own, h) = >>=-eq-ok (refuse (name == farm_key_name) _) _ h in
      let (es, load, h) = >>=-eq-ok (loaded fullmatch sha256 disk) _ h in
      let (_, new, h) = >>=-eq-ok (refuse (any (λ e. e.name == name) es) _) _ h in
      let (out, added, h) =
        >>=-eq-ok (add_key fullmatch sha256 es name role remark reserved created_at key) _ h in
      let pair : (written fullmatch sha256 stat out, record store { stamp = reload })
          ≡ (disk', store') =
        ok-inj h in
      record {
        before = es;
        after = out;
        there = ground arith;
        load = ground arith;
        append = add_key-appended es name role remark reserved created_at key out added;
        file = sym (ap (λ p. p.0) pair);
        same = sym (ap (λ p. p.1) pair);
      }

  find_key-last :
      (t s : ℕ) (es : List Entry) (e : Entry) (store : KeyStore) (d : String)
      → (d == store.farm) ≡ false
      → any (λ x. d == x.sha256) es ≡ false
      → (d == e.sha256) ≡ true
      → find_key fullmatch sha256 d (keep_keys (of_file t s) (es ++ e ∷ []) store) ≡ some (held e).1
  unfolding find_key
  find_key-last t s es e store d not_farm away hit = rw (not_farm, first-last d es e away hit) refl

  -- The entry that was made, and who it stands for.
  made-found :
      (disk disk' : Disk) (name role : String) (remark : Option String) (created_at key : String)
      (t s : ℕ) (stat : Stat) (store store' : KeyStore)
      → (made : IsMade disk disk' name role remark created_at key stat store store')
      → (sha256 key == store.farm) ≡ false
      → IsChecked fullmatch made.after [] []
        × (find_key fullmatch sha256 (sha256 key) (keep_keys (of_file t s) made.after store)
            ≡ some (record { name = name; role = role; kind = "key" }))
  unfolding append_key
  made-found disk disk' name role remark created_at key t s stat store store' made not_farm =
      let (e, out, read, away, _) =
        appended fullmatch made.before _ [] [] (load_keys-IsChecked disk made.before made.load)
          made.append in
      let digest : sha256 key ≡ e.sha256 = ground (arith, read.sha256) in
      let who : (held e).1 ≡ record { name = name; role = role; kind = "key" } =
        ground (arith, read.name, read.role) in
      (
        parse_entries-IsChecked fullmatch _ [] [] made.append,
        ap (λ l. find_key fullmatch sha256 (sha256 key) (keep_keys (of_file t s) l store)) out
            ∙ find_key-last t s made.before e store (sha256 key) not_farm
                (subst (λ d. any (λ x. d == x.sha256) made.before ≡ false) (sym digest) away)
                ((eq_iff (sha256 key) e.sha256).1 digest)
            ∙ ap some who,
      )

  pub identify-some :
      (disk : Disk) (key : String) (store : KeyStore)
      → (key == "") ≡ false
      → (identify fullmatch sha256 disk (some key) store).0
        ≡ find_key fullmatch sha256 (sha256 key) (refresh fullmatch sha256 disk store)
  unfolding identify
  identify-some disk key store nonempty = rw nonempty refl

  -- A key that was just made is the caller that it was made for, from its first use; unless its
  -- digest is that of the farm's own token.
  pub create-identify :
      (disk disk' : Disk) (name role : String) (remark : Option String) (reserved : List String)
      (created_at key : String) (t s : ℕ) (store store' : KeyStore)
      → create fullmatch sha256 disk name role remark reserved created_at key (stamped t s) store
        ≡ ok (disk', store')
      → (key == "") ≡ false
      → (sha256 key == store.farm) ≡ false
      → (identify fullmatch sha256 disk' (some key) store').0
        ≡ some (record { name = name; role = role; kind = "key" })
  create-identify disk disk' name role remark reserved created_at key t s store store' h nonempty
        not_farm =
      let made =
        create-IsMade disk disk' name role remark reserved created_at key (stamped t s) store store'
          h in
      let (checked, found) =
        made-found disk disk' name role remark created_at key t s (stamped t s) store store' made
          not_farm in
      identify-some disk' key store' nonempty
      ∙ ap₂ (λ d k. find_key fullmatch sha256 (sha256 key) (refresh fullmatch sha256 d k)) made.file
          made.same
      ∙ find_key-written t s made.after store (sha256 key) made.there checked
      ∙ found

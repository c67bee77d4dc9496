-- ===== src/Access/KeyStore/Revoked.antt =====
-- Who a key is no longer, and a keys file that cannot be read.
use esp32_rig.Base.{
  ℕ, String, Bool, true, false, not, ◌≡◌, sym, subst, ap, ap₂, ◌∙◌, ◌||◌, some, List, [], ◌∷◌, map,
  arith, first, length, eqb, contains, ok, >>=-eq-ok, ok-inj, Bool-cases, Option-cases, inl, inr,
  eq_iff, ◌==◌,
}
use esp32_rig.Access.{Identity}
use esp32_rig.Access.Keys.{Entry, farm_key_name}
use esp32_rig.Access.Keys.Parsed.{IsChecked}
use esp32_rig.Access.KeyStore.{
  Disk, Stat, stamped, reload, of_file, KeyStore, held, load_keys, refresh, find_key, identify,
  written, without, revoke, keep_keys,
}
use esp32_rig.Access.KeyStore.Held.{find_key-written, load_keys-IsChecked, identify-some}

module _ (fullmatch : String → String → Bool) (sha256 : String → String) where
  filter-IsChecked :
      (name : String) (es : List Entry) (names names' digests digests' : List String)
      → ((k : String) → contains k names ≡ false → contains k names' ≡ false)
      → ((k : String) → contains k digests ≡ false → contains k digests' ≡ false)
      → IsChecked fullmatch es names digests
      → IsChecked fullmatch (without fullmatch sha256 name es) names' digests'
  filter-IsChecked name [] names names' digests digests' f g c = tt
  filter-IsChecked name (e ∷ es) names names' digests digests' f g c =
      elim (Bool-cases (e.name == name)) [
        | inl gone_now ↦ rw gone_now (
            filter-IsChecked name es (e.name ∷ names) names' (e.sha256 ∷ digests) digests'
              (λ k h. f k (ground arith)) (λ k h. g k (ground arith)) c.1)
        | inr stays ↦ rw stays (
          record {
            named = c.0.named;
            not_farm = c.0.not_farm;
            role = c.0.role;
            digest = c.0.digest;
            new_name = f e.name c.0.new_name;
            new_digest = g e.sha256 c.0.new_digest;
          },
          filter-IsChecked name es (e.name ∷ names) (e.name ∷ names') (e.sha256 ∷ digests)
              (e.sha256 ∷ digests') (λ k h. ground (arith, f k)) (λ k h. ground (arith, g k)) c.1,
        )
      ]

  first-without :
      (name d : String) (es : List Entry) (k : String × Identity)
      → first (λ j. d == j.0) (map held (without fullmatch sha256 name es)) ≡ some k
      → (k.1.name == name) ≡ false
  first-without name d [] k h = absurd (cc)
  first-without name d (e ∷ es) k h = ground (arith, first-without name d es k)

  find_key-without :
      (name d : String) (t s : ℕ) (es : List Entry) (store : KeyStore) (i : Identity)
      → (name == farm_key_name) ≡ false
      → find_key fullmatch sha256 d
          (keep_keys (of_file t s) (without fullmatch sha256 name es) store)
        ≡ some i
      → (i.name == name) ≡ false
  unfolding find_key
  find_key-without name d t s es store i other h = elim (Bool-cases (d == store.farm)) [
    | inl farm ↦ ground (arith, eq_iff farm_key_name name, eq_iff name farm_key_name)
    | inr named ↦
        elim (Option-cases (first (λ j. d == j.0) (map held (without fullmatch sha256 name es)))) [
          | inl nobody ↦ absurd (cc (rw (named, nobody) at h))
          | inr (k, found) ↦
              let same : k.1 ≡ i = cc (rw (named, found) at h) in
              subst (λ j. (j.name == name) ≡ false) same (first-without name d es k found)
        ]
  ]

  -- What a key that was revoked did to the file.
  record IsRevoked (disk disk' : Disk) (name : String) (stat : Stat) (store store' : KeyStore)
      : Type 0 where
    before : List Entry
    there : store.has_file ≡ true
    not_farm : (name == farm_key_name) ≡ false
    load : load_keys fullmatch sha256 disk ≡ ok before
    file : disk' ≡ written fullmatch sha256 stat (without fullmatch sha256 name before)
    same : store' ≡ record store { stamp = reload }

  revoke-IsRevoked :
      (disk disk' : Disk) (name : String) (stat : Stat) (store store' : KeyStore)
      → revoke fullmatch sha256 disk name stat store ≡ ok (true, disk', store')
      → IsRevoked disk disk' name stat store store'
  unfolding revoke
  revoke-IsRevoked disk disk' name stat store store' h =
      elim (Bool-cases (not store.has_file || name == farm_key_name)) [
        | inl nothing ↦ absurd (cc (rw nothing at h))
        | inr goes ↦
            let (es, load, h) = >>=-eq-ok (load_keys fullmatch sha256 disk) _ (rw goes at h) in
            elim (Bool-cases (eqb (length (without fullmatch sha256 name es)) (length es))) [
              | inl none_such ↦ absurd (cc (rw none_such at h))
              | inr some_such ↦
                  let done : (
                    true,
                    written fullmatch sha256 stat (without fullmatch sha256 name es),
                    record store { stamp = reload },
                  )
                      ≡ (true, disk', store') =
                    ok-inj (rw some_such at h) in
                  record {
                    before = es;
                    there = ground arith;
                    not_farm = ground arith;
                    load = load;
                    file = sym (ap (λ p. p.1) done);
                    same = sym (ap (λ p. p.2) done);
                  }
            ]
      ]

  -- Once a named key is revoked, nobody is that caller: whatever key is presented to the store, the
  -- one that it named and another with the same name included.
  pub revoke-identify :
      (disk disk' : Disk) (name : String) (t s : ℕ) (store store' : KeyStore) (key : String)
      (i : Identity)
      → revoke fullmatch sha256 disk name (stamped t s) store ≡ ok (true, disk', store')
      → (key == "") ≡ false
      → (identify fullmatch sha256 disk' (some key) store').0 ≡ some i
      → (i.name == name) ≡ false
  revoke-identify disk disk' name t s store store' key i h nonempty who =
      let gone_now = revoke-IsRevoked disk disk' name (stamped t s) store store' h in
      let left = without fullmatch sha256 name gone_now.before in
      let checked =
        filter-IsChecked name gone_now.before [] [] [] [] (λ k f. f) (λ k f. f)
          (load_keys-IsChecked fullmatch sha256 disk gone_now.before gone_now.load) in
      find_key-without name (sha256 key) t s gone_now.before store i gone_now.not_farm (
        sym (find_key-written fullmatch sha256 t s left store (sha256 key) gone_now.there checked)
        ∙ sym (
            ap₂ (λ d k. find_key fullmatch sha256 (sha256 key) (refresh fullmatch sha256 d k))
              gone_now.file gone_now.same)
        ∙ sym (identify-some fullmatch sha256 disk' key store' nonempty)
        ∙ who)

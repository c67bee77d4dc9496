-- ===== src/Access/Keys/Parsed.antt =====
-- What is true of a list of entries that was read.
use esp32_rig.Base.{
  String, Bool, true, false, ◌≡◌, refl, subst, Option, none, some, List, [], ◌∷◌, arith, contains,
  ok, >>=-eq-ok, ok-inj, ◌==◌,
}
use esp32_rig.Access.Keys.{
  Entry, Node, mapping, other, Document, empty, keys, keys_no_list, not_a_mapping, farm_key_name,
  roles, name_pattern, digest_pattern, check_name, check_role, check_digest, check_entry,
  parse_entries, parse_keys, raw, raws,
}

module _ (fullmatch : String → String → Bool) where
  -- A name and a role that a key may have, and a digest; neither the name nor the digest stands in
  -- these.
  pub record IsFresh (e : Entry) (names digests : List String) : Type 0 where
    pub named : fullmatch name_pattern e.name ≡ true
    pub not_farm : (e.name == farm_key_name) ≡ false
    pub role : contains e.role roles ≡ true
    pub digest : fullmatch digest_pattern e.sha256 ≡ true
    pub new_name : contains e.name names ≡ false
    pub new_digest : contains e.sha256 digests ≡ false

  -- Each is fresh after those before it.
  abbrev pub IsChecked : List Entry → List String → List String → Type 0
  IsChecked [] names digests = Unit {0}
  IsChecked (e ∷ es) names digests =
      IsFresh e names digests × IsChecked es (e.name ∷ names) (e.sha256 ∷ digests)

  check_name-ok :
      (o : Option String) {name : String}
      → check_name fullmatch o ≡ ok name
      → (fullmatch name_pattern name ≡ true) × ((name == farm_key_name) ≡ false)
  unfolding check_name
  check_name-ok none h = absurd (cc)
  check_name-ok (some n) h = ground arith

  check_role-ok :
      (o : Option String) {role : String}
      → check_role fullmatch o ≡ ok role
      → contains role roles ≡ true
  unfolding check_role
  check_role-ok none h = absurd (cc)
  check_role-ok (some r) h = ground arith

  check_digest-ok :
      (o : Option String) {sha : String}
      → check_digest fullmatch o ≡ ok sha
      → fullmatch digest_pattern sha ≡ true
  unfolding check_digest
  check_digest-ok none h = absurd (cc)
  check_digest-ok (some s) h = ground arith

  check_entry-IsFresh :
      (n : Node) (names digests : List String) {e : Entry}
      → check_entry fullmatch n names digests ≡ ok e
      → IsFresh e names digests
  unfolding check_entry
  check_entry-IsFresh other names digests h = absurd (cc)
  check_entry-IsFresh (mapping r) names digests h =
      let (name, n, h) = >>=-eq-ok (check_name fullmatch r.name) _ h in
      let (role, o, h) = >>=-eq-ok (check_role fullmatch r.role) _ h in
      let (sha, d, h) = >>=-eq-ok (check_digest fullmatch r.sha256) _ h in
      ground (arith, check_name-ok r.name n, check_role-ok r.role o, check_digest-ok r.sha256 d)

  pub parse_entries-IsChecked :
      (ns : List Node) (names digests : List String) {es : List Entry}
      → parse_entries fullmatch ns names digests ≡ ok es
      → IsChecked es names digests
  unfolding parse_entries
  parse_entries-IsChecked [] names digests {es} h =
      subst (λ l. IsChecked l names digests) (ok-inj h) tt
  parse_entries-IsChecked (n ∷ ns) names digests {es} h =
      let (e, one, h) = >>=-eq-ok (check_entry fullmatch n names digests) _ h in
      let (rest, more, h) =
        >>=-eq-ok (parse_entries fullmatch ns (e.name ∷ names) (e.sha256 ∷ digests)) _ h in
      subst (λ l. IsChecked l names digests) (ok-inj h)
        (
          check_entry-IsFresh n names digests one,
          parse_entries-IsChecked ns (e.name ∷ names) (e.sha256 ∷ digests) more,
        )

  pub check_entry-raw :
      (e : Entry) (names digests : List String)
      → IsFresh e names digests
      → check_entry fullmatch (raw e) names digests ≡ ok e
  unfolding check_entry check_name check_role check_digest
  check_entry-raw e names digests h =
      rw (h.named, h.not_farm, h.role, h.digest, h.new_name, h.new_digest) refl

  pub parse_entries-raws :
      (es : List Entry) (names digests : List String)
      → IsChecked es names digests
      → parse_entries fullmatch (raws es) names digests ≡ ok es
  unfolding parse_entries
  parse_entries-raws [] names digests h = refl
  parse_entries-raws (e ∷ es) names digests h =
      rw
        (
          check_entry-raw e names digests h.0,
          parse_entries-raws es (e.name ∷ names) (e.sha256 ∷ digests) h.1,
        )
        refl

  parsed : (d : Document) (es : List Entry) → parse_keys fullmatch d ≡ ok es → IsChecked es [] []
  unfolding parse_keys
  parsed empty es h = subst (λ l. IsChecked l [] []) (ok-inj h) tt
  parsed not_a_mapping es h = absurd (cc)
  parsed keys_no_list es h = absurd (cc)
  parsed (keys ns) es h = parse_entries-IsChecked ns [] [] h

  -- A document that is read gives entries whose names and digests are all different, none of them
  -- the farm's own name; and what is written of the entries reads as the same entries.
  pub parse_keys-IsChecked :
      (d : Document) (es : List Entry)
      → parse_keys fullmatch d ≡ ok es
      → IsChecked es [] [] × (parse_keys fullmatch (keys (raws es)) ≡ ok es)
  unfolding parse_keys
  parse_keys-IsChecked d es h =
      let checked = parsed d es h in (checked, parse_entries-raws es [] [] checked)

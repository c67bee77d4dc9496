-- ===== src/Access/Keys/Appended.antt =====
-- The entries of a keys file with one more.
use esp32_rig.Base.{
  String, Bool, true, false, ◌≡◌, refl, sym, ap, ◌∙◌, Option, none, some, List, [], ◌∷◌, ◌++◌, map,
  arith, any, first, contains, ok, >>=-eq-ok, ok-inj, eq_iff, ◌==◌,
}
use esp32_rig.Access.Keys.{
  Entry, RawEntry, mapping, check_name, check_role, check_digest, check_entry, parse_entries, raws,
}
use esp32_rig.Access.Keys.Parsed.{IsChecked, check_entry-raw}
use esp32_rig.Access.KeyStore.{held}

module _ (fullmatch : String → String → Bool) where
  -- What an entry takes from the mapping that it was read of.
  pub record IsReadOf (r : RawEntry) (e : Entry) : Type 0 where
    pub name : r.name ≡ some e.name
    pub role : r.role ≡ some e.role
    pub sha256 : r.sha256 ≡ some e.sha256

  check_name-same :
      (o : Option String) {name : String} → check_name fullmatch o ≡ ok name → o ≡ some name
  unfolding check_name
  check_name-same none h = absurd (cc)
  check_name-same (some n) h = ground arith

  check_role-same :
      (o : Option String) {role : String} → check_role fullmatch o ≡ ok role → o ≡ some role
  unfolding check_role
  check_role-same none h = absurd (cc)
  check_role-same (some n) h = ground arith

  check_digest-same :
      (o : Option String) {sha : String} → check_digest fullmatch o ≡ ok sha → o ≡ some sha
  unfolding check_digest
  check_digest-same none h = absurd (cc)
  check_digest-same (some n) h = ground arith

  check_entry-IsReadOf :
      (r : RawEntry) (names digests : List String) {e : Entry}
      → check_entry fullmatch (mapping r) names digests ≡ ok e
      → IsReadOf r e × (contains e.sha256 digests ≡ false)
  unfolding check_entry
  check_entry-IsReadOf r names digests h =
      let (name, n, h) = >>=-eq-ok (check_name fullmatch r.name) _ h in
      let (role, o, h) = >>=-eq-ok (check_role fullmatch r.role) _ h in
      let (sha, d, h) = >>=-eq-ok (check_digest fullmatch r.sha256) _ h in
      ground
        (arith, check_name-same r.name n, check_role-same r.role o, check_digest-same r.sha256 d)

  -- An entry that is added comes last, with a digest that none of the others has.
  pub appended :
      (es : List Entry) (r : RawEntry) (names digests : List String) {out : List Entry}
      → IsChecked fullmatch es names digests
      → parse_entries fullmatch (raws es ++ mapping r ∷ []) names digests ≡ ok out
      → (e : Entry) × (out ≡ es ++ e ∷ [])
        × IsReadOf r e
        × (any (λ x. e.sha256 == x.sha256) es ≡ false)
        × (contains e.sha256 digests ≡ false)
  unfolding parse_entries
  appended [] r names digests c h =
      let (e, one, h) = >>=-eq-ok (check_entry fullmatch (mapping r) names digests) _ h in
      let (read, new) = check_entry-IsReadOf r names digests one in
      (e, sym (ok-inj h), read, refl, new)
  appended (x ∷ es) r names digests c h =
      let h = rw (check_entry-raw fullmatch x names digests c.0) at h in
      let (rest, more, h) =
        >>=-eq-ok
          (parse_entries fullmatch (raws es ++ mapping r ∷ []) (x.name ∷ names)
            (x.sha256 ∷ digests))
          _ h in
      let (e, same, read, away, new) =
        appended es r (x.name ∷ names) (x.sha256 ∷ digests) c.1 more in
      (
        e,
        sym (ok-inj h) ∙ ap (λ l. x ∷ l) same,
        read,
        ground (arith, eq_iff x.sha256 e.sha256, eq_iff e.sha256 x.sha256),
        ground arith,
      )

pub first-last :
    (d : String) (es : List Entry) (e : Entry)
    → any (λ x. d == x.sha256) es ≡ false
    → (d == e.sha256) ≡ true
    → first (λ k. d == k.0) (map held (es ++ e ∷ [])) ≡ some (held e)
first-last d [] e away hit = ground arith
first-last d (x ∷ es) e away hit = ground (arith, first-last d es e)

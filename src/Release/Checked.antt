-- ===== src/Release/Checked.antt =====
-- What a document that was read and checked says.
use esp32_rig.Base.{
  ℕ, String, Bool, true, not, ◌≡◌, subst, Option, none, some, List, [], ◌∷◌, arith, All, All-append,
  ok, refuse, >>=-eq-ok, ok-inj, Bool-cases, Option-cases, inl, inr,
}
use esp32_rig.Release.{
  Body, no_json, no_document, document, Document, RawFile, Part, mapping, other, FirmwareField,
  absent, no_mapping, empty, carries, Manifest, File, entries, is_schema, is_other, check_file,
  check_part, check_parts, check_carried, check_firmware, is_no_mapping, parts_of, parse_document,
  parse_manifest, is_described, check_files,
}

module _ (is_release_file : String → Bool) where
  -- A file with a name that a release may have.
  abbrev pub IsNamed : File → Type 0
  IsNamed f = is_release_file f.name ≡ true

  check_file-IsNamed : (r : RawFile) {f : File} → check_file is_release_file r ≡ ok f → IsNamed f
  unfolding check_file
  check_file-IsNamed r h = ground arith

  check_part-IsNamed : (p : Part) {f : File} → check_part is_release_file p ≡ ok f → IsNamed f
  unfolding check_part
  check_part-IsNamed other h = absurd (cc)
  check_part-IsNamed (mapping r) h = check_file-IsNamed r h

  check_parts-IsNamed :
      (ps : List Part) {fs : List File} → check_parts is_release_file ps ≡ ok fs → All IsNamed fs
  unfolding check_parts
  check_parts-IsNamed [] h = subst (All IsNamed) (ok-inj h) tt
  check_parts-IsNamed (p ∷ ps) h =
      let (f, one, h) = >>=-eq-ok (check_part is_release_file p) _ h in
      let (fs, more, h) = >>=-eq-ok (check_parts is_release_file ps) _ h in
      subst (All IsNamed) (ok-inj h) (check_part-IsNamed p one, check_parts-IsNamed ps more)

  abbrev option_list : Option File → List File
  option_list o = elim o [ none ↦ [] | some f ↦ f ∷ [] ]

  check_carried-IsNamed :
      (field : FirmwareField) {o : Option File}
      → check_carried is_release_file field ≡ ok o
      → All IsNamed (option_list o)
  unfolding check_carried
  check_carried-IsNamed absent h = subst (λ o. All IsNamed (option_list o)) (ok-inj h) tt
  check_carried-IsNamed no_mapping h = subst (λ o. All IsNamed (option_list o)) (ok-inj h) tt
  check_carried-IsNamed empty h = subst (λ o. All IsNamed (option_list o)) (ok-inj h) tt
  check_carried-IsNamed (carries f) h =
      let (file, one, h) = >>=-eq-ok (check_file is_release_file f.file) _ h in
      subst (λ o. All IsNamed (option_list o)) (ok-inj h) (check_file-IsNamed f.file one, tt)

  parse_document-IsNamed :
      (d : Document) (commit : Option String) (m : Manifest)
      → parse_document is_release_file d commit ≡ ok m
      → All IsNamed (entries m)
  unfolding parse_document entries
  parse_document-IsNamed d commit m h =
      let (_, schema, h) = >>=-eq-ok (refuse (not (is_schema d.schema)) _) _ h in
      let (_, same, h) = >>=-eq-ok (refuse (is_other commit d.commit) _) _ h in
      let (parts, there, h) = >>=-eq-ok (parts_of is_release_file d) _ h in
      let (_, mapped, h) = >>=-eq-ok (refuse (is_no_mapping is_release_file d.firmware) _) _ h in
      let (packages, ps, h) = >>=-eq-ok (check_parts is_release_file parts.0) _ h in
      let (dashboard, one, h) = >>=-eq-ok (check_file is_release_file parts.1) _ h in
      let (carried, f, h) = >>=-eq-ok (check_carried is_release_file d.firmware) _ h in
      let (_, versioned, h) = >>=-eq-ok (check_firmware d.firmware) _ h in
      subst (λ m. All IsNamed (entries m)) (ok-inj h)
        (All-append IsNamed packages (dashboard ∷ option_list carried)
          (check_parts-IsNamed parts.0 ps)
          (check_file-IsNamed parts.1 one, check_carried-IsNamed d.firmware f))

  pub parse_manifest-IsNamed :
      (body : Body) (commit : Option String) (m : Manifest)
      → parse_manifest is_release_file body commit ≡ ok m
      → All IsNamed (entries m)
  unfolding parse_manifest
  parse_manifest-IsNamed no_json commit m h = absurd (cc)
  parse_manifest-IsNamed no_document commit m h = absurd (cc)
  parse_manifest-IsNamed (document d) commit m h = parse_document-IsNamed d commit m h

module _ (size_of : String → ℕ) (sha256_of : String → String) where
  -- What is read under the name of a file is what its entry says.
  abbrev pub IsRead : (String → Option String) → File → Type 0
  IsRead read f =
      (content : String) × (read f.name ≡ some content)
      × (is_described size_of sha256_of f content ≡ true)

  pub check_files-IsRead :
      (fs : List File) (read : String → Option String)
      → check_files size_of sha256_of fs read ≡ ok tt
      → All (IsRead read) fs
  unfolding check_files
  check_files-IsRead [] read h = tt
  check_files-IsRead (f ∷ fs) read h = elim (Option-cases (read f.name)) [
    | inl nothing ↦ absurd (cc (rw (nothing, check_files) at h))
    | inr (content, there) ↦ elim (Bool-cases (is_described size_of sha256_of f content)) [
      | inl right ↦ (
        (content, there, right),
        check_files-IsRead fs read (rw right at (rw (there, check_files) at h)),
      )
      | inr wrong ↦ absurd (cc (rw wrong at (rw (there, check_files) at h)))
    ]
  ]

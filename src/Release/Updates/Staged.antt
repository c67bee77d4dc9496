-- ===== src/Release/Updates/Staged.antt =====
-- What stands beside a request to install.
use esp32_rig.Base.{
  ℕ, String, Bool, ◌≡◌, refl, sym, subst, ◌∙◌, Option, none, some, List, [], ◌∷◌, lookup, All,
  Result, ok, err, Result-cases, Option-cases, inl, inr,
}
use esp32_rig.Release.{Body, Manifest, File, entries, parse_manifest, check_files, check}
use esp32_rig.Release.Updates.{
  Update, Request, UpdateError, refused, unusable, no_release_document, download_failed, Available,
  dir_of, write_file, write_status, version_of, fetch_files, hand_over, stage_manifest, stage,
}
use esp32_rig.Release.Checked.{IsNamed, parse_manifest-IsNamed, IsRead, check_files-IsRead}

module _ (is_release_file : String → Bool) (size_of : String → ℕ) (sha256_of : String → String)
    (fetch : String → Option String) (parse_json : String → Body)
    (printed : Manifest → String) where
  -- A request for the release of a document, beside the files of that release: each is there under a
  -- name that a release may have, and is what the document says.
  pub record IsRequestOf (m : Manifest) (v : String) (u : Update) (r : Request) : Type 0 where
    pub is_of : r ≡ record { version = some v; commit = m.commit }
    pub left : u.request ≡ some r
    pub named : All (IsNamed is_release_file) (entries m)
    pub files : All (IsRead size_of sha256_of (λ name. lookup name (dir_of v u))) (entries m)

  -- The same of the document that was fetched.
  pub record IsRequest (available : Available) (u : Update) (r : Request) : Type 0 where
    pub url : String
    pub body : String
    pub manifest : Manifest
    pub listed : lookup "release.json" available.assets ≡ some url
    pub fetched : fetch url ≡ some body
    pub read : parse_manifest is_release_file (parse_json body) none ≡ ok manifest
    pub request : IsRequestOf manifest (version_of manifest available) u r

  -- A new request, or the one that was there before.
  abbrev IsHandedOverOf : Manifest → String → Update → Update × Result UpdateError Request → Type 0
  IsHandedOverOf m v u (u', ok r) = IsRequestOf m v u' r
  IsHandedOverOf m v u (u', err e) = u'.request ≡ u.request

  abbrev pub IsHandedOver : Available → Update → Update × Result UpdateError Request → Type 0
  IsHandedOver available u (u', ok r) = IsRequest available u' r
  IsHandedOver available u (u', err e) = u'.request ≡ u.request

  fetch_files-request :
      (fs : List File) (v : String) (commit : Option String) (assets : List (String × String))
      (u : Update)
      → (fetch_files is_release_file size_of sha256_of fetch parse_json printed fs v commit assets
          u).0.request
        ≡ u.request
  unfolding fetch_files
  fetch_files-request [] v commit assets u = refl
  fetch_files-request (f ∷ fs) v commit assets u = elim (Option-cases (lookup f.name assets)) [
    | inl absent_one ↦ rw (absent_one, fetch_files) refl
    | inr (url, there) ↦ elim (Option-cases (fetch url)) [
      | inl failed ↦ rw (there, fetch_files, failed) refl
      | inr (content, got) ↦
          rw (there, fetch_files, got)
            (fetch_files-request fs v commit assets
              (write_file v f.name content (write_status "downloading" (some v) commit u)))
    ]
  ]

  abbrev Staged : Type 0
  Staged = Update × Result UpdateError Request

  hand_over-IsHandedOver :
      (m : Manifest) (v : String) (u : Update)
      → All (IsNamed is_release_file) (entries m)
      → IsHandedOverOf m v u
          (hand_over is_release_file size_of sha256_of fetch parse_json printed m v u)
  unfolding hand_over check
  hand_over-IsHandedOver m v u named =
      let handed = hand_over is_release_file size_of sha256_of fetch parse_json printed m v u in
      let r : Request = record { version = some v; commit = m.commit } in
      elim (Result-cases
        (check_files size_of sha256_of (entries m) (λ name. lookup name (dir_of v u)))) [
          | inl (_, fine) ↦
              let done : handed ≡ (
                record (write_status "staged" (some v) m.commit u) { request = some r },
                ok r,
              ) =
                rw (fine, hand_over) refl in
              subst (IsHandedOverOf m v u) (sym done) (record {
                is_of = refl;
                left = refl;
                named = named;
                files =
                    check_files-IsRead size_of sha256_of (entries m)
                      (λ name. lookup name (dir_of v u)) fine;
              })
          | inr (e, bad) ↦
              let stopped : handed ≡ (u, err (refused e)) = rw (bad, hand_over) refl in
              subst (IsHandedOverOf m v u) (sym stopped) refl
        ]

  IsHandedOverOf-after :
      (m : Manifest) (v : String) (u u' : Update) (r : Update × Result UpdateError Request)
      → u'.request ≡ u.request
      → IsHandedOverOf m v u' r
      → IsHandedOverOf m v u r
  IsHandedOverOf-after m v u u' (u'', ok r) same h = h
  IsHandedOverOf-after m v u u' (u'', err e) same h = h ∙ same

  stage_manifest-IsHandedOver :
      (m : Manifest) (available : Available) (u : Update)
      → All (IsNamed is_release_file) (entries m)
      → IsHandedOverOf m
          (version_of m available)
          u
          (stage_manifest is_release_file size_of sha256_of fetch parse_json printed m available u)
  unfolding stage_manifest
  stage_manifest-IsHandedOver m available u named =
      let v = version_of m available in
      let u1 = write_file v "release.json" (printed m) u in
      let got =
        fetch_files is_release_file size_of sha256_of fetch parse_json printed (entries m) v
          m.commit available.assets u1 in
      let same : got.0.request ≡ u.request =
        fetch_files-request (entries m) v m.commit available.assets u1 in
      let staged =
        stage_manifest is_release_file size_of sha256_of fetch parse_json printed m available u in
      elim (Result-cases got.1) [
        | inl (_, fetched) ↦
            let handed =
              hand_over is_release_file size_of sha256_of fetch parse_json printed m v got.0 in
            let goes_on : staged ≡ handed = rw (fetched, stage_manifest) refl in
            subst (IsHandedOverOf m v u) (sym goes_on) (
              IsHandedOverOf-after m v u got.0 handed same (hand_over-IsHandedOver m v got.0 named))
        | inr (e, failed) ↦
            let stopped : staged ≡ (got.0, err e) = rw (failed, stage_manifest) refl in
            subst (IsHandedOverOf m v u) (sym stopped) same
      ]

  IsHandedOver-of :
      (url body : String) (m : Manifest) (available : Available) (u u' : Update)
      (r : Update × Result UpdateError Request)
      → lookup "release.json" available.assets ≡ some url
      → fetch url ≡ some body
      → parse_manifest is_release_file (parse_json body) none ≡ ok m
      → u'.request ≡ u.request
      → IsHandedOverOf m (version_of m available) u' r
      → IsHandedOver available u r
  IsHandedOver-of url body m available u u' (u'', ok r) listed fetched read same h = record {
    url = url;
    body = body;
    manifest = m;
    listed = listed;
    fetched = fetched;
    read = read;
    request = h;
  }
  IsHandedOver-of url body m available u u' (u'', err e) listed fetched read same h = h ∙ same

  -- A release is handed to the unit that installs it only if its document was fetched and read, and
  -- every file that this document names has a name that a release may have and is in the release's
  -- directory with the size and the digest that the document gives; the request has the version and
  -- the commit of this document. On every error the request that stood there before, if there
  -- was one, is left as it was.
  pub stage-IsHandedOver :
      (available : Available) (u : Update)
      → IsHandedOver available u
          (stage is_release_file size_of sha256_of fetch parse_json printed available u)
  unfolding stage
  stage-IsHandedOver available u =
      let u' = write_status "downloading" available.version none u in
      let staged = stage is_release_file size_of sha256_of fetch parse_json printed available u in
      elim (Option-cases (lookup "release.json" available.assets)) [
        | inl no_url ↦
            let stopped : staged ≡ (u, err no_release_document) = rw (no_url, stage) refl in
            subst (IsHandedOver available u) (sym stopped) refl
        | inr (url, there) ↦ elim (Option-cases (fetch url)) [
          | inl failed ↦
              let stopped : staged ≡ (u', err download_failed) = rw (there, stage, failed) refl in
              subst (IsHandedOver available u) (sym stopped) refl
          | inr (body, got) ↦
              elim (Result-cases (parse_manifest is_release_file (parse_json body) none)) [
                | inl (m, good) ↦
                    let next =
                      stage_manifest is_release_file size_of sha256_of fetch parse_json printed m
                        available u' in
                    let goes_on : staged ≡ next = rw (there, stage, got, good) refl in
                    subst (IsHandedOver available u) (sym goes_on) (
                      IsHandedOver-of url body m available u u' next there got good refl (
                        stage_manifest-IsHandedOver m available u'
                          (parse_manifest-IsNamed is_release_file (parse_json body) none m good)))
                | inr (e, bad) ↦
                    let stopped : staged ≡ (u', err (unusable e)) =
                      rw (there, stage, got, bad) refl in
                    subst (IsHandedOver available u) (sym stopped) refl
              ]
        ]
      ]

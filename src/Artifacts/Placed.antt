-- ===== src/Artifacts/Placed.antt =====
-- What is there once a bundle has been unpacked.
use esp32_rig.Base.{
  ℕ, ◌≡◌, refl, ap, ap₂, subst, ◌∙◌, false, Option, none, some, List, [], ◌∷◌, ◌++◌, arith, length,
  eqb, Result, ok, err, All, inl, inr, Bool-cases,
}
use esp32_rig.Artifacts.{
  Name, parts_of, Kind, file, directory, other, Member, BundleError, Step, make_directory,
  write_file, check_members, tail, place_kind, beside, place, after_step, place_all, limit_of,
  place_under, extract_bundle, is_nil, is_other,
}
use esp32_rig.Artifacts.Inside.{IsFine, check_members-IsFine}

-- The files that the steps write, in their order.
abbrev pub files_of : List Step → List (List Name × List ℕ)
files_of [] = []
files_of (make_directory path ∷ rest) = files_of rest
files_of (write_file path content ∷ rest) = (path, content) ∷ files_of rest

-- A file's place and content, of an entry that is one.
abbrev pub file_of : List Name → Kind → Option (List ℕ) → List (List Name × List ℕ)
file_of path file (some content) = (path, content) ∷ []
file_of path _ _ = []

-- The archive's files, each below the destination without its top directory.
abbrev pub files_in : List Name → List Member → List (List Name × List ℕ)
files_in destination [] = []
files_in destination (m ∷ rest) =
    file_of (destination ++ tail (parts_of m.name)) m.kind m.content ++ files_in destination rest

files_of-append : (xs ys : List Step) → files_of (xs ++ ys) ≡ files_of xs ++ files_of ys
files_of-append [] ys = refl
files_of-append (make_directory path ∷ xs) ys = files_of-append xs ys
files_of-append (write_file path content ∷ xs) ys =
    ap (λ files. (path, content) ∷ files) (files_of-append xs ys)

kind-files :
    (destination below : List Name) (kind : Kind) (content : Option (List ℕ))
    → is_other kind ≡ false
    → (place_kind destination below kind content).1 ≡ none
    → files_of (place_kind destination below kind content).0
      ≡ file_of (destination ++ below) kind content
kind-files destination below file none r e = absurd (cc)
kind-files destination below file (some content) r e = refl
kind-files destination below directory content r e = refl
kind-files destination below other content r e = absurd (cc)

beside-files :
    (path : List Name) (kind : Kind) (content : Option (List ℕ))
    → is_other kind ≡ false
    → (beside kind).1 ≡ none
    → files_of (beside kind).0 ≡ file_of path kind content
beside-files path file content r e = absurd (cc)
beside-files path directory content r e = refl
beside-files path other content r e = absurd (cc)

place-files :
    (destination : List Name) (m : Member)
    → is_other m.kind ≡ false
    → (place destination m).1 ≡ none
    → files_of (place destination m).0
      ≡ file_of (destination ++ tail (parts_of m.name)) m.kind m.content
unfolding place
place-files destination m r e =
    let path = destination ++ tail (parts_of m.name) in
    elim (Bool-cases (eqb (length (parts_of m.name)) 1)) [
      | inl one ↦
          let same : beside m.kind ≡ place destination m = rw one refl in
          subst (λ p. p.1 ≡ none → files_of p.0 ≡ file_of path m.kind m.content) same
            (beside-files path m.kind m.content r) e
      | inr more ↦
          let same : place_kind destination (tail (parts_of m.name)) m.kind m.content
              ≡ place destination m =
            rw more refl in
          subst (λ p. p.1 ≡ none → files_of p.0 ≡ file_of path m.kind m.content) same
            (kind-files destination (tail (parts_of m.name)) m.kind m.content r) e
    ]

after_step-files :
    (first rest : List Step × Option BundleError)
    → (after_step first rest).1 ≡ none
    → (first.1 ≡ none)
      × (rest.1 ≡ none)
      × (files_of (after_step first rest).0 ≡ files_of first.0 ++ files_of rest.0)
after_step-files (steps, some e) rest h = absurd (cc)
after_step-files (steps, none) rest h = (refl, h, files_of-append steps rest.0)

place_all-files :
    (destination : List Name) (members : List Member)
    → All IsFine members
    → (place_all destination members).1 ≡ none
    → files_of (place_all destination members).0 ≡ files_in destination members
unfolding place_all
place_all-files destination [] fine e = refl
place_all-files destination (m ∷ rest) fine e =
    let (one, more, both) = after_step-files (place destination m) (place_all destination rest) e in
    both
    ∙ ap₂ (λ xs ys. xs ++ ys) (place-files destination m fine.0.2 one)
        (place_all-files destination rest fine.1 more)

under-files :
    (members : List Member) (destination : List Name) (limit : ℕ)
    (r : Result BundleError (List Name))
    → check_members limit members [] 0 ≡ r
    → (place_under destination members r).1 ≡ none
    → files_of (place_under destination members r).0 ≡ files_in destination members
under-files members destination limit (err e) checked h = absurd (cc)
under-files members destination limit (ok tops) checked h =
    let fine = (check_members-IsFine limit members [] tops 0 (omega arith) checked).0 in
    elim (Bool-cases (eqb (length tops) 1)) [
      | inr several ↦ absurd (ground arith)
      | inl single ↦
          let same : after_step (make_directory destination ∷ [], none)
                (place_all destination members)
              ≡ place_under destination members (ok tops) =
            rw single refl in
          subst (λ p. p.1 ≡ none → files_of p.0 ≡ files_in destination members) same
            (place_all-files destination members fine) h
    ]

-- An extraction that raises nothing has written exactly the files of the archive, in its order, each
-- with its content and below the destination at its name without the top directory.
pub extract_bundle-files :
    (members : List Member) (destination : List Name) (limit : Option ℕ)
    → (extract_bundle members destination limit).1 ≡ none
    → files_of (extract_bundle members destination limit).0 ≡ files_in destination members
unfolding extract_bundle
extract_bundle-files members destination limit e = elim (Bool-cases (is_nil members)) [
  | inl nothing ↦ absurd (ground arith)
  | inr some_member ↦
      let under = place_under destination members (check_members (limit_of limit) members [] 0) in
      let same : under ≡ extract_bundle members destination limit =
        rw (extract_bundle, some_member) refl in
      subst (λ p. p.1 ≡ none → files_of p.0 ≡ files_in destination members) same
        (under-files members destination (limit_of limit) _ refl) e
]

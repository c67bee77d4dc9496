-- ===== src/Artifacts/Contained.antt =====
-- How much an unpacked bundle writes, and that it stays below its destination.
use esp32_rig.Base.{
  ℕ, ◌+◌, ◌≤◌, ◌≡◌, refl, sym, Option, none, some, List, [], ◌∷◌, ◌++◌, arith, length, eqb, Result,
  ok, err, All, inl, inr, Bool-cases,
}
use mathlib.Core.List.{append-nil}
use esp32_rig.Artifacts.{
  Name, parts_of, Kind, file, directory, other, Member, BundleError, Step, make_directory,
  write_file, check_members, tail, write_content, place_kind, beside, place, after_step, place_all,
  limit_of, place_under, extract_bundle, is_nil,
}
use esp32_rig.Artifacts.Inside.{IsInside, sizes, check_members-IsFine, place_all-IsInside}

-- The bytes that the steps write.
abbrev pub written : List Step → ℕ
written [] = 0
written (make_directory path ∷ rest) = written rest
written (write_file path content ∷ rest) = length content + written rest

-- `extractfile` reads no more than the size that the archive gives.
abbrev pub content_size : Option (List ℕ) → ℕ
content_size none = 0
content_size (some content) = length content

abbrev pub HasSize : Member → Type 0
HasSize m = content_size m.content ≤ m.size

written-append : (xs ys : List Step) → written (xs ++ ys) ≡ written xs + written ys
written-append [] ys = omega arith
written-append (make_directory path ∷ xs) ys = written-append xs ys
written-append (write_file path content ∷ xs) ys = omega (arith, written-append xs ys)

after_step-written :
    (first rest : List Step × Option BundleError)
    → written (after_step first rest).0 ≤ written first.0 + written rest.0
after_step-written (steps, some e) rest = omega arith
after_step-written (steps, none) rest = omega (arith, written-append steps rest.0)

content-written :
    (folder target : List Name) (content : Option (List ℕ))
    → written (write_content folder target content).0 ≤ content_size content
content-written folder target none = omega arith
content-written folder target (some content) = omega arith

kind-written :
    (destination below : List Name) (kind : Kind) (content : Option (List ℕ))
    → written (place_kind destination below kind content).0 ≤ content_size content
kind-written destination below file content = content-written _ _ content
kind-written destination below other content = content-written _ _ content
kind-written destination below directory content = omega arith

beside-written : (kind : Kind) → written (beside kind).0 ≡ 0
beside-written file = refl
beside-written directory = refl
beside-written other = refl

place-written :
    (destination : List Name) (m : Member)
    → written (place destination m).0 ≤ content_size m.content
unfolding place
place-written destination m = elim (Bool-cases (eqb (length (parts_of m.name)) 1)) [
  | inl one ↦ rw one (omega (arith, beside-written m.kind))
  | inr more ↦ rw more (kind-written destination (tail (parts_of m.name)) m.kind m.content)
]

place_all-written :
    (destination : List Name) (members : List Member)
    → All HasSize members
    → written (place_all destination members).0 ≤ sizes members
unfolding place_all
place_all-written destination [] h = omega arith
place_all-written destination (m ∷ rest) h = omega (
  arith,
  after_step-written (place destination m) (place_all destination rest),
  place-written destination m,
  h.0,
  place_all-written destination rest h.1,
)

under-IsContained :
    (members : List Member) (destination : List Name) (limit : ℕ)
    (r : Result BundleError (List Name))
    → check_members limit members [] 0 ≡ r
    → All HasSize members
    → All (IsInside destination) (place_under destination members r).0
      × (written (place_under destination members r).0 ≤ limit)
under-IsContained members destination limit (err e) checked sized = (tt, omega arith)
under-IsContained members destination limit (ok tops) checked sized =
    let (fine, room) = check_members-IsFine limit members [] tops 0 (omega arith) checked in
    elim (Bool-cases (eqb (length tops) 1)) [
      | inr several ↦ rw several (tt, omega arith)
      | inl single ↦ rw single (
        (([], sym (append-nil destination), tt), place_all-IsInside destination members fine),
        omega (arith, place_all-written destination members sized),
      )
    ]

-- Of an archive where no content is longer than its member's size, whatever it names: each step of
-- the extraction, up to an error or to the end, makes a directory or writes a file at the destination
-- or below it, by names that are not empty, not ".", not ".." and hold no slash; and the bytes written
-- are together at most the limit.
pub extract_bundle-IsContained :
    (members : List Member) (destination : List Name) (limit : Option ℕ)
    → All HasSize members
    → All (IsInside destination) (extract_bundle members destination limit).0
      × (written (extract_bundle members destination limit).0 ≤ limit_of limit)
unfolding extract_bundle
extract_bundle-IsContained members destination limit sized = elim (Bool-cases (is_nil members)) [
  | inl nothing ↦ rw nothing (tt, omega arith)
  | inr some_member ↦
      rw some_member (under-IsContained members destination (limit_of limit) _ refl sized)
]

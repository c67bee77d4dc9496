-- ===== src/Artifacts/Inside.antt =====
-- Where an unpacked bundle writes.
use esp32_rig.Base.{
  ℕ, ◌+◌, ◌≤◌, ◌≡◌, refl, ap, Bool, true, false, ◌||◌, Option, none, some, List, [], ◌∷◌, ◌++◌,
  arith, any, filter, length, eqb, ltb, Result, ok, ◌>>◌, refuse, All, All-append, All-filter_self,
  All-with, inl, inr, Bool-cases,
}
use esp32_rig.Artifacts.{
  Name, prepend, split, slashed, is_part, is_parent, parts_of, starts_with_slash, Kind, file,
  directory, other, Member, BundleError, Step, make_directory, write_file, check_members, tail,
  parent, write_content, place_kind, beside, place, after_step, place_all, is_nil, not_regular,
  outside_itself, too_large, add_first, is_other,
}

-- A name that stays where it is: not empty, not ".", not "..", and without a slash.
abbrev pub IsPlain : Name → Type 0
IsPlain part = (is_part part ≡ true) × (is_parent part ≡ false) × (any (eqb 47) part ≡ false)

-- A path that leads from the directory down.
abbrev pub IsUnder : List Name → List Name → Type 0
IsUnder destination path = (below : List Name) × (path ≡ destination ++ below) × All IsPlain below

abbrev pub IsInside : List Name → Step → Type 0
IsInside destination (make_directory path) = IsUnder destination path
IsInside destination (write_file path content) = IsUnder destination path

abbrev has_slash : Name → Bool
has_slash = any (eqb 47)

prepend-plain :
    (c : ℕ) (parts : List Name)
    → eqb c 47 ≡ false
    → All (λ part. has_slash part ≡ false) parts
    → All (λ part. has_slash part ≡ false) (prepend c parts)
prepend-plain c [] h all = (ground arith, tt)
prepend-plain c (part ∷ parts) h all = (ground (arith, all.0), all.1)

split-plain : (name : Name) → All (λ part. has_slash part ≡ false) (split name)
split-plain [] = (refl, tt)
split-plain (c ∷ cs) = elim (Bool-cases (eqb c 47)) [
  | inl slash ↦ rw slash (refl, split-plain cs)
  | inr more ↦ rw more (prepend-plain c (split cs) more (split-plain cs))
]

no_parent :
    (parts : List Name) → any is_parent parts ≡ false → All (λ part. is_parent part ≡ false) parts
no_parent [] h = tt
no_parent (part ∷ parts) h = (ground arith, no_parent parts (ground arith))

All-both :
    {A : Type 0} (P Q : A → Type 0) (xs : List A) → All P xs → All Q xs → All (λ x. P x × Q x) xs
All-both P Q [] p q = tt
All-both P Q (x ∷ xs) p q = ((p.0, q.0), All-both P Q xs p.1 q.1)

parts_of-IsPlain :
    (name : Name) → any is_parent (parts_of name) ≡ false → All IsPlain (parts_of name)
unfolding parts_of
parts_of-IsPlain name h =
    let whole = split (slashed name) in
    let kept =
      All-filter_self (λ part. has_slash part ≡ false) is_part whole (split-plain (slashed name)) in
    All-with _ IsPlain (filter is_part whole) (λ part both. (both.0.1, both.1, both.0.0))
      (All-both _ _ (filter is_part whole) kept (no_parent (filter is_part whole) h))

-- What the first loop lets through.
abbrev pub IsFine : Member → Type 0
IsFine m =
    All IsPlain (parts_of m.name) × (is_nil (parts_of m.name) ≡ false) × (is_other m.kind ≡ false)

abbrev pub sizes : List Member → ℕ
sizes [] = 0
sizes (m ∷ rest) = m.size + sizes rest

refused-not :
    {B : Type 0} (test : Bool) (e : BundleError) (next : Result BundleError B) (b : B)
    → (do refuse test e; next) ≡ ok b
    → (test ≡ false) × (next ≡ ok b)
refused-not true e next b h = absurd (cc)
refused-not false e next b h = (refl, h)

pub check_members-IsFine :
    (limit : ℕ) (members : List Member) (tops found : List Name) (total : ℕ)
    → total ≤ limit
    → check_members limit members tops total ≡ ok found
    → All IsFine members × (total + sizes members ≤ limit)
unfolding check_members
check_members-IsFine limit [] tops found total h e = (tt, omega arith)
check_members-IsFine limit (m ∷ rest) tops found total h e =
    let outside =
      starts_with_slash (slashed m.name)
      || (any is_parent (parts_of m.name) || is_nil (parts_of m.name)) in
    let (regular, e1) = refused-not (is_other m.kind) not_regular _ found e in
    let (inside, e2) = refused-not outside outside_itself _ found e1 in
    let (small, e3) = refused-not (ltb limit (total + m.size)) too_large _ found e2 in
    let (fine, room) =
      check_members-IsFine limit rest (add_first (parts_of m.name) tops) found (total + m.size)
        (ground arith) e3 in
    (((parts_of-IsPlain m.name (ground arith), ground arith, regular), fine), omega arith)

tail-All : (parts : List Name) → All IsPlain parts → All IsPlain (tail parts)
tail-All [] h = tt
tail-All (part ∷ parts) h = h.1

parent-All : (parts : List Name) → All IsPlain parts → All IsPlain (parent parts)
parent-All [] h = tt
parent-All (part ∷ []) h = tt
parent-All (part ∷ more ∷ parts) h = (h.0, parent-All (more ∷ parts) h.1)

parent-append :
    (xs : List Name) (y : Name) (ys : List Name) → parent (xs ++ y ∷ ys) ≡ xs ++ parent (y ∷ ys)
parent-append [] y ys = refl
parent-append (x ∷ []) y ys = refl
parent-append (x ∷ more ∷ xs) y ys = ap (λ parts. x ∷ parts) (parent-append (more ∷ xs) y ys)

longer :
    (parts : List Name)
    → is_nil parts ≡ false
    → eqb (length parts) 1 ≡ false
    → is_nil (tail parts) ≡ false
longer [] h e = absurd (cc)
longer (part ∷ []) h e = absurd (cc)
longer (part ∷ more ∷ parts) h e = refl

module _ (destination : List Name) where
  content-IsInside :
      (y : Name) (ys : List Name) (content : Option (List ℕ))
      → All IsPlain (y ∷ ys)
      → All
          (IsInside destination)
          (write_content (parent (destination ++ y ∷ ys)) (destination ++ y ∷ ys) content).0
  content-IsInside y ys none h =
      ((parent (y ∷ ys), parent-append destination y ys, parent-All (y ∷ ys) h), tt)
  content-IsInside y ys (some content) h = (
    (parent (y ∷ ys), parent-append destination y ys, parent-All (y ∷ ys) h),
    ((y ∷ ys, refl, h), tt),
  )

  kind-IsInside :
      (below : List Name) (kind : Kind) (content : Option (List ℕ))
      → All IsPlain below
      → is_nil below ≡ false
      → All (IsInside destination) (place_kind destination below kind content).0
  kind-IsInside [] kind content h e = absurd (cc)
  kind-IsInside (y ∷ ys) file content h e = content-IsInside y ys content h
  kind-IsInside (y ∷ ys) other content h e = content-IsInside y ys content h
  kind-IsInside (y ∷ ys) directory content h e = ((y ∷ ys, refl, h), tt)

  beside-IsInside : (kind : Kind) → All (IsInside destination) (beside kind).0
  beside-IsInside file = tt
  beside-IsInside directory = tt
  beside-IsInside other = tt

  place-IsInside : (m : Member) → IsFine m → All (IsInside destination) (place destination m).0
  unfolding place
  place-IsInside m (plain, some_part, regular) =
      elim (Bool-cases (eqb (length (parts_of m.name)) 1)) [
        | inl one ↦ rw one (beside-IsInside m.kind)
        | inr more ↦ rw more (
            kind-IsInside (tail (parts_of m.name)) m.kind m.content
              (tail-All (parts_of m.name) plain) (longer (parts_of m.name) some_part more))
      ]

  after_step-IsInside :
      (first rest : List Step × Option BundleError)
      → All (IsInside destination) first.0
      → All (IsInside destination) rest.0
      → All (IsInside destination) (after_step first rest).0
  after_step-IsInside (steps, some e) rest h k = h
  after_step-IsInside (steps, none) rest h k = All-append (IsInside destination) steps rest.0 h k

  pub place_all-IsInside :
      (members : List Member)
      → All IsFine members
      → All (IsInside destination) (place_all destination members).0
  unfolding place_all
  place_all-IsInside [] h = tt
  place_all-IsInside (m ∷ rest) h =
      after_step-IsInside (place destination m) (place_all destination rest) (place-IsInside m h.0)
        (place_all-IsInside rest h.1)

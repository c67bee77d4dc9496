-- ===== src/Summary/Rows.antt =====
-- Every capability that a run was marked with has its row, and a failed row fails the gate.
use esp32_rig.Base.{
  ◌≡◌, refl, sym, ap, subst, ◌∙◌, String, Bool, true, false, ◌||◌, Option, none, some, List, [],
  ◌∷◌, ◌++◌, arith, any, filter, lookup, has_key, set_default, contains, sorted_set,
  contains-sorted_set, if◌then◌else◌, ◌==◌, eq_iff, inl, inr, Bool-cases, Option-cases,
}
use esp32_rig.Summary.{
  RunRecord, Records, failed_itself, Status, failed, Row, runs_of, status_of, marks, not_listed,
  add_marks, rows, capabilities, gate_failed, validation_gate,
}

-- A table's description of a name, or that of a name that is only marked.
abbrev pub described : Option String → Bool → Option String
described (some description) marked = some description
described none marked = if marked then some not_listed else none

abbrev pub row_of : Option String → Status → Option Row
row_of none status = none
row_of (some description) status = some (description, status)

lookup-append_one :
    (k j v : String) (table : List (String × String))
    → lookup k (table ++ (j, v) ∷ [])
      ≡ (if has_key k table then lookup k table else if j == k then some v else none)
lookup-append_one k j v [] = refl
lookup-append_one k j v ((i, w) ∷ table) = ground (arith, lookup-append_one k j v table)

lookup-set_default :
    (k j : String) (table : List (String × String))
    → lookup k (set_default j not_listed table) ≡ described (lookup k table) (j == k)
lookup-set_default k j table = elim (Option-cases (lookup k table)) [
  | inl missing ↦ elim (Bool-cases (has_key j table)) [
    | inl held ↦ elim (Bool-cases (j == k)) [
      | inl same ↦
          let gone : lookup j table ≡ none =
            subst (λ i. lookup i table ≡ none) (sym ((eq_iff j k).0 same)) missing in
          absurd (ground (arith, gone, held))
      | inr apart ↦ rw (held, missing, apart) refl
    ]
    | inr free ↦ rw free (ground (arith, missing, lookup-append_one k j not_listed table))
  ]
  | inr (d, found) ↦ elim (Bool-cases (has_key j table)) [
    | inl held ↦ rw (held, found) refl
    | inr free ↦ rw free (ground (arith, found, lookup-append_one k j not_listed table))
  ]
]

described-described :
    (found : Option String) (a b : Bool)
    → described (described found a) b ≡ described found (a || b)
described-described (some d) a b = refl
described-described none true b = refl
described-described none false b = refl

lookup-add_marks :
    (k : String) (ks : List String) (table : List (String × String))
    → lookup k (add_marks ks table) ≡ described (lookup k table) (contains k ks)
lookup-add_marks k [] table = described-none (lookup k table)
  where
    described-none : (found : Option String) → found ≡ described found false
    described-none none = refl
    described-none (some d) = refl
lookup-add_marks k (j ∷ ks) table =
    lookup-add_marks k ks (set_default j not_listed table)
    ∙ ap (λ found. described found (contains k ks)) (lookup-set_default k j table)
    ∙ described-described (lookup k table) (j == k) (contains k ks)

lookup-rows :
    (k : String) (table : List (String × String)) (records : Records)
    → lookup k (rows table records) ≡ row_of (lookup k table) (status_of (runs_of k records))
unfolding rows
lookup-rows k [] records = refl
lookup-rows k ((j, d) ∷ table) records = elim (Bool-cases (j == k)) [
  | inl same ↦ rw same (ap (λ i. some (d, status_of (runs_of i records))) ((eq_iff j k).0 same))
  | inr apart ↦ rw apart (lookup-rows k table records)
]

-- The rows have one for each capability of the catalog, with its description, and one for each
-- other that some run was marked with, which says that it is not in the catalog; and none else. The
-- status of a row is that of the runs that name it.
pub capabilities-lookup :
    (k : String) (catalog : List (String × String)) (records : Records)
    → lookup k (capabilities catalog records)
      ≡ row_of
          (described (lookup k catalog) (contains k (marks records)))
          (status_of (runs_of k records))
unfolding capabilities
capabilities-lookup k catalog records =
    lookup-rows k (add_marks (sorted_set (marks records)) catalog) records
    ∙ ap (λ found. row_of found (status_of (runs_of k records)))
        (lookup-add_marks k (sorted_set (marks records)) catalog
          ∙ ap (described (lookup k catalog)) (contains-sorted_set k (marks records)))

any-filter :
    (p q : RunRecord → Bool) (records : Records)
    → any p (filter q records) ≡ true
    → any p records ≡ true
any-filter p q [] h = absurd (cc)
any-filter p q (r ∷ rest) h = ground (arith, any-filter p q rest)

status_of-failed : (runs : Records) → status_of runs ≡ failed → any failed_itself runs ≡ true
unfolding status_of
status_of-failed runs h = ground arith

row_of-status :
    (found : Option String) (s t : Status) (d : String) → row_of found s ≡ some (d, t) → s ≡ t
row_of-status none s t d h = absurd (cc)
row_of-status (some e) s t d h = ap status_in h
  where
    status_in : Option Row → Status
    status_in none = s
    status_in (some row) = row.1

validation_gate-any :
    (records : Records) → any failed_itself records ≡ true → validation_gate records ≡ gate_failed
unfolding validation_gate
validation_gate-any [] e = absurd (cc)
validation_gate-any (r ∷ rest) e = rw e refl

-- A release in whose report some capability has failed does not pass the gate, nor is it only blocked
-- or incomplete: the gate is failed.
pub validation_gate-failed :
    (k d : String) (catalog : List (String × String)) (records : Records)
    → lookup k (capabilities catalog records) ≡ some (d, failed)
    → validation_gate records ≡ gate_failed
validation_gate-failed k d catalog records h =
    let status =
      row_of-status (described (lookup k catalog) (contains k (marks records)))
        (status_of (runs_of k records)) failed d
        (sym (capabilities-lookup k catalog records) ∙ h) in
    let bad =
      any-filter failed_itself (λ r. contains k r.capabilities) records
        (status_of-failed (runs_of k records) status) in
    validation_gate-any records bad

-- ===== src/Allocation/Choose/Sound.antt =====
-- What a choice of boards keeps to: no board held or wanted ahead, every board of the rig.
use mathlib.Core.List.{Memᴰ}
use mathlib.Core.Path.{subst}
use esp32_rig.Base.{
  String, ◌≡◌, refl, sym, ap, ◌∙◌, Bool, true, false, ◌&&◌, none, List, [], ◌∷◌, arith, eq_iff,
  take, filter, first, contains, sorted_set, contains-append, contains-take, contains-sorted_set,
  first-none, inl, inr, ◌⊎◌, Bool-cases, ◌==◌,
}
use esp32_rig.Allocation.{Board, Need, Demand}
use esp32_rig.Allocation.Needs.{ids, names_boards}
use esp32_rig.Allocation.Choose.{
  Choice, chosen, short, unavailable, choose_named, free_for, wanted_of, choose_need, choose_needs,
  choose,
}

-- The board behind an id that a filter kept.
pub ids-filter :
    (k : String) (p : Board → Bool) (boards : List Board)
    → contains k (ids (filter p boards)) ≡ true
    → (b : Board) × Memᴰ b boards × (b.id ≡ k) × (p b ≡ true)
ids-filter k p [] h = absurd (cc)
ids-filter k p (b ∷ bs) h = elim (Bool-cases (p b && b.id == k)) [
  | inl hit ↦ (b, Memᴰ.head refl, ground (arith, eq_iff b.id k), ground arith)
  | inr miss ↦ let (c, m, e, q) = ids-filter k p bs (ground arith) in (c, Memᴰ.tail m, e, q)
]

pub contains-ids :
    (b : Board) (boards : List Board) → Memᴰ b boards → contains b.id (ids boards) ≡ true
contains-ids b [] m = elim m [ ]
contains-ids b (c ∷ cs) (Memᴰ.head e) = ground (arith, eq_iff c.id b.id, ap (λ (x : Board). x.id) e)
contains-ids b (c ∷ cs) (Memᴰ.tail m) = ground (arith, contains-ids b cs m)

pub Choice-cases :
    (c : Choice) → ((picked : List String) × (c ≡ chosen picked)) ⊎ ((k : String) × (c ≡ short k))
Choice-cases (chosen picked) = inl (picked, refl)
Choice-cases (short k) = inr (k, refl)

module _ (boards : List Board) (held ahead : List String)
    (targets_ahead : List (String × Demand)) where
  -- A board of the rig that no run holds and no run ahead waits for.
  abbrev pub IsFree : String → Type 0
  IsFree k =
      (contains k held ≡ false) × (contains k ahead ≡ false) × (contains k (ids boards) ≡ true)

  abbrev pub AllFree : List String → Type 0
  AllFree ks = (k : String) → contains k ks ≡ true → IsFree k

  pub named-chosen :
      (wanted picked : List String)
      → choose_named boards held ahead targets_ahead wanted ≡ chosen picked
      → (first (unavailable boards held ahead targets_ahead) wanted ≡ none)
        × (picked ≡ sorted_set (ids (filter (λ b. contains b.id wanted) boards)))
  unfolding choose_named
  named-chosen wanted picked e = ground arith

  named-AllFree :
      (wanted picked : List String)
      → choose_named boards held ahead targets_ahead wanted ≡ chosen picked
      → AllFree picked
  unfolding unavailable
  named-AllFree wanted picked e k h =
      let (none_taken, sorted) = named-chosen wanted picked e in
      let (b, m, same, q) =
        ids-filter k _ boards (sym (contains-sorted_set k _) ∙ sym (ap (contains k) sorted) ∙ h) in
      let available = first-none _ b.id wanted none_taken q in
      subst IsFree same (ground arith, ground arith, contains-ids b boards m)

  free_for-AllFree :
      (n : Need) (got : List String) → AllFree (free_for boards held ahead targets_ahead n got)
  unfolding free_for
  free_for-AllFree n got k h =
      let (b, m, same, q) = ids-filter k _ boards h in
      subst IsFree same (ground arith, ground arith, contains-ids b boards m)

  choose_need-AllFree :
      (n : Need) (got got' : List String)
      → choose_need boards held ahead targets_ahead n got ≡ chosen got'
      → AllFree got
      → AllFree got'
  unfolding choose_need
  choose_need-AllFree n got got' e f k h =
      let free = free_for boards held ahead targets_ahead n got in
      let wanted = wanted_of boards held ahead targets_ahead n got in
      ground (
        arith,
        f k,
        free_for-AllFree n got k,
        contains-append k got (take wanted free),
        contains-take k wanted free,
      )

  -- A choice over the needs is a choice for the first and then for the rest.
  pub choose_needs-cons :
      (n : Need) (ns : List Need) (got picked : List String)
      → choose_needs boards held ahead targets_ahead (n ∷ ns) got ≡ chosen picked
      → (mid : List String) × (choose_need boards held ahead targets_ahead n got ≡ chosen mid)
        × (choose_needs boards held ahead targets_ahead ns mid ≡ chosen picked)
  unfolding choose_needs
  choose_needs-cons n ns got picked e =
      elim (Choice-cases (choose_need boards held ahead targets_ahead n got)) [
        | inl (mid, first_step) ↦ (mid, first_step, ground arith)
        | inr (k, failed) ↦ absurd (cc failed)
      ]

  choose_needs-AllFree :
      (ns : List Need) (got picked : List String)
      → choose_needs boards held ahead targets_ahead ns got ≡ chosen picked
      → AllFree got
      → AllFree picked
  unfolding choose_needs
  choose_needs-AllFree [] got picked e f = λ k h. ground (arith, f k)
  choose_needs-AllFree (n ∷ ns) got picked e f =
      let (mid, one, rest) = choose_needs-cons n ns got picked e in
      choose_needs-AllFree ns mid picked rest (choose_need-AllFree n got mid one f)

  -- Every board of a choice is a board of the rig that no run holds and no run ahead waits for.
  pub choose-AllFree :
      (d : Demand) (picked : List String)
      → choose boards held ahead targets_ahead d ≡ chosen picked
      → AllFree picked
  unfolding choose
  choose-AllFree d picked e = elim (Bool-cases (names_boards d)) [
    | inl named ↦ named-AllFree d.boards picked (rw named at e)
    | inr by_family ↦
        choose_needs-AllFree d.needs [] picked (rw by_family at e) (λ k h. absurd (cc))
  ]

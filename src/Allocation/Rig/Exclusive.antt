-- ===== src/Allocation/Rig/Exclusive.antt =====
-- What a rig's running grants keep to: no board and no resource is held twice, a run that is not
-- shared is alone, and no more runs than the limit.
use mathlib.Core.Path.{subst}
use esp32_rig.Base.{
  ℕ, ◌+◌, ◌≤◌, String, ◌≡◌, refl, sym, any-first, length-append, any-append, true, false, none,
  List, [], ◌∷◌, ◌++◌, arith, contains, length, any, not, Disjoint, inl, inr, ◌⊎◌, Bool-cases,
  sorted_set,
}
use esp32_rig.Allocation.{Grant, Demand}
use esp32_rig.Allocation.Choose.Sound.{choose-AllFree, Choice-cases}
use esp32_rig.Allocation.Choose.{chosen, choose}
use esp32_rig.Allocation.Rig.{
  Rig, granted, attempt, attempt_boards, attempt_shared, attempt_alone, runs_alone, holders,
  keys_of, first_key, grant_shared,
}
use esp32_rig.Allocation.Rig.Holders.{keys_of-holders, first_key-free}

-- A grant has no text in common with any of the others.
abbrev pub Clear : (Grant → List String) → Grant → List Grant → Type 0
Clear keys g [] = Unit
Clear keys g (h ∷ hs) = Disjoint (keys h) (keys g) × Clear keys g hs

abbrev pub Apart : (Grant → List String) → List Grant → Type 0
Apart keys [] = Unit
Apart keys (g ∷ gs) = Clear keys g gs × Apart keys gs

-- Runs that hold no board and no resource twice and are no more than the bound; a run that is not
-- shared is the only one.
pub record IsExclusive (bound : ℕ) (gs : List Grant) : Type 0 where
  pub boards : Apart (λ g. g.boards) gs
  pub resources : Apart (λ g. g.resources) gs
  pub alone : (any (λ g. not g.shared) gs ≡ false) ⊎ (length gs ≤ 1)
  pub within : length gs ≤ bound

-- What may start beside these runs under the limit.
abbrev pub Beside : ℕ → List Grant → Grant → Type 0
Beside limit gs g =
    (gs ≡ [])
    ⊎ ((g.shared ≡ true)
        × (any (λ h. not h.shared) gs ≡ false)
        × (length gs + 1 ≤ limit)
        × Clear (λ h. h.boards) g gs
        × Clear (λ h. h.resources) g gs)

Clear-of_none :
    (keys : Grant → List String) (g : Grant) (gs : List Grant)
    → ((k : String) → contains k (keys g) ≡ true → any (λ h. contains k (keys h)) gs ≡ false)
    → Clear keys g gs
Clear-of_none keys g [] f = tt
Clear-of_none keys g (h ∷ hs) f = (
  λ k m. elim (Bool-cases (contains k (keys g))) [
    | inl both ↦ absurd (cc (f k both))
    | inr fine ↦ fine
  ],
  Clear-of_none keys g hs (λ k m. ground (arith, f k m)),
)

attempt_boards-granted :
    (r : Rig) (d : Demand) (held : List (String × Grant)) (g : Grant)
    → attempt_boards r d held ≡ granted g
    → (picked : List String) × (choose r.boards
          (keys_of held)
          (keys_of r.blocked_boards)
          r.blocked_targets
          d
        ≡ chosen picked)
      × (g ≡ grant_shared r d picked)
unfolding attempt_boards
attempt_boards-granted r d held g e =
    elim (Choice-cases
      (choose r.boards (keys_of held) (keys_of r.blocked_boards) r.blocked_targets d)) [
        | inl (picked, hit) ↦ (picked, hit, ground arith)
        | inr (k, failed) ↦ absurd (cc failed)
      ]

-- A shared grant: a free slot, free resources, and boards chosen among the free ones.
pub attempt_shared-granted :
    (r : Rig) (d : Demand) (g : Grant)
    → attempt_shared r d ≡ granted g
    → (length r.active + 1 ≤ r.limit)
      × (first_key (sorted_set d.resources) (holders (λ h. h.resources) r.active []) ≡ none)
      × (first_key (sorted_set d.resources) r.blocked_resources ≡ none)
      × (attempt_boards r d (holders (λ h. h.boards) r.active []) ≡ granted g)
unfolding attempt_shared
attempt_shared-granted r d g e = ground arith

-- A grant: nothing ahead wants the whole rig, and either the rig is idle or the grant is shared
-- beside shared ones.
pub attempt-granted :
    (r : Rig) (d : Demand) (g : Grant)
    → attempt r d ≡ granted g
    → (r.blocked_whole ≡ none)
      × (((r.active ≡ []) × (attempt_alone r d ≡ granted g))
          ⊎ ((runs_alone r d ≡ false)
              × (any (λ h. not h.shared) r.active ≡ false)
              × (attempt_shared r d ≡ granted g)))
unfolding attempt attempt_alone
attempt-granted r d g e = ground (arith, any-first (λ h. not h.shared) r.active)

attempt_shared-Beside :
    (r : Rig) (d : Demand) (g : Grant)
    → any (λ h. not h.shared) r.active ≡ false
    → attempt_shared r d ≡ granted g
    → Beside r.limit r.active g
unfolding grant_shared
attempt_shared-Beside r d g quiet e =
    let (room, free, ahead, boards) = attempt_shared-granted r d g e in
    let (picked, hit, same) = attempt_boards-granted r d _ g boards in
    let open_board : (k : String)
        → contains k picked ≡ true
        → any (λ h. contains k h.boards) r.active ≡ false =
      λ k m. ground (
        arith,
        keys_of-holders (λ h. h.boards) k r.active [],
        choose-AllFree _ _ _ _ d picked hit k m,
      ) in
    subst (Beside r.limit r.active) (sym same) (
      inr (
        refl,
        quiet,
        room,
        Clear-of_none (λ h. h.boards) (grant_shared r d picked) r.active open_board,
        Clear-of_none (λ h. h.resources) (grant_shared r d picked) r.active
            (λ k. first_key-free (λ h. h.resources) k d.resources r.active free),
      ))

-- A grant goes beside what runs on the rig.
pub attempt-Beside :
    (r : Rig) (d : Demand) (g : Grant) → attempt r d ≡ granted g → Beside r.limit r.active g
attempt-Beside r d g e = elim (attempt-granted r d g e).1 [
  | inl (idle, _) ↦ inl idle
  | inr (_, quiet, shared) ↦ attempt_shared-Beside r d g quiet shared
]

Clear-append :
    (keys : Grant → List String) (g h : Grant) (gs : List Grant)
    → Clear keys g gs
    → Disjoint (keys h) (keys g)
    → Clear keys g (gs ++ h ∷ [])
Clear-append keys g h [] c a = (a, tt)
Clear-append keys g h (x ∷ xs) c a = (c.0, Clear-append keys g h xs c.1 a)

Disjoint-symm : (xs ys : List String) → Disjoint xs ys → Disjoint ys xs
Disjoint-symm xs ys f k m = elim (Bool-cases (contains k xs)) [
  | inl both ↦ absurd (cc (f k both))
  | inr fine ↦ fine
]

Apart-append :
    (keys : Grant → List String) (g : Grant) (gs : List Grant)
    → Apart keys gs
    → Clear keys g gs
    → Apart keys (gs ++ g ∷ [])
Apart-append keys g [] a c = (tt, tt)
Apart-append keys g (x ∷ xs) a c =
    (Clear-append keys x g xs a.0 (Disjoint-symm _ _ c.0), Apart-append keys g xs a.1 c.1)

-- Starting it keeps the runs exclusive.
pub append-IsExclusive :
    (limit bound : ℕ) (gs : List Grant) (g : Grant)
    → 1 ≤ limit
    → limit ≤ bound
    → Beside limit gs g
    → IsExclusive bound gs
    → IsExclusive bound (gs ++ g ∷ [])
append-IsExclusive limit bound gs g one le (inl idle) v = rw idle (record {
  boards = (tt, tt);
  resources = (tt, tt);
  alone = inr (omega arith);
  within = omega arith;
})
append-IsExclusive limit bound gs g one le (inr (shared, quiet, room, boards, resources)) v =
    record {
      boards = Apart-append _ g gs v.boards boards;
      resources = Apart-append _ g gs v.resources resources;
      alone = inl (ground (arith, any-append (λ h. not h.shared) gs (g ∷ [])));
      within = omega (arith, length-append gs (g ∷ []));
    }

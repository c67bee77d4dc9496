-- ===== src/Dispatch/Starts/Thin.antt =====
-- What is kept of running grants that exclude one another, when some of them end.
use esp32_rig.Base.{
  ℕ, ◌≤◌, String, false, not, ◌≡◌, refl, sym, ap, subst, ◌∙◌, Option, List, [], ◌∷◌, ◌++◌, arith,
  any, length, same_name, Disjoint, inl, inr, Bool-cases,
}
use esp32_rig.Allocation.{Grant}
use esp32_rig.Allocation.Plan.{runs_on}
use esp32_rig.Allocation.Rig.Exclusive.{IsExclusive, Apart, Clear}

-- The same grant, but for when it was given.
pub record Alike (h g : Grant) : Type 0 where
  pub boards : h.boards ≡ g.boards
  pub resources : h.resources ≡ g.resources
  pub shared : h.shared ≡ g.shared
  pub worker : h.worker ≡ g.worker

pub Alike-refl : (g : Grant) → Alike g g
Alike-refl g = record { boards = refl; resources = refl; shared = refl; worker = refl }

-- The first list is the second with some of it left out.
pub data Thin : List Grant → List Grant → Type 0 where
  ended : Thin [] []
  dropped : {g : Grant} {hs gs : List Grant} → Thin hs gs → Thin hs (g ∷ gs)
  kept : {h g : Grant} {hs gs : List Grant} → Alike h g → Thin hs gs → Thin (h ∷ hs) (g ∷ gs)

pub Thin-refl : (gs : List Grant) → Thin gs gs
Thin-refl [] = ended
Thin-refl (g ∷ gs) = kept (Alike-refl g) (Thin-refl gs)

pub Thin-append :
    {gs hs gs' hs' : List Grant} → Thin gs hs → Thin gs' hs' → Thin (gs ++ gs') (hs ++ hs')
Thin-append ended u = u
Thin-append (dropped t) u = dropped (Thin-append t u)
Thin-append (kept a t) u = kept a (Thin-append t u)

Thin-runs_on :
    (k : Option String) {hs gs : List Grant} → Thin hs gs → Thin (runs_on k hs) (runs_on k gs)
Thin-runs_on k ended = ended
Thin-runs_on k (dropped {g} t) = elim (Bool-cases (same_name g.worker k)) [
  | inl here ↦ rw here (dropped (Thin-runs_on k t))
  | inr away ↦ rw away (Thin-runs_on k t)
]
Thin-runs_on k (kept {h} {g} a t) =
    let same : same_name h.worker k ≡ same_name g.worker k = ap (λ w. same_name w k) a.worker in
    elim (Bool-cases (same_name g.worker k)) [
      | inl here ↦ rw (same ∙ here, here) (kept a (Thin-runs_on k t))
      | inr away ↦ rw (same ∙ away, away) (Thin-runs_on k t)
    ]

Thin-length : {hs gs : List Grant} → Thin hs gs → length hs ≤ length gs
Thin-length ended = omega arith
Thin-length (dropped t) = let l = Thin-length t in omega arith
Thin-length (kept a t) = let l = Thin-length t in omega arith

Thin-shared :
    {hs gs : List Grant}
    → Thin hs gs
    → any (λ g. not g.shared) gs ≡ false
    → any (λ g. not g.shared) hs ≡ false
Thin-shared ended e = refl
Thin-shared (dropped t) e = Thin-shared t (ground arith)
Thin-shared (kept a t) e = let rest = Thin-shared t (ground arith) in ground (arith, a.shared)

module _ (keys : Grant → List String) (same : (h g : Grant) → Alike h g → keys h ≡ keys g) where
  Clear-Thin : (g : Grant) {hs gs : List Grant} → Thin hs gs → Clear keys g gs → Clear keys g hs
  Clear-Thin g ended c = tt
  Clear-Thin g (dropped t) c = Clear-Thin g t c.1
  Clear-Thin g (kept {h} {g = j} a t) c =
      (subst (λ l. Disjoint l (keys g)) (sym (same h j a)) c.0, Clear-Thin g t c.1)

  Clear-Alike : (h g : Grant) (gs : List Grant) → Alike h g → Clear keys g gs → Clear keys h gs
  Clear-Alike h g [] a c = tt
  Clear-Alike h g (j ∷ gs) a c =
      (subst (λ l. Disjoint (keys j) l) (sym (same h g a)) c.0, Clear-Alike h g gs a c.1)

  Apart-Thin : {hs gs : List Grant} → Thin hs gs → Apart keys gs → Apart keys hs
  Apart-Thin ended c = tt
  Apart-Thin (dropped t) c = Apart-Thin t c.1
  Apart-Thin (kept {h} {g} a t) c = (Clear-Thin h t (Clear-Alike h g _ a c.0), Apart-Thin t c.1)

IsExclusive-Thin :
    (bound : ℕ) {hs gs : List Grant} → Thin hs gs → IsExclusive bound gs → IsExclusive bound hs
IsExclusive-Thin bound t x =
    let fewer = Thin-length t in
    let within = x.within in
    record {
      boards = Apart-Thin (λ g. g.boards) (λ h g a. a.boards) t x.boards;
      resources = Apart-Thin (λ g. g.resources) (λ h g a. a.resources) t x.resources;
      alone = elim x.alone [ inl e ↦ inl (Thin-shared t e) | inr one ↦ inr (omega arith) ];
      within = omega arith;
    }

-- On every worker.
pub runs_on-Thin :
    (bound : Option String → ℕ) {hs gs : List Grant}
    → Thin hs gs
    → ((k : Option String) → IsExclusive (bound k) (runs_on k gs))
    → (k : Option String) → IsExclusive (bound k) (runs_on k hs)
runs_on-Thin bound t x k = IsExclusive-Thin (bound k) (Thin-runs_on k t) (x k)

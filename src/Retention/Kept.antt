-- ===== src/Retention/Kept.antt =====
-- What a prune leaves alone.
use esp32_rig.Base.{
  ℕ, zero, suc, ◌≡◌, refl, subst, String, true, false, Option, none, some, List, [], ◌∷◌, arith,
  filter, map, All, All-filter_self, All-append, All-with, Bool-cases, inl, inr, ◌==◌,
}
use mathlib.Core.List.{Memᴰ}
use esp32_rig.Store.Table.{order_by, All-order_by}
use esp32_rig.Retention.{
  Bundle, is_candidate, Groups, add_to, group, newer, older, skip, beyond, is_past, choose_groups,
  prunable, select_prunable,
}

-- What the rules say of a bundle that goes.
pub record IsPrunable (entries : List Bundle) (cutoff : Option ℕ) (id : String) : Type 0 where
  pub bundle : Bundle
  pub listed : Memᴰ bundle entries
  pub named : bundle.id ≡ id
  pub not_pinned : bundle.pinned ≡ false
  pub not_held : bundle.held ≡ false
  pub past : is_past cutoff bundle ≡ true

module _ (P : Bundle → Type 0) where
  abbrev AllIn : Groups → Type 0
  AllIn = All (λ e. All P e.1)

  add_to-AllIn : (b : Bundle) (groups : Groups) → P b → AllIn groups → AllIn (add_to b groups)
  unfolding add_to
  add_to-AllIn b [] pb h = ((pb, tt), tt)
  add_to-AllIn b ((k, g) ∷ rest) pb h = elim (Bool-cases (k == b.profile)) [
    | inl e ↦ rw e (All-append P g (b ∷ []) h.0 (pb, tt), h.1)
    | inr e ↦ rw e (h.0, add_to-AllIn b rest pb h.1)
  ]

  group-AllIn :
      (bs : List Bundle) (groups : Groups) → All P bs → AllIn groups → AllIn (group bs groups)
  unfolding group
  group-AllIn [] groups h a = a
  group-AllIn (b ∷ bs) groups h a =
      group-AllIn bs (add_to b groups) h.1 (add_to-AllIn b groups h.0 a)

  skip-All : (n : ℕ) (bs : List Bundle) → All P bs → All P (skip n bs)
  skip-All zero bs h = h
  skip-All (suc n) [] h = tt
  skip-All (suc n) (b ∷ bs) h = skip-All n bs h.1

  beyond-All : (keep : Option ℕ) (bs : List Bundle) → All P bs → All P (beyond keep bs)
  beyond-All none bs h = h
  beyond-All (some n) bs h = skip-All n bs h

  choose_groups-All :
      (cutoff keep : Option ℕ) (groups : Groups)
      → AllIn groups
      → All (λ b. P b × (is_past cutoff b ≡ true)) (choose_groups cutoff keep groups)
  unfolding choose_groups
  choose_groups-All cutoff keep [] h = tt
  choose_groups-All cutoff keep ((k, g) ∷ rest) h =
      All-append _ (filter (is_past cutoff) (beyond keep (order_by newer g)))
        (choose_groups cutoff keep rest)
        (All-filter_self P (is_past cutoff) (beyond keep (order_by newer g))
          (beyond-All keep (order_by newer g) (All-order_by P newer g h.0)))
        (choose_groups-All cutoff keep rest h.1)

All-mem : (bs : List Bundle) → All (λ b. Memᴰ b bs) bs
All-mem [] = tt
All-mem (b ∷ bs) = (
  Memᴰ.head refl,
  All-with (λ a. Memᴰ a bs) (λ a. Memᴰ a (b ∷ bs)) bs (λ a m. Memᴰ.tail m) (All-mem bs),
)

All-of_map :
    (P : String → Type 0) (bs : List Bundle) → All (λ b. P b.id) bs → All P (map (λ b. b.id) bs)
All-of_map P [] h = tt
All-of_map P (b ∷ bs) h = (h.0, All-of_map P bs h.1)

prunable-IsPrunable :
    (entries : List Bundle) (cutoff keep : Option ℕ)
    → All (IsPrunable entries cutoff) (map (λ b. b.id) (prunable entries cutoff keep))
unfolding prunable
prunable-IsPrunable entries cutoff keep =
    let P = λ (b : Bundle). Memᴰ b entries × (is_candidate b ≡ true) in
    let candidates = All-filter_self (λ b. Memᴰ b entries) is_candidate entries (All-mem entries) in
    let groups = group-AllIn P (filter is_candidate entries) [] candidates tt in
    let chosen = choose_groups-All P cutoff keep (group (filter is_candidate entries) []) groups in
    All-of_map (IsPrunable entries cutoff) _ (
      All-order_by _ older _ (
        All-with _ (λ b. IsPrunable entries cutoff b.id) _
          (λ b h. record {
            bundle = b;
            listed = h.0.0;
            named = refl;
            not_pinned = ground (arith, h.0.1);
            not_held = ground (arith, h.0.1);
            past = h.1;
          })
          chosen))

-- Whatever the rules: an id that a prune chooses is of a bundle in the list that is not pinned, that
-- no queued or running job holds, and that was last used before the cutoff, where there is one.
pub select_prunable-IsPrunable :
    (entries : List Bundle) (cutoff keep : Option ℕ) (ids : List String)
    → select_prunable entries cutoff keep ≡ some ids
    → All (IsPrunable entries cutoff) ids
unfolding select_prunable
select_prunable-IsPrunable entries none none ids e = absurd (cc)
select_prunable-IsPrunable entries none (some n) ids e =
    let same : map (λ b. b.id) (prunable entries none (some n)) ≡ ids = ground arith in
    subst (All (IsPrunable entries none)) same (prunable-IsPrunable entries none (some n))
select_prunable-IsPrunable entries (some c) keep ids e =
    let same : map (λ b. b.id) (prunable entries (some c) keep) ≡ ids = ground arith in
    subst (All (IsPrunable entries (some c))) same (prunable-IsPrunable entries (some c) keep)

-- ===== src/Retention/Newest.antt =====
-- How many bundles of each profile a prune leaves.
use esp32_rig.Base.{
  ℕ, zero, suc, ◌+◌, ◌≤◌, min, ◌≡◌, refl, subst, String, Bool, true, false, Option, some, List, [],
  ◌∷◌, ◌++◌, arith, filter, All, All-append, Bool-cases, inl, inr, eq_iff, ◌==◌,
}
use esp32_rig.Store.Table.{order_by, insert_by, count_where, All-order_by}
use esp32_rig.Retention.{
  Bundle, is_candidate, Groups, add_to, group, newer, older, skip, is_past, choose_groups, prunable,
}

abbrev pub is_of : String → Bundle → Bool
is_of p b = b.profile == p

-- Each group has the bundles of its key, and no key stands twice.
abbrev Keyed : Groups → Type 0
Keyed [] = Unit {0}
Keyed ((k, g) ∷ rest) =
    All (λ b. is_of k b ≡ true) g × All (λ e. (e.0 == k) ≡ false) rest × Keyed rest

abbrev total : String → Groups → ℕ
total p [] = 0
total p ((k, g) ∷ rest) = count_where (is_of p) g + total p rest

count-append :
    (p : String) (xs ys : List Bundle)
    → count_where (is_of p) (xs ++ ys) ≡ count_where (is_of p) xs + count_where (is_of p) ys
count-append p [] ys = omega arith
count-append p (x ∷ xs) ys = ground (arith, count-append p xs ys)

count-insert_by :
    (p : String) (before : Bundle → Bundle → Bool) (b : Bundle) (xs : List Bundle)
    → count_where (is_of p) (insert_by before b xs) ≡ count_where (is_of p) (b ∷ xs)
count-insert_by p before b [] = refl
count-insert_by p before b (x ∷ xs) = ground (arith, count-insert_by p before b xs)

count-order_by :
    (p : String) (before : Bundle → Bundle → Bool) (xs : List Bundle)
    → count_where (is_of p) (order_by before xs) ≡ count_where (is_of p) xs
count-order_by p before [] = refl
count-order_by p before (x ∷ xs) =
    ground (arith, count-order_by p before xs, count-insert_by p before x (order_by before xs))

count-filter :
    (p : String) (q : Bundle → Bool) (xs : List Bundle)
    → count_where (is_of p) (filter q xs) ≤ count_where (is_of p) xs
count-filter p q [] = omega arith
count-filter p q (x ∷ xs) = ground (arith, count-filter p q xs)

count-skip :
    (p : String) (n : ℕ) (xs : List Bundle)
    → All (λ b. is_of p b ≡ true) xs
    → count_where (is_of p) (skip n xs) + min n (count_where (is_of p) xs)
      ≡ count_where (is_of p) xs
count-skip p zero xs h = omega arith
count-skip p (suc n) [] h = omega arith
count-skip p (suc n) (x ∷ xs) h = ground (arith, h.0, count-skip p n xs h.1)

count-other :
    (p k : String) (xs : List Bundle)
    → (k == p) ≡ false
    → All (λ b. is_of k b ≡ true) xs
    → count_where (is_of p) xs ≡ 0
count-other p k [] ne h = refl
count-other p k (x ∷ xs) ne h =
    ground (arith, h.0, count-other p k xs ne h.1, eq_iff x.profile k, eq_iff x.profile p)

total-other :
    (p : String) (groups : Groups)
    → All (λ e. (e.0 == p) ≡ false) groups
    → Keyed groups
    → total p groups ≡ 0
total-other p [] h keyed = refl
total-other p ((k, g) ∷ rest) h keyed =
    omega (arith, count-other p k g h.0 keyed.0, total-other p rest h.1 keyed.2)

add_to-key :
    (b : Bundle) (k : String) (groups : Groups)
    → (b.profile == k) ≡ false
    → All (λ e. (e.0 == k) ≡ false) groups
    → All (λ e. (e.0 == k) ≡ false) (add_to b groups)
unfolding add_to
add_to-key b k [] ne h = (ne, tt)
add_to-key b k ((j, g) ∷ rest) ne h = elim (Bool-cases (j == b.profile)) [
  | inl e ↦ rw e h
  | inr e ↦ rw e (h.0, add_to-key b k rest ne h.1)
]

add_to-Keyed : (b : Bundle) (groups : Groups) → Keyed groups → Keyed (add_to b groups)
unfolding add_to
add_to-Keyed b [] h = ((ground (arith, eq_iff b.profile b.profile), tt), tt, tt)
add_to-Keyed b ((k, g) ∷ rest) h = elim (Bool-cases (k == b.profile)) [
  | inl e ↦
      let same : is_of k b ≡ true = ground (arith, eq_iff k b.profile, eq_iff b.profile k) in
      rw e (All-append (λ c. is_of k c ≡ true) g (b ∷ []) h.0 (same, tt), h.1, h.2)
  | inr e ↦
      let other : (b.profile == k) ≡ false =
        ground (arith, eq_iff k b.profile, eq_iff b.profile k) in
      rw e (h.0, add_to-key b k rest other h.1, add_to-Keyed b rest h.2)
]

total-add_to :
    (p : String) (b : Bundle) (groups : Groups)
    → total p (add_to b groups) ≡ total p groups + count_where (is_of p) (b ∷ [])
unfolding add_to
total-add_to p b [] = omega arith
total-add_to p b ((k, g) ∷ rest) = elim (Bool-cases (k == b.profile)) [
  | inl e ↦ rw e (omega (arith, count-append p g (b ∷ [])))
  | inr e ↦ rw e (omega (arith, total-add_to p b rest))
]

group-Keyed : (bs : List Bundle) (groups : Groups) → Keyed groups → Keyed (group bs groups)
unfolding group
group-Keyed [] groups h = h
group-Keyed (b ∷ bs) groups h = group-Keyed bs (add_to b groups) (add_to-Keyed b groups h)

total-group :
    (p : String) (bs : List Bundle) (groups : Groups)
    → total p (group bs groups) ≡ total p groups + count_where (is_of p) bs
unfolding group
total-group p [] groups = omega arith
total-group p (b ∷ bs) groups =
    omega (
      arith,
      total-group p bs (add_to b groups),
      total-add_to p b groups,
      count-append p (b ∷ []) bs,
    )

-- What goes of one group.
abbrev gone : Option ℕ → ℕ → List Bundle → List Bundle
gone cutoff n g = filter (is_past cutoff) (skip n (order_by newer g))

gone-le :
    (p : String) (cutoff : Option ℕ) (n : ℕ) (g : List Bundle)
    → All (λ b. is_of p b ≡ true) g
    → count_where (is_of p) (gone cutoff n g) + min n (count_where (is_of p) g)
      ≤ count_where (is_of p) g
gone-le p cutoff n g h = omega (
  arith,
  count-filter p (is_past cutoff) (skip n (order_by newer g)),
  count-skip p n (order_by newer g) (All-order_by (λ b. is_of p b ≡ true) newer g h),
  count-order_by p newer g,
)

All-skip : (P : Bundle → Type 0) (n : ℕ) (bs : List Bundle) → All P bs → All P (skip n bs)
All-skip P zero bs h = h
All-skip P (suc n) [] h = tt
All-skip P (suc n) (b ∷ bs) h = All-skip P n bs h.1

choose_groups-le :
    (p : String) (cutoff : Option ℕ) (n : ℕ) (groups : Groups)
    → Keyed groups
    → count_where (is_of p) (choose_groups cutoff (some n) groups) + min n (total p groups)
      ≤ total p groups
unfolding choose_groups
choose_groups-le p cutoff n [] h = omega arith
choose_groups-le p cutoff n ((k, g) ∷ rest) h =
    let split = count-append p (gone cutoff n g) (choose_groups cutoff (some n) rest) in
    let later = choose_groups-le p cutoff n rest h.2 in
    elim (Bool-cases (k == p)) [
      | inl e ↦
          let same : k ≡ p = (eq_iff k p).0 e in
          omega (
            arith,
            split,
            later,
            gone-le p cutoff n g (subst (λ q. All (λ b. is_of q b ≡ true) g) same h.0),
            total-other p rest (subst (λ q. All (λ i. (i.0 == q) ≡ false) rest) same h.1) h.2,
          )
      | inr e ↦
          let sorted = All-order_by (λ b. is_of k b ≡ true) newer g h.0 in
          omega (
            arith,
            split,
            later,
            count-other p k g e h.0,
            count-filter p (is_past cutoff) (skip n (order_by newer g)),
            count-other p k (skip n (order_by newer g)) e (All-skip _ n (order_by newer g) sorted),
          )
    ]

-- With `keep_per_profile` n, and whatever else is asked: of each profile, a prune leaves at least n of
-- the bundles that are not pinned and not held, or all of them where there are fewer.
pub prunable-le :
    (profile : String) (entries : List Bundle) (cutoff : Option ℕ) (n : ℕ)
    → count_where (is_of profile) (prunable entries cutoff (some n))
        + min n (count_where (is_of profile) (filter is_candidate entries))
      ≤ count_where (is_of profile) (filter is_candidate entries)
unfolding prunable
prunable-le profile entries cutoff n =
    let groups = group (filter is_candidate entries) [] in
    omega (
      arith,
      count-order_by profile older (choose_groups cutoff (some n) groups),
      choose_groups-le profile cutoff n groups (group-Keyed (filter is_candidate entries) [] tt),
      total-group profile (filter is_candidate entries) [],
    )

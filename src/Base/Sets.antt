-- ===== src/Base/Sets.antt =====
-- Membership in the lists that stand for sets and for the keys of dictionaries.
use Prim.Native.String.{String}
use Prim.Native.Nat.{ℕ, zero, suc}
use mathlib.Core.Path.{◌≡◌, refl, ap, ◌∙◌}
use mathlib.Core.Bool.{Bool, true, false, ◌||◌}
use mathlib.Core.Option.{Option, some, none}
use mathlib.Core.List.{List, [], ◌∷◌, ◌++◌}
use native.Mathlib.Omega.{arith}
use text.Mathlib.Text.{◌==◌}
use text.Mathlib.TextEquality.{eq_iff, path_by_compare}
use esp32_rig.Base.Lists.{take, first, any}
use esp32_rig.Base.Keys.{same_name, contains, sorted_insert, sorted_set}

pub contains-append :
    (k : String) (xs ys : List String) → contains k (xs ++ ys) ≡ contains k xs || contains k ys
contains-append k [] ys = refl
contains-append k (x ∷ xs) ys = ground (arith, contains-append k xs ys)

pub contains-take :
    (k : String) (n : ℕ) (xs : List String) → contains k (take n xs) ≡ true → contains k xs ≡ true
contains-take k zero xs h = cc
contains-take k (suc n) [] h = cc
contains-take k (suc n) (x ∷ xs) h = ground (arith, contains-take k n xs)

contains-sorted_insert :
    (k j : String) (xs : List String) → contains k (sorted_insert j xs) ≡ (j == k) || contains k xs
contains-sorted_insert k j [] = refl
contains-sorted_insert k j (x ∷ xs) =
    ground (arith, contains-sorted_insert k j xs, path_by_compare j x)

-- Sorting changes no membership.
pub contains-sorted_set :
    (k : String) (xs : List String) → contains k (sorted_set xs) ≡ contains k xs
contains-sorted_set k [] = refl
contains-sorted_set k (x ∷ xs) =
    contains-sorted_insert k x (sorted_set xs) ∙ ap (λ b. (x == k) || b) (contains-sorted_set k xs)

-- A search that finds nothing has tried every element.
pub first-none :
    (p : String → Bool) (k : String) (xs : List String)
    → first p xs ≡ none
    → contains k xs ≡ true
    → p k ≡ false
first-none p k [] h m = cc
first-none p k (x ∷ xs) h m = ground (arith, eq_iff x k, first-none p k xs)

pub any-first {ℓ} : {A : Type ℓ} (p : A → Bool) (xs : List A) → first p xs ≡ none → any p xs ≡ false
any-first p [] h = refl
any-first p (x ∷ xs) h = ground (arith, any-first p xs)

-- No text is in both.
abbrev pub Disjoint : List String → List String → Type 0
Disjoint xs ys = (k : String) → contains k xs ≡ true → contains k ys ≡ false

pub same_name→eq : (a b : Option String) → same_name a b ≡ true → a ≡ b
same_name→eq none none h = refl
same_name→eq (some a) (some b) h = ap some ((eq_iff a b).0 h)
same_name→eq none (some b) h = absurd (cc)
same_name→eq (some a) none h = absurd (cc)

pub same_name_refl : (a : Option String) → same_name a a ≡ true
same_name_refl none = refl
same_name_refl (some a) = (eq_iff a a).1 refl

-- ===== src/Base/Keys.antt =====
-- Sets of texts as lists, and dictionaries keyed by text as association lists. What the program
-- reads of a set is membership and its elements in sorted order.
use Prim.Native.String.{String, compare}
use Prim.Native.Nat.{Ordering}
use mathlib.Core.Bool.{Bool, true, false, ◌&&◌, ◌||◌}
use mathlib.Core.Option.{Option, none, some}
use mathlib.Core.List.{List, [], ◌∷◌, ◌++◌}
use text.Mathlib.Text.{◌==◌}
use esp32_rig.Base.Tests.{if◌then◌else◌, is_some}
use esp32_rig.Base.Lists.{all}

-- `k in xs`
abbrev pub contains : String → List String → Bool
contains k [] = false
contains k (x ∷ xs) = x == k || contains k xs

-- `set(xs) <= set(ys)`
abbrev pub subset : List String → List String → Bool
subset xs ys = all (λ x. contains x ys) xs

-- One element put into a sorted list that has no duplicates.
abbrev pub sorted_insert : String → List String → List String
sorted_insert k [] = k ∷ []
sorted_insert k (x ∷ xs) =
    let rest = sorted_insert k xs in
    elim (compare k x) [ Ordering.lt ↦ k ∷ x ∷ xs | Ordering.eq ↦ x ∷ xs | Ordering.gt ↦ x ∷ rest ]

-- `sorted(set(xs))`
abbrev pub sorted_set : List String → List String
sorted_set [] = []
sorted_set (x ∷ xs) = sorted_insert x (sorted_set xs)

abbrev pub insert_text : String → List String → List String
insert_text k [] = k ∷ []
insert_text k (x ∷ xs) =
    let rest = insert_text k xs in elim (compare k x) [ Ordering.gt ↦ x ∷ rest | _ ↦ k ∷ x ∷ xs ]

-- `sorted(xs)`
abbrev pub sorted_texts : List String → List String
sorted_texts [] = []
sorted_texts (x ∷ xs) = insert_text x (sorted_texts xs)

-- Two optional names are the same one.
abbrev pub same_name : Option String → Option String → Bool
same_name none none = true
same_name (some a) (some b) = a == b
same_name none (some b) = false
same_name (some a) none = false

-- Two sequences of texts are equal.
abbrev pub same_texts : List String → List String → Bool
same_texts [] [] = true
same_texts (x ∷ xs) (y ∷ ys) = x == y && same_texts xs ys
same_texts _ _ = false

module _ {ℓ} {V : Type ℓ} where
  -- `d.get(k)`
  abbrev pub lookup : String → List (String × V) → Option V
  lookup k [] = none
  lookup k ((j, v) ∷ d) = if j == k then some v else lookup k d

  -- `k in d`
  abbrev pub has_key : String → List (String × V) → Bool
  has_key k d = is_some (lookup k d)

  -- `d[k] = v`
  abbrev pub put : String → V → List (String × V) → List (String × V)
  put k v [] = (k, v) ∷ []
  put k v ((j, w) ∷ d) = if j == k then (k, v) ∷ d else (j, w) ∷ put k v d

  -- `d.setdefault(k, v)`
  abbrev pub set_default : String → V → List (String × V) → List (String × V)
  set_default k v d = if has_key k d then d else d ++ (k, v) ∷ []

-- ===== src/Allocation/Rig/Holders.antt =====
-- The dictionaries of held boards and resources that `attempt` builds from the running grants.
use esp32_rig.Base.{
  String, ◌≡◌, refl, true, false, ◌||◌, none, List, [], ◌∷◌, arith, eq_iff, contains, put, lookup,
  any, ◌==◌, sorted_set, contains-sorted_set,
}
use esp32_rig.Allocation.{Grant}
use esp32_rig.Allocation.Rig.{put_all, holders, keys_of, first_key}

module _ {ℓ} {V : Type ℓ} where
  keys_of-put :
      (k j : String) (v : V) (m : List (String × V))
      → contains k (keys_of (put j v m)) ≡ (j == k) || contains k (keys_of m)
  keys_of-put k j v [] = refl
  keys_of-put k j v ((i, w) ∷ m) = ground (arith, keys_of-put k j v m, eq_iff i j)

  -- A dictionary with none of these keys has no such entry.
  first_key-none :
      (k : String) (ks : List String) (m : List (String × V))
      → first_key ks m ≡ none
      → contains k ks ≡ true
      → lookup k m ≡ none
  first_key-none k [] m e h = absurd (cc)
  first_key-none k (j ∷ js) m e h = ground (arith, eq_iff j k, first_key-none k js m)

  lookup-none :
      (k : String) (m : List (String × V)) → lookup k m ≡ none → contains k (keys_of m) ≡ false
  lookup-none k [] e = refl
  lookup-none k ((j, v) ∷ m) e = ground (arith, lookup-none k m)

keys_of-put_all :
    (k : String) (g : Grant) (ks : List String) (m : List (String × Grant))
    → contains k (keys_of (put_all g ks m)) ≡ contains k ks || contains k (keys_of m)
keys_of-put_all k g [] m = refl
keys_of-put_all k g (j ∷ js) m =
    ground (arith, keys_of-put_all k g js (put j g m), keys_of-put k j g m)

-- The keys are those of the grants.
pub keys_of-holders :
    (keys : Grant → List String) (k : String) (gs : List Grant) (m : List (String × Grant))
    → contains k (keys_of (holders keys gs m))
      ≡ any (λ g. contains k (keys g)) gs || contains k (keys_of m)
unfolding holders
keys_of-holders keys k [] m = refl
keys_of-holders keys k (g ∷ gs) m =
    ground (arith, keys_of-holders keys k gs (put_all g (keys g) m), keys_of-put_all k g (keys g) m)

-- Resources of which the dictionary has none are used by no grant.
pub first_key-free :
    (keys : Grant → List String) (k : String) (ks : List String) (gs : List Grant)
    → first_key (sorted_set ks) (holders keys gs []) ≡ none
    → contains k ks ≡ true
    → any (λ g. contains k (keys g)) gs ≡ false
first_key-free keys k ks gs e h = ground (
  arith,
  contains-sorted_set k ks,
  first_key-none k (sorted_set ks) (holders keys gs []),
  lookup-none k (holders keys gs []),
  keys_of-holders keys k gs [],
)

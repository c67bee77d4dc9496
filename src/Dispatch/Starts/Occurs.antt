-- ===== src/Dispatch/Starts/Occurs.antt =====
-- How often a run stands in the queue.
use mathlib.Core.List.{Perm, Permᴰ}
use mathlib.Core.Logic.{∥∥₁_elim}
use esp32_rig.Base.{
  ℕ, ◌+◌, String, Bool, true, ◌≡◌, refl, ap, ◌∙◌, List, [], ◌∷◌, ◌++◌, arith, map, length, filter,
  filter-append, length-append, ◌==◌,
}
use esp32_rig.Store.Table.{update_where, count_where, insert_by, order_by}
use esp32_rig.Store.Jobs.{is_queued, is_live, Job, Jobs, is_queued_job}
use esp32_rig.Store.Queue.{active}

-- How often an id stands in a list.
abbrev pub occurs : String → List String → ℕ
occurs k ids = length (filter (λ i. i == k) ids)

occurs-PermD : (k : String) {is js : List String} → Permᴰ is js → occurs k is ≡ occurs k js
occurs-PermD k Permᴰ.nil = refl
occurs-PermD k (Permᴰ.cons {a} {b} {l₁} {l₂} e p) = let h = occurs-PermD k p in ground (arith, e, h)
occurs-PermD k (Permᴰ.swap {a} {b} {a' = c} {b' = d} {l} e f) = ground (arith, e, f)
occurs-PermD k (Permᴰ.trans p q) = occurs-PermD k p ∙ occurs-PermD k q

pub occurs-Perm : (k : String) {is js : List String} → Perm is js → occurs k is ≡ occurs k js
occurs-Perm k p = ∥∥₁_elim p (hlevel) (λ d. occurs-PermD k d)

pub occurs-append :
    (k : String) (is js : List String) → occurs k (is ++ js) ≡ occurs k is + occurs k js
occurs-append k is js =
    ap length (filter-append (λ i. i == k) is js)
    ∙ length-append (filter (λ i. i == k) is) (filter (λ i. i == k) js)

module _ {ℓ} {A : Type ℓ} (q : A → Bool) where
  count-insert_by :
      (before : A → A → Bool) (a : A) (xs : List A)
      → count_where q (insert_by before a xs) ≡ count_where q (a ∷ xs)
  count-insert_by before a [] = refl
  count-insert_by before a (x ∷ xs) = ground (arith, count-insert_by before a xs)

  count-order_by :
      (before : A → A → Bool) (xs : List A) → count_where q (order_by before xs) ≡ count_where q xs
  count-order_by before [] = refl
  count-order_by before (x ∷ xs) =
      count-insert_by before x (order_by before xs) ∙ ground (arith, count-order_by before xs)

  count-filter :
      (p : A → Bool) (xs : List A)
      → ((x : A) → q x ≡ true → p x ≡ true)
      → count_where q (filter p xs) ≡ count_where q xs
  count-filter p [] h = refl
  count-filter p (x ∷ xs) h = ground (arith, count-filter p xs h, h x)

  pub count-update_apart :
      (p : A → Bool) (f : A → A) (xs : List A)
      → ((x : A) → p x ≡ true → q (f x) ≡ q x)
      → count_where q (update_where p f xs) ≡ count_where q xs
  count-update_apart p f [] h = refl
  count-update_apart p f (x ∷ xs) h = ground (arith, count-update_apart p f xs h, h x)

abbrev pub ids_of : List Job → List String
ids_of = map (λ j. j.id)

occurs-ids :
    (k : String) (jobs : List Job)
    → occurs k (ids_of (filter (λ j. is_queued j.status) jobs)) ≡ count_where (is_queued_job k) jobs
occurs-ids k [] = refl
occurs-ids k (j ∷ jobs) = ground (arith, occurs-ids k jobs)

-- The queue has each queued run as often as the table.
pub occurs-queued :
    (k : String) (jobs : Jobs)
    → occurs k (ids_of (filter (λ j. is_queued j.status) (active jobs)))
      ≡ count_where (is_queued_job k) jobs
unfolding active
occurs-queued k jobs =
    occurs-ids k (active jobs)
    ∙ count-order_by (is_queued_job k) _ (filter is_live jobs)
    ∙ count-filter (is_queued_job k) is_live jobs (λ j h. ground arith)

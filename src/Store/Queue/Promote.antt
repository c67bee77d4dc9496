-- ===== src/Store/Queue/Promote.antt =====
-- A promoted run is the next one that starts.
use esp32_rig.Base.{
  ℕ, ◌+◌, ◌≤◌, ◌<◌, max, ◌≡◌, refl, ap, subst, String, true, false, ◌⊎◌, inl, inr, some, List, [],
  ◌∷◌, arith, filter, eq_iff, All, All-filter_self, Bool-cases, Option-cases, ◌==◌,
}
use esp32_rig.Store.Table.{update_where, order_by, insert_by, All-update_where, All-order_by}
use esp32_rig.Store.Jobs.{Job, Jobs, has_id, get}
use esp32_rig.Store.Queue.{ahead, is_waiting, head, next_queued, top_priority, promoted, promote}

-- The front of the order has the highest priority.
head-insert :
    (a : Job) (xs : List Job) (j : Job)
    → head (insert_by ahead a xs) ≡ some j
    → (n : ℕ) → ((k : Job) → head xs ≡ some k → k.priority ≡ n)
    → (xs ≡ [] → n ≡ 0)
    → j.priority ≡ max a.priority n
unfolding ahead
head-insert a [] j e n h z = ground (arith, z refl)
head-insert a (x ∷ xs) j e n h z = ground (arith, h x refl)

insert_by-nil : (a : Job) (xs : List Job) → insert_by ahead a xs ≡ [] → ⊥
unfolding ahead
insert_by-nil a [] e = cc
insert_by-nil a (x ∷ xs) e = ground arith

order_by-nil : (xs : List Job) → order_by ahead xs ≡ [] → top_priority xs ≡ 0
unfolding top_priority
order_by-nil [] e = refl
order_by-nil (x ∷ xs) e = absurd (insert_by-nil x (order_by ahead xs) e)

head-order_by :
    (xs : List Job) (j : Job) → head (order_by ahead xs) ≡ some j → j.priority ≡ top_priority xs
unfolding top_priority
head-order_by [] j e = absurd (cc)
head-order_by (x ∷ xs) j e =
    head-insert x (order_by ahead xs) j e (top_priority xs) (head-order_by xs) (order_by-nil xs)

abbrev raise_to : ℕ → Job → Job
raise_to n j = record j { priority = n }

abbrev raised : String → ℕ → Jobs → Jobs
raised id n = update_where (has_id id) (raise_to n)

-- A queued row has at most the top priority.
abbrev Low : ℕ → Job → Type 0
Low n j = (is_waiting j ≡ false) ⊎ (j.priority ≤ n)

Low-top : (jobs : Jobs) (n : ℕ) → top_priority (filter is_waiting jobs) ≤ n → All (Low n) jobs
unfolding top_priority
Low-top [] n h = tt
Low-top (j ∷ js) n h = elim (Bool-cases (is_waiting j)) [
  | inl e ↦
      let le : max j.priority (top_priority (filter is_waiting js)) ≤ n = rw e at h in
      (inr (omega arith), Low-top js n (omega arith))
  | inr e ↦ (inl e, Low-top js n (rw e at h))
]

-- In the new table a queued row is the promoted one, or no higher than the old top.
abbrev Promoted : String → ℕ → Job → Type 0
Promoted id n j = ((j.id == id) ≡ true) ⊎ Low n j

raised-Promoted :
    (id : String) (n m : ℕ) (jobs : Jobs)
    → All (Low n) jobs
    → All (Promoted id n) (raised id m jobs)
raised-Promoted id n m jobs h =
    All-update_where (Low n) (Promoted id n) (has_id id) (raise_to m) jobs (λ j e l. inl e)
      (λ j e l. inr l) h

-- The promoted row is queued, so the new top is its priority at least.
top-raised :
    (id : String) (n : ℕ) (jobs : Jobs) (j : Job)
    → get id jobs ≡ some j
    → is_waiting j ≡ true
    → n ≤ top_priority (filter is_waiting (raised id n jobs))
unfolding top_priority
top-raised id n [] j e w = absurd (cc)
top-raised id n (x ∷ xs) j e w = ground (arith, top-raised id n xs j)

get-promoted :
    (id : String) (jobs jobs' : Jobs)
    → promote id jobs ≡ promoted jobs'
    → (j : Job) × (get id jobs ≡ some j)
      × (is_waiting j ≡ true)
      × (jobs' ≡ raised id (top_priority (filter is_waiting jobs) + 1) jobs)
unfolding promote
get-promoted id jobs jobs' e = elim (Option-cases (get id jobs)) [
  | inl missing ↦ absurd (ground arith)
  | inr (j, found) ↦ (j, found, ground arith, ground arith)
]

-- The front of a queue that has one, and what holds of all its rows.
front :
    (P : Job → Type 0) (xs : List Job)
    → All P xs
    → 0 < top_priority xs
    → (j : Job) × (head (order_by ahead xs) ≡ some j) × P j × (j.priority ≡ top_priority xs)
front P xs h pos = go (order_by ahead xs) refl
  where
    go :
        (ys : List Job)
        → order_by ahead xs ≡ ys
        → (j : Job) × (head (order_by ahead xs) ≡ some j) × P j × (j.priority ≡ top_priority xs)
    go [] e = absurd (omega (arith, order_by-nil xs e))
    go (j ∷ js) e =
        let hit : head (order_by ahead xs) ≡ some j = ap head e in
        let all : All P (j ∷ js) = subst (All P) e (All-order_by P ahead xs h) in
        (j, hit, all.0, head-order_by xs j hit)

-- A run that is promoted is the next that starts: `next_queued` answers with its id.
pub next_queued-promote :
    (id : String) (jobs jobs' : Jobs)
    → promote id jobs ≡ promoted jobs'
    → (j : Job) × (next_queued jobs' ≡ some j) × (j.id ≡ id)
unfolding next_queued
next_queued-promote id jobs jobs' e =
    let (old, found, waiting, same) = get-promoted id jobs jobs' e in
    let top = top_priority (filter is_waiting jobs) in
    let rows = raised id (top + 1) jobs in
    let high : top + 1 ≤ top_priority (filter is_waiting rows) =
      top-raised id (top + 1) jobs old found waiting in
    let low = raised-Promoted id top (top + 1) jobs (Low-top jobs top (omega arith)) in
    let (j, hit, is_low, priority) =
      front (λ r. Promoted id top r × (is_waiting r ≡ true)) (filter is_waiting rows)
        (All-filter_self (Promoted id top) is_waiting rows low) (omega arith) in
    (j, rw same hit, ground (arith, eq_iff j.id id))

-- ===== src/Store/Jobs/Recover.antt =====
-- What a restart of the service leaves of the runs that it interrupted.
use esp32_rig.Base.{
  ℕ, ◌≡◌, refl, sym, ap, ◌∙◌, Bool, true, false, not, ◌&&◌, ◌||◌, inl, inr, List, [], ◌∷◌, ◌++◌,
  map, arith, filter, eq_iff, any, All, All-with, Bool-cases,
}
use mathlib.Core.List.{append-nil, append_assoc}
use esp32_rig.Store.Table.{order_by, insert_by, All-update_where}
use esp32_rig.Store.Jobs.{
  Job, Jobs, is_queued, is_running, is_live, has_id, older, update, update_progress, set_status,
  failed,
}
use esp32_rig.Store.Jobs.Restart.{
  is_remote, settle_stage, interrupted, recover_row, recover_rows, recover_incomplete,
}

abbrev pub is_waiting : Job → Bool
is_waiting j = is_queued j.status

abbrev pub is_lost : Bool → Job → Bool
is_lost keep_remote j = is_running j.status && not (is_remote keep_remote j)

recover_rows-again :
    (keep_remote : Bool) (now : ℕ) (js again : List Job) (jobs : Jobs)
    → (recover_rows keep_remote now js (again, jobs)).0 ≡ again ++ filter is_waiting js
unfolding recover_rows recover_row
recover_rows-again keep_remote now [] again jobs = sym (append-nil again)
recover_rows-again keep_remote now (j ∷ js) again jobs = elim (Bool-cases (is_waiting j)) [
  | inl e ↦
      rw (e, recover_row, recover_rows)
        (recover_rows-again keep_remote now js (again ++ j ∷ []) jobs
          ∙ append_assoc again (j ∷ []) (filter is_waiting js))
  | inr e ↦ elim (Bool-cases (is_remote keep_remote j)) [
    | inl far ↦
        rw (e, far, recover_row, recover_rows) (recover_rows-again keep_remote now js again jobs)
    | inr near ↦
        rw (e, near, recover_row, recover_rows) (recover_rows-again keep_remote now js again _)
  ]
]

-- A run that was lost is a run of the list.
abbrev LostIn : Bool → List Job → Job → Type 0
LostIn keep_remote js r =
    is_lost keep_remote r ≡ true → any (λ j. has_id r.id j && is_lost keep_remote j) js ≡ true

other-LostIn :
    (keep_remote : Bool) (j : Job) (js : List Job) (r : Job)
    → (has_id r.id j && is_lost keep_remote j) ≡ false
    → LostIn keep_remote (j ∷ js) r
    → LostIn keep_remote js r
other-LostIn keep_remote j js r miss h lost = ground (arith, h lost)

-- The row that the two statements of a lost run leave.
settled_row : (now : ℕ) (j r : Job) → Job
settled_row now j r =
    set_status failed now interrupted (record r { progress = map (settle_stage now) j.progress })

settle-LostIn :
    (keep_remote : Bool) (now : ℕ) (j : Job) (js : List Job) (jobs : Jobs)
    → All (LostIn keep_remote (j ∷ js)) jobs
    → All (LostIn keep_remote js) (
        update j.id failed now interrupted
          (update_progress j.id (map (settle_stage now) j.progress) jobs))
unfolding update update_progress
settle-LostIn keep_remote now j js jobs h =
    All-update_where (LostIn keep_remote (j ∷ js)) (LostIn keep_remote js) (has_id j.id)
      (set_status failed now interrupted) _ (λ r e l lost. absurd (cc lost))
      (λ r e l.
        other-LostIn keep_remote j js r (ground (arith, eq_iff j.id r.id, eq_iff r.id j.id)) l)
      (All-update_where (LostIn keep_remote (j ∷ js)) (LostIn keep_remote (j ∷ js)) (has_id j.id)
        (λ r. record r { progress = map (settle_stage now) j.progress }) jobs (λ r e l. l)
        (λ r e l. l) h)

recover_row-LostIn :
    (keep_remote : Bool) (now : ℕ) (j : Job) (js again : List Job) (jobs : Jobs)
    → All (LostIn keep_remote (j ∷ js)) jobs
    → All (LostIn keep_remote js) (recover_row keep_remote now j (again, jobs)).1
unfolding recover_row
recover_row-LostIn keep_remote now j js again jobs h = elim (Bool-cases (is_queued j.status)) [
  | inl e ↦
      rw (e, recover_row)
        (All-with _ _ jobs (λ r. other-LostIn keep_remote j js r (ground arith)) h)
  | inr e ↦ elim (Bool-cases (is_remote keep_remote j)) [
    | inl far ↦
        rw (e, far, recover_row)
          (All-with _ _ jobs (λ r. other-LostIn keep_remote j js r (ground arith)) h)
    | inr near ↦ rw (e, near, recover_row) (settle-LostIn keep_remote now j js jobs h)
  ]
]

recover_rows-LostIn :
    (keep_remote : Bool) (now : ℕ) (js again : List Job) (jobs : Jobs)
    → All (LostIn keep_remote js) jobs
    → All (LostIn keep_remote []) (recover_rows keep_remote now js (again, jobs)).1
unfolding recover_rows
recover_rows-LostIn keep_remote now [] again jobs h = h
recover_rows-LostIn keep_remote now (j ∷ js) again jobs h =
    let next = recover_row keep_remote now j (again, jobs) in
    recover_rows-LostIn keep_remote now js next.0 next.1
      (recover_row-LostIn keep_remote now j js again jobs h)

any-insert_by :
    (p : Job → Bool) (j : Job) (js : List Job) → any p (insert_by older j js) ≡ p j || any p js
any-insert_by p j [] = refl
any-insert_by p j (x ∷ xs) = ground (arith, any-insert_by p j xs)

any-order_by : (p : Job → Bool) (js : List Job) → any p (order_by older js) ≡ any p js
any-order_by p [] = refl
any-order_by p (j ∷ js) =
    any-insert_by p j (order_by older js) ∙ ap (λ b. p j || b) (any-order_by p js)

more-LostIn :
    (keep_remote : Bool) (j : Job) (js : List Job) (r : Job)
    → LostIn keep_remote (filter is_live js) r
    → LostIn keep_remote (filter is_live (j ∷ js)) r
more-LostIn keep_remote j js r h lost = ground (arith, h lost)

-- The rows of the table that the loop starts from.
live-LostIn :
    (keep_remote : Bool) (jobs : Jobs) → All (LostIn keep_remote (filter is_live jobs)) jobs
live-LostIn keep_remote [] = tt
live-LostIn keep_remote (r ∷ rs) = (
  λ lost. ground (arith, eq_iff r.id r.id),
  All-with _ _ rs (λ q. more-LostIn keep_remote r rs q) (live-LostIn keep_remote rs),
)

not_lost : (keep_remote : Bool) (r : Job) → LostIn keep_remote [] r → is_lost keep_remote r ≡ false
not_lost keep_remote r h = elim (Bool-cases (is_lost keep_remote r)) [
  | inl lost ↦ absurd (cc (h lost))
  | inr fine ↦ fine
]

-- After a restart no run is left running, but on a portal those that a worker may still be doing;
-- and the runs handed back are those that were queued, oldest first.
pub recover_incomplete-settles :
    (keep_remote : Bool) (now : ℕ) (jobs : Jobs)
    → ((recover_incomplete keep_remote now jobs).0
        ≡ filter is_waiting (order_by older (filter is_live jobs)))
      × All (λ r. is_lost keep_remote r ≡ false) (recover_incomplete keep_remote now jobs).1
unfolding recover_incomplete
recover_incomplete-settles keep_remote now jobs =
    let js = order_by older (filter is_live jobs) in
    let start =
      All-with (LostIn keep_remote (filter is_live jobs)) (LostIn keep_remote js) jobs
        (λ r h lost.
          any-order_by (λ j. has_id r.id j && is_lost keep_remote j) (filter is_live jobs) ∙ h lost)
        (live-LostIn keep_remote jobs) in
    (
      recover_rows-again keep_remote now js [] jobs,
      All-with _ _ _ (not_lost keep_remote) (recover_rows-LostIn keep_remote now js [] jobs start),
    )

-- ===== src/Dispatch/Supersede/Spared.antt =====
-- What a submission leaves alone.
use esp32_rig.Base.{
  ℕ, String, Bool, true, false, ◌≡◌, refl, ◌∙◌, ◌&&◌, ◌||◌, Option, some, List, [], ◌∷◌, arith, any,
  lookup, put, err, Result-cases, Bool-cases, Option-cases, inl, inr, eq_iff, ◌==◌,
}
use esp32_rig.Store.Table.{update_where}
use esp32_rig.Store.Jobs.{
  is_queued, is_running, Job, Jobs, Fields, has_id, is_queued_job, is_running_job, cancel_if_queued,
  update_progress, requeue, get,
}
use esp32_rig.Store.Queue.{active}
use esp32_rig.Dispatch.{Service, Request, is_portal, act_all, pop}
use esp32_rig.Dispatch.Cancels.{
  raced, result_of, ask, cancel_row_of, quiet, Answer, cancel_read, take_back, cancel_reread,
  cancel_running, cancel_turn, cancel,
}
use esp32_rig.Dispatch.Supersede.{keeps_others, commit_of, is_superseded, supersede_all, supersede}

-- The run that is read under an id, after an UPDATE of rows of another id.
get-update_apart :
    (k : String) (p : Job → Bool) (f : Job → Job) (jobs : Jobs)
    → ((j : Job) → p j ≡ true → has_id k j ≡ false)
    → ((j : Job) → has_id k (f j) ≡ has_id k j)
    → get k (update_where p f jobs) ≡ get k jobs
get-update_apart k p f [] apart same = refl
get-update_apart k p f (j ∷ jobs) apart same = elim (Bool-cases (p j)) [
  | inl changed ↦
      let other = apart j changed in
      rw (changed, same j ∙ other, other) (get-update_apart k p f jobs apart same)
  | inr left ↦ elim (Bool-cases (has_id k j)) [
    | inl mine ↦ rw (left, mine) refl
    | inr other ↦ rw (left, other) (get-update_apart k p f jobs apart same)
  ]
]

-- The run's row and the request that its thread stop, if there is one, are as they were.
abbrev pub IsLeftAlone : String → Service → Service → Type 0
IsLeftAlone k s s' =
    (get k s'.jobs ≡ get k s.jobs) × (lookup k s'.cancel_requests ≡ lookup k s.cancel_requests)

module _ (k id : String) (apart : (k == id) ≡ false) where
  not_mine : (j : Job) → has_id id j ≡ true → has_id k j ≡ false
  not_mine j h = ground (arith, eq_iff j.id id, eq_iff j.id k, eq_iff k id)

  get-cancel_if_queued :
      (now : ℕ) (result : Fields) (jobs : Jobs)
      → get k (cancel_if_queued id now result jobs).1 ≡ get k jobs
  unfolding cancel_if_queued
  get-cancel_if_queued now result jobs =
      get-update_apart k (is_queued_job id) _ jobs (λ j h. not_mine j (ground arith)) (λ j. refl)

  get-requeue_other : (jobs : Jobs) → get k (requeue id jobs).1 ≡ get k jobs
  unfolding requeue
  get-requeue_other jobs =
      get-update_apart k (is_running_job id) _ jobs (λ j h. not_mine j (ground arith)) (λ j. refl)

  get-cancel_row_of :
      (now : ℕ) (result : Fields) (j : Job) (s : Service)
      → get k (cancel_row_of id now result j s).jobs ≡ get k s.jobs
  unfolding update_progress
  get-cancel_row_of now result j s =
      get-update_apart k (has_id id) _ (cancel_if_queued id now result s.jobs).1 not_mine
        (λ j. refl)
      ∙ get-cancel_if_queued now result s.jobs

  lookup-put_other :
      (v : Request) (d : List (String × Request)) → lookup k (put id v d) ≡ lookup k d
  lookup-put_other v [] = ground (arith, eq_iff id k, eq_iff k id)
  lookup-put_other v ((j, w) ∷ d) =
      ground (arith, lookup-put_other v d, eq_iff j id, eq_iff j k, eq_iff k id)

  lookup-pop_other : (d : List (String × Request)) → lookup k (pop id d) ≡ lookup k d
  lookup-pop_other [] = refl
  lookup-pop_other ((j, w) ∷ d) =
      ground (arith, lookup-pop_other d, eq_iff j id, eq_iff j k, eq_iff k id)

  get-take_back : (s : Service) → get k (take_back id quiet s).jobs ≡ get k s.jobs
  unfolding act_all
  get-take_back s = get-requeue_other s.jobs

  lookup-take_back :
      (s : Service) → lookup k (take_back id quiet s).cancel_requests ≡ lookup k s.cancel_requests
  unfolding act_all
  lookup-take_back s = lookup-pop_other s.cancel_requests

  cancel_read-IsLeftAlone :
      (now : ℕ) (result : Fields) (j : Job) (s : Service)
      → IsLeftAlone k s (cancel_read (λ s'. (s', err raced)) id now result [] j s).0
  unfolding cancel_read act_all
  cancel_read-IsLeftAlone now result j s = elim (Bool-cases (is_queued j.status)) [
    | inl waits ↦ elim (Bool-cases (cancel_if_queued id now result s.jobs).0) [
      | inl won ↦ rw (waits, won) (get-cancel_row_of now result j s, refl)
      | inr lost ↦ rw (waits, lost) (refl, refl)
    ]
    | inr over ↦ rw over (refl, refl)
  ]

  module _ (unlease : String → Service → Bool) (now : ℕ) (summary : String)
      (detail superseded_by : Option String) where
    abbrev said : Fields
    said = result_of summary detail superseded_by

    abbrev lose : Service → Answer
    lose s = (s, err raced)

    reread-IsLeftAlone :
        (s : Service)
        → IsLeftAlone k s (cancel_reread unlease id now summary detail superseded_by lose quiet s).0
    unfolding cancel_reread
    reread-IsLeftAlone s = elim (Option-cases (get id s.jobs)) [
      | inl nobody ↦ rw (nobody, cancel_reread) (refl, refl)
      | inr (j, found) ↦ rw (found, cancel_reread) (cancel_read-IsLeftAlone now said j s)
    ]

    running-IsLeftAlone :
        (s : Service)
        → IsLeftAlone k s
            (cancel_running unlease id now summary detail superseded_by lose quiet
              (ask id summary detail s)).0
    unfolding cancel_running
    running-IsLeftAlone s =
        let asked = ask id summary detail s in
        let request : Request = record { summary = summary; detail = detail } in
        let put_by = lookup-put_other request s.cancel_requests in
        elim (Bool-cases (is_portal s.mode && unlease id asked)) [
          | inr taken ↦ rw taken (refl, put_by)
          | inl leased ↦
              let t = take_back id quiet asked in
              let (row, wish) = reread-IsLeftAlone t in
              rw leased (row ∙ get-take_back asked, wish ∙ lookup-take_back asked ∙ put_by)
        ]

    cancel-IsLeftAlone :
        (s : Service) → IsLeftAlone k s (cancel unlease id now summary detail superseded_by [] s).0
    unfolding cancel cancel_turn act_all
    cancel-IsLeftAlone s = elim (Option-cases (get id s.jobs)) [
      | inl nobody ↦ rw (nobody, cancel, cancel_turn) (refl, refl)
      | inr (j, found) ↦ elim (Bool-cases (is_running j.status)) [
        | inl runs ↦ rw (found, cancel, cancel_turn, runs) (running-IsLeftAlone s)
        | inr still ↦ rw (found, cancel, cancel_turn, still) (cancel_read-IsLeftAlone now said j s)
      ]
    ]

module _ (unlease : String → Service → Bool) (id kind : String) (request : Fields) (now : ℕ)
    (summary : String) (detail : Option String) where
  -- Whether a run of this id is among those that are superseded.
  abbrev pub is_hit : String → String → List Job → Bool
  is_hit sha k js = any (λ j. is_superseded id kind request sha j && has_id k j) js

  supersede_all-spares :
      (sha k : String) (js : List Job) (s : Service)
      → is_hit sha k js ≡ false
      → IsLeftAlone k s (supersede_all unlease id kind request now summary detail sha js [] s).0
  unfolding supersede_all act_all
  supersede_all-spares sha k [] s h = (refl, refl)
  supersede_all-spares sha k (j ∷ js) s h =
      elim (Bool-cases (is_superseded id kind request sha j)) [
        | inr spared ↦ rw (spared, supersede_all) (supersede_all-spares sha k js s (ground arith))
        | inl hit ↦
            let apart : (k == j.id) ≡ false = ground (arith, eq_iff j.id k, eq_iff k j.id) in
            let answer = cancel unlease j.id now summary detail (some id) [] s in
            let spares = cancel-IsLeftAlone k j.id apart unlease now summary detail (some id) s in
            elim (Result-cases answer.1) [
              | inl (_, done) ↦
                  let (row, wish) = supersede_all-spares sha k js answer.0 (ground arith) in
                  rw (hit, supersede_all, done) (row ∙ spares.0, wish ∙ spares.1)
              | inr (e, failed) ↦ rw (hit, supersede_all, failed) spares
            ]
      ]

  -- When no other thread acts meanwhile, and the request has a commit: what a submission does to the
  -- other runs spares each one that is not an active run of another commit, of the same kind, branch
  -- and profile. Its row is left as it was, and so is what its thread is asked, whether or not an
  -- error ends the loop.
  pub supersede-spares :
      (sha k : String) (s : Service)
      → commit_of request ≡ some sha
      → is_hit sha k (active s.jobs) ≡ false
      → IsLeftAlone k s (supersede unlease id kind request now summary detail [] s).0
  unfolding supersede
  supersede-spares sha k s commit spared =
      elim (Bool-cases (keeps_others request || kind == "inventory")) [
        | inl nothing ↦ rw nothing (refl, refl)
        | inr goes ↦ rw (goes, commit) (supersede_all-spares sha k (active s.jobs) s spared)
      ]

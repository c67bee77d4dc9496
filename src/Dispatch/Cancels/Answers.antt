-- ===== src/Dispatch/Cancels/Answers.antt =====
-- What an answer of `cancel` may be, and the reading that ends in one.
use esp32_rig.Base.{
  ℕ, String, Bool, true, false, ◌≡◌, refl, ◌∙◌, ◌&&◌, Option, none, some, has_key, put, List, [],
  ◌∷◌, arith, any, Bool-cases, inl, inr, ◌⊎◌, ok, err, eq_iff,
}
use esp32_rig.Store.Table.{update_where, count_where, any-update_where}
use esp32_rig.Store.Jobs.{
  Status, is_queued, is_running, is_finished, Job, Jobs, Fields, has_id, is_queued_job,
  cancel_if_queued, cancel_row, update_progress, get,
}
use esp32_rig.Dispatch.{Service, Step, act_all}
use esp32_rig.Dispatch.Cancels.{no_such_job, job_is, raced, cancel_row_of, Answer, cancel_read}

abbrev pub is_cancelled : Status → Bool
is_cancelled Status.cancelled = true
is_cancelled _ = false

abbrev pub is_cancelled_job : String → Job → Bool
is_cancelled_job id j = has_id id j && is_cancelled j.status

-- The run is cancelled, or its thread is asked to stop.
abbrev pub IsStopped : String → Service → Type 0
IsStopped id s = (any (is_cancelled_job id) s.jobs ≡ true) ⊎ (has_key id s.cancel_requests ≡ true)

-- The status of the run that is read under an id.
abbrev pub status_at : String → Service → Option Status
status_at id s = elim (get id s.jobs) [ none ↦ none | some j ↦ some j.status ]

-- A run that can no longer be cancelled, or one that was claimed after it was taken back.
abbrev pub IsRefusable : Bool → Status → Type 0
IsRefusable raced_back status =
    (is_finished status ≡ true) ⊎ ((is_running status ≡ true) × (raced_back ≡ true))

-- An answer that leaves no run going without its thread being asked, or says why not.
abbrev pub IsAnswered : String → Bool → Answer → Type 0
IsAnswered id raced_back (s, ok done) = IsStopped id s
IsAnswered id raced_back (s, err no_such_job) = get id s.jobs ≡ none
IsAnswered id raced_back (s, err (job_is status)) =
    (status_at id s ≡ some status) × IsRefusable raced_back status
IsAnswered id raced_back (s, err raced) = ⊥

pub has_key-put {ℓ} :
    {V : Type ℓ} (k : String) (v : V) (d : List (String × V)) → has_key k (put k v d) ≡ true
has_key-put k v [] = ground (arith, eq_iff k k)
has_key-put k v ((j, w) ∷ d) = ground (arith, has_key-put k v d, eq_iff k k)

any-updated :
    (p q : Job → Bool) (f : Job → Job) (jobs : Jobs)
    → ((j : Job) → p j ≡ true → q (f j) ≡ true)
    → count_where p jobs ≡ 1
    → any q (update_where p f jobs) ≡ true
any-updated p q f [] h e = absurd (cc)
any-updated p q f (j ∷ jobs) h e = ground (arith, any-updated p q f jobs h, h j)

cancelled-IsStopped :
    (id : String) (now : ℕ) (result : Fields) (j : Job) (s : Service)
    → (cancel_if_queued id now result s.jobs).0 ≡ true
    → IsStopped id (cancel_row_of id now result j s)
unfolding cancel_if_queued update_progress
cancelled-IsStopped id now result j s e = inl (
    any-update_where (is_cancelled_job id) (has_id id) _
      (update_where (is_queued_job id) (cancel_row now result) s.jobs) (λ j. refl)
    ∙ any-updated (is_queued_job id) (is_cancelled_job id) (cancel_row now result) s.jobs
        (λ j h. ground arith) (ground arith))

-- The run that was read is cancelled if it is queued, unless the race is lost; or it is refused.
pub cancel_read-IsAnswered :
    (again : Service → Answer) (id : String) (h : Bool) (now : ℕ) (result : Fields)
    (meanwhile : List Step) (j : Job) (s : Service)
    → get id s.jobs ≡ some j
    → (is_queued j.status ≡ true
        → (cancel_if_queued id now result (act_all meanwhile s).jobs).0 ≡ false
        → IsAnswered id h (again (act_all meanwhile s)))
    → (is_queued j.status ≡ false → IsRefusable h j.status)
    → IsAnswered id h (cancel_read again id now result meanwhile j s)
unfolding cancel_read
cancel_read-IsAnswered again id h now result meanwhile j s found lost refused =
    let s' = act_all meanwhile s in
    elim (Bool-cases (is_queued j.status)) [
      | inl waits ↦ elim (Bool-cases (cancel_if_queued id now result s'.jobs).0) [
        | inl won ↦ rw (waits, won) (cancelled-IsStopped id now result j s' won)
        | inr missed ↦ rw (waits, missed) (lost waits missed)
      ]
      | inr over ↦ rw over (rw found refl, refused over)
    ]

finished-of :
    (status : Status)
    → is_running status ≡ false
    → is_queued status ≡ false
    → is_finished status ≡ true
finished-of Status.queued r q = absurd (cc)
finished-of Status.running r q = absurd (cc)
finished-of Status.passed r q = refl
finished-of Status.failed r q = refl
finished-of Status.cancelled r q = refl

pub refused-IsRefusable :
    (h : Bool) (status : Status)
    → (is_running status ≡ true → h ≡ true)
    → is_queued status ≡ false
    → IsRefusable h status
refused-IsRefusable h status runs q = elim (Bool-cases (is_running status)) [
  | inl going ↦ inr (going, runs going)
  | inr still ↦ inl (finished-of status still q)
]

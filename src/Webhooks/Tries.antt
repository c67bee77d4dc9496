-- ===== src/Webhooks/Tries.antt =====
-- How often a delivery is tried.
use esp32_rig.Base.{
  ℕ, zero, suc, ◌+◌, ◌≤◌, ◌<◌, max, ◌≡◌, refl, ap, ◌∙◌, String, List, [], ◌∷◌, ◌++◌, arith, Result,
  ok, err, Result-cases, inl, inr, ◌⊎◌,
}
use esp32_rig.Webhooks.{
  Subscription, success, failed, dead, Try, tried, wait_after, deliver_loop, deliver,
}

module _ (send : ℕ → Result String ℕ) (backoff : ℕ) where
  -- So many tries that failed, from this one on.
  abbrev pub failures : ℕ → ℕ → List Try
  failures attempt zero = []
  failures attempt (suc k) = tried send backoff attempt failed ∷ failures (attempt + 1) k

  abbrev pub waits : ℕ → ℕ → List ℕ
  waits attempt zero = []
  waits attempt (suc k) = wait_after backoff attempt ∷ waits (attempt + 1) k

  -- Each of these tries raised.
  abbrev pub AllFail : ℕ → ℕ → Type 0
  AllFail attempt zero = Unit {0}
  AllFail attempt (suc k) = ((e : String) × (send attempt ≡ err e)) × AllFail (attempt + 1) k

  -- The first try that does not fail ends the delivery, before this many are done.
  pub record Succeeds (left attempt : ℕ) (d : List Try × List ℕ) : Type 0 where
    pub before : ℕ
    pub last : ℕ
    pub is_last : last ≡ attempt + before
    pub status : ℕ
    pub fewer : before < left
    pub fail : AllFail attempt before
    pub answer : send last ≡ ok status
    pub is :
        d ≡ (failures attempt before ++ tried send backoff last success ∷ [], waits attempt before)

  -- All of them fail, and the last is recorded as dead.
  pub record GivesUp (left attempt : ℕ) (d : List Try × List ℕ) : Type 0 where
    pub before : ℕ
    pub last : ℕ
    pub is_last : last ≡ attempt + before
    pub all_done : before + 1 ≡ left
    pub fail : AllFail attempt left
    pub is :
        d ≡ (failures attempt before ++ tried send backoff last dead ∷ [], waits attempt before)

  -- A try that failed, before the others.
  abbrev and_before : ℕ → List Try × List ℕ → List Try × List ℕ
  and_before attempt d = (tried send backoff attempt failed ∷ d.0, wait_after backoff attempt ∷ d.1)

  after_failure :
      (left attempt : ℕ) (e : String)
      → send attempt ≡ err e
      → deliver_loop send backoff (suc (suc left)) attempt
        ≡ and_before attempt (deliver_loop send backoff (suc left) (attempt + 1))
  unfolding deliver_loop
  after_failure left attempt e bad = rw (bad, deliver_loop) refl

  deliver_loop-tries :
      (left attempt : ℕ)
      → 1 ≤ left
      → Succeeds left attempt (deliver_loop send backoff left attempt)
        ⊎ GivesUp left attempt (deliver_loop send backoff left attempt)
  unfolding deliver_loop
  deliver_loop-tries zero attempt le = absurd (omega arith)
  deliver_loop-tries (suc zero) attempt le = elim (Result-cases (send attempt)) [
    | inl (status, good) ↦ inl (record {
      before = 0;
      last = attempt;
      is_last = omega arith;
      status = status;
      fewer = omega arith;
      fail = tt;
      answer = good;
      is = rw (good, deliver_loop) refl;
    })
    | inr (e, bad) ↦ inr (record {
      before = 0;
      last = attempt;
      is_last = omega arith;
      all_done = refl;
      fail = ((e, bad), tt);
      is = rw (bad, deliver_loop) refl;
    })
  ]
  deliver_loop-tries (suc (suc left)) attempt le = elim (Result-cases (send attempt)) [
    | inl (status, good) ↦ inl (record {
      before = 0;
      last = attempt;
      is_last = omega arith;
      status = status;
      fewer = omega arith;
      fail = tt;
      answer = good;
      is = rw (good, deliver_loop) refl;
    })
    | inr (e, bad) ↦ elim (deliver_loop-tries (suc left) (attempt + 1) (omega arith)) [
      | inl s ↦ inl (record {
        before = suc s.before;
        last = s.last;
        is_last = (let f = s.is_last in omega arith);
        status = s.status;
        fewer = (let f = s.fewer in omega arith);
        fail = ((e, bad), s.fail);
        answer = s.answer;
        is = after_failure left attempt e bad ∙ ap (and_before attempt) s.is;
      })
      | inr g ↦ inr (record {
        before = suc g.before;
        last = g.last;
        is_last = (let f = g.is_last in omega arith);
        all_done = (let f = g.all_done in omega arith);
        fail = ((e, bad), g.fail);
        is = after_failure left attempt e bad ∙ ap (and_before attempt) g.is;
      })
    ]
  ]

-- A delivery is tried until the first try that succeeds, and at most `max_retries` times, or once
-- where that is less: the tries that failed before are recorded as `failed`, one that succeeds as
-- `success`, and the last as `dead` if none does; after each that is recorded as `failed` comes a
-- wait, twice as long as the one before.
pub deliver-tries :
    (send : ℕ → Result String ℕ) (s : Subscription)
    → Succeeds send s.backoff_ms (max 1 s.max_retries) 1 (deliver send s)
      ⊎ GivesUp send s.backoff_ms (max 1 s.max_retries) 1 (deliver send s)
unfolding deliver
deliver-tries send s = deliver_loop-tries send s.backoff_ms (max 1 s.max_retries) 1 (omega arith)

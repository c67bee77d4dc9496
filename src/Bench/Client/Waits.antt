-- ===== src/Bench/Client/Waits.antt =====
-- A wait answers with the first event that it is for, and keeps every other one in its order.
use esp32_rig.Base.{
  ℕ, zero, suc, ◌+◌, ◌-◌, ◌≤◌, ◌≡◌, refl, sym, subst, ◌∙◌, Bool, true, false, none, some, List, [],
  ◌∷◌, ◌++◌, arith, first, Bool-cases, Option-cases, inl, inr,
}
use mathlib.Core.List.{append_assoc}
use esp32_rig.Bench.Client.{
  Event, Poll, Outcome, got, timed_out, unfinished, Waited, drop_first, wait_loop, wait_for,
}

-- The events among the polls that a wait used.
abbrev pub events : List Poll → List Event
events [] = []
events (poll ∷ polls) = elim poll.event [ none ↦ events polls | some e ↦ e ∷ events polls ]

-- What is left for later waits: held back, and not yet read.
abbrev pub unread : Waited → List Event
unread w = w.pending ++ events w.polls

-- What a wait makes of the events before it: with an answer, the first that matches is gone from
-- them and the rest is as it was; with none, nothing is gone.
abbrev pub Keeps : (Event → Bool) → List Event → Waited → Type 0
Keeps p before w = elim w.outcome [
  | got e ↦ (first p before ≡ some e) × (unread w ≡ drop_first p before)
  | timed_out ↦ unread w ≡ before
  | unfinished ↦ unread w ≡ before
]

first-append :
    (p : Event → Bool) (xs ys : List Event) → first p xs ≡ none → first p (xs ++ ys) ≡ first p ys
first-append p [] ys h = refl
first-append p (x ∷ xs) ys h = ground (arith, first-append p xs ys)

drop_first-append :
    (p : Event → Bool) (xs ys : List Event)
    → first p xs ≡ none
    → drop_first p (xs ++ ys) ≡ xs ++ drop_first p ys
drop_first-append p [] ys h = refl
drop_first-append p (x ∷ xs) ys h = ground (arith, drop_first-append p xs ys)

drop_first-hit :
    (p : Event → Bool) (e : Event) (xs ys : List Event)
    → first p xs ≡ some e
    → drop_first p (xs ++ ys) ≡ drop_first p xs ++ ys
drop_first-hit p e [] ys h = absurd (cc)
drop_first-hit p e (x ∷ xs) ys h = ground (arith, drop_first-hit p e xs ys)

first-hit :
    (p : Event → Bool) (e : Event) (xs ys : List Event)
    → first p xs ≡ some e
    → first p (xs ++ ys) ≡ some e
first-hit p e [] ys h = absurd (cc)
first-hit p e (x ∷ xs) ys h = ground (arith, first-hit p e xs ys)

wait_loop-Keeps :
    (p : Event → Bool) (polls : List Poll) (n : ℕ) (pending : List Event)
    → first p pending ≡ none
    → Keeps p (pending ++ events polls) (wait_loop p polls n pending)
unfolding wait_loop
wait_loop-Keeps p polls zero pending h = refl
wait_loop-Keeps p [] (suc n) pending h = refl
wait_loop-Keeps p (poll ∷ polls) (suc n) pending h = elim (Option-cases poll.event) [
  | inl e ↦ rw e (wait_loop-Keeps p polls (suc n - poll.spent) pending h)
  | inr (x, e) ↦ elim (Bool-cases (p x)) [
    | inl hit ↦
        let found : first p (pending ++ x ∷ events polls) ≡ some x =
          first-append p pending (x ∷ events polls) h ∙ (rw hit refl) in
        let kept : drop_first p (pending ++ x ∷ events polls) ≡ pending ++ events polls =
          drop_first-append p pending (x ∷ events polls) h ∙ (rw hit refl) in
        rw (e, hit) (found, sym kept)
    | inr miss ↦
        rw (e, miss)
          (subst (λ es. Keeps p es (wait_loop p polls (suc n - poll.spent) (pending ++ x ∷ [])))
            (append_assoc pending (x ∷ []) (events polls))
            (wait_loop-Keeps p polls (suc n - poll.spent) (pending ++ x ∷ [])
              (first-append p pending (x ∷ []) h ∙ (rw miss refl))))
  ]
]

wait_for-held :
    (p : Event → Bool) (timeout : ℕ) (pending : List Event) (polls : List Poll) (e : Event)
    → first p pending ≡ some e
    → wait_for p timeout true pending polls
      ≡ record { outcome = got e; pending = drop_first p pending; polls = polls; left = timeout }
unfolding wait_for
wait_for-held p timeout pending polls e h = rw (h, wait_for) refl

wait_for-none :
    (p : Event → Bool) (timeout : ℕ) (pending : List Event) (polls : List Poll)
    → first p pending ≡ none
    → wait_for p timeout true pending polls ≡ wait_loop p polls timeout pending
unfolding wait_for
wait_for-none p timeout pending polls h = rw (h, wait_for) refl

-- A wait that consumes, among all the events held back or read meanwhile, answers with the first
-- that it is for and leaves all others for later waits, in their order; one that times out loses
-- none.
pub wait_for-Keeps :
    (p : Event → Bool) (timeout : ℕ) (pending : List Event) (polls : List Poll)
    → Keeps p (pending ++ events polls) (wait_for p timeout true pending polls)
wait_for-Keeps p timeout pending polls = elim (Option-cases (first p pending)) [
  | inl e ↦
      subst (Keeps p (pending ++ events polls)) (sym (wait_for-none p timeout pending polls e))
        (wait_loop-Keeps p polls timeout pending e)
  | inr (x, e) ↦
      subst (Keeps p (pending ++ events polls)) (sym (wait_for-held p timeout pending polls x e))
        (first-hit p x pending (events polls) e, sym (drop_first-hit p x pending (events polls) e))
]

-- The time that these polls take.
abbrev pub spent_in : List Poll → ℕ
spent_in [] = 0
spent_in (poll ∷ polls) = poll.spent + spent_in polls

abbrev pub is_over : Outcome → Bool
is_over unfinished = false
is_over _ = true

wait_loop-ends :
    (p : Event → Bool) (polls : List Poll) (n : ℕ) (pending : List Event)
    → n ≤ spent_in polls
    → is_over (wait_loop p polls n pending).outcome ≡ true
unfolding wait_loop
wait_loop-ends p polls zero pending h = refl
wait_loop-ends p [] (suc n) pending h = absurd (omega arith)
wait_loop-ends p (poll ∷ polls) (suc n) pending h = elim (Option-cases poll.event) [
  | inl e ↦ rw e (wait_loop-ends p polls (suc n - poll.spent) pending (omega arith))
  | inr (x, e) ↦ elim (Bool-cases (p x)) [
    | inl hit ↦ rw (e, hit) refl
    | inr miss ↦
        rw (e, miss) (wait_loop-ends p polls (suc n - poll.spent) (pending ++ x ∷ []) (omega arith))
  ]
]

-- A wait ends, by an answer or by its deadline, once the reads have taken that long.
pub wait_for-ends :
    (p : Event → Bool) (timeout : ℕ) (pending : List Event) (polls : List Poll)
    → timeout ≤ spent_in polls
    → is_over (wait_for p timeout true pending polls).outcome ≡ true
wait_for-ends p timeout pending polls h = elim (Option-cases (first p pending)) [
  | inl e ↦
      subst (λ w. is_over w.outcome ≡ true) (sym (wait_for-none p timeout pending polls e))
        (wait_loop-ends p polls timeout pending h)
  | inr (x, e) ↦
      subst (λ w. is_over w.outcome ≡ true) (sym (wait_for-held p timeout pending polls x e)) refl
]

wait_loop-left :
    (p : Event → Bool) (polls : List Poll) (n : ℕ) (pending : List Event)
    → n ≤ spent_in polls
    → (wait_loop p polls n pending).left ≤ spent_in (wait_loop p polls n pending).polls
unfolding wait_loop
wait_loop-left p polls zero pending h = omega arith
wait_loop-left p [] (suc n) pending h = absurd (omega arith)
wait_loop-left p (poll ∷ polls) (suc n) pending h = elim (Option-cases poll.event) [
  | inl e ↦ rw e (wait_loop-left p polls (suc n - poll.spent) pending (omega arith))
  | inr (x, e) ↦ elim (Bool-cases (p x)) [
    | inl hit ↦ rw (e, hit) (omega arith)
    | inr miss ↦
        rw (e, miss) (wait_loop-left p polls (suc n - poll.spent) (pending ++ x ∷ []) (omega arith))
  ]
]

-- The reads that are left take the time that is left.
pub wait_for-left :
    (p : Event → Bool) (timeout : ℕ) (pending : List Event) (polls : List Poll)
    → timeout ≤ spent_in polls
    → (wait_for p timeout true pending polls).left
      ≤ spent_in (wait_for p timeout true pending polls).polls
wait_for-left p timeout pending polls h = elim (Option-cases (first p pending)) [
  | inl e ↦
      subst (λ w. w.left ≤ spent_in w.polls) (sym (wait_for-none p timeout pending polls e))
        (wait_loop-left p polls timeout pending h)
  | inr (x, e) ↦
      subst (λ w. w.left ≤ spent_in w.polls) (sym (wait_for-held p timeout pending polls x e)) h
]

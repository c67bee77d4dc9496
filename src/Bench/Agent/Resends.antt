-- ===== src/Bench/Agent/Resends.antt =====
-- A command is written again only where the board said that it did not run it, and a board is reset
-- at most once.
use esp32_rig.Base.{
  ℕ, zero, suc, ◌+◌, ◌≤◌, ◌<◌, ◌≡◌, refl, ap, ◌∙◌, Bool, true, false, ◌||◌, some, List, [], ◌∷◌,
  ◌++◌, arith, first, filter, length, length-append, Bool-cases, ◌⊎◌, inl, inr,
}
use esp32_rig.Bench.Client.{
  Event, Outcome, got, timed_out, unfinished, Waited, drop_first, wait_for,
}
use esp32_rig.Bench.Client.Waits.{
  events, unread, Keeps, wait_for-Keeps, wait_for-ends, wait_for-left, spent_in,
}
use esp32_rig.Bench.Agent.{
  Command, Client, Answer, answered, no_answer, no_reset_lines, still_waiting, send_cmd, on_silence,
  clear_pending, drop, await_loop, send_cmd_awaiting, resend_on, wait, info, ask_info, hard_reset,
  info_after, ensure_responsive,
}

-- The call returned or raised.
abbrev pub is_settled : Answer → Bool
is_settled still_waiting = false
is_settled _ = true

-- It raised TimeoutWaitingFor.
abbrev pub is_silent : Answer → Bool
is_silent no_answer = true
is_silent _ = false

-- How many of these events say that the command is to be written again.
abbrev pub count : (Event → Bool) → List Event → ℕ
count p es = length (filter p es)

abbrev pub unread_of : Client → List Event
unread_of c = c.pending ++ events c.polls

count-drop_first :
    (p again : Event → Bool) (e : Event) (es : List Event)
    → first (λ x. p x || again x) es ≡ some e
    → p e ≡ false
    → count again (drop_first (λ x. p x || again x) es) + 1 ≡ count again es
count-drop_first p again e [] h miss = absurd (cc)
count-drop_first p again e (x ∷ es) h miss = ground (arith, count-drop_first p again e es)

Outcome-cases : (o : Outcome) → ((e : Event) × (o ≡ got e)) ⊎ ((o ≡ timed_out) ⊎ (o ≡ unfinished))
Outcome-cases (got e) = inl (e, refl)
Outcome-cases timed_out = inr (inl refl)
Outcome-cases unfinished = inr (inr refl)

module _ (p again : Event → Bool) where
  abbrev wanted : Event → Bool
  wanted e = p e || again e

  -- A round that the loop goes on from used up one event that asks for it.
  spent_one :
      (e : Event) (before : List Event) (w : Waited)
      → Keeps wanted before w
      → w.outcome ≡ got e
      → p e ≡ false
      → count again (unread w) + 1 ≡ count again before
  spent_one e before w kept o miss =
      let (found, left) = rw o at kept in
      ap (λ es. count again es + 1) left ∙ count-drop_first p again e before found miss

  await_loop-sent :
      (k : ℕ) (cmd : Command) (left : ℕ) (c : Client)
      → length (await_loop k p again cmd left c).1.sent ≤ length c.sent + count again (unread_of c)
  unfolding await_loop send_cmd
  await_loop-sent zero cmd left c = omega arith
  await_loop-sent (suc k) cmd zero c = omega arith
  await_loop-sent (suc k) cmd (suc left) c =
      let w = wait_for wanted (suc left) true c.pending c.polls in
      let kept = wait_for-Keeps wanted (suc left) c.pending c.polls in
      let after = record c { pending = w.pending; polls = w.polls } in
      elim (Outcome-cases w.outcome) [
        | inl (e, o) ↦ elim (Bool-cases (p e)) [
          | inl hit ↦ rw (o, hit, await_loop) (omega arith)
          | inr miss ↦
              rw (o, miss, await_loop)
                (omega (
                  arith,
                  await_loop-sent k cmd w.left (send_cmd cmd after),
                  length-append c.sent (cmd ∷ []),
                  spent_one e (unread_of c) w kept o miss,
                ))
        ]
        | inr (inl o) ↦ rw (o, await_loop) (omega arith)
        | inr (inr o) ↦ rw (o, await_loop) (omega arith)
      ]

  await_loop-ends :
      (k : ℕ) (cmd : Command) (left : ℕ) (c : Client)
      → count again (unread_of c) < k
      → left ≤ spent_in c.polls
      → is_settled (await_loop k p again cmd left c).0 ≡ true
  unfolding await_loop send_cmd
  await_loop-ends zero cmd left c h time = absurd (omega arith)
  await_loop-ends (suc k) cmd zero c h time = refl
  await_loop-ends (suc k) cmd (suc left) c h time =
      let w = wait_for wanted (suc left) true c.pending c.polls in
      let kept = wait_for-Keeps wanted (suc left) c.pending c.polls in
      let over = wait_for-ends wanted (suc left) c.pending c.polls time in
      let after = record c { pending = w.pending; polls = w.polls } in
      elim (Outcome-cases w.outcome) [
        | inl (e, o) ↦ elim (Bool-cases (p e)) [
          | inl hit ↦ rw (o, hit, await_loop) refl
          | inr miss ↦
              let fewer = spent_one e (unread_of c) w kept o miss in
              rw (o, miss, await_loop)
                (await_loop-ends k cmd w.left (send_cmd cmd after) (omega arith)
                  (wait_for-left wanted (suc left) c.pending c.polls time))
        ]
        | inr (inl o) ↦ rw (o, await_loop) refl
        | inr (inr o) ↦ absurd (cc (rw o at over))
      ]

module _ (rounds : ℕ) (cmd : Command) (p : Event → Bool) (timeout : ℕ) (idempotent : Bool)
    (queued : ℕ) (c : Client) where
  -- A command is written once, and once more at most for each answer that says that it was not
  -- understood or, for one that is safe to repeat, that could not be read.
  pub send_cmd_awaiting-sent :
      length (send_cmd_awaiting rounds cmd p timeout idempotent queued c).1.sent
      ≤ length c.sent + 1 + count (resend_on idempotent) (events (drop queued c.polls))
  unfolding send_cmd_awaiting clear_pending send_cmd
  send_cmd_awaiting-sent = omega (
    arith,
    await_loop-sent p (resend_on idempotent) rounds cmd timeout
        (send_cmd cmd (clear_pending queued c)),
    length-append c.sent (cmd ∷ []),
  )

  -- `send_cmd_awaiting` ends, with an answer or at its deadline, when the reads take as long as the
  -- deadline says and there are more rounds than events that ask for one.
  pub send_cmd_awaiting-ends :
      count (resend_on idempotent) (events (drop queued c.polls)) < rounds
      → timeout ≤ spent_in (drop queued c.polls)
      → is_settled (send_cmd_awaiting rounds cmd p timeout idempotent queued c).0 ≡ true
  unfolding send_cmd_awaiting clear_pending send_cmd
  send_cmd_awaiting-ends enough time =
      await_loop-ends p (resend_on idempotent) rounds cmd timeout
        (send_cmd cmd (clear_pending queued c)) enough time

on_silence-resets :
    (f : Client → Answer × Client) (n : ℕ) (r : Answer × Client)
    → ((c : Client) → (f c).1.resets ≤ c.resets + n)
    → (on_silence f r).1.resets ≤ r.1.resets + n
unfolding on_silence
on_silence-resets f n (no_answer, c) h = h c
on_silence-resets f n (answered e, c) h = omega arith
on_silence-resets f n (no_reset_lines, c) h = omega arith
on_silence-resets f n (still_waiting, c) h = omega arith

on_silence-heard :
    (f : Client → Answer × Client) (r : Answer × Client)
    → is_silent r.0 ≡ false
    → on_silence f r ≡ r
unfolding on_silence
on_silence-heard f (no_answer, c) h = absurd (cc)
on_silence-heard f (answered e, c) h = refl
on_silence-heard f (no_reset_lines, c) h = refl
on_silence-heard f (still_waiting, c) h = refl

ask_info-resets : (timeout : ℕ) (c : Client) → (ask_info timeout c).1.resets ≤ c.resets + 0
unfolding ask_info wait send_cmd
ask_info-resets timeout c = omega arith

info-resets : (timeout : ℕ) (c : Client) → (info timeout c).1.resets ≤ c.resets + 0
unfolding info
info-resets timeout c = omega (
  arith,
  on_silence-resets (ask_info timeout) 0 (ask_info timeout c) (ask_info-resets timeout),
  ask_info-resets timeout c,
)

hard_reset-resets :
    (timeout queued : ℕ) (c : Client) → (hard_reset timeout queued c).1.resets ≤ c.resets + 1
unfolding hard_reset wait clear_pending
hard_reset-resets timeout queued c = ground arith

info_after-resets :
    (timeout : ℕ) (r : Answer × Client) → (info_after timeout r).1.resets ≤ r.1.resets
unfolding info_after
info_after-resets timeout (answered e, c) = omega (arith, info-resets timeout c)
info_after-resets timeout (no_answer, c) = omega arith
info_after-resets timeout (no_reset_lines, c) = omega arith
info_after-resets timeout (still_waiting, c) = omega arith

module _ (timeout after_reset queued : ℕ) (c : Client) where
  once : (n : Client) → (info_after after_reset (hard_reset 30000 queued n)).1.resets ≤ n.resets + 1
  once n = omega (
    arith,
    info_after-resets after_reset (hard_reset 30000 queued n),
    hard_reset-resets 30000 queued n,
  )

  -- However the board behaves, a check that it answers resets it at most once.
  pub ensure_responsive-resets :
      (ensure_responsive timeout after_reset queued c).1.resets ≤ c.resets + 1
  unfolding ensure_responsive
  ensure_responsive-resets = omega (
    arith,
    on_silence-resets (λ n. info_after after_reset (hard_reset 30000 queued n)) 1 (info timeout c)
        once,
    info-resets timeout c,
  )

  -- Where a board says what it is, `ensure_responsive` is a plain request of its information: it does
  -- not reset the board.
  pub ensure_responsive-heard :
      is_silent (info timeout c).0 ≡ false
      → ensure_responsive timeout after_reset queued c ≡ info timeout c
  unfolding ensure_responsive
  ensure_responsive-heard =
      on_silence-heard (λ n. info_after after_reset (hard_reset 30000 queued n)) (info timeout c)

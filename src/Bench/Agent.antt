-- ===== src/Bench/Agent.antt =====
-- rig/alteriom_hil/protocol.py: the commands that a BoardClient sends, and the answers that it waits
-- for. What the board and the clock do is the list of polls that the capture gives from here on.
pub mod Resends
use text.Mathlib.Text.{starts_with}
use esp32_rig.Base.{
  ℕ, zero, suc, ◌+◌, ◌/◌, String, Bool, true, false, ◌&&◌, ◌||◌, Option, none, some, List, [], ◌∷◌,
  ◌++◌, lookup, if◌then◌else◌, ◌==◌,
}
use esp32_rig.Bench.Client.{Event, Poll, Outcome, got, timed_out, unfinished, Waited, wait_for}

-- A line that is written to the board: `cmd`, and its other fields.
pub record Command : Type 0 where
  pub cmd : String
  pub args : List (String × String)

pub record Client : Type 0 where
  pub pending : List Event
  pub polls : List Poll
  pub sent : List Command
  -- How often the reset lines were pulsed; a capture may have none.
  pub resets : ℕ
  pub has_reset : Bool

pub data Answer : Type 0 where
  answered : Event → Answer
  -- TimeoutWaitingFor
  no_answer : Answer
  -- ProtocolError
  no_reset_lines : Answer
  -- The list of polls, or the number of rounds, ended first.
  still_waiting : Answer

unfoldable pub send_cmd : Command → Client → Client
send_cmd cmd c = record c { sent = c.sent ++ cmd ∷ [] }

abbrev pub drop : ℕ → List Poll → List Poll
drop zero polls = polls
drop (suc n) [] = []
drop (suc n) (poll ∷ polls) = drop n polls

-- The capture drops the events that it has queued: `queued` of those to come.
unfoldable pub clear_pending : ℕ → Client → Client
clear_pending queued c = record c { pending = []; polls = drop queued c.polls }

abbrev pub answer_of : Outcome → Answer
answer_of (got e) = answered e
answer_of timed_out = no_answer
answer_of unfinished = still_waiting

unfoldable pub wait : (Event → Bool) → ℕ → Client → Answer × Client
wait p timeout c =
    let w = wait_for p timeout true c.pending c.polls in
    (answer_of w.outcome, record c { pending = w.pending; polls = w.polls })

-- `str(e.get("error", ""))`
abbrev pub error_of : Event → String
error_of e = elim (lookup "error" e.fields) [ none ↦ "" | some s ↦ s ]

abbrev pub was_refused : Event → Bool
was_refused e = error_of e == "bad json" || starts_with (error_of e) "frame dropped"

unfoldable pub resend_on : Bool → Event → Bool
resend_on idempotent e =
    if e.evt == "error" then was_refused e else idempotent && e.evt == "unreadable"

-- The loop of `send_cmd_awaiting`: the first argument bounds its rounds.
unfoldable pub await_loop :
    ℕ → (Event → Bool) → (Event → Bool) → Command → ℕ → Client → Answer × Client
unfolding send_cmd
await_loop zero p again cmd left c = (still_waiting, c)
await_loop (suc k) p again cmd zero c = (no_answer, c)
await_loop (suc k) p again cmd (suc left) c =
    let w = wait_for (λ e. p e || again e) (suc left) true c.pending c.polls in
    let after = record c { pending = w.pending; polls = w.polls } in
    let rest = await_loop k p again cmd w.left (send_cmd cmd after) in
    elim w.outcome [
      | got e ↦ if p e then (answered e, after) else rest
      | timed_out ↦ (no_answer, after)
      | unfinished ↦ (still_waiting, after)
    ]

unfoldable pub send_cmd_awaiting :
    ℕ → Command → (Event → Bool) → ℕ → Bool → ℕ → Client → Answer × Client
unfolding send_cmd clear_pending
send_cmd_awaiting rounds cmd p timeout idempotent queued c =
    await_loop rounds p (resend_on idempotent) cmd timeout (send_cmd cmd (clear_pending queued c))

abbrev pub is_evt : String → Event → Bool
is_evt s e = e.evt == s

unfoldable pub hard_reset : ℕ → ℕ → Client → Answer × Client
unfolding wait clear_pending
hard_reset timeout queued c =
    let clear = clear_pending queued c in
    if clear.has_reset
    then wait (is_evt "boot") timeout (record clear { resets = clear.resets + 1 })
    else (no_reset_lines, clear)

abbrev pub info_cmd : Command
info_cmd = record { cmd = "info"; args = [] }

-- One of the two rounds of `info`.
unfoldable pub ask_info : ℕ → Client → Answer × Client
unfolding wait send_cmd
ask_info timeout c = wait (is_evt "info") (timeout / 2) (send_cmd info_cmd c)

-- `except TimeoutWaitingFor`
unfoldable pub on_silence : (Client → Answer × Client) → Answer × Client → Answer × Client
on_silence f (no_answer, c) = f c
on_silence f (answered e, c) = (answered e, c)
on_silence f (no_reset_lines, c) = (no_reset_lines, c)
on_silence f (still_waiting, c) = (still_waiting, c)

unfoldable pub info : ℕ → Client → Answer × Client
unfolding ask_info on_silence
info timeout c = on_silence (ask_info timeout) (ask_info timeout c)

-- What follows the reset.
unfoldable pub info_after : ℕ → Answer × Client → Answer × Client
unfolding info
info_after timeout (answer, c) = elim answer [ answered e ↦ info timeout c | other ↦ (other, c) ]

-- Times are milliseconds; `hard_reset()` waits for thirty seconds.
unfoldable pub ensure_responsive : ℕ → ℕ → ℕ → Client → Answer × Client
unfolding info info_after hard_reset on_silence
ensure_responsive timeout after_reset queued c =
    on_silence (λ next. info_after after_reset (hard_reset 30000 queued next)) (info timeout c)

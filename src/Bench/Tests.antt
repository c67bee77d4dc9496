-- ===== src/Bench/Tests.antt =====
-- A board that talks, one that did not understand, and one that is silent.
use esp32_rig.Base.{◌≡◌, refl, String, true, false, none, some, List, [], ◌∷◌, length}
use esp32_rig.Bench.Client.{Event, Poll, wait_for, wait_loop}
use esp32_rig.Bench.Client.Waits.{events, Keeps, wait_for-Keeps}
use esp32_rig.Bench.Agent.{
  Command, Client, answered, is_evt, info_cmd, resend_on, send_cmd, clear_pending, await_loop,
  send_cmd_awaiting, ask_info, wait, on_silence, info, hard_reset, info_after, ensure_responsive,
}

abbrev event : String → Event
event evt = record { evt = evt; fields = [] }

abbrev bad_json : Event
bad_json = record { evt = "error"; fields = ("error", "bad json") ∷ [] }

abbrev poll : Event → Poll
poll e = record { event = some e; spent = 100 }

abbrev silence : Poll
silence = record { event = none; spent = 500 }

abbrev client : List Poll → Client
client polls = record {
  pending = event "ack" ∷ [];
  polls = polls;
  sent = [];
  resets = 0;
  has_reset = true;
}

abbrev talk : List Poll
talk = poll (event "mesh") ∷ silence ∷ poll (event "info") ∷ poll (event "ack") ∷ silence ∷ []

wait_for-Keeps_example :
    Keeps
      (is_evt "info")
      (event "ack" ∷ events talk)
      (wait_for (is_evt "info") 1000 true (event "ack" ∷ []) talk)
wait_for-Keeps_example = wait_for-Keeps (is_evt "info") 1000 (event "ack" ∷ []) talk

abbrev scan : Command
scan = record { cmd = "scan"; args = [] }

abbrev noisy : List Poll
noisy = poll bad_json ∷ poll (event "unreadable") ∷ poll (event "scan") ∷ silence ∷ []

-- Written again after the error, not after the noise.
written : length (send_cmd_awaiting 3 scan (is_evt "scan") 1000 false 0 (client noisy)).1.sent ≡ 2
unfolding send_cmd_awaiting await_loop send_cmd clear_pending resend_on wait_for wait_loop
written = refl

abbrev dead : List Poll
dead = silence ∷ silence ∷ poll (event "boot") ∷ poll (event "info") ∷ []

recovers : ensure_responsive 1000 60000 0 (client dead) ≡ (
  answered (event "info"),
  record {
    pending = [];
    polls = [];
    sent = info_cmd ∷ info_cmd ∷ info_cmd ∷ [];
    resets = 1;
    has_reset = true;
  },
)
unfolding ensure_responsive on_silence info ask_info info_after hard_reset wait send_cmd
    clear_pending wait_for wait_loop
recovers = refl

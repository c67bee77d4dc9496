-- ===== src/Dispatch/Cancels/Asked.antt =====
-- What `cancel` answers, whatever other threads do meanwhile.
use esp32_rig.Base.{ℕ, String, Bool, true, false, ◌≡◌, Option, some, List}
use esp32_rig.Store.Jobs.{is_queued, Job, Fields, cancel_if_queued, get}
use esp32_rig.Dispatch.{Service, Step, is_portal, act_all}
use esp32_rig.Dispatch.Cancels.{result_of, Answer}
use esp32_rig.Dispatch.Cancels.Answers.{IsAnswered}
use esp32_rig.Dispatch.Cancels.Single.{IsSingle}

module _ (unlease : String → Service → Bool) (id : String) (now : ℕ) (summary : String)
    (detail superseded_by : Option String) where
  abbrev said : Fields
  said = result_of summary detail superseded_by

  -- What is answered when the statement that cancels a queued run comes too late.
  abbrev Later : Bool → Bool → (Service → Answer) → List Step → Type 0
  Later h m again meanwhile =
      (t : Service) (j : Job)
      → is_portal t.mode ≡ m
      → IsSingle id t.jobs
      → get id t.jobs ≡ some j
      → is_queued j.status ≡ true
      → (cancel_if_queued id now said (act_all meanwhile t).jobs).0 ≡ false
      → IsAnswered id h (again (act_all meanwhile t))

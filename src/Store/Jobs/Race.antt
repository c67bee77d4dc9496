-- ===== src/Store/Jobs/Race.antt =====
-- The statements that start, cancel and hand back a run, against one another.
use esp32_rig.Base.{ℕ, ◌≡◌, String, false, arith}
use esp32_rig.Store.Table.{count_where, update_where-none, count_where-update_where}
use esp32_rig.Store.Jobs.{
  Jobs, Fields, is_queued_job, claim, cancel_if_queued, start_row, cancel_row,
}

claim-none :
    (id : String) (now : ℕ) (jobs : Jobs)
    → count_where (is_queued_job id) jobs ≡ 0
    → claim id now jobs ≡ (false, jobs)
unfolding claim
claim-none id now jobs h = ground (arith, update_where-none (is_queued_job id) (start_row now) jobs)

cancel-none :
    (id : String) (now : ℕ) (result : Fields) (jobs : Jobs)
    → count_where (is_queued_job id) jobs ≡ 0
    → cancel_if_queued id now result jobs ≡ (false, jobs)
unfolding cancel_if_queued
cancel-none id now result jobs h =
    ground (arith, update_where-none (is_queued_job id) (cancel_row now result) jobs)

module _ (id : String) (now later : ℕ) (result : Fields) (jobs : Jobs) where
  pub after_claim : count_where (is_queued_job id) (claim id now jobs).1 ≡ 0
  unfolding claim
  after_claim =
      count_where-update_where (is_queued_job id) (start_row now) jobs (λ j h. ground arith)

  pub after_cancel : count_where (is_queued_job id) (cancel_if_queued id now result jobs).1 ≡ 0
  unfolding cancel_if_queued
  after_cancel =
      count_where-update_where (is_queued_job id) (cancel_row now result) jobs (λ j h. ground arith)

  -- A cancellation that comes after the dispatcher's claim of the run changes nothing and says so,
  -- and so does a claim that comes after the cancellation, and a second claim.
  pub one_winner :
      (cancel_if_queued id later result (claim id now jobs).1 ≡ (false, (claim id now jobs).1))
      × (claim id later (cancel_if_queued id now result jobs).1
          ≡ (false, (cancel_if_queued id now result jobs).1))
      × (claim id later (claim id now jobs).1 ≡ (false, (claim id now jobs).1))
  one_winner = (
    cancel-none id later result (claim id now jobs).1 after_claim,
    claim-none id later (cancel_if_queued id now result jobs).1 after_cancel,
    claim-none id later (claim id now jobs).1 after_claim,
  )

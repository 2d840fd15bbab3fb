-- ===== src/Examples/Scheduling.antt =====
-- A pass of the scheduler while a finish has a submission without a verdict.
use kippu_api.Base.{
  ℕ, ◌≡◌, refl, false, true, none, some, List, [], ◌∷◌, All, ◌==◌, find_where, exists_where,
  count_where,
}
use kippu_api.Store.{ok, after}
use kippu_api.Events.FinishSchedule.{
  ScheduleRow, Schedules, running, FinishResult, event_finished_result, Audited, pending_outcome,
  is_rejection, may_land, run_due,
}
use kippu_api.Events.FinishSchedule.Waiting.{Waits, run_due-Waits}
use kippu_api.Examples.Data.{ledger, accounts}

abbrev running_row : ScheduleRow
running_row = record {
  id = 5;
  event = 1;
  organiser_id = 3;
  finish_at = 1000;
  status = running;
  noticed_at = some 500;
  error_code = none;
  ended_at = none;
  set_request_id = 6;
  set_at = 100;
}

abbrev schedules : Schedules
schedules = record { rows = running_row ∷ []; submitted = 5 ∷ []; reopened = []; notices = [] }

abbrev finish : ℕ → FinishResult
finish id = event_finished_result

-- The run's submission, recorded at 1000, without a verdict.
abbrev audited : ℕ → List Audited
audited id = record { outcome = pending_outcome; error_code = none; recorded_at = 1000 } ∷ []

abbrev pass : Schedules
pass = after (
    run_due ledger accounts finish audited (λ _ _. false) (λ _. ok tt) 30000 (λ _. false)
      (λ _. 2000) 2000 schedules)

unrefused : find_where is_rejection (audited 5) ≡ none
unfolding find_where
unrefused = refl

landing :
    may_land ledger accounts finish audited
      (λ _ _. false)
      (λ _. ok tt)
      30000
      (λ _. false)
      (λ _. 2000)
      5
    ≡ true
unfolding exists_where
landing = refl

submitted_once : count_where (λ x. x == 5) schedules.submitted ≡ 1
unfolding count_where
submitted_once = refl

run_due-Waits_example : All (Waits 5 1) pass.rows × (count_where (λ x. x == 5) pass.submitted ≡ 1)
run_due-Waits_example =
    run_due-Waits ledger accounts finish audited (λ _ _. false) (λ _. ok tt) 30000 (λ _. false)
      (λ _. 2000) 5 1 1 unrefused landing refl 2000 schedules (refl, tt) submitted_once

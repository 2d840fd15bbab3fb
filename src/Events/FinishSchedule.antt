-- ===== src/Events/FinishSchedule.antt =====
-- src/events/finish-schedule.ts: scheduled finishes. The finish itself (`status.finish`), the
-- ledger, the audit log's rows of a run, the sales that a run closed and `reopenSales` are what
-- `createFinishSchedules` is given: parameters. What the code calls, to submit a finish, to reopen
-- sales and to give notice, is noted in the state. `held` says of which schedules another process
-- holds the run lock, `now_of` is the clock's reading while a schedule is worked on.
pub mod Waiting
use kippu_api.Base.{
  ℕ, suc, ◌+◌, ◌*◌, ◌-◌, ◌≡◌, Bool, true, false, not, ◌&&◌, ◌||◌, Option, none, some, List, [], ◌∷◌,
  ◌==◌, ltb, leb, is_some, if◌then◌else◌, length, exists_where, find_where, select_where,
  update_where, order_by, ◌++◌, map,
}
use kippu_api.Store.{
  SpecCode, spec, invalid_transition, refused_request, bad_request, conflict, not_found, Try, ok,
  fail, Ledger, Event, EventStatus, active, sealed, cancelled, finished, Answer, found, refused, On,
  ◌>>=◌, ◌>>◌, get, modify, lift, pure, throw, answered, Ended, done, threw,
}
use kippu_api.Events.Ownership.{owned_event}

-- FINISH_NOTICE_MS and OPERATION_EXPIRY_MARGIN_MS
abbrev pub finish_notice_ms : ℕ
finish_notice_ms = 24 * 60 * 60 * 1000

abbrev pub operation_expiry_margin_ms : ℕ
operation_expiry_margin_ms = 60 * 1000

pub data ScheduleStatus : Type 0 where
  scheduled running finished_run refused_run cancelled_run : ScheduleStatus

abbrev pub is_scheduled : ScheduleStatus → Bool
is_scheduled scheduled = true
is_scheduled _ = false

abbrev pub is_running : ScheduleStatus → Bool
is_running running = true
is_running _ = false

abbrev pub is_finished : ScheduleStatus → Bool
is_finished finished_run = true
is_finished _ = false

pub record ScheduleRow : Type 0 where
  pub id : ℕ
  pub event : ℕ
  pub organiser_id : ℕ
  pub finish_at : ℕ
  pub status : ScheduleStatus
  pub noticed_at : Option ℕ
  pub error_code : Option SpecCode
  pub ended_at : Option ℕ
  pub set_request_id : ℕ
  pub set_at : ℕ

pub record FinishNotice : Type 0 where
  pub event : ℕ
  pub organiser_id : ℕ
  pub at : ℕ

pub record Schedules : Type 0 where
  pub rows : List ScheduleRow
  -- the schedules whose finish was called, the last first
  pub submitted : List ℕ
  -- the events whose sales reconciliation reopened
  pub reopened : List ℕ
  pub notices : List FinishNotice

-- How `status.finish` ends: the event is finished, a `SpecCodeError`, or any other error.
pub data FinishResult : Type 0 where
  event_finished_result : FinishResult
  finish_refused : SpecCode → FinishResult
  no_verdict : FinishResult

-- A row of the audit log for the run's request, of the command `setEventStatus`.
pub data AuditOutcome : Type 0 where
  pending_outcome settled_outcome rejected_outcome failed_outcome : AuditOutcome

pub record Audited : Type 0 where
  pub outcome : AuditOutcome
  pub error_code : Option SpecCode
  pub recorded_at : ℕ

abbrev pub is_rejection : Audited → Bool
is_rejection a = elim a.outcome [ rejected_outcome ↦ true | _ ↦ false ]

abbrev pub is_unanswered : Audited → Bool
is_unanswered a = elim a.outcome [ pending_outcome ↦ true | failed_outcome ↦ true | _ ↦ false ]

abbrev pub has_id : ℕ → ScheduleRow → Bool
has_id id r = r.id == id

abbrev pub is_of_event : ℕ → ScheduleRow → Bool
is_of_event event r = r.event == event

abbrev pub end_as : ScheduleStatus → Option SpecCode → ℕ → ScheduleRow → ScheduleRow
end_as status code at r = record r { status = status; error_code = code; ended_at = some at }

-- UPDATE … SET status = 'finished': the error code stays.
abbrev pub finish_row : ℕ → ScheduleRow → ScheduleRow
finish_row at r = record r { status = finished_run; ended_at = some at }

abbrev pub claim_row : ScheduleRow → ScheduleRow
claim_row r = record r { status = running }

abbrev pub resume_row : ScheduleRow → ScheduleRow
resume_row r = record r { status = scheduled }

abbrev pub change_rows : (ScheduleRow → Bool) → (ScheduleRow → ScheduleRow) → Schedules → Schedules
change_rows q f s = record s { rows = update_where q f s.rows }

abbrev pub is_over : EventStatus → Bool
is_over cancelled = true
is_over finished = true
is_over _ = false

-- The status is neither 'running' nor 'finished'.
abbrev pub is_settable : ScheduleStatus → Bool
is_settable status = not (is_running status) && not (is_finished status)

abbrev pub is_settable_of : ℕ → ScheduleRow → Bool
is_settable_of event r = is_of_event event r && is_settable r.status

abbrev pub is_scheduled_of : ℕ → ScheduleRow → Bool
is_scheduled_of event r = is_of_event event r && is_scheduled r.status

abbrev pub is_cancelled_run : ScheduleStatus → Bool
is_cancelled_run cancelled_run = true
is_cancelled_run _ = false

-- Due by the time: scheduled, noticed, and not in the future.
abbrev pub is_due : ℕ → ScheduleRow → Bool
is_due at r = is_scheduled r.status && is_some r.noticed_at && leb r.finish_at at

-- ORDER BY finish_at, id
abbrev pub is_earlier : ScheduleRow → ScheduleRow → Bool
is_earlier r s = ltb r.finish_at s.finish_at || ((r.finish_at == s.finish_at) && leb r.id s.id)

module _ (ledger : Ledger) (account_of : ℕ → Option ℕ) where
  abbrev pub new_row : ℕ → ℕ → ℕ → ℕ → ℕ → ℕ → ScheduleRow
  new_row id event organiser_id request_id finish_at at = record {
    id = id;
    event = event;
    organiser_id = organiser_id;
    finish_at = finish_at;
    status = scheduled;
    noticed_at = none;
    error_code = none;
    ended_at = none;
    set_request_id = request_id;
    set_at = at;
  }

  abbrev pub reset_row : ℕ → ℕ → ℕ → ℕ → ScheduleRow → ScheduleRow
  reset_row organiser_id request_id finish_at at r = record r {
    finish_at = finish_at;
    organiser_id = organiser_id;
    status = scheduled;
    noticed_at = none;
    error_code = none;
    ended_at = none;
    set_request_id = request_id;
    set_at = at;
  }

  -- INSERT … ON CONFLICT (event) DO UPDATE … WHERE
  unfoldable pub put_schedule : ℕ → ℕ → ℕ → ℕ → ℕ → ℕ → Schedules → Schedules
  put_schedule id event organiser_id request_id finish_at at s =
      if exists_where (is_of_event event) s.rows
      then change_rows (is_settable_of event) (reset_row organiser_id request_id finish_at at) s
      else record s { rows = new_row id event organiser_id request_id finish_at at ∷ s.rows }

  abbrev pub can_schedule : Event → ℕ → ℕ → Try (Unit {0})
  can_schedule ev finish_at at =
      if is_over ev.status
      then fail (spec invalid_transition)
      else (if leb finish_at at then fail (refused_request bad_request none) else ok tt)

  abbrev pub row_of_event : ℕ → Schedules → Option ScheduleRow
  row_of_event event s = find_where (is_of_event event) s.rows

  -- The UPDATE returned a row: there was none of the event, or one that could be set again.
  abbrev pub can_put : ℕ → Schedules → Bool
  can_put event s =
      not (exists_where (is_of_event event) s.rows) || exists_where (is_settable_of event) s.rows

  abbrev pub the_row : Option ScheduleRow → Try ScheduleRow
  the_row none = fail (refused_request conflict none)
  the_row (some r) = ok r

  unfoldable pub schedule : ℕ → ℕ → ℕ → ℕ → ℕ → ℕ → ℕ → On Schedules ScheduleRow
  schedule organiser_id request_id event finish_at id checked_at at = do
    ev ← lift (owned_event ledger account_of organiser_id event)
    _ ← lift (can_schedule ev finish_at checked_at)
    s ← get
    if can_put event s
        then (modify (put_schedule id event organiser_id request_id finish_at at)
            >> (get >>= λ t. lift (the_row (row_of_event event t))))
        else throw (refused_request conflict none)

  abbrev pub cancel_row : ℕ → ScheduleRow → ScheduleRow
  cancel_row at r = record r { status = cancelled_run; ended_at = some at }

  abbrev pub cancelled_before : Option ScheduleRow → Try ScheduleRow
  cancelled_before none = fail (refused_request not_found none)
  cancelled_before (some r) =
      if is_cancelled_run r.status then ok r else fail (refused_request conflict none)

  unfoldable pub cancel : ℕ → ℕ → ℕ → On Schedules ScheduleRow
  cancel organiser_id event at = do
    _ ← lift (owned_event ledger account_of organiser_id event)
    s ← get
    if exists_where (is_scheduled_of event) s.rows
        then (modify (change_rows (is_scheduled_of event) (cancel_row at))
            >> (get >>= λ t. lift (the_row (row_of_event event t))))
        else lift (cancelled_before (row_of_event event s))

  unfoldable pub get_schedule : ℕ → ℕ → On Schedules (Option ScheduleRow)
  get_schedule organiser_id event = do
    _ ← lift (owned_event ledger account_of organiser_id event)
    s ← get
    pure (row_of_event event s)

  module _ (finish : ℕ → FinishResult) (audited : ℕ → List Audited) (closed_by_run : ℕ → ℕ → Bool)
      (reopen : ℕ → Try (Unit {0})) (operation_lifetime : ℕ) (held : ℕ → Bool)
      (now_of : ℕ → ℕ) where
    abbrev pub ended : ℕ → FinishResult → Schedules → Schedules
    ended id event_finished_result s = change_rows (has_id id) (finish_row (now_of id)) s
    ended id (finish_refused code) s =
        change_rows (has_id id) (end_as refused_run (some code) (now_of id)) s
    ended id no_verdict s = s

    -- Runs a claimed finish, and records how it ended.
    unfoldable pub run : ScheduleRow → On Schedules (Unit {0})
    run r =
        modify (λ s. record s { submitted = r.id ∷ s.submitted })
        >> modify (ended r.id (finish r.id))

    abbrev pub is_not_yet_expired : ℕ → Audited → Bool
    is_not_yet_expired at a =
        is_unanswered a && ltb at (a.recorded_at + operation_lifetime + operation_expiry_margin_ms)

    -- A submission of the run may still land.
    abbrev pub may_land : ℕ → Bool
    may_land id = exists_where (is_not_yet_expired (now_of id)) (audited id)

    abbrev pub reopen_closed : ScheduleRow → On Schedules (Unit {0})
    reopen_closed r =
        if closed_by_run r.event r.id
        then (lift (reopen r.event) >>= λ _.
            modify (λ s. record s { reopened = r.event ∷ s.reopened }))
        else pure tt

    abbrev pub settle_refused : ScheduleRow → Audited → On Schedules Bool
    settle_refused r a =
        reopen_closed r
        >> (modify (change_rows (has_id r.id) (end_as refused_run a.error_code (now_of r.id)))
            >> pure true)

    abbrev pub settle_unrefused : ScheduleRow → On Schedules Bool
    settle_unrefused r =
        if may_land r.id
        then pure false
        else (modify (change_rows (has_id r.id) resume_row) >> pure true)

    abbrev pub is_finished_event : EventStatus → Bool
    is_finished_event finished = true
    is_finished_event _ = false

    abbrev pub settle_unfinished : ScheduleRow → Option Audited → On Schedules Bool
    settle_unfinished r (some a) = settle_refused r a
    settle_unfinished r none = settle_unrefused r

    abbrev pub settle_by : ScheduleRow → Event → On Schedules Bool
    settle_by r ev =
        if is_finished_event ev.status
        then (modify (change_rows (has_id r.id) (finish_row (now_of r.id))) >> pure true)
        else settle_unfinished r (find_where is_rejection (audited r.id))

    -- Whether the schedule was settled.
    unfoldable pub settle : ScheduleRow → On Schedules Bool
    settle r = answered (ledger.get_event r.event) >>= λ ev. settle_by r ev

    -- `try { … } catch (error) { onError(error) }`: what was done before the error stays.
    abbrev pub caught : Ended Schedules Bool → Ended Schedules Bool
    caught (done b s) = done b s
    caught (threw e s) = done false s

    abbrev pub is_running_of : ℕ → ScheduleRow → Bool
    is_running_of id r = has_id id r && is_running r.status

    abbrev pub settle_row : Option ScheduleRow → On Schedules Bool
    settle_row none = pure false
    settle_row (some r) = settle r

    -- One schedule left running, unless another process holds its run lock.
    unfoldable pub reconcile_one : ℕ → On Schedules Bool
    reconcile_one id s =
        if held id
        then done false s
        else caught (settle_row (find_where (is_running_of id) s.rows) s)

    abbrev pub count_one : Bool → ℕ → ℕ
    count_one true n = suc n
    count_one false n = n

    unfoldable pub reconcile_each : List ScheduleRow → ℕ → On Schedules ℕ
    reconcile_each [] settled = pure settled
    reconcile_each (r ∷ rs) settled =
        reconcile_one r.id >>= λ b. reconcile_each rs (count_one b settled)

    unfoldable pub reconcile : On Schedules ℕ
    reconcile = get >>= λ s.
        reconcile_each
          (order_by is_earlier (select_where (λ (r : ScheduleRow). is_running r.status) s.rows)) 0

    -- A notice is due, and not given.
    abbrev pub is_to_notice : ℕ → ScheduleRow → Bool
    is_to_notice at r =
        is_scheduled r.status
        && not (is_some r.noticed_at)
        && leb r.finish_at (at + finish_notice_ms)

    abbrev pub notice_row : ℕ → ScheduleRow → ScheduleRow
    notice_row at r = record r { noticed_at = some at }

    abbrev pub notice_of : ScheduleRow → FinishNotice
    notice_of r = record { event = r.event; organiser_id = r.organiser_id; at = r.finish_at }

    unfoldable pub give_notices : ℕ → Schedules → Schedules
    give_notices at s = record s {
      rows = update_where (is_to_notice at) (notice_row at) s.rows;
      notices = map notice_of (select_where (is_to_notice at) s.rows) ++ s.notices;
    }

    abbrev pub is_claimable : ℕ → ℕ → ScheduleRow → Bool
    is_claimable id at r = has_id id r && is_due at r

    abbrev pub run_claimed : ℕ → ℕ → Option ScheduleRow → On Schedules Bool
    run_claimed id at none = pure false
    run_claimed id at (some r) =
        modify (change_rows (is_claimable id at) claim_row) >> (run (claim_row r) >> pure true)

    -- Claimed under the schedule's lock, and run.
    unfoldable pub run_one : ℕ → ℕ → On Schedules Bool
    run_one id at s =
        if held id
        then done false s
        else run_claimed id at (find_where (is_claimable id at) s.rows) s

    unfoldable pub run_each : ℕ → List ScheduleRow → ℕ → On Schedules ℕ
    run_each at [] ran = pure ran
    run_each at (r ∷ rs) ran = run_one r.id at >>= λ b. run_each at rs (count_one b ran)

    -- The schedules that are due, in order.
    abbrev pub due_rows : ℕ → Schedules → List ScheduleRow
    due_rows at s = order_by is_earlier (select_where (is_due at) s.rows)

    unfoldable pub run_due : ℕ → On Schedules ℕ
    run_due at =
        reconcile >>= λ _. modify (give_notices at) >> (get >>= λ s. run_each at (due_rows at s) 0)

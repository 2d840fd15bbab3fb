-- ===== src/Events/FinishSchedule/Waiting.antt =====
-- A finish without a verdict is not submitted again while its submission may still land.
use kippu_api.Base.{
  ℕ, ◌≡◌, refl, sym, ◌∙◌, subst, inl, inr, Bool, true, false, not, ◌&&◌, ◌||◌, Option, none, some,
  List, [], ◌∷◌, arith, ◌==◌, ==_iff, Bool-cases, if◌then◌else◌, All, All-update, updated,
  find_where, find-All, count_where,
}
use kippu_api.Store.{
  Try, Answer, found, refused, Ledger, Event, Ended, done, threw, after, ◌>>=◌, modify, lift, pure,
  answered, Stays, staying, bind-Stays, modify-Stays, answered-Stays,
}
use kippu_api.Events.FinishSchedule.{
  ScheduleRow, Schedules, FinishResult, event_finished_result, finish_refused, no_verdict, Audited,
  is_running, is_rejection, has_id, change_rows, claim_row, ended, run, settle, settle_by,
  settle_unfinished, may_land, is_finished_event, caught, is_running_of, settle_row, reconcile_one,
  reconcile_each, reconcile, give_notices, is_to_notice, notice_row, is_claimable, run_claimed,
  run_one, run_each, run_due,
}

-- A row that is another schedule's, or is running for the event.
abbrev pub Waits : ℕ → ℕ → ScheduleRow → Type 0
Waits id event r = (not (has_id id r) || (is_running r.status && (r.event == event))) ≡ true

module _ (id event n : ℕ) where
  -- The schedule is running, and its finish has been submitted as often as before.
  pub record Waiting (s : Schedules) : Type 0 where
    pub rows : All (Waits id event) s.rows
    pub submitted : count_where (λ x. x == id) s.submitted ≡ n

  -- A change that leaves the schedule's rows alone.
  change-Waiting :
      (q : ScheduleRow → Bool) (f : ScheduleRow → ScheduleRow)
      → ((r : ScheduleRow) → Waits id event r → Waits id event (updated q f r))
      → (s : Schedules) → Waiting s
      → Waiting (change_rows q f s)
  change-Waiting q f h s w = record {
    rows = All-update (λ _. true) q f (Waits id event) h s.rows w.rows;
    submitted = w.submitted;
  }

  -- A change of another schedule, by its id.
  other-Waiting :
      (x : ℕ) (f : ScheduleRow → ScheduleRow)
      → ((r : ScheduleRow) → (f r).id ≡ r.id)
      → (x == id) ≡ false
      → (s : Schedules) → Waiting s
      → Waiting (change_rows (has_id x) f s)
  other-Waiting x f same differ = change-Waiting (has_id x) f (λ r w.
      elim (Bool-cases (has_id x r)) [
        | inl hit ↦
            let here : r.id ≡ x = (==_iff r.id x).0 hit in
            let there : (f r).id ≡ x = same r ∙ here in rw (hit, there, differ) refl
        | inr miss ↦ rw miss w
      ])

module _ (ledger : Ledger) (account_of : ℕ → Option ℕ) (finish : ℕ → FinishResult)
    (audited : ℕ → List Audited) (closed_by_run : ℕ → ℕ → Bool) (reopen : ℕ → Try (Unit {0}))
    (operation_lifetime : ℕ) (held : ℕ → Bool) (now_of : ℕ → ℕ) (id event n : ℕ) where
  notices-Waiting :
      (at : ℕ) (s : Schedules)
      → Waiting id event n s
      → Waiting id event n (
          give_notices ledger account_of finish audited closed_by_run reopen operation_lifetime held
            now_of at s)
  unfolding give_notices
  notices-Waiting at s w = record {
    rows =
        All-update (λ _. true)
          (is_to_notice ledger account_of finish audited closed_by_run reopen operation_lifetime
            held now_of at)
          (notice_row ledger account_of finish audited closed_by_run reopen operation_lifetime held
            now_of at)
          (Waits id event) (λ r h. ground arith) s.rows w.rows;
    submitted = w.submitted;
  }

  ended-Waiting :
      (x : ℕ) (r : FinishResult)
      → (x == id) ≡ false
      → (s : Schedules) → Waiting id event n s
      → Waiting id event n (
          ended ledger account_of finish audited closed_by_run reopen operation_lifetime held now_of
            x r s)
  ended-Waiting x event_finished_result differ s w =
      other-Waiting id event n x _ (λ r. refl) differ s w
  ended-Waiting x (finish_refused code) differ s w =
      other-Waiting id event n x _ (λ r. refl) differ s w
  ended-Waiting x no_verdict differ s w = w

  submit-Waiting :
      (x : ℕ)
      → (x == id) ≡ false
      → (s : Schedules) → Waiting id event n s
      → Waiting id event n (record s { submitted = x ∷ s.submitted })
  unfolding count_where
  submit-Waiting x differ s w = record {
    rows = w.rows;
    submitted = rw differ (omega (arith, w.submitted));
  }

  reopened-Waiting :
      (e : ℕ) (s : Schedules)
      → Waiting id event n s
      → Waiting id event n (record s { reopened = e ∷ s.reopened })
  reopened-Waiting e s w = record { rows = w.rows; submitted = w.submitted }

  run-Waiting :
      (r : ScheduleRow)
      → (r.id == id) ≡ false
      → Stays (Waiting id event n) (
          run ledger account_of finish audited closed_by_run reopen operation_lifetime held now_of
            r)
  unfolding run
  run-Waiting r differ = search (staying, modify-Stays, submit-Waiting, ended-Waiting) depth 10

  claim-Waiting :
      (x at : ℕ) (s : Schedules)
      → Waiting id event n s
      → Waiting id event n (
          change_rows
            (is_claimable ledger account_of finish audited closed_by_run reopen operation_lifetime
              held now_of x at)
            claim_row
            s)
  claim-Waiting x at = change-Waiting id event n _ claim_row (λ r w. ground arith)

  -- What is found of a schedule's rows is another schedule's, or is running for the event.
  found_row :
      (p : ScheduleRow → Bool) (r : ScheduleRow) (s : Schedules)
      → find_where p s.rows ≡ some r
      → Waiting id event n s
      → Waits id event r × (p r ≡ true)
  found_row p r s e w = find-All p (Waits id event) s.rows w.rows e

  run_one-Waiting :
      (x at : ℕ)
      → Stays (Waiting id event n) (
          run_one ledger account_of finish audited closed_by_run reopen operation_lifetime held
            now_of x at)
  unfolding run_one Stays run
  run_one-Waiting x at s w = elim (Bool-cases (held x)) [
    | inl locked ↦ rw locked w
    | inr free ↦ rw free (by_row _ refl)
  ]
    where
      by_row :
          (o : Option ScheduleRow)
          → find_where
              (is_claimable ledger account_of finish audited closed_by_run reopen operation_lifetime
                held now_of x at)
              s.rows
            ≡ o
          → Waiting id event n (
              after (
                run_claimed ledger account_of finish audited closed_by_run reopen operation_lifetime
                  held now_of x at o s))
      by_row none e = w
      by_row (some r) e =
          let (waiting, claimable) = found_row _ r s e w in
          let differ : (r.id == id) ≡ false = ground arith in
          run-Waiting (claim_row r) differ _ (claim-Waiting x at s w)

  run_each-Waiting :
      (at : ℕ) (rs : List ScheduleRow) (ran : ℕ)
      → Stays (Waiting id event n) (
          run_each ledger account_of finish audited closed_by_run reopen operation_lifetime held
            now_of at rs ran)
  unfolding run_each
  run_each-Waiting at [] ran = search staying
  run_each-Waiting at (r ∷ rs) ran =
      let rest = λ (m : ℕ). run_each-Waiting at rs m in search (staying, run_one-Waiting) depth 10

  -- The schedule's run has no refusal, a submission that may still land, and an event that is not
  -- finished.
  abbrev pub is_open_event : Answer Event → Bool
  is_open_event (found ev) = not (
      is_finished_event ledger account_of finish audited closed_by_run reopen operation_lifetime
        held now_of ev.status)
  is_open_event (refused code) = true

  -- The change of another schedule when it is settled.
  settle_other-Waiting :
      (r : ScheduleRow)
      → (r.id == id) ≡ false
      → Stays (Waiting id event n) (
          settle ledger account_of finish audited closed_by_run reopen operation_lifetime held
            now_of r)
  unfolding settle
  settle_other-Waiting r differ =
      bind-Stays (Waiting id event n) (answered (ledger.get_event r.event)) _ (answered-Stays _ _)
        (λ ev. by_event ev)
    where
      reopen-Waiting :
          (b : Bool)
          → Stays (Waiting id event n) (
              if b
              then (lift (reopen r.event) >>= λ (_ : Unit {0}).
                  modify (λ (s : Schedules). record s { reopened = r.event ∷ s.reopened }))
              else pure tt)
      reopen-Waiting true = search (staying, modify-Stays, reopened-Waiting) depth 10
      reopen-Waiting false = search staying

      by_refusal :
          (o : Option Audited)
          → Stays (Waiting id event n) (
              settle_unfinished ledger account_of finish audited closed_by_run reopen
                operation_lifetime held now_of r o)
      by_refusal (some a) = search (staying, reopen-Waiting, other-Waiting) depth 14
      by_refusal none = search (staying, other-Waiting) depth 14

      by_event :
          (ev : Event)
          → Stays (Waiting id event n) (
              settle_by ledger account_of finish audited closed_by_run reopen operation_lifetime
                held now_of r ev)
      by_event ev = search (staying, by_refusal, other-Waiting) depth 14

  after_caught :
      (o : Ended Schedules Bool)
      → after (
          caught ledger account_of finish audited closed_by_run reopen operation_lifetime held
            now_of o)
        ≡ after o
  after_caught (done b s) = refl
  after_caught (threw e s) = refl

  module _ (unrefused : find_where is_rejection (audited id) ≡ none)
      (landing : may_land ledger account_of finish audited closed_by_run reopen operation_lifetime
          held now_of id
        ≡ true)
      (open_event : is_open_event (ledger.get_event event) ≡ true) where
    -- Settling the schedule itself leaves it for a later pass.
    settle_self :
        (r : ScheduleRow) (s : Schedules)
        → r.id ≡ id
        → r.event ≡ event
        → after (
            settle ledger account_of finish audited closed_by_run reopen operation_lifetime held
              now_of r s)
          ≡ s
    unfolding settle
    settle_self r s same_id same_event =
        by_answer (ledger.get_event r.event) (rw same_event open_event)
      where
        by_open :
            (b : Bool) (ev : Event)
            → is_finished_event ledger account_of finish audited closed_by_run reopen
                operation_lifetime held now_of ev.status
              ≡ b
            → not b ≡ true
            → after (
                settle_by ledger account_of finish audited closed_by_run reopen operation_lifetime
                  held now_of r ev s)
              ≡ s
        by_open true ev e h = absurd (cc h)
        by_open false ev e h = rw (e, same_id, unrefused, landing) refl

        by_answer :
            (a : Answer Event)
            → is_open_event a ≡ true
            → after (
                (answered a >>= λ ev.
                settle_by ledger account_of finish audited closed_by_run reopen operation_lifetime
                  held now_of r ev)
                  s)
              ≡ s
        by_answer (refused code) h = refl
        by_answer (found ev) h = by_open _ ev refl h

    reconcile_one-Waiting :
        (x : ℕ)
        → Stays (Waiting id event n) (
            reconcile_one ledger account_of finish audited closed_by_run reopen operation_lifetime
              held now_of x)
    unfolding reconcile_one Stays
    reconcile_one-Waiting x s w = elim (Bool-cases (held x)) [
      | inl locked ↦ rw locked w
      | inr free ↦ rw (free, after_caught _) (by_row _ refl)
    ]
      where
        by_row :
            (o : Option ScheduleRow)
            → find_where
                (is_running_of ledger account_of finish audited closed_by_run reopen
                  operation_lifetime held now_of x)
                s.rows
              ≡ o
            → Waiting id event n (
                after (
                  settle_row ledger account_of finish audited closed_by_run reopen
                    operation_lifetime held now_of o s))
        by_row none e = w
        by_row (some r) e =
            let (waiting, run_of) = found_row _ r s e w in
            elim (Bool-cases (r.id == id)) [
              | inl hit ↦
                  let same_event = (==_iff r.event event).0 (ground arith) in
                  subst (Waiting id event n)
                    (sym (settle_self r s ((==_iff r.id id).0 hit) same_event)) w
              | inr miss ↦ settle_other-Waiting r miss s w
            ]

    reconcile_each-Waiting :
        (rs : List ScheduleRow) (settled : ℕ)
        → Stays (Waiting id event n) (
            reconcile_each ledger account_of finish audited closed_by_run reopen operation_lifetime
              held now_of rs settled)
    unfolding reconcile_each
    reconcile_each-Waiting [] settled = search staying
    reconcile_each-Waiting (r ∷ rs) settled =
        let rest = λ (m : ℕ). reconcile_each-Waiting rs m in
        search (staying, reconcile_one-Waiting) depth 10

    pass-Waiting :
        (at : ℕ)
        → Stays (Waiting id event n) (
            run_due ledger account_of finish audited closed_by_run reopen operation_lifetime held
              now_of at)
    unfolding run_due reconcile
    pass-Waiting at =
        search (staying, reconcile_each-Waiting, notices-Waiting, run_each-Waiting) depth 18

    -- A pass of the scheduler submits no finish again while its submission may still land: where the
    -- schedule is running, the audit log has no refusal of its run and a submission without a verdict
    -- within its lifetime and margin, and the ledger does not have its event finished, the schedule is
    -- still running after the pass, and its finish has been submitted as often as before.
    pub run_due-Waits :
        (at : ℕ) (s : Schedules)
        → All (Waits id event) s.rows
        → count_where (λ x. x == id) s.submitted ≡ n
        → All
            (Waits id event)
            (after (
              run_due ledger account_of finish audited closed_by_run reopen operation_lifetime held
                now_of at s)).rows
          × (count_where
                (λ x. x == id)
                (after (
                  run_due ledger account_of finish audited closed_by_run reopen operation_lifetime
                    held now_of at s)).submitted
              ≡ n)
    unfolding Stays
    run_due-Waits at s rows submitted =
        let w = pass-Waiting at s (record { rows = rows; submitted = submitted }) in
        (w.rows, w.submitted)

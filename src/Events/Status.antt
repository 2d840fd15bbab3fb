-- ===== src/Events/Status.antt =====
-- src/events/status.ts: seal, cancel and finish. `write` is what became of the signed
-- `setEventStatus`; the sale actions (src/sales/organiser-actions.ts) are an interface.
pub mod Transitions
pub mod Actions
use kippu_api.Base.{
  ℕ, zero, suc, ◌≡◌, Bool, true, false, not, ◌&&◌, Option, none, some, if◌then◌else◌,
}
use kippu_api.Store.{
  Error, spec, failure, SpecCode, Try, ok, fail, Event, EventStatus, active, sealed, cancelled,
  finished, Answer, found, refused, Ledger, Db, M, Outcome, done, threw, after, ◌>>=◌, ◌>>◌, get,
  pure, throw, lift, answered,
}
use kippu_api.Sales.Allocation.{sales_closed}
use kippu_api.Sales.Audit.{CheckoutCause}
use kippu_api.Sales.Payment.Take.{is_active}
use kippu_api.Events.Ownership.{owned_event}

-- REFUND_RECORDING_ATTEMPTS
abbrev pub refund_recording_attempts : ℕ
refund_recording_attempts = 3

pub record SaleActions : Type 0 where
  pub release_all : ℕ → CheckoutCause → M (Unit {0})
  pub reopen_sales : ℕ → CheckoutCause → M (Unit {0})
  pub record_cancellation_refunds : ℕ → CheckoutCause → M (Unit {0})

-- What the transitions rely on: releasing closes the event's sales, and reopening opens them.
pub record SaleLaws (actions : SaleActions) : Type 0 where
  pub closes :
      (event : ℕ) (cause : CheckoutCause) (db : Db)
      → sales_closed event (after (actions.release_all event cause db)) ≡ true
  pub reopens :
      (event : ℕ) (cause : CheckoutCause) (db : Db)
      → sales_closed event (after (actions.reopen_sales event cause db)) ≡ false
  -- recording refunds is no closing or reopening
  pub refunds_leave :
      (event : ℕ) (cause : CheckoutCause) (db : Db)
      → sales_closed event (after (actions.record_cancellation_refunds event cause db))
        ≡ sales_closed event db

pub record StatusChanged : Type 0 where
  pub event : ℕ
  pub status : EventStatus
  -- `null` when the event was cancelled already
  pub cursor : Option ℕ

abbrev pub is_cancelled : EventStatus → Bool
is_cancelled cancelled = true
is_cancelled _ = false

-- Tries again, as often as is left, where the last try failed with the error.
unfoldable pub retry : ℕ → M (Unit {0}) → Error → M (Unit {0})
retry zero m e = throw e
retry (suc n) m e = λ db. elim (m db) [ done u db' ↦ done u db' | threw e' db' ↦ retry n m e' db' ]

module _ (ledger : Ledger) (account_of : ℕ → Option ℕ) (actions : SaleActions)
    (cause : CheckoutCause) (event : ℕ) where
  unfoldable pub settle_status : EventStatus → Bool → Answer ℕ → M StatusChanged
  settle_status status release (found cursor) =
      pure (record { event = event; status = status; cursor = some cursor })
  settle_status status true (refused code) = actions.reopen_sales event cause >> throw (spec code)
  settle_status status false (refused code) = throw (spec code)

  -- Only an Active event has its sales released first, and only then are they reopened.
  unfoldable pub submit : EventStatus → Bool → Try (Answer ℕ) → M StatusChanged
  submit status release write = do
    if release then actions.release_all event cause else pure tt
    answer ← lift write
    settle_status status release answer

  unfoldable pub record_refunds : M (Unit {0})
  record_refunds =
      retry refund_recording_attempts (actions.record_cancellation_refunds event cause) failure

  unfoldable pub seal : ℕ → Try (Answer ℕ) → M StatusChanged
  seal organiser_id write = do
    ev ← lift (owned_event ledger account_of organiser_id event)
    submit sealed (is_active ev.status) write

  unfoldable pub cancel_current : EventStatus → Try (Answer ℕ) → M StatusChanged
  cancel_current current write =
      if is_cancelled current
      then (record_refunds >> pure (record { event = event; status = cancelled; cursor = none }))
      else (submit cancelled (is_active current) write >>= λ changed.
          record_refunds >> pure changed)

  unfoldable pub cancel : ℕ → Try (Answer ℕ) → M StatusChanged
  cancel organiser_id write = do
    ev ← lift (owned_event ledger account_of organiser_id event)
    cancel_current ev.status write

  unfoldable pub finish : ℕ → Try (Answer ℕ) → M StatusChanged
  finish organiser_id write = do
    ev ← lift (owned_event ledger account_of organiser_id event)
    submit finished (is_active ev.status) write

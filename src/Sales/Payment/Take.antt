-- ===== src/Sales/Payment/Take.antt =====
-- `takePlace` of src/sales/payment.ts: a verified payment takes its hold's place, or a refund is
-- recorded, in one transaction.
pub mod Free
pub mod Cases
pub mod Ends
pub mod Once
pub mod Limits
use kippu_api.Base.{
  ℕ, Bool, true, false, not, ◌&&◌, Option, none, some, ◌∷◌, ◌==◌, if◌then◌else◌, find_where,
  update_where,
}
use kippu_api.Store.{
  Try, ok, fail, Ledger, TicketOf, Event, EventStatus, active, found, refused, Hold, HoldStatus,
  outstanding, lapsed, released, issuing, HostedRow, PrimarySale, issuing_sale, amount_mismatch,
  event_closed, place_gone, payment_verified, hold_released, Db, M, ◌>>=◌, ◌>>◌, get, modify, pure,
  lift, in_transaction,
}
use kippu_api.Sales.Allocation.{
  AllocationTarget, AllocationCounts, allocation_counts, sales_closed, capacity_has_room,
  quota_has_room,
}
use kippu_api.Sales.Seats.{assert_free}
use kippu_api.Sales.Holds.{is_seat_taken}
use kippu_api.Sales.Audit.{CheckoutCause, record_checkout_step}
use kippu_api.Sales.Payment.{
  HostedCheckout, HoldRow, has_id, hold_row, record_status, release_hold, entitle, is_handled,
}

abbrev pub target_of : HoldRow → AllocationTarget
target_of row = record {
  event = row.event;
  zone = row.zone;
  class_id = row.class_id;
  position = row.position;
}

abbrev pub is_active : EventStatus → Bool
is_active active = true
is_active _ = false

-- `assertFree` with its refusal caught.
abbrev pub freed : Try ℕ → Try Bool
freed (ok ticket) = ok true
freed (fail e) = if is_seat_taken e then ok false else fail e

abbrev pub take_hold : Hold → Hold
take_hold h = record h { status = issuing; ended_at = none }

module _ (ledger : Ledger) (ticket_of : TicketOf) where
  unfoldable pub seat_free : HoldRow → Db → Option ℕ → Try Bool
  seat_free row db none = ok true
  seat_free row db (some p) = freed (assert_free ledger ticket_of row.event row.zone p db)

  -- Whether the place of a hold that ended is still free.
  unfoldable pub place_free : HoldRow → AllocationCounts → Db → Try Bool
  place_free row counts db = elim (ledger.get_event row.event) [
    | refused code ↦ ok false
    | found ev ↦
        if is_active ev.status
          && capacity_has_room ev counts
          && quota_has_room counts
          && not counts.seat_held
        then seat_free row db row.position
        else ok false
  ]

  -- By the hold's status as it is re-read.
  unfoldable pub is_placed : HoldRow → AllocationCounts → Db → Option Hold → Try Bool
  is_placed row counts db none = ok false
  is_placed row counts db (some h) = elim h.status [
    | outstanding ↦ ok true
    | lapsed ↦ place_free row counts db
    | released ↦ place_free row counts db
    | _ ↦ ok false
  ]

  module _ (cause : CheckoutCause) (hosted : HostedRow) (remote : HostedCheckout) (clock : ℕ → ℕ)
      (refund_id sale_id : ℕ) where
    unfoldable pub take_or_refund : HoldRow → Bool → M (Option HoldRow)
    take_or_refund row false = do
      entitle cause hosted row.checkout_id remote.amount remote.asset place_gone refund_id (clock 3)
      pure none
    take_or_refund row true = do
      modify λ db. record db {
        holds = update_where (has_id row.id) take_hold db.holds;
        primary_sales =
            record {
              id = sale_id;
              hosted_checkout_id = hosted.id;
              hold_id = row.id;
              holder_account = row.holder_account;
              status = issuing_sale;
              ticket = none;
              operation_id = none;
              receipt_cursor = none;
              error_code = none;
              created_at = clock 3;
              completed_at = none;
            }
            ∷ db.primary_sales;
      }
      pure (some row)

    -- The amount and asset are the hold's; the event's sales are open.
    unfoldable pub take_counted : HoldRow → M (Option HoldRow)
    take_counted row = do
      counts ← allocation_counts (target_of row) (clock 2)
      db ← get
      placed ← lift (is_placed row counts db (find_where (has_id row.id) db.holds))
      take_or_refund row placed

    unfoldable pub note_release : HoldRow → Bool → M (Unit {0})
    note_release row true = record_checkout_step row.checkout_id hold_released cause (clock 4)
    note_release row false = pure tt

    -- By whether the amount and asset are the hosted checkout's, and the sales are closed.
    unfoldable pub take_verified : HoldRow → Bool → Bool → M (Option HoldRow)
    take_verified row false closed = do
      entitle cause hosted row.checkout_id remote.amount remote.asset amount_mismatch refund_id
          (clock 2)
      _ ← release_hold row.id (clock 3)
      pure none
    take_verified row true true = do
      entitle cause hosted row.checkout_id remote.amount remote.asset event_closed refund_id
          (clock 2)
      count ← release_hold row.id (clock 3)
      note_release row (count == 1)
      pure none
    take_verified row true false = take_counted row

    unfoldable pub take_by : HoldRow → Bool → M (Option HoldRow)
    take_by row true = pure none
    take_by row false = do
      record_checkout_step row.checkout_id payment_verified cause (clock 1)
      db ← get
      take_verified row (remote.amount == hosted.amount && remote.asset == hosted.asset)
          (sales_closed row.event db)

    -- Answers the hold whose place was taken, for the sale `sale_id`.
    unfoldable pub take_place : M (Option HoldRow)
    take_place = in_transaction do
      db ← get
      row ← lift (hold_row hosted.hold_id db)
      modify (record_status hosted.id remote.status (clock 0))
      db ← get
      take_by row (is_handled hosted.id db)

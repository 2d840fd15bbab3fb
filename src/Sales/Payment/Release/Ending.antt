-- ===== src/Sales/Payment/Release/Ending.antt =====
-- `releaseAll` ends an event's sales: they stay closed through all that it does, paid checkouts
-- that it reconciles included.
use kippu_api.Base.{ℕ, ◌≡◌, Bool, true, false, Option, none, some, List, [], ◌∷◌}
use kippu_api.Store.{
  Ledger, TicketOf, Hold, HostedRow, RefundReason, CheckoutStep, Db, after, Stays, staying,
  modify-Stays,
}
use kippu_api.Sales.Allocation.{sales_closed, allocation_counts, AllocationTarget, lapse_event}
use kippu_api.Sales.Audit.{CheckoutCause, record_checkout_step}
use kippu_api.Sales.Payment.{
  HostedCheckout, Provider, HoldRow, record_refund, insert_refund, entitle, release_hold,
  record_status,
}
use kippu_api.Sales.Payment.Take.{
  take_or_refund, take_counted, note_release, take_verified, take_by, take_place,
}
use kippu_api.Sales.Payment.Issue.{
  Completion, completed_issued, completed_rejected, completed_failed, confirm_place,
  insert_face_value, complete_by, complete, record_submission, Relay, Relayed, not_signed,
  submitted, issue_relayed, issue, issue_taken, reconcile_paid, reconcile_hosted, reconcile,
}
use kippu_api.Sales.Payment.Pay.{cancel_hosted}
use kippu_api.Sales.Payment.Release.{
  release_unpaid, release_cancelled, release_open, release_found, release_one, release_each,
  reconcile_each, release_closed, release_all,
}
use kippu_api.Sales.Payment.Release.Closing.{close_sales-closed}

module _ (event : ℕ) where
  Closed : Db → Type 0
  Closed db = sales_closed event db ≡ true

  step-Closed :
      (x : ℕ) (step : CheckoutStep) (cause : CheckoutCause) (at : ℕ)
      → Stays Closed (record_checkout_step x step cause at)
  unfolding record_checkout_step Closed sales_closed
  step-Closed x step cause at = modify-Stays Closed _ (λ _ p. p)

  record_refund-Closed :
      (cause : CheckoutCause) (hosted : HostedRow) (checkout_id amount asset : ℕ)
      (reason : RefundReason) (refund_id at : ℕ)
      → Stays Closed (record_refund cause hosted checkout_id amount asset reason refund_id at)
  unfolding record_refund Closed sales_closed
  record_refund-Closed cause hosted checkout_id amount asset reason refund_id at =
      search (staying, step-Closed) depth 10

  insert_refund-Closed :
      (cause : CheckoutCause) (hosted : HostedRow) (checkout_id amount asset : ℕ)
      (reason : RefundReason) (refund_id at : ℕ)
      → Stays Closed (insert_refund cause hosted checkout_id amount asset reason refund_id at)
  unfolding insert_refund
  insert_refund-Closed cause hosted checkout_id amount asset reason refund_id at =
      search (staying, record_refund-Closed) depth 10

  entitle-Closed :
      (cause : CheckoutCause) (hosted : HostedRow) (checkout_id amount asset : ℕ)
      (reason : RefundReason) (refund_id at : ℕ)
      → Stays Closed (entitle cause hosted checkout_id amount asset reason refund_id at)
  unfolding entitle
  entitle-Closed cause hosted checkout_id amount asset reason refund_id at =
      search (staying, insert_refund-Closed) depth 10

  release_hold-Closed : (id at : ℕ) → Stays Closed (release_hold id at)
  unfolding release_hold Closed sales_closed
  release_hold-Closed id at = search staying depth 10

  allocation_counts-Closed : (t : AllocationTarget) (at : ℕ) → Stays Closed (allocation_counts t at)
  unfolding allocation_counts Closed sales_closed lapse_event
  allocation_counts-Closed t at = search staying depth 10

  module _ (ledger : Ledger) (ticket_of : TicketOf) (cause : CheckoutCause) (hosted : HostedRow)
      (remote : HostedCheckout) (clock : ℕ → ℕ) (refund_id sale_id : ℕ) where
    take_or_refund-Closed :
        (row : HoldRow) (b : Bool)
        → Stays Closed
            (take_or_refund ledger ticket_of cause hosted remote clock refund_id sale_id row b)
    unfolding take_or_refund Closed sales_closed
    take_or_refund-Closed row false = search (staying, entitle-Closed) depth 10
    take_or_refund-Closed row true = search staying depth 10

    take_counted-Closed :
        (row : HoldRow)
        → Stays Closed
            (take_counted ledger ticket_of cause hosted remote clock refund_id sale_id row)
    unfolding take_counted
    take_counted-Closed row =
        search (staying, allocation_counts-Closed, take_or_refund-Closed) depth 10

    note_release-Closed :
        (row : HoldRow) (b : Bool)
        → Stays Closed
            (note_release ledger ticket_of cause hosted remote clock refund_id sale_id row b)
    unfolding note_release
    note_release-Closed row false = search staying
    note_release-Closed row true = search step-Closed

    take_verified-Closed :
        (row : HoldRow) (same_amount closed : Bool)
        → Stays Closed (
            take_verified ledger ticket_of cause hosted remote clock refund_id sale_id row
              same_amount closed)
    unfolding take_verified
    take_verified-Closed row false closed =
        search (staying, entitle-Closed, release_hold-Closed) depth 10
    take_verified-Closed row true true =
        search (staying, entitle-Closed, release_hold-Closed, note_release-Closed) depth 10
    take_verified-Closed row true false = take_counted-Closed row

    take_by-Closed :
        (row : HoldRow) (b : Bool)
        → Stays Closed (take_by ledger ticket_of cause hosted remote clock refund_id sale_id row b)
    unfolding take_by
    take_by-Closed row true = search staying
    take_by-Closed row false = search (staying, step-Closed, take_verified-Closed) depth 10

    take_place-Closed :
        Stays Closed (take_place ledger ticket_of cause hosted remote clock refund_id sale_id)
    unfolding take_place record_status Closed sales_closed
    take_place-Closed = search (staying, take_by-Closed) depth 14

  module _ (cause : CheckoutCause) (hosted : HostedRow) (clock : ℕ → ℕ) (refund_id sale_id : ℕ)
      (row : HoldRow) where
    confirm_place-Closed :
        (at : ℕ) → Stays Closed (confirm_place cause hosted clock refund_id sale_id row at)
    unfolding confirm_place Closed sales_closed Stays
    confirm_place-Closed at = search staying depth 14

    insert_face_value-Closed :
        (ticket at : ℕ) (amount asset : Option ℕ)
        → Stays Closed
            (insert_face_value cause hosted clock refund_id sale_id row ticket at amount asset)
    unfolding insert_face_value Closed sales_closed Stays
    insert_face_value-Closed ticket at (some amount) (some asset) = search staying depth 14
    insert_face_value-Closed ticket at none asset = search staying
    insert_face_value-Closed ticket at (some amount) none = search staying

    complete-Closed :
        (c : Completion) → Stays Closed (complete_by cause hosted clock refund_id sale_id row c)
    unfolding complete_by Closed sales_closed
    complete-Closed (completed_issued ticket cursor) =
        search (staying, step-Closed, confirm_place-Closed, insert_face_value-Closed) depth 14
    complete-Closed (completed_rejected code) =
        search (staying, step-Closed, entitle-Closed) depth 10
    complete-Closed completed_failed = search (staying, step-Closed) depth 10

    committed-Closed :
        (c : Completion) → Stays Closed (complete cause hosted clock refund_id sale_id row c)
    unfolding complete
    committed-Closed c = search (staying, complete-Closed) depth 10

    record_submission-Closed :
        (ticket : ℕ) (operation : Option ℕ)
        → Stays Closed (record_submission cause hosted clock refund_id sale_id row ticket operation)
    unfolding record_submission Closed sales_closed
    record_submission-Closed ticket operation = search (staying, modify-Stays) depth 10

    issue_relayed-Closed :
        (r : Relayed) → Stays Closed (issue_relayed cause hosted clock refund_id sale_id row r)
    unfolding issue_relayed
    issue_relayed-Closed not_signed = committed-Closed _
    issue_relayed-Closed (submitted ticket operation v) =
        search (staying, record_submission-Closed, committed-Closed) depth 10

    issue-Closed :
        (relay : Relay) → Stays Closed (issue cause hosted clock refund_id sale_id row relay)
    unfolding issue
    issue-Closed relay = search (staying, issue_relayed-Closed) depth 10

  module _ (ledger : Ledger) (ticket_of : TicketOf) (provider : Provider) (relay : Relay) where
    module _ (cause : CheckoutCause) (clock issue_clock : ℕ → ℕ) (refund_id sale_id : ℕ) where
      issue_taken-Closed :
          (hosted : HostedRow) (r : Option HoldRow)
          → Stays Closed (
              issue_taken ledger ticket_of provider relay cause clock issue_clock refund_id sale_id
                hosted r)
      unfolding issue_taken
      issue_taken-Closed hosted none = search staying
      issue_taken-Closed hosted (some row) = search issue-Closed

      reconcile_paid-Closed :
          (hosted : HostedRow) (remote : HostedCheckout) (same_hold is_paid : Bool)
          → Stays Closed (
              reconcile_paid ledger ticket_of provider relay cause clock issue_clock refund_id
                sale_id hosted remote same_hold is_paid)
      unfolding reconcile_paid record_status Closed sales_closed
      reconcile_paid-Closed hosted remote false is_paid = search staying
      reconcile_paid-Closed hosted remote true false = search modify-Stays
      reconcile_paid-Closed hosted remote true true =
          search (staying, take_place-Closed, issue_taken-Closed) depth 10

      reconcile_hosted-Closed :
          (id : ℕ) (k : Option HostedRow)
          → Stays Closed (
              reconcile_hosted ledger ticket_of provider relay cause clock issue_clock refund_id
                sale_id id k)
      unfolding reconcile_hosted
      reconcile_hosted-Closed id none = search staying
      reconcile_hosted-Closed id (some hosted) = search (staying, reconcile_paid-Closed) depth 10

      reconcile-Closed :
          (id : ℕ)
          → Stays Closed (
              reconcile ledger ticket_of provider relay cause clock issue_clock refund_id sale_id
                id)
      unfolding reconcile
      reconcile-Closed id = search (staying, reconcile_hosted-Closed) depth 10

  cancel_hosted-Closed :
      (provider : Provider) (hosted : HostedRow) (at : ℕ)
      → Stays Closed (cancel_hosted provider hosted at)
  unfolding cancel_hosted record_status Closed sales_closed
  cancel_hosted-Closed provider hosted at = search (staying, modify-Stays) depth 10

  module _ (provider : Provider) (cause : CheckoutCause) where
    module _ (clock : ℕ → ℕ) where
      release_unpaid-Closed :
          (h : Hold) (cancelled outstanding_still : Bool)
          → Stays Closed (release_unpaid provider cause clock h cancelled outstanding_still)
      unfolding release_unpaid Closed sales_closed
      release_unpaid-Closed h cancelled false = search staying
      release_unpaid-Closed h cancelled true = search (staying, step-Closed) depth 10

      release_cancelled-Closed :
          (h : Hold) (hosted : HostedRow) (paid_first : Bool)
          → Stays Closed (release_cancelled provider cause clock h hosted paid_first)
      unfolding release_cancelled
      release_cancelled-Closed h hosted true = search staying
      release_cancelled-Closed h hosted false =
          search (staying, step-Closed, release_unpaid-Closed) depth 10

      release_open-Closed :
          (h : Hold) (k : Option HostedRow) → Stays Closed (release_open provider cause clock h k)
      unfolding release_open
      release_open-Closed h none = search release_unpaid-Closed
      release_open-Closed h (some hosted) =
          search (staying, cancel_hosted-Closed, release_cancelled-Closed) depth 10

      release_found-Closed : (h : Option Hold) → Stays Closed (release_found provider cause clock h)
      unfolding release_found
      release_found-Closed none = search staying
      release_found-Closed (some h) = search (staying, release_open-Closed) depth 10

      release_one-Closed : (id : ℕ) → Stays Closed (release_one provider cause clock id)
      unfolding release_one
      release_one-Closed id = search (staying, release_found-Closed) depth 10

    release_each-Closed :
        (clock : ℕ → ℕ → ℕ) (ids : List ℕ) → Stays Closed (release_each provider cause clock ids)
    unfolding release_each
    release_each-Closed clock [] = search staying
    release_each-Closed clock (id ∷ ids) =
        let rest = release_each-Closed clock ids in search (staying, release_one-Closed) depth 10

  module _ (ledger : Ledger) (ticket_of : TicketOf) (provider : Provider) (relay : Relay)
      (clock issue_clock : ℕ → ℕ → ℕ) (refund_id sale_id : ℕ → ℕ) where
    reconcile_each-Closed :
        (cause : CheckoutCause) (ids : List ℕ)
        → Stays Closed (
            reconcile_each ledger ticket_of provider relay clock issue_clock refund_id sale_id cause
              ids)
    unfolding reconcile_each
    reconcile_each-Closed cause [] = search staying
    reconcile_each-Closed cause (id ∷ ids) =
        let rest = reconcile_each-Closed cause ids in search (staying, reconcile-Closed) depth 10

    release_closed-Closed :
        (cause : CheckoutCause) (release_clock : ℕ → ℕ → ℕ)
        → Stays Closed (
            release_closed ledger ticket_of provider relay clock issue_clock refund_id sale_id event
              cause release_clock)
    unfolding release_closed
    release_closed-Closed cause release_clock =
        search (staying, release_each-Closed, reconcile_each-Closed) depth 12

    -- `releaseAll` leaves the event's sales closed, whether it returns or throws, and whatever the
    -- payment provider and the ledger answer to it.
    pub release_all-closed :
        (cause : CheckoutCause) (at : ℕ) (release_clock : ℕ → ℕ → ℕ) (db : Db)
        → sales_closed event (
            after (
              release_all ledger ticket_of provider relay clock issue_clock refund_id sale_id event
                cause at release_clock db))
          ≡ true
    unfolding release_all Stays Closed
    release_all-closed cause at release_clock db =
        release_closed-Closed cause release_clock _ (close_sales-closed event cause at db)

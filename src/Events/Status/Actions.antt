-- ===== src/Events/Status/Actions.antt =====
-- The sale actions that the status transitions call (`createOrganiserSaleActions` of
-- src/sales/organiser-actions.ts), put together from the sales' operations, and their laws.
use kippu_api.Base.{
  ℕ, ◌≡◌, refl, ap, ◌∙◌, Bool, true, false, not, ◌&&◌, Option, none, some, List, [], ◌∷◌, arith,
  ==_iff,
}
use kippu_api.Store.{
  Ledger, TicketOf, Ticket, Answer, found, refused, Db, after, ◌>>=◌, pure, Stays, staying,
  ignoring,
}
use kippu_api.Sales.Allocation.{sales_closed}
use kippu_api.Sales.Audit.{CheckoutCause, record_checkout_step}
use kippu_api.Sales.Payment.{Provider}
use kippu_api.Sales.Payment.Issue.{Relay}
use kippu_api.Sales.Payment.Release.{release_all, reopen_sales}
use kippu_api.Sales.Payment.Release.Closing.{reopen_sales-open}
use kippu_api.Sales.Payment.Release.Ending.{release_all-closed}
use kippu_api.Sales.CancellationRefunds.{
  SaleRow, insert_entitlement, refund_priced, refund_held, refund_issued, refund_sale, refund_each,
  refund_cancelled, record_cancellation_refunds,
}
use kippu_api.Events.Status.{SaleActions, SaleLaws}

module _ (event : ℕ) (b : Bool) where
  As : Db → Type 0
  As db = sales_closed event db ≡ b

  module _ (ledger : Ledger) (for_event : ℕ) (cause : CheckoutCause) (at refund_id : ℕ → ℕ) where
    insert-As :
        (row : SaleRow) (amount asset holder : ℕ)
        → Stays As (insert_entitlement ledger for_event cause at refund_id row amount asset holder)
    unfolding insert_entitlement record_checkout_step As sales_closed
    insert-As row amount asset holder = search staying depth 10

    priced-As :
        (row : SaleRow) (holder : ℕ) (amount asset : Option ℕ)
        → Stays As (refund_priced ledger for_event cause at refund_id row holder amount asset)
    unfolding refund_priced
    priced-As row holder (some amount) (some asset) = search (staying, insert-As) depth 8
    priced-As row holder none asset = search staying
    priced-As row holder (some amount) none = search staying

    held-As :
        (row : SaleRow) (a : Answer (Option ℕ))
        → Stays As (refund_held ledger for_event cause at refund_id row a)
    unfolding refund_held
    held-As row (refused code) = search staying
    held-As row (found none) = search staying
    held-As row (found (some holder)) = search priced-As

    issued-As :
        (row : SaleRow) (a : Answer Ticket)
        → Stays As (refund_issued ledger for_event cause at refund_id row a)
    unfolding refund_issued
    issued-As row (refused code) = search staying depth 8
    issued-As row (found t) = search (staying, held-As) depth 8

    sale-As : (row : SaleRow) → Stays As (refund_sale ledger for_event cause at refund_id row)
    unfolding refund_sale
    sale-As row = search (staying, issued-As) depth 8

    each-As :
        (rows : List SaleRow) → Stays As (refund_each ledger for_event cause at refund_id rows)
    unfolding refund_each
    each-As [] = search staying
    each-As (row ∷ rows) = let rest = each-As rows in search (staying, sale-As) depth 8

    cancelled-As : (c : Bool) → Stays As (refund_cancelled ledger for_event cause at refund_id c)
    unfolding refund_cancelled
    cancelled-As false = search staying
    cancelled-As true = search (staying, each-As) depth 8

    recorded-As : Stays As (record_cancellation_refunds ledger for_event cause at refund_id)
    unfolding record_cancellation_refunds
    recorded-As = search (staying, cancelled-As) depth 8

refunds_leave_all :
    (event for_event : ℕ) (ledger : Ledger) (cause : CheckoutCause) (at refund_id : ℕ → ℕ) (db : Db)
    → sales_closed event
        (after (record_cancellation_refunds ledger for_event cause at refund_id db))
      ≡ sales_closed event db
unfolding Stays As
refunds_leave_all event for_event ledger cause at refund_id db =
    recorded-As event (sales_closed event db) ledger for_event cause at refund_id db refl

module _ (ledger : Ledger) (ticket_of : TicketOf) (provider : Provider) (relay : Relay)
    (clock issue_clock : ℕ → ℕ → ℕ) (refund_id sale_id : ℕ → ℕ) (at : ℕ) (release_clock : ℕ → ℕ → ℕ)
    (refund_clock cancel_refund_id : ℕ → ℕ) where
  abbrev pub organiser_sale_actions : SaleActions
  organiser_sale_actions = record {
    release_all = λ event cause.
        release_all ledger ticket_of provider relay clock issue_clock refund_id sale_id event cause
          at release_clock
        >>= λ _. pure tt;
    reopen_sales = λ event cause. reopen_sales event cause at >>= λ _. pure tt;
    record_cancellation_refunds = λ event cause.
        record_cancellation_refunds ledger event cause refund_clock cancel_refund_id >>= λ _.
        pure tt;
  }

  reopened_open :
      (event : ℕ) (cause : CheckoutCause) (db : Db)
      → sales_closed event (after (reopen_sales event cause at db)) ≡ false
  reopened_open event cause db =
      let (db', ends, open_now) = reopen_sales-open event event cause at db in
      ap (λ o. sales_closed event (after o)) ends
      ∙ open_now
      ∙ same_event _ _ ((==_iff event event).1 refl)
    where
      same_event : (a b : Bool) → b ≡ true → (a && not b) ≡ false
      same_event a b e = ground arith

  -- The sale actions of `createOrganiserSaleActions` keep what the status transitions rely on:
  -- releasing closes the event's sales, reopening opens them, and recording refunds leaves them.
  pub organiser_sale_actions-SaleLaws : SaleLaws organiser_sale_actions
  organiser_sale_actions-SaleLaws = record {
    closes = λ event cause db.
        ap (sales_closed event) (
          ignoring
            (release_all ledger ticket_of provider relay clock issue_clock refund_id sale_id event
              cause at release_clock)
            db)
        ∙ release_all-closed event ledger ticket_of provider relay clock issue_clock refund_id
            sale_id cause at release_clock db;
    reopens = λ event cause db.
        ap (sales_closed event) (ignoring (reopen_sales event cause at) db)
        ∙ reopened_open event cause db;
    refunds_leave = λ event cause db.
        ap (sales_closed event) (
          ignoring (record_cancellation_refunds ledger event cause refund_clock cancel_refund_id)
            db)
        ∙ refunds_leave_all event event ledger cause refund_clock cancel_refund_id db;
  }

-- ===== src/Examples/Closing.antt =====
-- The event is sealed or cancelled, and its sales are closed and opened again.
use kippu_api.Base.{
  ℕ, ◌≡◌, refl, true, not, ◌&&◌, ◌||◌, [], ◌==◌, length, All, count_where, exists_where, find_where,
  select_where,
}
use kippu_api.Store.{active, refused, ok, done, Db, after, event_sealed}
use kippu_api.Sales.Allocation.{sales_closed}
use kippu_api.Sales.Audit.{record_checkout_step}
use kippu_api.Sales.Holds.{place}
use kippu_api.Sales.CancellationRefunds.{
  record_cancellation_refunds, refund_cancelled, refund_each, refund_sale, refund_issued,
  refund_held, refund_priced, insert_entitlement, rows_of, sale_row, ordered, put_in,
}
use kippu_api.Sales.CancellationRefunds.Selected.{is_sold_here, is_refunded}
use kippu_api.Sales.CancellationRefunds.Complete.{record_cancellation_refunds_complete}
use kippu_api.Sales.Payment.Release.{
  close_sales, is_closed_of, release_all, release_closed, release_each, reconcile_each,
  reopen_sales,
}
use kippu_api.Sales.Payment.Release.Closing.{close_sales-closed, place-closed, reopen_sales-open}
use kippu_api.Sales.Payment.Release.Ending.{release_all-closed}
use kippu_api.Events.Ownership.{owned_event}
use kippu_api.Events.Status.{SaleActions, seal, finish, cancel}
use kippu_api.Events.Status.Actions.{organiser_sale_actions, organiser_sale_actions-SaleLaws}
use kippu_api.Events.Status.Transitions.{is_refusal, transitions-closed}
use kippu_api.Examples.Data.{
  event_with, ledger, cancelled_ledger, ticket_of, accounts, request, cause, provider, relay, store,
  sold_store, second_target,
}

abbrev at_100 : ℕ → ℕ → ℕ
at_100 id k = 100

abbrev own_id : ℕ → ℕ
own_id id = id

-- With the event's sales closed.
abbrev closed_store : Db
closed_store = close_sales 1 cause 90 store

release_all-closed_example :
    sales_closed 1 (
      after (
        release_all ledger ticket_of provider relay at_100 at_100 own_id own_id 1 cause 90 at_100
          store))
    ≡ true
release_all-closed_example =
    release_all-closed 1 ledger ticket_of provider relay at_100 at_100 own_id own_id cause 90 at_100
      store

place-closed_example :
    length (after (place ledger ticket_of request second_target 6 100 closed_store)).holds
    ≡ length closed_store.holds
place-closed_example =
    place-closed ledger ticket_of request second_target 6 100 closed_store
      (close_sales-closed 1 cause 90 store)

reopen_sales-open_example :
    (db' : Db) × (reopen_sales 1 cause 100 closed_store
      ≡ done (count_where (is_closed_of 1) closed_store.event_sale_closures == 1) db')
    × (sales_closed 1 db' ≡ (sales_closed 1 closed_store && not (1 == 1)))
reopen_sales-open_example = reopen_sales-open 1 1 cause 100 closed_store

-- With no hold or payment.
abbrev idle_store : Db
idle_store = record store { holds = []; hosted_checkouts = [] }

abbrev actions : SaleActions
actions =
    organiser_sale_actions ledger ticket_of provider relay at_100 at_100 own_id own_id 90 at_100
      own_id own_id

owns : owned_event ledger accounts 3 1 ≡ ok (event_with active)
unfolding owned_event
owns = refl

release_ends : actions.release_all 1 cause idle_store ≡ done tt (close_sales 1 cause 90 idle_store)
unfolding release_all release_closed release_each reconcile_each close_sales exists_where
    select_where count_where
release_ends = refl

transitions-closed_example :
    (sales_closed 1
        (after (seal ledger accounts actions cause 1 3 (ok (refused event_sealed)) idle_store))
      ≡ not (is_refusal (ok (refused event_sealed))))
    × (sales_closed 1
          (after (finish ledger accounts actions cause 1 3 (ok (refused event_sealed)) idle_store))
        ≡ not (is_refusal (ok (refused event_sealed))))
    × (sales_closed 1
          (after (cancel ledger accounts actions cause 1 3 (ok (refused event_sealed)) idle_store))
        ≡ not (is_refusal (ok (refused event_sealed))))
transitions-closed_example =
    transitions-closed ledger accounts actions
      (organiser_sale_actions-SaleLaws ledger ticket_of provider relay at_100 at_100 own_id own_id
        90 at_100 own_id own_id)
      cause 1 3 (event_with active) (ok (refused event_sealed)) idle_store _ owns refl release_ends

refunds_end :
    record_cancellation_refunds cancelled_ledger 1 cause own_id own_id sold_store
    ≡ done
        (record { recorded = 1; existing = 0; unaccounted = [] })
        (after (record_cancellation_refunds cancelled_ledger 1 cause own_id own_id sold_store))
unfolding record_cancellation_refunds refund_cancelled refund_each refund_sale refund_issued
    refund_held refund_priced insert_entitlement rows_of sale_row ordered put_in
    record_checkout_step exists_where find_where select_where
refunds_end = refl

record_cancellation_refunds_complete_example :
    All
      (λ s.
        (not (is_sold_here cancelled_ledger 1 sold_store s)
          || is_refunded cancelled_ledger 1
              (after
                (record_cancellation_refunds cancelled_ledger 1 cause own_id own_id sold_store))
              s)
        ≡ true)
      sold_store.primary_sales
record_cancellation_refunds_complete_example =
    record_cancellation_refunds_complete cancelled_ledger 1 cause own_id own_id sold_store _ _
      refunds_end

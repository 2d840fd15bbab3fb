-- ===== src/Examples/Paying.antt =====
-- The hold's payment arrives, and its ticket is issued.
use kippu_api.Base.{
  ◌≡◌, ◌≤◌, ◌⊎◌, refl, true, false, none, some, arith, count_where, exists_where, find_where,
  update_where, [], ◌∷◌,
}
use kippu_api.Store.{issuing, issuing_sale, active, ok, done, Db, after}
use kippu_api.Sales.Allocation.{
  sales_closed, allocation_counts, counts_of, class_quota, lapse_event,
}
use kippu_api.Sales.Allocation.Taken.{of_event, taken}
use kippu_api.Sales.Audit.{record_checkout_step}
use kippu_api.Sales.Payment.{has_id, hold_row, is_handled, record_status}
use kippu_api.Sales.Payment.Take.{
  take_place, take_by, take_verified, take_counted, take_or_refund, is_placed,
}
use kippu_api.Sales.Payment.Take.Limits.{take_place-Limit}
use kippu_api.Sales.Payment.Take.Once.{take_place-once, take_place_sound, handlings}
use kippu_api.Examples.Data.{
  event_with, ledger, ticket_of, cause, clock, hosted, remote, store, row, hold_with,
}

hold_there : hold_row 3 store ≡ ok row
unfolding hold_row find_where
hold_there = refl

one_hold : count_where (has_id 3) store.holds ≤ 1
unfolding count_where
one_hold = omega arith

store-taken : taken ticket_of (of_event 1) store ≤ 2
unfolding taken count_where
store-taken = omega arith

take_place-Limit_example :
    taken ticket_of
      (of_event 1)
      (after (take_place ledger ticket_of cause hosted remote clock 11 12 store))
    ≤ 2
take_place-Limit_example =
    take_place-Limit ledger ticket_of cause hosted remote clock 11 12 row store (of_event 1) 2
      hold_there one_hold (event_with active, refl, refl) store-taken

taken_ends :
    take_place ledger ticket_of cause hosted remote clock 11 12 store
    ≡ done (some row) (after (take_place ledger ticket_of cause hosted remote clock 11 12 store))
unfolding take_place take_by take_verified take_counted take_or_refund is_placed hold_row find_where
    is_handled exists_where record_status record_checkout_step sales_closed allocation_counts
    counts_of class_quota count_where lapse_event update_where
taken_ends = refl

take_place-once_example :
    ((is_handled 20 store ≡ true)
      × (some row ≡ none)
      × (after (take_place ledger ticket_of cause hosted remote clock 11 12 store)
          ≡ record_status 20 remote.status 100 store))
    ⊎ ((is_handled 20 store ≡ false)
        × (handlings 20 (after (take_place ledger ticket_of cause hosted remote clock 11 12 store))
            ≡ 1))
take_place-once_example =
    take_place-once ledger ticket_of cause hosted remote clock 11 12 row store (some row) _
      hold_there taken_ends

take_place_sound_example :
    (row ≡ row)
    × (remote.amount ≡ hosted.amount)
    × (remote.asset ≡ hosted.asset)
    × (sales_closed 1 store ≡ false)
take_place_sound_example =
    take_place_sound ledger ticket_of cause hosted remote clock 11 12 row store row _ hold_there
      taken_ends

-- The hold is paid, and its ticket is being issued for the sale 12.
abbrev issuing_store : Db
issuing_store = record store {
  holds = hold_with issuing ∷ [];
  primary_sales =
      record {
        id = 12;
        hosted_checkout_id = 20;
        hold_id = 3;
        holder_account = some 40;
        status = issuing_sale;
        ticket = none;
        operation_id = none;
        receipt_cursor = none;
        error_code = none;
        created_at = 100;
        completed_at = none;
      }
      ∷ [];
}

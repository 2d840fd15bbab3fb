-- ===== src/Sales/OnSale.antt =====
-- src/sales/on-sale.ts
use kippu_api.Base.{◌≡◌, arith, ℕ, Bool, false, if◌then◌else◌}
use kippu_api.Store.{
  spec, checkout_error, sales_closed_code, event_sealed, event_cancelled, event_finished, Try, ok,
  fail, EventStatus, active, sealed, cancelled, finished, Event, found, refused, Ledger, Db,
}
use kippu_api.Sales.Allocation.{sales_closed}

-- An event that is not on sale, by its status (NOT_ON_SALE), or its sales closed in Kippu.
abbrev by_status : Event → Bool → EventStatus → Try Event
by_status ev closed active = if closed then fail (checkout_error sales_closed_code) else ok ev
by_status ev closed sealed = fail (spec event_sealed)
by_status ev closed cancelled = fail (spec event_cancelled)
by_status ev closed finished = fail (spec event_finished)

-- `eventOnSale` with a store, as every caller passes one.
unfoldable pub event_on_sale : Ledger → ℕ → Db → Try Event
event_on_sale ledger event db = elim (ledger.get_event event) [
  | refused code ↦ fail (spec code)
  | found ev ↦ by_status ev (sales_closed event db) ev.status
]

-- An event is on sale only if the ledger has it Active and Kippu has not closed its sales.
pub event_on_sale-ok :
    (ledger : Ledger) (event : ℕ) (db : Db) (ev : Event)
    → event_on_sale ledger event db ≡ ok ev
    → (ledger.get_event event ≡ found ev) × (ev.status ≡ active) × (sales_closed event db ≡ false)
unfolding event_on_sale
event_on_sale-ok ledger event db ev e = ground arith

-- ===== src/Sales/Payment/Release/Closing.antt =====
-- Closed sales: no hold is placed, and reopening undoes the closing.
use kippu_api.Base.{
  ℕ, ◌≡◌, refl, ap, ◌∙◌, inl, inr, true, not, ◌&&◌, List, [], ◌∷◌, arith, ◌==◌, ==_iff, length,
  Bool-cases, exists_where, update_where, length-update, count_where, Option,
}
use kippu_api.Store.{Ledger, TicketOf, SaleClosure, Db, Outcome, done, after}
use kippu_api.Sales.Allocation.{sales_closed, lapse_event, lapses_of, lapse}
use kippu_api.Sales.OnSale.{event_on_sale-ok}
use kippu_api.Sales.Audit.{CheckoutCause}
use kippu_api.Sales.Holds.{HoldTarget, HoldRefusal, SalesRequest, place}
use kippu_api.Sales.Holds.Place.{rolled_back, kept, turned_away, inserted, place-Placed}
use kippu_api.Sales.Payment.Release.{is_closed_of, close_sales, reopened, reopen_sales}

pub close_sales-closed :
    (event : ℕ) (cause : CheckoutCause) (at : ℕ) (db : Db)
    → sales_closed event (close_sales event cause at db) ≡ true
unfolding close_sales sales_closed exists_where
close_sales-closed event cause at db =
    elim (Bool-cases (exists_where (is_closed_of event) db.event_sale_closures)) [
      | inl before ↦ rw before before
      | inr fresh ↦ rw fresh (ground (arith, (==_iff event event).1 refl))
    ]

lapse-closed :
    (event e at : ℕ) (db : Db) → sales_closed event (lapse_event e at db) ≡ sales_closed event db
unfolding sales_closed lapse_event
lapse-closed event e at db = refl

length-lapse : (e at : ℕ) (db : Db) → length (lapse_event e at db).holds ≡ length db.holds
unfolding lapse_event
length-lapse e at db = length-update (lapses_of e at) lapse db.holds

module _ (ledger : Ledger) (ticket_of : TicketOf) where
  -- While Kippu has closed an event's sales, placing a hold for it adds none: whatever the ledger
  -- says, as many holds are in the store after the call as before.
  pub place-closed :
      (request : SalesRequest) (t : HoldTarget) (hold_id at : ℕ) (db : Db)
      → sales_closed t.event db ≡ true
      → length (after (place ledger ticket_of request t hold_id at db)).holds ≡ length db.holds
  place-closed request t hold_id at db closed =
      elim (place-Placed ledger ticket_of request t hold_id at db) [
        | rolled_back e r eq ↦ ap (λ (o : Outcome (Option HoldRefusal)). length (after o).holds) eq
        | kept hold r found_it out eq ↦
            ap (λ (o : Outcome (Option HoldRefusal)). length (after o).holds) eq
            ∙ length-lapse t.event at db
        | turned_away why db' r eq same_holds same_grants ↦
            ap (λ (o : Outcome (Option HoldRefusal)). length (after o).holds) eq
            ∙ ap length same_holds
            ∙ length-lapse t.event at db
        | inserted db' r eq i ↦
            let (_, _, open_sales) = event_on_sale-ok ledger t.event _ i.event i.on_sale in
            let same = lapse-closed t.event t.event at db in absurd (cc (closed, open_sales, same))
      ]

none_reopened :
    (event other request_id at : ℕ) (cs : List SaleClosure)
    → exists_where
        (is_closed_of other)
        (update_where (is_closed_of event) (reopened request_id at) cs)
      ≡ (exists_where (is_closed_of other) cs && not (other == event))
unfolding exists_where update_where
none_reopened event other request_id at [] = refl
none_reopened event other request_id at (c ∷ cs) =
    ground (arith, none_reopened event other request_id at cs)

-- Reopening an event's sales always ends well. It leaves that event open for sale in Kippu, and
-- every other event's sales closed exactly if they were; it answers whether one closure was ended.
pub reopen_sales-open :
    (event other : ℕ) (cause : CheckoutCause) (at : ℕ) (db : Db)
    → (db' : Db) × (reopen_sales event cause at db
        ≡ done (count_where (is_closed_of event) db.event_sale_closures == 1) db')
      × (sales_closed other db' ≡ (sales_closed other db && not (other == event)))
unfolding reopen_sales sales_closed
reopen_sales-open event other cause at db =
    (_, refl, none_reopened event other cause.request_id at db.event_sale_closures)

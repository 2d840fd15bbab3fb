-- ===== src/Sales/Holds/Limits.antt =====
-- Placing a hold stays within every limit (INV-4, REQ-HD-3, REQ-TC-5).
use kippu_api.Base.{
  ℕ, ◌≤◌, ◌≡◌, refl, sym, ◌∙◌, ap, inl, inr, Bool, false, none, some, arith, count_where,
  Bool-cases,
}
use kippu_api.Store.{Try, ok, fail, Ledger, TicketOf, Db, after}
use kippu_api.Sales.Allocation.{AllocationTarget, SaleTerms, lapse_event, counts_of}
use kippu_api.Sales.Allocation.Taken.{
  Scope, of_event, of_class, of_seat, live_in, taken, taken-lapse-le, taken-same, taken_seat-zero,
}
use kippu_api.Sales.Allocation.Limit.{Limit-same, Limit, Fits, Fits-lt, target_in}
use kippu_api.Sales.OnSale.{event_on_sale-ok}
use kippu_api.Sales.Seats.{assert_free-ok}
use kippu_api.Sales.Holds.{HoldTarget, SalesRequest, seat_refusal, seat_caught, new_hold, place}
use kippu_api.Sales.Holds.Place.{Inserted, rolled_back, kept, turned_away, inserted, place-Placed}

seat_caught-none :
    (h : Bool) (r : Try ℕ)
    → seat_caught h r ≡ ok none
    → (h ≡ false) × ((ticket : ℕ) × (r ≡ ok ticket))
seat_caught-none h (ok ticket) e = (ground arith, (ticket, refl))
seat_caught-none h (fail x) e = absurd (ground arith)

module _ (ledger : Ledger) (ticket_of : TicketOf) where
  -- No refusal for a seat: nothing holds it, and nothing is issued for it.
  pub seat_refusal-none :
      (t : AllocationTarget) (p : ℕ) (db : Db)
      → t.position ≡ some p
      → seat_refusal ledger ticket_of t (counts_of t db) db ≡ ok none
      → taken ticket_of (of_seat t.event t.zone p) db ≡ 0
  unfolding seat_refusal
  seat_refusal-none t p db e h =
      let (unheld, (ticket, free)) = seat_caught-none _ _ (simp (e, seat_refusal) at h) in
      taken_seat-zero ticket_of t p db e unheld
        (assert_free-ok ledger ticket_of t.event t.zone p db ticket free).0

  Inserted-Fits :
      (request : SalesRequest) (t : HoldTarget) (hold_id at : ℕ) (db db' : Db)
      → Inserted ledger ticket_of request t hold_id at db db'
      → Fits ledger ticket_of t.target db
  Inserted-Fits request t hold_id at db db' i = record {
    event = i.event;
    got = (event_on_sale-ok ledger t.event db i.event i.on_sale).0;
    capacity = i.capacity;
    quota = i.quota;
    seat = λ p e. seat_refusal-none t.target p db e i.seat_free;
  }

  pub new_hold-live :
      (request : SalesRequest) (t : HoldTarget) (terms : SaleTerms) (hold_id at : ℕ) (s : Scope)
      → live_in s (new_hold request t terms hold_id at) ≡ target_in s t.target
  unfolding new_hold
  new_hold-live request t terms hold_id at (of_event e) = ground arith
  new_hold-live request t terms hold_id at (of_class c) = ground arith
  new_hold-live request t terms hold_id at (of_seat e z p) = ground arith

  Inserted-le :
      (request : SalesRequest) (t : HoldTarget) (hold_id at : ℕ) (db db' : Db)
      → Inserted ledger ticket_of request t hold_id at db db'
      → (s : Scope) (n : ℕ) → Limit ledger db s n
      → taken ticket_of s db ≤ n
      → taken ticket_of s db' ≤ n
  unfolding taken count_where
  Inserted-le request t hold_id at db db' i s n limit h =
      rw (i.holds, i.grants, new_hold-live request t i.terms hold_id at s)
        (elim (Bool-cases (target_in s t.target)) [
          | inl hit ↦ rw hit (
              omega (
                arith,
                Fits-lt ledger ticket_of t.target db (Inserted-Fits request t hold_id at db db' i) s
                    n limit hit,
              ))
          | inr miss ↦ rw miss (omega (arith, h))
        ])

  lapse-classes : (e at : ℕ) (db : Db) → (lapse_event e at db).ticket_classes ≡ db.ticket_classes
  unfolding lapse_event
  lapse-classes e at db = refl

  lapse-grants :
      (e at : ℕ) (db : Db) → (lapse_event e at db).granted_issuances ≡ db.granted_issuances
  unfolding lapse_event
  lapse-grants e at db = refl

  -- Placing a hold keeps every limit: if no more is taken than the event's capacity on the ledger,
  -- the class's quota, or one allocation of the seat, then that holds of the store that the call
  -- leaves, whether it placed the hold, refused it or threw.
  pub place-Limit :
      (request : SalesRequest) (t : HoldTarget) (hold_id at : ℕ) (db : Db) (s : Scope) (n : ℕ)
      → Limit ledger db s n
      → taken ticket_of s db ≤ n
      → taken ticket_of s (after (place ledger ticket_of request t hold_id at db)) ≤ n
  place-Limit request t hold_id at db s n limit h =
      let now_le = taken-lapse-le ticket_of s t.event at db in
      elim (place-Placed ledger ticket_of request t hold_id at db) [
        | rolled_back e r eq ↦ rw (ap after eq) h
        | kept hold r found_it out eq ↦ rw (ap after eq) (omega (arith, now_le))
        | turned_away why db' r eq same_holds same_grants ↦
            let same_taken =
              taken-same ticket_of s (lapse_event t.event at db) db' same_holds
                (same_grants ∙ sym (lapse-grants t.event at db)) in
            let le : taken ticket_of s db' ≤ n = omega (arith, now_le) in rw (ap after eq) le
        | inserted db' r eq i ↦ rw (ap after eq) (
            Inserted-le request t hold_id at _ db' i s n
              (Limit-same ledger ticket_of s n db _ (lapse-classes t.event at db) limit)
              (omega (arith, now_le)))
      ]

-- ===== src/Events/Capacity/Decrease.antt =====
-- A capacity that was decreased holds of what is issued and held.
use kippu_api.Base.{
  ℕ, ◌+◌, ◌==◌, ◌&&◌, List, [], ◌∷◌, count_where, ◌≤◌, ◌≡◌, refl, Bool, true, false, Option, none,
  some, arith, leb, leb→le, if◌then◌else◌,
}
use kippu_api.Store.{
  spec_error, capacity_below_issuance, held_reason, Try, ok, fail, Event, Hold, HoldStatus,
  outstanding, issuing, Answer, found, refused, Ledger, TicketOf, Db, done, ◌>>=◌, pure, throw,
  lift, answered, ran,
}
use kippu_api.Sales.Allocation.{
  allocated_count, allocation_counts, counts_of, lapse_event, event_open,
}
use kippu_api.Sales.Allocation.Taken.{of_event, taken, taken_event-le}
use kippu_api.Sales.Payment.Take.{is_active}
use kippu_api.Events.Ownership.{owned_event, owned_event-ok}
use kippu_api.Events.Capacity.{
  event_target, can_decrease_capacity, CapacityChanged, is_above, check_issuance, relay_capacity,
  decrease_owned, decrease,
}

-- Placed and neither ended nor issued yet.
abbrev pub is_outstanding_hold : HoldStatus → Bool
is_outstanding_hold outstanding = true
is_outstanding_hold issuing = true
is_outstanding_hold _ = false

abbrev pub is_held_of : ℕ → Hold → Bool
is_held_of event h = h.event == event && is_outstanding_hold h.status

held_count :
    (event : ℕ) (hs : List Hold)
    → count_where (is_held_of event) hs ≡ count_where (event_open event) hs
unfolding count_where
held_count event [] = refl
held_count event (h ∷ hs) = ground (arith, held_count event hs)

-- Tickets that the ledger has issued and the event's outstanding holds, together; and what Kippu has
-- undertaken: live holds, the confirmed ones included, and issuances not refused.
abbrev Bears : TicketOf → ℕ → Event → ℕ → Db → Type 0
Bears ticket_of event ev capacity db =
    (ev.issued + count_where (is_held_of event) db.holds ≤ capacity)
    × (taken ticket_of (of_event event) db ≤ capacity)

module _ (ledger : Ledger) (ticket_of : TicketOf) (account_of : ℕ → Option ℕ)
    (write : Try (Answer ℕ)) (event capacity at : ℕ) (ev : Event)
    (got : ledger.get_event event ≡ found ev) where
  -- The store in which the capacity was checked.
  abbrev counted : Db → Db
  counted db = lapse_event event at db

  abbrev fits : Db → Bool
  fits db = leb (allocated_count ev (counts_of (event_target event) (counted db))) capacity

  fits-Bears : (db : Db) → fits db ≡ true → Bears ticket_of event ev capacity (counted db)
  unfolding allocated_count counts_of
  fits-Bears db h = (
    omega (arith, leb→le _ _ h, held_count event (counted db).holds),
    omega (arith, leb→le _ _ h, taken_event-le ticket_of (event_target event) ev (counted db)),
  )

  checked :
      (db : Db)
      → check_issuance ledger account_of write event capacity at ev true db
        ≡ (if fits db
              then pure tt
              else throw (
                  spec_error capacity_below_issuance
                    (if leb ev.issued capacity then some held_reason else none)))
            (counted db)
  unfolding check_issuance can_decrease_capacity allocation_counts
  checked db = rw got refl

  relayed-same :
      (w : Try (Answer ℕ)) (now : Db) (r : CapacityChanged) (db' : Db)
      → (lift w >>= λ answer. answered answer >>= λ cursor.
            pure (record { event = event; capacity = capacity; cursor = cursor }))
          now
        ≡ done r db'
      → db' ≡ now
  relayed-same (fail e) now r db' h = cc
  relayed-same (ok (refused code)) now r db' h = cc
  relayed-same (ok (found cursor)) now r db' h = cc

  module _ (is_on : is_active ev.status ≡ true) (db : Db) (r : CapacityChanged) (db' : Db) where
    fitting :
        (b : Bool)
        → fits db ≡ b
        → decrease_owned ledger account_of write event capacity at ev false db ≡ done r db'
        → Bears ticket_of event ev capacity db'
    unfolding decrease_owned relay_capacity
    fitting true h e =
        let e' = rw (is_on, ◌>>=◌, checked db, h) at e in
        rw (relayed-same write (counted db) r db' e') (fits-Bears db h)
    fitting false h e = let e' = rw (is_on, ◌>>=◌, checked db, h) at e in absurd (cc e')

    within :
        (above : Bool)
        → is_above capacity ev.max_capacity ≡ above
        → decrease_owned ledger account_of write event capacity at ev above db ≡ done r db'
        → (above ≡ false) × Bears ticket_of event ev capacity db'
    unfolding decrease_owned
    within true h e = absurd (cc e)
    within false h e = (refl, fitting (fits db) refl e)

    -- The transaction of a call for the event.
    owned :
        (found_event : Try Event) (organiser_id : ℕ)
        → owned_event ledger account_of organiser_id event ≡ found_event
        → (lift found_event >>= λ (e : Event).
              decrease_owned ledger account_of write event capacity at e
                (is_above capacity e.max_capacity))
            db
          ≡ done r db'
        → (is_above capacity ev.max_capacity ≡ false) × Bears ticket_of event ev capacity db'
    owned (fail x) organiser_id own e = absurd (cc e)
    owned (ok e_found) organiser_id own e =
        let (there, _) = owned_event-ok ledger account_of organiser_id event e_found own in
        let same_event : e_found ≡ ev = cc (there, got) in within _ refl (rw same_event at e)

-- Where decreasing an Active event's capacity returns, the new capacity is no increase, and the store
-- holds within it at once: the tickets that the ledger has issued and the event's outstanding holds
-- are together no more than it allows, and neither are the live holds and the granted issuances.
pub decrease-Limit :
    (ledger : Ledger) (ticket_of : TicketOf) (account_of : ℕ → Option ℕ) (write : Try (Answer ℕ))
    (event capacity at organiser_id : ℕ) (ev : Event) (r : CapacityChanged) (db db' : Db)
    → ledger.get_event event ≡ found ev
    → is_active ev.status ≡ true
    → decrease ledger account_of write event capacity at organiser_id db ≡ done r db'
    → (is_above capacity ev.max_capacity ≡ false)
      × ((ev.issued + count_where (is_held_of event) db'.holds ≤ capacity)
          × (taken ticket_of (of_event event) db' ≤ capacity))
unfolding decrease
decrease-Limit ledger ticket_of account_of write event capacity at organiser_id ev r db db' got
      is_on e =
    owned ledger ticket_of account_of write event capacity at ev got is_on db r db' _ organiser_id
      refl
      (ran
        (lift (owned_event ledger account_of organiser_id event) >>= λ (x : Event).
          decrease_owned ledger account_of write event capacity at x
            (is_above capacity x.max_capacity))
        db db' r e)

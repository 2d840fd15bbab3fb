-- ===== src/Sales/Holds/Place.antt =====
-- What placing a hold does, on every path.
use kippu_api.Base.{
  ℕ, ◌≡◌, refl, inl, inr, Bool, true, false, Option, none, some, ◌∷◌, find_where, Bool-cases,
}
use kippu_api.Store.{
  Error, Try, ok, fail, Ledger, TicketOf, Event, Hold, is_outstanding, Db, Outcome, done, threw, M,
  ◌>>=◌, lift, in_transaction,
}
use kippu_api.Sales.Allocation.{
  AllocationCounts, SaleTerms, lapse_event, counts_of, allocation_counts, capacity_has_room,
  quota_has_room, sale_terms,
}
use kippu_api.Sales.OnSale.{event_on_sale}
use kippu_api.Sales.Audit.{record_checkout_step}
use kippu_api.Sales.Holds.{
  HoldTarget, HoldRefusal, SalesRequest, seat_refusal, room_refusal, new_hold, settle, decide,
  place_by, place, is_checkout,
}

module _ (ledger : Ledger) (ticket_of : TicketOf) (request : SalesRequest) (t : HoldTarget)
    (hold_id at : ℕ) where
  -- A hold was inserted into `db`, with what was true then.
  pub record Inserted (db db' : Db) : Type 0 where
    pub event : Event
    pub terms : SaleTerms
    pub no_hold : find_where (is_checkout t.checkout_id) db.holds ≡ none
    pub on_sale : event_on_sale ledger t.event db ≡ ok event
    pub on_terms : sale_terms t.event t.class_id db ≡ some terms
    pub seat_free : seat_refusal ledger ticket_of t.target (counts_of t.target db) db ≡ ok none
    pub capacity : capacity_has_room event (counts_of t.target db) ≡ true
    pub quota : quota_has_room (counts_of t.target db) ≡ true
    pub holds : db'.holds ≡ new_hold request t terms hold_id at ∷ db.holds
    pub grants : db'.granted_issuances ≡ db.granted_issuances

  -- How `place` can end, from `db` with the event's lapses recorded.
  pub data Placed (db : Db) : Outcome (Option HoldRefusal) → Type 0 where
    -- an exception
    rolled_back : (e : Error) (r : Outcome (Option HoldRefusal)) → r ≡ threw e db → Placed db r
    -- the checkout's hold is outstanding already
    kept :
        (h : Hold) (r : Outcome (Option HoldRefusal))
        → find_where (is_checkout t.checkout_id) (lapse_event t.event at db).holds ≡ some h
        → is_outstanding h.status ≡ true
        → r ≡ done none (lapse_event t.event at db)
        → Placed db r
    -- refused: no hold
    turned_away :
        (why : HoldRefusal) (db' : Db) (r : Outcome (Option HoldRefusal))
        → r ≡ done (some why) db'
        → db'.holds ≡ (lapse_event t.event at db).holds
        → db'.granted_issuances ≡ db.granted_issuances
        → Placed db r
    inserted :
        (db' : Db) (r : Outcome (Option HoldRefusal))
        → r ≡ done none db'
        → Inserted (lapse_event t.event at db) db'
        → Placed db r

  module _ (db : Db) where
    abbrev now_db : Db
    now_db = lapse_event t.event at db

    abbrev now_counts : AllocationCounts
    now_counts = counts_of t.target now_db

    abbrev run : M (Option HoldRefusal) → Outcome (Option HoldRefusal)
    run m = in_transaction (λ _. m now_db) db

    settle-Placed :
        (ev : Event) (terms : SaleTerms) (seat : Option HoldRefusal)
        → find_where (is_checkout t.checkout_id) now_db.holds ≡ none
        → event_on_sale ledger t.event now_db ≡ ok ev
        → sale_terms t.event t.class_id now_db ≡ some terms
        → seat_refusal ledger ticket_of t.target now_counts now_db ≡ ok seat
        → (room : Bool) → capacity_has_room ev now_counts ≡ room
        → (quota : Bool) → quota_has_room now_counts ≡ quota
        → Placed db (run (settle request t terms hold_id at (room_refusal ev now_counts seat)))
    unfolding settle record_checkout_step lapse_event
    settle-Placed ev terms (some r) no_hold sale priced free room er quota eq =
        turned_away r _ _ refl refl refl
    settle-Placed ev terms none no_hold sale priced free false er quota eq =
        rw er (turned_away _ _ _ refl refl refl)
    settle-Placed ev terms none no_hold sale priced free true er false eq =
        rw (er, eq) (turned_away _ _ _ refl refl refl)
    settle-Placed ev terms none no_hold sale priced free true er true eq =
        rw (er, eq)
          (inserted _ _ refl (record {
            event = ev;
            terms = terms;
            no_hold = no_hold;
            on_sale = sale;
            on_terms = priced;
            seat_free = free;
            capacity = er;
            quota = eq;
            holds = refl;
            grants = refl;
          }))

    seat-Placed :
        (ev : Event) (terms : SaleTerms) (seat : Try (Option HoldRefusal))
        → find_where (is_checkout t.checkout_id) now_db.holds ≡ none
        → event_on_sale ledger t.event now_db ≡ ok ev
        → sale_terms t.event t.class_id now_db ≡ some terms
        → seat_refusal ledger ticket_of t.target now_counts now_db ≡ seat
        → Placed db (
            run
              (lift seat >>= λ s. settle request t terms hold_id at (room_refusal ev now_counts s)))
    seat-Placed ev terms (fail e) no_hold sale priced free = rolled_back e _ refl
    seat-Placed ev terms (ok seat) no_hold sale priced free =
        settle-Placed ev terms seat no_hold sale priced free _ refl _ refl

    terms-Placed :
        (ev : Event) (terms : Option SaleTerms)
        → find_where (is_checkout t.checkout_id) now_db.holds ≡ none
        → event_on_sale ledger t.event now_db ≡ ok ev
        → sale_terms t.event t.class_id now_db ≡ terms
        → Placed db (run (decide ledger ticket_of request t hold_id at now_counts ev terms))
    unfolding decide
    terms-Placed ev none no_hold sale priced = rolled_back _ _ refl
    terms-Placed ev (some terms) no_hold sale priced =
        seat-Placed ev terms _ no_hold sale priced refl

    sale-Placed :
        (ev : Try Event)
        → find_where (is_checkout t.checkout_id) now_db.holds ≡ none
        → event_on_sale ledger t.event now_db ≡ ev
        → Placed db (
            run (
              lift ev >>= λ e.
              decide ledger ticket_of request t hold_id at now_counts e
                (sale_terms t.event t.class_id now_db)))
    sale-Placed (fail e) no_hold sale = rolled_back e _ refl
    sale-Placed (ok ev) no_hold sale = terms-Placed ev _ no_hold sale refl

    existing-Placed :
        (o : Option Hold)
        → find_where (is_checkout t.checkout_id) now_db.holds ≡ o
        → Placed db (run (place_by ledger ticket_of request t hold_id at now_counts o))
    unfolding place_by
    existing-Placed none e = sale-Placed _ e refl
    existing-Placed (some h) e = elim (Bool-cases (is_outstanding h.status)) [
      | inl out ↦ rw out (kept h _ e out refl)
      | inr over ↦ rw over (rolled_back _ _ refl)
    ]

    pub place-Placed : Placed db (place ledger ticket_of request t hold_id at db)
    unfolding place allocation_counts
    place-Placed = existing-Placed _ refl

-- ===== src/Sales/Lifetime.antt =====
-- How long a hold lives (REQ-HD-2): the operations of src/sales/holds.ts as steps on the store,
-- and what they leave true of every hold.
use kippu_api.Base.{ℕ, ◌+◌, ◌≡◌, ap, true, arith, is_some, if◌then◌else◌, All, All-update, updated}
use kippu_api.Store.{Ledger, TicketOf, Hold, Db, after}
use kippu_api.Sales.Allocation.{has_expired, lapse, lapses_of, lapse_event}
use kippu_api.Sales.Holds.{
  hold_lifetime_ms, hold_extension_ms, HoldTarget, SalesRequest, new_hold, place, extends_hold,
  extend_hold, extend, ends_hold, end_hold, release, lapse_expired,
}
use kippu_api.Sales.Holds.Place.{Placed, rolled_back, kept, turned_away, inserted, place-Placed}

-- A hold lives for its lifetime from when it was placed, and its extension where it was taken.
abbrev pub Timed : Hold → Type 0
Timed h =
    h.expires_at
    ≡ h.created_at + hold_lifetime_ms + (if is_some h.extended_at then hold_extension_ms else 0)

module _ (ledger : Ledger) (ticket_of : TicketOf) where
  -- One call of an operation on holds.
  pub data HoldStep : Db → Db → Type 0 where
    placing :
        (request : SalesRequest) (t : HoldTarget) (hold_id at : ℕ) (db : Db)
        → HoldStep db (after (place ledger ticket_of request t hold_id at db))
    extending : (checkout_id at : ℕ) (db : Db) → HoldStep db (after (extend checkout_id at db))
    releasing : (checkout_id at : ℕ) (db : Db) → HoldStep db (after (release checkout_id at db))
    lapsing : (at : ℕ) (db : Db) → HoldStep db (after (lapse_expired at db))

  -- Any number of calls, one after another.
  pub data HoldSteps : Db → Db → Type 0 where
    no_more : (db : Db) → HoldSteps db db
    and_then : {db db' db'' : Db} → HoldSteps db db' → HoldStep db' db'' → HoldSteps db db''

  extend-Timed :
      (checkout_id at : ℕ) (h : Hold)
      → Timed h
      → Timed (updated (extends_hold checkout_id at) (extend_hold at) h)
  extend-Timed checkout_id at h t = ground arith

  end-Timed :
      (checkout_id at : ℕ) (h : Hold)
      → Timed h
      → Timed (updated (ends_hold checkout_id) (end_hold at) h)
  end-Timed checkout_id at h t = ground arith

  lapse-Timed : (at : ℕ) (h : Hold) → Timed h → Timed (updated (has_expired at) lapse h)
  lapse-Timed at h t = ground arith

  lapse_event-Timed :
      (event at : ℕ) (db : Db) → All Timed db.holds → All Timed (lapse_event event at db).holds
  unfolding lapse_event
  lapse_event-Timed event at db a =
      All-update (λ _. true) (lapses_of event at) lapse Timed (λ h t. ground arith) db.holds a

  new_hold-Timed :
      (request : SalesRequest) (t : HoldTarget) (terms : _) (hold_id at : ℕ)
      → Timed (new_hold request t terms hold_id at)
  unfolding new_hold
  new_hold-Timed request t terms hold_id at = omega arith

  place-Timed :
      (request : SalesRequest) (t : HoldTarget) (hold_id at : ℕ) (db : Db) (r : _)
      → Placed ledger ticket_of request t hold_id at db r
      → All Timed db.holds
      → All Timed (after r).holds
  place-Timed request t hold_id at db r (rolled_back e _ eq) a = rw (ap after eq) a
  place-Timed request t hold_id at db r (kept hold _ found_it out eq) a =
      rw (ap after eq) (lapse_event-Timed t.event at db a)
  place-Timed request t hold_id at db r (turned_away why db' _ eq same_holds same_grants) a =
      rw (ap after eq, same_holds) (lapse_event-Timed t.event at db a)
  place-Timed request t hold_id at db r (inserted db' _ eq i) a =
      rw (ap after eq, i.holds)
        ((new_hold-Timed request t i.terms hold_id at, lapse_event-Timed t.event at db a))

  step-Timed : {db db' : Db} → HoldStep db db' → All Timed db.holds → All Timed db'.holds
  unfolding extend release lapse_expired
  step-Timed (placing request t hold_id at db) a =
      place-Timed request t hold_id at db _ (place-Placed ledger ticket_of request t hold_id at db)
        a
  step-Timed (extending checkout_id at db) a =
      All-update (λ _. true) _ (extend_hold at) Timed (extend-Timed checkout_id at) db.holds a
  step-Timed (releasing checkout_id at db) a =
      All-update (λ _. true) _ (end_hold at) Timed (end-Timed checkout_id at) db.holds a
  step-Timed (lapsing at db) a = All-update (λ _. true) _ lapse Timed (lapse-Timed at) db.holds a

  -- Whatever calls place, extend, release and lapse holds, in any order: if every hold expires 10
  -- minutes after it was created, and 5 more where its extension is recorded, every hold still does.
  pub steps-Timed : {db db' : Db} → HoldSteps db db' → All Timed db.holds → All Timed db'.holds
  steps-Timed (no_more db) a = a
  steps-Timed (and_then steps step) a = step-Timed step (steps-Timed steps a)

-- ===== src/Sales/Payment/Take/Cases.antt =====
-- How taking a verified payment's place can end, on every path.
use kippu_api.Base.{
  ℕ, ◌≡◌, Bool, true, false, ◌&&◌, Option, none, some, ◌∷◌, arith, ◌==◌, find_where, update_where,
  List,
}
use kippu_api.Store.{
  Error, ok, Ledger, TicketOf, Hold, HoldStatus, outstanding, lapsed, released, issuing, confirmed,
  HostedRow, PrimarySale, RefundEntitlement, RefundReason, amount_mismatch, event_closed,
  place_gone, Db, Outcome, done, threw, after, issuing_sale, payment_verified,
}
use kippu_api.Sales.Allocation.{lapse_event, counts_of, sales_closed}
use kippu_api.Sales.Allocation.Limit.{Fits}
use kippu_api.Sales.Audit.{CheckoutCause, record_checkout_step}
use kippu_api.Sales.Holds.{end_hold}
use kippu_api.Sales.Payment.{
  HostedCheckout, HoldRow, has_id, record_status, releases_hold, is_handled,
}
use kippu_api.Sales.Payment.Take.Free.{place_free-Fits}
use kippu_api.Sales.Payment.Take.{target_of, take_hold, is_placed}

module _ (ledger : Ledger) (ticket_of : TicketOf) (cause : CheckoutCause) (hosted : HostedRow)
    (remote : HostedCheckout) (clock : ℕ → ℕ) (refund_id sale_id : ℕ) (row : HoldRow) where
  abbrev pub matches : Bool
  matches = remote.amount == hosted.amount && remote.asset == hosted.asset

  -- Why a refund is recorded, and what becomes of the holds then.
  pub data Refused (db : Db) (after_holds : List Hold) : RefundReason → Type 0 where
    mismatched :
        matches ≡ false
        → after_holds ≡ update_where (releases_hold row.id) (end_hold (clock 3)) db.holds
        → Refused db after_holds amount_mismatch
    closed :
        matches ≡ true
        → sales_closed row.event db ≡ true
        → after_holds ≡ update_where (releases_hold row.id) (end_hold (clock 3)) db.holds
        → Refused db after_holds event_closed
    gone :
        matches ≡ true
        → sales_closed row.event db ≡ false
        → after_holds ≡ (lapse_event row.event (clock 2) db).holds
        → Refused db after_holds place_gone

  -- The hold is outstanding still, or had ended and its place is free.
  pub data Free (db : Db) : Hold → Type 0 where
    still : (h : Hold) → h.status ≡ outstanding → Free db h
    again : (h : Hold) → Fits ledger ticket_of (target_of row) db → Free db h

  pub Free-of :
      {db : Db} (h : Hold) (status : HoldStatus)
      → h.status ≡ status
      → is_placed ledger ticket_of row (counts_of (target_of row) db) db (some h) ≡ ok true
      → Free db h
  unfolding is_placed
  Free-of h outstanding e placed = still h e
  Free-of {db} h lapsed e placed =
      again h (place_free-Fits ledger ticket_of row db (simp (e, is_placed) at placed))
  Free-of {db} h released e placed =
      again h (place_free-Fits ledger ticket_of row db (simp (e, is_placed) at placed))
  Free-of h issuing e placed = absurd (ground arith)
  Free-of h confirmed e placed = absurd (ground arith)

  -- The store once the payment's status and its verification are recorded.
  abbrev pub noted : Db → Db
  noted db = after (
      record_checkout_step row.checkout_id payment_verified cause (clock 1)
        (record_status hosted.id remote.status (clock 0) db))

  -- The store with the event's lapses recorded too.
  abbrev pub counted : Db → Db
  counted db = lapse_event row.event (clock 2) (noted db)

  pub record Refund (reason : RefundReason) (r : RefundEntitlement) : Type 0 where
    pub of : r.hosted_checkout_id ≡ hosted.id
    pub amount : r.amount ≡ remote.amount
    pub asset : r.asset ≡ remote.asset
    pub why : r.reason ≡ reason

  pub record Sale (s : PrimarySale) : Type 0 where
    pub id : s.id ≡ sale_id
    pub of : s.hosted_checkout_id ≡ hosted.id
    pub hold : s.hold_id ≡ row.id
    pub holder : s.holder_account ≡ row.holder_account
    pub status : s.status ≡ issuing_sale

  pub record Refunded (db db' : Db) (reason : RefundReason) : Type 0 where
    pub unhandled : is_handled hosted.id db ≡ false
    pub why : Refused (noted db) db'.holds reason
    pub refund : RefundEntitlement
    pub is_refund : Refund reason refund
    pub refunds : db'.refund_entitlements ≡ refund ∷ db.refund_entitlements
    pub sales : db'.primary_sales ≡ db.primary_sales
    pub grants : db'.granted_issuances ≡ db.granted_issuances

  pub record Taken (db db' : Db) (h : Hold) : Type 0 where
    pub unhandled : is_handled hosted.id db ≡ false
    pub amount : matches ≡ true
    pub open_sales : sales_closed row.event db ≡ false
    pub there : find_where (has_id row.id) (counted db).holds ≡ some h
    pub place : Free (counted db) h
    pub holds : db'.holds ≡ update_where (has_id row.id) take_hold (counted db).holds
    pub sale : PrimarySale
    pub is_sale : Sale sale
    pub sales : db'.primary_sales ≡ sale ∷ db.primary_sales
    pub refunds : db'.refund_entitlements ≡ db.refund_entitlements
    pub grants : db'.granted_issuances ≡ db.granted_issuances

  pub data Took (db : Db) : Outcome (Option HoldRow) → Type 0 where
    rolled_back : (e : Error) (r : Outcome (Option HoldRow)) → r ≡ threw e db → Took db r
    repeated :
        (r : Outcome (Option HoldRow))
        → is_handled hosted.id db ≡ true
        → r ≡ done none (record_status hosted.id remote.status (clock 0) db)
        → Took db r
    refunded :
        (reason : RefundReason) (db' : Db) (r : Outcome (Option HoldRow))
        → r ≡ done none db'
        → Refunded db db' reason
        → Took db r
    took :
        (h : Hold) (db' : Db) (r : Outcome (Option HoldRow))
        → r ≡ done (some row) db'
        → Taken db db' h
        → Took db r

  abbrev pub refund_of : RefundReason → ℕ → RefundEntitlement
  refund_of reason at = record {
    id = refund_id;
    hosted_checkout_id = hosted.id;
    checkout_id = row.checkout_id;
    amount = remote.amount;
    asset = remote.asset;
    reason = reason;
    created_at = at;
    ticket = none;
    purchaser_account = none;
    holder_at_cancellation = none;
  }

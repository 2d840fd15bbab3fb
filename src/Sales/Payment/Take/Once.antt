-- ===== src/Sales/Payment/Take/Once.antt =====
-- A verified payment leads to one sale or one refund, and to no more.
use kippu_api.Base.{
  ℕ, ◌+◌, ◌≡◌, sym, ap, ◌⊎◌, inl, inr, true, false, Option, none, some, arith, ==_iff, ◌∙◌,
  count_where, exists_where, count-zero_of_not_exists,
}
use kippu_api.Store.{Ledger, TicketOf, HostedRow, Db, Outcome, done, ok}
use kippu_api.Sales.Allocation.{sales_closed}
use kippu_api.Sales.Audit.{CheckoutCause}
use kippu_api.Sales.Payment.{
  HostedCheckout, HoldRow, hold_row, record_status, sells_hosted, refunds_hosted, is_handled,
}
use kippu_api.Sales.Payment.Take.{take_place}
use kippu_api.Sales.Payment.Take.Ends.{take_place-Took}
use kippu_api.Sales.Payment.Take.Cases.{
  Took, rolled_back, repeated, refunded, took, Refunded, Taken,
}

-- How many sales and refunds a payment has led to.
abbrev pub handlings : ℕ → Db → ℕ
handlings id db =
    count_where (sells_hosted id) db.primary_sales
    + count_where (refunds_hosted id) db.refund_entitlements

unhandled-zero : (id : ℕ) (db : Db) → is_handled id db ≡ false → handlings id db ≡ 0
unfolding is_handled
unhandled-zero id db h =
    let no_sale : exists_where (sells_hosted id) db.primary_sales ≡ false = ground arith in
    let no_refund : exists_where (refunds_hosted id) db.refund_entitlements ≡ false =
      ground arith in
    omega (
      arith,
      count-zero_of_not_exists (sells_hosted id) db.primary_sales no_sale,
      count-zero_of_not_exists (refunds_hosted id) db.refund_entitlements no_refund,
    )

module _ (ledger : Ledger) (ticket_of : TicketOf) (cause : CheckoutCause) (hosted : HostedRow)
    (remote : HostedCheckout) (clock : ℕ → ℕ) (refund_id sale_id : ℕ) where
  sold-one :
      (row : HoldRow) (db db' : Db) {h : _}
      → Taken ledger ticket_of cause hosted remote clock refund_id sale_id row db db' h
      → handlings hosted.id db' ≡ 1
  unfolding count_where
  sold-one row db db' t =
      rw (t.sales, t.refunds, (==_iff _ _).1 t.is_sale.of)
        (omega (arith, unhandled-zero hosted.id db t.unhandled))

  refunded-one :
      (row : HoldRow) (db db' : Db) {reason : _}
      → Refunded ledger ticket_of cause hosted remote clock refund_id sale_id row db db' reason
      → handlings hosted.id db' ≡ 1
  unfolding count_where
  refunded-one row db db' t =
      rw (t.sales, t.refunds, (==_iff _ _).1 t.is_refund.of)
        (omega (arith, unhandled-zero hosted.id db t.unhandled))

  -- How a call that returns has ended.
  Settled : Db → Option HoldRow → Db → Type 0
  Settled db r db' =
      ((is_handled hosted.id db ≡ true)
        × (r ≡ none)
        × (db' ≡ record_status hosted.id remote.status (clock 0) db))
      ⊎ ((is_handled hosted.id db ≡ false) × (handlings hosted.id db' ≡ 1))

  settled :
      (row : HoldRow) (db : Db) (r : Option HoldRow) (db' : Db) (o : Outcome (Option HoldRow))
      → o ≡ done r db'
      → Took ledger ticket_of cause hosted remote clock refund_id sale_id row db o
      → Settled db r db'
  unfolding Settled
  settled row db r db' o e (rolled_back x _ eq) = cc
  settled row db r db' o e (repeated _ seen eq) = inl (seen, cc, cc)
  settled row db r db' o e (refunded reason after_it _ eq t) =
      let same_db : after_it ≡ db' = cc in
      inr (t.unhandled, ap (handlings hosted.id) (sym same_db) ∙ refunded-one row db after_it t)
  settled row db r db' o e (took h after_it _ eq t) =
      let same_db : after_it ≡ db' = cc in
      inr (t.unhandled, ap (handlings hosted.id) (sym same_db) ∙ sold-one row db after_it t)

  -- A call of `takePlace` that returns, for a hosted checkout whose hold is in the store, leaves
  -- the payment handled once: one that had led to a sale or a refund already takes nothing and
  -- changes only the recorded status, and any other has led to exactly one sale or refund.
  pub take_place-once :
      (row : HoldRow) (db : Db) (r : Option HoldRow) (db' : Db)
      → hold_row hosted.hold_id db ≡ ok row
      → take_place ledger ticket_of cause hosted remote clock refund_id sale_id db ≡ done r db'
      → ((is_handled hosted.id db ≡ true)
          × (r ≡ none)
          × (db' ≡ record_status hosted.id remote.status (clock 0) db))
        ⊎ ((is_handled hosted.id db ≡ false) × (handlings hosted.id db' ≡ 1))
  unfolding Settled
  take_place-once row db r db' there e =
      settled row db r db' _ e
        (take_place-Took ledger ticket_of cause hosted remote clock refund_id sale_id row db there)

  -- A payment takes a hold's place only if it is for the hosted checkout's amount and asset and
  -- Kippu has not closed the event's sales.
  pub take_place_sound :
      (row : HoldRow) (db : Db) (taken_row : HoldRow) (db' : Db)
      → hold_row hosted.hold_id db ≡ ok row
      → take_place ledger ticket_of cause hosted remote clock refund_id sale_id db
        ≡ done (some taken_row) db'
      → (taken_row ≡ row)
        × (remote.amount ≡ hosted.amount)
        × (remote.asset ≡ hosted.asset)
        × (sales_closed row.event db ≡ false)
  take_place_sound row db taken_row db' there e =
      elim (take_place-Took ledger ticket_of cause hosted remote clock refund_id sale_id row db
        there) [
          | rolled_back x o eq ↦ absurd (cc eq)
          | repeated o seen eq ↦ absurd (cc eq)
          | refunded reason after_it o eq t ↦ absurd (cc eq)
          | took h after_it o eq t ↦
              (cc eq, ground (arith, t.amount), ground (arith, t.amount), t.open_sales)
        ]

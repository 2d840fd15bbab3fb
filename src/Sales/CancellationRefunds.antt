-- ===== src/Sales/CancellationRefunds.antt =====
-- src/sales/cancellation-refunds.ts: what is owed for the tickets of a cancelled event.
pub mod Complete
pub mod Selected
use kippu_api.Base.{
  ℕ, suc, ◌+◌, Bool, true, false, not, ◌&&◌, ◌||◌, Option, none, some, List, [], ◌∷◌, ◌++◌, map,
  ltb, leb, ◌==◌, same, if◌then◌else◌, exists_where, find_where, select_where,
}
use kippu_api.Store.{
  Error, spec, refused_request, bad_request, failure, SpecCode, ticket_not_found, Event,
  EventStatus, cancelled, Ticket, Answer, found, refused, Ledger, Hold, PrimarySale, SaleStatus,
  issued, failed_sale, FaceValue, RefundEntitlement, event_cancelled_refund, refund_entitled,
  DerivedTicket, Db, M, ◌>>=◌, ◌>>◌, get, modify, pure, throw, answered, in_transaction,
}
use kippu_api.Sales.Allocation.{is_purchased}
use kippu_api.Sales.Audit.{CheckoutCause, record_checkout_step}
use kippu_api.Sales.Payment.{refunds_hosted}
use kippu_api.Events.Status.{is_cancelled}

pub record CancellationRefunds : Type 0 where
  pub recorded : ℕ
  pub existing : ℕ
  pub unaccounted : List ℕ

pub record SaleRow : Type 0 where
  pub ticket : ℕ
  pub hosted_checkout_id : ℕ
  pub checkout_id : ℕ
  pub purchaser : Option ℕ
  pub amount : Option ℕ
  pub asset : Option ℕ
  pub hold_price : Option ℕ
  pub hold_asset : Option ℕ

abbrev or_if_null : Option ℕ → Option ℕ → Option ℕ
or_if_null none b = b
or_if_null (some a) b = some a

-- status IN ('issued', 'failed')
abbrev pub is_sold : SaleStatus → Bool
is_sold issued = true
is_sold failed_sale = true
is_sold _ = false

-- ORDER BY, by which of two rows comes before the other
unfoldable pub put_in {ℓ} : {A : Type ℓ} → (A → A → Bool) → A → List A → List A
put_in before x [] = x ∷ []
put_in before x (y ∷ ys) =
    let rest = put_in before x ys in if before y x then y ∷ rest else x ∷ y ∷ ys

unfoldable pub ordered {ℓ} : {A : Type ℓ} → (A → A → Bool) → List A → List A
ordered before [] = []
ordered before (x ∷ xs) = put_in before x (ordered before xs)

abbrev pub face_of : ℕ → Db → Option FaceValue
face_of sale_id db = find_where (λ (f : FaceValue). f.sale_id == sale_id) db.face_values

abbrev pub row_of : PrimarySale → ℕ → Hold → Option FaceValue → SaleRow
row_of s ticket h f = record {
  ticket = ticket;
  hosted_checkout_id = s.hosted_checkout_id;
  checkout_id = h.checkout_id;
  purchaser = s.holder_account;
  amount = elim f [ none ↦ none | some x ↦ some x.amount ];
  asset = elim f [ none ↦ none | some x ↦ some x.asset ];
  hold_price = h.price;
  hold_asset = h.asset;
}

-- A sale's row, if its ticket is recorded and its hold is of the event.
unfoldable pub sale_row : ℕ → Db → PrimarySale → Option ℕ → List SaleRow
sale_row event db s none = []
sale_row event db s (some ticket) = elim (find_where (λ (h : Hold). h.id == s.hold_id) db.holds) [
  | none ↦ []
  | some h ↦
      if h.event == event && is_sold s.status then row_of s ticket h (face_of s.id db) ∷ [] else []
]

unfoldable pub rows_of : ℕ → Db → List PrimarySale → List SaleRow
rows_of event db [] = []
rows_of event db (s ∷ ss) = sale_row event db s s.ticket ++ rows_of event db ss

abbrev pub is_earlier : PrimarySale → PrimarySale → Bool
is_earlier s t = ltb s.created_at t.created_at || (s.created_at == t.created_at && leb s.id t.id)

abbrev pub sale_rows : ℕ → Db → List SaleRow
sale_rows event db = rows_of event db (ordered is_earlier db.primary_sales)

abbrev pub refunds_ticket : ℕ → RefundEntitlement → Bool
refunds_ticket ticket r = same r.ticket (some ticket)

-- A refund that an INSERT for the sale would conflict with (UNIQUE hosted_checkout_id, ticket).
abbrev pub refunds_sale : SaleRow → RefundEntitlement → Bool
refunds_sale row r = refunds_hosted row.hosted_checkout_id r || refunds_ticket row.ticket r

-- What became of one sale.
pub data Entitled : Type 0 where
  recorded_one existing_one passed_over : Entitled

-- Number.MAX_SAFE_INTEGER
abbrev max_safe_integer : ℕ
max_safe_integer = 9007199254740991

abbrev pub is_amount : ℕ → Bool
is_amount n = ltb 0 n && leb n max_safe_integer

abbrev is_absent : SpecCode → Bool
is_absent ticket_not_found = true
is_absent _ = false

module _ (ledger : Ledger) (event : ℕ) (cause : CheckoutCause) (at refund_id : ℕ → ℕ) where
  -- INSERT … ON CONFLICT DO NOTHING
  unfoldable pub insert_entitlement : SaleRow → ℕ → ℕ → ℕ → M Entitled
  insert_entitlement row amount asset holder = do
    db ← get
    if exists_where (refunds_sale row) db.refund_entitlements
        then pure existing_one
        else (modify (λ db. record db {
          refund_entitlements =
              record {
                id = refund_id row.ticket;
                hosted_checkout_id = row.hosted_checkout_id;
                checkout_id = row.checkout_id;
                amount = amount;
                asset = asset;
                reason = event_cancelled_refund;
                created_at = at row.ticket;
                ticket = some row.ticket;
                purchaser_account = row.purchaser;
                holder_at_cancellation = some holder;
              }
              ∷ db.refund_entitlements;
        })
            >> (record_checkout_step row.checkout_id refund_entitled cause (at row.ticket)
                >> pure recorded_one))

  -- The sale's face value, or else its hold's price.
  unfoldable pub refund_priced : SaleRow → ℕ → Option ℕ → Option ℕ → M Entitled
  refund_priced row holder (some amount) (some asset) =
      if is_amount amount
      then in_transaction (insert_entitlement row amount asset holder)
      else throw failure
  refund_priced row holder _ _ = throw failure

  unfoldable pub refund_held : SaleRow → Answer (Option ℕ) → M Entitled
  refund_held row (refused code) = throw (spec code)
  refund_held row (found none) = throw failure
  refund_held row (found (some holder)) =
      refund_priced row holder (or_if_null row.amount row.hold_price)
        (or_if_null row.asset row.hold_asset)

  -- A sale with no verdict counts only if the ledger holds its ticket.
  unfoldable pub refund_issued : SaleRow → Answer Ticket → M Entitled
  refund_issued row (refused code) = if is_absent code then pure passed_over else throw (spec code)
  refund_issued row (found t) =
      if is_purchased t.provenance && t.event == event
      then refund_held row (ledger.get_cancellation_holder row.ticket)
      else pure passed_over

  unfoldable pub refund_sale : SaleRow → M Entitled
  refund_sale row = do
    db ← get
    if exists_where (refunds_ticket row.ticket) db.refund_entitlements
        then pure existing_one
        else refund_issued row (ledger.get_ticket row.ticket)

  abbrev pub counted : Entitled → ℕ × ℕ → ℕ × ℕ
  counted recorded_one (r, x) = (suc r, x)
  counted existing_one (r, x) = (r, suc x)
  counted passed_over n = n

  -- How many were recorded, and how many there were already.
  unfoldable pub refund_each : List SaleRow → M (ℕ × ℕ)
  refund_each [] = pure (0, 0)
  refund_each (row ∷ rows) = do
    one ← refund_sale row
    rest ← refund_each rows
    pure (counted one rest)

  abbrev is_unaccounted : Db → DerivedTicket → Bool
  is_unaccounted db t =
      t.event == event
      && is_purchased t.provenance
      && not (exists_where (λ (s : PrimarySale). same s.ticket (some t.id)) db.primary_sales)

  abbrev ticket_id : DerivedTicket → ℕ
  ticket_id t = t.id

  abbrev pub summary : ℕ × ℕ → Db → CancellationRefunds
  summary (recorded, existing) db = record {
    recorded = recorded;
    existing = existing;
    unaccounted = map ticket_id (
        ordered (λ (t u : DerivedTicket). leb t.id u.id)
          (select_where (is_unaccounted db) db.derived_tickets));
  }

  unfoldable pub refund_cancelled : Bool → M CancellationRefunds
  refund_cancelled false = throw (refused_request bad_request none)
  refund_cancelled true = do
    db ← get
    counts ← refund_each (sale_rows event db)
    db' ← get
    pure (summary counts db')

  unfoldable pub record_cancellation_refunds : M CancellationRefunds
  record_cancellation_refunds = do
    ev ← answered (ledger.get_event event)
    refund_cancelled (is_cancelled ev.status)

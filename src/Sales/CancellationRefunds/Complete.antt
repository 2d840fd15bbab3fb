-- ===== src/Sales/CancellationRefunds/Complete.antt =====
-- Every ticket that was sold for a cancelled event is refunded.
use kippu_api.Base.{
  not, ◌||◌, ℕ, ◌≡◌, refl, ap, ◌∙◌, inl, inr, Bool, true, false, ◌&&◌, Option, none, some, List, [],
  ◌∷◌, arith, ◌==◌, ==_iff, Bool-cases, exists_where, All, All_map,
}
use kippu_api.Store.{
  Event, Ticket, Answer, found, refused, Ledger, RefundEntitlement, Db, done, after, ◌>>=◌, pure,
  ran, chained, Stays, staying, answered, get,
}
use kippu_api.Sales.Allocation.{is_purchased}
use kippu_api.Sales.Audit.{CheckoutCause, record_checkout_step}
use kippu_api.Events.Status.{is_cancelled}
use kippu_api.Sales.CancellationRefunds.Selected.{
  is_sold_here, is_refunded, is_row_refunded, selected, of_row,
}
use kippu_api.Sales.CancellationRefunds.{
  SaleRow, existing_one, refunds_ticket, refunds_sale, Entitled, is_amount, insert_entitlement,
  refund_priced, refund_held, refund_issued, refund_sale, refund_each, counted, summary,
  refund_cancelled, record_cancellation_refunds, sale_rows, CancellationRefunds,
}

-- A refund is recorded for the sale's ticket or its payment.
Refunded : SaleRow → Db → Type 0
Refunded row db = exists_where (refunds_sale row) db.refund_entitlements ≡ true

ticket_refunded :
    (row : SaleRow) (rs : List RefundEntitlement)
    → exists_where (refunds_ticket row.ticket) rs ≡ true
    → exists_where (refunds_sale row) rs ≡ true
unfolding exists_where
ticket_refunded row [] h = h
ticket_refunded row (r ∷ rs) h = ground (arith, ticket_refunded row rs)

module _ (ledger : Ledger) (event : ℕ) (cause : CheckoutCause) (at refund_id : ℕ → ℕ) where
  insert-Refunded :
      (row : SaleRow) (amount asset holder : ℕ) (db : Db)
      → Refunded row
          (after (insert_entitlement ledger event cause at refund_id row amount asset holder db))
  unfolding insert_entitlement record_checkout_step Refunded exists_where
  insert-Refunded row amount asset holder db =
      elim (Bool-cases (exists_where (refunds_sale row) db.refund_entitlements)) [
        | inl before ↦ rw before before
        | inr fresh ↦
            rw fresh (ground (arith, (==_iff row.hosted_checkout_id row.hosted_checkout_id).1 refl))
      ]

  -- Refunds are only added.
  insert-Stays :
      (other row : SaleRow) (amount asset holder : ℕ)
      → Stays
          (Refunded other)
          (insert_entitlement ledger event cause at refund_id row amount asset holder)
  unfolding insert_entitlement record_checkout_step Refunded exists_where Stays
  insert-Stays other row amount asset holder db p =
      elim (Bool-cases (exists_where (refunds_sale row) db.refund_entitlements)) [
        | inl before ↦ rw before p
        | inr fresh ↦ rw fresh (ground arith)
      ]

  priced-Stays :
      (other row : SaleRow) (holder : ℕ) (amount asset : Option ℕ)
      → Stays
          (Refunded other)
          (refund_priced ledger event cause at refund_id row holder amount asset)
  unfolding refund_priced
  priced-Stays other row holder (some amount) (some asset) = search (staying, insert-Stays) depth 8
  priced-Stays other row holder none asset = search staying
  priced-Stays other row holder (some amount) none = search staying

  held-Stays :
      (other row : SaleRow) (a : Answer (Option ℕ))
      → Stays (Refunded other) (refund_held ledger event cause at refund_id row a)
  unfolding refund_held
  held-Stays other row (refused code) = search staying
  held-Stays other row (found none) = search staying
  held-Stays other row (found (some holder)) = search priced-Stays

  issued-Stays :
      (other row : SaleRow) (a : Answer Ticket)
      → Stays (Refunded other) (refund_issued ledger event cause at refund_id row a)
  unfolding refund_issued
  issued-Stays other row (refused code) = search staying depth 8
  issued-Stays other row (found t) = search (staying, held-Stays) depth 8

  sale-Stays :
      (other row : SaleRow)
      → Stays (Refunded other) (refund_sale ledger event cause at refund_id row)
  unfolding refund_sale
  sale-Stays other row = search (staying, issued-Stays) depth 8

  each-Stays :
      (other : SaleRow) (rows : List SaleRow)
      → Stays (Refunded other) (refund_each ledger event cause at refund_id rows)
  unfolding refund_each
  each-Stays other [] = search staying
  each-Stays other (row ∷ rows) =
      let rest = each-Stays other rows in search (staying, sale-Stays) depth 8

  priced-Refunded :
      (row : SaleRow) (holder : ℕ) (amount asset : Option ℕ) (db db' : Db) (one : Entitled)
      → refund_priced ledger event cause at refund_id row holder amount asset db ≡ done one db'
      → Refunded row db'
  unfolding refund_priced Refunded
  priced-Refunded row holder none asset db db' one e = absurd (cc e)
  priced-Refunded row holder (some amount) none db db' one e = absurd (cc e)
  priced-Refunded row holder (some amount) (some asset) db db' one e =
      elim (Bool-cases (is_amount amount)) [
        | inl fits ↦
            let e' =
              ran (insert_entitlement ledger event cause at refund_id row amount asset holder) db
                db' one (rw fits at e) in
            rw (← ap after e') (insert-Refunded row amount asset holder db)
        | inr unfit ↦ let e' = rw unfit at e in absurd (cc e')
      ]

  held-Refunded :
      (row : SaleRow) (a : Answer (Option ℕ)) (db db' : Db) (one : Entitled)
      → refund_held ledger event cause at refund_id row a db ≡ done one db'
      → Refunded row db'
  unfolding refund_held
  held-Refunded row (refused code) db db' one e = absurd (cc e)
  held-Refunded row (found none) db db' one e = absurd (cc e)
  held-Refunded row (found (some holder)) db db' one e = priced-Refunded row holder _ _ db db' one e

  -- The ledger holds the sale's ticket, as one that the event sold.
  abbrev Due : SaleRow → Type 0
  Due row =
      (t : Ticket) × (ledger.get_ticket row.ticket ≡ found t)
      × ((is_purchased t.provenance && t.event == event) ≡ true)

  sale-Refunded :
      (row : SaleRow) (db db' : Db) (one : Entitled)
      → Due row
      → refund_sale ledger event cause at refund_id row db ≡ done one db'
      → Refunded row db'
  unfolding refund_sale refund_issued Refunded
  sale-Refunded row db db' one (t, there, sold) e =
      elim (Bool-cases (exists_where (refunds_ticket row.ticket) db.refund_entitlements)) [
        | inl before ↦
            let e' : pure existing_one db ≡ done one db' = rw before at e in
            rw (← ap after e') (ticket_refunded row db.refund_entitlements before)
        | inr fresh ↦ held-Refunded row _ db db' one (rw (fresh, there, sold) at e)
      ]

  each_kept :
      (row : SaleRow) (rows : List SaleRow) (now db' : Db) (n : ℕ × ℕ)
      → refund_each ledger event cause at refund_id rows now ≡ done n db'
      → Refunded row now
      → Refunded row db'
  unfolding Stays
  each_kept row rows now db' n e p = rw (← ap after e) (each-Stays row rows now p)

  each-Refunded :
      (rows : List SaleRow) (db db' : Db) (n : ℕ × ℕ)
      → refund_each ledger event cause at refund_id rows db ≡ done n db'
      → All (λ row. Due row → Refunded row db') rows
  unfolding refund_each
  each-Refunded [] db db' n e = tt
  each-Refunded (row ∷ rows) db db' n e =
      let (one, now, first, e1) =
        chained (refund_sale ledger event cause at refund_id row)
          (λ one. refund_each ledger event cause at refund_id rows >>= λ rest.
            pure (counted ledger event cause at refund_id one rest))
          db db' n e in
      let (rest, after_it, others, e2) =
        chained (refund_each ledger event cause at refund_id rows)
          (λ rest. pure (counted ledger event cause at refund_id one rest)) now db' n e1 in
      let others' : refund_each ledger event cause at refund_id rows now ≡ done rest db' =
        others ∙ ap (λ d. done rest d) (ap after e2) in
      (
        λ due. each_kept row rows now db' rest others' (sale-Refunded row db now one due first),
        each-Refunded rows now db' rest others',
      )

  recorded :
      (b : Bool) (db db' : Db) (r : CancellationRefunds)
      → refund_cancelled ledger event cause at refund_id b db ≡ done r db'
      → All (λ row. Due row → Refunded row db') (sale_rows event db)
  unfolding refund_cancelled
  recorded false db db' r e = absurd (cc e)
  recorded true db db' r e =
      let (counts, now, refunds, e1) =
        chained (refund_each ledger event cause at refund_id (sale_rows event db))
          (λ n. get >>= λ d. pure (summary ledger event cause at refund_id n d)) db db' r e in
      each-Refunded _ db db' counts (refunds ∙ ap (λ d. done counts d) (ap after e1))

  abbrev is_due : SaleRow → Bool
  is_due row = elim (ledger.get_ticket row.ticket) [
    | found t ↦ is_purchased t.provenance && t.event == event
    | refused code ↦ false
  ]

  Due-is_due : (row : SaleRow) → is_due row ≡ true → Due row
  Due-is_due row = by_answer _ refl
    where
      by_answer :
          (a : Answer Ticket)
          → ledger.get_ticket row.ticket ≡ a
          → elim a [
            | found t ↦ is_purchased t.provenance && t.event == event
            | refused code ↦ false
          ]
            ≡ true
          → Due row
      by_answer (found t) there sold = (t, there, sold)
      by_answer (refused code) there sold = absurd (cc sold)

  or_not : (a b : Bool) → (a ≡ true → b ≡ true) → (not a || b) ≡ true
  or_not true b h = h refl
  or_not false b h = refl

  rows_refunded :
      (db db' : Db) (r : CancellationRefunds)
      → record_cancellation_refunds ledger event cause at refund_id db ≡ done r db'
      → All (λ row. is_row_refunded ledger event db' row ≡ true) (sale_rows event db)
  unfolding record_cancellation_refunds Refunded
  rows_refunded db db' r e =
      All_map _ _ (λ row h. or_not (is_due row) _ (λ due. h (Due-is_due row due)))
        (sale_rows event db) (by_event (ledger.get_event event) e)
    where
      by_event :
          (a : Answer Event)
          → (answered a >>= λ (ev : Event).
                refund_cancelled ledger event cause at refund_id (is_cancelled ev.status))
              db
            ≡ done r db'
          → All (λ row. Due row → Refunded row db') (sale_rows event db)
      by_event (refused code) h = absurd (cc h)
      by_event (found ev) h = recorded (is_cancelled ev.status) db db' r h

  -- Where recording a cancelled event's refunds returns, every ticket that Kippu sold for it is
  -- refunded: for each sale of a hold of the event, issued or without a verdict, whose ticket the
  -- ledger holds as one that this event sold, a refund is recorded for its payment or its ticket.
  pub record_cancellation_refunds_complete :
      (db db' : Db) (r : CancellationRefunds)
      → record_cancellation_refunds ledger event cause at refund_id db ≡ done r db'
      → All
          (λ s. (not (is_sold_here ledger event db s) || is_refunded ledger event db' s) ≡ true)
          db.primary_sales
  record_cancellation_refunds_complete db db' r e =
      All_map _ _ (of_row ledger event db db') db.primary_sales (
        selected ledger event (λ row. is_row_refunded ledger event db' row ≡ true) db
          (rows_refunded db db' r e))

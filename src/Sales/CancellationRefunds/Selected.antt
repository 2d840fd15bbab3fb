-- ===== src/Sales/CancellationRefunds/Selected.antt =====
-- The sales that recording the refunds of an event looks at.
use kippu_api.Base.{
  not, ◌||◌, ℕ, ◌≡◌, refl, subst, inl, inr, Bool, true, false, ◌&&◌, Option, none, some, List, [],
  ◌∷◌, ◌++◌, arith, ◌==◌, same, Bool-cases, exists_where, find_where, All,
}
use kippu_api.Store.{
  Hold, PrimarySale, SaleStatus, issued, failed_sale, issuing_sale, rejected_sale, found, refused,
  Ledger, RefundEntitlement, Db,
}
use kippu_api.Sales.Allocation.{is_purchased}
use kippu_api.Sales.CancellationRefunds.{
  SaleRow, refunds_sale, row_of, face_of, sale_row, is_sold, rows_of, ordered, put_in, is_earlier,
  sale_rows,
}

module _ {A : Type 0} (Q : A → Type 0) where
  All_split : (xs ys : List A) → All Q (xs ++ ys) → All Q xs × All Q ys
  All_split [] ys a = (tt, a)
  All_split (x ∷ xs) ys (q, a) = let (l, r) = All_split xs ys a in ((q, l), r)

  put_in-All :
      (before : A → A → Bool) (x : A) (ys : List A) → All Q (put_in before x ys) → Q x × All Q ys
  unfolding put_in
  put_in-All before x [] (q, a) = (q, a)
  put_in-All before x (y ∷ ys) a = elim (Bool-cases (before y x)) [
    | inl later ↦
        let (q, rest) = rw later at a in
        let (p, others) = put_in-All before x ys rest in (p, (q, others))
    | inr sooner ↦ rw sooner at a
  ]

  -- What the ordered rows have, the rows have.
  ordered-All : (before : A → A → Bool) (xs : List A) → All Q (ordered before xs) → All Q xs
  unfolding ordered
  ordered-All before [] a = tt
  ordered-All before (x ∷ xs) a =
      let (q, rest) = put_in-All before x (ordered before xs) a in (q, ordered-All before xs rest)

module _ (ledger : Ledger) (event : ℕ) where
  -- A ticket that the ledger holds as one that the event sold.
  abbrev pub is_held : Option ℕ → Bool
  is_held none = false
  is_held (some ticket) = elim (ledger.get_ticket ticket) [
    | found t ↦ is_purchased t.provenance && t.event == event
    | refused code ↦ false
  ]

  -- Issued, or without a verdict.
  abbrev pub may_be_issued : SaleStatus → Bool
  may_be_issued issued = true
  may_be_issued failed_sale = true
  may_be_issued issuing_sale = false
  may_be_issued rejected_sale = false

  abbrev pub is_of_this : Option Hold → Bool
  is_of_this none = false
  is_of_this (some h) = h.event == event

  -- A sale of a hold of the event whose ticket was or may have been issued, and the ledger holds.
  abbrev pub is_sold_here : Db → PrimarySale → Bool
  is_sold_here db s =
      may_be_issued s.status
      && is_of_this (find_where (λ (h : Hold). h.id == s.hold_id) db.holds)
      && is_held s.ticket

  -- A refund is recorded for the sale's payment or its ticket.
  abbrev pub is_refunded : Db → PrimarySale → Bool
  is_refunded db s =
      exists_where
        (λ (r : RefundEntitlement).
          r.hosted_checkout_id == s.hosted_checkout_id || same r.ticket s.ticket)
        db.refund_entitlements

  module _ (P : SaleRow → Type 0) where
    rows-All :
        (db : Db) (ss : List PrimarySale)
        → All P (rows_of event db ss)
        → All (λ (s : PrimarySale). All P (sale_row event db s s.ticket)) ss
    unfolding rows_of
    rows-All db [] a = tt
    rows-All db (s ∷ ss) a =
        let (mine, rest) = All_split P (sale_row event db s s.ticket) (rows_of event db ss) a in
        (mine, rows-All db ss rest)

    pub selected :
        (db : Db)
        → All P (sale_rows event db)
        → All (λ (s : PrimarySale). All P (sale_row event db s s.ticket)) db.primary_sales
    selected db a = ordered-All _ is_earlier db.primary_sales (rows-All db _ a)

  abbrev pub is_row_refunded : Db → SaleRow → Bool
  is_row_refunded db' row =
      not (is_held (some row.ticket)) || exists_where (refunds_sale row) db'.refund_entitlements

  -- The row of a sale that is owed a refund is there, and is about the sale.
  pub of_row :
      (db db' : Db) (s : PrimarySale)
      → All (λ row. is_row_refunded db' row ≡ true) (sale_row event db s s.ticket)
      → (not (is_sold_here db s) || is_refunded db' s) ≡ true
  unfolding sale_row
  of_row db db' s a = by_ticket s.ticket refl a
    where
      by_hold :
          (ticket : ℕ)
          → s.ticket ≡ some ticket
          → (o : Option Hold) → find_where (λ (h : Hold). h.id == s.hold_id) db.holds ≡ o
          → (status : SaleStatus) → s.status ≡ status
          → All (λ row. is_row_refunded db' row ≡ true) (sale_row event db s (some ticket))
          → (not (is_sold_here db s) || is_refunded db' s) ≡ true
      by_hold ticket e none there status is_status a = rw (there, e) (ground arith)
      by_hold ticket e (some h) there issued is_status a = elim (Bool-cases (h.event == event)) [
        | inl mine ↦
            let rows : sale_row event db s (some ticket)
                ≡ row_of s ticket h (face_of s.id db) ∷ [] =
              rw (sale_row, there, mine, is_sold, is_status) refl in
            let (r, _) = subst (All (λ row. is_row_refunded db' row ≡ true)) rows a in
            rw (is_status, there, mine, e) r
        | inr other ↦ rw (is_status, there, other) refl
      ]
      by_hold ticket e (some h) there failed_sale is_status a =
          elim (Bool-cases (h.event == event)) [
            | inl mine ↦
                let rows : sale_row event db s (some ticket)
                    ≡ row_of s ticket h (face_of s.id db) ∷ [] =
                  rw (sale_row, there, mine, is_sold, is_status) refl in
                let (r, _) = subst (All (λ row. is_row_refunded db' row ≡ true)) rows a in
                rw (is_status, there, mine, e) r
            | inr other ↦ rw (is_status, there, other) refl
          ]
      by_hold ticket e (some h) there issuing_sale is_status a = rw is_status refl
      by_hold ticket e (some h) there rejected_sale is_status a = rw is_status refl

      by_ticket :
          (t : Option ℕ)
          → s.ticket ≡ t
          → All (λ row. is_row_refunded db' row ≡ true) (sale_row event db s t)
          → (not (is_sold_here db s) || is_refunded db' s) ≡ true
      by_ticket none e a = rw e (ground arith)
      by_ticket (some ticket) e a = by_hold ticket e _ refl _ refl a

-- ===== src/Sales/Payment/Issue/Outcomes.antt =====
-- What completing an issuance leaves, for each outcome, and when the tables refuse it.
use kippu_api.Base.{
  ℕ, ◌≡◌, Bool, true, false, not, ◌&&◌, ◌||◌, Option, none, some, ◌∷◌, ltb, ◌==◌, is_some,
  exists_where, update_where,
}
use kippu_api.Store.{
  HostedRow, Hold, PrimarySale, TicketClass, FaceValue, Db, Outcome, done, threw, failure, after,
  issued, issued_step,
}
use kippu_api.Sales.Audit.{CheckoutCause, record_checkout_step}
use kippu_api.Sales.Payment.{HoldRow, has_id, refunds_hosted}
use kippu_api.Sales.Payment.Entitle.{is_accepted}
use kippu_api.Sales.Payment.Issue.{
  Completion, completed_issued, completed_rejected, completed_failed, confirm_hold, complete_sale,
  update_sale, face_value_of, gives_back, give_back,
}

module _ (cause : CheckoutCause) (hosted : HostedRow) (clock : ℕ → ℕ) (refund_id sale_id : ℕ)
    (row : HoldRow) where
  -- What an outcome does to the holds, the face values and the refunds.
  pub Leaves : Completion → Db → Db → Type 0
  Leaves (completed_issued ticket cursor) db db' =
      (db'.holds ≡ update_where (has_id row.id) (confirm_hold (clock 1)) db.holds)
      × ((f : FaceValue) × (db'.face_values ≡ f ∷ db.face_values)
          × (f.ticket ≡ ticket)
          × (f.sale_id ≡ sale_id)
          × (some f.amount ≡ row.price)
          × (some f.asset ≡ row.asset))
      × (db'.refund_entitlements ≡ db.refund_entitlements)
  Leaves (completed_rejected code) db db' =
      (db'.holds ≡ update_where (gives_back row.id) (give_back (clock 1)) db.holds)
      × (db'.face_values ≡ db.face_values)
      × (exists_where (refunds_hosted hosted.id) db'.refund_entitlements ≡ true)
  Leaves completed_failed db db' =
      (db'.holds ≡ db.holds)
      × (db'.face_values ≡ db.face_values)
      × (db'.refund_entitlements ≡ db.refund_entitlements)

  abbrev is_priced : ℕ → Db → Option ℕ → Option ℕ → Bool
  is_priced ticket db (some amount) (some asset) =
      ltb 0 amount
      && not (
          exists_where (λ (f : FaceValue). f.ticket == ticket || f.sale_id == sale_id)
            db.face_values)
      && exists_where (λ (s : PrimarySale). s.id == sale_id) db.primary_sales
      && exists_where (λ (c : TicketClass). c.id == row.class_id) db.ticket_classes
  is_priced ticket db _ _ = false

  -- What the tables ask. An issued ticket: that the hold has not ended, that it has a positive price
  -- and an asset, that neither the ticket nor the sale has a face value, and that the sale and the
  -- class are there. A rejected one: what a refund of the payment asks.
  unfoldable pub accepts : Completion → Db → Bool
  accepts (completed_issued ticket cursor) db =
      not (exists_where (λ (h : Hold). h.id == row.id && is_some h.ended_at) db.holds)
      && is_priced ticket db row.price row.asset
  accepts (completed_rejected code) db = is_accepted hosted.id row.checkout_id hosted.amount db
  accepts completed_failed db = true

  -- How a completion ends, by whether the tables accept it.
  pub Completes : Bool → Completion → Db → Outcome (Unit {0}) → Type 0
  Completes true c db o = (db' : Db) × (o ≡ done tt db') × Leaves c db db'
  Completes false c db o = o ≡ threw failure db

  -- The store with the sale issued and the hold confirmed, and with the face value as well.
  abbrev confirmed_db : ℕ → ℕ → Db → Db
  confirmed_db ticket cursor db =
      record (update_sale sale_id (complete_sale issued (some ticket) (some cursor) none (clock 0))
        db) { holds = update_where (has_id row.id) (confirm_hold (clock 1)) db.holds }

  abbrev issued_db : ℕ → ℕ → ℕ → ℕ → Db → Db
  issued_db ticket cursor amount asset db = after (
      record_checkout_step row.checkout_id issued_step cause (clock 3)
        (record (confirmed_db ticket cursor db) {
          face_values =
              face_value_of cause hosted clock refund_id sale_id row ticket amount asset (clock 2)
              ∷ db.face_values;
        }))

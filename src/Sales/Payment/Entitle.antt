-- ===== src/Sales/Payment/Entitle.antt =====
-- Recording a refund entitlement, where there is none yet for the payment.
use kippu_api.Base.{
  ℕ, ◌≡◌, ◌⊎◌, refl, false, true, ltb, arith, exists_where, Bool-cases, inl, inr, ◌&&◌, ◌||◌, ◌==◌,
  Bool,
}
use kippu_api.Store.{
  HostedRow, CheckoutSession, RefundReason, Db, done, threw, after, failure, get, ◌>>=◌,
}
use kippu_api.Sales.Audit.{CheckoutCause, record_checkout_step}
use kippu_api.Sales.Payment.{
  refunds_hosted, record_refund, has_references, insert_refund, entitle, is_handled,
}

pub unrefunded :
    (hosted_id : ℕ) (db : Db)
    → is_handled hosted_id db ≡ false
    → exists_where (refunds_hosted hosted_id) db.refund_entitlements ≡ false
unfolding is_handled
unrefunded hosted_id db h = ground arith

-- A refund that is not there yet is recorded, or the constraints of its table refuse it.
pub entitle-fresh :
    (cause : CheckoutCause) (hosted : HostedRow) (checkout_id amount asset : ℕ)
    (reason : RefundReason) (refund_id at : ℕ) (db : Db)
    → exists_where (refunds_hosted hosted.id) db.refund_entitlements ≡ false
    → (entitle cause hosted checkout_id amount asset reason refund_id at db
        ≡ done tt
            (after (record_refund cause hosted checkout_id amount asset reason refund_id at db)))
      ⊎ (entitle cause hosted checkout_id amount asset reason refund_id at db ≡ threw failure db)
unfolding entitle insert_refund record_refund record_checkout_step
entitle-fresh cause hosted checkout_id amount asset reason refund_id at db h =
    elim (Bool-cases (ltb 0 amount)) [
      | inl positive ↦ elim (Bool-cases (has_references hosted.id checkout_id db)) [
        | inl there ↦ inl (rw (◌>>=◌, get, positive, h, there) refl)
        | inr missing ↦ inr (rw (◌>>=◌, get, positive, h, missing) refl)
      ]
      | inr zero ↦ inr (rw (◌>>=◌, get, zero) refl)
    ]

-- What the table asks of a refund that is to be recorded.
abbrev pub is_accepted : ℕ → ℕ → ℕ → Db → Bool
is_accepted hosted_id checkout_id amount db =
    ltb 0 amount
    && (exists_where (refunds_hosted hosted_id) db.refund_entitlements
        || (exists_where (λ (h : HostedRow). h.id == hosted_id) db.hosted_checkouts
            && exists_where (λ (c : CheckoutSession). c.id == checkout_id) db.checkout_sessions))

pub entitle-refused :
    (cause : CheckoutCause) (hosted : HostedRow) (checkout_id amount asset : ℕ)
    (reason : RefundReason) (refund_id at : ℕ) (db : Db)
    → is_accepted hosted.id checkout_id amount db ≡ false
    → entitle cause hosted checkout_id amount asset reason refund_id at db ≡ threw failure db
unfolding entitle insert_refund has_references
entitle-refused cause hosted checkout_id amount asset reason refund_id at db h =
    elim (Bool-cases (ltb 0 amount)) [
      | inl positive ↦
          elim (Bool-cases (exists_where (refunds_hosted hosted.id) db.refund_entitlements)) [
            | inl old ↦ absurd (cc (rw (positive, old) at h))
            | inr new ↦
                let missing : has_references hosted.id checkout_id db ≡ false =
                  rw (positive, new) at h in
                rw (◌>>=◌, get, positive, new, missing) refl
          ]
      | inr zero ↦ rw (◌>>=◌, get, zero) refl
    ]

pub entitle-accepted :
    (cause : CheckoutCause) (hosted : HostedRow) (checkout_id amount asset : ℕ)
    (reason : RefundReason) (refund_id at : ℕ) (db : Db)
    → is_accepted hosted.id checkout_id amount db ≡ true
    → (db' : Db) × (entitle cause hosted checkout_id amount asset reason refund_id at db
        ≡ done tt db')
      × (exists_where (refunds_hosted hosted.id) db'.refund_entitlements ≡ true)
      × (db'.holds ≡ db.holds)
      × (db'.primary_sales ≡ db.primary_sales)
      × (db'.face_values ≡ db.face_values)
      × (db'.granted_issuances ≡ db.granted_issuances)
unfolding entitle insert_refund record_refund record_checkout_step exists_where has_references
entitle-accepted cause hosted checkout_id amount asset reason refund_id at db h =
    elim (Bool-cases (exists_where (refunds_hosted hosted.id) db.refund_entitlements)) [
      | inl old ↦
          let positive : ltb 0 amount ≡ true = ground arith in
          (db, rw (◌>>=◌, get, positive, old) refl, old, refl, refl, refl, refl)
      | inr new ↦
          let positive : ltb 0 amount ≡ true = ground arith in
          let there : has_references hosted.id checkout_id db ≡ true = ground arith in
          (
            after (record_refund cause hosted checkout_id amount asset reason refund_id at db),
            rw (◌>>=◌, get, positive, new, there) refl,
            ground arith,
            refl,
            refl,
            refl,
            refl,
          )
    ]

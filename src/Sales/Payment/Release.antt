-- ===== src/Sales/Payment/Release.antt =====
-- `releaseAll`, `reopenSales`, `sweep` and `paymentWebhook` of src/sales/payment.ts: ending an
-- event's sales, and the work that no buyer's call starts. Readings of the clock, and made-up ids,
-- are functions of what they are for.
pub mod Closing
pub mod Ending
use kippu_api.Base.{
  ℕ, suc, ◌+◌, Bool, true, false, not, ◌&&◌, ◌||◌, Option, none, some, List, [], ◌∷◌, map, ◌==◌,
  leb, is_some, if◌then◌else◌, exists_where, find_where, count_where, select_where, update_where,
}
use kippu_api.Store.{
  Error, Try, Ledger, TicketOf, Hold, HoldStatus, released, lapsed, is_outstanding, is_ended,
  HostedRow, is_open, SaleClosure, RefundEntitlement, RefundReason, event_closed,
  checkout_cancelled, hold_released, Db, M, Outcome, done, threw, ◌>>=◌, ◌>>◌, get, modify, pure,
  in_transaction,
}
use kippu_api.Sales.Allocation.{has_expired, lapse}
use kippu_api.Sales.Audit.{CheckoutActor, CheckoutCause, record_checkout_step}
use kippu_api.Sales.Payment.{Provider, has_id, open_hosted, is_open_of, releases_hold}
use kippu_api.Sales.Payment.Issue.{Relay, reconcile}
use kippu_api.Sales.Payment.Pay.{cancel_hosted, swallow}

-- What `releaseAll` did.
pub record ReleasedSales : Type 0 where
  pub released : ℕ
  pub cancelled : ℕ
  pub refunds : ℕ

abbrev pub is_closed_of : ℕ → SaleClosure → Bool
is_closed_of event c = c.event == event && not (is_some c.reopened_at)

abbrev pub closure_of : ℕ → ℕ → ℕ → SaleClosure
closure_of event request_id at = record {
  event = event;
  closed_request_id = request_id;
  closed_at = at;
  reopened_request_id = none;
  reopened_at = none;
}

-- INSERT … WHERE NOT EXISTS a closure that is not reopened
unfoldable pub close_sales : ℕ → CheckoutCause → ℕ → Db → Db
close_sales event cause at db =
    if exists_where (is_closed_of event) db.event_sale_closures then db else record db {
      event_sale_closures = closure_of event cause.request_id at ∷ db.event_sale_closures;
    }

abbrev pub reopened : ℕ → ℕ → SaleClosure → SaleClosure
reopened request_id at c = record c { reopened_at = some at; reopened_request_id = some request_id }

-- Answers whether exactly one closure was reopened.
unfoldable pub reopen_sales : ℕ → CheckoutCause → ℕ → M Bool
reopen_sales event cause at = do
  db ← get
  modify λ db. record db {
    event_sale_closures =
        update_where (is_closed_of event) (reopened cause.request_id at) db.event_sale_closures;
  }
  pure (count_where (is_closed_of event) db.event_sale_closures == 1)

-- The event's holds that are outstanding or have an open hosted checkout.
abbrev pub is_to_release : ℕ → Db → Hold → Bool
is_to_release event db h =
    h.event == event
    && (is_outstanding h.status || exists_where (is_open_of h.id) db.hosted_checkouts)

abbrev is_outstanding_of : ℕ → Hold → Bool
is_outstanding_of event h = h.event == event && is_outstanding h.status

abbrev id_of : Hold → ℕ
id_of h = h.id

-- SET status = 'released', ended_at = now
abbrev pub release_at : ℕ → Hold → Hold
release_at at h = record h { status = released; ended_at = some at }

-- What one hold's transaction did: the hosted checkout that was paid first, and whether one was
-- cancelled.
pub record OneReleased : Type 0 where
  pub paid_first : Option ℕ
  pub is_cancelled : Bool

module _ (provider : Provider) (cause : CheckoutCause) (clock : ℕ → ℕ) where
  -- The hold itself, unless its checkout was paid first.
  unfoldable pub release_unpaid : Hold → Bool → Bool → M OneReleased
  release_unpaid h is_cancelled false =
      pure (record { paid_first = none; is_cancelled = is_cancelled })
  release_unpaid h is_cancelled true = do
    modify λ db. record db {
      holds = update_where (releases_hold h.id) (release_at (clock 2)) db.holds;
    }
    record_checkout_step h.checkout_id hold_released cause (clock 3)
    pure (record { paid_first = none; is_cancelled = is_cancelled })

  unfoldable pub release_cancelled : Hold → HostedRow → Bool → M OneReleased
  release_cancelled h hosted true =
      pure (record { paid_first = some hosted.provider_checkout_id; is_cancelled = false })
  release_cancelled h hosted false = do
    record_checkout_step h.checkout_id checkout_cancelled cause (clock 1)
    release_unpaid h true (is_outstanding h.status)

  unfoldable pub release_open : Hold → Option HostedRow → M OneReleased
  release_open h none = release_unpaid h false (is_outstanding h.status)
  release_open h (some hosted) = do
    is_paid_first ← cancel_hosted provider hosted (clock 0)
    release_cancelled h hosted is_paid_first

  unfoldable pub release_found : Option Hold → M OneReleased
  release_found none = pure (record { paid_first = none; is_cancelled = false })
  release_found (some h) = do db ← get; release_open h (open_hosted h.id db)

  unfoldable pub release_one : ℕ → M OneReleased
  release_one id = in_transaction do db ← get; release_found (find_where (has_id id) db.holds)

abbrev pub id_and : Option ℕ → List ℕ → List ℕ
id_and none ids = ids
id_and (some id) ids = id ∷ ids

-- The hosted checkouts that were paid first, and how many were cancelled.
unfoldable pub release_each : Provider → CheckoutCause → (ℕ → ℕ → ℕ) → List ℕ → M (List ℕ × ℕ)
release_each provider cause clock [] = pure ([], 0)
release_each provider cause clock (id ∷ ids) = do
  one ← release_one provider cause (clock id) id
  rest ← release_each provider cause clock ids
  pure (id_and one.paid_first rest.0, (if one.is_cancelled then suc rest.1 else rest.1))

module _ (ids : List ℕ) where
  abbrev is_one_of : ℕ → Bool
  is_one_of id = exists_where (λ x. x == id) ids

  abbrev is_released_now : Hold → Bool
  is_released_now h = is_one_of h.id && is_ended h.status

  abbrev is_refunded_closed : Db → RefundEntitlement → Bool
  is_refunded_closed db r =
      is_event_closed r.reason
      && exists_where
          (λ (k : HostedRow). k.id == r.hosted_checkout_id && is_one_of k.provider_checkout_id)
          db.hosted_checkouts
    where
      is_event_closed : RefundReason → Bool
      is_event_closed event_closed = true
      is_event_closed _ = false

abbrev report : List ℕ → List ℕ → ℕ → Db → ReleasedSales
report outstanding_ids paid_ids cancelled db = record {
  released = count_where (is_released_now outstanding_ids) db.holds;
  cancelled = cancelled;
  refunds = count_where (is_refunded_closed paid_ids db) db.refund_entitlements;
}

module _ (ledger : Ledger) (ticket_of : TicketOf) (provider : Provider) (relay : Relay)
    (clock issue_clock : ℕ → ℕ → ℕ) (refund_id sale_id : ℕ → ℕ) where
  unfoldable pub reconcile_each : CheckoutCause → List ℕ → M (Unit {0})
  reconcile_each cause [] = pure tt
  reconcile_each cause (id ∷ ids) = do
    reconcile ledger ticket_of provider relay cause (clock id) (issue_clock id) (refund_id id)
        (sale_id id) id
    reconcile_each cause ids

  -- Once the sales are closed.
  unfoldable pub release_closed : ℕ → CheckoutCause → (ℕ → ℕ → ℕ) → M ReleasedSales
  release_closed event cause release_clock = do
    db ← get
    released_each ←
        release_each provider cause release_clock
          (map id_of (select_where (is_to_release event db) db.holds))
    reconcile_each cause released_each.0
    after_it ← get
    pure (
        report (map id_of (select_where (is_outstanding_of event) db.holds)) released_each.0
          released_each.1 after_it)

  unfoldable pub release_all : ℕ → CheckoutCause → ℕ → (ℕ → ℕ → ℕ) → M ReleasedSales
  release_all event cause at release_clock = do
    modify (close_sales event cause at)
    release_closed event cause release_clock

  -- One hosted checkout of the sweep; what it throws goes to `onError`.
  unfoldable pub sweep_paid : CheckoutCause → ℕ → Bool → M (Unit {0})
  sweep_paid cause id false = pure tt
  sweep_paid cause id true =
      reconcile ledger ticket_of provider relay cause (clock id) (issue_clock id) (refund_id id)
        (sale_id id) id

  unfoldable pub sweep_each : CheckoutCause → (ℕ → ℕ) → List HostedRow → M (Unit {0})
  sweep_each cause cancel_clock [] = pure tt
  sweep_each cause cancel_clock (k ∷ ks) = do
    swallow do
      is_paid_first ← cancel_hosted provider k (cancel_clock k.id)
      sweep_paid cause k.provider_checkout_id is_paid_first
    sweep_each cause cancel_clock ks

  abbrev is_abandoned : Db → HostedRow → Bool
  is_abandoned db k =
      is_open k.status
      && exists_where (λ (h : Hold). h.id == k.hold_id && is_ended h.status) db.holds

  -- `cause` is the request's, of the sweep.
  unfoldable pub sweep : CheckoutCause → ℕ → (ℕ → ℕ) → M (Unit {0})
  sweep cause at cancel_clock = do
    modify λ db. record db { holds = update_where (has_expired at) lapse db.holds }
    db ← get
    sweep_each cause cancel_clock (select_where (is_abandoned db) db.hosted_checkouts)

  abbrev is_notified : List ℕ → List ℕ → HostedRow → Bool
  is_notified checkout_ids hold_ids k =
      is_one_of checkout_ids k.provider_checkout_id || is_one_of hold_ids k.hold_id

  -- With what the provider's signature check made of the body, `none` when it failed.
  unfoldable pub payment_webhook : CheckoutCause → Option (List ℕ × List ℕ) → M Bool
  payment_webhook cause none = pure false
  payment_webhook cause (some verified) = do
    db ← get
    reconcile_each cause (
        map (λ (k : HostedRow). k.provider_checkout_id)
          (select_where (is_notified verified.0 verified.1) db.hosted_checkouts))
    pure true

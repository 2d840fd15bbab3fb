-- ===== src/Sales/Payment.antt =====
-- src/sales/payment.ts: paid checkout. This file has the rows it joins and the statements that
-- its operations share; the operations are in the files below it.
-- `clock k` is the k-th reading of the clock in a call, and made-up ids are arguments.
-- The payment provider (src/sales/payments/ports.ts) is an interface to code outside.
pub mod Rows
pub mod Entitle
pub mod Take
pub mod Issue
pub mod Pay
pub mod Release
use kippu_api.Base.{
  ℕ, ltb, Bool, true, false, ◌&&◌, ◌||◌, Option, none, some, ◌∷◌, ◌==◌, same, if◌then◌else◌,
  exists_where, find_where, count_where, update_where,
}
use kippu_api.Store.{
  Error, checkout_error, unknown_checkout, hold_required, failure, Try, ok, fail, Hold,
  is_outstanding, CheckoutSession, HostedRow, HostedStatus, is_open, PrimarySale, RefundEntitlement,
  RefundReason, refund_entitled, Db, M, ◌>>=◌, ◌>>◌, get, modify, pure, throw,
}
use kippu_api.Sales.Holds.{is_checkout, end_hold}
use kippu_api.Sales.Audit.{CheckoutCause, record_checkout_step}

-- A hosted checkout, as the provider reports it.
pub record HostedCheckout : Type 0 where
  pub id : ℕ
  pub url : ℕ
  pub status : HostedStatus
  pub amount : ℕ
  pub asset : ℕ
  pub hold_id : Option ℕ

pub record CreateHostedCheckout : Type 0 where
  pub hold_id : ℕ
  -- the class's name; `none` stands for "Ticket"
  pub description : Option ℕ
  pub amount : ℕ
  pub asset : ℕ
  pub expires_at : ℕ
  pub success_url : ℕ
  pub cancel_url : ℕ
  pub webhook_url : ℕ

-- The provider's answers while an operation runs; a call may throw.
pub record Provider : Type 0 where
  pub create_checkout : CreateHostedCheckout → Try HostedCheckout
  pub retrieve : ℕ → Try HostedCheckout
  pub cancel : ℕ → Try HostedCheckout

-- HOLD_COLUMNS: a hold joined with its checkout session.
pub record HoldRow : Type 0 where
  pub hold : Hold
  pub open hold use *
  pub holder_account : Option ℕ
  pub linked_session_id : Option ℕ
  pub link_confirmed_at : Option ℕ

abbrev pub joined : Hold → CheckoutSession → HoldRow
joined h c = record {
  hold = h;
  holder_account = c.holder_account;
  linked_session_id = c.linked_session_id;
  link_confirmed_at = c.link_confirmed_at;
}

abbrev pub has_id : ℕ → Hold → Bool
has_id id h = h.id == id

-- The hold of a checkout's token, given the hash of the token.
unfoldable pub hold_by_token : ℕ → Db → Try HoldRow
hold_by_token token_hash db =
    elim (find_where (λ (c : CheckoutSession). c.token_hash == token_hash) db.checkout_sessions) [
      | none ↦ fail (checkout_error unknown_checkout)
      | some c ↦ elim (find_where (is_checkout c.id) db.holds) [
        | none ↦ fail (checkout_error hold_required)
        | some h ↦ ok (joined h c)
      ]
    ]

-- The hold of a hosted checkout. Without a row the code reads a field of `undefined`.
unfoldable pub hold_row : ℕ → Db → Try HoldRow
hold_row hold_id db = elim (find_where (has_id hold_id) db.holds) [
  | none ↦ fail failure
  | some h ↦
      elim (find_where (λ (c : CheckoutSession). c.id == h.checkout_id) db.checkout_sessions) [
        | none ↦ fail failure
        | some c ↦ ok (joined h c)
      ]
]

abbrev pub is_open_of : ℕ → HostedRow → Bool
is_open_of hold_id k = k.hold_id == hold_id && is_open k.status

unfoldable pub open_hosted : ℕ → Db → Option HostedRow
open_hosted hold_id db = find_where (is_open_of hold_id) db.hosted_checkouts

unfoldable pub record_status : ℕ → HostedStatus → ℕ → Db → Db
record_status id status at db = record db {
  hosted_checkouts =
      update_where (λ (k : HostedRow). k.id == id)
        (λ (k : HostedRow). record k { status = status; updated_at = at }) db.hosted_checkouts;
}

abbrev pub releases_hold : ℕ → Hold → Bool
releases_hold hold_id h = has_id hold_id h && is_outstanding h.status

-- Answers how many holds were released.
unfoldable pub release_hold : ℕ → ℕ → M ℕ
release_hold hold_id at = do
  db ← get
  modify λ db. record db { holds = update_where (releases_hold hold_id) (end_hold at) db.holds }
  pure (count_where (releases_hold hold_id) db.holds)

abbrev pub refunds_hosted : ℕ → RefundEntitlement → Bool
refunds_hosted hosted_id r = r.hosted_checkout_id == hosted_id

abbrev pub sells_hosted : ℕ → PrimarySale → Bool
sells_hosted hosted_id s = s.hosted_checkout_id == hosted_id

unfoldable pub record_refund :
    CheckoutCause → HostedRow → ℕ → ℕ → ℕ → RefundReason → ℕ → ℕ → M (Unit {0})
record_refund cause hosted checkout_id amount asset reason refund_id at = do
  modify λ db. record db {
    refund_entitlements =
        record {
          id = refund_id;
          hosted_checkout_id = hosted.id;
          checkout_id = checkout_id;
          amount = amount;
          asset = asset;
          reason = reason;
          created_at = at;
          ticket = none;
          purchaser_account = none;
          holder_at_cancellation = none;
        }
        ∷ db.refund_entitlements;
  }
  record_checkout_step checkout_id refund_entitled cause at

-- The rows that an entitlement references: its hosted checkout and its checkout session.
unfoldable pub has_references : ℕ → ℕ → Db → Bool
has_references hosted_id checkout_id db =
    exists_where (λ (h : HostedRow). h.id == hosted_id) db.hosted_checkouts
    && exists_where (λ (c : CheckoutSession). c.id == checkout_id) db.checkout_sessions

-- The INSERT, which the foreign keys refuse where a row is missing, and its recorded step.
unfoldable pub insert_refund :
    CheckoutCause → HostedRow → ℕ → ℕ → ℕ → RefundReason → ℕ → ℕ → M (Unit {0})
insert_refund cause hosted checkout_id amount asset reason refund_id at = do
  db ← get
  if has_references hosted.id checkout_id db
      then record_refund cause hosted checkout_id amount asset reason refund_id at
      else throw failure

-- INSERT … ON CONFLICT (hosted_checkout_id) DO NOTHING. CHECK (amount > 0) is looked at first.
unfoldable pub entitle : CheckoutCause → HostedRow → ℕ → ℕ → ℕ → RefundReason → ℕ → ℕ → M (Unit {0})
entitle cause hosted checkout_id amount asset reason refund_id at = do
  db ← get
  if ltb 0 amount
      then (if exists_where (refunds_hosted hosted.id) db.refund_entitlements
          then pure tt
          else insert_refund cause hosted checkout_id amount asset reason refund_id at)
      else throw failure

-- Whether a payment led to a sale or a refund already.
unfoldable pub is_handled : ℕ → Db → Bool
is_handled hosted_id db =
    exists_where (sells_hosted hosted_id) db.primary_sales
    || exists_where (refunds_hosted hosted_id) db.refund_entitlements

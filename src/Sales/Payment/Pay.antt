-- ===== src/Sales/Payment/Pay.antt =====
-- `pay` and `cancel` of src/sales/payment.ts: a hosted checkout for an outstanding hold.
use kippu_api.Base.{
  ℕ, ◌+◌, Bool, true, false, not, ◌&&◌, ◌||◌, Option, none, some, ◌∷◌, ◌==◌, leb, is_some,
  if◌then◌else◌, find_where, update_where,
}
use kippu_api.Store.{
  Error, checkout_error, link_unconfirmed, already_paid, hold_ended, sales_closed_code,
  refused_request, bad_request, Try, ok, fail, Ledger, TicketOf, Hold, is_outstanding, is_issuing,
  is_confirmed, HostedRow, HostedStatus, open_status, paid, expired, cancelled_status, is_paid,
  TicketClass, payment_started, checkout_cancelled, Db, M, done, threw, ◌>>=◌, ◌>>◌, get, modify,
  pure, throw, lift, in_transaction,
}
use kippu_api.Sales.Allocation.{sales_closed}
use kippu_api.Sales.Audit.{record_checkout_step}
use kippu_api.Sales.Holds.{hold_extension_ms, SalesRequest, cause_of}
use kippu_api.Sales.Payment.{
  HostedCheckout, CreateHostedCheckout, Provider, HoldRow, has_id, hold_by_token, open_hosted,
  record_status, release_hold,
}
use kippu_api.Sales.Payment.Issue.{Relay, reconcile}

pub record PayCheckoutInput : Type 0 where
  pub token_hash : ℕ
  pub success_url : ℕ
  pub cancel_url : ℕ

-- What a transaction of `pay` answers: the payment, or a hosted checkout that is paid already.
pub data PayAnswer : Type 0 where
  payment : HostedRow → PayAnswer
  paid_first : (provider_checkout_id : ℕ) → PayAnswer

abbrev check : Bool → Error → Try (Unit {0})
check true e = ok tt
check false e = fail e

infixl 5 ◌then_try◌
abbrev ◌then_try◌ : Try (Unit {0}) → Try (Unit {0}) → Try (Unit {0})
ok _ then_try r = r
fail e then_try r = fail e

-- The checks before a payment starts, in order.
unfoldable pub payable : HoldRow → ℕ → Db → Try (Unit {0})
payable row at db =
    check (is_some row.link_confirmed_at && is_some row.holder_account)
      (checkout_error link_unconfirmed)
    then_try check (not (is_issuing row.status || is_confirmed row.status))
        (checkout_error already_paid)
    then_try check (is_outstanding row.status && not (leb row.expires_at at))
        (checkout_error hold_ended)
    then_try check (is_some row.price && is_some row.asset) (refused_request bad_request none)
    then_try check (not (sales_closed row.event db)) (checkout_error sales_closed_code)

-- UPDATE holds SET expires_at, extended_at WHERE id
abbrev pub extended : ℕ → ℕ → Hold → Hold
extended expires_at at h = record h { expires_at = expires_at; extended_at = some at }

-- The hold's single extension is taken unless it was.
abbrev pub expiry_of : HoldRow → ℕ
expiry_of row =
    if is_some row.extended_at then row.expires_at else row.expires_at + hold_extension_ms

unfoldable pub take_extension : HoldRow → ℕ → Db → Db
take_extension row at db = if is_some row.extended_at then db else record db {
  holds = update_where (has_id row.id) (extended (row.expires_at + hold_extension_ms) at) db.holds;
}

abbrev value_of : Option ℕ → ℕ
value_of none = 0
value_of (some n) = n

module _ (provider : Provider) (webhook_url : ℕ) (request : SalesRequest) (input : PayCheckoutInput)
    (at hosted_id : ℕ) where
  -- The class's name is what the buyer is shown.
  abbrev creation : HoldRow → Db → CreateHostedCheckout
  creation row db = record {
    hold_id = row.id;
    description =
        elim (find_where (λ (c : TicketClass). c.id == row.class_id && c.event == row.event)
          db.ticket_classes) [ none ↦ none | some c ↦ some c.name ];
    amount = value_of row.price;
    asset = value_of row.asset;
    expires_at = expiry_of row;
    success_url = input.success_url;
    cancel_url = input.cancel_url;
    webhook_url = webhook_url;
  }

  abbrev pub hosted_row : HoldRow → HostedCheckout → HostedRow
  hosted_row row created = record {
    id = hosted_id;
    hold_id = row.id;
    provider_checkout_id = created.id;
    url = created.url;
    amount = value_of row.price;
    asset = value_of row.asset;
    status = open_status;
    expires_at = expiry_of row;
    created_request_id = request.request_id;
    created_at = at;
    updated_at = at;
  }

  -- Extends the hold and creates its hosted checkout.
  unfoldable pub start_payment : HoldRow → M PayAnswer
  start_payment row = do
    modify (take_extension row at)
    db ← get
    created ← lift (provider.create_checkout (creation row db))
    modify λ db. record db { hosted_checkouts = hosted_row row created ∷ db.hosted_checkouts }
    record_checkout_step row.checkout_id payment_started (cause_of request) at
    pure (payment (hosted_row row created))

  -- What becomes of a hosted checkout that is open in the store, by the provider's status.
  unfoldable pub pay_reopened :
      HoldRow → HostedRow → HostedCheckout → ℕ → HostedStatus → M PayAnswer
  pay_reopened row existing remote noted_at open_status = pure (payment existing)
  pay_reopened row existing remote noted_at paid = do
    modify (record_status existing.id remote.status noted_at)
    pure (paid_first existing.provider_checkout_id)
  pay_reopened row existing remote noted_at expired = do
    modify (record_status existing.id remote.status noted_at)
    start_payment row
  pay_reopened row existing remote noted_at cancelled_status = do
    modify (record_status existing.id remote.status noted_at)
    start_payment row

  unfoldable pub pay_open : HoldRow → ℕ → Option HostedRow → M PayAnswer
  pay_open row noted_at none = start_payment row
  pay_open row noted_at (some existing) = do
    remote ← lift (provider.retrieve existing.provider_checkout_id)
    pay_reopened row existing remote noted_at remote.status

  unfoldable pub pay_transaction : ℕ → M PayAnswer
  pay_transaction noted_at = in_transaction do
    db ← get
    row ← lift (hold_by_token input.token_hash db)
    lift (payable row at db)
    pay_open row noted_at (open_hosted row.id db)

-- `.catch(onError)`
abbrev pub swallow : M (Unit {0}) → M (Unit {0})
swallow m db = elim (m db) [ done _ db' ↦ done tt db' | threw _ db' ↦ done tt db' ]

module _ (ledger : Ledger) (ticket_of : TicketOf) (provider : Provider) (relay : Relay)
    (webhook_url : ℕ) (clock issue_clock : ℕ → ℕ) (refund_id sale_id : ℕ) where
  -- A checkout that turns out paid is reconciled before the call throws.
  unfoldable pub pay_answered : SalesRequest → PayAnswer → M HostedRow
  pay_answered request (payment row) = pure row
  pay_answered request (paid_first id) = do
    swallow (
        reconcile ledger ticket_of provider relay (cause_of request) clock issue_clock refund_id
          sale_id id)
    throw (checkout_error already_paid)

  unfoldable pub pay : SalesRequest → PayCheckoutInput → ℕ → ℕ → ℕ → M HostedRow
  pay request input at hosted_id noted_at = do
    answer ← pay_transaction provider webhook_url request input at hosted_id noted_at
    pay_answered request answer

-- Cancels a hold's hosted checkout. Answers whether it turned out paid.
unfoldable pub cancel_hosted : Provider → HostedRow → ℕ → M Bool
cancel_hosted provider hosted at = do
  remote ← lift (provider.cancel hosted.provider_checkout_id)
  if is_paid remote.status
      then pure true
      else (modify (record_status hosted.id remote.status at) >> pure false)

module _ (ledger : Ledger) (ticket_of : TicketOf) (provider : Provider) (relay : Relay)
    (clock issue_clock : ℕ → ℕ) (refund_id sale_id : ℕ) (request : SalesRequest) where
  -- Unpaid: the hold is released.
  unfoldable pub cancel_unpaid : HoldRow → ℕ → Bool → Option ℕ → M (Option ℕ)
  cancel_unpaid row at true id = pure id
  cancel_unpaid row at false id = do
    _ ← release_hold row.id at
    record_checkout_step row.checkout_id checkout_cancelled (cause_of request) at
    pure none

  unfoldable pub cancel_open : HoldRow → ℕ → Option HostedRow → M (Option ℕ)
  cancel_open row at none = cancel_unpaid row at false none
  cancel_open row at (some existing) = do
    is_paid_first ← cancel_hosted provider existing at
    cancel_unpaid row at is_paid_first (some existing.provider_checkout_id)

  unfoldable pub cancel_hold : HoldRow → ℕ → Bool → M (Option ℕ)
  cancel_hold row at false = pure none
  cancel_hold row at true = do db ← get; cancel_open row at (open_hosted row.id db)

  unfoldable pub cancel_paid : Option ℕ → M (Unit {0})
  cancel_paid none = pure tt
  cancel_paid (some id) =
      reconcile ledger ticket_of provider relay (cause_of request) clock issue_clock refund_id
        sale_id id

  -- `at` stands for the readings of the clock in the transaction.
  unfoldable pub cancel : ℕ → ℕ → M (Unit {0})
  cancel token_hash at = do
    paid_id ← in_transaction do
      db ← get
      row ← lift (hold_by_token token_hash db)
      cancel_hold row at (is_outstanding row.status)
    cancel_paid paid_id

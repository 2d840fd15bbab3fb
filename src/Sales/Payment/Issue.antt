-- ===== src/Sales/Payment/Issue.antt =====
-- `issue` and `reconcile` of src/sales/payment.ts: the ticket of a paid hold is issued through the
-- organiser's authority, and the outcome recorded. The submission itself (`OrganiserAuthority`
-- and the SDK) is the argument `relay`.
pub mod Outcomes
use kippu_api.Base.{
  ℕ, Bool, true, false, not, ltb, exists_where, ◌||◌, ◌&&◌, Option, none, some, ◌∷◌, ◌==◌, same,
  is_some, if◌then◌else◌, find_where, update_where,
}
use kippu_api.Store.{
  SpecCode, Error, failure, throw, Try, ok, fail, Ledger, TicketOf, Provenance, purchased,
  Restrictions, Hold, confirmed, released, is_issuing, HostedRow, HostedStatus, paid, is_paid,
  PrimarySale, SaleStatus, issued, rejected_sale, failed_sale, FaceValue, TicketClass,
  OrganiserEvent, issuance_rejected, issued_step, issuance_rejected_step, issuance_failed, Db, M,
  Outcome, done, threw, ◌>>=◌, ◌>>◌, get, modify, pure, lift, in_transaction,
}
use kippu_api.Sales.Audit.{CheckoutCause, record_checkout_step}
use kippu_api.Sales.Payment.{HostedCheckout, Provider, HoldRow, has_id, record_status, entitle}
use kippu_api.Sales.Payment.Take.{take_place}

-- How an issuance ended.
pub data Completion : Type 0 where
  completed_issued : (ticket cursor : ℕ) → Completion
  completed_rejected : Option SpecCode → Completion
  completed_failed : Completion

-- The command that is signed and submitted. A position stands for a seated placement.
pub record IssueCommand : Type 0 where
  pub event : ℕ
  pub zone : ℕ
  pub position : Option ℕ
  pub class_id : ℕ
  pub provenance : Provenance
  pub policy : ℕ
  pub restrictions : Restrictions
  pub holder : Option ℕ

-- What the ledger answered to a submission, if it answered.
pub data Verdict : Type 0 where
  receipt : (cursor : ℕ) → Verdict
  refusal : SpecCode → Verdict
  no_verdict : Verdict

-- What became of a write that was to be relayed.
pub data Relayed : Type 0 where
  not_signed : Relayed
  submitted : (ticket : ℕ) (operation : Option ℕ) → Verdict → Relayed

abbrev pub Relay : Type 0
Relay = (organiser_id : ℕ) → IssueCommand → Relayed

abbrev pub is_sale : ℕ → PrimarySale → Bool
is_sale sale_id s = s.id == sale_id

-- COALESCE(a, b)
abbrev coalesce : Option ℕ → Option ℕ → Option ℕ
coalesce (some a) b = some a
coalesce none b = b

abbrev pub complete_sale :
    SaleStatus → Option ℕ → Option ℕ → Option SpecCode → ℕ → PrimarySale → PrimarySale
complete_sale status ticket cursor code at s = record s {
  status = status;
  ticket = coalesce ticket s.ticket;
  receipt_cursor = cursor;
  error_code = code;
  completed_at = some at;
}

abbrev pub update_sale : ℕ → (PrimarySale → PrimarySale) → Db → Db
update_sale sale_id f db = record db {
  primary_sales = update_where (is_sale sale_id) f db.primary_sales;
}

-- SET status = 'confirmed', confirmed_at, where `confirm_place` finds that no constraint refuses it
abbrev pub confirm_hold : ℕ → Hold → Hold
confirm_hold at h = record h { status = confirmed; confirmed_at = some at }

-- WHERE id = $1 AND status = 'issuing'
abbrev pub gives_back : ℕ → Hold → Bool
gives_back hold_id h = has_id hold_id h && is_issuing h.status

abbrev pub give_back : ℕ → Hold → Hold
give_back at h = record h { status = released; ended_at = some at }

-- The sale is rejected and the place given back.
abbrev pub rejected_db : ℕ → ℕ → ℕ → ℕ → Option SpecCode → Db → Db
rejected_db at ended sale_id hold_id code db =
    record (update_sale sale_id (complete_sale rejected_sale none none code at) db) {
      holds = update_where (gives_back hold_id) (give_back ended) db.holds;
    }

module _ (cause : CheckoutCause) (hosted : HostedRow) (clock : ℕ → ℕ) (refund_id sale_id : ℕ)
    (row : HoldRow) where
  -- holds_ended CHECK: a hold that has ended cannot be confirmed.
  abbrev pub is_ended_hold : Hold → Bool
  is_ended_hold h = has_id row.id h && is_some h.ended_at

  unfoldable pub confirm_place : ℕ → M (Unit {0})
  confirm_place at = do
    db ← get
    if exists_where is_ended_hold db.holds
        then throw failure
        else modify
            λ db. record db { holds = update_where (has_id row.id) (confirm_hold at) db.holds }

  -- A row that the keys of face_values let a ticket's share: its PRIMARY KEY and UNIQUE (sale_id).
  abbrev pub has_face_value : ℕ → FaceValue → Bool
  has_face_value ticket f = f.ticket == ticket || f.sale_id == sale_id

  -- The keys, the foreign keys, and CHECK (amount > 0).
  abbrev pub is_recordable : ℕ → ℕ → Db → Bool
  is_recordable ticket amount db =
      ltb 0 amount
      && not (exists_where (has_face_value ticket) db.face_values)
      && exists_where (is_sale sale_id) db.primary_sales
      && exists_where (λ (c : TicketClass). c.id == row.class_id) db.ticket_classes

  abbrev pub face_value_of : ℕ → ℕ → ℕ → ℕ → FaceValue
  face_value_of ticket amount asset at = record {
    ticket = ticket;
    event = row.event;
    class_id = row.class_id;
    sale_id = sale_id;
    amount = amount;
    asset = asset;
    recorded_at = at;
  }

  -- The hold's price and asset: the columns are NOT NULL.
  unfoldable pub insert_face_value : ℕ → ℕ → Option ℕ → Option ℕ → M (Unit {0})
  insert_face_value ticket at (some amount) (some asset) = do
    db ← get
    if is_recordable ticket amount db
        then modify (λ db. record db {
          face_values = face_value_of ticket amount asset at ∷ db.face_values;
        })
        else throw failure
  insert_face_value ticket at _ _ = throw failure

  unfoldable pub complete_by : Completion → M (Unit {0})
  complete_by (completed_issued ticket cursor) = do
    modify (update_sale sale_id (complete_sale issued (some ticket) (some cursor) none (clock 0)))
    confirm_place (clock 1)
    insert_face_value ticket (clock 2) row.price row.asset
    record_checkout_step row.checkout_id issued_step cause (clock 3)
  complete_by (completed_rejected code) = do
    modify (rejected_db (clock 0) (clock 1) sale_id row.id code)
    record_checkout_step row.checkout_id issuance_rejected_step cause (clock 2)
    entitle cause hosted row.checkout_id hosted.amount hosted.asset issuance_rejected refund_id
        (clock 3)
  complete_by completed_failed = do
    modify (update_sale sale_id (complete_sale failed_sale none none none (clock 0)))
    record_checkout_step row.checkout_id issuance_failed cause (clock 1)

  unfoldable pub complete : Completion → M (Unit {0})
  complete c = in_transaction (complete_by c)

  -- `UPDATE primary_sales SET ticket`, and the operation's id where something was signed
  unfoldable pub record_submission : ℕ → Option ℕ → M (Unit {0})
  record_submission ticket operation = do
    modify (update_sale sale_id (λ (s : PrimarySale). record s { ticket = some ticket }))
    if is_some operation
        then modify
            (update_sale sale_id (λ (s : PrimarySale). record s { operation_id = operation }))
        else pure tt

  abbrev pub completion_of : ℕ → Verdict → Completion
  completion_of ticket (receipt cursor) = completed_issued ticket cursor
  completion_of ticket (refusal code) = completed_rejected (some code)
  completion_of ticket no_verdict = completed_failed

  unfoldable pub issue_relayed : Relayed → M (Unit {0})
  issue_relayed not_signed = complete (completed_rejected none)
  issue_relayed (submitted ticket operation verdict) = do
    record_submission ticket operation
    complete (completion_of ticket verdict)

  abbrev pub issue_command : TicketClass → IssueCommand
  issue_command c = record {
    event = row.event;
    zone = row.zone;
    position = row.position;
    class_id = row.class_id;
    provenance = purchased;
    policy = c.policy;
    restrictions = record { cannot_resale = false; cannot_transfer = false };
    holder = row.holder_account;
  }

  -- The write that the organiser and the class determine; without them nothing is signed.
  abbrev pub relayed_by : Relay → Option OrganiserEvent → Option TicketClass → Relayed
  relayed_by relay (some o) (some c) = relay o.organiser_id (issue_command c)
  relayed_by relay _ _ = not_signed

  unfoldable pub issue : Relay → M (Unit {0})
  issue relay = do
    db ← get
    issue_relayed (
        relayed_by relay
          (find_where (λ (o : OrganiserEvent). o.event == row.event) db.organiser_events)
          (find_where (λ (c : TicketClass). c.id == row.class_id && c.event == row.event)
            db.ticket_classes))

module _ (ledger : Ledger) (ticket_of : TicketOf) (provider : Provider) (relay : Relay)
    (cause : CheckoutCause) (clock issue_clock : ℕ → ℕ) (refund_id sale_id : ℕ) where
  unfoldable pub issue_taken : HostedRow → Option HoldRow → M (Unit {0})
  issue_taken hosted none = pure tt
  issue_taken hosted (some row) = issue cause hosted issue_clock refund_id sale_id row relay

  -- A payment is trusted once the provider reports it paid, for the hold.
  unfoldable pub reconcile_paid : HostedRow → HostedCheckout → Bool → Bool → M (Unit {0})
  reconcile_paid hosted remote false is_paid = pure tt
  reconcile_paid hosted remote true false = modify (record_status hosted.id remote.status (clock 0))
  reconcile_paid hosted remote true true = do
    taken ← take_place ledger ticket_of cause hosted remote clock refund_id sale_id
    issue_taken hosted taken

  unfoldable pub reconcile_hosted : ℕ → Option HostedRow → M (Unit {0})
  reconcile_hosted provider_checkout_id none = pure tt
  reconcile_hosted provider_checkout_id (some hosted) = do
    remote ← lift (provider.retrieve provider_checkout_id)
    reconcile_paid hosted remote (same remote.hold_id (some hosted.hold_id)) (is_paid remote.status)

  unfoldable pub reconcile : ℕ → M (Unit {0})
  reconcile provider_checkout_id = do
    db ← get
    reconcile_hosted provider_checkout_id (
        find_where (λ (k : HostedRow). k.provider_checkout_id == provider_checkout_id)
          db.hosted_checkouts)

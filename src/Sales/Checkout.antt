-- ===== src/Sales/Checkout.antt =====
-- src/sales/checkout.ts: checkout sessions, their link to a holder account, and their hold.
-- Tokens, hashes and the digest of the pairing code come from the runtime's crypto library, and
-- the normal form of a seat's designation from its Unicode tables: parameters.
pub mod Link
pub mod Begin
use Prim.Native.Nat.{◌%◌}
use kippu_api.Base.{
  ℕ, ◌+◌, Bool, true, false, not, ◌&&◌, ◌||◌, Option, none, some, List, [], ◌∷◌, ◌==◌, same, ltb,
  leb, is_some, if◌then◌else◌, count_where, find_where, select_where, update_where,
}
use kippu_api.Store.{
  Error, spec, refused_request, bad_request, checkout_error, unknown_checkout, account_required,
  link_unconfirmed, not_pairing, pairing_code_mismatch, linked_to_another_account, unknown_class,
  unknown_zone, zone_kind_mismatch, Try, ok, fail, ZoneKind, seated, unseated, Zone, Event,
  Provenance, Ledger, TicketOf, Hold, HoldStatus, lapsed, is_outstanding, TicketClass,
  CheckoutSession, HostedRow, PrimarySale, SaleStatus, issued, RefundEntitlement, SeatPosition,
  CheckoutStep, begun, linked, link_confirmed, link_discarded, Db, M, Outcome, ◌>>=◌, ◌>>◌, get,
  modify, pure, throw, lift, in_transaction,
}
use kippu_api.Sales.Allocation.{is_purchased, AllocationTarget}
use kippu_api.Sales.OnSale.{event_on_sale}
use kippu_api.Sales.Audit.{
  CheckoutActor, holder, CheckoutCause, session_of, holder_of, record_checkout_step,
}
use kippu_api.Sales.Holds.{HoldRefusal, SalesRequest, cause_of, is_checkout, place}

-- 60 * 60 * 1000
abbrev pub checkout_lifetime_ms : ℕ
checkout_lifetime_ms = 3600000

-- 10 ** PAIRING_CODE_DIGITS
abbrev pub pairing_codes : ℕ
pairing_codes = 1000000

pub record Secrets : Type 0 where
  pub hash_secret : ℕ → ℕ
  -- handoffTokenOf, by token and generation
  pub handoff_token_of : ℕ → ℕ → ℕ
  -- the digest's first word, by token hash, handoff token hash and account
  pub digest : ℕ → ℕ → ℕ → ℕ

pub data PlacementInput : Type 0 where
  seated_at : (designation : ℕ) → PlacementInput
  unseated_at : PlacementInput

pub record BeginCheckoutInput : Type 0 where
  pub event : ℕ
  pub zone : ℕ
  pub class_id : ℕ
  pub placement : PlacementInput

-- SELECT_CHECKOUT: a session, its hold, and the latest of its payments and sales.
pub record CheckoutRow : Type 0 where
  pub session : CheckoutSession
  pub open session use *
  pub hold : Option Hold
  pub payment : Option HostedRow
  pub sale : Option PrimarySale
  pub refund : Option RefundEntitlement

pub data CheckoutAccount : Type 0 where
  handoff : (handoff_token : ℕ) → CheckoutAccount
  pairing : (pairing_code : ℕ) → CheckoutAccount
  linked_to : (account : ℕ) → CheckoutAccount

pub record CheckoutHold : Type 0 where
  pub status : HoldStatus
  pub expires_at : ℕ
  pub is_extended : Bool
  pub asset : Option ℕ
  pub price : Option ℕ

-- What a buyer sees of a checkout.
pub record Checkout : Type 0 where
  pub event : ℕ
  pub zone : ℕ
  pub class_id : ℕ
  pub position : Option ℕ
  pub account : CheckoutAccount
  pub hold : Option CheckoutHold
  pub payment : Option HostedRow
  pub sale : Option PrimarySale
  pub refund : Option RefundEntitlement
  pub is_ticket_visible : Bool
  pub created_at : ℕ
  pub expires_at : Option ℕ

-- The first row of SELECT … ORDER BY, by which of two rows comes before the other.
unfoldable pub first_by {ℓ} : {A : Type ℓ} → (A → A → Bool) → List A → Option A
first_by before [] = none
first_by before (x ∷ xs) = elim (first_by before xs) [
  | none ↦ some x
  | some y ↦ some (if before x y then x else y)
]

-- ORDER BY created_at DESC, id
abbrev is_newer : ℕ → ℕ → ℕ → ℕ → Bool
is_newer at id at' id' = ltb at' at || (at == at' && leb id id')

abbrev payment_of : ℕ → Db → Option HostedRow
payment_of hold_id db =
    first_by (λ (x y : HostedRow). is_newer x.created_at x.id y.created_at y.id)
      (select_where (λ (k : HostedRow). k.hold_id == hold_id) db.hosted_checkouts)

abbrev sale_of : ℕ → Db → Option PrimarySale
sale_of hold_id db =
    first_by (λ (x y : PrimarySale). is_newer x.created_at x.id y.created_at y.id)
      (select_where (λ (s : PrimarySale). s.hold_id == hold_id) db.primary_sales)

-- ORDER BY created_at, id
abbrev refund_of : ℕ → Db → Option RefundEntitlement
refund_of checkout_id db =
    first_by
      (λ (x y : RefundEntitlement).
        ltb x.created_at y.created_at || (x.created_at == y.created_at && leb x.id y.id))
      (select_where (λ (r : RefundEntitlement). r.checkout_id == checkout_id)
        db.refund_entitlements)

abbrev of_hold {ℓ} : {A : Type ℓ} → (ℕ → Db → Option A) → Option Hold → Db → Option A
of_hold read none db = none
of_hold read (some h) db = read h.id db

unfoldable pub checkout_row : CheckoutSession → Db → CheckoutRow
checkout_row c db =
    let h = find_where (is_checkout c.id) db.holds in
    record {
      session = c;
      hold = h;
      payment = of_hold payment_of h db;
      sale = of_hold sale_of h db;
      refund = refund_of c.id db;
    }

abbrev pub expires_at_of : CheckoutSession → Option Hold → Option ℕ
expires_at_of c none = some (c.created_at + checkout_lifetime_ms)
expires_at_of c (some _) = none

abbrev is_past : Option ℕ → ℕ → Bool
is_past none at = false
is_past (some expires_at) at = leb expires_at at

-- The live checkout that a test finds; an expired one is gone.
unfoldable pub find_by : (CheckoutSession → Bool) → ℕ → Db → Try CheckoutRow
find_by test at db = elim (find_where test db.checkout_sessions) [
  | none ↦ fail (checkout_error unknown_checkout)
  | some c ↦
      if is_past (expires_at_of c (find_where (is_checkout c.id) db.holds)) at
      then fail (checkout_error unknown_checkout)
      else ok (checkout_row c db)
]

abbrev shown_hold : ℕ → Hold → CheckoutHold
shown_hold at h = record {
  status = if is_outstanding h.status && leb h.expires_at at then lapsed else h.status;
  expires_at = h.expires_at;
  is_extended = is_some h.extended_at;
  asset = h.asset;
  price = h.price;
}

module _ (secrets : Secrets) where
  abbrev pub by_token : ℕ → CheckoutSession → Bool
  by_token token c = c.token_hash == secrets.hash_secret token

  abbrev pub by_handoff : ℕ → CheckoutSession → Bool
  by_handoff token c = c.handoff_token_hash == secrets.hash_secret token

  abbrev pub pairing_code_of : CheckoutSession → ℕ → ℕ
  pairing_code_of c account =
      secrets.digest c.token_hash c.handoff_token_hash account % pairing_codes

  abbrev account_of : CheckoutSession → ℕ → Option ℕ → Option ℕ → CheckoutAccount
  account_of c token none confirmed_at =
      handoff (secrets.handoff_token_of token c.handoff_generation)
  account_of c token (some account) none = pairing (pairing_code_of c account)
  account_of c token (some account) (some _) = linked_to account

  unfoldable pub checkout_of : CheckoutRow → ℕ → ℕ → Checkout
  checkout_of row token at = record {
    event = row.event;
    zone = row.zone;
    class_id = row.class_id;
    position = row.position;
    account = account_of row.session token row.holder_account row.link_confirmed_at;
    hold = elim row.hold [ none ↦ none | some h ↦ some (shown_hold at h) ];
    payment = row.payment;
    sale = row.sale;
    refund = row.refund;
    is_ticket_visible = false;
    created_at = row.created_at;
    expires_at = expires_at_of row.session row.hold;
  }

  -- A fresh read of the checkout, by its token.
  abbrev pub read_checkout : ℕ → ℕ → M Checkout
  read_checkout token at = do
    db ← get
    row ← lift (find_by (by_token token) at db)
    pure (checkout_of row token at)

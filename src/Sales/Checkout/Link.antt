-- ===== src/Sales/Checkout/Link.antt =====
-- `linkCheckout`, `confirmLink` and `discardLink` of src/sales/checkout.ts.
pub mod Confirmed
use kippu_api.Base.{
  ℕ, suc, Bool, true, false, not, ◌&&◌, ◌||◌, Option, none, some, ◌==◌, same, is_some,
  if◌then◌else◌, count_where, update_where,
}
use kippu_api.Store.{
  Error, refused_request, bad_request, checkout_error, not_pairing, pairing_code_mismatch,
  linked_to_another_account, CheckoutSession, CheckoutStep, linked, link_confirmed, link_discarded,
  Db, M, ◌>>=◌, ◌>>◌, get, modify, pure, throw, lift, in_transaction,
}
use kippu_api.Sales.Audit.{CheckoutActor, holder, CheckoutCause, record_checkout_step}
use kippu_api.Sales.Holds.{SalesRequest, cause_of}
use kippu_api.Sales.Checkout.{
  Secrets, CheckoutRow, Checkout, find_by, by_token, by_handoff, pairing_code_of, read_checkout,
}

pub record HandoffLink : Type 0 where
  pub event : ℕ
  pub zone : ℕ
  pub class_id : ℕ
  pub position : Option ℕ
  pub pairing_code : ℕ

-- An UPDATE of checkout sessions, and its recorded step where it changed one row.
unfoldable pub update_session :
    (CheckoutSession → Bool)
    → (CheckoutSession → CheckoutSession)
    → ℕ
    → CheckoutStep
    → CheckoutCause
    → ℕ
    → M (Unit {0})
update_session test change id step cause at = do
  db ← get
  modify λ db. record db { checkout_sessions = update_where test change db.checkout_sessions }
  if count_where test db.checkout_sessions == 1
      then record_checkout_step id step cause at
      else pure tt

-- WHERE id AND handoff_generation AND holder_account IS NULL
abbrev pub is_unlinked : ℕ → ℕ → CheckoutSession → Bool
is_unlinked id generation c =
    c.id == id && c.handoff_generation == generation && not (is_some c.holder_account)

abbrev pub link_to : ℕ → ℕ → ℕ → ℕ → CheckoutSession → CheckoutSession
link_to account session_id request_id at c = record c {
  holder_account = some account;
  linked_session_id = some session_id;
  linked_request_id = some request_id;
  linked_at = some at;
}

-- WHERE id AND holder_account AND link_confirmed_at IS NULL
abbrev pub is_unconfirmed : ℕ → ℕ → CheckoutSession → Bool
is_unconfirmed id account c =
    c.id == id && same c.holder_account (some account) && not (is_some c.link_confirmed_at)

abbrev pub confirm_at : ℕ → ℕ → CheckoutSession → CheckoutSession
confirm_at request_id at c = record c {
  link_confirmed_at = some at;
  link_confirmed_request_id = some request_id;
}

-- WHERE id AND handoff_generation AND link_confirmed_at IS NULL
abbrev pub is_discardable : ℕ → ℕ → CheckoutSession → Bool
is_discardable id generation c =
    c.id == id && c.handoff_generation == generation && not (is_some c.link_confirmed_at)

abbrev pub discard_to : ℕ → ℕ → CheckoutSession → CheckoutSession
discard_to generation handoff_token_hash c = record c {
  holder_account = none;
  linked_session_id = none;
  linked_request_id = none;
  linked_at = none;
  handoff_generation = generation;
  handoff_token_hash = handoff_token_hash;
}

module _ (secrets : Secrets) (request : SalesRequest) (clock : ℕ → ℕ) where
  abbrev link_of : CheckoutRow → ℕ → HandoffLink
  link_of row account = record {
    event = row.event;
    zone = row.zone;
    class_id = row.class_id;
    position = row.position;
    pairing_code = pairing_code_of secrets row.session account;
  }

  unfoldable pub link_by : ℕ → CheckoutActor → M HandoffLink
  link_by handoff_token (holder account session_id) = do
    db ← get
    row ← lift (find_by (by_handoff secrets handoff_token) (clock 0) db)
    in_transaction (
        update_session (is_unlinked row.id row.handoff_generation)
          (link_to account session_id request.request_id (clock 1)) row.id linked (cause_of request)
          (clock 1))
    db' ← get
    now_row ← lift (find_by (by_handoff secrets handoff_token) (clock 2) db')
    if same now_row.holder_account (some account)
        then pure (link_of now_row account)
        else throw (checkout_error linked_to_another_account)
  link_by handoff_token _ = throw (refused_request bad_request none)

  unfoldable pub link_checkout : ℕ → M HandoffLink
  link_checkout handoff_token = link_by handoff_token request.principal

  unfoldable pub confirm_account : ℕ → ℕ → CheckoutRow → Option ℕ → M Checkout
  confirm_account token code row none = throw (checkout_error not_pairing)
  confirm_account token code row (some account) =
      if not (code == pairing_code_of secrets row.session account)
      then throw (checkout_error pairing_code_mismatch)
      else ((if is_some row.link_confirmed_at
            then pure tt
            else in_transaction (
                update_session (is_unconfirmed row.id account)
                  (confirm_at request.request_id (clock 1)) row.id link_confirmed (cause_of request)
                  (clock 1)))
          >> read_checkout secrets token (clock 2))

  unfoldable pub confirm_link : ℕ → ℕ → M Checkout
  confirm_link token code = do
    db ← get
    row ← lift (find_by (by_token secrets token) (clock 0) db)
    confirm_account token code row row.holder_account

  unfoldable pub discard_link : ℕ → M Checkout
  discard_link token = do
    db ← get
    row ← lift (find_by (by_token secrets token) (clock 0) db)
    if not (is_some row.holder_account) || is_some row.link_confirmed_at
        then throw (checkout_error not_pairing)
        else (in_transaction (
              update_session (is_discardable row.id row.handoff_generation)
                (discard_to (suc row.handoff_generation) (
                  secrets.hash_secret
                    (secrets.handoff_token_of token (suc row.handoff_generation))))
                row.id link_discarded (cause_of request) (clock 1))
            >> read_checkout secrets token (clock 2))

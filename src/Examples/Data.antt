-- ===== src/Examples/Data.antt =====
-- An event with a capacity of 2 and a sold class, a checkout session, and a hold of it.
use kippu_api.Base.{ℕ, false, Option, none, some, [], ◌∷◌}
use kippu_api.Store.{
  active, cancelled, EventStatus, unseated, Event, purchased, Restrictions, found, refused, Ledger,
  TicketOf, ticket_not_found, Hold, HoldStatus, outstanding, CheckoutSession, HostedRow,
  open_status, paid, issued, Db, ok,
}
use kippu_api.Sales.Audit.{CheckoutCause, anonymous, organiser}
use kippu_api.Sales.Holds.{HoldTarget, SalesRequest}
use kippu_api.Sales.Payment.{HostedCheckout, Provider, HoldRow}
use kippu_api.Sales.Payment.Issue.{Relay, submitted, receipt}
use kippu_api.Sales.Checkout.{Secrets}

abbrev pub event_with : EventStatus → Event
event_with status = record {
  owner = 7;
  status = status;
  max_capacity = some 2;
  issued = 0;
  zones = record { id = 1; kind = unseated } ∷ [];
}

abbrev pub no_limits : Restrictions
no_limits = record { cannot_resale = false; cannot_transfer = false }

abbrev pub ledger : Ledger
ledger = record {
  get_event = λ _. found (event_with active);
  get_ticket = λ _. refused ticket_not_found;
  get_cancellation_holder = λ _. found none;
}

-- The ledger once event 1 is cancelled; account 40 held ticket 500 then.
abbrev pub cancelled_ledger : Ledger
cancelled_ledger = record {
  get_event = λ _. found (event_with cancelled);
  get_ticket = λ _.
      found (record { event = 1; holder = 40; provenance = purchased; restrictions = no_limits });
  get_cancellation_holder = λ _. found (some 40);
}

abbrev pub ticket_of : TicketOf
ticket_of event zone position = position

abbrev pub accounts : ℕ → Option ℕ
accounts organiser_id = some 7

abbrev pub request : SalesRequest
request = record { request_id = 60; principal = anonymous }

abbrev pub cause : CheckoutCause
cause = record { request_id = 61; actor = organiser 3 62 }

abbrev pub clock : ℕ → ℕ
clock k = 100

abbrev pub hold_with : HoldStatus → Hold
hold_with status = record {
  id = 3;
  checkout_id = 2;
  event = 1;
  zone = 1;
  class_id = 5;
  position = none;
  status = status;
  expires_at = 600050;
  extended_at = none;
  ended_at = none;
  confirmed_at = none;
  created_request_id = 60;
  created_at = 50;
  asset = some 9;
  price = some 10;
}

abbrev pub session : CheckoutSession
session = record {
  id = 2;
  token_hash = 21;
  handoff_token_hash = 22;
  handoff_generation = 0;
  event = 1;
  zone = 1;
  class_id = 5;
  position = none;
  holder_account = some 40;
  linked_session_id = some 41;
  linked_request_id = some 60;
  linked_at = some 30;
  link_confirmed_at = some 31;
  link_confirmed_request_id = some 60;
  created_request_id = 60;
  created_at = 20;
}

abbrev pub hosted : HostedRow
hosted = record {
  id = 20;
  hold_id = 3;
  provider_checkout_id = 70;
  url = 71;
  amount = 10;
  asset = 9;
  status = open_status;
  expires_at = 600050;
  created_request_id = 60;
  created_at = 60;
  updated_at = 60;
}

abbrev pub remote : HostedCheckout
remote = record { id = 70; url = 71; status = paid; amount = 10; asset = 9; hold_id = some 3 }

abbrev pub provider : Provider
provider = record {
  create_checkout = λ _. ok remote;
  retrieve = λ _. ok remote;
  cancel = λ _. ok remote;
}

abbrev pub relay : Relay
relay organiser_id command = submitted 500 (some 80) (receipt 81)

abbrev pub store : Db
store = record {
  holds = hold_with outstanding ∷ [];
  ticket_classes =
      record {
        id = 5;
        event = 1;
        name = 51;
        provenance = purchased;
        policy = 52;
        restrictions = no_limits;
        quota = some 2;
        price = some 10;
        created_at = 10;
      }
      ∷ [];
  granted_issuances = [];
  event_sale_assets = record { event = 1; asset = 9 } ∷ [];
  event_sale_closures = [];
  checkout_sessions = session ∷ [];
  hosted_checkouts = hosted ∷ [];
  primary_sales = [];
  refund_entitlements = [];
  face_values = [];
  checkout_audit = [];
  seat_positions = [];
  organiser_events = record { event = 1; organiser_id = 3 } ∷ [];
  event_pass_windows = [];
  derived_tickets = [];
}

-- With the hold's ticket sold.
abbrev pub sold_store : Db
sold_store = record store {
  primary_sales =
      record {
        id = 90;
        hosted_checkout_id = 20;
        hold_id = 3;
        holder_account = some 40;
        status = issued;
        ticket = some 500;
        operation_id = some 80;
        receipt_cursor = some 81;
        error_code = none;
        created_at = 100;
        completed_at = some 110;
      }
      ∷ [];
}

abbrev pub second_target : HoldTarget
second_target = record {
  checkout_id = 4;
  target = record { event = 1; zone = 1; class_id = 5; position = none };
}

abbrev pub row : HoldRow
row = record {
  hold = hold_with outstanding;
  holder_account = some 40;
  linked_session_id = some 41;
  link_confirmed_at = some 31;
}

abbrev pub secrets : Secrets
secrets = record {
  hash_secret = λ x. x;
  handoff_token_of = λ token generation. token;
  digest = λ token_hash handoff_token_hash account. account;
}

-- ===== src/Store/Rows.antt =====
-- The tables of migrations/0008, 0012, 0016 to 0024, 0029, 0033 and 0034, with the columns that
-- the modelled operations read or write.
use Prim.Native.String.{String}
use kippu_api.Base.{ℕ, Bool, true, false, Option, List}
use kippu_api.Store.Errors.{SpecCode}
use kippu_api.Store.External.{Provenance, Restrictions}

pub data HoldStatus : Type 0 where
  outstanding lapsed released issuing confirmed : HoldStatus

abbrev pub is_outstanding : HoldStatus → Bool
is_outstanding outstanding = true
is_outstanding _ = false

abbrev pub is_issuing : HoldStatus → Bool
is_issuing issuing = true
is_issuing _ = false

abbrev pub is_confirmed : HoldStatus → Bool
is_confirmed confirmed = true
is_confirmed _ = false

abbrev pub is_ended : HoldStatus → Bool
is_ended lapsed = true
is_ended released = true
is_ended _ = false

pub record Hold : Type 0 where
  pub id : ℕ
  pub checkout_id : ℕ
  pub event : ℕ
  pub zone : ℕ
  pub class_id : ℕ
  pub position : Option ℕ
  pub status : HoldStatus
  pub expires_at : ℕ
  pub extended_at : Option ℕ
  pub ended_at : Option ℕ
  pub confirmed_at : Option ℕ
  pub created_request_id : ℕ
  pub created_at : ℕ
  pub asset : Option ℕ
  pub price : Option ℕ

pub record TicketClass : Type 0 where
  pub id : ℕ
  pub event : ℕ
  pub name : ℕ
  pub provenance : Provenance
  pub policy : ℕ
  pub restrictions : Restrictions
  pub quota : Option ℕ
  pub price : Option ℕ
  pub created_at : ℕ

pub data IssuanceStatus : Type 0 where
  pending settled rejected failed : IssuanceStatus

abbrev pub is_rejected : IssuanceStatus → Bool
is_rejected rejected = true
is_rejected _ = false

pub record GrantedIssuance : Type 0 where
  pub id : ℕ
  pub event : ℕ
  pub class_id : ℕ
  pub ticket : Option ℕ
  pub holder : ℕ
  pub organiser_id : ℕ
  pub request_id : ℕ
  pub status : IssuanceStatus
  pub operation_id : Option ℕ
  pub receipt_cursor : Option ℕ
  pub error_code : Option SpecCode
  pub created_at : ℕ
  pub completed_at : Option ℕ

pub record SaleAssetRow : Type 0 where
  pub event : ℕ
  pub asset : ℕ

pub record SaleClosure : Type 0 where
  pub event : ℕ
  pub closed_request_id : ℕ
  pub closed_at : ℕ
  pub reopened_request_id : Option ℕ
  pub reopened_at : Option ℕ

pub record CheckoutSession : Type 0 where
  pub id : ℕ
  pub token_hash : ℕ
  pub handoff_token_hash : ℕ
  pub handoff_generation : ℕ
  pub event : ℕ
  pub zone : ℕ
  pub class_id : ℕ
  pub position : Option ℕ
  pub holder_account : Option ℕ
  pub linked_session_id : Option ℕ
  pub linked_request_id : Option ℕ
  pub linked_at : Option ℕ
  pub link_confirmed_at : Option ℕ
  pub link_confirmed_request_id : Option ℕ
  pub created_request_id : ℕ
  pub created_at : ℕ

pub data HostedStatus : Type 0 where
  open_status paid expired cancelled_status : HostedStatus

abbrev pub is_open : HostedStatus → Bool
is_open open_status = true
is_open _ = false

abbrev pub is_paid : HostedStatus → Bool
is_paid paid = true
is_paid _ = false

pub record HostedRow : Type 0 where
  pub id : ℕ
  pub hold_id : ℕ
  pub provider_checkout_id : ℕ
  pub url : ℕ
  pub amount : ℕ
  pub asset : ℕ
  pub status : HostedStatus
  pub expires_at : ℕ
  pub created_request_id : ℕ
  pub created_at : ℕ
  pub updated_at : ℕ

pub data SaleStatus : Type 0 where
  issuing_sale issued rejected_sale failed_sale : SaleStatus

pub record PrimarySale : Type 0 where
  pub id : ℕ
  pub hosted_checkout_id : ℕ
  pub hold_id : ℕ
  pub holder_account : Option ℕ
  pub status : SaleStatus
  pub ticket : Option ℕ
  pub operation_id : Option ℕ
  pub receipt_cursor : Option ℕ
  pub error_code : Option SpecCode
  pub created_at : ℕ
  pub completed_at : Option ℕ

pub data RefundReason : Type 0 where
  issuance_rejected place_gone amount_mismatch event_closed event_cancelled_refund : RefundReason

pub record RefundEntitlement : Type 0 where
  pub id : ℕ
  pub hosted_checkout_id : ℕ
  pub checkout_id : ℕ
  pub amount : ℕ
  pub asset : ℕ
  pub reason : RefundReason
  pub created_at : ℕ
  pub ticket : Option ℕ
  pub purchaser_account : Option ℕ
  pub holder_at_cancellation : Option ℕ

pub record FaceValue : Type 0 where
  pub ticket : ℕ
  pub event : ℕ
  pub class_id : ℕ
  pub sale_id : ℕ
  pub amount : ℕ
  pub asset : ℕ
  pub recorded_at : ℕ

pub data CheckoutStep : Type 0 where
  begun linked link_confirmed link_discarded held hold_refused payment_started : CheckoutStep
  checkout_cancelled payment_verified issued_step issuance_rejected_step : CheckoutStep
  issuance_failed refund_entitled hold_released : CheckoutStep

-- A recorded step of a checkout; its JSON detail is left out.
pub record AuditStep : Type 0 where
  pub checkout_id : ℕ
  pub step : CheckoutStep
  pub request_id : ℕ
  pub actor : String
  pub session_id : Option ℕ
  pub holder_account : Option ℕ
  pub recorded_at : ℕ

-- The designations of a seated zone.
pub record SeatPosition : Type 0 where
  pub event : ℕ
  pub zone : ℕ
  pub designation : ℕ

-- Whose event it is: which organiser's authority signs for it.
pub record OrganiserEvent : Type 0 where
  pub event : ℕ
  pub organiser_id : ℕ

pub record PassWindow : Type 0 where
  pub event : ℕ
  pub window_ms : ℕ
  pub organiser_id : ℕ
  pub set_request_id : ℕ
  pub set_at : ℕ

-- The tickets that the derived copy of the ledger holds.
pub record DerivedTicket : Type 0 where
  pub id : ℕ
  pub event : ℕ
  pub is_seated : Bool
  pub provenance : Provenance

pub record Db : Type 0 where
  pub holds : List Hold
  pub ticket_classes : List TicketClass
  pub granted_issuances : List GrantedIssuance
  pub event_sale_assets : List SaleAssetRow
  pub event_sale_closures : List SaleClosure
  pub checkout_sessions : List CheckoutSession
  pub hosted_checkouts : List HostedRow
  pub primary_sales : List PrimarySale
  pub refund_entitlements : List RefundEntitlement
  pub face_values : List FaceValue
  pub checkout_audit : List AuditStep
  pub seat_positions : List SeatPosition
  pub organiser_events : List OrganiserEvent
  pub event_pass_windows : List PassWindow
  pub derived_tickets : List DerivedTicket

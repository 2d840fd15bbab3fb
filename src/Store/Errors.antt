-- ===== src/Store/Errors.antt =====
-- src/authority/errors.ts, and the codes of src/sales/ports.ts (CheckoutError).
-- The human-readable texts of the errors are left out.
use kippu_api.Base.{ℕ, Option, none}

-- The SPEC.md §10 codes that the code names; any other is passed on from the ledger.
pub data SpecCode : Type 0 where
  event_not_found not_owner event_sealed event_cancelled event_finished : SpecCode
  ticket_id_exists ticket_not_found unknown_class unknown_zone zone_kind_mismatch : SpecCode
  capacity_exceeded class_quota_exceeded capacity_proof_required : SpecCode
  capacity_below_issuance : SpecCode
  invalid_transition : SpecCode
  pass_replayed invalid_pass pass_expired : SpecCode
  other_code : ℕ → SpecCode

pub data Transport : Type 0 where
  bad_request unauthorized forbidden not_found conflict precondition_failed : Transport

-- The machine-readable reasons that the modelled operations give.
pub data Reason : Type 0 where
  seat_held_reason held_reason not_granted grant_revoked report_exists : Reason
  unknown_operator unknown_grant before_window after_window : Reason
  unknown_invitation already_redeemed seat_taken sold_out class_sold_out : Reason
  decided_reason pending_reason artefact_reason not_an_increase : Reason

pub data CheckoutCode : Type 0 where
  unknown_checkout hold_ended sales_closed_code account_required link_unconfirmed : CheckoutCode
  not_pairing pairing_code_mismatch linked_to_another_account hold_required : CheckoutCode
  already_paid : CheckoutCode

-- src/auth/ports.ts (AuthError)
pub data AuthCode : Type 0 where
  invalid_input email_taken unknown_organiser ceremony_expired credential_rejected : AuthCode
  enrolment_code_rejected link_rejected : AuthCode

-- src/reviewers/ports.ts (ReviewerAuthError)
pub data ReviewerCode : Type 0 where
  reviewer_ceremony_expired reviewer_code_rejected reviewer_credential_rejected : ReviewerCode
  unknown_reviewer reviewer_invalid_input : ReviewerCode

pub data Error : Type 0 where
  spec_error : SpecCode → Option Reason → Error
  refused_request : Transport → Option Reason → Error
  checkout_error : CheckoutCode → Error
  auth_error : AuthCode → Error
  reviewer_error : ReviewerCode → Error
  -- `throw new Error(…)`, and a failure of what the code calls
  failure : Error

abbrev pub spec : SpecCode → Error
spec code = spec_error code none

-- A value, or an exception.
pub data Try {ℓ} (A : Type ℓ) : Type ℓ where
  ok : A → Try A
  fail : Error → Try A

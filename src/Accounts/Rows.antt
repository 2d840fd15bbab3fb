-- ===== src/Accounts/Rows.antt =====
-- The tables of migrations/0002, 0004, 0025 to 0027, 0032, 0036 and 0037, with the columns that
-- src/auth/service.ts, src/operators and src/reviewers read or write. A secret is stored by its
-- hash. Texts whose form is tested are lists of character codes; those only compared, numbers.
use kippu_api.Base.{ℕ, Option, List}

abbrev pub Text : Type 0
Text = List ℕ

pub data PrincipalKind : Type 0 where
  organiser_kind operator_kind holder_kind reviewer_kind : PrincipalKind

pub record Session : Type 0 where
  pub id : ℕ
  pub token_hash : ℕ
  pub principal_kind : PrincipalKind
  pub organiser_id : Option ℕ
  pub operator_id : Option ℕ
  pub holder_account : Option Text
  pub reviewer_id : Option ℕ
  pub holder_credential : Option ℕ
  pub created_at : ℕ
  pub expires_at : ℕ
  pub revoked_at : Option ℕ

pub record Organiser : Type 0 where
  pub id : ℕ
  pub email : Text
  pub created_at : ℕ

-- A passkey of an organiser or of a reviewer.
pub record PasskeyRow : Type 0 where
  pub credential_id : ℕ
  pub owner : ℕ
  pub public_key : ℕ
  pub sign_count : ℕ
  pub created_at : ℕ
  pub last_used_at : Option ℕ

pub data CeremonyKind : Type 0 where
  organiser_sign_up organiser_sign_in : CeremonyKind

pub record Ceremony : Type 0 where
  pub id : ℕ
  pub kind : CeremonyKind
  pub challenge : ℕ
  pub organiser_id : ℕ
  pub email : Text
  pub created_at : ℕ
  pub expires_at : ℕ

pub record Operator : Type 0 where
  pub id : ℕ
  pub organiser_id : ℕ
  pub name : ℕ
  pub created_request_id : ℕ
  pub created_at : ℕ

-- A one-time enrolment code, of an operator or of a reviewer.
pub record CodeRow : Type 0 where
  pub code_hash : ℕ
  pub owner : ℕ
  pub expires_at : ℕ
  pub redeemed_at : Option ℕ
  pub voided_at : Option ℕ
  pub created_at : ℕ

pub record Holder : Type 0 where
  pub account : Text
  pub created_at : ℕ
  pub last_linked_at : ℕ

pub record LinkChallenge : Type 0 where
  pub id : ℕ
  pub account : Text
  pub nonce : ℕ
  pub expires_at : ℕ
  pub created_at : ℕ

pub record Reviewer : Type 0 where
  pub id : ℕ
  pub email : Text
  pub created_at : ℕ
  pub enrolled_at : Option ℕ
  pub disabled_at : Option ℕ

pub data ReviewerCeremonyKind : Type 0 where
  reviewer_enrolment reviewer_sign_in : ReviewerCeremonyKind

pub record ReviewerCeremony : Type 0 where
  pub id : ℕ
  pub kind : ReviewerCeremonyKind
  pub challenge : ℕ
  pub reviewer_id : ℕ
  pub code_hash : Option ℕ
  pub expires_at : ℕ
  pub created_at : ℕ

-- The rows stand in the order of `seq`.
pub record GrantRow : Type 0 where
  pub id : ℕ
  pub operator_id : ℕ
  pub organiser_id : ℕ
  pub event : ℕ
  pub gates : List ℕ
  pub valid_from : ℕ
  pub valid_until : ℕ
  pub created_request_id : ℕ
  pub created_at : ℕ
  pub revoked_at : Option ℕ
  pub revoked_request_id : Option ℕ

-- How an admission's submission to the ledger ended.
pub data Submission : Type 0 where
  settled_submission : (cursor : ℕ) → Submission
  rejected_submission : (error_code : ℕ) → Submission
  failed_submission : Submission

-- The columns `verdict`, `refusal`, `submission`, `receipt_cursor` and `error_code`.
pub data Verdict : Type 0 where
  admitted_verdict : Submission → Verdict
  refused_verdict : (reason : ℕ) → Verdict

pub record ReportRow : Type 0 where
  pub seq : ℕ
  pub report_id : ℕ
  pub operator_id : ℕ
  pub organiser_id : ℕ
  pub session_id : ℕ
  pub request_id : ℕ
  pub event : ℕ
  pub gate : ℕ
  pub ticket : ℕ
  pub pass_id : ℕ
  pub holder : Option ℕ
  pub verdict : Verdict
  pub presented_at : ℕ
  pub device_clock : ℕ
  pub received_at : ℕ

pub record Accounts : Type 0 where
  pub sessions : List Session
  pub organisers : List Organiser
  pub organiser_passkeys : List PasskeyRow
  pub webauthn_ceremonies : List Ceremony
  pub operators : List Operator
  pub operator_enrolment_codes : List CodeRow
  pub holders : List Holder
  pub holder_link_challenges : List LinkChallenge
  pub reviewers : List Reviewer
  pub reviewer_enrolment_codes : List CodeRow
  pub reviewer_passkeys : List PasskeyRow
  pub reviewer_ceremonies : List ReviewerCeremony
  pub operator_grants : List GrantRow
  pub admission_reports : List ReportRow
  -- the next number of `admission_reports.seq`, GENERATED ALWAYS AS IDENTITY
  pub next_report : ℕ

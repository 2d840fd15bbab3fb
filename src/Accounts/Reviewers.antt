-- ===== src/Accounts/Reviewers.antt =====
-- src/reviewers/service.ts: reviewers, their enrolment codes, ceremonies and sign-in. WebAuthn is
-- a parameter, as in Accounts/Organisers.
use kippu_api.Base.{
  ℕ, ◌+◌, ◌*◌, Bool, true, false, not, ◌&&◌, Option, none, some, ◌∷◌, ◌==◌, ltb, is_some, same,
  if◌then◌else◌, exists_where, find_where, update_where, delete_where, count_where, same_text,
}
use kippu_api.Store.{
  Error, Try, ok, fail, failure, reviewer_error, reviewer_ceremony_expired, reviewer_code_rejected,
  reviewer_credential_rejected, unknown_reviewer, reviewer_invalid_input, On, ◌>>=◌, ◌>>◌, get,
  modify, lift, pure, throw, in_transaction,
}
use kippu_api.Accounts.Rows.{
  Text, Session, PasskeyRow, CodeRow, Reviewer, ReviewerCeremonyKind, reviewer_enrolment,
  reviewer_sign_in, ReviewerCeremony, Accounts,
}
use kippu_api.Accounts.Email.{normalise_email}
use kippu_api.Accounts.Sessions.{
  hour_ms, reviewer_session_ms, reviewer_login, IssuedSession, Opening, issue_session, revoke_at,
}
use kippu_api.Accounts.Organisers.{
  ceremony_ms, Registered, WebAuthn, has_credential, is_credential_of, passkey_of, used_passkey,
  is_redeemable, redeem_at,
}

-- REVIEWER_ENROLMENT_CODE_MS
abbrev pub reviewer_enrolment_code_ms : ℕ
reviewer_enrolment_code_ms = 72 * hour_ms

abbrev pub or_else_new : Option ℕ → ℕ → Option ℕ
or_else_new none at = some at
or_else_new (some before) at = some before

-- What a code's issuing is given: its secret, and three readings of the clock.
pub record Coding : Type 0 where
  pub code : ℕ
  pub from : ℕ
  pub voided_at : ℕ
  pub created_at : ℕ

abbrev pub is_unspent_of : ℕ → CodeRow → Bool
is_unspent_of owner c =
    (c.owner == owner) && not (is_some c.redeemed_at) && not (is_some c.voided_at)

abbrev pub void_at : ℕ → CodeRow → CodeRow
void_at at c = record c { voided_at = some at }

abbrev pub has_email : Text → Reviewer → Bool
has_email email r = same_text r.email email

abbrev pub is_reviewer : ℕ → Reviewer → Bool
is_reviewer id r = r.id == id

abbrev pub disable_at : ℕ → Reviewer → Reviewer
disable_at at r = record r { disabled_at = or_else_new r.disabled_at at }

abbrev pub enrol_at : ℕ → Reviewer → Reviewer
enrol_at at r = record r { enrolled_at = or_else_new r.enrolled_at at }

abbrev pub is_reviewer_session : ℕ → ℕ → Session → Bool
is_reviewer_session reviewer_id at s =
    same s.reviewer_id (some reviewer_id) && not (is_some s.revoked_at) && ltb at s.expires_at

abbrev pub same_reviewer_kind : ReviewerCeremonyKind → ReviewerCeremonyKind → Bool
same_reviewer_kind reviewer_enrolment reviewer_enrolment = true
same_reviewer_kind reviewer_sign_in reviewer_sign_in = true
same_reviewer_kind _ _ = false

-- The ceremony joined with its reviewer, who exists: `reviewers r WHERE r.id = c.reviewer_id`.
abbrev pub is_reviewer_ceremony : Accounts → ReviewerCeremonyKind → ℕ → ReviewerCeremony → Bool
is_reviewer_ceremony a kind id c =
    (c.id == id)
    && same_reviewer_kind c.kind kind
    && exists_where (is_reviewer c.reviewer_id) a.reviewers

abbrev pub is_enabled : Reviewer → Bool
is_enabled r = not (is_some r.disabled_at)

-- c.expires_at > now AND r.disabled_at IS NULL
abbrev pub live_reviewer_ceremony : Accounts → ℕ → Option ReviewerCeremony → Try ReviewerCeremony
live_reviewer_ceremony a at none = fail (reviewer_error reviewer_ceremony_expired)
live_reviewer_ceremony a at (some c) =
    if ltb at c.expires_at
      && exists_where (λ r. is_reviewer c.reviewer_id r && is_enabled r) a.reviewers
    then ok c
    else fail (reviewer_error reviewer_ceremony_expired)

-- The deletion is committed whatever the answer.
unfoldable pub consume_reviewer_ceremony :
    ReviewerCeremonyKind → ℕ → ℕ → On Accounts ReviewerCeremony
consume_reviewer_ceremony kind id at = do
  a ← get
  modify (λ b. record b {
    reviewer_ceremonies = delete_where (is_reviewer_ceremony b kind id) b.reviewer_ceremonies;
  })
  lift (
      live_reviewer_ceremony a at
        (find_where (is_reviewer_ceremony a kind id) a.reviewer_ceremonies))

abbrev pub void_codes : ℕ → ℕ → Accounts → Accounts
void_codes reviewer_id at a = record a {
  reviewer_enrolment_codes =
      update_where (is_unspent_of reviewer_id) (void_at at) a.reviewer_enrolment_codes;
}

-- A `throw new Error(…)` of the command line
abbrev pub or_failure {ℓ} : {A : Type ℓ} → Option A → Try A
or_failure none = fail failure
or_failure (some x) = ok x

abbrev pub or_reviewer_error {ℓ} : {A : Type ℓ} → Error → Option A → Try A
or_reviewer_error e none = fail e
or_reviewer_error e (some x) = ok x

-- `try { normaliseEmail } catch { throw invalid-input }`
abbrev pub or_invalid_input : Try Text → Try Text
or_invalid_input (ok email) = ok email
or_invalid_input (fail _) = fail (reviewer_error reviewer_invalid_input)

abbrev pub open_reviewer_ceremony :
    ReviewerCeremonyKind → ℕ → ℕ → ℕ → Option ℕ → ℕ → ℕ → On Accounts ℕ
open_reviewer_ceremony kind id challenge reviewer_id code_hash from created_at =
    modify (λ a. record a {
      reviewer_ceremonies =
          record {
            id = id;
            kind = kind;
            challenge = challenge;
            reviewer_id = reviewer_id;
            code_hash = code_hash;
            expires_at = from + ceremony_ms;
            created_at = created_at;
          }
          ∷ a.reviewer_ceremonies;
    })
    >> pure id

module _ (hash : ℕ → ℕ) (is_space : ℕ → Bool) (trim lower : Text → Text) (webauthn : WebAuthn) where
  unfoldable pub issue_code : ℕ → Coding → On Accounts ℕ
  issue_code reviewer_id k =
      modify (void_codes reviewer_id k.voided_at)
      >> (modify (λ a. record a {
        reviewer_enrolment_codes =
            record {
              code_hash = hash k.code;
              owner = reviewer_id;
              expires_at = k.from + reviewer_enrolment_code_ms;
              redeemed_at = none;
              voided_at = none;
              created_at = k.created_at;
            }
            ∷ a.reviewer_enrolment_codes;
      })
          >> pure k.code)

  unfoldable pub create_reviewer : Text → ℕ → ℕ → Coding → On Accounts ℕ
  create_reviewer email id created_at k = do
    normalised ← lift (normalise_email is_space trim lower email)
    in_transaction do
      a ← get
      if exists_where (has_email normalised) a.reviewers
          then throw failure
          else (modify (λ b. record b {
            reviewers =
                record {
                  id = id;
                  email = normalised;
                  created_at = created_at;
                  enrolled_at = none;
                  disabled_at = none;
                }
                ∷ b.reviewers;
          })
              >> issue_code id k)

  -- `SELECT … FOR UPDATE` of the reviewer with an email
  abbrev pub reviewer_by_email : Text → Accounts → Try (Option Reviewer)
  reviewer_by_email email a = elim (normalise_email is_space trim lower email) [
    | ok normalised ↦ ok (find_where (has_email normalised) a.reviewers)
    | fail e ↦ fail e
  ]

  abbrev pub enabled_only : Option Reviewer → Try Reviewer
  enabled_only none = fail failure
  enabled_only (some r) = if is_enabled r then ok r else fail failure

  unfoldable pub reissue_code : Text → Coding → On Accounts ℕ
  reissue_code email k = in_transaction do
    a ← get
    some_reviewer ← lift (reviewer_by_email email a)
    r ← lift (enabled_only some_reviewer)
    issue_code r.id k

  abbrev pub disabled_in : ℕ → ℕ → Accounts → Accounts
  disabled_in reviewer_id at a = record a {
    reviewers = update_where (is_reviewer reviewer_id) (disable_at at) a.reviewers;
    reviewer_enrolment_codes =
        update_where (is_unspent_of reviewer_id) (void_at at) a.reviewer_enrolment_codes;
    sessions = update_where (is_reviewer_session reviewer_id at) (revoke_at at) a.sessions;
    reviewer_ceremonies =
        delete_where (λ (c : ReviewerCeremony). c.reviewer_id == reviewer_id) a.reviewer_ceremonies;
  }

  -- How many sessions ended.
  unfoldable pub disable : Text → ℕ → On Accounts ℕ
  disable email at = in_transaction do
    a ← get
    some_reviewer ← lift (reviewer_by_email email a)
    r ← lift (or_failure some_reviewer)
    modify (disabled_in r.id at)
    pure (count_where (is_reviewer_session r.id at) a.sessions)

  -- A redeemable code of an enabled reviewer with the email.
  abbrev pub is_code_for : ℕ → Text → ℕ → Accounts → CodeRow → Bool
  is_code_for code email at a c =
      is_redeemable (hash code) at c
      && exists_where (λ r. is_reviewer c.owner r && is_enabled r && has_email email r) a.reviewers

  unfoldable pub begin_enrolment : ℕ → Text → ℕ → ℕ → ℕ → ℕ → ℕ → On Accounts ℕ
  begin_enrolment code email ceremony_id challenge at from created_at = do
    normalised ← lift (or_invalid_input (normalise_email is_space trim lower email))
    a ← get
    c ← lift (
        or_reviewer_error (reviewer_error reviewer_code_rejected)
          (find_where (is_code_for code normalised at a) a.reviewer_enrolment_codes))
    open_reviewer_ceremony reviewer_enrolment ceremony_id challenge c.owner (some (hash code)) from
        created_at

  abbrev pub spends : Option ℕ → ℕ → CodeRow → Bool
  spends none at c = false
  spends (some code_hash) at c = is_redeemable code_hash at c

  abbrev pub enrolled_in : ReviewerCeremony → Registered → ℕ → ℕ → ℕ → Accounts → Accounts
  enrolled_in c r spent_at added_at enrolled_at a = record a {
    reviewer_enrolment_codes =
        update_where (spends c.code_hash spent_at) (redeem_at spent_at) a.reviewer_enrolment_codes;
    reviewer_passkeys = passkey_of c.reviewer_id added_at r ∷ a.reviewer_passkeys;
    reviewers = update_where (is_reviewer c.reviewer_id) (enrol_at enrolled_at) a.reviewers;
  }

  -- A passkey whose credential is known already violates the table's key.
  unfoldable pub enrol :
      ReviewerCeremony → Registered → ℕ → ℕ → ℕ → Opening → On Accounts IssuedSession
  enrol c r spent_at added_at enrolled_at o = in_transaction do
    a ← get
    if not (count_where (spends c.code_hash spent_at) a.reviewer_enrolment_codes == 1)
        then throw (reviewer_error reviewer_code_rejected)
        else if exists_where (has_credential r.credential_id) a.reviewer_passkeys
        then throw failure
        else (modify (enrolled_in c r spent_at added_at enrolled_at)
            >> issue_session hash (reviewer_login c.reviewer_id) reviewer_session_ms o)

  unfoldable pub complete_enrolment : ℕ → ℕ → ℕ → ℕ → ℕ → ℕ → Opening → On Accounts IssuedSession
  complete_enrolment ceremony_id credential at spent_at added_at enrolled_at o = do
    c ← consume_reviewer_ceremony reviewer_enrolment ceremony_id at
    r ← lift (
        or_reviewer_error (reviewer_error reviewer_credential_rejected)
          (webauthn.verify_registration credential c.challenge))
    enrol c r spent_at added_at enrolled_at o

  abbrev pub can_sign_in : Text → Reviewer → Bool
  can_sign_in email r = has_email email r && is_enabled r && is_some r.enrolled_at

  unfoldable pub begin_sign_in : Text → ℕ → ℕ → ℕ → ℕ → On Accounts ℕ
  begin_sign_in email ceremony_id challenge from created_at = do
    normalised ← lift (or_invalid_input (normalise_email is_space trim lower email))
    a ← get
    r ← lift (
        or_reviewer_error (reviewer_error unknown_reviewer)
          (find_where (can_sign_in normalised) a.reviewers))
    open_reviewer_ceremony reviewer_sign_in ceremony_id challenge r.id none from created_at

  unfoldable pub sign_in_reviewer :
      ReviewerCeremony → PasskeyRow → ℕ → ℕ → Opening → On Accounts IssuedSession
  sign_in_reviewer c p counter used_at o = in_transaction (
      modify (λ a. record a {
        reviewer_passkeys =
            update_where (has_credential p.credential_id) (used_passkey counter used_at)
              a.reviewer_passkeys;
      })
      >> issue_session hash (reviewer_login c.reviewer_id) reviewer_session_ms o)

  unfoldable pub complete_sign_in : ℕ → ℕ → ℕ → ℕ → Opening → On Accounts IssuedSession
  complete_sign_in ceremony_id credential at used_at o = do
    c ← consume_reviewer_ceremony reviewer_sign_in ceremony_id at
    a ← get
    p ← lift (
        or_reviewer_error (reviewer_error reviewer_credential_rejected) (
          find_where (is_credential_of (webauthn.credential_of credential) c.reviewer_id)
            a.reviewer_passkeys))
    counter ← lift (
        or_reviewer_error (reviewer_error reviewer_credential_rejected)
          (webauthn.verify_authentication credential c.challenge p))
    sign_in_reviewer c p counter used_at o

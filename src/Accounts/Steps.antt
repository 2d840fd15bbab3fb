-- ===== src/Accounts/Steps.antt =====
-- The calls that change accounts, one after another, in any order.
use kippu_api.Base.{ℕ, ◌≡◌, Bool, false, Option, ◌==◌}
use kippu_api.Store.{Ledger, after, Stays}
use kippu_api.Accounts.Rows.{Text, Accounts}
use kippu_api.Accounts.Sessions.{Opening, sign_out}
use kippu_api.Accounts.Organisers.{
  WebAuthn, begin_organiser_sign_up, complete_organiser_sign_up, begin_organiser_sign_in,
  complete_organiser_sign_in, redeem_operator_code,
}
use kippu_api.Accounts.Holders.{
  HolderProfile, Registrations, begin_holder_link, complete_holder_link,
}
use kippu_api.Accounts.Operators.{
  GrantInput, OperatorCaller, create_operator, issue_enrolment_code, revoke_sessions, grant_gates,
  revoke_grant,
}
use kippu_api.Accounts.Reports.{ReportInput, record_report}
use kippu_api.Accounts.Reviewers.{
  Coding, create_reviewer, reissue_code, disable, begin_enrolment, complete_enrolment,
  begin_sign_in, complete_sign_in,
}
use kippu_api.Accounts.Later.{Later, Later-refl, Later-trans}
use kippu_api.Accounts.Kept.{
  begin_organiser_sign_up-Later, complete_organiser_sign_up-Later, begin_organiser_sign_in-Later,
  complete_organiser_sign_in-Later, redeem_operator_code-Later, issue_enrolment_code-Later,
  sign_out-Later, create_operator-Later, revoke_sessions-Later, grant_gates-Later,
  revoke_grant-Later, record_report-Later, begin_holder_link-Later, complete_holder_link-Later,
}
use kippu_api.Accounts.Kept.Reviewers.{
  create_reviewer-Later, reissue_code-Later, disable-Later, begin_enrolment-Later,
  complete_enrolment-Later, begin_sign_in-Later, complete_sign_in-Later,
}

-- The code outside the repository, and JavaScript's functions on texts.
pub record World : Type 0 where
  pub hash : ℕ → ℕ
  pub is_space : ℕ → Bool
  pub trim : Text → Text
  pub lower : Text → Text
  pub webauthn : WebAuthn
  pub profile : HolderProfile
  pub registrations : Option Registrations
  pub ledger : Ledger
  pub account_of : ℕ → Option ℕ

module _ (w : World) (h : ℕ) where
  -- A call that makes no secret with the hash `h`: secrets are made at random.
  pub data AccountStep : Accounts → Accounts → Type 0 where
    sign_up_begins :
        (email : Text) (organiser_id ceremony_id challenge created_at from : ℕ) (a : Accounts)
        → AccountStep a (
            after (
              begin_organiser_sign_up w.hash w.is_space w.trim w.lower w.webauthn email organiser_id
                ceremony_id challenge created_at from a))
    sign_up_completes :
        (ceremony_id credential at created_at added_at : ℕ) (o : Opening) (a : Accounts)
        → (w.hash o.token == h) ≡ false
        → AccountStep a (
            after (
              complete_organiser_sign_up w.hash w.is_space w.trim w.lower w.webauthn ceremony_id
                credential at created_at added_at o a))
    sign_in_begins :
        (email : Text) (ceremony_id challenge created_at from : ℕ) (a : Accounts)
        → AccountStep a (
            after (
              begin_organiser_sign_in w.hash w.is_space w.trim w.lower w.webauthn email ceremony_id
                challenge created_at from a))
    sign_in_completes :
        (ceremony_id credential at used_at : ℕ) (o : Opening) (a : Accounts)
        → (w.hash o.token == h) ≡ false
        → AccountStep a (
            after (
              complete_organiser_sign_in w.hash w.is_space w.trim w.lower w.webauthn ceremony_id
                credential at used_at o a))
    code_is_redeemed :
        (code at : ℕ) (o : Opening) (a : Accounts)
        → (w.hash o.token == h) ≡ false
        → AccountStep a (after (redeem_operator_code w.hash code at o a))
    session_signs_out :
        (session_id at : ℕ) (a : Accounts) → AccountStep a (after (sign_out session_id at a))
    link_begins :
        (account : Text) (challenge_id nonce from created_at : ℕ) (a : Accounts)
        → AccountStep a (after (begin_holder_link account challenge_id nonce from created_at a))
    link_completes :
        (challenge_id : ℕ) (authorisation : Text) (at linked_at : ℕ) (o : Opening) (a : Accounts)
        → (w.hash o.token == h) ≡ false
        → AccountStep a (
            after (
              complete_holder_link w.hash w.profile w.registrations challenge_id authorisation at
                linked_at o a))
    operator_is_created :
        (organiser_id request_id name id created_at : ℕ) (a : Accounts)
        → AccountStep a (after (create_operator organiser_id request_id name id created_at a))
    code_is_issued :
        (organiser_id operator code issued_at : ℕ) (a : Accounts)
        → (w.hash code == h) ≡ false
        → AccountStep a (after (issue_enrolment_code w.hash organiser_id operator code issued_at a))
    sessions_are_revoked :
        (organiser_id operator at : ℕ) (a : Accounts)
        → AccountStep a (after (revoke_sessions organiser_id operator at a))
    grant_is_made :
        (organiser_id request_id : ℕ) (input : GrantInput) (id at : ℕ) (a : Accounts)
        → AccountStep a
            (after (grant_gates w.ledger w.account_of organiser_id request_id input id at a))
    grant_is_revoked :
        (organiser_id request_id id at : ℕ) (a : Accounts)
        → AccountStep a (after (revoke_grant organiser_id request_id id at a))
    report_is_recorded :
        (caller : OperatorCaller) (request_id : ℕ) (input : ReportInput)
        (session_revoked_at : Option ℕ) (at : ℕ) (a : Accounts)
        → AccountStep a (after (record_report caller request_id input session_revoked_at at a))
    reviewer_is_created :
        (email : Text) (id created_at : ℕ) (k : Coding) (a : Accounts)
        → (w.hash k.code == h) ≡ false
        → AccountStep a (
            after
              (create_reviewer w.hash w.is_space w.trim w.lower w.webauthn email id created_at k a))
    code_is_reissued :
        (email : Text) (k : Coding) (a : Accounts)
        → (w.hash k.code == h) ≡ false
        → AccountStep a (after (reissue_code w.hash w.is_space w.trim w.lower w.webauthn email k a))
    reviewer_is_disabled :
        (email : Text) (at : ℕ) (a : Accounts)
        → AccountStep a (after (disable w.hash w.is_space w.trim w.lower w.webauthn email at a))
    enrolment_begins :
        (code : ℕ) (email : Text) (ceremony_id challenge at from created_at : ℕ) (a : Accounts)
        → AccountStep a (
            after (
              begin_enrolment w.hash w.is_space w.trim w.lower w.webauthn code email ceremony_id
                challenge at from created_at a))
    enrolment_completes :
        (ceremony_id credential at spent_at added_at enrolled_at : ℕ) (o : Opening) (a : Accounts)
        → (w.hash o.token == h) ≡ false
        → AccountStep a (
            after (
              complete_enrolment w.hash w.is_space w.trim w.lower w.webauthn ceremony_id credential
                at spent_at added_at enrolled_at o a))
    reviewer_sign_in_begins :
        (email : Text) (ceremony_id challenge from created_at : ℕ) (a : Accounts)
        → AccountStep a (
            after (
              begin_sign_in w.hash w.is_space w.trim w.lower w.webauthn email ceremony_id challenge
                from created_at a))
    reviewer_sign_in_completes :
        (ceremony_id credential at used_at : ℕ) (o : Opening) (a : Accounts)
        → (w.hash o.token == h) ≡ false
        → AccountStep a (
            after (
              complete_sign_in w.hash w.is_space w.trim w.lower w.webauthn ceremony_id credential at
                used_at o a))

  pub data AccountSteps : Accounts → Accounts → Type 0 where
    no_more : (a : Accounts) → AccountSteps a a
    and_then : {a b c : Accounts} → AccountSteps a b → AccountStep b c → AccountSteps a c

  step-Later : (t r : ℕ) {a b : Accounts} → AccountStep a b → Later h t r a b
  unfolding Stays
  step-Later t r (sign_up_begins email organiser_id ceremony_id challenge created_at from a) =
      begin_organiser_sign_up-Later h t r a w.hash w.is_space w.trim w.lower w.webauthn email
        organiser_id ceremony_id challenge created_at from a (Later-refl h t r a)
  step-Later t r (sign_up_completes ceremony_id credential at created_at added_at o a differ) =
      complete_organiser_sign_up-Later h t r a w.hash w.is_space w.trim w.lower w.webauthn
        ceremony_id credential at created_at added_at o differ a (Later-refl h t r a)
  step-Later t r (sign_in_begins email ceremony_id challenge created_at from a) =
      begin_organiser_sign_in-Later h t r a w.hash w.is_space w.trim w.lower w.webauthn email
        ceremony_id challenge created_at from a (Later-refl h t r a)
  step-Later t r (sign_in_completes ceremony_id credential at used_at o a differ) =
      complete_organiser_sign_in-Later h t r a w.hash w.is_space w.trim w.lower w.webauthn
        ceremony_id credential at used_at o differ a (Later-refl h t r a)
  step-Later t r (code_is_redeemed code at o a differ) =
      redeem_operator_code-Later h t r a w.hash code at o differ a (Later-refl h t r a)
  step-Later t r (session_signs_out session_id at a) =
      sign_out-Later h t r a session_id at a (Later-refl h t r a)
  step-Later t r (link_begins account challenge_id nonce from created_at a) =
      begin_holder_link-Later h t r a account challenge_id nonce from created_at a
        (Later-refl h t r a)
  step-Later t r (link_completes challenge_id authorisation at linked_at o a differ) =
      complete_holder_link-Later h t r a w.hash w.profile w.registrations challenge_id authorisation
        at linked_at o differ a (Later-refl h t r a)
  step-Later t r (operator_is_created organiser_id request_id name id created_at a) =
      create_operator-Later h t r a organiser_id request_id name id created_at a
        (Later-refl h t r a)
  step-Later t r (code_is_issued organiser_id operator code issued_at a differ) =
      issue_enrolment_code-Later h t r a w.hash organiser_id operator code issued_at differ a
        (Later-refl h t r a)
  step-Later t r (sessions_are_revoked organiser_id operator at a) =
      revoke_sessions-Later h t r a organiser_id operator at a (Later-refl h t r a)
  step-Later t r (grant_is_made organiser_id request_id input id at a) =
      grant_gates-Later h t r a w.ledger w.account_of organiser_id request_id input id at a
        (Later-refl h t r a)
  step-Later t r (grant_is_revoked organiser_id request_id id at a) =
      revoke_grant-Later h t r a organiser_id request_id id at a (Later-refl h t r a)
  step-Later t r (report_is_recorded caller request_id input session_revoked_at at a) =
      record_report-Later h t r a caller request_id input session_revoked_at at a
        (Later-refl h t r a)
  step-Later t r (reviewer_is_created email id created_at k a differ) =
      create_reviewer-Later h t r a w.hash w.is_space w.trim w.lower w.webauthn email id created_at
        k differ a (Later-refl h t r a)
  step-Later t r (code_is_reissued email k a differ) =
      reissue_code-Later h t r a w.hash w.is_space w.trim w.lower w.webauthn email k differ a
        (Later-refl h t r a)
  step-Later t r (reviewer_is_disabled email at a) =
      disable-Later h t r a w.hash w.is_space w.trim w.lower w.webauthn email at a
        (Later-refl h t r a)
  step-Later t r (enrolment_begins code email ceremony_id challenge at from created_at a) =
      begin_enrolment-Later h t r a w.hash w.is_space w.trim w.lower w.webauthn code email
        ceremony_id challenge at from created_at a (Later-refl h t r a)
  step-Later t r
        (enrolment_completes ceremony_id credential at spent_at added_at enrolled_at o a differ) =
      complete_enrolment-Later h t r a w.hash w.is_space w.trim w.lower w.webauthn ceremony_id
        credential at spent_at added_at enrolled_at o differ a (Later-refl h t r a)
  step-Later t r (reviewer_sign_in_begins email ceremony_id challenge from created_at a) =
      begin_sign_in-Later h t r a w.hash w.is_space w.trim w.lower w.webauthn email ceremony_id
        challenge from created_at a (Later-refl h t r a)
  step-Later t r (reviewer_sign_in_completes ceremony_id credential at used_at o a differ) =
      complete_sign_in-Later h t r a w.hash w.is_space w.trim w.lower w.webauthn ceremony_id
        credential at used_at o differ a (Later-refl h t r a)

  pub steps-Later : (t r : ℕ) {a b : Accounts} → AccountSteps a b → Later h t r a b
  steps-Later t r (no_more a) = Later-refl h t r a
  steps-Later t r (and_then steps step) = Later-trans (steps-Later t r steps) (step-Later t r step)

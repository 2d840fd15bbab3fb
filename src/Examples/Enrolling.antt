-- ===== src/Examples/Enrolling.antt =====
-- An operator redeems a code and has the session revoked; a reviewer is disabled.
use kippu_api.Base.{
  ◌+◌, ◌≤◌, ◌≡◌, refl, false, none, some, [], ◌∷◌, arith, exists_where, find_where, count_where,
  update_where, delete_where,
}
use kippu_api.Store.{done, threw, after, auth_error, enrolment_code_rejected, ok}
use kippu_api.Accounts.Rows.{Text, Session, operator_kind, CodeRow, Reviewer, Accounts}
use kippu_api.Accounts.Email.{normalise_email, is_email}
use kippu_api.Accounts.Sessions.{Opening, IssuedSession, authenticate, issue_session, sign_out}
use kippu_api.Accounts.Organisers.{redeem_operator_code}
use kippu_api.Accounts.Operators.{RevokedSessions, revoke_sessions}
use kippu_api.Accounts.Reviewers.{has_email, disable}
use kippu_api.Accounts.Steps.{World, no_more, and_then, session_signs_out}
use kippu_api.Accounts.Revoked.{is_of_other, revoke_sessions-final}
use kippu_api.Accounts.Redeemed.{has_hash, redeem_operator_code-once}
use kippu_api.Accounts.Disabled.{disable-final, stands_for_reviewer}
use kippu_api.Examples.Data.{ledger, accounts}

abbrev pub world : World
world = record {
  hash = λ x. x + 1000;
  is_space = λ _. false;
  trim = λ t. t;
  lower = λ t. t;
  webauthn = record {
    verify_registration = λ _ _. none;
    verify_authentication = λ _ _ _. none;
    credential_of = λ c. c;
  };
  profile = record {
    is_pass_webauthn = λ _. false;
    account_of = λ _. none;
    verify_proof = λ _ _ _ _. false;
  };
  registrations = none;
  ledger = ledger;
  account_of = accounts;
}

-- Operator 5 of organiser 3, with a session by token 8, and an unredeemed code 9.
abbrev pub session_of_operator : Session
session_of_operator = record {
  id = 70;
  token_hash = 1008;
  principal_kind = operator_kind;
  organiser_id = some 3;
  operator_id = some 5;
  holder_account = none;
  reviewer_id = none;
  holder_credential = none;
  created_at = 10;
  expires_at = 90000;
  revoked_at = none;
}

abbrev code_row : CodeRow
code_row = record {
  code_hash = 1009;
  owner = 5;
  expires_at = 5000;
  redeemed_at = none;
  voided_at = none;
  created_at = 10;
}

abbrev email : Text
email = 97 ∷ 64 ∷ 98 ∷ []

abbrev reviewer : Reviewer
reviewer = record {
  id = 40;
  email = email;
  created_at = 10;
  enrolled_at = some 20;
  disabled_at = none;
}

abbrev pub people : Accounts
people = record {
  sessions = session_of_operator ∷ [];
  organisers = [];
  organiser_passkeys = [];
  webauthn_ceremonies = [];
  operators =
      (record { id = 5; organiser_id = 3; name = 1; created_request_id = 2; created_at = 10 }) ∷ [];
  operator_enrolment_codes = code_row ∷ [];
  holders = [];
  holder_link_challenges = [];
  reviewers = reviewer ∷ [];
  reviewer_enrolment_codes = [];
  reviewer_passkeys = [];
  reviewer_ceremonies = [];
  operator_grants = [];
  admission_reports = [];
  next_report = 1;
}

abbrev opening : Opening
opening = record { id = 71; token = 12; created_at = 100; from = 100 }

abbrev revoked : RevokedSessions
revoked = record { operator = 5; sessions_revoked = 1; codes_voided = 1 }

abbrev without_sessions : Accounts
without_sessions = after (revoke_sessions 3 5 100 people)

abbrev signed_out : Accounts → Accounts
signed_out a = after (sign_out 99 200 a)

revocation_ends : revoke_sessions 3 5 100 people ≡ done revoked without_sessions
unfolding revoke_sessions exists_where count_where update_where
revocation_ends = refl

nobody_else : exists_where (is_of_other 1008 5) people.sessions ≡ false
unfolding exists_where
nobody_else = refl

revoke_sessions-final_example : authenticate world.hash 8 300 (signed_out without_sessions) ≡ none
revoke_sessions-final_example =
    revoke_sessions-final world 3 5 100 8 300 revoked people without_sessions
      (signed_out without_sessions) nobody_else revocation_ends
      (and_then (no_more without_sessions) (session_signs_out 99 200 without_sessions))
      (omega arith)

abbrev issued : IssuedSession
issued = record { token = 12; expires_at = 86400100 }

abbrev with_session : Accounts
with_session = after (redeem_operator_code world.hash 9 100 opening people)

redemption_ends : redeem_operator_code world.hash 9 100 opening people ≡ done issued with_session
unfolding redeem_operator_code issue_session find_where update_where
redemption_ends = refl

one_code : count_where (has_hash 1009) people.operator_enrolment_codes ≤ 1
unfolding count_where
one_code = omega arith

redeem_operator_code-once_example :
    redeem_operator_code world.hash 9 300 opening (signed_out with_session)
    ≡ threw (auth_error enrolment_code_rejected) (signed_out with_session)
redeem_operator_code-once_example =
    redeem_operator_code-once world 9 100 300 opening opening issued people with_session
      (signed_out with_session) one_code redemption_ends
      (and_then (no_more with_session) (session_signs_out 99 200 with_session))

abbrev without_reviewer : Accounts
without_reviewer =
    after (disable world.hash world.is_space world.trim world.lower world.webauthn email 100 people)

disabling_ends :
    disable world.hash world.is_space world.trim world.lower world.webauthn email 100 people
    ≡ done 0 without_reviewer
unfolding disable normalise_email is_email find_where count_where update_where delete_where
disabling_ends = refl

normal_email : normalise_email world.is_space world.trim world.lower email ≡ ok email
unfolding normalise_email is_email
normal_email = refl

reviewer_found : find_where (has_email email) people.reviewers ≡ some reviewer
unfolding find_where
reviewer_found = refl

disable-final_example :
    stands_for_reviewer 40 (authenticate world.hash 12 300 (signed_out without_reviewer)) ≡ false
disable-final_example =
    disable-final world email email reviewer 100 77 12 300 0 people without_reviewer
      (signed_out without_reviewer) normal_email reviewer_found disabling_ends
      (and_then (no_more without_reviewer) (session_signs_out 99 200 without_reviewer))

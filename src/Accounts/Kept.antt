-- ===== src/Accounts/Kept.antt =====
-- Each operation on accounts leaves a later store, where the secrets that it makes have another
-- hash.
pub mod Reviewers
use kippu_api.Base.{
  ℕ, ◌≡◌, refl, Bool, true, false, Option, none, some, ◌==◌, if◌then◌else◌, inl, inr, Bool-cases,
  exists_where,
}
use kippu_api.Store.{Ledger, Stays, staying, modify-Stays, modify_bind-Stays}
use kippu_api.Accounts.Rows.{
  Text, CeremonyKind, Ceremony, PasskeyRow, ReviewerCeremonyKind, ReviewerCeremony, Accounts,
}
use kippu_api.Accounts.Sessions.{Login, IssuedSession, Opening, issue_session, sign_out}
use kippu_api.Accounts.Organisers.{
  Registered, WebAuthn, consume_ceremony, open_ceremony, begin_organiser_sign_up, sign_up,
  complete_organiser_sign_up, begin_organiser_sign_in, sign_in, complete_organiser_sign_in,
  redeem_operator_code,
}
use kippu_api.Accounts.Holders.{
  Claimed, HolderProfile, Registrations, is_account, begin_holder_link, upsert_holder, link_holder,
  complete_holder_link,
}
use kippu_api.Accounts.Operators.{
  GrantInput, OperatorCaller, create_operator, issue_enrolment_code, revoked_in, revoke_sessions,
  grant_gates, revoke_grant,
}
use kippu_api.Accounts.Reports.{ReportInput, has_report_id, insert_report, record_report}
use kippu_api.Accounts.Later.{
  Later, Later-refl, Later-trans, elsewhere, kept, add_session-Later, revoke-Later, add_code-Later,
  add_reviewer_code-Later, spend-Later, spend_reviewer-Later, add_reviewer-Later,
  change_reviewer-Later, redeem_unspent, void_unspent, disable_disabled, enrol_disabled,
}

pub ruleset changing = (kept, elsewhere, refl)

module _ (h t r : ℕ) (before : Accounts) where
  consume_ceremony-Later :
      (kind : CeremonyKind) (id at : ℕ) → Stays (Later h t r before) (consume_ceremony kind id at)
  unfolding consume_ceremony
  consume_ceremony-Later kind id at = search (staying, changing) depth 14

  open_ceremony-Later :
      (kind : CeremonyKind) (id challenge organiser_id : ℕ) (email : Text) (created_at from : ℕ)
      → Stays
          (Later h t r before)
          (open_ceremony kind id challenge organiser_id email created_at from)
  unfolding open_ceremony
  open_ceremony-Later kind id challenge organiser_id email created_at from =
      search (staying, changing) depth 14

  module _ (hash : ℕ → ℕ) where
    pub issue_session-Later :
        (login : Login) (lifetime : ℕ) (o : Opening)
        → (hash o.token == h) ≡ false
        → Stays (Later h t r before) (issue_session hash login lifetime o)
    unfolding issue_session
    issue_session-Later login lifetime o differ =
        search (staying, changing, add_session-Later) depth 14

    pub redeem_operator_code-Later :
        (code at : ℕ) (o : Opening)
        → (hash o.token == h) ≡ false
        → Stays (Later h t r before) (redeem_operator_code hash code at o)
    unfolding redeem_operator_code
    redeem_operator_code-Later code at o differ =
        search (staying, changing, spend-Later, redeem_unspent, issue_session-Later) depth 18

    pub issue_enrolment_code-Later :
        (organiser_id operator code issued_at : ℕ)
        → (hash code == h) ≡ false
        → Stays
            (Later h t r before)
            (issue_enrolment_code hash organiser_id operator code issued_at)
    unfolding issue_enrolment_code
    issue_enrolment_code-Later organiser_id operator code issued_at differ =
        search (staying, changing, add_code-Later) depth 18

    module _ (is_space : ℕ → Bool) (trim lower : Text → Text) (webauthn : WebAuthn) where
      pub begin_organiser_sign_up-Later :
          (email : Text) (organiser_id ceremony_id challenge created_at from : ℕ)
          → Stays (Later h t r before) (
              begin_organiser_sign_up hash is_space trim lower webauthn email organiser_id
                ceremony_id challenge created_at from)
      unfolding begin_organiser_sign_up
      begin_organiser_sign_up-Later email organiser_id ceremony_id challenge created_at from =
          search (staying, open_ceremony-Later) depth 14

      sign_up-Later :
          (c : Ceremony) (w : Registered) (created_at added_at : ℕ) (o : Opening)
          → (hash o.token == h) ≡ false
          → Stays
              (Later h t r before)
              (sign_up hash is_space trim lower webauthn c w created_at added_at o)
      unfolding sign_up
      sign_up-Later c w created_at added_at o differ =
          search (staying, changing, issue_session-Later) depth 18

      pub complete_organiser_sign_up-Later :
          (ceremony_id credential at created_at added_at : ℕ) (o : Opening)
          → (hash o.token == h) ≡ false
          → Stays (Later h t r before) (
              complete_organiser_sign_up hash is_space trim lower webauthn ceremony_id credential at
                created_at added_at o)
      unfolding complete_organiser_sign_up
      complete_organiser_sign_up-Later ceremony_id credential at created_at added_at o differ =
          search (staying, consume_ceremony-Later, sign_up-Later) depth 18

      pub begin_organiser_sign_in-Later :
          (email : Text) (ceremony_id challenge created_at from : ℕ)
          → Stays (Later h t r before) (
              begin_organiser_sign_in hash is_space trim lower webauthn email ceremony_id challenge
                created_at from)
      unfolding begin_organiser_sign_in
      begin_organiser_sign_in-Later email ceremony_id challenge created_at from =
          search (staying, open_ceremony-Later) depth 14

      sign_in-Later :
          (c : Ceremony) (p : PasskeyRow) (counter used_at : ℕ) (o : Opening)
          → (hash o.token == h) ≡ false
          → Stays
              (Later h t r before)
              (sign_in hash is_space trim lower webauthn c p counter used_at o)
      unfolding sign_in
      sign_in-Later c p counter used_at o differ =
          search (staying, changing, issue_session-Later) depth 18

      pub complete_organiser_sign_in-Later :
          (ceremony_id credential at used_at : ℕ) (o : Opening)
          → (hash o.token == h) ≡ false
          → Stays (Later h t r before) (
              complete_organiser_sign_in hash is_space trim lower webauthn ceremony_id credential at
                used_at o)
      unfolding complete_organiser_sign_in
      complete_organiser_sign_in-Later ceremony_id credential at used_at o differ =
          search (staying, consume_ceremony-Later, sign_in-Later) depth 18

  pub sign_out-Later : (session_id at : ℕ) → Stays (Later h t r before) (sign_out session_id at)
  unfolding sign_out
  sign_out-Later session_id at = search (staying, changing, modify-Stays, revoke-Later) depth 10

  pub create_operator-Later :
      (organiser_id request_id name id created_at : ℕ)
      → Stays (Later h t r before) (create_operator organiser_id request_id name id created_at)
  unfolding create_operator
  create_operator-Later organiser_id request_id name id created_at =
      search (staying, changing) depth 14

  revoked_in-Later : (operator at : ℕ) (a : Accounts) → Later h t r a (revoked_in operator at a)
  revoked_in-Later operator at a =
      Later-trans (spend-Later _ _ a (void_unspent h r at)) (revoke-Later _ at _)

  pub revoke_sessions-Later :
      (organiser_id operator at : ℕ)
      → Stays (Later h t r before) (revoke_sessions organiser_id operator at)
  unfolding revoke_sessions
  revoke_sessions-Later organiser_id operator at = search (staying, kept, revoked_in-Later) depth 18

  pub grant_gates-Later :
      (ledger : Ledger) (account_of : ℕ → Option ℕ) (organiser_id request_id : ℕ)
      (input : GrantInput) (id at : ℕ)
      → Stays
          (Later h t r before)
          (grant_gates ledger account_of organiser_id request_id input id at)
  unfolding grant_gates
  grant_gates-Later ledger account_of organiser_id request_id input id at =
      search (staying, changing) depth 18

  pub revoke_grant-Later :
      (organiser_id request_id id at : ℕ)
      → Stays (Later h t r before) (revoke_grant organiser_id request_id id at)
  unfolding revoke_grant
  revoke_grant-Later organiser_id request_id id at = search (staying, changing) depth 18

  insert_report-Later :
      (caller : OperatorCaller) (request_id : ℕ) (input : ReportInput) (at : ℕ) (a : Accounts)
      → Later h t r a (insert_report caller request_id input at a)
  unfolding insert_report
  insert_report-Later caller request_id input at a =
      elim (Bool-cases (exists_where (has_report_id input.report_id) a.admission_reports)) [
        | inl known ↦ rw known (elsewhere refl refl refl refl)
        | inr fresh ↦ rw fresh (elsewhere refl refl refl refl)
      ]

  pub record_report-Later :
      (caller : OperatorCaller) (request_id : ℕ) (input : ReportInput)
      (session_revoked_at : Option ℕ) (at : ℕ)
      → Stays (Later h t r before) (record_report caller request_id input session_revoked_at at)
  unfolding record_report
  record_report-Later caller request_id input session_revoked_at at =
      search (staying, kept, insert_report-Later) depth 18

  pub begin_holder_link-Later :
      (account : Text) (challenge_id nonce from created_at : ℕ)
      → Stays (Later h t r before) (begin_holder_link account challenge_id nonce from created_at)
  unfolding begin_holder_link
  begin_holder_link-Later account challenge_id nonce from created_at =
      search (staying, changing) depth 14

  module _ (hash : ℕ → ℕ) (profile : HolderProfile) (registrations : Option Registrations) where
    upsert_holder-Later :
        (account : Text) (at : ℕ) (a : Accounts)
        → Later h t r a (upsert_holder hash profile registrations account at a)
    upsert_holder-Later account at a =
        elim (Bool-cases (exists_where (is_account account) a.holders)) [
          | inl known ↦ rw known (elsewhere refl refl refl refl)
          | inr fresh ↦ rw fresh (elsewhere refl refl refl refl)
        ]

    link_holder-Later :
        (c : Claimed) (linked_at : ℕ) (o : Opening)
        → (hash o.token == h) ≡ false
        → Stays (Later h t r before) (link_holder hash profile registrations c linked_at o)
    unfolding link_holder
    link_holder-Later c linked_at o differ =
        search (staying, kept, upsert_holder-Later, issue_session-Later) depth 14

    pub complete_holder_link-Later :
        (challenge_id : ℕ) (authorisation : Text) (at linked_at : ℕ) (o : Opening)
        → (hash o.token == h) ≡ false
        → Stays (Later h t r before) (
            complete_holder_link hash profile registrations challenge_id authorisation at linked_at
              o)
    unfolding complete_holder_link
    complete_holder_link-Later challenge_id authorisation at linked_at o differ =
        search (staying, changing, link_holder-Later) depth 18

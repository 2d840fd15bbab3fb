-- ===== src/Accounts/Kept/Reviewers.antt =====
-- The operations on reviewers leave a later store.
use kippu_api.Base.{ℕ, ◌≡◌, refl, Bool, false, Option, ◌==◌}
use kippu_api.Store.{Stays, staying}
use kippu_api.Accounts.Rows.{Text, PasskeyRow, ReviewerCeremonyKind, ReviewerCeremony, Accounts}
use kippu_api.Accounts.Sessions.{Opening}
use kippu_api.Accounts.Organisers.{Registered, WebAuthn}
use kippu_api.Accounts.Reviewers.{
  Coding, void_codes, consume_reviewer_ceremony, open_reviewer_ceremony, issue_code,
  create_reviewer, reissue_code, disabled_in, disable, begin_enrolment, enrolled_in, enrol,
  complete_enrolment, begin_sign_in, sign_in_reviewer, complete_sign_in,
}
use kippu_api.Accounts.Later.{
  Later, Later-trans, elsewhere, kept, revoke-Later, add_reviewer_code-Later, spend_reviewer-Later,
  add_reviewer-Later, change_reviewer-Later, redeem_unspent, void_unspent, disable_disabled,
  enrol_disabled,
}
use kippu_api.Accounts.Kept.{changing, issue_session-Later}

module _ (h t r : ℕ) (before : Accounts) where
  consume_reviewer_ceremony-Later :
      (kind : ReviewerCeremonyKind) (id at : ℕ)
      → Stays (Later h t r before) (consume_reviewer_ceremony kind id at)
  unfolding consume_reviewer_ceremony
  consume_reviewer_ceremony-Later kind id at = search (staying, changing) depth 14

  open_reviewer_ceremony-Later :
      (kind : ReviewerCeremonyKind) (id challenge reviewer_id : ℕ) (code_hash : Option ℕ)
      (from created_at : ℕ)
      → Stays
          (Later h t r before)
          (open_reviewer_ceremony kind id challenge reviewer_id code_hash from created_at)
  open_reviewer_ceremony-Later kind id challenge reviewer_id code_hash from created_at =
      search (staying, changing) depth 14

  void_codes-Later :
      (reviewer_id at : ℕ) (a : Accounts) → Later h t r a (void_codes reviewer_id at a)
  void_codes-Later reviewer_id at a = spend_reviewer-Later _ _ a (void_unspent h r at)

  module _ (hash : ℕ → ℕ) (is_space : ℕ → Bool) (trim lower : Text → Text)
      (webauthn : WebAuthn) where
    issue_code-Later :
        (reviewer_id : ℕ) (k : Coding)
        → (hash k.code == h) ≡ false
        → Stays (Later h t r before) (issue_code hash is_space trim lower webauthn reviewer_id k)
    unfolding issue_code
    issue_code-Later reviewer_id k differ =
        search (staying, kept, void_codes-Later, add_reviewer_code-Later) depth 14

    pub create_reviewer-Later :
        (email : Text) (id created_at : ℕ) (k : Coding)
        → (hash k.code == h) ≡ false
        → Stays
            (Later h t r before)
            (create_reviewer hash is_space trim lower webauthn email id created_at k)
    unfolding create_reviewer
    create_reviewer-Later email id created_at k differ =
        search (staying, kept, add_reviewer-Later, issue_code-Later) depth 18

    pub reissue_code-Later :
        (email : Text) (k : Coding)
        → (hash k.code == h) ≡ false
        → Stays (Later h t r before) (reissue_code hash is_space trim lower webauthn email k)
    unfolding reissue_code
    reissue_code-Later email k differ = search (staying, issue_code-Later) depth 18

    disabled_in-Later :
        (reviewer_id at : ℕ) (a : Accounts)
        → Later h t r a (disabled_in hash is_space trim lower webauthn reviewer_id at a)
    disabled_in-Later reviewer_id at a =
        Later-trans (change_reviewer-Later _ _ a (disable_disabled h r at)) (
          Later-trans (spend_reviewer-Later _ _ _ (void_unspent h r at))
            (Later-trans (revoke-Later _ at _) (elsewhere refl refl refl refl)))

    pub disable-Later :
        (email : Text) (at : ℕ)
        → Stays (Later h t r before) (disable hash is_space trim lower webauthn email at)
    unfolding disable
    disable-Later email at = search (staying, kept, disabled_in-Later) depth 18

    pub begin_enrolment-Later :
        (code : ℕ) (email : Text) (ceremony_id challenge at from created_at : ℕ)
        → Stays (Later h t r before) (
            begin_enrolment hash is_space trim lower webauthn code email ceremony_id challenge at
              from created_at)
    unfolding begin_enrolment
    begin_enrolment-Later code email ceremony_id challenge at from created_at =
        search (staying, open_reviewer_ceremony-Later) depth 18

    enrolled_in-Later :
        (c : ReviewerCeremony) (w : Registered) (spent_at added_at enrolled_at : ℕ) (a : Accounts)
        → Later h t r a
            (enrolled_in hash is_space trim lower webauthn c w spent_at added_at enrolled_at a)
    enrolled_in-Later c w spent_at added_at enrolled_at a =
        Later-trans (spend_reviewer-Later _ _ a (redeem_unspent h r spent_at)) (
          Later-trans (change_reviewer-Later _ _ _ (enrol_disabled h r enrolled_at))
            (elsewhere refl refl refl refl))

    enrol-Later :
        (c : ReviewerCeremony) (w : Registered) (spent_at added_at enrolled_at : ℕ) (o : Opening)
        → (hash o.token == h) ≡ false
        → Stays
            (Later h t r before)
            (enrol hash is_space trim lower webauthn c w spent_at added_at enrolled_at o)
    unfolding enrol
    enrol-Later c w spent_at added_at enrolled_at o differ =
        search (staying, kept, enrolled_in-Later, issue_session-Later) depth 18

    pub complete_enrolment-Later :
        (ceremony_id credential at spent_at added_at enrolled_at : ℕ) (o : Opening)
        → (hash o.token == h) ≡ false
        → Stays (Later h t r before) (
            complete_enrolment hash is_space trim lower webauthn ceremony_id credential at spent_at
              added_at enrolled_at o)
    unfolding complete_enrolment
    complete_enrolment-Later ceremony_id credential at spent_at added_at enrolled_at o differ =
        search (staying, consume_reviewer_ceremony-Later, enrol-Later) depth 18

    pub begin_sign_in-Later :
        (email : Text) (ceremony_id challenge from created_at : ℕ)
        → Stays (Later h t r before) (
            begin_sign_in hash is_space trim lower webauthn email ceremony_id challenge from
              created_at)
    unfolding begin_sign_in
    begin_sign_in-Later email ceremony_id challenge from created_at =
        search (staying, open_reviewer_ceremony-Later) depth 18

    sign_in_reviewer-Later :
        (c : ReviewerCeremony) (p : PasskeyRow) (counter used_at : ℕ) (o : Opening)
        → (hash o.token == h) ≡ false
        → Stays
            (Later h t r before)
            (sign_in_reviewer hash is_space trim lower webauthn c p counter used_at o)
    unfolding sign_in_reviewer
    sign_in_reviewer-Later c p counter used_at o differ =
        search (staying, changing, issue_session-Later) depth 18

    pub complete_sign_in-Later :
        (ceremony_id credential at used_at : ℕ) (o : Opening)
        → (hash o.token == h) ≡ false
        → Stays
            (Later h t r before)
            (complete_sign_in hash is_space trim lower webauthn ceremony_id credential at used_at o)
    unfolding complete_sign_in
    complete_sign_in-Later ceremony_id credential at used_at o differ =
        search (staying, consume_reviewer_ceremony-Later, sign_in_reviewer-Later) depth 18

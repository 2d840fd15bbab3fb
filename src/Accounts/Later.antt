-- ===== src/Accounts/Later.antt =====
-- What no operation on accounts undoes: a token that is out, a code that is spent, a reviewer who
-- is disabled.
use kippu_api.Base.{
  ℕ, ◌≡◌, Bool, true, false, not, ◌&&◌, some, ◌∷◌, ◌==◌, ltb, is_some, arith, exists_where,
  update_where, not_exists-update, exists-update,
}
use kippu_api.Accounts.Rows.{Session, CodeRow, Reviewer, Accounts}
use kippu_api.Accounts.Sessions.{is_disabled, has_disabled, revoke_at}
use kippu_api.Accounts.Organisers.{redeem_at}
use kippu_api.Accounts.Reviewers.{void_at, disable_at, enrol_at}

-- A session that a token with this hash still opens at some time after `t`.
abbrev pub opens_after : ℕ → ℕ → Session → Bool
opens_after h t s = (s.token_hash == h) && not (is_some s.revoked_at) && ltb t s.expires_at

unfoldable pub is_out : ℕ → ℕ → Accounts → Bool
is_out h t a = not (exists_where (opens_after h t) a.sessions)

-- A code with this hash that is neither redeemed nor voided.
abbrev pub is_unspent : ℕ → CodeRow → Bool
is_unspent h c = (c.code_hash == h) && not (is_some c.redeemed_at) && not (is_some c.voided_at)

unfoldable pub is_spent : ℕ → Accounts → Bool
is_spent h a = not (exists_where (is_unspent h) a.operator_enrolment_codes)

unfoldable pub is_reviewer_spent : ℕ → Accounts → Bool
is_reviewer_spent h a = not (exists_where (is_unspent h) a.reviewer_enrolment_codes)

-- Every operation keeps what is out, spent and disabled.
pub record Later (h t r : ℕ) (a b : Accounts) : Type 0 where
  pub out : is_out h t a ≡ true → is_out h t b ≡ true
  pub spent : is_spent h a ≡ true → is_spent h b ≡ true
  pub reviewer_spent : is_reviewer_spent h a ≡ true → is_reviewer_spent h b ≡ true
  pub disabled : has_disabled (some r) a ≡ true → has_disabled (some r) b ≡ true

pub Later-refl : (h t r : ℕ) (a : Accounts) → Later h t r a a
Later-refl h t r a = record {
  out = λ e. e;
  spent = λ e. e;
  reviewer_spent = λ e. e;
  disabled = λ e. e;
}

not-true : {b : Bool} → not b ≡ true → b ≡ false
not-true {b} e = ground arith

unless : {b : Bool} → b ≡ false → not b ≡ true
unless {b} e = ground arith

module _ {h t r : ℕ} where
  pub Later-trans : {a b c : Accounts} → Later h t r a b → Later h t r b c → Later h t r a c
  Later-trans l m = record {
    out = λ e. m.out (l.out e);
    spent = λ e. m.spent (l.spent e);
    reviewer_spent = λ e. m.reviewer_spent (l.reviewer_spent e);
    disabled = λ e. m.disabled (l.disabled e);
  }

  -- A change of other tables.
  pub elsewhere :
      {a b : Accounts}
      → b.sessions ≡ a.sessions
      → b.operator_enrolment_codes ≡ a.operator_enrolment_codes
      → b.reviewer_enrolment_codes ≡ a.reviewer_enrolment_codes
      → b.reviewers ≡ a.reviewers
      → Later h t r a b
  unfolding is_out is_spent is_reviewer_spent has_disabled
  elsewhere same_sessions same_codes same_reviewer_codes same_reviewers = record {
    out = λ e. rw same_sessions e;
    spent = λ e. rw same_codes e;
    reviewer_spent = λ e. rw same_reviewer_codes e;
    disabled = λ e. rw same_reviewers e;
  }

  pub kept :
      {a : Accounts} (g : Accounts → Accounts)
      → ((b : Accounts) → Later h t r b (g b))
      → (b : Accounts) → Later h t r a b
      → Later h t r a (g b)
  kept g k b l = Later-trans l (k b)

  -- A new session whose token has another hash.
  pub add_session-Later :
      (s : Session) (a : Accounts)
      → (s.token_hash == h) ≡ false
      → Later h t r a (record a { sessions = s ∷ a.sessions })
  unfolding is_out is_spent is_reviewer_spent has_disabled exists_where
  add_session-Later s a differ = record {
    out = λ e. rw differ e;
    spent = λ e. e;
    reviewer_spent = λ e. e;
    disabled = λ e. e;
  }

  pub revoke-Later :
      (q : Session → Bool) (at : ℕ) (a : Accounts)
      → Later h t r a (record a { sessions = update_where q (revoke_at at) a.sessions })
  unfolding is_out is_spent is_reviewer_spent has_disabled
  revoke-Later q at a = record {
    out = λ e. unless (
        not_exists-update (opens_after h t) q (revoke_at at) (λ s. ground arith) a.sessions
          (not-true e));
    spent = λ e. e;
    reviewer_spent = λ e. e;
    disabled = λ e. e;
  }

  pub add_code-Later :
      (c : CodeRow) (a : Accounts)
      → (c.code_hash == h) ≡ false
      → Later h t r a (record a { operator_enrolment_codes = c ∷ a.operator_enrolment_codes })
  unfolding is_out is_spent is_reviewer_spent has_disabled exists_where
  add_code-Later c a differ = record {
    out = λ e. e;
    spent = λ e. rw differ e;
    reviewer_spent = λ e. e;
    disabled = λ e. e;
  }

  pub add_reviewer_code-Later :
      (c : CodeRow) (a : Accounts)
      → (c.code_hash == h) ≡ false
      → Later h t r a (record a { reviewer_enrolment_codes = c ∷ a.reviewer_enrolment_codes })
  unfolding is_out is_spent is_reviewer_spent has_disabled exists_where
  add_reviewer_code-Later c a differ = record {
    out = λ e. e;
    spent = λ e. e;
    reviewer_spent = λ e. rw differ e;
    disabled = λ e. e;
  }

  -- A change of codes that redeems or voids.
  pub spend-Later :
      (q : CodeRow → Bool) (f : CodeRow → CodeRow) (a : Accounts)
      → ((c : CodeRow) → is_unspent h (f c) ≡ true → is_unspent h c ≡ true)
      → Later h t r a
          (record a { operator_enrolment_codes = update_where q f a.operator_enrolment_codes })
  unfolding is_out is_spent is_reviewer_spent has_disabled
  spend-Later q f a k = record {
    out = λ e. e;
    spent = λ e. unless (
        not_exists-update (is_unspent h) q f (λ c. ground (arith, k c)) a.operator_enrolment_codes
          (not-true e));
    reviewer_spent = λ e. e;
    disabled = λ e. e;
  }

  pub spend_reviewer-Later :
      (q : CodeRow → Bool) (f : CodeRow → CodeRow) (a : Accounts)
      → ((c : CodeRow) → is_unspent h (f c) ≡ true → is_unspent h c ≡ true)
      → Later h t r a
          (record a { reviewer_enrolment_codes = update_where q f a.reviewer_enrolment_codes })
  unfolding is_out is_spent is_reviewer_spent has_disabled
  spend_reviewer-Later q f a k = record {
    out = λ e. e;
    spent = λ e. e;
    reviewer_spent = λ e. unless (
        not_exists-update (is_unspent h) q f (λ c. ground (arith, k c)) a.reviewer_enrolment_codes
          (not-true e));
    disabled = λ e. e;
  }

  pub add_reviewer-Later :
      (v : Reviewer) (a : Accounts) → Later h t r a (record a { reviewers = v ∷ a.reviewers })
  unfolding is_out is_spent is_reviewer_spent has_disabled exists_where
  add_reviewer-Later v a = record {
    out = λ e. e;
    spent = λ e. e;
    reviewer_spent = λ e. e;
    disabled = λ e. ground arith;
  }

  -- A change of reviewers that enables none.
  pub change_reviewer-Later :
      (q : Reviewer → Bool) (f : Reviewer → Reviewer) (a : Accounts)
      → ((v : Reviewer) → is_disabled r v ≡ true → is_disabled r (f v) ≡ true)
      → Later h t r a (record a { reviewers = update_where q f a.reviewers })
  unfolding is_out is_spent is_reviewer_spent has_disabled
  change_reviewer-Later q f a k = record {
    out = λ e. e;
    spent = λ e. e;
    reviewer_spent = λ e. e;
    disabled = λ e. exists-update (is_disabled r) q f (λ v. ground (arith, k v)) a.reviewers e;
  }

module _ (h r : ℕ) where
  -- The changes that the operations make.
  pub redeem_unspent :
      (at : ℕ) (c : CodeRow) → is_unspent h (redeem_at at c) ≡ true → is_unspent h c ≡ true
  redeem_unspent at c = ground arith

  pub void_unspent :
      (at : ℕ) (c : CodeRow) → is_unspent h (void_at at c) ≡ true → is_unspent h c ≡ true
  void_unspent at c = ground arith

  pub disable_disabled :
      (at : ℕ) (v : Reviewer) → is_disabled r v ≡ true → is_disabled r (disable_at at v) ≡ true
  disable_disabled at v = ground arith

  pub enrol_disabled :
      (at : ℕ) (v : Reviewer) → is_disabled r v ≡ true → is_disabled r (enrol_at at v) ≡ true
  enrol_disabled at v = ground arith

-- ===== src/Accounts/Disabled.antt =====
-- Disabling a reviewer is final.
use kippu_api.Base.{
  ℕ, ◌≡◌, refl, ap, inl, inr, Bool, true, false, Option, none, some, some-injective, List, [], ◌∷◌,
  arith, ◌==◌, ==_iff, same, Bool-cases, exists_where, find_where, update_where, find-test,
}
use kippu_api.Store.{ok, done, after, ◌>>=◌, get, lift, in_transaction}
use kippu_api.Accounts.Rows.{Text, Session, Reviewer, Accounts}
use kippu_api.Accounts.Email.{normalise_email}
use kippu_api.Accounts.Sessions.{
  organiser_principal, operator_principal, holder_principal, reviewer_principal, SessionInfo,
  is_live, is_disabled, has_disabled, info_of, authenticate,
}
use kippu_api.Accounts.Reviewers.{has_email, is_reviewer, disable_at, disable}
use kippu_api.Accounts.Steps.{World, AccountSteps, steps-Later}

-- Whom a session stands for.
abbrev pub stands_for_reviewer : ℕ → Option SessionInfo → Bool
stands_for_reviewer reviewer_id none = false
stands_for_reviewer reviewer_id (some info) = elim info.principal [
  | reviewer_principal x _ ↦ same x (some reviewer_id)
  | organiser_principal _ _ ↦ false
  | operator_principal _ _ _ ↦ false
  | holder_principal _ _ ↦ false
]

disabled_stands :
    (hash : ℕ → ℕ) (reviewer_id token at : ℕ) (a : Accounts)
    → has_disabled (some reviewer_id) a ≡ true
    → stands_for_reviewer reviewer_id (authenticate hash token at a) ≡ false
unfolding authenticate
disabled_stands hash reviewer_id token at a disabled = by_session _ refl
  where
    enabled : (x : Option ℕ) → has_disabled x a ≡ false → same x (some reviewer_id) ≡ false
    enabled none e = refl
    enabled (some x) e = elim (Bool-cases (x == reviewer_id)) [
      | inl hit ↦
          let same_id = (==_iff x reviewer_id).0 hit in
          absurd (cc (disabled, ap (λ y. has_disabled (some y) a) same_id, e))
      | inr miss ↦ miss
    ]

    by_session :
        (x : Option Session)
        → find_where (is_live hash token at a) a.sessions ≡ x
        → stands_for_reviewer reviewer_id (info_of x) ≡ false
    by_session none e = refl
    by_session (some s) e =
        let live = find-test (is_live hash token at a) a.sessions e in
        let d = enabled s.reviewer_id (ground arith) in ground arith

-- The reviewer that is found is disabled by the update of the row's id.
disabled_row :
    (at : ℕ) (p : Reviewer → Bool) (vs : List Reviewer) {v : Reviewer}
    → find_where p vs ≡ some v
    → exists_where (is_disabled v.id) (update_where (is_reviewer v.id) (disable_at at) vs) ≡ true
unfolding find_where exists_where update_where
disabled_row at p [] e = absurd (cc e)
disabled_row at p (x ∷ vs) {v} e = elim (Bool-cases (p x)) [
  | inl hit ↦
      let same_id : x.id ≡ v.id = ap (λ (y : Reviewer). y.id) (some-injective _ _ (rw hit at e)) in
      let is_id = (==_iff x.id v.id).1 same_id in rw is_id (ground arith)
  | inr miss ↦ let rest = disabled_row at p vs (rw miss at e) in ground arith
]

module _ (w : World) where
  -- Where disabling a reviewer returns, no token stands for that reviewer any more, whatever calls
  -- follow: signing in again or redeeming a code included.
  pub disable-final :
      (email normalised : Text) (v : Reviewer) (at h token later n : ℕ) (a b c : Accounts)
      → normalise_email w.is_space w.trim w.lower email ≡ ok normalised
      → find_where (has_email normalised) a.reviewers ≡ some v
      → disable w.hash w.is_space w.trim w.lower w.webauthn email at a ≡ done n b
      → AccountSteps w h b c
      → stands_for_reviewer v.id (authenticate w.hash token later c) ≡ false
  unfolding disable has_disabled
  disable-final email normalised v at h token later n a b c text hit e steps =
      let same_store = ap after (rw (in_transaction, ◌>>=◌, get, lift, text, hit) at e) in
      disabled_stands w.hash v.id token later c (
        (steps-Later w h 0 v.id steps).disabled
          (rw (← same_store) (disabled_row at (has_email normalised) a.reviewers hit)))

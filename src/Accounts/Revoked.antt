-- ===== src/Accounts/Revoked.antt =====
-- Revoking an operator's sessions is final.
use kippu_api.Base.{
  ℕ, ◌≤◌, ◌≡◌, refl, ap, inl, inr, Bool, true, false, not, ◌&&◌, none, some, List, [], ◌∷◌, arith,
  ◌==◌, same, Bool-cases, exists_where, update_where, find_none,
}
use kippu_api.Store.{done, after, ◌>>=◌, get, lift, in_transaction}
use kippu_api.Accounts.Rows.{Session, Accounts}
use kippu_api.Accounts.Sessions.{revoke_at, is_live, info_of, authenticate}
use kippu_api.Accounts.Operators.{
  RevokedSessions, is_operator_of, is_operator_session, assert_operator, revoked_in,
  revoke_sessions,
}
use kippu_api.Accounts.Later.{opens_after, is_out}
use kippu_api.Accounts.Steps.{World, AccountSteps, steps-Later}

-- The session's token is another's than the operator's.
abbrev pub is_of_other : ℕ → ℕ → Session → Bool
is_of_other h operator s = (s.token_hash == h) && not (same s.operator_id (some operator))

none_opens :
    (h operator at : ℕ) (ss : List Session)
    → exists_where (is_of_other h operator) ss ≡ false
    → exists_where
        (opens_after h at)
        (update_where (is_operator_session operator at) (revoke_at at) ss)
      ≡ false
unfolding exists_where update_where
none_opens h operator at [] e = refl
none_opens h operator at (s ∷ ss) e =
    let rest = none_opens h operator at ss (ground arith) in ground arith

out_stays :
    (hash : ℕ → ℕ) (token at later : ℕ) (a : Accounts)
    → at ≤ later
    → is_out (hash token) at a ≡ true
    → authenticate hash token later a ≡ none
unfolding is_out authenticate
out_stays hash token at later a le out = ap info_of (
    find_none (opens_after (hash token) at) (is_live hash token later a) a.sessions
      (λ s e. ground arith) (ground arith))

module _ (w : World) where
  -- Where an organiser's revoking of an operator's sessions returns, a token that stood for that
  -- operator alone stands for nobody from then on, whatever calls follow, as long as none of them
  -- makes a secret with the token's hash.
  pub revoke_sessions-final :
      (organiser_id operator at token later : ℕ) (r : RevokedSessions) (a b c : Accounts)
      → exists_where (is_of_other (w.hash token) operator) a.sessions ≡ false
      → revoke_sessions organiser_id operator at a ≡ done r b
      → AccountSteps w (w.hash token) b c
      → at ≤ later
      → authenticate w.hash token later c ≡ none
  unfolding revoke_sessions is_out
  revoke_sessions-final organiser_id operator at token later r a b c alone e steps le =
      elim (Bool-cases (exists_where (is_operator_of organiser_id operator) a.operators)) [
        | inl owned ↦
            let same_store : revoked_in operator at a ≡ b =
              ap after (rw (in_transaction, ◌>>=◌, get, lift, assert_operator, owned) at e) in
            out_stays w.hash token at later c le (
              (steps-Later w (w.hash token) at 0 steps).out (
                rw (← same_store)
                  (ap not (none_opens (w.hash token) operator at a.sessions alone))))
        | inr stranger ↦
            absurd (cc (rw (in_transaction, ◌>>=◌, get, lift, assert_operator, stranger) at e))
      ]

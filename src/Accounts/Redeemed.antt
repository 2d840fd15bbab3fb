-- ===== src/Accounts/Redeemed.antt =====
-- An operator's enrolment code is redeemed once.
use kippu_api.Base.{
  ℕ, ◌≤◌, ◌≡◌, refl, ap, inl, inr, Bool, true, false, not, Option, none, some, List, [], ◌∷◌, arith,
  ◌==◌, same, Bool-cases, exists_where, find_where, update_where, count_where, find_none,
}
use kippu_api.Store.{
  done, threw, after, auth_error, enrolment_code_rejected, ◌>>=◌, get, lift, in_transaction,
}
use kippu_api.Accounts.Rows.{CodeRow, Operator, Accounts}
use kippu_api.Accounts.Sessions.{Opening, IssuedSession, issue_session}
use kippu_api.Accounts.Organisers.{is_redeemable, redeem_at, owner_of, redeem_operator_code}
use kippu_api.Accounts.Later.{is_unspent, is_spent}
use kippu_api.Accounts.Steps.{World, AccountSteps, steps-Later}

-- The codes of one hash are one row.
abbrev pub has_hash : ℕ → CodeRow → Bool
has_hash h c = c.code_hash == h

redeemed_spent :
    (h at : ℕ) (cs : List CodeRow) {c : CodeRow}
    → find_where (is_redeemable h at) cs ≡ some c
    → count_where (has_hash h) cs ≤ 1
    → exists_where (is_unspent h) (update_where (is_redeemable h at) (redeem_at at) cs) ≡ false
unfolding find_where count_where exists_where update_where
redeemed_spent h at [] e u = refl
redeemed_spent h at (d ∷ cs) {c} e u = elim (Bool-cases (is_redeemable h at d)) [
  | inl hit ↦
      let none_left : count_where (has_hash h) cs ≡ 0 = ground arith in
      let rest = none_after h at cs none_left in rw hit (ground arith)
  | inr miss ↦
      let found_later = rw miss at e in
      let has_one = found_counted h at cs found_later in
      let rest = redeemed_spent h at cs found_later (ground arith) in rw (miss, rest) (ground arith)
]
  where
    none_after :
        (h at : ℕ) (cs : List CodeRow)
        → count_where (has_hash h) cs ≡ 0
        → exists_where (is_unspent h) (update_where (is_redeemable h at) (redeem_at at) cs) ≡ false
    none_after h at [] z = refl
    none_after h at (d ∷ cs) z = let rest = none_after h at cs (ground arith) in ground arith

    found_counted :
        (h at : ℕ) (cs : List CodeRow) {c : CodeRow}
        → find_where (is_redeemable h at) cs ≡ some c
        → 1 ≤ count_where (has_hash h) cs
    found_counted h at [] e = absurd (cc e)
    found_counted h at (d ∷ cs) e = elim (Bool-cases (is_redeemable h at d)) [
      | inl hit ↦ ground arith
      | inr miss ↦ let rest = found_counted h at cs (rw miss at e) in ground arith
    ]

spent_refused :
    (hash : ℕ → ℕ) (code at : ℕ) (o : Opening) (a : Accounts)
    → is_spent (hash code) a ≡ true
    → redeem_operator_code hash code at o a ≡ threw (auth_error enrolment_code_rejected) a
unfolding is_spent redeem_operator_code
spent_refused hash code at o a spent =
    let missing =
      find_none (is_unspent (hash code)) (is_redeemable (hash code) at) a.operator_enrolment_codes
        (λ c e. ground arith) (ground arith) in
    rw (in_transaction, ◌>>=◌, get, lift, missing) refl

module _ (w : World) where
  -- An enrolment code is redeemed once: where a redemption returns, with the code's hash the key of
  -- one row at most, every later redemption of the code is refused and changes nothing, whatever
  -- calls come between, as long as none of them makes a secret with the code's hash.
  pub redeem_operator_code-once :
      (code at later : ℕ) (o o' : Opening) (s : IssuedSession) (a b c : Accounts)
      → count_where (has_hash (w.hash code)) a.operator_enrolment_codes ≤ 1
      → redeem_operator_code w.hash code at o a ≡ done s b
      → AccountSteps w (w.hash code) b c
      → redeem_operator_code w.hash code later o' c ≡ threw (auth_error enrolment_code_rejected) c
  unfolding redeem_operator_code issue_session is_spent
  redeem_operator_code-once code at later o o' s a b c unique e steps =
      spent_refused w.hash code later o' c
        ((steps-Later w (w.hash code) at 0 steps).spent (by_code _ refl))
    where
      by_owner :
          (d : CodeRow)
          → find_where (is_redeemable (w.hash code) at) a.operator_enrolment_codes ≡ some d
          → (x : Option Operator) → owner_of a (some d) ≡ x
          → is_spent (w.hash code) b ≡ true
      by_owner d hit none same = absurd (cc (rw (in_transaction, ◌>>=◌, get, lift, hit, same) at e))
      by_owner d hit (some x) same =
          let same_store = ap after (rw (in_transaction, ◌>>=◌, get, lift, hit, same) at e) in
          rw (← same_store)
            (ap not (redeemed_spent (w.hash code) at a.operator_enrolment_codes hit unique))

      by_code :
          (x : Option CodeRow)
          → find_where (is_redeemable (w.hash code) at) a.operator_enrolment_codes ≡ x
          → is_spent (w.hash code) b ≡ true
      by_code none missing = absurd (cc (rw (in_transaction, ◌>>=◌, get, lift, missing) at e))
      by_code (some d) hit = by_owner d hit _ refl

-- ===== src/Accounts/Holders.antt =====
-- src/auth/service.ts: linking a holder's account by a proof of control. The profile
-- (@ticketto/profile-v0) and the ledger's registrations are parameters.
use kippu_api.Base.{
  ℕ, ◌+◌, ◌*◌, Bool, ◌&&◌, Option, none, some, ◌∷◌, ◌==◌, if◌then◌else◌, exists_where, find_where,
  update_where, delete_where, same_text,
}
use kippu_api.Store.{
  Try, ok, fail, Answer, found, refused, auth_error, invalid_input, link_rejected, On, ◌>>=◌, ◌>>◌,
  get, modify, lift, pure, throw, in_transaction,
}
use kippu_api.Accounts.Rows.{Text, Holder, LinkChallenge, Accounts}
use kippu_api.Accounts.Email.{is_account_hex, is_hex}
use kippu_api.Accounts.Sessions.{
  holder_session_ms, holder_login, IssuedSession, Opening, issue_session,
}

-- HOLDER_CHALLENGE_MS
abbrev pub holder_challenge_ms : ℕ
holder_challenge_ms = 5 * 60 * 1000

pub record Claimed : Type 0 where
  pub account : Text
  pub credential : ℕ

pub record HolderProfile : Type 0 where
  -- `decodeAuthorisation(bytes).kind === "passWebAuthn"`, false where it throws
  pub is_pass_webauthn : Text → Bool
  pub account_of : Text → Option Claimed
  -- the challenge, the authorisation, the registration and the time
  pub verify_proof : LinkChallenge → Text → ℕ → ℕ → Bool

-- `getCredential` of the ledger: the registration, or `null`.
abbrev pub Registrations : Type 0
Registrations = Text → ℕ → Answer (Option ℕ)

abbrev pub is_challenge : ℕ → LinkChallenge → Bool
is_challenge id c = c.id == id

abbrev pub is_account : Text → Holder → Bool
is_account account h = same_text h.account account

abbrev pub linked_at_time : ℕ → Holder → Holder
linked_at_time at h = record h { last_linked_at = at }

abbrev pub new_challenge : Text → ℕ → ℕ → ℕ → ℕ → LinkChallenge
new_challenge account challenge_id nonce from created_at = record {
  id = challenge_id;
  account = account;
  nonce = nonce;
  expires_at = from + holder_challenge_ms;
  created_at = created_at;
}

unfoldable pub begin_holder_link : Text → ℕ → ℕ → ℕ → ℕ → On Accounts LinkChallenge
begin_holder_link account challenge_id nonce from created_at =
    if is_account_hex account
    then (modify (λ a. record a {
      holder_link_challenges =
          new_challenge account challenge_id nonce from created_at ∷ a.holder_link_challenges;
    })
        >> pure (new_challenge account challenge_id nonce from created_at))
    else throw (auth_error invalid_input)

module _ (hash : ℕ → ℕ) (profile : HolderProfile) (registrations : Option Registrations) where
  -- The credential that the ledger has registered, where the claim names the challenge's account.
  abbrev pub registration_of : Registrations → Claimed → Try ℕ
  registration_of read c = elim (read c.account c.credential) [
    | found (some registration) ↦ ok registration
    | found none ↦ fail (auth_error link_rejected)
    | refused _ ↦ fail (auth_error link_rejected)
  ]

  abbrev pub proved : Registrations → LinkChallenge → Text → ℕ → Option Claimed → Try Claimed
  proved read challenge authorisation at none = fail (auth_error link_rejected)
  proved read challenge authorisation at (some c) =
      if same_text c.account challenge.account
      then elim (registration_of read c) [
        | ok registration ↦
            if profile.verify_proof challenge authorisation registration at
            then ok c
            else fail (auth_error link_rejected)
        | fail e ↦ fail e
      ]
      else fail (auth_error link_rejected)

  -- One refusal for every failure.
  unfoldable pub check_proof : Option Registrations → Option LinkChallenge → Text → ℕ → Try Claimed
  check_proof (some read) (some challenge) authorisation at =
      if is_hex authorisation && profile.is_pass_webauthn authorisation
      then proved read challenge authorisation at (profile.account_of authorisation)
      else fail (auth_error link_rejected)
  check_proof _ _ authorisation at = fail (auth_error link_rejected)

  -- INSERT … ON CONFLICT (account) DO UPDATE
  abbrev pub upsert_holder : Text → ℕ → Accounts → Accounts
  upsert_holder account at a =
      if exists_where (is_account account) a.holders
      then record a { holders = update_where (is_account account) (linked_at_time at) a.holders }
      else record a {
        holders = record { account = account; created_at = at; last_linked_at = at } ∷ a.holders;
      }

  unfoldable pub link_holder : Claimed → ℕ → Opening → On Accounts IssuedSession
  link_holder c linked_at o = in_transaction (
      modify (upsert_holder c.account linked_at)
      >> issue_session hash (holder_login c.account c.credential) holder_session_ms o)

  -- The challenge is deleted whatever the answer.
  unfoldable pub complete_holder_link : ℕ → Text → ℕ → ℕ → Opening → On Accounts IssuedSession
  complete_holder_link challenge_id authorisation at linked_at o = do
    a ← get
    modify (λ b. record b {
      holder_link_challenges = delete_where (is_challenge challenge_id) b.holder_link_challenges;
    })
    c ← lift (
        check_proof registrations (find_where (is_challenge challenge_id) a.holder_link_challenges)
          authorisation at)
    link_holder c linked_at o

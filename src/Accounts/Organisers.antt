-- ===== src/Accounts/Organisers.antt =====
-- src/auth/service.ts: organisers' sign-up and sign-in with a passkey, and operators' enrolment
-- codes. WebAuthn (@simplewebauthn/server) is a parameter: the challenge that it generates is an
-- argument, and its verification answers the passkey or its new counter, or nothing.
use kippu_api.Base.{
  ℕ, ◌+◌, ◌*◌, Bool, true, false, not, ◌&&◌, ◌||◌, Option, none, some, ◌∷◌, ◌==◌, ltb, is_some,
  if◌then◌else◌, exists_where, find_where, update_where, delete_where, same_text,
}
use kippu_api.Store.{
  Try, ok, fail, auth_error, email_taken, unknown_organiser, ceremony_expired, credential_rejected,
  enrolment_code_rejected, On, ◌>>=◌, ◌>>◌, get, modify, lift, pure, throw, in_transaction,
}
use kippu_api.Accounts.Rows.{
  Text, Organiser, PasskeyRow, CeremonyKind, organiser_sign_up, organiser_sign_in, Ceremony,
  Operator, CodeRow, Accounts,
}
use kippu_api.Accounts.Email.{normalise_email}
use kippu_api.Accounts.Sessions.{
  organiser_session_ms, operator_session_ms, organiser_login, operator_login, IssuedSession,
  Opening, issue_session,
}

-- CEREMONY_MS
abbrev pub ceremony_ms : ℕ
ceremony_ms = 5 * 60 * 1000

-- What a WebAuthn registration gives: `verification.registrationInfo.credential`.
pub record Registered : Type 0 where
  pub credential_id : ℕ
  pub public_key : ℕ
  pub counter : ℕ

pub record WebAuthn : Type 0 where
  -- the response, then the challenge that it must answer
  pub verify_registration : ℕ → ℕ → Option Registered
  -- the response, the challenge and the passkey; the new counter
  pub verify_authentication : ℕ → ℕ → PasskeyRow → Option ℕ
  -- the passkey that a response names
  pub credential_of : ℕ → ℕ

abbrev pub same_ceremony_kind : CeremonyKind → CeremonyKind → Bool
same_ceremony_kind organiser_sign_up organiser_sign_up = true
same_ceremony_kind organiser_sign_in organiser_sign_in = true
same_ceremony_kind _ _ = false

abbrev pub is_ceremony : CeremonyKind → ℕ → Ceremony → Bool
is_ceremony kind id c = (c.id == id) && same_ceremony_kind c.kind kind

abbrev pub live_ceremony : ℕ → Option Ceremony → Try Ceremony
live_ceremony at none = fail (auth_error ceremony_expired)
live_ceremony at (some c) = if ltb at c.expires_at then ok c else fail (auth_error ceremony_expired)

-- The deletion is committed whatever the answer.
unfoldable pub consume_ceremony : CeremonyKind → ℕ → ℕ → On Accounts Ceremony
consume_ceremony kind id at = do
  a ← get
  modify (λ b. record b {
    webauthn_ceremonies = delete_where (is_ceremony kind id) b.webauthn_ceremonies;
  })
  lift (live_ceremony at (find_where (is_ceremony kind id) a.webauthn_ceremonies))

unfoldable pub open_ceremony : CeremonyKind → ℕ → ℕ → ℕ → Text → ℕ → ℕ → On Accounts ℕ
open_ceremony kind id challenge organiser_id email created_at from = do
  modify (λ a. record a {
    webauthn_ceremonies =
        record {
          id = id;
          kind = kind;
          challenge = challenge;
          organiser_id = organiser_id;
          email = email;
          created_at = created_at;
          expires_at = from + ceremony_ms;
        }
        ∷ a.webauthn_ceremonies;
  })
  pure id

abbrev pub uses_email : Text → Organiser → Bool
uses_email email o = same_text o.email email

abbrev pub has_credential : ℕ → PasskeyRow → Bool
has_credential credential_id p = p.credential_id == credential_id

abbrev pub is_credential_of : ℕ → ℕ → PasskeyRow → Bool
is_credential_of credential_id owner p = (p.credential_id == credential_id) && (p.owner == owner)

abbrev pub passkey_of : ℕ → ℕ → Registered → PasskeyRow
passkey_of owner at r = record {
  credential_id = r.credential_id;
  owner = owner;
  public_key = r.public_key;
  sign_count = r.counter;
  created_at = at;
  last_used_at = none;
}

abbrev pub used_passkey : ℕ → ℕ → PasskeyRow → PasskeyRow
used_passkey counter at p = record p { sign_count = counter; last_used_at = some at }

-- A value of an outside check, or the refusal of the credential.
abbrev pub verified {ℓ} : {A : Type ℓ} → Option A → Try A
verified none = fail (auth_error credential_rejected)
verified (some x) = ok x

module _ (hash : ℕ → ℕ) (is_space : ℕ → Bool) (trim lower : Text → Text) (webauthn : WebAuthn) where
  unfoldable pub begin_organiser_sign_up : Text → ℕ → ℕ → ℕ → ℕ → ℕ → On Accounts ℕ
  begin_organiser_sign_up email organiser_id ceremony_id challenge created_at from = do
    normalised ← lift (normalise_email is_space trim lower email)
    a ← get
    if exists_where (uses_email normalised) a.organisers
        then throw (auth_error email_taken)
        else open_ceremony organiser_sign_up ceremony_id challenge organiser_id normalised
            created_at from

  -- The unique columns: a row's id, an email, a passkey's credential.
  abbrev pub is_taken : Ceremony → Registered → Accounts → Bool
  is_taken c r a =
      exists_where (uses_email c.email) a.organisers
      || exists_where (λ (o : Organiser). o.id == c.organiser_id) a.organisers
      || exists_where (has_credential r.credential_id) a.organiser_passkeys

  abbrev pub add_organiser : Ceremony → Registered → ℕ → ℕ → Accounts → Accounts
  add_organiser c r created_at added_at a = record a {
    organisers =
        record { id = c.organiser_id; email = c.email; created_at = created_at } ∷ a.organisers;
    organiser_passkeys = passkey_of c.organiser_id added_at r ∷ a.organiser_passkeys;
  }

  unfoldable pub sign_up : Ceremony → Registered → ℕ → ℕ → Opening → On Accounts IssuedSession
  sign_up c r created_at added_at o = in_transaction do
    a ← get
    if is_taken c r a
        then throw (auth_error email_taken)
        else (modify (add_organiser c r created_at added_at)
            >> issue_session hash (organiser_login c.organiser_id) organiser_session_ms o)

  unfoldable pub complete_organiser_sign_up :
      ℕ → ℕ → ℕ → ℕ → ℕ → Opening → On Accounts IssuedSession
  complete_organiser_sign_up ceremony_id credential at created_at added_at o = do
    c ← consume_ceremony organiser_sign_up ceremony_id at
    r ← lift (verified (webauthn.verify_registration credential c.challenge))
    sign_up c r created_at added_at o

  abbrev pub known_organiser : Option Organiser → Try Organiser
  known_organiser none = fail (auth_error unknown_organiser)
  known_organiser (some x) = ok x

  unfoldable pub begin_organiser_sign_in : Text → ℕ → ℕ → ℕ → ℕ → On Accounts ℕ
  begin_organiser_sign_in email ceremony_id challenge created_at from = do
    normalised ← lift (normalise_email is_space trim lower email)
    a ← get
    organiser ← lift (known_organiser (find_where (uses_email normalised) a.organisers))
    open_ceremony organiser_sign_in ceremony_id challenge organiser.id normalised created_at from

  unfoldable pub sign_in : Ceremony → PasskeyRow → ℕ → ℕ → Opening → On Accounts IssuedSession
  sign_in c p counter used_at o = in_transaction (
      modify (λ a. record a {
        organiser_passkeys =
            update_where (has_credential p.credential_id) (used_passkey counter used_at)
              a.organiser_passkeys;
      })
      >> issue_session hash (organiser_login c.organiser_id) organiser_session_ms o)

  unfoldable pub complete_organiser_sign_in : ℕ → ℕ → ℕ → ℕ → Opening → On Accounts IssuedSession
  complete_organiser_sign_in ceremony_id credential at used_at o = do
    c ← consume_ceremony organiser_sign_in ceremony_id at
    a ← get
    p ← lift (
        verified (
          find_where (is_credential_of (webauthn.credential_of credential) c.organiser_id)
            a.organiser_passkeys))
    counter ← lift (verified (webauthn.verify_authentication credential c.challenge p))
    sign_in c p counter used_at o

-- Neither redeemed, voided nor expired.
abbrev pub is_redeemable : ℕ → ℕ → CodeRow → Bool
is_redeemable code_hash at c =
    (c.code_hash == code_hash)
    && not (is_some c.redeemed_at)
    && not (is_some c.voided_at)
    && ltb at c.expires_at

abbrev pub redeem_at : ℕ → CodeRow → CodeRow
redeem_at at c = record c { redeemed_at = some at }

abbrev pub owner_of : Accounts → Option CodeRow → Option Operator
owner_of a none = none
owner_of a (some c) = find_where (λ (o : Operator). o.id == c.owner) a.operators

abbrev pub redeemed_by : Option Operator → Try Operator
redeemed_by none = fail (auth_error enrolment_code_rejected)
redeemed_by (some o) = ok o

unfoldable pub redeem_operator_code : (ℕ → ℕ) → ℕ → ℕ → Opening → On Accounts IssuedSession
redeem_operator_code hash code at o = in_transaction do
  a ← get
  operator ← lift (
      redeemed_by
        (owner_of a (find_where (is_redeemable (hash code) at) a.operator_enrolment_codes)))
  modify (λ b. record b {
    operator_enrolment_codes =
        update_where (is_redeemable (hash code) at) (redeem_at at) b.operator_enrolment_codes;
  })
  issue_session hash (operator_login operator.organiser_id operator.id) operator_session_ms o

-- ===== src/Accounts/Sessions.antt =====
-- Sessions of src/auth/service.ts and src/reviewers/service.ts: opening one, who a token stands
-- for, and ending one. `hash` is SHA-256; ids, secrets and readings of the clock are arguments.
use kippu_api.Base.{
  ℕ, ◌+◌, ◌*◌, Bool, true, false, not, ◌&&◌, Option, none, some, ◌∷◌, ◌==◌, ltb, is_some,
  exists_where, find_where, update_where,
}
use kippu_api.Store.{On, ◌>>◌, modify, pure}
use kippu_api.Accounts.Rows.{
  Text, PrincipalKind, organiser_kind, operator_kind, holder_kind, reviewer_kind, Session, Reviewer,
  Accounts,
}

abbrev pub hour_ms : ℕ
hour_ms = 60 * 60 * 1000

-- ORGANISER_SESSION_MS, OPERATOR_SESSION_MS, HOLDER_SESSION_MS and REVIEWER_SESSION_MS
abbrev pub organiser_session_ms : ℕ
organiser_session_ms = 12 * hour_ms

abbrev pub operator_session_ms : ℕ
operator_session_ms = 24 * hour_ms

abbrev pub holder_session_ms : ℕ
holder_session_ms = 30 * 24 * hour_ms

abbrev pub reviewer_session_ms : ℕ
reviewer_session_ms = 12 * hour_ms

-- REVOKED_OPERATOR_REPORTING_MS
abbrev pub revoked_operator_reporting_ms : ℕ
revoked_operator_reporting_ms = 24 * hour_ms

-- Whom a session is opened for.
pub data Login : Type 0 where
  organiser_login : (organiser_id : ℕ) → Login
  operator_login : (organiser_id operator_id : ℕ) → Login
  holder_login : (account : Text) (credential : ℕ) → Login
  reviewer_login : (reviewer_id : ℕ) → Login

abbrev pub kind_of : Login → PrincipalKind
kind_of (organiser_login _) = organiser_kind
kind_of (operator_login _ _) = operator_kind
kind_of (holder_login _ _) = holder_kind
kind_of (reviewer_login _) = reviewer_kind

abbrev pub organiser_of : Login → Option ℕ
organiser_of (organiser_login organiser_id) = some organiser_id
organiser_of (operator_login organiser_id _) = some organiser_id
organiser_of _ = none

abbrev pub operator_of : Login → Option ℕ
operator_of (operator_login _ operator_id) = some operator_id
operator_of _ = none

abbrev pub account_of_login : Login → Option Text
account_of_login (holder_login account _) = some account
account_of_login _ = none

abbrev pub credential_of_login : Login → Option ℕ
credential_of_login (holder_login _ credential) = some credential
credential_of_login _ = none

abbrev pub reviewer_of : Login → Option ℕ
reviewer_of (reviewer_login reviewer_id) = some reviewer_id
reviewer_of _ = none

pub record IssuedSession : Type 0 where
  pub token : ℕ
  pub expires_at : ℕ

-- The principal of a request, its ids as the session's columns hold them.
pub data Principal : Type 0 where
  organiser_principal : (organiser_id : Option ℕ) (session_id : ℕ) → Principal
  operator_principal : (operator_id organiser_id : Option ℕ) (session_id : ℕ) → Principal
  holder_principal : (account : Option Text) (session_id : ℕ) → Principal
  reviewer_principal : (reviewer_id : Option ℕ) (session_id : ℕ) → Principal

pub record SessionInfo : Type 0 where
  pub principal : Principal
  pub expires_at : ℕ

-- What the caller of `randomUUID`, `randomBytes` and `now` is given.
pub record Opening : Type 0 where
  pub id : ℕ
  pub token : ℕ
  pub created_at : ℕ
  pub from : ℕ

abbrev pub is_disabled : ℕ → Reviewer → Bool
is_disabled reviewer_id r = (r.id == reviewer_id) && is_some r.disabled_at

-- Not `r.disabled_at IS NULL` for the reviewer that a LEFT JOIN finds.
unfoldable pub has_disabled : Option ℕ → Accounts → Bool
has_disabled none a = false
has_disabled (some reviewer_id) a = exists_where (is_disabled reviewer_id) a.reviewers

abbrev pub principal_of : Session → Principal
principal_of s = elim s.principal_kind [
  | operator_kind ↦ operator_principal s.operator_id s.organiser_id s.id
  | holder_kind ↦ holder_principal s.holder_account s.id
  | reviewer_kind ↦ reviewer_principal s.reviewer_id s.id
  | organiser_kind ↦ organiser_principal s.organiser_id s.id
]

abbrev pub info_of : Option Session → Option SessionInfo
info_of none = none
info_of (some s) = some (record { principal = principal_of s; expires_at = s.expires_at })

pub record RevokedOperatorSession : Type 0 where
  pub operator_id : Option ℕ
  pub organiser_id : Option ℕ
  pub session_id : ℕ
  pub revoked_at : Option ℕ

abbrev pub revoked_of : Option Session → Option RevokedOperatorSession
revoked_of none = none
revoked_of (some s) = some (record {
  operator_id = s.operator_id;
  organiser_id = s.organiser_id;
  session_id = s.id;
  revoked_at = s.revoked_at;
})

abbrev pub is_operator_kind : PrincipalKind → Bool
is_operator_kind operator_kind = true
is_operator_kind _ = false

-- `revoked_at IS NOT NULL AND revoked_at > at - REVOKED_OPERATOR_REPORTING_MS`, on dates
abbrev pub is_lately : ℕ → Option ℕ → Bool
is_lately at none = false
is_lately at (some revoked_at) = ltb at (revoked_at + revoked_operator_reporting_ms)

module _ (hash : ℕ → ℕ) where
  abbrev pub new_session : Login → ℕ → Opening → Session
  new_session login lifetime o = record {
    id = o.id;
    token_hash = hash o.token;
    principal_kind = kind_of login;
    organiser_id = organiser_of login;
    operator_id = operator_of login;
    holder_account = account_of_login login;
    reviewer_id = reviewer_of login;
    holder_credential = credential_of_login login;
    created_at = o.created_at;
    expires_at = o.from + lifetime;
    revoked_at = none;
  }

  unfoldable pub issue_session : Login → ℕ → Opening → On Accounts IssuedSession
  issue_session login lifetime o =
      modify (λ a. record a { sessions = new_session login lifetime o ∷ a.sessions })
      >> pure (record { token = o.token; expires_at = o.from + lifetime })

  abbrev pub is_live : ℕ → ℕ → Accounts → Session → Bool
  is_live token at a s =
      (s.token_hash == hash token)
      && not (is_some s.revoked_at)
      && ltb at s.expires_at
      && not (has_disabled s.reviewer_id a)

  unfoldable pub authenticate : ℕ → ℕ → Accounts → Option SessionInfo
  authenticate token at a = info_of (find_where (is_live token at a) a.sessions)

  unfoldable pub authenticate_revoked_operator : ℕ → ℕ → Accounts → Option RevokedOperatorSession
  authenticate_revoked_operator token at a = revoked_of (
      find_where
        (λ (s : Session).
          (s.token_hash == hash token)
          && is_operator_kind s.principal_kind
          && is_lately at s.revoked_at)
        a.sessions)

abbrev pub is_open_session : ℕ → Session → Bool
is_open_session session_id s = (s.id == session_id) && not (is_some s.revoked_at)

abbrev pub revoke_at : ℕ → Session → Session
revoke_at at s = record s { revoked_at = some at }

unfoldable pub sign_out : ℕ → ℕ → On Accounts (Unit {0})
sign_out session_id at = modify (λ a. record a {
  sessions = update_where (is_open_session session_id) (revoke_at at) a.sessions;
})

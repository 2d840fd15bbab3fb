-- ===== src/Accounts/Operators.antt =====
-- src/operators/service.ts: an organiser's operators, their enrolment codes and their grants of an
-- event's gates, and the check at a gate.
use kippu_api.Base.{
  ℕ, ◌+◌, ◌*◌, Bool, true, false, not, ◌&&◌, ◌||◌, Option, none, some, List, [], ◌∷◌, map, ◌==◌,
  ltb, leb, is_some, same, if◌then◌else◌, exists_where, find_where, select_where, update_where,
  count_where, append, order_by, first_of,
}
use kippu_api.Store.{
  Try, ok, fail, Ledger, refused_request, not_found, forbidden, Reason, unknown_operator,
  unknown_grant, not_granted, grant_revoked, before_window, after_window, On, ◌>>=◌, ◌>>◌, get,
  modify, lift, pure, in_transaction,
}
use kippu_api.Accounts.Rows.{Session, Operator, CodeRow, GrantRow, Accounts}
use kippu_api.Accounts.Sessions.{revoke_at}
use kippu_api.Accounts.Reviewers.{is_unspent_of, void_at}
use kippu_api.Events.Ownership.{owned_event}

-- ENROLMENT_CODE_MS
abbrev pub enrolment_code_ms : ℕ
enrolment_code_ms = 60 * 60 * 1000

pub record OperatorAccount : Type 0 where
  pub id : ℕ
  pub name : ℕ
  pub created_at : ℕ
  pub live_sessions : ℕ

pub record RevokedSessions : Type 0 where
  pub operator : ℕ
  pub sessions_revoked : ℕ
  pub codes_voided : ℕ

pub record GrantInput : Type 0 where
  pub operator : ℕ
  pub event : ℕ
  pub gates : List ℕ
  pub from : ℕ
  pub until : ℕ

-- Who makes a call from an operator's session.
pub record OperatorCaller : Type 0 where
  pub operator_id : ℕ
  pub organiser_id : ℕ
  pub session_id : ℕ

pub record Authorisation : Type 0 where
  pub event : ℕ
  pub gate : ℕ
  pub grant : ℕ
  pub until : ℕ
  pub checked_at : ℕ

abbrev pub is_operator_of : ℕ → ℕ → Operator → Bool
is_operator_of organiser_id operator o = (o.id == operator) && (o.organiser_id == organiser_id)

abbrev pub assert_operator : ℕ → ℕ → Accounts → Try (Unit {0})
assert_operator organiser_id operator a =
    if exists_where (is_operator_of organiser_id operator) a.operators
    then ok tt
    else fail (refused_request not_found (some unknown_operator))

unfoldable pub create_operator : ℕ → ℕ → ℕ → ℕ → ℕ → On Accounts OperatorAccount
create_operator organiser_id request_id name id created_at = do
  modify (λ a. record a {
    operators =
        record {
          id = id;
          organiser_id = organiser_id;
          name = name;
          created_request_id = request_id;
          created_at = created_at;
        }
        ∷ a.operators;
  })
  pure (record { id = id; name = name; created_at = created_at; live_sessions = 0 })

abbrev pub is_operator_session : ℕ → ℕ → Session → Bool
is_operator_session operator at s =
    same s.operator_id (some operator) && not (is_some s.revoked_at) && ltb at s.expires_at

abbrev pub account_row : Accounts → ℕ → Operator → OperatorAccount
account_row a at o = record {
  id = o.id;
  name = o.name;
  created_at = o.created_at;
  live_sessions = count_where (is_operator_session o.id at) a.sessions;
}

-- ORDER BY created_at, id
abbrev pub is_older : Operator → Operator → Bool
is_older o p = ltb o.created_at p.created_at || ((o.created_at == p.created_at) && leb o.id p.id)

unfoldable pub list_operators : ℕ → ℕ → Accounts → List OperatorAccount
list_operators organiser_id at a = map (account_row a at) (
    order_by is_older (select_where (λ (o : Operator). o.organiser_id == organiser_id) a.operators))

abbrev pub new_code : ℕ → ℕ → ℕ → CodeRow
new_code code_hash operator issued_at = record {
  code_hash = code_hash;
  owner = operator;
  expires_at = issued_at + enrolment_code_ms;
  redeemed_at = none;
  voided_at = none;
  created_at = issued_at;
}

unfoldable pub issue_enrolment_code : (ℕ → ℕ) → ℕ → ℕ → ℕ → ℕ → On Accounts ℕ
issue_enrolment_code hash organiser_id operator code issued_at = in_transaction do
  a ← get
  _ ← lift (assert_operator organiser_id operator a)
  modify (λ b. record b {
    operator_enrolment_codes = new_code (hash code) operator issued_at ∷ b.operator_enrolment_codes;
  })
  pure code

abbrev pub revoked_in : ℕ → ℕ → Accounts → Accounts
revoked_in operator at a = record a {
  operator_enrolment_codes =
      update_where (is_unspent_of operator) (void_at at) a.operator_enrolment_codes;
  sessions = update_where (is_operator_session operator at) (revoke_at at) a.sessions;
}

unfoldable pub revoke_sessions : ℕ → ℕ → ℕ → On Accounts RevokedSessions
revoke_sessions organiser_id operator at = in_transaction do
  a ← get
  _ ← lift (assert_operator organiser_id operator a)
  modify (revoked_in operator at)
  pure (record {
    operator = operator;
    sessions_revoked = count_where (is_operator_session operator at) a.sessions;
    codes_voided = count_where (is_unspent_of operator) a.operator_enrolment_codes;
  })

module _ (ledger : Ledger) (account_of : ℕ → Option ℕ) where
  abbrev pub new_grant : ℕ → ℕ → GrantInput → ℕ → ℕ → GrantRow
  new_grant organiser_id request_id input id at = record {
    id = id;
    operator_id = input.operator;
    organiser_id = organiser_id;
    event = input.event;
    gates = input.gates;
    valid_from = input.from;
    valid_until = input.until;
    created_request_id = request_id;
    created_at = at;
    revoked_at = none;
    revoked_request_id = none;
  }

  unfoldable pub grant_gates : ℕ → ℕ → GrantInput → ℕ → ℕ → On Accounts GrantRow
  grant_gates organiser_id request_id input id at = do
    a ← get
    _ ← lift (assert_operator organiser_id input.operator a)
    _ ← lift (owned_event ledger account_of organiser_id input.event)
    modify (λ b. record b {
      operator_grants = append (new_grant organiser_id request_id input id at) b.operator_grants;
    })
    pure (new_grant organiser_id request_id input id at)

-- $n IS NULL OR column = $n
abbrev pub matches : Option ℕ → ℕ → Bool
matches none n = true
matches (some m) n = n == m

unfoldable pub list_grants : ℕ → Option ℕ → Option ℕ → Accounts → List GrantRow
list_grants organiser_id event operator a =
    select_where
      (λ (g : GrantRow).
        (g.organiser_id == organiser_id) && matches event g.event && matches operator g.operator_id)
      a.operator_grants

abbrev pub is_grant_of : ℕ → ℕ → GrantRow → Bool
is_grant_of organiser_id id g = (g.id == id) && (g.organiser_id == organiser_id)

abbrev pub is_standing_grant : ℕ → ℕ → GrantRow → Bool
is_standing_grant organiser_id id g = is_grant_of organiser_id id g && not (is_some g.revoked_at)

abbrev pub revoke_by : ℕ → ℕ → GrantRow → GrantRow
revoke_by at request_id g = record g { revoked_at = some at; revoked_request_id = some request_id }

abbrev pub known_grant : Option GrantRow → Try GrantRow
known_grant none = fail (refused_request not_found (some unknown_grant))
known_grant (some g) = ok g

-- The row as the UPDATE returns it, or as it is read: the rows of one id are one row.
unfoldable pub revoke_grant : ℕ → ℕ → ℕ → ℕ → On Accounts GrantRow
revoke_grant organiser_id request_id id at = do
  modify (λ a. record a {
    operator_grants =
        update_where (is_standing_grant organiser_id id) (revoke_by at request_id)
          a.operator_grants;
  })
  a ← get
  lift (known_grant (find_where (is_grant_of organiser_id id) a.operator_grants))

abbrev pub starts_first : GrantRow → GrantRow → Bool
starts_first g h = leb g.valid_from h.valid_from

unfoldable pub my_grants : OperatorCaller → ℕ → Accounts → List GrantRow
my_grants caller at a = order_by starts_first (
    select_where
      (λ (g : GrantRow).
        (g.operator_id == caller.operator_id)
        && (g.organiser_id == caller.organiser_id)
        && not (is_some g.revoked_at)
        && ltb at g.valid_until)
      a.operator_grants)

abbrev pub has_gate : ℕ → List ℕ → Bool
has_gate gate [] = false
has_gate gate (g ∷ gs) = let rest = has_gate gate gs in (g == gate) || rest

-- operator_id = $1 AND organiser_id = $2 AND event = $3 AND $4 = ANY (gates)
abbrev pub is_gate_grant : OperatorCaller → ℕ → ℕ → GrantRow → Bool
is_gate_grant caller event gate g =
    (g.operator_id == caller.operator_id)
    && (g.organiser_id == caller.organiser_id)
    && (g.event == event)
    && has_gate gate g.gates

abbrev pub in_window : ℕ → GrantRow → Bool
in_window t g = leb g.valid_from t && ltb t g.valid_until

abbrev pub is_standing : GrantRow → Bool
is_standing g = not (is_some g.revoked_at)

abbrev pub ends_later : GrantRow → GrantRow → Bool
ends_later g h = leb h.valid_until g.valid_until

-- Why a gate refuses, of the grants of the gate.
abbrev pub refused_check : ℕ → List GrantRow → Reason
refused_check t gs =
    if exists_where (λ (g : GrantRow). is_some g.revoked_at && in_window t g) gs
    then grant_revoked
    else (if exists_where (λ (g : GrantRow). is_standing g && ltb t g.valid_from) gs
        then before_window
        else (if exists_where is_standing gs
            then after_window
            else (if exists_where (λ _. true) gs then grant_revoked else not_granted)))

abbrev pub authorised : ℕ → ℕ → ℕ → List GrantRow → Option GrantRow → Try Authorisation
authorised event gate t gs (some g) =
    ok (record { event = event; gate = gate; grant = g.id; until = g.valid_until; checked_at = t })
authorised event gate t gs none = fail (refused_request forbidden (some (refused_check t gs)))

unfoldable pub check_gate : OperatorCaller → ℕ → ℕ → ℕ → Accounts → Try Authorisation
check_gate caller event gate t a =
    let gs = select_where (is_gate_grant caller event gate) a.operator_grants in
    authorised event gate t gs
      (first_of (order_by ends_later (select_where (in_window t) (select_where is_standing gs))))

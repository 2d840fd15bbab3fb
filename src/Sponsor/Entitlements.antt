-- ===== src/Sponsor/Entitlements.antt =====
-- src/sponsor/entitlements.ts: which signed inputs the relay sponsors, and the registrations that it
-- has sponsored for an account, in memory. The profile, the organisers' accounts and the reads of
-- the derived copy are what `createEntitlements` is given: parameters. A time `t` is inside the
-- window at `at` where `at < t + window`, which is `t > at - window` on integers.
pub mod Justified
pub mod Times
pub mod Registrations
pub mod Limit
use kippu_api.Base.{
  ℕ, ◌+◌, Bool, true, false, not, ◌&&◌, ◌||◌, Option, none, some, List, [], ◌∷◌, ◌==◌, ltb, leb,
  if◌then◌else◌, length, select_where, delete_where, append,
}
use kippu_api.Store.{EventStatus, active, sealed, cancelled, finished}

-- The SDK's commands, as far as the relay tells them apart.
pub data Command : Type 0 where
  set_event_status set_event_capacity add_zone remove_zone : (event : ℕ) → Command
  remove_restriction : (event : ℕ) → Command
  create_event : (event salt : ℕ) → Command
  issue_ticket : (event : ℕ) → Command
  transfer_ticket : (ticket event : ℕ) → Command
  register_credential : (account registration : ℕ) → Command
  other_command : (kind : ℕ) → Command

-- What is signed: a command, or the access pass of a ticket.
pub data Input : Type 0 where
  signed_command : Command → (authorisation : ℕ) → Input
  signed_pass : (ticket pass_id : ℕ) → (authorisation : ℕ) → Input

abbrev pub authorisation_of : Input → ℕ
authorisation_of (signed_command _ authorisation) = authorisation
authorisation_of (signed_pass _ _ authorisation) = authorisation

pub record Claim : Type 0 where
  pub account : ℕ
  pub credential : ℕ

pub record SponsorProfile : Type 0 where
  pub account_of : ℕ → Option Claim
  -- `encodeCommand` or `encodePass`
  pub encode : Input → ℕ
  pub registration_account : ℕ → Option Claim
  -- the registration, the payload and the authorisation
  pub verify : ℕ → ℕ → ℕ → Bool
  -- the event id that derives from a signer and a salt
  pub event_id : ℕ → ℕ → ℕ

pub record ReadEvent : Type 0 where
  pub owner : ℕ
  pub status : EventStatus

pub record ReadTicket : Type 0 where
  pub id : ℕ
  pub event : ℕ
  pub holder : ℕ
  pub cannot_transfer : Bool

-- The reads of the derived copy, and the Kippu organisers' ledger accounts.
pub record Reads : Type 0 where
  pub event : ℕ → Option ReadEvent
  pub ticket : ℕ → Option ReadTicket
  -- the credentials of an account, and the registration of one
  pub credentials : ℕ → List ℕ
  pub credential : ℕ → ℕ → Option ℕ
  pub is_organiser_account : ℕ → Bool

pub data Entitlement : Type 0 where
  event_owned : (event owner : ℕ) → Entitlement
  event_created : (event creator : ℕ) → Entitlement
  ticket_held : (ticket holder : ℕ) → Entitlement
  account_creation : (account : ℕ) → Entitlement
  pass_ticket_live : (ticket event : ℕ) → Entitlement

pub data RefusalReason : Type 0 where
  names_no_account first_registration_by_another credential_not_registered : RefusalReason
  authorisation_does_not_verify no_event not_event_owner event_id_does_not_derive : RefusalReason
  not_an_organiser no_ticket not_the_holder untransferable too_many_registrations : RefusalReason
  not_covered event_is_over : RefusalReason

-- The account whose authorisation verifies, or why there is none.
pub data Signer : Type 0 where
  signer : (account : ℕ) → Signer
  no_signer : RefusalReason → Signer

pub data Decision : Type 0 where
  entitled : Entitlement → Decision
  refuse : RefusalReason → Decision

-- The sponsored registrations of an account, by when they were sponsored.
pub record Entry : Type 0 where
  pub account : ℕ
  pub times : List ℕ

-- SWEEP_THRESHOLD
abbrev pub sweep_threshold : ℕ
sweep_threshold = 10000

abbrev pub is_for : ℕ → Entry → Bool
is_for account e = e.account == account

-- `registrations.get(account) ?? []`
unfoldable pub times_of : ℕ → List Entry → List ℕ
times_of account [] = []
times_of account (e ∷ es) = if is_for account e then e.times else times_of account es

-- `registrations.set(account, times)`
unfoldable pub set_times : ℕ → List ℕ → List Entry → List Entry
set_times account times [] = record { account = account; times = times } ∷ []
set_times account times (e ∷ es) =
    if is_for account e
    then record { account = account; times = times } ∷ es
    else e ∷ set_times account times es

abbrev pub every_time : (ℕ → Bool) → List ℕ → Bool
every_time p [] = true
every_time p (t ∷ ts) = let rest = every_time p ts in p t && rest

module _ (profile : SponsorProfile) (reads : Reads) (limit window : ℕ) where
  abbrev pub is_recent : ℕ → ℕ → Bool
  is_recent at t = ltb at (t + window)

  abbrev pub is_past : ℕ → ℕ → Bool
  is_past at t = leb (t + window) at

  abbrev pub is_idle : ℕ → Entry → Bool
  is_idle at e = every_time (is_past at) e.times

  unfoldable pub sweep : ℕ → List Entry → List Entry
  sweep at es = if ltb (length es) sweep_threshold then es else delete_where (is_idle at) es

  -- An account's first registration is authorised by the credential that it registers.
  abbrev pub is_own_registration : Claim → ℕ → Input → Option Claim → Bool
  is_own_registration c registration input none = false
  is_own_registration c registration input (some named) =
      (named.account == c.account)
      && (named.credential == c.credential)
      && profile.verify registration (profile.encode input) (authorisation_of input)

  abbrev pub registered_signer : Claim → Input → Option ℕ → Signer
  registered_signer c input none = no_signer credential_not_registered
  registered_signer c input (some registration) =
      if profile.verify registration (profile.encode input) (authorisation_of input)
      then signer c.account
      else no_signer authorisation_does_not_verify

  abbrev pub by_registration : Claim → Input → Signer
  by_registration c input = registered_signer c input (reads.credential c.account c.credential)

  abbrev pub has_none : List ℕ → Bool
  has_none [] = true
  has_none (_ ∷ _) = false

  abbrev pub first_signer : Claim → Input → ℕ → Signer
  first_signer c input registration =
      if is_own_registration c registration input (profile.registration_account registration)
      then signer c.account
      else no_signer first_registration_by_another

  abbrev pub claimed_signer : Input → Option Claim → Signer
  claimed_signer input none = no_signer names_no_account
  claimed_signer (signed_command (register_credential account registration) authorisation)
        (some c) =
      let input = signed_command (register_credential account registration) authorisation in
      if (account == c.account) && has_none (reads.credentials c.account)
      then first_signer c input registration
      else by_registration c input
  claimed_signer input (some c) = by_registration c input

  unfoldable pub verified_signer : Input → Signer
  verified_signer input = claimed_signer input (profile.account_of (authorisation_of input))

  abbrev pub owned_by : ℕ → ℕ → Option ReadEvent → Decision
  owned_by event by none = refuse no_event
  owned_by event by (some e) =
      if e.owner == by then entitled (event_owned event e.owner) else refuse not_event_owner

  abbrev pub created_by : ℕ → ℕ → ℕ → Decision
  created_by event salt by =
      if profile.event_id by salt == event
      then (if reads.is_organiser_account by
          then entitled (event_created event by)
          else refuse not_an_organiser)
      else refuse event_id_does_not_derive

  abbrev pub held_by : ℕ → ℕ → Option ReadTicket → Decision
  held_by event by none = refuse no_ticket
  held_by event by (some t) =
      if t.event == event
      then (if t.holder == by
          then (if t.cannot_transfer then refuse untransferable else entitled (ticket_held t.id by))
          else refuse not_the_holder)
      else refuse no_ticket

  abbrev pub registered : ℕ → ℕ → List ℕ → List Entry → Decision × List Entry
  registered account at recent es =
      if leb limit (length recent)
      then (refuse too_many_registrations, set_times account recent es)
      else (entitled (account_creation account), set_times account (append at recent) es)

  unfoldable pub register : ℕ → ℕ → List Entry → Decision × List Entry
  register account at es =
      let swept = sweep at es in
      registered account at (select_where (is_recent at) (times_of account swept)) swept

  unfoldable pub decide_command : Command → ℕ → ℕ → List Entry → Decision × List Entry
  decide_command (register_credential account registration) by at es = register account at es
  decide_command (create_event event salt) by at es = (created_by event salt by, es)
  decide_command (transfer_ticket ticket event) by at es =
      (held_by event by (reads.ticket ticket), es)
  decide_command (set_event_status event) by at es = (owned_by event by (reads.event event), es)
  decide_command (set_event_capacity event) by at es = (owned_by event by (reads.event event), es)
  decide_command (add_zone event) by at es = (owned_by event by (reads.event event), es)
  decide_command (remove_zone event) by at es = (owned_by event by (reads.event event), es)
  decide_command (remove_restriction event) by at es = (owned_by event by (reads.event event), es)
  decide_command (issue_ticket event) by at es = (owned_by event by (reads.event event), es)
  decide_command (other_command kind) by at es = (refuse not_covered, es)

  abbrev pub is_over : EventStatus → Bool
  is_over cancelled = true
  is_over finished = true
  is_over _ = false

  abbrev pub live_pass : ReadTicket → Option ReadEvent → Decision
  live_pass t none = refuse no_event
  live_pass t (some e) =
      if is_over e.status then refuse event_is_over else entitled (pass_ticket_live t.id t.event)

  abbrev pub decide_pass : Option ReadTicket → Decision
  decide_pass none = refuse no_ticket
  decide_pass (some t) = live_pass t (reads.event t.event)

  abbrev pub decide_signed : Input → Signer → ℕ → List Entry → Decision × List Entry
  decide_signed input (no_signer reason) at es = (refuse reason, es)
  decide_signed (signed_command command _) (signer by) at es = decide_command command by at es
  decide_signed (signed_pass ticket _ _) (signer by) at es = (decide_pass (reads.ticket ticket), es)

  unfoldable pub decide : Input → ℕ → List Entry → Decision × List Entry
  decide input at es = decide_signed input (verified_signer input) at es

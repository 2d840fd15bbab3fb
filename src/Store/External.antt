-- ===== src/Store/External.antt =====
-- What the ledger (@ticketto/sdk) answers, as src/ledger/ticketto.ts passes it on, and what the
-- profile derives. Both are code outside the repository: parameters of the operations.
-- Identifiers, accounts, assets and texts that are only compared are numbers.
use kippu_api.Base.{ℕ, Bool, Option, List}
use kippu_api.Store.Errors.{SpecCode}

pub data EventStatus : Type 0 where
  active sealed cancelled finished : EventStatus

pub data ZoneKind : Type 0 where
  seated unseated : ZoneKind

pub record Zone : Type 0 where
  pub id : ℕ
  pub kind : ZoneKind

pub record Event : Type 0 where
  pub owner : ℕ
  pub status : EventStatus
  -- `null` when issuance is unbounded
  pub max_capacity : Option ℕ
  pub issued : ℕ
  pub zones : List Zone

pub data Provenance : Type 0 where
  purchased granted : Provenance

pub record Restrictions : Type 0 where
  pub cannot_resale : Bool
  pub cannot_transfer : Bool

pub record Ticket : Type 0 where
  pub event : ℕ
  pub holder : ℕ
  pub provenance : Provenance
  pub restrictions : Restrictions

-- The SDK's `Result`.
pub data Answer {ℓ} (A : Type ℓ) : Type ℓ where
  found : A → Answer A
  refused : SpecCode → Answer A

-- The ledger's reads, as they answer while an operation runs.
pub record Ledger : Type 0 where
  pub get_event : ℕ → Answer Event
  pub get_ticket : ℕ → Answer Ticket
  pub get_cancellation_holder : ℕ → Answer (Option ℕ)

-- The ticket id that the profile derives for a seat, from event, zone and the position that
-- the seat's designation encodes to.
abbrev pub TicketOf : Type 0
TicketOf = ℕ → ℕ → ℕ → ℕ

-- ===== src/Events/Ownership.antt =====
-- src/events/ownership.ts. `account_of` is the organiser's ledger account, from the authority.
use kippu_api.Base.{ℕ, ◌≡◌, true, Option, some, same, if◌then◌else◌, arith}
use kippu_api.Store.{spec, not_owner, Try, ok, fail, Event, found, refused, Ledger}

-- Owned by the organiser's account, as the ledger records the event.
unfoldable pub owned_event : Ledger → (ℕ → Option ℕ) → ℕ → ℕ → Try Event
owned_event ledger account_of organiser_id event = elim (ledger.get_event event) [
  | refused code ↦ fail (spec code)
  | found ev ↦
      if same (account_of organiser_id) (some ev.owner) then ok ev else fail (spec not_owner)
]

pub owned_event-ok :
    (ledger : Ledger) (account_of : ℕ → Option ℕ) (organiser_id event : ℕ) (ev : Event)
    → owned_event ledger account_of organiser_id event ≡ ok ev
    → (ledger.get_event event ≡ found ev) × (same (account_of organiser_id) (some ev.owner) ≡ true)
unfolding owned_event
owned_event-ok ledger account_of organiser_id event ev e = ground arith

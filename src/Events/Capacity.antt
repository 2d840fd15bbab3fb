-- ===== src/Events/Capacity.antt =====
-- src/events/capacity.ts: capacity decreases, and `canDecreaseCapacity` of
-- src/sales/organiser-actions.ts. `write` is what became of the signed `setEventCapacity`.
pub mod Decrease
use kippu_api.Base.{ℕ, Bool, true, false, not, ◌&&◌, Option, none, some, leb, ltb, if◌then◌else◌}
use kippu_api.Store.{
  Error, spec_error, spec, capacity_proof_required, capacity_below_issuance, held_reason, Reason,
  Try, ok, fail, Event, EventStatus, Answer, found, refused, Ledger, Db, M, ◌>>=◌, ◌>>◌, get, pure,
  throw, lift, answered, in_transaction,
}
use kippu_api.Sales.Allocation.{AllocationTarget, allocated_count, allocation_counts}
use kippu_api.Sales.Payment.Take.{is_active}
use kippu_api.Events.Ownership.{owned_event}

-- The target of the event alone: its zone and class, which the source leaves empty, are not read.
abbrev pub event_target : ℕ → AllocationTarget
event_target event = record { event = event; zone = 0; class_id = 0; position = none }

unfoldable pub can_decrease_capacity : Ledger → ℕ → ℕ → ℕ → M Bool
can_decrease_capacity ledger event to at = do
  ev ← answered (ledger.get_event event)
  counts ← allocation_counts (event_target event) at
  pure (leb (allocated_count ev counts) to)

pub record CapacityChanged : Type 0 where
  pub event : ℕ
  pub capacity : ℕ
  pub cursor : ℕ

abbrev pub is_above : ℕ → Option ℕ → Bool
is_above capacity none = false
is_above capacity (some bound) = ltb bound capacity

abbrev reason_of : ℕ → Event → Option Reason
reason_of capacity ev = if leb ev.issued capacity then some held_reason else none

module _ (ledger : Ledger) (account_of : ℕ → Option ℕ) (write : Try (Answer ℕ)) (event : ℕ)
    (capacity at : ℕ) where
  -- On an Active event, what is issued and held fits; any other status is the ledger's to refuse.
  unfoldable pub check_issuance : Event → Bool → M (Unit {0})
  check_issuance ev false = pure tt
  check_issuance ev true = do
    can_decrease ← can_decrease_capacity ledger event capacity at
    if can_decrease
        then pure tt
        else throw (spec_error capacity_below_issuance (reason_of capacity ev))

  unfoldable pub relay_capacity : M CapacityChanged
  relay_capacity = do
    answer ← lift write
    cursor ← answered answer
    pure (record { event = event; capacity = capacity; cursor = cursor })

  unfoldable pub decrease_owned : Event → Bool → M CapacityChanged
  decrease_owned ev true = throw (spec capacity_proof_required)
  decrease_owned ev false = do check_issuance ev (is_active ev.status); relay_capacity

  unfoldable pub decrease : ℕ → M CapacityChanged
  decrease organiser_id = in_transaction do
    ev ← lift (owned_event ledger account_of organiser_id event)
    decrease_owned ev (is_above capacity ev.max_capacity)

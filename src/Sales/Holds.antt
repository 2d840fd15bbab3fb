-- ===== src/Sales/Holds.antt =====
-- src/sales/holds.ts: placing, extending, releasing and lapsing holds. What a call reads from the
-- clock, and the ids that it makes up, are arguments.
pub mod Place
pub mod Limits
use kippu_api.Base.{
  ℕ, ◌+◌, ◌*◌, min, Bool, true, false, not, ◌&&◌, Option, none, some, ◌∷◌, leb, ltb, ◌==◌, is_some,
  if◌then◌else◌, count_where, find_where, update_where,
}
use kippu_api.Store.{
  Error, spec_error, ticket_id_exists, refused_request, precondition_failed, checkout_error,
  hold_ended, Try, ok, fail, Event, Ledger, TicketOf, Hold, HoldStatus, outstanding, lapsed,
  released, is_outstanding, held, hold_refused, Db, M, ◌>>=◌, ◌>>◌, get, modify, pure, throw, lift,
  in_transaction,
}
use kippu_api.Sales.Allocation.{
  AllocationTarget, AllocationCounts, SaleTerms, allocation_counts, capacity_has_room,
  quota_has_room, sale_terms, has_expired, lapse,
}
use kippu_api.Sales.OnSale.{event_on_sale}
use kippu_api.Sales.Seats.{assert_free}
use kippu_api.Sales.Audit.{CheckoutActor, CheckoutCause, record_checkout_step}

-- 10 * 60 * 1000
abbrev pub hold_lifetime_ms : ℕ
hold_lifetime_ms = 600000

-- 5 * 60 * 1000
abbrev pub hold_extension_ms : ℕ
hold_extension_ms = 300000

pub data HoldRefusal : Type 0 where
  seat_taken sold_out class_sold_out : HoldRefusal

-- HoldTarget: the allocation target and the checkout it is for.
pub record HoldTarget : Type 0 where
  pub checkout_id : ℕ
  pub target : AllocationTarget
  pub open target use *

pub record SalesRequest : Type 0 where
  pub request_id : ℕ
  pub principal : CheckoutActor

abbrev pub cause_of : SalesRequest → CheckoutCause
cause_of r = record { request_id = r.request_id; actor = r.principal }

-- error instanceof SpecCodeError && error.code === "ERR-TicketIdExists"
abbrev pub is_seat_taken : Error → Bool
is_seat_taken (spec_error ticket_id_exists r) = true
is_seat_taken e = false

-- The try … catch around `assertFree`: a seat that is not free is a refusal, any other
-- exception goes on.
abbrev pub seat_caught : Bool → Try ℕ → Try (Option HoldRefusal)
seat_caught seat_held (ok ticket) = ok (if seat_held then some seat_taken else none)
seat_caught seat_held (fail e) = if is_seat_taken e then ok (some seat_taken) else fail e

-- The refusal by capacity and quota, where the seat gave none.
abbrev pub room_refusal : Event → AllocationCounts → Option HoldRefusal → Option HoldRefusal
room_refusal ev counts (some r) = some r
room_refusal ev counts none =
    if not (capacity_has_room ev counts)
    then some sold_out
    else if not (quota_has_room counts)
    then some class_sold_out
    else none

abbrev pub is_checkout : ℕ → Hold → Bool
is_checkout checkout_id h = h.checkout_id == checkout_id

-- The row that is inserted.
unfoldable pub new_hold : SalesRequest → HoldTarget → SaleTerms → ℕ → ℕ → Hold
new_hold request t terms hold_id at = record {
  id = hold_id;
  checkout_id = t.checkout_id;
  event = t.event;
  zone = t.zone;
  class_id = t.class_id;
  position = t.position;
  status = outstanding;
  expires_at = at + hold_lifetime_ms;
  extended_at = none;
  ended_at = none;
  confirmed_at = none;
  created_request_id = request.request_id;
  created_at = at;
  asset = some terms.asset;
  price = some terms.price;
}

-- Records the refusal, or inserts the hold.
unfoldable pub settle :
    SalesRequest → HoldTarget → SaleTerms → ℕ → ℕ → Option HoldRefusal → M (Option HoldRefusal)
settle request t terms hold_id at (some r) = do
  record_checkout_step t.checkout_id hold_refused (cause_of request) at
  pure (some r)
settle request t terms hold_id at none = do
  modify λ db. record db { holds = new_hold request t terms hold_id at ∷ db.holds }
  record_checkout_step t.checkout_id held (cause_of request) at
  pure none

module _ (ledger : Ledger) (ticket_of : TicketOf) where
  unfoldable pub seat_refusal : AllocationTarget → AllocationCounts → Db → Try (Option HoldRefusal)
  seat_refusal t counts db = elim t.position [
    | none ↦ ok none
    | some p ↦ seat_caught counts.seat_held (assert_free ledger ticket_of t.event t.zone p db)
  ]

  -- The rest of `place` once the event is on sale.
  unfoldable pub decide :
      SalesRequest
      → HoldTarget
      → ℕ
      → ℕ
      → AllocationCounts
      → Event
      → Option SaleTerms
      → M (Option HoldRefusal)
  decide request t hold_id at counts ev none = throw (refused_request precondition_failed none)
  decide request t hold_id at counts ev (some terms) = do
    db ← get
    seat ← lift (seat_refusal t.target counts db)
    settle request t terms hold_id at (room_refusal ev counts seat)

  -- By the status of the checkout's hold, if it has one.
  unfoldable pub place_by :
      SalesRequest → HoldTarget → ℕ → ℕ → AllocationCounts → Option Hold → M (Option HoldRefusal)
  place_by request t hold_id at counts (some h) =
      if is_outstanding h.status then pure none else throw (checkout_error hold_ended)
  place_by request t hold_id at counts none = do
    db ← get
    ev ← lift (event_on_sale ledger t.event db)
    decide request t hold_id at counts ev (sale_terms t.event t.class_id db)

  unfoldable pub place : SalesRequest → HoldTarget → ℕ → ℕ → M (Option HoldRefusal)
  place request t hold_id at = in_transaction do
    counts ← allocation_counts t.target at
    db ← get
    place_by request t hold_id at counts (find_where (is_checkout t.checkout_id) db.holds)

abbrev pub extends_hold : ℕ → ℕ → Hold → Bool
extends_hold checkout_id at h =
    is_checkout checkout_id h
    && is_outstanding h.status
    && not (is_some h.extended_at)
    && ltb at h.expires_at

abbrev pub extend_hold : ℕ → Hold → Hold
extend_hold at h = record h { expires_at = h.expires_at + hold_extension_ms; extended_at = some at }

unfoldable pub extend : ℕ → ℕ → M Bool
extend checkout_id at = do
  db ← get
  modify λ db. record db {
    holds = update_where (extends_hold checkout_id at) (extend_hold at) db.holds;
  }
  pure (count_where (extends_hold checkout_id at) db.holds == 1)

-- CASE WHEN expires_at <= at THEN 'lapsed' ELSE 'released', ended at LEAST(expires_at, at)
abbrev pub end_hold : ℕ → Hold → Hold
end_hold at h = record h {
  status = if leb h.expires_at at then lapsed else released;
  ended_at = some (min h.expires_at at);
}

abbrev pub ends_hold : ℕ → Hold → Bool
ends_hold checkout_id h = is_checkout checkout_id h && is_outstanding h.status

unfoldable pub release : ℕ → ℕ → M Bool
release checkout_id at = do
  db ← get
  modify λ db. record db { holds = update_where (ends_hold checkout_id) (end_hold at) db.holds }
  pure (count_where (ends_hold checkout_id) db.holds == 1)

unfoldable pub lapse_expired : ℕ → M ℕ
lapse_expired at = do
  db ← get
  modify λ db. record db { holds = update_where (has_expired at) lapse db.holds }
  pure (count_where (has_expired at) db.holds)

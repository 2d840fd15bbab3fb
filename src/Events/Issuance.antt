-- ===== src/Events/Issuance.antt =====
-- src/events/issuance.ts: issuing granted tickets. The submission itself is the argument `relay`,
-- and the profile's position of a designation is the designation in its normal form.
pub mod Reserve
use kippu_api.Base.{
  ℕ, Bool, true, false, not, ◌&&◌, Option, none, some, List, ◌∷◌, ◌==◌, if◌then◌else◌, exists_where,
  find_where, select_where, update_where,
}
use kippu_api.Store.{
  Error, spec, refused_request, bad_request, conflict, seat_held_reason, unknown_class,
  capacity_exceeded, class_quota_exceeded, failure, Try, ok, fail, ZoneKind, seated, Zone, Event,
  unseated, SpecCode, Provenance, granted, Ledger, TicketOf, TicketClass, GrantedIssuance,
  IssuanceStatus, pending, settled, rejected, failed, Db, M, ◌>>=◌, ◌>>◌, get, modify, pure, throw,
  lift, answered, in_transaction,
}
use kippu_api.Sales.Allocation.{
  AllocationTarget, AllocationCounts, allocation_counts, capacity_has_room, quota_has_room,
  is_purchased,
}
use kippu_api.Sales.Seats.{assert_free}
use kippu_api.Sales.Checkout.{PlacementInput, seated_at, unseated_at}
use kippu_api.Sales.Checkout.Begin.{canonical_position}
use kippu_api.Sales.Payment.Issue.{
  IssueCommand, Verdict, receipt, refusal, no_verdict, Relay, Relayed, not_signed, submitted,
}
use kippu_api.Sales.Payment.Take.{is_active}
use kippu_api.Events.Ownership.{owned_event}

pub record IssueGrantedInput : Type 0 where
  pub event : ℕ
  pub zone : ℕ
  pub class_id : ℕ
  pub placement : PlacementInput
  pub holder : ℕ

abbrev pub target_of : IssueGrantedInput → Option ℕ → AllocationTarget
target_of input seat = record {
  event = input.event;
  zone = input.zone;
  class_id = input.class_id;
  position = seat;
}

-- A free seat's ticket: none is issued for it, and no buyer holds it.
abbrev pub unheld : Bool → Try ℕ → Try (Option ℕ)
unheld seat_held (fail e) = fail e
unheld seat_held (ok ticket) =
    if seat_held then fail (refused_request conflict (some seat_held_reason)) else ok (some ticket)

module _ (ledger : Ledger) (ticket_of : TicketOf) (organiser_id request_id : ℕ)
    (input : IssueGrantedInput) (seat : Option ℕ) (issuance_id at : ℕ) where
  abbrev pub seat_ticket : AllocationCounts → Db → Try (Option ℕ)
  seat_ticket counts db = elim seat [
    | none ↦ ok none
    | some p ↦ unheld counts.seat_held (assert_free ledger ticket_of input.event input.zone p db)
  ]

  abbrev pub new_issuance : Option ℕ → GrantedIssuance
  new_issuance ticket = record {
    id = issuance_id;
    event = input.event;
    class_id = input.class_id;
    ticket = ticket;
    holder = input.holder;
    organiser_id = organiser_id;
    request_id = request_id;
    status = pending;
    operation_id = none;
    receipt_cursor = none;
    error_code = none;
    created_at = at;
    completed_at = none;
  }

  unfoldable pub insert_issuance : Option ℕ → M ℕ
  insert_issuance ticket = do
    modify λ db. record db { granted_issuances = new_issuance ticket ∷ db.granted_issuances }
    pure issuance_id

  -- The capacity is checked while the event is Active; any other status is the ledger's to refuse.
  unfoldable pub reserve_room : AllocationCounts → Option ℕ → Event → M ℕ
  reserve_room counts ticket ev =
      if is_active ev.status && not (capacity_has_room ev counts)
      then throw (spec capacity_exceeded)
      else if not (quota_has_room counts)
      then throw (spec class_quota_exceeded)
      else insert_issuance ticket

  unfoldable pub reserve_known : Bool → M ℕ
  reserve_known false = throw (spec unknown_class)
  reserve_known true = do
    counts ← allocation_counts (target_of input seat) at
    db ← get
    ticket ← lift (seat_ticket counts db)
    ev ← answered (ledger.get_event input.event)
    reserve_room counts ticket ev

  unfoldable pub reserve : M ℕ
  reserve = in_transaction do
    db ← get
    reserve_known (
        exists_where (λ (c : TicketClass). c.id == input.class_id && c.event == input.event)
          db.ticket_classes)

abbrev is_issuance : ℕ → GrantedIssuance → Bool
is_issuance id g = g.id == id

abbrev update_issuance : ℕ → (GrantedIssuance → GrantedIssuance) → Db → Db
update_issuance id f db = record db {
  granted_issuances = update_where (is_issuance id) f db.granted_issuances;
}

unfoldable pub complete : ℕ → Option ℕ → Verdict → ℕ → Db → Db
complete id operation no_verdict at db =
    update_issuance id
      (λ (g : GrantedIssuance). record g { status = failed; completed_at = some at }) db
complete id operation (receipt cursor) at db =
    update_issuance id
      (λ (g : GrantedIssuance). record g {
        status = settled;
        operation_id = operation;
        receipt_cursor = some cursor;
        completed_at = some at;
      })
      db
complete id operation (refusal code) at db =
    update_issuance id
      (λ (g : GrantedIssuance). record g {
        status = rejected;
        error_code = some code;
        completed_at = some at;
      })
      db

abbrev is_granted : Provenance → Bool
is_granted granted = true
is_granted _ = false

abbrev is_seated : Option Zone → Bool
is_seated none = false
is_seated (some z) = elim z.kind [ seated ↦ true | unseated ↦ false ]

abbrev canonical_seat : (ℕ → Option ℕ) → IssueGrantedInput → ℕ → Db → Bool → Try (Option ℕ)
canonical_seat normalise input d db false = ok none
canonical_seat normalise input d db true =
    elim (canonical_position normalise input.event input.zone d db) [
      | ok p ↦ ok (some p)
      | fail e ↦ fail e
    ]

-- A canonical seat of a seated zone, if the placement names one.
unfoldable pub seat_of :
    (ℕ → Option ℕ) → Event → IssueGrantedInput → PlacementInput → Db → Try (Option ℕ)
seat_of normalise ev input unseated_at db = ok none
seat_of normalise ev input (seated_at d) db =
    canonical_seat normalise input d db
      (is_seated (find_where (λ (z : Zone). z.id == input.zone) ev.zones))

-- The position that is submitted: the ledger refuses one in a zone that has no seats.
abbrev position_of : Option ℕ → PlacementInput → Option ℕ
position_of (some p) placement = some p
position_of none (seated_at d) = some d
position_of none unseated_at = none

module _ (ledger : Ledger) (ticket_of : TicketOf) (account_of : ℕ → Option ℕ)
    (normalise : ℕ → Option ℕ) (relay : Relay) (organiser_id request_id : ℕ)
    (input : IssueGrantedInput) (issuance_id at completed_at : ℕ) where
  abbrev command_of : TicketClass → Option ℕ → IssueCommand
  command_of c seat = record {
    event = input.event;
    zone = input.zone;
    position = position_of seat input.placement;
    class_id = c.id;
    provenance = granted;
    policy = c.policy;
    restrictions = c.restrictions;
    holder = some input.holder;
  }

  abbrev verdict_of : ℕ → Verdict → M (ℕ × ℕ)
  verdict_of ticket (receipt cursor) = pure (ticket, cursor)
  verdict_of ticket (refusal code) = throw (spec code)
  verdict_of ticket no_verdict = throw failure

  -- Nothing signed: the issuance never happened.
  unfoldable pub relay_issue : ℕ → Relayed → M (ℕ × ℕ)
  relay_issue id not_signed =
      modify (λ db. record db {
        granted_issuances =
            select_where (λ (g : GrantedIssuance). not (is_issuance id g)) db.granted_issuances;
      })
      >> throw failure
  relay_issue id (submitted ticket operation v) = do
    modify (update_issuance id (λ (g : GrantedIssuance). record g { ticket = some ticket }))
    modify (complete id operation v completed_at)
    verdict_of ticket v

  unfoldable pub issue_class : Event → Option TicketClass → M (ℕ × ℕ)
  issue_class ev none = throw (spec unknown_class)
  issue_class ev (some c) =
      if not (is_granted c.provenance)
      then throw (refused_request bad_request none)
      else (get >>= λ db. lift (seat_of normalise ev input input.placement db) >>= λ seat.
          reserve ledger ticket_of organiser_id request_id input seat issuance_id at >>= λ id.
          relay_issue id (relay organiser_id (command_of c seat)))

  unfoldable pub issue_granted : M (ℕ × ℕ)
  issue_granted = do
    db ← get
    ev ← lift (owned_event ledger account_of organiser_id input.event)
    issue_class ev (
        find_where (λ (c : TicketClass). c.id == input.class_id && c.event == input.event)
          db.ticket_classes)

-- ===== src/Sales/Allocation/Limit.antt =====
-- The limits that allocations respect: an event's capacity as the ledger has it, a class's quota,
-- and one allocation for a seat; and what the checks before an allocation establish.
use kippu_api.Base.{
  ℕ, ◌<◌, ◌≡◌, ◌∙◌, ap, sym, true, ◌&&◌, Bool, some, arith, ◌==◌, ==_iff, same, refl,
}
use kippu_api.Store.{Event, found, Ledger, TicketOf, Db}
use kippu_api.Sales.Allocation.{
  AllocationTarget, class_quota, counts_of, capacity_has_room, quota_has_room,
}
use kippu_api.Sales.Allocation.Room.{capacity_has_room_iff, quota_has_room_iff}
use kippu_api.Sales.Allocation.Taken.{
  Scope, of_event, of_class, of_seat, taken, taken_event-le, taken_class_eq,
}

abbrev pub Limit : Ledger → Db → Scope → ℕ → Type 0
Limit ledger db (of_event e) n =
    (ev : Event) × (ledger.get_event e ≡ found ev) × (ev.max_capacity ≡ some n)
Limit ledger db (of_class c) n = class_quota c db ≡ some n
Limit ledger db (of_seat e z p) n = n ≡ 1

abbrev pub target_in : Scope → AllocationTarget → Bool
target_in (of_event e) t = t.event == e
target_in (of_class c) t = t.class_id == c
target_in (of_seat e z p) t = t.event == e && t.zone == z && same t.position (some p)

-- `target_in` at a seat, taken apart.
seat_parts :
    (t : AllocationTarget) (e z p : ℕ)
    → target_in (of_seat e z p) t ≡ true
    → (t.event ≡ e) × (t.zone ≡ z) × (t.position ≡ some p)
seat_parts t e z p h = ground arith

module _ (ledger : Ledger) (ticket_of : TicketOf) where
  -- What the checks before an allocation have established.
  pub record Fits (t : AllocationTarget) (db : Db) : Type 0 where
    pub event : Event
    pub got : ledger.get_event t.event ≡ found event
    pub capacity : capacity_has_room event (counts_of t db) ≡ true
    pub quota : quota_has_room (counts_of t db) ≡ true
    pub seat : (p : ℕ) → t.position ≡ some p → taken ticket_of (of_seat t.event t.zone p) db ≡ 0

  counts_quota :
      (t : AllocationTarget) (db : Db) → (counts_of t db).quota ≡ class_quota t.class_id db
  unfolding counts_of
  counts_quota t db = refl

  -- Then every scope that the allocation is in has room for it.
  pub Fits-lt :
      (t : AllocationTarget) (db : Db)
      → Fits t db
      → (s : Scope) (n : ℕ) → Limit ledger db s n
      → target_in s t ≡ true
      → taken ticket_of s db < n
  Fits-lt t db f (of_event e) n (ev, got, cap) h =
      let same_event : t.event ≡ e = (==_iff t.event e).0 h in
      let there : ledger.get_event e ≡ found f.event =
        ap ledger.get_event (sym same_event) ∙ f.got in
      let same_ev : f.event ≡ ev = cc in
      let room =
        (capacity_has_room_iff f.event (counts_of t db) n
            (ap (λ (x : Event). x.max_capacity) same_ev ∙ cap)).0
          f.capacity in
      rw (← same_event) (omega (arith, taken_event-le ticket_of t f.event db))
  Fits-lt t db f (of_class c) n q h =
      let same_class : t.class_id ≡ c = (==_iff t.class_id c).0 h in
      let limit : (counts_of t db).quota ≡ some n =
        counts_quota t db ∙ ap (λ (x : ℕ). class_quota x db) same_class ∙ q in
      let room = (quota_has_room_iff (counts_of t db) n limit).0 f.quota in
      rw (← same_class) (omega (arith, taken_class_eq ticket_of t db))
  Fits-lt t db f (of_seat e z p) n one h =
      let (same_e, same_z, at_p) = seat_parts t e z p h in
      rw (← same_e, ← same_z) (omega (arith, f.seat p at_p))

  -- A limit is the ledger's and the classes': a change to other tables leaves it.
  pub Limit-same :
      (s : Scope) (n : ℕ) (db db' : Db)
      → db'.ticket_classes ≡ db.ticket_classes
      → Limit ledger db s n
      → Limit ledger db' s n
  unfolding class_quota
  Limit-same (of_event e) n db db' same_classes l = l
  Limit-same (of_class c) n db db' same_classes l = rw same_classes l
  Limit-same (of_seat e z p) n db db' same_classes l = l

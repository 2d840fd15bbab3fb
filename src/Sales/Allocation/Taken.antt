-- ===== src/Sales/Allocation/Taken.antt =====
-- What is taken of an event's capacity, of a class's quota, or of a seat: the live holds in that
-- scope and the granted issuances that the ledger has not refused.
use kippu_api.Base.{
  ℕ, ◌+◌, ◌≤◌, ◌≡◌, refl, Bool, false, ◌&&◌, some, List, [], ◌∷◌, arith, ◌==◌, same, count_where,
  exists_where, Keeps, count-update-le, count-zero_of_not_exists, exists_ext, sym, ◌∙◌, All_pure,
}
use kippu_api.Store.{Hold, Event, TicketOf, Db, GrantedIssuance}
use kippu_api.Sales.Seats.{issues_ticket}
use kippu_api.Sales.Allocation.{
  AllocationTarget, is_live, lapses_of, lapse, lapse_event, counts_of, event_open, class_open,
  event_confirmed, class_confirmed, event_granted, class_grant, holds_seat, allocated_count,
}

pub data Scope : Type 0 where
  of_event : ℕ → Scope
  of_class : ℕ → Scope
  of_seat : (event zone position : ℕ) → Scope

abbrev pub in_scope : Scope → Hold → Bool
in_scope (of_event e) h = h.event == e
in_scope (of_class c) h = h.class_id == c
in_scope (of_seat e z p) h = h.event == e && h.zone == z && same h.position (some p)

-- A hold that counts in the scope.
abbrev pub live_in : Scope → Hold → Bool
live_in s h = in_scope s h && is_live h

module _ (ticket_of : TicketOf) where
  abbrev pub granted_in : Scope → GrantedIssuance → Bool
  granted_in (of_event e) g = event_granted e g
  granted_in (of_class c) g = class_grant c g
  granted_in (of_seat e z p) g = issues_ticket (ticket_of e z p) g

  unfoldable pub taken : Scope → Db → ℕ
  taken s db = count_where (live_in s) db.holds + count_where (granted_in s) db.granted_issuances

pub lapse-Keeps : (s : Scope) (e at : ℕ) (h : Hold) → Keeps (live_in s) (lapses_of e at) lapse h
lapse-Keeps (of_event x) e at h = ground arith
lapse-Keeps (of_class x) e at h = ground arith
lapse-Keeps (of_seat x z p) e at h = ground arith

-- Open and confirmed holds of an event are its live holds.
pub event_live_eq :
    (e : ℕ) (hs : List Hold)
    → count_where (event_open e) hs + count_where (event_confirmed e) hs
      ≡ count_where (live_in (of_event e)) hs
unfolding count_where
event_live_eq e [] = refl
event_live_eq e (h ∷ hs) = ground (arith, event_live_eq e hs)

pub class_live_eq :
    (c : ℕ) (hs : List Hold)
    → count_where (class_open c) hs + count_where (class_confirmed c) hs
      ≡ count_where (live_in (of_class c)) hs
unfolding count_where
class_live_eq c [] = refl
class_live_eq c (h ∷ hs) = ground (arith, class_live_eq c hs)

-- The code's test on a seat is whether a hold is live in it.
seat_test :
    (t : AllocationTarget) (p : ℕ)
    → t.position ≡ some p
    → (h : Hold) → holds_seat t h ≡ live_in (of_seat t.event t.zone p) h
seat_test t p e h = rw e (ground arith)

module _ (ticket_of : TicketOf) where
  pub taken-lapse-le :
      (s : Scope) (e at : ℕ) (db : Db)
      → taken ticket_of s (lapse_event e at db) ≤ taken ticket_of s db
  unfolding taken lapse_event
  taken-lapse-le s e at db = omega (
    arith,
    count-update-le (live_in s) (lapses_of e at) lapse db.holds
        (All_pure _ (lapse-Keeps s e at) db.holds),
  )

  -- The code's count against the capacity is at least what is taken of the event.
  pub taken_event-le :
      (t : AllocationTarget) (ev : Event) (db : Db)
      → taken ticket_of (of_event t.event) db ≤ allocated_count ev (counts_of t db)
  unfolding taken allocated_count counts_of
  taken_event-le t ev db = omega (arith, event_live_eq t.event db.holds)

  -- Its count against the quota is what is taken of the class.
  pub taken_class_eq :
      (t : AllocationTarget) (db : Db)
      → let c = counts_of t db in
        taken ticket_of (of_class t.class_id) db
        ≡ c.class_holds + c.class_purchased + c.class_granted
  unfolding taken counts_of
  taken_class_eq t db = omega (arith, class_live_eq t.class_id db.holds)

  -- A seat with no live hold and no issuance is not taken.
  pub taken_seat-zero :
      (t : AllocationTarget) (p : ℕ) (db : Db)
      → t.position ≡ some p
      → (counts_of t db).seat_held ≡ false
      → exists_where (issues_ticket (ticket_of t.event t.zone p)) db.granted_issuances ≡ false
      → taken ticket_of (of_seat t.event t.zone p) db ≡ 0
  unfolding taken counts_of
  taken_seat-zero t p db e held issued =
      let free : exists_where (live_in (of_seat t.event t.zone p)) db.holds ≡ false =
        sym (exists_ext (holds_seat t) _ (seat_test t p e) db.holds) ∙ held in
      omega (
        arith,
        count-zero_of_not_exists (live_in (of_seat t.event t.zone p)) db.holds free,
        count-zero_of_not_exists (issues_ticket (ticket_of t.event t.zone p)) db.granted_issuances
            issued,
      )

  -- What is taken is read from two tables.
  pub taken-same :
      (s : Scope) (db db' : Db)
      → db'.holds ≡ db.holds
      → db'.granted_issuances ≡ db.granted_issuances
      → taken ticket_of s db' ≡ taken ticket_of s db
  unfolding taken
  taken-same s db db' hs gs = rw (hs, gs)

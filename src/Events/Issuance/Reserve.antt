-- ===== src/Events/Issuance/Reserve.antt =====
-- Reserving a granted issuance stays within the limits that holds respect (REQ-HD-3, REQ-HD-4).
use kippu_api.Base.{
  ℕ, ◌≤◌, ◌≡◌, refl, sym, ap, ◌∙◌, inl, inr, Bool, true, false, ◌&&◌, Option, none, some,
  some-injective, ◌∷◌, arith, ==_iff, count_where, Bool-cases,
}
use kippu_api.Store.{
  Try, ok, fail, Event, found, Ledger, TicketOf, GrantedIssuance, Db, M, Outcome, after, ◌>>=◌,
  lift, answered, in_transaction,
}
use kippu_api.Sales.Allocation.{
  AllocationTarget, counts_of, lapse_event, allocation_counts, capacity_has_room, quota_has_room,
}
use kippu_api.Sales.Allocation.Taken.{
  Scope, of_event, of_class, of_seat, granted_in, taken, taken-lapse-le, taken_seat-zero,
}
use kippu_api.Sales.Allocation.Limit.{Limit, Limit-same, Fits, Fits-lt, target_in}
use kippu_api.Sales.Seats.{assert_free-ok}
use kippu_api.Sales.Payment.Take.{is_active}
use kippu_api.Events.Issuance.{
  IssueGrantedInput, target_of, seat_ticket, new_issuance, insert_issuance, reserve_room,
  reserve_known, reserve, unheld,
}

-- The seat of a scope has a ticket of its own: the profile derives it for no other seat.
abbrev pub Separate : TicketOf → AllocationTarget → Scope → Type 0
Separate ticket_of t (of_seat e z p) =
    (q : ℕ)
    → t.position ≡ some q
    → ticket_of t.event t.zone q ≡ ticket_of e z p
    → (t.event ≡ e) × (t.zone ≡ z) × (q ≡ p)
Separate ticket_of t s = Unit {0}

module _ (ledger : Ledger) (ticket_of : TicketOf) (organiser_id request_id : ℕ)
    (input : IssueGrantedInput) (issuance_id at : ℕ) where
  abbrev ticket_for : Option ℕ → Db → Try (Option ℕ)
  ticket_for seat now =
      seat_ticket ledger ticket_of organiser_id request_id input seat issuance_id at
        (counts_of (target_of input seat) now) now

  abbrev issuance : Option ℕ → Option ℕ → GrantedIssuance
  issuance seat ticket =
      new_issuance ledger ticket_of organiser_id request_id input seat issuance_id at ticket

  unheld-ok :
      (held : Bool) (r : Try ℕ) (ticket : Option ℕ)
      → unheld held r ≡ ok ticket
      → (held ≡ false) × ((x : ℕ) × (r ≡ ok x) × (ticket ≡ some x))
  unheld-ok held (fail e) ticket h = absurd (cc h)
  unheld-ok true (ok x) ticket h = absurd (cc h)
  unheld-ok false (ok x) ticket h = (refl, (x, refl, sym (ok-injective h)))
    where
      ok-injective : {a b : Option ℕ} → ok a ≡ ok b → a ≡ b
      ok-injective e = cc

  free_seat :
      (p : ℕ) (now : Db) (ticket : Option ℕ)
      → ticket_for (some p) now ≡ ok ticket
      → (ticket ≡ some (ticket_of input.event input.zone p))
        × (taken ticket_of (of_seat input.event input.zone p) now ≡ 0)
  free_seat p now ticket h =
      let (unheld_seat, (x, free, is_it)) = unheld-ok _ _ ticket h in
      let (unissued, _, x_is) =
        assert_free-ok ledger ticket_of input.event input.zone p now x free in
      (
        is_it ∙ ap some x_is,
        taken_seat-zero ticket_of (target_of input (some p)) p now refl unheld_seat unissued,
      )

  -- The new issuance counts only in scopes that it is for.
  counted_in :
      (seat ticket : Option ℕ) (now : Db) (s : Scope)
      → Separate ticket_of (target_of input seat) s
      → ticket_for seat now ≡ ok ticket
      → granted_in ticket_of s (issuance seat ticket) ≡ true
      → target_in s (target_of input seat) ≡ true
  counted_in seat ticket now (of_event e) sep h g = ground arith
  counted_in seat ticket now (of_class c) sep h g = ground arith
  counted_in none ticket now (of_seat e z p) sep h g = absurd (ground (arith, h))
  counted_in (some q) ticket now (of_seat e z p) sep h g =
      let (is_ticket, _) = free_seat q now ticket h in
      let g' = rw is_ticket at g in
      let same_ticket : ticket_of input.event input.zone q ≡ ticket_of e z p =
        (==_iff _ _).0 (both_true _ _ g') in
      let (same_e, same_z, same_p) = sep q refl same_ticket in
      all_true _ _ _ ((==_iff _ _).1 same_e) ((==_iff _ _).1 same_z) ((==_iff _ _).1 same_p)
    where
      both_true : (a b : Bool) → (a && b) ≡ true → a ≡ true
      both_true a b x = ground arith

      all_true : (a b c : Bool) → a ≡ true → b ≡ true → c ≡ true → (a && b && c) ≡ true
      all_true a b c x y w = ground arith

  module _ (seat : Option ℕ) (ev : Event) (got : ledger.get_event input.event ≡ found ev)
      (is_on : is_active ev.status ≡ true) (s : Scope) (n : ℕ)
      (sep : Separate ticket_of (target_of input seat) s) where
    abbrev t : AllocationTarget
    t = target_of input seat

    checks-Fits :
        (seat_at : Option ℕ) (now : Db) (ticket : Option ℕ)
        → ticket_for seat_at now ≡ ok ticket
        → capacity_has_room ev (counts_of (target_of input seat_at) now) ≡ true
        → quota_has_room (counts_of (target_of input seat_at) now) ≡ true
        → Fits ledger ticket_of (target_of input seat_at) now
    checks-Fits none now ticket h room quota = record {
      event = ev;
      got = got;
      capacity = room;
      quota = quota;
      seat = λ p e. absurd (cc e);
    }
    checks-Fits (some q) now ticket h room quota = record {
      event = ev;
      got = got;
      capacity = room;
      quota = quota;
      seat = λ p e.
          let same_p : q ≡ p = some-injective _ _ e in
          ap (λ x. taken ticket_of (of_seat input.event input.zone x) now) (sym same_p)
          ∙ (free_seat q now ticket h).1;
    }

    inserted-le :
        (now : Db) (ticket : Option ℕ)
        → ticket_for seat now ≡ ok ticket
        → capacity_has_room ev (counts_of t now) ≡ true
        → quota_has_room (counts_of t now) ≡ true
        → Limit ledger now s n
        → taken ticket_of s now ≤ n
        → taken ticket_of s
            (record now { granted_issuances = issuance seat ticket ∷ now.granted_issuances })
          ≤ n
    unfolding taken count_where
    inserted-le now ticket h room quota limit within =
        elim (Bool-cases (granted_in ticket_of s (issuance seat ticket))) [
          | inl counts ↦ rw counts (
              omega (
                arith,
                Fits-lt ledger ticket_of t now (checks-Fits seat now ticket h room quota) s n limit
                    (counted_in seat ticket now s sep h counts),
              ))
          | inr not_counted ↦ rw not_counted (omega (arith, within))
        ]

    module _ (db : Db) (limit : Limit ledger db s n) (within : taken ticket_of s db ≤ n) where
      abbrev now_db : Db
      now_db = lapse_event input.event at db

      abbrev run : M ℕ → Outcome ℕ
      run m = in_transaction (λ _. m now_db) db

      now-Limit : Limit ledger now_db s n
      unfolding lapse_event
      now-Limit = Limit-same ledger ticket_of s n db now_db refl limit

      room-le :
          (ticket : Option ℕ)
          → ticket_for seat now_db ≡ ok ticket
          → (room quota : Bool) → capacity_has_room ev (counts_of t now_db) ≡ room
          → quota_has_room (counts_of t now_db) ≡ quota
          → taken ticket_of s (
              after (
                run (
                  reserve_room ledger ticket_of organiser_id request_id input seat issuance_id at
                    (counts_of t now_db)
                    ticket
                    ev)))
            ≤ n
      unfolding reserve_room insert_issuance
      room-le ticket h false quota r q = rw (is_on, r) within
      room-le ticket h true false r q = rw (is_on, r, q) within
      room-le ticket h true true r q =
          rw (is_on, r, q)
            (inserted-le now_db ticket h r q now-Limit
              (omega (arith, within, taken-lapse-le ticket_of s input.event at db)))

      ticket-le :
          (ticket : Try (Option ℕ))
          → ticket_for seat now_db ≡ ticket
          → taken ticket_of s (
              after (
                run (
                  lift ticket >>= λ x. answered (ledger.get_event input.event) >>= λ e.
                  reserve_room ledger ticket_of organiser_id request_id input seat issuance_id at
                    (counts_of t now_db)
                    x
                    e)))
            ≤ n
      ticket-le (fail e) h = within
      ticket-le (ok ticket) h = rw got (room-le ticket h _ _ refl refl)

      known-le :
          (known : Bool)
          → taken ticket_of s (
              after (
                in_transaction
                  (λ d.
                    reserve_known ledger ticket_of organiser_id request_id input seat issuance_id at
                      known d)
                  db))
            ≤ n
      unfolding reserve_known allocation_counts
      known-le false = within
      known-le true = ticket-le _ refl

-- Reserving a granted issuance for an Active event keeps every limit that placing a hold keeps, on
-- the same count: if no more is taken than the event's capacity, the class's quota, or one
-- allocation of a seat whose ticket no other seat has, then that holds of the store that the call
-- leaves, whether it reserved or threw.
pub reserve-Limit :
    (ledger : Ledger) (ticket_of : TicketOf) (organiser_id request_id : ℕ)
    (input : IssueGrantedInput) (seat : Option ℕ) (issuance_id at : ℕ) (ev : Event) (s : Scope)
    (n : ℕ) (db : Db)
    → ledger.get_event input.event ≡ found ev
    → is_active ev.status ≡ true
    → Separate ticket_of (target_of input seat) s
    → Limit ledger db s n
    → taken ticket_of s db ≤ n
    → taken ticket_of s
        (after (reserve ledger ticket_of organiser_id request_id input seat issuance_id at db))
      ≤ n
unfolding reserve
reserve-Limit ledger ticket_of organiser_id request_id input seat issuance_id at ev s n db got is_on
      sep limit within =
    known-le ledger ticket_of organiser_id request_id input issuance_id at seat ev got is_on s n sep
      db limit within _

-- ===== src/Sales/Payment/Take/Free.antt =====
-- When the place of a hold that ended is free: the checks of a new allocation hold of it.
use kippu_api.Base.{ℕ, ◌≡◌, refl, Bool, true, false, not, ◌&&◌, some, inl, inr, arith, Bool-cases}
use kippu_api.Store.{Try, ok, fail, Ledger, TicketOf, Event, Answer, found, refused, Db}
use kippu_api.Sales.Allocation.{AllocationCounts, counts_of, capacity_has_room, quota_has_room}
use kippu_api.Sales.Allocation.Taken.{taken_seat-zero, of_seat, taken}
use kippu_api.Sales.Allocation.Limit.{Fits}
use kippu_api.Sales.Seats.{assert_free-ok}
use kippu_api.Sales.Payment.{HoldRow}
use kippu_api.Sales.Payment.Take.{target_of, is_active, freed, seat_free, place_free}

freed-true : (r : Try ℕ) → freed r ≡ ok true → (ticket : ℕ) × (r ≡ ok ticket)
freed-true (ok ticket) h = (ticket, refl)
freed-true (fail e) h = absurd (ground arith)

module _ (ledger : Ledger) (ticket_of : TicketOf) (row : HoldRow) (db : Db) where
  abbrev counts : AllocationCounts
  counts = counts_of (target_of row) db

  seat_free-zero :
      (p : ℕ)
      → row.position ≡ some p
      → counts.seat_held ≡ false
      → seat_free ledger ticket_of row db row.position ≡ ok true
      → taken ticket_of (of_seat row.event row.zone p) db ≡ 0
  unfolding seat_free
  seat_free-zero p e unheld h =
      let (ticket, free) = freed-true _ (simp (e, seat_free) at h) in
      taken_seat-zero ticket_of (target_of row) p db e unheld
        (assert_free-ok ledger ticket_of row.event row.zone p db ticket free).0

  -- The test of `takePlace` on a hold that ended.
  abbrev room : Event → Bool
  room ev =
      is_active ev.status
      && capacity_has_room ev counts
      && quota_has_room counts
      && not counts.seat_held

  room_parts :
      (ev : Event)
      → room ev ≡ true
      → (capacity_has_room ev counts ≡ true)
        × (quota_has_room counts ≡ true)
        × (counts.seat_held ≡ false)
  room_parts ev h = ground arith

  free-Fits :
      (a : Answer Event)
      → ledger.get_event row.event ≡ a
      → place_free ledger ticket_of row counts db ≡ ok true
      → Fits ledger ticket_of (target_of row) db
  unfolding place_free
  free-Fits (refused code) e h = absurd (ground arith)
  free-Fits (found ev) e h = elim (Bool-cases (room ev)) [
    | inl fits ↦
        let free : seat_free ledger ticket_of row db row.position ≡ ok true = ground arith in
        let (capacity, quota, unheld) = room_parts ev fits in
        record {
          event = ev;
          got = e;
          capacity = capacity;
          quota = quota;
          seat = λ p at_p. seat_free-zero p at_p unheld free;
        }
    | inr full ↦ absurd (ground arith)
  ]

  pub place_free-Fits :
      place_free ledger ticket_of row counts db ≡ ok true → Fits ledger ticket_of (target_of row) db
  place_free-Fits = free-Fits _ refl

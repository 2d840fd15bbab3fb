-- ===== src/Sales/Payment/Take/Limits.antt =====
-- Taking a verified payment's place stays within every limit.
use kippu_api.Base.{
  ℕ, ◌+◌, ◌≤◌, ◌≡◌, refl, sym, ap, ◌∙◌, inl, inr, true, Option, some, some-injective, arith,
  count_where, find_where, update_where, updated, Bool-cases, All_pure, Keeps, List,
  count-update-le, count-update-le-add, count-update-found-le, count-update_eq, find-update,
}
use kippu_api.Store.{Ledger, TicketOf, HostedRow, Hold, outstanding, Db, Outcome, after, ok}
use kippu_api.Sales.Allocation.{lapse, lapses_of, lapse_event}
use kippu_api.Sales.Allocation.Taken.{
  Scope, of_event, of_class, of_seat, live_in, taken, granted_in, lapse-Keeps, taken-lapse-le,
  taken-same,
}
use kippu_api.Sales.Allocation.Limit.{Limit, Limit-same, Fits-lt, target_in}
use kippu_api.Sales.Holds.{end_hold}
use kippu_api.Sales.Audit.{CheckoutCause, record_checkout_step}
use kippu_api.Sales.Payment.{
  HostedCheckout, HoldRow, has_id, hold_row, record_status, releases_hold,
}
use kippu_api.Sales.Payment.Rows.{hold_row-found}
use kippu_api.Sales.Payment.Take.{target_of, take_hold, take_place}
use kippu_api.Sales.Payment.Take.Ends.{take_place-Took}
use kippu_api.Sales.Payment.Take.Cases.{
  Took, rolled_back, repeated, refunded, took, Refunded, Taken, Refused, mismatched, closed, gone,
  Free, still, again, noted, counted,
}

end-Keeps :
    (s : Scope) (id at : ℕ) (h : Hold) → Keeps (live_in s) (releases_hold id) (end_hold at) h
end-Keeps (of_event e) id at h = ground arith
end-Keeps (of_class c) id at h = ground arith
end-Keeps (of_seat e z p) id at h = ground arith

still-live :
    (s : Scope) (h : Hold)
    → h.status ≡ outstanding
    → live_in s (take_hold h) ≡ true
    → live_in s h ≡ true
still-live (of_event x) h e l = ground arith
still-live (of_class x) h e l = ground arith
still-live (of_seat x z p) h e l = ground arith

lapsed-scope :
    (s : Scope) (e at : ℕ) (row : HoldRow)
    → live_in s (take_hold (updated (lapses_of e at) lapse row.hold)) ≡ target_in s (target_of row)
lapsed-scope (of_event x) e at row = ground arith
lapsed-scope (of_class x) e at row = ground arith
lapsed-scope (of_seat x z p) e at row = ground arith

module _ (ledger : Ledger) (ticket_of : TicketOf) (cause : CheckoutCause) (hosted : HostedRow)
    (remote : HostedCheckout) (clock : ℕ → ℕ) (refund_id sale_id : ℕ) (row : HoldRow) where
  noted-same :
      (db : Db)
      → let n = noted ledger ticket_of cause hosted remote clock refund_id sale_id row db in
        (n.holds ≡ db.holds)
        × (n.granted_issuances ≡ db.granted_issuances)
        × (n.ticket_classes ≡ db.ticket_classes)
  unfolding record_status record_checkout_step
  noted-same db = (refl, refl, refl)

  -- A refund frees a place or leaves what is taken.
  Refused-le :
      (s : Scope) (db : Db) (hs : List Hold) {reason : _}
      → Refused ledger ticket_of cause hosted remote clock refund_id sale_id row db hs reason
      → count_where (live_in s) hs ≤ count_where (live_in s) db.holds
  unfolding lapse_event
  Refused-le s db hs (mismatched _ e) = rw e (
      count-update-le (live_in s) _ _ db.holds (All_pure _ (end-Keeps s row.id (clock 3)) db.holds))
  Refused-le s db hs (closed _ _ e) = rw e (
      count-update-le (live_in s) _ _ db.holds (All_pure _ (end-Keeps s row.id (clock 3)) db.holds))
  Refused-le s db hs (gone _ _ e) = rw e (
      count-update-le (live_in s) _ _ db.holds
        (All_pure _ (lapse-Keeps s row.event (clock 2)) db.holds))

  module _ (db : Db) (there : hold_row hosted.hold_id db ≡ ok row)
      (unique : count_where (has_id row.id) db.holds ≤ 1) (s : Scope) (n : ℕ)
      (limit : Limit ledger db s n) (within : taken ticket_of s db ≤ n) where
    abbrev now_db : Db
    now_db = counted ledger ticket_of cause hosted remote clock refund_id sale_id row db

    lapsed_holds : now_db.holds ≡ update_where (lapses_of row.event (clock 2)) lapse db.holds
    unfolding lapse_event record_status record_checkout_step
    lapsed_holds = refl

    now_unique : count_where (has_id row.id) now_db.holds ≤ 1
    now_unique = rw lapsed_holds (
        omega (
          arith,
          unique,
          count-update_eq (has_id row.id) (lapses_of row.event (clock 2)) lapse (λ h. ground arith)
              db.holds,
        ))

    now_within : taken ticket_of s now_db ≤ n
    now_within = omega (
      arith,
      within,
      taken-lapse-le ticket_of s row.event (clock 2)
          (noted ledger ticket_of cause hosted remote clock refund_id sale_id row db),
      taken-same ticket_of s db
          (noted ledger ticket_of cause hosted remote clock refund_id sale_id row db)
          (noted-same db).0 (noted-same db).1,
    )

    now-Limit : Limit ledger now_db s n
    unfolding lapse_event record_status record_checkout_step
    now-Limit = Limit-same ledger ticket_of s n db now_db refl limit

    -- The hold is the row's, lapsed or not.
    now_hold :
        {h : Hold}
        → find_where (has_id row.id) now_db.holds ≡ some h
        → h ≡ updated (lapses_of row.event (clock 2)) lapse row.hold
    now_hold e =
        let e' =
          find-update (has_id row.id) (lapses_of row.event (clock 2)) lapse (λ h. ground arith)
            db.holds (hold_row-found hosted.hold_id db row there) in
        some-injective _ _ (sym e ∙ ap (find_where (has_id row.id)) lapsed_holds ∙ e')

    taken_hold-le :
        {h : Hold}
        → find_where (has_id row.id) now_db.holds ≡ some h
        → Free ledger ticket_of cause hosted remote clock refund_id sale_id row now_db h
        → count_where (live_in s) (update_where (has_id row.id) take_hold now_db.holds)
            + count_where (granted_in ticket_of s) now_db.granted_issuances
          ≤ n
    unfolding taken
    taken_hold-le e (still h out) = omega (
      arith,
      now_within,
      count-update-found-le (live_in s) (has_id row.id) take_hold now_db.holds e now_unique
          (still-live s h out),
    )
    taken_hold-le e (again h fits) = elim (Bool-cases (target_in s (target_of row))) [
      | inl hit ↦ omega (
        arith,
        Fits-lt ledger ticket_of (target_of row) now_db fits s n now-Limit hit,
        count-update-le-add (live_in s) (has_id row.id) take_hold now_db.holds,
        now_unique,
      )
      | inr miss ↦ omega (
        arith,
        now_within,
        count-update-found-le (live_in s) (has_id row.id) take_hold now_db.holds e now_unique (λ l.
            let same_scope =
              ap (λ x. live_in s (take_hold x)) (now_hold e)
              ∙ lapsed-scope s row.event (clock 2) row in
            cc (l, same_scope, miss)),
      )
    ]

    rolled_Refused-le :
        (db' : Db) {reason : _}
        → Refunded ledger ticket_of cause hosted remote clock refund_id sale_id row db db' reason
        → taken ticket_of s db' ≤ n
    unfolding taken
    rolled_Refused-le db' t =
        let old = noted-same db in
        let fewer =
          Refused-le s (noted ledger ticket_of cause hosted remote clock refund_id sale_id row db)
            db'.holds t.why in
        let same_live = ap (count_where (live_in s)) old.0 in
        rw t.grants (omega (arith, fewer, within, same_live))

    placed-le :
        (db' : Db) {h : Hold}
        → Taken ledger ticket_of cause hosted remote clock refund_id sale_id row db db' h
        → taken ticket_of s db' ≤ n
    unfolding taken lapse_event record_status record_checkout_step
    placed-le db' t = rw (t.holds, t.grants) (taken_hold-le t.there t.place)

    settled-le :
        (o : Outcome (Option HoldRow))
        → Took ledger ticket_of cause hosted remote clock refund_id sale_id row db o
        → taken ticket_of s (after o) ≤ n
    unfolding record_status taken
    settled-le o (rolled_back e _ eq) = rw (ap after eq) within
    settled-le o (repeated _ seen eq) = rw (ap after eq) within
    settled-le o (refunded reason db' _ eq t) = rw (ap after eq) (rolled_Refused-le db' t)
    settled-le o (took h db' _ eq t) = rw (ap after eq) (placed-le db' t)

  -- Taking a payment's place keeps every limit: with one hold to an id, if no more is taken than
  -- the event's capacity on the ledger, the class's quota, or one allocation of the seat, then
  -- that holds of the store that the call leaves, also where it takes back a hold that had ended.
  pub take_place-Limit :
      (db : Db) (s : Scope) (n : ℕ)
      → hold_row hosted.hold_id db ≡ ok row
      → count_where (has_id row.id) db.holds ≤ 1
      → Limit ledger db s n
      → taken ticket_of s db ≤ n
      → taken ticket_of s
          (after (take_place ledger ticket_of cause hosted remote clock refund_id sale_id db))
        ≤ n
  take_place-Limit db s n there unique limit within =
      settled-le db there unique s n limit within _
        (take_place-Took ledger ticket_of cause hosted remote clock refund_id sale_id row db there)

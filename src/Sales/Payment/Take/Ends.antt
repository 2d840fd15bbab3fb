-- ===== src/Sales/Payment/Take/Ends.antt =====
-- Every call of `takePlace` for a hold that is in the store ends in one of these ways.
use kippu_api.Base.{
  ℕ, ◌≡◌, refl, inl, inr, Bool, true, false, Option, none, some, arith, ◌==◌, find_where,
  count_where,
}
use kippu_api.Store.{
  Try, ok, fail, Ledger, TicketOf, Hold, HostedRow, RefundReason, amount_mismatch, event_closed,
  place_gone, Db, Outcome, failure, threw, step_done, done, after, M, pure, ◌>>=◌, lift,
  in_transaction,
}
use kippu_api.Sales.Allocation.{lapse_event, counts_of, allocation_counts, sales_closed}
use kippu_api.Sales.Audit.{CheckoutCause, record_checkout_step}
use kippu_api.Sales.Payment.{
  HostedCheckout, HoldRow, has_id, hold_row, record_status, releases_hold, release_hold, entitle,
  record_refund, is_handled,
}
use kippu_api.Sales.Payment.Entitle.{unrefunded, entitle-fresh}
use kippu_api.Sales.Payment.Take.{
  target_of, is_placed, take_or_refund, take_counted, note_release, take_verified, take_by,
  take_place,
}
use kippu_api.Sales.Payment.Take.Cases.{
  matches, mismatched, closed, gone, Free, Free-of, noted, counted, Took, rolled_back, repeated,
  refunded, took, refund_of,
}

module _ (ledger : Ledger) (ticket_of : TicketOf) (cause : CheckoutCause) (hosted : HostedRow)
    (remote : HostedCheckout) (clock : ℕ → ℕ) (refund_id sale_id : ℕ) (row : HoldRow) where
  module _ (db : Db) (row_there : hold_row hosted.hold_id db ≡ ok row) where
    abbrev run : M (Option HoldRow) → Db → Outcome (Option HoldRow)
    run m now = in_transaction (λ _. m now) db

    abbrev refund_by : RefundReason → ℕ → M (Unit {0})
    refund_by reason at =
        entitle cause hosted row.checkout_id remote.amount remote.asset reason refund_id at

    abbrev refunded_db : RefundReason → ℕ → Db → Db
    refunded_db reason at now = after (
        record_refund cause hosted row.checkout_id remote.amount remote.asset reason refund_id at
          now)

    -- Going on after a refund that is not there yet, or rolled back where it is refused.
    refund_step :
        {B : Type 0} (P : Outcome B → Type 0) (reason : RefundReason) (at : ℕ) (f : Unit {0} → M B)
        (now : Db)
        → now.refund_entitlements ≡ db.refund_entitlements
        → is_handled hosted.id db ≡ false
        → P (threw failure db)
        → P (in_transaction (λ _. f tt (refunded_db reason at now)) db)
        → P (in_transaction (λ _. (refund_by reason at >>= f) now) db)
    refund_step P reason at f now same_refunds fresh y x =
        elim (entitle-fresh cause hosted row.checkout_id remote.amount remote.asset reason refund_id
          at now (rw same_refunds (unrefunded hosted.id db fresh))) [
            | inl recorded ↦
                step_done P (refund_by reason at) f now db (refunded_db reason at now) tt recorded x
            | inr refused ↦ rw (refused, in_transaction, ◌>>=◌) y
          ]

    gone-Took :
        is_handled hosted.id db ≡ false
        → (matches ledger ticket_of cause hosted remote clock refund_id sale_id row) ≡ true
        → sales_closed row.event db ≡ false
        → Took ledger ticket_of cause hosted remote clock refund_id sale_id row db (
            run
              (take_or_refund ledger ticket_of cause hosted remote clock refund_id sale_id row
                false)
              (counted ledger ticket_of cause hosted remote clock refund_id sale_id row db))
    unfolding take_or_refund record_refund record_checkout_step record_status lapse_event
        sales_closed
    gone-Took fresh amount opened =
        refund_step (Took ledger ticket_of cause hosted remote clock refund_id sale_id row db)
          place_gone (clock 3) (λ _. pure none)
          (counted ledger ticket_of cause hosted remote clock refund_id sale_id row db) refl fresh
          (rolled_back failure _ refl)
          (refunded place_gone
            (refunded_db place_gone (clock 3)
              (counted ledger ticket_of cause hosted remote clock refund_id sale_id row db))
            _ refl
            (record {
              unhandled = fresh;
              why = gone amount opened refl;
              refund =
                  refund_of ledger ticket_of cause hosted remote clock refund_id sale_id row
                    place_gone (clock 3);
              is_refund = record { of = refl; amount = refl; asset = refl; why = refl };
              refunds = refl;
              sales = refl;
              grants = refl;
            }))

    mismatch-Took :
        is_handled hosted.id db ≡ false
        → (matches ledger ticket_of cause hosted remote clock refund_id sale_id row) ≡ false
        → (c : Bool)
        → Took ledger ticket_of cause hosted remote clock refund_id sale_id row db (
            run
              (take_verified ledger ticket_of cause hosted remote clock refund_id sale_id row false
                c)
              (noted ledger ticket_of cause hosted remote clock refund_id sale_id row db))
    unfolding take_verified record_refund release_hold record_checkout_step record_status
    mismatch-Took fresh amount c =
        refund_step (Took ledger ticket_of cause hosted remote clock refund_id sale_id row db)
          amount_mismatch (clock 2) (λ _. release_hold row.id (clock 3) >>= λ _. pure none)
          (noted ledger ticket_of cause hosted remote clock refund_id sale_id row db) refl fresh
          (rolled_back failure _ refl)
          (refunded amount_mismatch
            (after (
              release_hold row.id (clock 3) (
                refunded_db amount_mismatch (clock 2)
                  (noted ledger ticket_of cause hosted remote clock refund_id sale_id row db))))
            _ refl
            (record {
              unhandled = fresh;
              why = mismatched amount refl;
              refund =
                  refund_of ledger ticket_of cause hosted remote clock refund_id sale_id row
                    amount_mismatch (clock 2);
              is_refund = record { of = refl; amount = refl; asset = refl; why = refl };
              refunds = refl;
              sales = refl;
              grants = refl;
            }))

    released_db : Db
    released_db = after (
        release_hold row.id (clock 3) (
          refunded_db event_closed (clock 2)
            (noted ledger ticket_of cause hosted remote clock refund_id sale_id row db)))

    note-done :
        (b : Bool)
        → (db' : Db) × (note_release ledger ticket_of cause hosted remote clock refund_id sale_id
              row b released_db
            ≡ done tt db')
          × (db'.holds ≡ released_db.holds)
          × (db'.refund_entitlements ≡ released_db.refund_entitlements)
          × (db'.primary_sales ≡ released_db.primary_sales)
          × (db'.granted_issuances ≡ released_db.granted_issuances)
    unfolding note_release record_checkout_step
    note-done true = (_, refl, refl, refl, refl, refl)
    note-done false = (released_db, refl, refl, refl, refl, refl)

    closed-Took :
        is_handled hosted.id db ≡ false
        → (matches ledger ticket_of cause hosted remote clock refund_id sale_id row) ≡ true
        → sales_closed row.event db ≡ true
        → Took ledger ticket_of cause hosted remote clock refund_id sale_id row db (
            run
              (take_verified ledger ticket_of cause hosted remote clock refund_id sale_id row true
                true)
              (noted ledger ticket_of cause hosted remote clock refund_id sale_id row db))
    unfolding take_verified record_refund release_hold record_checkout_step record_status
        sales_closed released_db
    closed-Took fresh amount shut =
        let (db', noted_it, hs, rs, ss, gs) =
          note-done (count_where (releases_hold row.id) db.holds == 1) in
        refund_step (Took ledger ticket_of cause hosted remote clock refund_id sale_id row db)
          event_closed (clock 2)
          (λ _. release_hold row.id (clock 3) >>= λ count.
            note_release ledger ticket_of cause hosted remote clock refund_id sale_id row
              (count == 1)
            >>= λ _. pure none)
          (noted ledger ticket_of cause hosted remote clock refund_id sale_id row db) refl fresh
          (rolled_back failure _ refl)
          (step_done (Took ledger ticket_of cause hosted remote clock refund_id sale_id row db)
            (note_release ledger ticket_of cause hosted remote clock refund_id sale_id row
              (count_where (releases_hold row.id) db.holds == 1))
            (λ _. pure none) released_db db db' tt noted_it
            (refunded event_closed db' _ refl (record {
              unhandled = fresh;
              why = closed amount shut hs;
              refund =
                  refund_of ledger ticket_of cause hosted remote clock refund_id sale_id row
                    event_closed (clock 2);
              is_refund = record { of = refl; amount = refl; asset = refl; why = refl };
              refunds = rs;
              sales = ss;
              grants = gs;
            })))

    place-Took :
        is_handled hosted.id db ≡ false
        → (matches ledger ticket_of cause hosted remote clock refund_id sale_id row) ≡ true
        → sales_closed row.event db ≡ false
        → (h : Hold)
        → find_where
            (has_id row.id)
            (counted ledger ticket_of cause hosted remote clock refund_id sale_id row db).holds
          ≡ some h
        → Free ledger ticket_of cause hosted remote clock refund_id sale_id row
            (counted ledger ticket_of cause hosted remote clock refund_id sale_id row db)
            h
        → Took ledger ticket_of cause hosted remote clock refund_id sale_id row db (
            run
              (take_or_refund ledger ticket_of cause hosted remote clock refund_id sale_id row true)
              (counted ledger ticket_of cause hosted remote clock refund_id sale_id row db))
    unfolding take_or_refund record_checkout_step record_status lapse_event
    place-Took fresh amount opened h there free = took h _ _ refl (record {
      unhandled = fresh;
      amount = amount;
      open_sales = opened;
      there = there;
      place = free;
      holds = refl;
      sale = _;
      is_sale = record { id = refl; of = refl; hold = refl; holder = refl; status = refl };
      sales = refl;
      refunds = refl;
      grants = refl;
    })

    decided-Took :
        is_handled hosted.id db ≡ false
        → (matches ledger ticket_of cause hosted remote clock refund_id sale_id row) ≡ true
        → sales_closed row.event db ≡ false
        → (o : Option Hold)
        → find_where
            (has_id row.id)
            (counted ledger ticket_of cause hosted remote clock refund_id sale_id row db).holds
          ≡ o
        → (placed : Try Bool)
        → is_placed ledger ticket_of row
            (counts_of
              (target_of row)
              (counted ledger ticket_of cause hosted remote clock refund_id sale_id row db))
            (counted ledger ticket_of cause hosted remote clock refund_id sale_id row db)
            o
          ≡ placed
        → Took ledger ticket_of cause hosted remote clock refund_id sale_id row db (
            run
              (lift placed
                >>= take_or_refund ledger ticket_of cause hosted remote clock refund_id sale_id row)
              (counted ledger ticket_of cause hosted remote clock refund_id sale_id row db))
    unfolding is_placed
    decided-Took fresh amount opened o there (fail e) eq = rolled_back e _ refl
    decided-Took fresh amount opened o there (ok false) eq = gone-Took fresh amount opened
    decided-Took fresh amount opened none there (ok true) eq = absurd (ground arith)
    decided-Took fresh amount opened (some h) there (ok true) eq =
        place-Took fresh amount opened h there (
          Free-of ledger ticket_of cause hosted remote clock refund_id sale_id row h h.status refl
            eq)

    verified-Took :
        is_handled hosted.id db ≡ false
        → (m : Bool)
        → (matches ledger ticket_of cause hosted remote clock refund_id sale_id row) ≡ m
        → (c : Bool) → sales_closed row.event db ≡ c
        → Took ledger ticket_of cause hosted remote clock refund_id sale_id row db (
            run
              (take_verified ledger ticket_of cause hosted remote clock refund_id sale_id row m c)
              (noted ledger ticket_of cause hosted remote clock refund_id sale_id row db))
    unfolding take_verified take_counted allocation_counts
    verified-Took fresh false amount c shut = mismatch-Took fresh amount c
    verified-Took fresh true amount true shut = closed-Took fresh amount shut
    verified-Took fresh true amount false opened = decided-Took fresh amount opened _ refl _ refl

    handled-Took :
        (b : Bool)
        → is_handled hosted.id db ≡ b
        → Took ledger ticket_of cause hosted remote clock refund_id sale_id row db (
            run
              (take_by ledger ticket_of cause hosted remote clock refund_id sale_id row b)
              (record_status hosted.id remote.status (clock 0) db))
    unfolding take_by record_checkout_step sales_closed record_status
    handled-Took true seen = repeated _ seen refl
    handled-Took false fresh = verified-Took fresh _ refl _ refl

    pub take_place-Took :
        Took ledger ticket_of cause hosted remote clock refund_id sale_id row db
          (take_place ledger ticket_of cause hosted remote clock refund_id sale_id db)
    unfolding take_place is_handled record_status
    take_place-Took = rw (row_there, in_transaction, ◌>>=◌) (handled-Took _ refl)

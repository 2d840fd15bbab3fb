-- ===== src/Sales/Checkout/Begin.antt =====
-- `beginCheckout`, `checkout` and `hold` of src/sales/checkout.ts.
pub mod Guards
use kippu_api.Base.{
  ℕ, Bool, true, false, not, ◌&&◌, Option, none, some, List, [], ◌∷◌, ◌==◌, is_some, if◌then◌else◌,
  count_where, find_where,
}
use kippu_api.Store.{
  Error, spec, refused_request, bad_request, checkout_error, account_required, link_unconfirmed,
  unknown_class, unknown_zone, zone_kind_mismatch, Try, ok, fail, ZoneKind, seated, unseated, Zone,
  Event, Ledger, TicketOf, TicketClass, CheckoutSession, PrimarySale, SaleStatus, issued,
  SeatPosition, begun, linked, link_confirmed, Db, M, ◌>>=◌, ◌>>◌, get, modify, pure, throw, lift,
  in_transaction,
}
use kippu_api.Sales.Allocation.{is_purchased, AllocationTarget}
use kippu_api.Sales.OnSale.{event_on_sale}
use kippu_api.Sales.Audit.{
  CheckoutActor, CheckoutCause, session_of, holder_of, record_checkout_step,
}
use kippu_api.Sales.Holds.{HoldRefusal, HoldTarget, SalesRequest, cause_of, place}
use kippu_api.Sales.Checkout.{
  Secrets, PlacementInput, seated_at, unseated_at, BeginCheckoutInput, CheckoutRow, Checkout,
  find_by, by_token, checkout_of, read_checkout,
}

-- canonicalPosition (src/events/zones.ts): the designation in its normal form, if the zone has it.
-- `normalise` gives none for text that is not well formed.
unfoldable pub canonical_position : (ℕ → Option ℕ) → ℕ → ℕ → ℕ → Db → Try ℕ
canonical_position normalise event zone designation db = elim (normalise designation) [
  | none ↦ fail (refused_request bad_request none)
  | some n ↦
      if count_where
          (λ (p : SeatPosition). p.event == event && p.zone == zone && p.designation == n)
          db.seat_positions
        == 1
      then ok n
      else fail (refused_request bad_request none)
]

-- `zone.kind !== input.placement.kind`
abbrev is_kind_of : ZoneKind → PlacementInput → Bool
is_kind_of seated (seated_at _) = true
is_kind_of unseated unseated_at = true
is_kind_of _ _ = false

abbrev position_in : (ℕ → Option ℕ) → ℕ → ℕ → PlacementInput → Db → Try (Option ℕ)
position_in normalise event zone unseated_at db = ok none
position_in normalise event zone (seated_at d) db =
    elim (canonical_position normalise event zone d db) [ ok p ↦ ok (some p) | fail e ↦ fail e ]

-- The class's tickets are sold, and the placement fits its zone.
unfoldable pub placed_in : (ℕ → Option ℕ) → Event → BeginCheckoutInput → Db → Try (Option ℕ)
placed_in normalise ev input db =
    elim (find_where (λ (c : TicketClass). c.id == input.class_id && c.event == input.event)
      db.ticket_classes) [
        | none ↦ fail (spec unknown_class)
        | some c ↦
            if not (is_purchased c.provenance)
            then fail (refused_request bad_request none)
            else elim (find_where (λ (z : Zone). z.id == input.zone) ev.zones) [
              | none ↦ fail (spec unknown_zone)
              | some z ↦
                  if not (is_kind_of z.kind input.placement)
                  then fail (spec zone_kind_mismatch)
                  else position_in normalise input.event input.zone input.placement db
            ]
      ]

module _ (secrets : Secrets) (request : SalesRequest) where
  -- A buyer with their own holder session is linked, and the link confirmed, at once.
  unfoldable pub new_session : ℕ → ℕ → BeginCheckoutInput → Option ℕ → ℕ → CheckoutSession
  new_session id token input position at =
      let own_session = holder_of request.principal in
      record {
        id = id;
        token_hash = secrets.hash_secret token;
        handoff_token_hash = secrets.hash_secret (secrets.handoff_token_of token 0);
        handoff_generation = 0;
        event = input.event;
        zone = input.zone;
        class_id = input.class_id;
        position = position;
        holder_account = own_session;
        linked_session_id = if is_some own_session then session_of request.principal else none;
        linked_request_id = if is_some own_session then some request.request_id else none;
        linked_at = if is_some own_session then some at else none;
        link_confirmed_at = if is_some own_session then some at else none;
        link_confirmed_request_id = if is_some own_session then some request.request_id else none;
        created_request_id = request.request_id;
        created_at = at;
      }

  unfoldable pub insert_session : CheckoutSession → ℕ → M (Unit {0})
  insert_session c at = do
    modify λ db. record db { checkout_sessions = c ∷ db.checkout_sessions }
    record_checkout_step c.id begun (cause_of request) at
    if is_some c.holder_account
        then (record_checkout_step c.id linked (cause_of request) at
            >> record_checkout_step c.id link_confirmed (cause_of request) at)
        else pure tt

module _ (ledger : Ledger) (ticket_of : TicketOf) (secrets : Secrets) (request : SalesRequest)
    (clock : ℕ → ℕ) where
  -- `id` and `token` are made up.
  unfoldable pub begin_checkout : (ℕ → Option ℕ) → ℕ → ℕ → BeginCheckoutInput → M (ℕ × Checkout)
  begin_checkout normalise id token input = do
    db ← get
    ev ← lift (event_on_sale ledger input.event db)
    position ← lift (placed_in normalise ev input db)
    in_transaction (
        insert_session secrets request
          (new_session secrets request id token input position (clock 0)) (clock 0))
    shown ← read_checkout secrets token (clock 1)
    pure (token, shown)

  abbrev target_for : CheckoutRow → HoldTarget
  target_for row = record {
    checkout_id = row.id;
    target = record {
      event = row.event;
      zone = row.zone;
      class_id = row.class_id;
      position = row.position;
    };
  }

  unfoldable pub hold_row_of : CheckoutRow → ℕ → M (Option HoldRefusal)
  hold_row_of row hold_id =
      if not (is_some row.holder_account)
      then throw (checkout_error account_required)
      else if not (is_some row.link_confirmed_at)
      then throw (checkout_error link_unconfirmed)
      else place ledger ticket_of request (target_for row) hold_id (clock 1)

  abbrev outcome_of : ℕ → Option HoldRefusal → M (Option HoldRefusal × Option Checkout)
  outcome_of token (some refusal) = pure (some refusal, none)
  outcome_of token none = do shown ← read_checkout secrets token (clock 2); pure (none, some shown)

  -- The refusal, or else the checkout with its hold.
  unfoldable pub hold : ℕ → ℕ → M (Option HoldRefusal × Option Checkout)
  hold token hold_id = do
    db ← get
    row ← lift (find_by (by_token secrets token) (clock 0) db)
    refusal ← hold_row_of row hold_id
    outcome_of token refusal

abbrev issued_cursor : Option PrimarySale → Option ℕ
issued_cursor none = none
issued_cursor (some s) = elim s.status [ issued ↦ s.receipt_cursor | _ ↦ none ]

-- `visible` says whether Kippu's copy of the ledger reaches a cursor within the time given.
unfoldable pub checkout : Secrets → (ℕ → Bool) → ℕ → ℕ → M Checkout
checkout secrets visible token at = do
  shown ← read_checkout secrets token at
  pure (elim (issued_cursor shown.sale) [
    | none ↦ shown
    | some cursor ↦ record shown { is_ticket_visible = visible cursor }
  ])

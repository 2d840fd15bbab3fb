-- ===== src/Sales/Allocation.antt =====
-- src/sales/allocation.ts: the accounting that every allocation of an event's issuance shares.
-- The locks it takes (`lockAllocation`) make a transaction one step of the model.
pub mod Room
pub mod Taken
pub mod Limit
use kippu_api.Base.{
  ℕ, order_by, ltb, leb, ◌||◌, ◌+◌, ◌-◌, max, Bool, true, false, not, ◌&&◌, ◌||◌, Option, none,
  some, List, map, ltb, leb, ◌==◌, same, is_some, if◌then◌else◌, count_where, exists_where,
  find_where, select_where, update_where,
}
use kippu_api.Store.{
  Hold, lapsed, is_outstanding, is_issuing, is_confirmed, TicketClass, GrantedIssuance, is_rejected,
  Provenance, purchased, SaleAssetRow, SaleClosure, Event, Db, M, ◌>>=◌, ◌>>◌, get, modify, pure,
}

pub record AllocationTarget : Type 0 where
  pub event : ℕ
  pub zone : ℕ
  pub class_id : ℕ
  pub position : Option ℕ

pub record SaleTerms : Type 0 where
  pub asset : ℕ
  pub price : ℕ

pub record AllocationCounts : Type 0 where
  pub event_holds : ℕ
  pub class_holds : ℕ
  pub seat_held : Bool
  pub purchased_count : ℕ
  pub class_purchased : ℕ
  pub granted_count : ℕ
  pub class_granted : ℕ
  pub quota : Option ℕ

abbrev pub is_purchased : Provenance → Bool
is_purchased purchased = true
is_purchased _ = false

-- provenance = 'Purchased' AND price IS NULL, of the event
abbrev pub is_unpriced : ℕ → TicketClass → Bool
is_unpriced event c = c.event == event && is_purchased c.provenance && not (is_some c.price)

-- The event's sale asset.
unfoldable pub sale_asset : ℕ → Db → Option ℕ
sale_asset event db =
    elim (find_where (λ (r : SaleAssetRow). r.event == event) db.event_sale_assets) [
      | none ↦ none
      | some r ↦ some r.asset
    ]

unfoldable pub class_price : ℕ → ℕ → Db → Option ℕ
class_price event class_id db =
    elim (find_where (λ (c : TicketClass). c.id == class_id && c.event == event)
      db.ticket_classes) [ none ↦ none | some c ↦ c.price ]

abbrev terms_of : Option ℕ → Option ℕ → Bool → Option SaleTerms
terms_of (some asset) (some price) false = some (record { asset = asset; price = price })
terms_of _ _ _ = none

unfoldable pub sale_terms : ℕ → ℕ → Db → Option SaleTerms
sale_terms event class_id db =
    terms_of (sale_asset event db) (class_price event class_id db)
      (exists_where (is_unpriced event) db.ticket_classes)

-- ORDER BY created_at, id
abbrev pub is_older_class : TicketClass → TicketClass → Bool
is_older_class c d =
    ltb c.created_at d.created_at || (c.created_at == d.created_at && leb c.id d.id)

unfoldable pub unpriced_classes : ℕ → Db → List ℕ
unpriced_classes event db =
    map (λ (c : TicketClass). c.id)
      (order_by is_older_class (select_where (is_unpriced event) db.ticket_classes))

unfoldable pub has_had_hold : ℕ → Db → Bool
has_had_hold event db = exists_where (λ (h : Hold). h.event == event) db.holds

-- status IN ('outstanding', 'issuing')
abbrev pub is_open_hold : Hold → Bool
is_open_hold h = is_outstanding h.status || is_issuing h.status

-- status IN ('outstanding', 'issuing', 'confirmed')
abbrev pub is_live : Hold → Bool
is_live h = is_open_hold h || is_confirmed h.status

abbrev pub has_expired : ℕ → Hold → Bool
has_expired at h = is_outstanding h.status && leb h.expires_at at

-- SET status = 'lapsed', ended_at = expires_at
abbrev pub lapse : Hold → Hold
lapse h = record h { status = lapsed; ended_at = some h.expires_at }

abbrev pub lapses_of : ℕ → ℕ → Hold → Bool
lapses_of event at h = h.event == event && has_expired at h

-- Records the event's expired holds as lapsed.
unfoldable pub lapse_event : ℕ → ℕ → Db → Db
lapse_event event at db = record db { holds = update_where (lapses_of event at) lapse db.holds }

abbrev pub holds_seat : AllocationTarget → Hold → Bool
holds_seat t h = h.event == t.event && h.zone == t.zone && same h.position t.position && is_live h

abbrev pub event_open : ℕ → Hold → Bool
event_open event h = h.event == event && is_open_hold h

abbrev pub class_open : ℕ → Hold → Bool
class_open class_id h = h.class_id == class_id && is_open_hold h

abbrev pub event_confirmed : ℕ → Hold → Bool
event_confirmed event h = h.event == event && is_confirmed h.status

abbrev pub class_confirmed : ℕ → Hold → Bool
class_confirmed class_id h = h.class_id == class_id && is_confirmed h.status

abbrev pub event_granted : ℕ → GrantedIssuance → Bool
event_granted event g = g.event == event && not (is_rejected g.status)

abbrev pub class_grant : ℕ → GrantedIssuance → Bool
class_grant class_id g = g.class_id == class_id && not (is_rejected g.status)

unfoldable pub class_quota : ℕ → Db → Option ℕ
class_quota class_id db =
    elim (find_where (λ (c : TicketClass). c.id == class_id) db.ticket_classes) [
      | none ↦ none
      | some c ↦ c.quota
    ]

-- The SELECT of `allocationCounts`.
unfoldable pub counts_of : AllocationTarget → Db → AllocationCounts
counts_of t db = record {
  event_holds = count_where (event_open t.event) db.holds;
  class_holds = count_where (class_open t.class_id) db.holds;
  seat_held = exists_where (holds_seat t) db.holds;
  purchased_count = count_where (event_confirmed t.event) db.holds;
  class_purchased = count_where (class_confirmed t.class_id) db.holds;
  granted_count = count_where (event_granted t.event) db.granted_issuances;
  class_granted = count_where (class_grant t.class_id) db.granted_issuances;
  quota = class_quota t.class_id db;
}

unfoldable pub allocation_counts : AllocationTarget → ℕ → M AllocationCounts
allocation_counts t at = do modify (lapse_event t.event at); db ← get; pure (counts_of t db)

-- Tickets issued, as the ledger counts them or as Kippu has undertaken to issue them.
abbrev pub issued_count : Event → AllocationCounts → ℕ
issued_count ev c = max ev.issued (c.granted_count + c.purchased_count)

unfoldable pub capacity_remaining : Event → AllocationCounts → Option ℕ
capacity_remaining ev c = elim ev.max_capacity [
  | none ↦ none
  | some cap ↦ some (cap - issued_count ev c - c.event_holds)
]

unfoldable pub allocated_count : Event → AllocationCounts → ℕ
allocated_count ev c = issued_count ev c + c.event_holds

unfoldable pub sales_closed : ℕ → Db → Bool
sales_closed event db =
    exists_where (λ (c : SaleClosure). c.event == event && not (is_some c.reopened_at))
      db.event_sale_closures

-- `remaining === null || remaining > 0`
abbrev pub has_room : Option ℕ → Bool
has_room none = true
has_room (some n) = ltb 0 n

unfoldable pub capacity_has_room : Event → AllocationCounts → Bool
unfolding capacity_remaining
capacity_has_room ev c = has_room (capacity_remaining ev c)

unfoldable pub quota_remaining : AllocationCounts → Option ℕ
quota_remaining c = elim c.quota [
  | none ↦ none
  | some q ↦ some (q - c.class_holds - c.class_purchased - c.class_granted)
]

unfoldable pub quota_has_room : AllocationCounts → Bool
unfolding quota_remaining
quota_has_room c = has_room (quota_remaining c)

abbrev pub is_held_at : ℕ → ℕ → ℕ → Hold → Bool
is_held_at event zone at h =
    h.event == event
    && h.zone == zone
    && is_some h.position
    && (is_issuing h.status
        || is_confirmed h.status
        || (is_outstanding h.status && ltb at h.expires_at))

-- The seats of a zone that holds occupy, as a test on designations.
unfoldable pub held_positions : ℕ → ℕ → ℕ → Db → ℕ → Bool
held_positions event zone at db designation =
    exists_where (λ h. is_held_at event zone at h && same h.position (some designation)) db.holds

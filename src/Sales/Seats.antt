-- ===== src/Sales/Seats.antt =====
-- src/events/seats.ts: the seated double-allocation pre-check. It stands beside the sales, whose
-- holds, payments and issuances call it.
use kippu_api.Base.{◌≡◌, arith, ℕ, Bool, false, not, ◌&&◌, some, same, if◌then◌else◌, exists_where}
use kippu_api.Store.{
  spec, ticket_id_exists, ticket_not_found, SpecCode, Try, ok, fail, found, refused, Ledger,
  TicketOf, Db, GrantedIssuance, is_rejected,
}

abbrev pub issues_ticket : ℕ → GrantedIssuance → Bool
issues_ticket ticket g = same g.ticket (some ticket) && not (is_rejected g.status)

-- What the ledger's answer about a seat's ticket means: only its absence frees the seat.
abbrev pub unissued : ℕ → SpecCode → Try ℕ
unissued ticket ticket_not_found = ok ticket
unissued ticket code = fail (spec code)

unfoldable pub assert_free : Ledger → TicketOf → ℕ → ℕ → ℕ → Db → Try ℕ
assert_free ledger ticket_of event zone position db =
    let ticket = ticket_of event zone position in
    if exists_where (issues_ticket ticket) db.granted_issuances
    then fail (spec ticket_id_exists)
    else elim (ledger.get_ticket ticket) [
      | found _ ↦ fail (spec ticket_id_exists)
      | refused code ↦ unissued ticket code
    ]

-- A seat is free only if Kippu issues no ticket for it and the ledger has none.
pub assert_free-ok :
    (ledger : Ledger) (ticket_of : TicketOf) (event zone position : ℕ) (db : Db) (ticket : ℕ)
    → assert_free ledger ticket_of event zone position db ≡ ok ticket
    → (exists_where (issues_ticket (ticket_of event zone position)) db.granted_issuances ≡ false)
      × (ledger.get_ticket (ticket_of event zone position) ≡ refused ticket_not_found)
      × (ticket ≡ ticket_of event zone position)
unfolding assert_free
assert_free-ok ledger ticket_of event zone position db ticket e = ground arith

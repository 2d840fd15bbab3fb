-- ===== src/Sales/Payment/Rows.antt =====
-- What the rows that are joined for a payment say of the tables.
use kippu_api.Base.{
  ℕ, ◌≡◌, some, arith, ==_iff, find_where, find-test, ◌∙◌, ap, sym, inl, inr, Option-cases,
}
use kippu_api.Store.{ok, Hold, Db}
use kippu_api.Sales.Payment.{HoldRow, has_id, hold_row}

-- A joined row holds the hold that the store has under its id.
pub hold_row-found :
    (id : ℕ) (db : Db) (row : HoldRow)
    → hold_row id db ≡ ok row
    → (find_where (has_id row.id) db.holds ≡ some row.hold)
unfolding hold_row
hold_row-found id db row e = elim (Option-cases (find_where (has_id id) db.holds)) [
  | inl missing ↦ absurd (ground arith)
  | inr (h, there) ↦
      let same_hold : h ≡ row.hold = ground arith in
      let same_id : row.id ≡ id =
        ap (λ (x : Hold). x.id) (sym same_hold)
        ∙ (==_iff h.id id).0 (find-test (has_id id) db.holds there) in
      ap (λ (x : ℕ). find_where (has_id x) db.holds) same_id ∙ there ∙ ap some same_hold
]

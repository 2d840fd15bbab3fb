-- ===== src/Accounts/Recorded.antt =====
-- Admission reports are recorded once, and numbered in the order received.
use kippu_api.Base.{
  ℕ, suc, ◌<◌, ◌≡◌, refl, sym, ap, ◌∙◌, some-injective, inl, inr, Bool, true, false, Option, none,
  some, List, [], ◌∷◌, arith, Bool-cases, append, exists_where, find_where, select_where,
}
use kippu_api.Store.{Try, ok, fail, done, after, ◌>>=◌, get, lift, Stays, staying}
use kippu_api.Accounts.Rows.{GrantRow, ReportRow, Accounts}
use kippu_api.Accounts.Operators.{OperatorCaller, is_gate_grant}
use kippu_api.Accounts.Reports.{
  ReportInput, has_report_id, insert_report, is_report_of, check_covered, is_too_late,
  record_report,
}

-- Numbered in the order received, from above `low` to below `high`.
unfoldable pub Rising : ℕ → ℕ → List ReportRow → Type 0
Rising low high [] = low < high
Rising low high (r ∷ rs) = (low < r.seq) × Rising r.seq high rs

append-Rising :
    (low high : ℕ) (r : ReportRow) (rs : List ReportRow)
    → r.seq ≡ high
    → Rising low high rs
    → Rising low (suc high) (append r rs)
unfolding Rising
append-Rising low high r [] e rising = (omega arith, omega arith)
append-Rising low high r (s ∷ rs) e (above, rising) =
    (above, append-Rising s.seq high r rs e rising)

widen-Rising : (low high : ℕ) (rs : List ReportRow) → Rising low high rs → Rising low (suc high) rs
unfolding Rising
widen-Rising low high [] rising = omega arith
widen-Rising low high (r ∷ rs) (above, rising) = (above, widen-Rising r.seq high rs rising)

-- The reports are numbered from 1, in the order of the rows, below the next number.
unfoldable pub Numbered : Accounts → Type 0
Numbered a = Rising 0 a.next_report a.admission_reports

insert_report-Numbered :
    (caller : OperatorCaller) (request_id : ℕ) (input : ReportInput) (at : ℕ) (a : Accounts)
    → Numbered a
    → Numbered (insert_report caller request_id input at a)
unfolding Numbered insert_report
insert_report-Numbered caller request_id input at a numbered =
    elim (Bool-cases (exists_where (has_report_id input.report_id) a.admission_reports)) [
      | inl known ↦ rw known (widen-Rising 0 a.next_report a.admission_reports numbered)
      | inr fresh ↦ rw fresh (append-Rising 0 a.next_report _ a.admission_reports refl numbered)
    ]

Numbered-Stays :
    (caller : OperatorCaller) (request_id : ℕ) (input : ReportInput) (session_revoked_at : Option ℕ)
    (at : ℕ)
    → Stays Numbered (record_report caller request_id input session_revoked_at at)
unfolding record_report
Numbered-Stays caller request_id input session_revoked_at at =
    search (staying, insert_report-Numbered) depth 18

-- Recording a report, whether it is taken or refused, keeps the reports numbered from 1 in the order
-- received, each number below the next one.
record_report-Numbered :
    (caller : OperatorCaller) (request_id : ℕ) (input : ReportInput) (session_revoked_at : Option ℕ)
    (at : ℕ) (a : Accounts)
    → Numbered a
    → Numbered (after (record_report caller request_id input session_revoked_at at a))
unfolding Stays
record_report-Numbered caller request_id input session_revoked_at at a numbered =
    Numbered-Stays caller request_id input session_revoked_at at a numbered

find_inserted :
    (caller : OperatorCaller) (input : ReportInput) (r : ReportRow) (rs : List ReportRow)
    → find_where (is_report_of caller input.report_id) rs ≡ some r
    → exists_where (has_report_id input.report_id) rs ≡ true
unfolding find_where exists_where
find_inserted caller input r [] e = absurd (cc e)
find_inserted caller input r (s ∷ rs) e =
    elim (Bool-cases (is_report_of caller input.report_id s)) [
      | inl hit ↦ ground arith
      | inr miss ↦ let rest = find_inserted caller input r rs (rw miss at e) in ground arith
    ]

-- What a recording that returns has done, and what it answers.
pub recorded :
    (caller : OperatorCaller) (request_id : ℕ) (input : ReportInput) (revoked : Option ℕ) (at : ℕ)
    (r : ReportRow) (a b : Accounts)
    → record_report caller request_id input revoked at a ≡ done r b
    → (insert_report caller request_id input at a ≡ b)
      × (find_where (is_report_of caller input.report_id) b.admission_reports ≡ some r)
unfolding record_report
recorded caller request_id input revoked at r a b e = by_late _ refl
  where
    grants : List GrantRow
    grants = select_where (is_gate_grant caller input.event input.gate) a.operator_grants

    new : Accounts
    new = insert_report caller request_id input at a

    by_row :
        (x : Option ReportRow)
        → find_where (is_report_of caller input.report_id) new.admission_reports ≡ x
        → is_too_late input.presented_at revoked ≡ false
        → check_covered input.presented_at grants ≡ ok tt
        → (new ≡ b)
          × (find_where (is_report_of caller input.report_id) b.admission_reports ≡ some r)
    by_row none row late covered = absurd (cc (rw (late, ◌>>=◌, get, lift, covered, row) at e))
    by_row (some x) row late covered =
        let ended = rw (late, ◌>>=◌, get, lift, covered, row) at e in
        let same_store : new ≡ b = ap after ended in
        let same_row : x ≡ r = cc ended in (same_store, rw (← same_store) (row ∙ ap some same_row))

    by_covered :
        (x : Try (Unit {0}))
        → check_covered input.presented_at grants ≡ x
        → is_too_late input.presented_at revoked ≡ false
        → (new ≡ b)
          × (find_where (is_report_of caller input.report_id) b.admission_reports ≡ some r)
    by_covered (ok tt) covered late = by_row _ refl late covered
    by_covered (fail x) covered late = absurd (cc (rw (late, ◌>>=◌, get, lift, covered) at e))

    by_late :
        (x : Bool)
        → is_too_late input.presented_at revoked ≡ x
        → (new ≡ b)
          × (find_where (is_report_of caller input.report_id) b.admission_reports ≡ some r)
    by_late true late = absurd (cc (rw late at e))
    by_late false late = by_covered _ refl late

insert_known :
    (caller : OperatorCaller) (request_id : ℕ) (input : ReportInput) (at : ℕ) (a : Accounts)
    → exists_where (has_report_id input.report_id) a.admission_reports ≡ true
    → (insert_report caller request_id input at a).admission_reports ≡ a.admission_reports
unfolding insert_report
insert_known caller request_id input at a known = rw known refl

-- A report sent again, under the same id and by the same operator, is answered with the report
-- first recorded, and adds none: where recording a report returns, and recording one with its id
-- again returns, the second answer is the first, and the reports are as they were in between.
pub record_report_again :
    (caller : OperatorCaller) (request_id request_id' : ℕ) (input input' : ReportInput)
    (revoked revoked' : Option ℕ) (at at' : ℕ) (r r' : ReportRow) (a b c : Accounts)
    → input'.report_id ≡ input.report_id
    → record_report caller request_id input revoked at a ≡ done r b
    → record_report caller request_id' input' revoked' at' b ≡ done r' c
    → (r' ≡ r) × (c.admission_reports ≡ b.admission_reports)
record_report_again caller request_id request_id' input input' revoked revoked' at at' r r' a b c
      same e e' =
    let (stored, row) = recorded caller request_id input revoked at r a b e in
    let (stored', row') = recorded caller request_id' input' revoked' at' r' b c e' in
    let known = find_inserted caller input r b.admission_reports row in
    let same_reports : c.admission_reports ≡ b.admission_reports =
      ap (λ (d : Accounts). d.admission_reports) (sym stored')
      ∙ insert_known caller request_id' input' at' b (rw same known) in
    let again : find_where (is_report_of caller input.report_id) b.admission_reports ≡ some r' =
      rw (← same, ← same_reports) row' in
    (some-injective _ _ (sym again ∙ row), same_reports)

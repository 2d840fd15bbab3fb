-- ===== src/Accounts/Covered.antt =====
-- Who may record an admission report.
use kippu_api.Base.{
  ℕ, ◌≡◌, refl, inl, inr, Bool, true, false, not, ◌&&◌, Option, none, some, List, [], ◌∷◌, arith,
  ◌==◌, ==_iff, ltb, Bool-cases, exists_where, select_where, find-All, All_pure,
}
use kippu_api.Store.{done, ◌>>=◌, get, lift}
use kippu_api.Accounts.Rows.{GrantRow, ReportRow, Accounts}
use kippu_api.Accounts.Operators.{OperatorCaller, has_gate, is_gate_grant}
use kippu_api.Accounts.Reports.{ReportInput, covers, is_report_of, is_too_late, record_report}
use kippu_api.Accounts.Recorded.{recorded}

-- Before a revocation, if there was one.
abbrev pub is_before : ℕ → Option ℕ → Bool
is_before t none = true
is_before t (some revoked_at) = ltb t revoked_at

abbrev pub is_gate_of : ℕ → List ℕ → Bool
is_gate_of gate gates = exists_where (λ g. g == gate) gates

-- A grant of the report's gate and event to the operator, not revoked when the pass was presented.
abbrev pub grants_report : OperatorCaller → ReportInput → GrantRow → Bool
grants_report caller input g =
    (g.operator_id == caller.operator_id)
    && (g.organiser_id == caller.organiser_id)
    && (g.event == input.event)
    && is_gate_of input.gate g.gates
    && is_before input.presented_at g.revoked_at

gate_of_has : (gate : ℕ) (gs : List ℕ) → has_gate gate gs ≡ is_gate_of gate gs
unfolding exists_where
gate_of_has gate [] = refl
gate_of_has gate (g ∷ gs) = rw (gate_of_has gate gs) refl

before_covers : (t : ℕ) (o : Option ℕ) → not (is_too_late t o) ≡ is_before t o
before_covers t none = refl
before_covers t (some r) = ground arith

select_exists :
    (caller : OperatorCaller) (input : ReportInput) (gs : List GrantRow)
    → exists_where
        (covers input.presented_at)
        (select_where (is_gate_grant caller input.event input.gate) gs)
      ≡ true
    → exists_where (grants_report caller input) gs ≡ true
unfolding exists_where select_where
select_exists caller input [] e = e
select_exists caller input (g ∷ gs) e =
    let gates = gate_of_has input.gate g.gates in
    let before = before_covers input.presented_at g.revoked_at in
    elim (Bool-cases (is_gate_grant caller input.event input.gate g)) [
      | inl hit ↦ elim (Bool-cases (covers input.presented_at g)) [
        | inl in_time ↦
            let this : grants_report caller input g ≡ true =
              rw (← gates, ← before) (ground (arith, hit, in_time)) in
            rw this refl
        | inr out ↦
            let rest = select_exists caller input gs (rw (hit, out) at e) in ground (arith, rest)
      ]
      | inr miss ↦ let rest = select_exists caller input gs (rw miss at e) in ground (arith, rest)
    ]

-- Where recording a report returns: the pass was presented before the session was revoked, if it was;
-- one of the operator's grants is of the report's event and gate, and was not revoked when the pass was
-- presented; and the answer is a report of that id and operator.
pub record_report_covered :
    (caller : OperatorCaller) (request_id : ℕ) (input : ReportInput) (revoked : Option ℕ) (at : ℕ)
    (r : ReportRow) (a b : Accounts)
    → record_report caller request_id input revoked at a ≡ done r b
    → (is_before input.presented_at revoked ≡ true)
      × (exists_where (grants_report caller input) a.operator_grants ≡ true)
      × (r.report_id ≡ input.report_id)
      × (r.operator_id ≡ caller.operator_id)
unfolding record_report
record_report_covered caller request_id input revoked at r a b e =
    let (_, row) = recorded caller request_id input revoked at r a b e in
    let (_, mine) =
      find-All (is_report_of caller input.report_id) (λ _. Unit {0}) b.admission_reports
        (All_pure (λ _. Unit {0}) (λ _. tt) b.admission_reports) row in
    let (in_time, granted) = by_late _ refl in
    (
      in_time,
      granted,
      (==_iff r.report_id input.report_id).0 (ground (arith, mine)),
      (==_iff r.operator_id caller.operator_id).0 (ground (arith, mine)),
    )
  where
    grants : List GrantRow
    grants = select_where (is_gate_grant caller input.event input.gate) a.operator_grants

    by_covered :
        (x : Bool) (y : Bool)
        → exists_where (λ _. true) grants ≡ x
        → exists_where (covers input.presented_at) grants ≡ y
        → is_too_late input.presented_at revoked ≡ false
        → (is_before input.presented_at revoked ≡ true)
          × (exists_where (grants_report caller input) a.operator_grants ≡ true)
    by_covered true true some_there covered late = (
      rw (← before_covers input.presented_at revoked, late) refl,
      select_exists caller input a.operator_grants covered,
    )
    by_covered true false there none_there late =
        absurd (cc (rw (late, ◌>>=◌, get, lift, there, none_there) at e))
    by_covered false y missing any late = absurd (cc (rw (late, ◌>>=◌, get, lift, missing) at e))

    by_late :
        (x : Bool)
        → is_too_late input.presented_at revoked ≡ x
        → (is_before input.presented_at revoked ≡ true)
          × (exists_where (grants_report caller input) a.operator_grants ≡ true)
    by_late true late = absurd (cc (rw late at e))
    by_late false late = by_covered _ _ refl refl late

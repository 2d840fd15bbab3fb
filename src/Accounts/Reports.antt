-- ===== src/Accounts/Reports.antt =====
-- src/operators/reports.ts: the admission reports of the gates, recorded once each and read in
-- pages in the order received.
use kippu_api.Base.{
  ℕ, suc, Bool, true, false, not, ◌&&◌, Option, none, some, List, [], ◌∷◌, ◌==◌, ltb, if◌then◌else◌,
  exists_where, find_where, select_where, append, take,
}
use kippu_api.Store.{
  Try, ok, fail, refused_request, unauthorized, forbidden, conflict, not_granted, grant_revoked,
  report_exists, On, ◌>>=◌, ◌>>◌, get, modify, lift, throw,
}
use kippu_api.Accounts.Rows.{GrantRow, Verdict, ReportRow, Accounts}
use kippu_api.Accounts.Operators.{OperatorCaller, is_gate_grant, matches}

pub record ReportInput : Type 0 where
  pub report_id : ℕ
  pub event : ℕ
  pub gate : ℕ
  pub ticket : ℕ
  pub pass_id : ℕ
  pub holder : Option ℕ
  pub verdict : Verdict
  pub presented_at : ℕ
  pub device_clock : ℕ

-- A revoked session reports only what was presented before its revocation.
abbrev pub is_too_late : ℕ → Option ℕ → Bool
is_too_late presented_at none = false
is_too_late presented_at (some revoked_at) = not (ltb presented_at revoked_at)

abbrev pub covers : ℕ → GrantRow → Bool
covers presented_at g = not (is_too_late presented_at g.revoked_at)

abbrev pub check_covered : ℕ → List GrantRow → Try (Unit {0})
check_covered presented_at gs =
    if exists_where (λ _. true) gs
    then (if exists_where (covers presented_at) gs
        then ok tt
        else fail (refused_request forbidden (some grant_revoked)))
    else fail (refused_request forbidden (some not_granted))

abbrev pub new_report : OperatorCaller → ℕ → ReportInput → ℕ → ℕ → ReportRow
new_report caller request_id input seq at = record {
  seq = seq;
  report_id = input.report_id;
  operator_id = caller.operator_id;
  organiser_id = caller.organiser_id;
  session_id = caller.session_id;
  request_id = request_id;
  event = input.event;
  gate = input.gate;
  ticket = input.ticket;
  pass_id = input.pass_id;
  holder = input.holder;
  verdict = input.verdict;
  presented_at = input.presented_at;
  device_clock = input.device_clock;
  received_at = at;
}

abbrev pub has_report_id : ℕ → ReportRow → Bool
has_report_id report_id r = r.report_id == report_id

-- INSERT … ON CONFLICT (report_id) DO NOTHING: the number is taken either way.
unfoldable pub insert_report : OperatorCaller → ℕ → ReportInput → ℕ → Accounts → Accounts
insert_report caller request_id input at a =
    if exists_where (has_report_id input.report_id) a.admission_reports
    then record a { next_report = suc a.next_report }
    else record a {
      admission_reports =
          append (new_report caller request_id input a.next_report at) a.admission_reports;
      next_report = suc a.next_report;
    }

abbrev pub is_report_of : OperatorCaller → ℕ → ReportRow → Bool
is_report_of caller report_id r =
    (r.report_id == report_id) && (r.operator_id == caller.operator_id)

abbrev pub own_report : Option ReportRow → Try ReportRow
own_report none = fail (refused_request conflict (some report_exists))
own_report (some r) = ok r

-- What is inserted is what is then read under its id and operator.
unfoldable pub record_report :
    OperatorCaller → ℕ → ReportInput → Option ℕ → ℕ → On Accounts ReportRow
record_report caller request_id input session_revoked_at at =
    if is_too_late input.presented_at session_revoked_at
    then throw (refused_request unauthorized none)
    else (get >>= λ a.
        lift (
          check_covered input.presented_at
            (select_where (is_gate_grant caller input.event input.gate) a.operator_grants))
        >>= λ _.
            modify (insert_report caller request_id input at)
            >> (get >>= λ b. lift (
                own_report (find_where (is_report_of caller input.report_id) b.admission_reports))))

pub record ReportQuery : Type 0 where
  pub event : Option ℕ
  pub pass_id : Option ℕ
  pub after : ℕ
  pub limit : ℕ

pub record ReportPage : Type 0 where
  pub reports : List ReportRow
  pub next : ℕ

-- DEFAULT_REPORT_PAGE
abbrev pub default_report_page : ℕ
default_report_page = 500

-- `reports.at(-1)?.sequence ?? after`
abbrev pub last_seq : ℕ → List ReportRow → ℕ
last_seq after [] = after
last_seq after (r ∷ rs) = last_seq r.seq rs

abbrev pub is_queried : ReportQuery → ReportRow → Bool
is_queried q r = ltb q.after r.seq && matches q.event r.event && matches q.pass_id r.pass_id

-- The rows stand in the order of `seq`.
unfoldable pub list_reports : ReportQuery → Accounts → ReportPage
list_reports q a =
    let reports = take q.limit (select_where (is_queried q) a.admission_reports) in
    record { reports = reports; next = last_seq q.after reports }

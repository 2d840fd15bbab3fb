-- ===== src/Examples/Gating.antt =====
-- An operator with a grant checks a gate and reports an admission; the reports are read in pages.
use kippu_api.Base.{
  ◌<◌, ◌≡◌, refl, true, none, some, [], ◌∷◌, arith, ◌==◌, length, exists_where, find_where,
  select_where,
}
use kippu_api.Store.{done, after}
use kippu_api.Accounts.Rows.{GrantRow, ReportRow, Accounts, admitted_verdict, failed_submission}
use kippu_api.Accounts.Operators.{OperatorCaller, check_gate}
use kippu_api.Accounts.Reports.{ReportInput, record_report, insert_report}
use kippu_api.Accounts.Recorded.{Rising, record_report_again}
use kippu_api.Accounts.Covered.{is_before, grants_report, record_report_covered}
use kippu_api.Accounts.Gates.{Promises, lets_in, check_gate_iff}
use kippu_api.Derived.Pages.{reports_for, reports_for_reads_all}
use kippu_api.Examples.Enrolling.{people}

abbrev grant_row : GrantRow
grant_row = record {
  id = 80;
  operator_id = 5;
  organiser_id = 3;
  event = 1;
  gates = 2 ∷ [];
  valid_from = 50;
  valid_until = 500;
  created_request_id = 6;
  created_at = 20;
  revoked_at = none;
  revoked_request_id = none;
}

abbrev granted : Accounts
granted = record people { operator_grants = grant_row ∷ [] }

abbrev caller : OperatorCaller
caller = record { operator_id = 5; organiser_id = 3; session_id = 70 }

check_gate_iff_example :
    Promises (lets_in caller 1 2 100) granted.operator_grants (check_gate caller 1 2 100 granted)
check_gate_iff_example = check_gate_iff caller 1 2 100 granted

abbrev admission : ReportInput
admission = record {
  report_id = 90;
  event = 1;
  gate = 2;
  ticket = 500;
  pass_id = 600;
  holder = none;
  verdict = admitted_verdict failed_submission;
  presented_at = 100;
  device_clock = 101;
}

abbrev report : ReportRow
report = record {
  seq = 1;
  report_id = 90;
  operator_id = 5;
  organiser_id = 3;
  session_id = 70;
  request_id = 7;
  event = 1;
  gate = 2;
  ticket = 500;
  pass_id = 600;
  holder = none;
  verdict = admitted_verdict failed_submission;
  presented_at = 100;
  device_clock = 101;
  received_at = 102;
}

abbrev reported : Accounts
reported = after (record_report caller 7 admission none 102 granted)

recording_ends : record_report caller 7 admission none 102 granted ≡ done report reported
unfolding record_report insert_report exists_where find_where select_where
recording_ends = refl

abbrev reported_twice : Accounts
reported_twice = after (record_report caller 8 admission none 103 reported)

recording_again_ends :
    record_report caller 8 admission none 103 reported ≡ done report reported_twice
unfolding record_report insert_report exists_where find_where select_where
recording_again_ends = refl

record_report_again_example :
    (report ≡ report) × (reported_twice.admission_reports ≡ reported.admission_reports)
record_report_again_example =
    record_report_again caller 7 8 admission admission none none 102 103 report report granted
      reported reported_twice refl recording_ends recording_again_ends

record_report_covered_example :
    (is_before 100 none ≡ true)
    × (exists_where (grants_report caller admission) granted.operator_grants ≡ true)
    × (report.report_id ≡ 90)
    × (report.operator_id ≡ 5)
record_report_covered_example =
    record_report_covered caller 7 admission none 102 report granted reported recording_ends

rising : Rising 0 2 reported.admission_reports
unfolding Rising record_report insert_report exists_where find_where select_where
rising = (omega arith, omega arith)

fewer : length reported.admission_reports < 3
unfolding record_report insert_report exists_where find_where select_where
fewer = omega arith

reports_for_reads_all_example :
    reports_for 3 1 0 reported
    ≡ some (select_where (λ (r : ReportRow). r.event == 1) reported.admission_reports)
reports_for_reads_all_example = reports_for_reads_all 1 3 2 reported rising fewer

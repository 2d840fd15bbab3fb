-- ===== src/Derived/Pages.antt =====
-- src/derived/admission-flags.ts, `reportsFor`: every report of an event, read page by page until a
-- page is empty. The loop runs on fuel; the reports stand as they are while it reads.
use kippu_api.Base.{
  ℕ, zero, suc, ◌≤◌, ◌<◌, ◌≡◌, refl, sym, ap, ◌∙◌, subst, inl, inr, Bool, false, Option, none, some,
  List, [], ◌∷◌, ◌++◌, arith, ◌==◌, Bool-cases, length, select_where, take, length-++,
}
use kippu_api.Accounts.Rows.{ReportRow, Accounts}
use kippu_api.Accounts.Reports.{
  default_report_page, last_seq, ReportQuery, is_queried, list_reports,
}
use kippu_api.Accounts.Recorded.{Rising}

abbrev pub page_query : ℕ → ℕ → ReportQuery
page_query event after = record {
  event = some event;
  pass_id = none;
  after = after;
  limit = default_report_page;
}

abbrev pub pushed : List ReportRow → Option (List ReportRow) → Option (List ReportRow)
pushed page none = none
pushed page (some rest) = some (page ++ rest)

unfoldable pub reports_for : ℕ → ℕ → ℕ → Accounts → Option (List ReportRow)
reports_for zero event after a = none
reports_for (suc fuel) event after a =
    let page = list_reports (page_query event after) a in
    let rest = reports_for fuel event page.next a in
    elim page.reports [ [] ↦ some [] | r ∷ rs ↦ pushed (r ∷ rs) rest ]

module _ (event : ℕ) where
  abbrev selects : ℕ → ReportRow → Bool
  selects after r = is_queried (page_query event after) r

  abbrev selected : ℕ → List ReportRow → List ReportRow
  selected after rs = select_where (selects after) rs

  -- Rows above a number are selected alike from below it.
  selected_above :
      (low high after : ℕ) (rs : List ReportRow)
      → Rising low high rs
      → after ≤ low
      → selected after rs ≡ selected low rs
  unfolding Rising select_where
  selected_above low high after [] rising le = refl
  selected_above low high after (r ∷ rs) (above, rising) le =
      let from_after = selected_above r.seq high after rs rising (omega arith) in
      let from_low = selected_above r.seq high low rs rising (omega arith) in
      let same_test : selects after r ≡ selects low r = ground arith in
      rw (same_test, from_after, from_low) refl

  le_last :
      (after from n : ℕ) (rs : List ReportRow)
      → after ≤ from
      → after ≤ last_seq from (take n (selected after rs))
  unfolding select_where
  le_last after from zero rs le = le
  le_last after from (suc n) [] le = le
  le_last after from (suc n) (r ∷ rs) le = elim (Bool-cases (selects after r)) [
    | inl hit ↦ let above : after ≤ r.seq = ground arith in rw hit (le_last after r.seq n rs above)
    | inr miss ↦ rw miss (le_last after from (suc n) rs le)
  ]

  not_again :
      (after last : ℕ) (r : ReportRow)
      → selects after r ≡ false
      → after ≤ last
      → selects last r ≡ false
  not_again after last r miss le = ground arith

  passed : (last : ℕ) (r : ReportRow) → r.seq ≤ last → selects last r ≡ false
  passed last r le = ground arith

  -- A page, and what is selected after its last row, are together what was to be selected.
  page_and_rest :
      (low high after n : ℕ) (rs all : List ReportRow)
      → Rising low high rs
      → all ≡ selected after rs
      → take n all ++ selected (last_seq after (take n all)) rs ≡ all
  unfolding Rising select_where
  page_and_rest low high after zero rs all rising e = sym e
  page_and_rest low high after (suc n) [] all rising e = rw e refl
  page_and_rest low high after (suc n) (r ∷ rs) all (above, rising) e =
      elim (Bool-cases (selects after r)) [
        | inl hit ↦
            let le : after ≤ r.seq = ground arith in
            let same_rest = selected_above r.seq high after rs rising le in
            let gone = passed _ r (le_last r.seq r.seq n rs (omega arith)) in
            let here : all ≡ r ∷ selected r.seq rs = rw (hit, same_rest) at e in
            subst
              (λ ys. take (suc n) ys ++ selected (last_seq after (take (suc n) ys)) (r ∷ rs) ≡ ys)
              (sym here)
              (rw gone (ap (λ ys. r ∷ ys) (page_and_rest r.seq high r.seq n rs _ rising refl)))
        | inr miss ↦
            let same : all ≡ selected after rs = rw miss at e in
            let gone = not_again after _ r miss (le_last after after (suc n) rs (omega arith)) in
            let rest = page_and_rest r.seq high after (suc n) rs all rising same in
            rw (rw (← same) at gone) rest
      ]

  rest_is_shorter :
      (page rest all : List ReportRow) (r : ReportRow) (rs : List ReportRow)
      → page ≡ r ∷ rs
      → page ++ rest ≡ all
      → length rest < length all
  rest_is_shorter page rest all r rs e joined =
      let sum : length (page ++ rest) ≡ length all = ap length joined in
      let size : length page ≡ suc (length rs) = ap length e in omega (arith, length-++ page rest)

  none_taken : (n : ℕ) (rs : List ReportRow) → take (suc n) rs ≡ [] → rs ≡ []
  none_taken n [] e = refl
  none_taken n (r ∷ rs) e = absurd (cc e)

  -- A page that is not empty leaves less to read.
  page_read :
      (fuel after : ℕ) (a : Accounts) (all page : List ReportRow)
      → length all < suc fuel
      → page ≡ take 500 all
      → page ++ selected (last_seq after page) a.admission_reports ≡ all
      → ((next : ℕ)
          → length (selected next a.admission_reports) < fuel
          → reports_for fuel event next a ≡ some (selected next a.admission_reports))
      → elim page as (λ _. Option (List ReportRow)) [
        | [] ↦ some []
        | r ∷ rs ↦ pushed (r ∷ rs) (reports_for fuel event (last_seq after page) a)
      ]
        ≡ some all
  page_read fuel after a all [] le e split read = ap some (sym (none_taken 499 all (sym e)))
  page_read fuel after a all (r ∷ rs) le e split read =
      let shorter = rest_is_shorter (r ∷ rs) _ all r rs refl split in
      rw (read (last_seq r.seq rs) (omega arith)) (ap some split)

  -- Enough fuel for what is selected.
  reads_selected :
      (fuel after high : ℕ) (a : Accounts)
      → Rising 0 high a.admission_reports
      → length (selected after a.admission_reports) < fuel
      → reports_for fuel event after a ≡ some (selected after a.admission_reports)
  unfolding reports_for list_reports
  reads_selected zero after high a rising le = absurd (omega arith)
  reads_selected (suc fuel) after high a rising le =
      page_read fuel after a (selected after a.admission_reports)
        (take 500 (selected after a.admission_reports)) le refl
        (page_and_rest 0 high after 500 a.admission_reports _ rising refl)
        (λ next shorter. reads_selected fuel next high a rising shorter)

length-selected :
    (event after : ℕ) (rs : List ReportRow) → length (selected event after rs) ≤ length rs
unfolding select_where
length-selected event after [] = omega arith
length-selected event after (r ∷ rs) =
    let rest = length-selected event after rs in
    elim (Bool-cases (selects event after r)) [
      | inl hit ↦ rw hit (omega arith)
      | inr miss ↦ rw miss (omega arith)
    ]

selected_of_event :
    (event low high : ℕ) (rs : List ReportRow)
    → Rising low high rs
    → selected event 0 rs ≡ select_where (λ (r : ReportRow). r.event == event) rs
unfolding Rising select_where
selected_of_event event low high [] rising = refl
selected_of_event event low high (r ∷ rs) (above, rising) =
    let same_test : selects event 0 r ≡ (r.event == event) = ground arith in
    rw (same_test, selected_of_event event r.seq high rs rising) refl

-- With the reports numbered from 1 in the order received, and fuel for more pages than there are
-- reports, reading the pages ends, and gives every report of the event, in that order.
pub reports_for_reads_all :
    (event fuel high : ℕ) (a : Accounts)
    → Rising 0 high a.admission_reports
    → length a.admission_reports < fuel
    → reports_for fuel event 0 a
      ≡ some (select_where (λ (r : ReportRow). r.event == event) a.admission_reports)
reports_for_reads_all event fuel high a rising le =
    let short = length-selected event 0 a.admission_reports in
    reads_selected event fuel 0 high a rising (omega arith)
    ∙ ap some (selected_of_event event 0 high a.admission_reports rising)

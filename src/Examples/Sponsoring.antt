-- ===== src/Examples/Sponsoring.antt =====
-- A relay that sponsors one registration of an account per window.
use kippu_api.Base.{◌≤◌, ◌==◌, ◌&&◌, false, none, some, List, [], arith, count_where}
use kippu_api.Store.{active}
use kippu_api.Sponsor.Entitlements.{
  Input, signed_command, register_credential, SponsorProfile, Reads, Entry, decide,
}
use kippu_api.Sponsor.Entitlements.Registrations.{Sponsored, noted, is_counted}
use kippu_api.Sponsor.Entitlements.Limit.{Decided, none_yet, and_then, sponsored_limited}
use kippu_api.Sponsor.Entitlements.Justified.{Attributed, decide-Attributed}

abbrev profile : SponsorProfile
profile = record {
  account_of = λ authorisation. some (record { account = authorisation; credential = 2 });
  encode = λ _. 5;
  registration_account = λ registration. some (record { account = registration; credential = 2 });
  verify = λ registration payload authorisation. (registration == authorisation) && (payload == 5);
  event_id = λ _ salt. salt;
}

abbrev reads : Reads
reads = record {
  event = λ _. some (record { owner = 7; status = active });
  ticket = λ _. none;
  credentials = λ _. [];
  credential = λ _ _. none;
  is_organiser_account = λ _. false;
}

-- Account 7 registers its first credential.
abbrev registration : Input
registration = signed_command (register_credential 7 7) 7

abbrev first : List Entry
first = (decide profile reads 1 1000 registration 100 []).1

abbrev first_sponsored : List Sponsored
first_sponsored = noted 100 (decide profile reads 1 1000 registration 100 []).0 []

abbrev second : List Entry
second = (decide profile reads 1 1000 registration 200 first).1

abbrev both_sponsored : List Sponsored
both_sponsored = noted 200 (decide profile reads 1 1000 registration 200 first).0 first_sponsored

decisions : Decided profile reads 1 1000 200 second both_sponsored
decisions =
    and_then registration 200 (and_then registration 100 (none_yet 0) (omega arith)) (omega arith)

sponsored_limited_example : count_where (is_counted profile reads 1 1000 7 200) both_sponsored ≤ 1
sponsored_limited_example =
    sponsored_limited profile reads 1 1000 200 7 second both_sponsored decisions

decide-Attributed_example :
    Attributed profile reads 1 1000 registration (decide profile reads 1 1000 registration 100 []).0
decide-Attributed_example = decide-Attributed profile reads 1 1000 registration 100 []

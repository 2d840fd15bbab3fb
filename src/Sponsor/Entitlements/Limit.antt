-- ===== src/Sponsor/Entitlements/Limit.antt =====
-- The registrations that the relay sponsors for one account stay within the rate limit.
use kippu_api.Base.{
  ℕ, ◌≤◌, ◌≡◌, refl, inl, inr, Bool, true, false, Option, none, some, List, [], arith, ◌==◌,
  Bool-cases, if◌then◌else◌, count_where,
}
use kippu_api.Sponsor.Entitlements.{
  Command, set_event_status, set_event_capacity, add_zone, remove_zone, remove_restriction,
  create_event, issue_ticket, transfer_ticket, register_credential, other_command, Input,
  SponsorProfile, Reads, ticket_held, Decision, entitled, refuse, Entry, times_of, sweep, register,
  decide_command, decide_signed, decide, ReadEvent, ReadTicket, Signer, signer, no_signer,
  signed_command, signed_pass, owned_by, created_by, held_by, live_pass, decide_pass, is_over,
  verified_signer, no_ticket, not_the_holder, untransferable, not_covered,
}
use kippu_api.Sponsor.Entitlements.Registrations.{
  Sponsored, noted, is_counted, Tracks, sweep-Tracks, registered-Tracks, later-Tracks,
}

module _ (profile : SponsorProfile) (reads : Reads) (limit window : ℕ) where
  -- The decisions that were made, one after another, by a clock that does not go back: the last
  -- reading, the map, and what was sponsored.
  pub data Decided : ℕ → List Entry → List Sponsored → Type 0 where
    none_yet : (now : ℕ) → Decided now [] []
    and_then :
        {now : ℕ} {es : List Entry} {gs : List Sponsored} (input : Input) (at : ℕ)
        → Decided now es gs
        → now ≤ at
        → Decided at
            (decide profile reads limit window input at es).1
            (noted at (decide profile reads limit window input at es).0 gs)

  -- The decisions that sponsor no registration.
  unnoted_owned :
      (event by at : ℕ) (o : Option ReadEvent) (gs : List Sponsored)
      → noted at (owned_by profile reads limit window event by o) gs ≡ gs
  unnoted_owned event by at none gs = refl
  unnoted_owned event by at (some e) gs = elim (Bool-cases (e.owner == by)) [
    | inl hit ↦ rw hit refl
    | inr miss ↦ rw miss refl
  ]

  unnoted_created :
      (event salt by at : ℕ) (gs : List Sponsored)
      → noted at (created_by profile reads limit window event salt by) gs ≡ gs
  unnoted_created event salt by at gs = elim (Bool-cases (profile.event_id by salt == event)) [
    | inl derives ↦ elim (Bool-cases (reads.is_organiser_account by)) [
      | inl known ↦ rw (derives, known) refl
      | inr stranger ↦ rw (derives, stranger) refl
    ]
    | inr other ↦ rw other refl
  ]

  unnoted_held :
      (event by at : ℕ) (o : Option ReadTicket) (gs : List Sponsored)
      → noted at (held_by profile reads limit window event by o) gs ≡ gs
  unnoted_held event by at none gs = refl
  unnoted_held event by at (some t) gs =
      by_tests (t.event == event) (t.holder == by) t.cannot_transfer
    where
      by_tests :
          (a b c : Bool)
          → noted at
              (if a
                then (if b
                    then (if c then refuse untransferable else entitled (ticket_held t.id by))
                    else refuse not_the_holder)
                else refuse no_ticket)
              gs
            ≡ gs
      by_tests true true true = refl
      by_tests true true false = refl
      by_tests true false c = refl
      by_tests false b c = refl

  unnoted_pass :
      (at : ℕ) (o : Option ReadTicket) (gs : List Sponsored)
      → noted at (decide_pass profile reads limit window o) gs ≡ gs
  unnoted_pass at none gs = refl
  unnoted_pass at (some t) gs = by_event (reads.event t.event)
    where
      by_event :
          (o : Option ReadEvent) → noted at (live_pass profile reads limit window t o) gs ≡ gs
      by_event none = refl
      by_event (some e) = elim (Bool-cases (is_over profile reads limit window e.status)) [
        | inl over ↦ rw over refl
        | inr live ↦ rw live refl
      ]

  module _ (now at : ℕ) (es : List Entry) (gs : List Sponsored) (le : now ≤ at)
      (k : Tracks profile reads limit window now es gs) where
    unchanged :
        (d : Decision)
        → noted at d gs ≡ gs
        → Tracks profile reads limit window at es (noted at d gs)
    unchanged d same = rw same (later-Tracks profile reads limit window now at es gs le k)

    command-Tracks :
        (c : Command) (by : ℕ)
        → Tracks profile reads limit window at
            (decide_command profile reads limit window c by at es).1
            (noted at (decide_command profile reads limit window c by at es).0 gs)
    unfolding decide_command register
    command-Tracks (register_credential account registration) by =
        registered-Tracks profile reads limit window account at
          (sweep profile reads limit window at es) gs _ refl
          (sweep-Tracks profile reads limit window now at es gs le k)
    command-Tracks (create_event event salt) by = unchanged _ (unnoted_created event salt by at gs)
    command-Tracks (transfer_ticket ticket event) by =
        unchanged _ (unnoted_held event by at (reads.ticket ticket) gs)
    command-Tracks (set_event_status event) by =
        unchanged _ (unnoted_owned event by at (reads.event event) gs)
    command-Tracks (set_event_capacity event) by =
        unchanged _ (unnoted_owned event by at (reads.event event) gs)
    command-Tracks (add_zone event) by =
        unchanged _ (unnoted_owned event by at (reads.event event) gs)
    command-Tracks (remove_zone event) by =
        unchanged _ (unnoted_owned event by at (reads.event event) gs)
    command-Tracks (remove_restriction event) by =
        unchanged _ (unnoted_owned event by at (reads.event event) gs)
    command-Tracks (issue_ticket event) by =
        unchanged _ (unnoted_owned event by at (reads.event event) gs)
    command-Tracks (other_command kind) by = unchanged (refuse not_covered) refl

    signed-Tracks :
        (input : Input) (s : Signer)
        → Tracks profile reads limit window at
            (decide_signed profile reads limit window input s at es).1
            (noted at (decide_signed profile reads limit window input s at es).0 gs)
    signed-Tracks input (no_signer reason) = unchanged (refuse reason) refl
    signed-Tracks (signed_command command authorisation) (signer by) = command-Tracks command by
    signed-Tracks (signed_pass ticket pass_id authorisation) (signer by) =
        unchanged _ (unnoted_pass at (reads.ticket ticket) gs)

  decided-Tracks :
      {now : ℕ} {es : List Entry} {gs : List Sponsored}
      → Decided now es gs
      → Tracks profile reads limit window now es gs
  unfolding decide count_where times_of
  decided-Tracks (none_yet now) = record {
    distinct = tt;
    tracks = λ x u h. refl;
    limited = λ x. omega arith;
  }
  decided-Tracks (and_then {now} {es} {gs} input at steps le) =
      signed-Tracks now at es gs le (decided-Tracks steps) input
        (verified_signer profile reads limit window input)

  -- Whatever inputs the relay decides on, one after another, by a clock that does not go back: the
  -- registrations that it has sponsored for an account inside the window that ends at the last
  -- decision are never more than the limit.
  pub sponsored_limited :
      (now account : ℕ) (es : List Entry) (gs : List Sponsored)
      → Decided now es gs
      → count_where (is_counted profile reads limit window account now) gs ≤ limit
  sponsored_limited now account es gs steps =
      let k = decided-Tracks steps in
      omega (arith, k.tracks account now (omega arith), k.limited account)

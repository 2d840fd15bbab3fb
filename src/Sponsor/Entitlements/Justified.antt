-- ===== src/Sponsor/Entitlements/Justified.antt =====
-- Every input that the relay sponsors is attributable to its signer.
use kippu_api.Base.{
  ℕ, ◌≡◌, refl, inl, inr, Bool, true, false, not, ◌&&◌, ◌||◌, [], ◌∷◌, if◌then◌else◌, Option, none,
  some, same, List, ◌==◌, ==_iff, leb, Bool-cases, length, arith,
}
use kippu_api.Sponsor.Entitlements.{
  Command, set_event_status, set_event_capacity, add_zone, remove_zone, remove_restriction,
  create_event, issue_ticket, transfer_ticket, register_credential, other_command, Input,
  signed_command, signed_pass, SponsorProfile, ReadEvent, ReadTicket, Reads, Entitlement,
  event_owned, event_created, ticket_held, account_creation, pass_ticket_live, Signer, signer,
  no_signer, Decision, entitled, refuse, Entry, is_over, owned_by, created_by, held_by, registered,
  register, decide_command, decide_pass, live_pass, decide_signed, verified_signer, decide, Claim,
  authorisation_of, registered_signer, is_own_registration, has_none, claimed_signer,
  first_registration_by_another,
}

abbrev is_owner : ℕ → Option ReadEvent → Bool
is_owner account none = false
is_owner account (some e) = e.owner == account

module _ (profile : SponsorProfile) (reads : Reads) (limit window : ℕ) where
  abbrev is_live_event : Option ReadEvent → Bool
  is_live_event none = false
  is_live_event (some e) = not (is_over profile reads limit window e.status)

  abbrev is_held_ticket : ℕ → ℕ → Option ReadTicket → Bool
  is_held_ticket ticket holder none = false
  is_held_ticket ticket holder (some t) =
      (t.id == ticket) && (t.holder == holder) && not t.cannot_transfer

  abbrev is_ticket_of : ℕ → ℕ → Option ReadTicket → Bool
  is_ticket_of ticket event none = false
  is_ticket_of ticket event (some t) = (t.id == ticket) && (t.event == event)

  -- The event of a command that the event's owner signs.
  abbrev owner_event : Command → Option ℕ
  owner_event (set_event_status event) = some event
  owner_event (set_event_capacity event) = some event
  owner_event (add_zone event) = some event
  owner_event (remove_zone event) = some event
  owner_event (remove_restriction event) = some event
  owner_event (issue_ticket event) = some event
  owner_event _ = none

  -- What a command's entitlement rests on: the signer owns the command's event, in the derived copy;
  -- or is a Kippu organiser, and the event derives from the signer; or holds the ticket, which may be
  -- transferred; or registers a credential.
  abbrev entitles : Command → ℕ → Entitlement → Bool
  entitles c by (event_owned x owner) =
      same (owner_event c) (some x) && ((owner == by) && is_owner by (reads.event x))
  entitles (create_event event salt) by (event_created x creator) =
      ((x == event) && (creator == by))
      && ((profile.event_id by salt == event) && reads.is_organiser_account by)
  entitles (transfer_ticket ticket event) by (ticket_held x holder) =
      (holder == by) && is_held_ticket x by (reads.ticket ticket)
  entitles (register_credential account registration) by (account_creation x) = x == account
  entitles c by x = false

  -- A pass is sponsored for a ticket that exists, of an event that is neither cancelled nor finished.
  abbrev pass_entitles : ℕ → Entitlement → Bool
  pass_entitles ticket (pass_ticket_live x event) =
      is_ticket_of x event (reads.ticket ticket) && is_live_event (reads.event event)
  pass_entitles ticket x = false

  abbrev fits : (Entitlement → Bool) → Decision → Bool
  fits p (entitled x) = p x
  fits p (refuse _) = true

  abbrev justifies : Input → ℕ → Entitlement → Bool
  justifies (signed_command c _) by x = entitles c by x
  justifies (signed_pass ticket _ _) by x = pass_entitles ticket x

  -- The registration is the claim's, and verifies the input's authorisation.
  abbrev verifies : Input → Option ℕ → Bool
  verifies input none = false
  verifies input (some registration) =
      profile.verify registration (profile.encode input) (authorisation_of input)

  abbrev names : Claim → Option Claim → Bool
  names c none = false
  names c (some named) = (named.account == c.account) && (named.credential == c.credential)

  -- The input registers the first credential of the claim's account, and is authorised by it.
  abbrev is_first : Claim → Input → Bool
  is_first c (signed_command (register_credential account registration) authorisation) =
      ((account == c.account) && (length (reads.credentials c.account) == 0))
      && (names c (profile.registration_account registration)
          && verifies (signed_command (register_credential account registration) authorisation)
              (some registration))
  is_first c input = false

  -- The authorisation verifies against the claim's registration in the derived copy, or is that of a
  -- first registration.
  abbrev is_authentic : Claim → Input → Bool
  is_authentic c input =
      verifies input (reads.credential c.account c.credential) || is_first c input

  abbrev is_refusal : Decision → Bool
  is_refusal (entitled x) = false
  is_refusal (refuse reason) = true

  -- By the account and credential that the authorisation names.
  abbrev rests_on : Input → Decision → Option Claim → Bool
  rests_on input d none = is_refusal d
  rests_on input d (some c) = fits (λ x. is_authentic c input && justifies input c.account x) d

  -- A decision that rests on an authentic signer, or refuses.
  unfoldable pub Attributed : Input → Decision → Type 0
  Attributed input d = rests_on input d (profile.account_of (authorisation_of input)) ≡ true

  owned_fits :
      (c : Command) (event by : ℕ) (o : Option ReadEvent)
      → owner_event c ≡ some event
      → reads.event event ≡ o
      → fits (entitles c by) (owned_by profile reads limit window event by o) ≡ true
  owned_fits c event by none e read = refl
  owned_fits c event by (some x) e read = elim (Bool-cases (x.owner == by)) [
    | inl hit ↦ rw (hit, e, read, hit, (==_iff event event).1 refl) refl
    | inr miss ↦ rw miss refl
  ]

  created_fits :
      (event salt by : ℕ)
      → fits
          (entitles (create_event event salt) by)
          (created_by profile reads limit window event salt by)
        ≡ true
  created_fits event salt by = elim (Bool-cases (profile.event_id by salt == event)) [
    | inl derives ↦ elim (Bool-cases (reads.is_organiser_account by)) [
      | inl known ↦
          rw (derives, known)
            (rw ((==_iff event event).1 refl, (==_iff by by).1 refl, derives, known) refl)
      | inr stranger ↦ rw (derives, stranger) refl
    ]
    | inr other ↦ rw other refl
  ]

  held_fits :
      (ticket event by : ℕ) (o : Option ReadTicket)
      → reads.ticket ticket ≡ o
      → fits
          (entitles (transfer_ticket ticket event) by)
          (held_by profile reads limit window event by o)
        ≡ true
  held_fits ticket event by none read = refl
  held_fits ticket event by (some t) read = elim (Bool-cases (t.event == event)) [
    | inl of_event ↦ elim (Bool-cases (t.holder == by)) [
      | inl held ↦ elim (Bool-cases t.cannot_transfer) [
        | inl fixed ↦ rw (of_event, held, fixed) refl
        | inr free ↦
            rw (of_event, held, free, read)
              (rw ((==_iff by by).1 refl, (==_iff t.id t.id).1 refl, held, free) refl)
      ]
      | inr other ↦ rw (of_event, other) refl
    ]
    | inr other ↦ rw other refl
  ]

  registered-fits :
      (account registration by at : ℕ) (recent : List ℕ) (es : List Entry)
      → fits
          (entitles (register_credential account registration) by)
          (registered profile reads limit window account at recent es).0
        ≡ true
  registered-fits account registration by at recent es =
      elim (Bool-cases (leb limit (length recent))) [
        | inl full ↦ rw full refl
        | inr room ↦ rw room ((==_iff account account).1 refl)
      ]

  command_fits :
      (c : Command) (by at : ℕ) (es : List Entry)
      → fits (entitles c by) (decide_command profile reads limit window c by at es).0 ≡ true
  unfolding decide_command register
  command_fits (register_credential account registration) by at es =
      registered-fits account registration by at _ _
  command_fits (create_event event salt) by at es = created_fits event salt by
  command_fits (transfer_ticket ticket event) by at es = held_fits ticket event by _ refl
  command_fits (set_event_status event) by at es =
      owned_fits (set_event_status event) event by _ refl refl
  command_fits (set_event_capacity event) by at es =
      owned_fits (set_event_capacity event) event by _ refl refl
  command_fits (add_zone event) by at es = owned_fits (add_zone event) event by _ refl refl
  command_fits (remove_zone event) by at es = owned_fits (remove_zone event) event by _ refl refl
  command_fits (remove_restriction event) by at es =
      owned_fits (remove_restriction event) event by _ refl refl
  command_fits (issue_ticket event) by at es = owned_fits (issue_ticket event) event by _ refl refl
  command_fits (other_command kind) by at es = refl

  pass_fits :
      (ticket : ℕ) (o : Option ReadTicket)
      → reads.ticket ticket ≡ o
      → fits (pass_entitles ticket) (decide_pass profile reads limit window o) ≡ true
  pass_fits ticket none read = refl
  pass_fits ticket (some t) read = by_event (reads.event t.event) refl
    where
      by_event :
          (o : Option ReadEvent)
          → reads.event t.event ≡ o
          → fits (pass_entitles ticket) (live_pass profile reads limit window t o) ≡ true
      by_event none found = refl
      by_event (some e) found = elim (Bool-cases (is_over profile reads limit window e.status)) [
        | inl over ↦ rw over refl
        | inr live ↦
            rw (live, read, found)
              (rw ((==_iff t.id t.id).1 refl, (==_iff t.event t.event).1 refl, live) refl)
      ]

  -- What a signer that is found means.
  abbrev Found : Claim → Input → ℕ → Type 0
  Found c input by = (by ≡ c.account) × (is_authentic c input ≡ true)

  registered-Found :
      (c : Claim) (input : Input) (by : ℕ) (o : Option ℕ)
      → reads.credential c.account c.credential ≡ o
      → registered_signer profile reads limit window c input o ≡ signer by
      → Found c input by
  registered-Found c input by none there e = absurd (cc e)
  registered-Found c input by (some r) there e =
      elim (Bool-cases (profile.verify r (profile.encode input) (authorisation_of input))) [
        | inl good ↦
            let is_by : signer c.account ≡ signer by = rw good at e in
            (cc is_by, rw (there, good) refl)
        | inr bad ↦ let e' = rw bad at e in absurd (cc e')
      ]

  none-zero : (cs : List ℕ) → has_none profile reads limit window cs ≡ true → length cs ≡ 0
  none-zero [] e = refl
  none-zero (x ∷ xs) e = absurd (cc e)

  first-Found :
      (c : Claim) (registration authorisation by account : ℕ) (o : Option Claim)
      → account ≡ c.account
      → length (reads.credentials c.account) ≡ 0
      → profile.registration_account registration ≡ o
      → (if is_own_registration profile reads limit window c registration
            (signed_command (register_credential account registration) authorisation)
            o
          then signer c.account
          else no_signer first_registration_by_another)
        ≡ signer by
      → Found c (signed_command (register_credential account registration) authorisation) by
  first-Found c registration authorisation by account none equal zero there e = absurd (cc e)
  first-Found c registration authorisation by account (some named) equal zero there e =
      let input = signed_command (register_credential account registration) authorisation in
      let account_same : (account == c.account) ≡ true = (==_iff account c.account).1 equal in
      let no_credential : (length (reads.credentials c.account) == 0) ≡ true =
        (==_iff (length (reads.credentials c.account)) 0).1 zero in
      elim (Bool-cases
        (is_own_registration profile reads limit window c registration input (some named))) [
          | inl own ↦
              let is_by : signer c.account ≡ signer by = rw own at e in
              let first : is_first c input ≡ true =
                rw (account_same, no_credential, there) (ground (arith, own)) in
              (cc is_by, ground (arith, first))
          | inr other ↦ let e' = rw other at e in absurd (cc e')
        ]

  claimed-Found :
      (c : Claim) (input : Input) (by : ℕ)
      → claimed_signer profile reads limit window input (some c) ≡ signer by
      → Found c input by
  claimed-Found c (signed_command (register_credential account registration) authorisation) by e =
      elim (Bool-cases (
        (account == c.account)
        && has_none profile reads limit window (reads.credentials c.account))) [
          | inl new ↦
              first-Found c registration authorisation by account _
                ((==_iff account c.account).0 (ground arith))
                (none-zero (reads.credentials c.account) (ground arith)) refl (rw new at e)
          | inr old ↦ registered-Found c _ by _ refl (rw old at e)
        ]
  claimed-Found c (signed_pass ticket pass_id authorisation) by e = registered-Found c _ by _ refl e
  claimed-Found c (signed_command (set_event_status event) authorisation) by e =
      registered-Found c _ by _ refl e
  claimed-Found c (signed_command (set_event_capacity event) authorisation) by e =
      registered-Found c _ by _ refl e
  claimed-Found c (signed_command (add_zone event) authorisation) by e =
      registered-Found c _ by _ refl e
  claimed-Found c (signed_command (remove_zone event) authorisation) by e =
      registered-Found c _ by _ refl e
  claimed-Found c (signed_command (remove_restriction event) authorisation) by e =
      registered-Found c _ by _ refl e
  claimed-Found c (signed_command (create_event event salt) authorisation) by e =
      registered-Found c _ by _ refl e
  claimed-Found c (signed_command (issue_ticket event) authorisation) by e =
      registered-Found c _ by _ refl e
  claimed-Found c (signed_command (transfer_ticket ticket event) authorisation) by e =
      registered-Found c _ by _ refl e
  claimed-Found c (signed_command (other_command kind) authorisation) by e =
      registered-Found c _ by _ refl e

  fits_both :
      (a : Bool) (p : Entitlement → Bool) (d : Decision)
      → a ≡ true
      → fits p d ≡ true
      → fits (λ x. a && p x) d ≡ true
  fits_both a p (entitled x) e h = rw e h
  fits_both a p (refuse reason) e h = refl

  -- What is decided of a signer that was found.
  decided_fits :
      (input : Input) (by at : ℕ) (es : List Entry)
      → fits
          (justifies input by)
          (decide_signed profile reads limit window input (signer by) at es).0
        ≡ true
  decided_fits (signed_command c authorisation) by at es = command_fits c by at es
  decided_fits (signed_pass ticket pass_id authorisation) by at es = pass_fits ticket _ refl

  -- Whatever is signed, the relay sponsors it only where the authorisation names an account and one
  -- of its credentials and verifies: against that credential's registration in the derived copy, or,
  -- for a registration of an account that has no credential there, against the registration that the
  -- input carries, if it names that account and credential. And only where the input is entitled by
  -- what the derived copy says of that account: an organiser command by
  -- the event's owner, an event's creation by an organiser from whom the event id derives, a transfer
  -- by the holder of a ticket that may be transferred, a registration, or a pass of a ticket whose
  -- event is neither cancelled nor finished.
  pub decide-Attributed :
      (input : Input) (at : ℕ) (es : List Entry)
      → Attributed input (decide profile reads limit window input at es).0
  unfolding decide verified_signer Attributed
  decide-Attributed input at es = by_claim (profile.account_of (authorisation_of input))
    where
      by_signer :
          (c : Claim) (s : Signer)
          → claimed_signer profile reads limit window input (some c) ≡ s
          → rests_on input (decide_signed profile reads limit window input s at es).0 (some c)
            ≡ true
      by_signer c (no_signer reason) e = refl
      by_signer c (signer by) e =
          let (is_by, authentic) = claimed-Found c input by e in
          fits_both (is_authentic c input) (justifies input c.account) _ authentic
            (rw (← is_by) (decided_fits input by at es))

      by_claim :
          (o : Option Claim)
          → rests_on input
              (decide_signed profile reads limit window input
                (claimed_signer profile reads limit window input o)
                at
                es).0
              o
            ≡ true
      by_claim none = refl
      by_claim (some c) = by_signer c _ refl

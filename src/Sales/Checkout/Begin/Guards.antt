-- ===== src/Sales/Checkout/Begin/Guards.antt =====
-- What the operations on checkout sessions leave true of every session.
use kippu_api.Base.{
  not, ℕ, ◌≡◌, refl, inl, inr, Bool-cases, Bool, true, false, Option, none, some, ◌∷◌, arith,
  is_some, if◌then◌else◌, All, All-update, update_where, updated,
}
use kippu_api.Store.{
  Ledger, TicketOf, CheckoutSession, CheckoutStep, Db, after, Stays, staying, modify-Stays,
  get_bind-Stays, modify_bind-Stays, if-Stays, pure-Stays, throw-Stays,
}
use kippu_api.Sales.Audit.{
  CheckoutActor, anonymous, organiser, operator, holder, reviewer, system, payment_provider,
  sweep_actor, CheckoutCause, record_checkout_step, holder_of, session_of,
}
use kippu_api.Sales.Holds.{SalesRequest}
use kippu_api.Sales.Checkout.{Secrets, BeginCheckoutInput, CheckoutRow}
use kippu_api.Sales.Checkout.Begin.{new_session, insert_session, begin_checkout}
use kippu_api.Sales.Checkout.Link.{
  update_session, is_unlinked, link_to, is_unconfirmed, confirm_at, is_discardable, discard_to,
  link_by, link_checkout, confirm_account, confirm_link, discard_link,
}

-- A test of a link: its account, its session, its request and its time.
abbrev pub LinkTest : Type 0
LinkTest = ℕ → ℕ → ℕ → ℕ → Bool

-- The columns of a link: none is set, nor is it confirmed; or all are, to a link that passes the test.
unfoldable pub is_linked_by : LinkTest → Option ℕ → Option ℕ → Option ℕ → Option ℕ → Bool → Bool
is_linked_by test (some account) (some session_id) (some request_id) (some at) is_confirmed =
    test account session_id request_id at
is_linked_by test none none none none is_confirmed = not is_confirmed
is_linked_by test _ _ _ _ _ = false

-- The link of a session, if it has one, is one that passes the test; without one, none is confirmed.
abbrev pub Coherent : LinkTest → CheckoutSession → Type 0
Coherent test c =
    is_linked_by test c.holder_account c.linked_session_id c.linked_request_id c.linked_at
      (is_some c.link_confirmed_at)
    ≡ true

-- The link that a call makes at a time, if it is a holder's, passes the test.
abbrev pub attests : LinkTest → SalesRequest → ℕ → Bool
attests test request at = elim request.principal [
  | holder account session_id ↦ test account session_id request.request_id at
  | _ ↦ true
]

confirmed-is_linked_by :
    (test : LinkTest) (a s q t : Option ℕ) (b : Bool)
    → is_some a ≡ true
    → is_linked_by test a s q t b ≡ true
    → is_linked_by test a s q t true ≡ true
unfolding is_linked_by
confirmed-is_linked_by test (some a) (some s) (some q) (some t) b there e = e
confirmed-is_linked_by test none s q t b there e = absurd (cc there)
confirmed-is_linked_by test (some a) none q t b there e = absurd (cc e)
confirmed-is_linked_by test (some a) (some s) none t b there e = absurd (cc e)
confirmed-is_linked_by test (some a) (some s) (some q) none b there e = absurd (cc e)

module _ (R : LinkTest) where
  AllCoherent : Db → Type 0
  AllCoherent db = All (Coherent R) db.checkout_sessions

  pub data SessionStep (ledger : Ledger) (ticket_of : TicketOf) (secrets : Secrets)
      : Db → Db → Type 0 where
    beginning :
        (request : SalesRequest) (clock : ℕ → ℕ) (normalise : ℕ → Option ℕ) (id token : ℕ)
        (input : BeginCheckoutInput) (db : Db)
        → attests R request (clock 0) ≡ true
        → SessionStep ledger ticket_of secrets db (
            after
              (begin_checkout ledger ticket_of secrets request clock normalise id token input db))
    linking :
        (request : SalesRequest) (clock : ℕ → ℕ) (handoff_token : ℕ) (db : Db)
        → attests R request (clock 1) ≡ true
        → SessionStep ledger ticket_of secrets db
            (after (link_checkout secrets request clock handoff_token db))
    confirming :
        (request : SalesRequest) (clock : ℕ → ℕ) (token code : ℕ) (db : Db)
        → SessionStep ledger ticket_of secrets db
            (after (confirm_link secrets request clock token code db))
    discarding :
        (request : SalesRequest) (clock : ℕ → ℕ) (token : ℕ) (db : Db)
        → SessionStep ledger ticket_of secrets db
            (after (discard_link secrets request clock token db))

  pub data SessionSteps (ledger : Ledger) (ticket_of : TicketOf) (secrets : Secrets)
      : Db → Db → Type 0 where
    no_more : (db : Db) → SessionSteps ledger ticket_of secrets db db
    and_then :
        {db db' db'' : Db}
        → SessionSteps ledger ticket_of secrets db db'
        → SessionStep ledger ticket_of secrets db' db''
        → SessionSteps ledger ticket_of secrets db db''

  step-AllCoherent :
      (x : ℕ) (step : CheckoutStep) (cause : CheckoutCause) (at : ℕ)
      → Stays AllCoherent (record_checkout_step x step cause at)
  unfolding record_checkout_step AllCoherent
  step-AllCoherent x step cause at = modify-Stays AllCoherent _ (λ _ p. p)

  updated_all :
      (test : CheckoutSession → Bool) (change : CheckoutSession → CheckoutSession)
      → ((c : CheckoutSession) → Coherent R c → Coherent R (updated test change c))
      → (db : Db) → AllCoherent db
      → AllCoherent
          (record db { checkout_sessions = update_where test change db.checkout_sessions })
  unfolding AllCoherent
  updated_all test change h db a = All-update test test change (Coherent R) h db.checkout_sessions a

  update_session-AllCoherent :
      (test : CheckoutSession → Bool) (change : CheckoutSession → CheckoutSession) (x : ℕ)
      (step : CheckoutStep) (cause : CheckoutCause) (at : ℕ)
      → ((c : CheckoutSession) → Coherent R c → Coherent R (updated test change c))
      → Stays AllCoherent (update_session test change x step cause at)
  unfolding update_session
  update_session-AllCoherent test change x step cause at h = get_bind-Stays AllCoherent _ (λ db.
      modify_bind-Stays AllCoherent _ _ (updated_all test change h)
        (if-Stays AllCoherent _ _ _ (step-AllCoherent x step cause at) (pure-Stays AllCoherent tt)))

  link-Coherent :
      (x g account session_id request_id at : ℕ)
      → R account session_id request_id at ≡ true
      → (c : CheckoutSession) → Coherent R c
      → Coherent R (updated (is_unlinked x g) (link_to account session_id request_id at) c)
  unfolding is_linked_by
  link-Coherent x g account session_id request_id at good c p =
      elim (Bool-cases (is_unlinked x g c)) [ inl hit ↦ rw hit good | inr miss ↦ rw miss p ]

  confirm-Coherent :
      (x account request_id at : ℕ) (c : CheckoutSession)
      → Coherent R c
      → Coherent R (updated (is_unconfirmed x account) (confirm_at request_id at) c)
  confirm-Coherent x account request_id at c p = elim (Bool-cases (is_unconfirmed x account c)) [
    | inl hit ↦ rw hit (
        confirmed-is_linked_by R c.holder_account c.linked_session_id c.linked_request_id
          c.linked_at (is_some c.link_confirmed_at) (ground arith) p)
    | inr miss ↦ rw miss p
  ]

  discard-Coherent :
      (x g g' hash : ℕ) (c : CheckoutSession)
      → Coherent R c
      → Coherent R (updated (is_discardable x g) (discard_to g' hash) c)
  unfolding is_linked_by
  discard-Coherent x g g' hash c p = elim (Bool-cases (is_discardable x g c)) [
    | inl hit ↦ rw hit (ground arith)
    | inr miss ↦ rw miss p
  ]

  update_linked :
      (x g account session_id request_id at : ℕ) (step : CheckoutStep) (cause : CheckoutCause)
      → R account session_id request_id at ≡ true
      → Stays AllCoherent (
          update_session
            (is_unlinked x g)
            (link_to account session_id request_id at)
            x
            step
            cause
            at)
  update_linked x g account session_id request_id at step cause good =
      update_session-AllCoherent _ _ x step cause at
        (link-Coherent x g account session_id request_id at good)

  update_confirmed :
      (x account request_id at : ℕ) (step : CheckoutStep) (cause : CheckoutCause)
      → Stays AllCoherent
          (update_session (is_unconfirmed x account) (confirm_at request_id at) x step cause at)
  update_confirmed x account request_id at step cause =
      update_session-AllCoherent _ _ x step cause at (confirm-Coherent x account request_id at)

  update_discarded :
      (x g g' hash at : ℕ) (step : CheckoutStep) (cause : CheckoutCause)
      → Stays AllCoherent (update_session (is_discardable x g) (discard_to g' hash) x step cause at)
  update_discarded x g g' hash at step cause =
      update_session-AllCoherent _ _ x step cause at (discard-Coherent x g g' hash)

  module _ (ledger : Ledger) (ticket_of : TicketOf) (secrets : Secrets) (request : SalesRequest)
      (clock : ℕ → ℕ) where
    new_session-Coherent :
        (id token : ℕ) (input : BeginCheckoutInput) (position : Option ℕ) (at : ℕ)
        → attests R request at ≡ true
        → Coherent R (new_session secrets request id token input position at)
    unfolding new_session is_linked_by
    new_session-Coherent id token input position at good = by_actor request.principal good
      where
        by_actor :
            (a : CheckoutActor)
            → elim a [
              | holder account session_id ↦ R account session_id request.request_id at
              | _ ↦ true
            ]
              ≡ true
            → is_linked_by R
                (holder_of a)
                (if is_some (holder_of a) then session_of a else none)
                (if is_some (holder_of a) then some request.request_id else none)
                (if is_some (holder_of a) then some at else none)
                (is_some (if is_some (holder_of a) then some at else none))
              ≡ true
        by_actor anonymous good = refl
        by_actor (organiser o s) good = refl
        by_actor (operator o p s) good = refl
        by_actor (holder a s) good = good
        by_actor (reviewer r s) good = refl
        by_actor (system o t) good = refl
        by_actor payment_provider good = refl
        by_actor sweep_actor good = refl

    session_added :
        (c : CheckoutSession)
        → Coherent R c
        → (db : Db) → AllCoherent db
        → AllCoherent (record db { checkout_sessions = c ∷ db.checkout_sessions })
    unfolding AllCoherent
    session_added c h db a = (h, a)

    insert_session-AllCoherent :
        (c : CheckoutSession) (at : ℕ)
        → Coherent R c
        → Stays AllCoherent (insert_session secrets request c at)
    unfolding insert_session
    insert_session-AllCoherent c at h =
        search (staying, session_added c h, step-AllCoherent) depth 14

    insert_new :
        (id token : ℕ) (input : BeginCheckoutInput) (position : Option ℕ) (at at' : ℕ)
        → attests R request at ≡ true
        → Stays AllCoherent (
            insert_session secrets request
              (new_session secrets request id token input position at)
              at')
    insert_new id token input position at at' good =
        insert_session-AllCoherent _ at' (new_session-Coherent id token input position at good)

    begin_checkout-AllCoherent :
        (normalise : ℕ → Option ℕ) (id token : ℕ) (input : BeginCheckoutInput)
        → attests R request (clock 0) ≡ true
        → Stays AllCoherent
            (begin_checkout ledger ticket_of secrets request clock normalise id token input)
    unfolding begin_checkout
    begin_checkout-AllCoherent normalise id token input good = search (staying, insert_new) depth 20

    link_by-AllCoherent :
        (handoff_token : ℕ) (actor : CheckoutActor)
        → elim actor [
          | holder account session_id ↦ R account session_id request.request_id (clock 1)
          | _ ↦ true
        ]
          ≡ true
        → Stays AllCoherent (link_by secrets request clock handoff_token actor)
    unfolding link_by
    link_by-AllCoherent handoff_token (holder account session_id) good =
        search (staying, update_linked) depth 14
    link_by-AllCoherent handoff_token _ good = throw-Stays AllCoherent _ _

    link-AllCoherent :
        (handoff_token : ℕ)
        → attests R request (clock 1) ≡ true
        → Stays AllCoherent (link_checkout secrets request clock handoff_token)
    unfolding link_checkout
    link-AllCoherent handoff_token good = link_by-AllCoherent handoff_token request.principal good

    confirm_account-AllCoherent :
        (token code : ℕ) (row : CheckoutRow) (a : Option ℕ)
        → Stays AllCoherent (confirm_account secrets request clock token code row a)
    unfolding confirm_account
    confirm_account-AllCoherent token code row none = throw-Stays AllCoherent _ _
    confirm_account-AllCoherent token code row (some a) =
        search (staying, update_confirmed) depth 14

    confirm-AllCoherent :
        (token code : ℕ) → Stays AllCoherent (confirm_link secrets request clock token code)
    unfolding confirm_link
    confirm-AllCoherent token code = search (staying, confirm_account-AllCoherent) depth 14

    discard-AllCoherent : (token : ℕ) → Stays AllCoherent (discard_link secrets request clock token)
    unfolding discard_link
    discard-AllCoherent token = search (staying, update_discarded) depth 14

  module _ (ledger : Ledger) (ticket_of : TicketOf) (secrets : Secrets) where
    step_kept :
        {db db' : Db}
        → SessionStep ledger ticket_of secrets db db'
        → AllCoherent db
        → AllCoherent db'
    unfolding Stays
    step_kept (beginning request clock normalise id token input db good) =
        begin_checkout-AllCoherent ledger ticket_of secrets request clock normalise id token input
          good db
    step_kept (linking request clock token db good) =
        link-AllCoherent ledger ticket_of secrets request clock token good db
    step_kept (confirming request clock token code db) =
        confirm-AllCoherent ledger ticket_of secrets request clock token code db
    step_kept (discarding request clock token db) =
        discard-AllCoherent ledger ticket_of secrets request clock token db

    -- Every link that a session has is one that a call made: given any test of links that the
    -- holders' calls which begin checkouts or link them pass, each with its account, its session, its
    -- request and the time that it read, every session's recorded link passes it, after any sequence
    -- of calls that begin checkouts and link, confirm and discard their links, if all did before; and
    -- a session with no account has no link columns set and no confirmation.
    pub SessionSteps-Coherent :
        {db db' : Db}
        → SessionSteps ledger ticket_of secrets db db'
        → All (Coherent R) db.checkout_sessions
        → All (Coherent R) db'.checkout_sessions
    unfolding AllCoherent
    SessionSteps-Coherent (no_more db) a = a
    SessionSteps-Coherent (and_then steps step) a = step_kept step (SessionSteps-Coherent steps a)

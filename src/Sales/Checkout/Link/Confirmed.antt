-- ===== src/Sales/Checkout/Link/Confirmed.antt =====
-- A confirmed link is final.
use kippu_api.Base.{
  ℕ, ◌≡◌, refl, ap, ◌∙◌, Bool, true, false, Option, none, some, arith, ◌==◌, if◌then◌else◌,
  find_where, update_where, find-update,
}
use kippu_api.Store.{
  CheckoutSession, CheckoutStep, Db, after, Stays, if-Stays, staying, get_bind-Stays,
  modify_bind-Stays, modify-Stays, pure-Stays, throw-Stays,
}
use kippu_api.Sales.Audit.{CheckoutActor, holder, CheckoutCause, record_checkout_step}
use kippu_api.Sales.Holds.{SalesRequest}
use kippu_api.Sales.Checkout.{Secrets, CheckoutRow}
use kippu_api.Sales.Checkout.Link.{
  update_session, is_unlinked, link_to, is_unconfirmed, confirm_at, is_discardable, discard_to,
  link_by, link_checkout, confirm_account, confirm_link, discard_link,
}

abbrev pub is_session : ℕ → CheckoutSession → Bool
is_session id c = c.id == id

-- One call that changes a checkout's link.
pub data LinkStep (secrets : Secrets) : Db → Db → Type 0 where
  linking :
      (request : SalesRequest) (clock : ℕ → ℕ) (handoff_token : ℕ) (db : Db)
      → LinkStep secrets db (after (link_checkout secrets request clock handoff_token db))
  confirming :
      (request : SalesRequest) (clock : ℕ → ℕ) (token code : ℕ) (db : Db)
      → LinkStep secrets db (after (confirm_link secrets request clock token code db))
  discarding :
      (request : SalesRequest) (clock : ℕ → ℕ) (token : ℕ) (db : Db)
      → LinkStep secrets db (after (discard_link secrets request clock token db))

pub data LinkSteps (secrets : Secrets) : Db → Db → Type 0 where
  no_more : (db : Db) → LinkSteps secrets db db
  and_then :
      {db db' db'' : Db}
      → LinkSteps secrets db db'
      → LinkStep secrets db' db''
      → LinkSteps secrets db db''

module _ (id : ℕ) (c : CheckoutSession) (account confirmed_at : ℕ)
    (linked_to : c.holder_account ≡ some account)
    (confirmed : c.link_confirmed_at ≡ some confirmed_at) where
  -- The session is in the store, as it is.
  There : Db → Type 0
  There db = find_where (is_session id) db.checkout_sessions ≡ some c

  step-There :
      (x : ℕ) (step : CheckoutStep) (cause : CheckoutCause) (at : ℕ)
      → Stays There (record_checkout_step x step cause at)
  unfolding record_checkout_step There
  step-There x step cause at = modify-Stays There _ (λ _ p. p)

  same_id :
      (change : CheckoutSession → CheckoutSession)
      → ((y : CheckoutSession) → (change y).id ≡ y.id)
      → (b : Bool) (y : CheckoutSession)
      → is_session id (if b then change y else y) ≡ is_session id y
  same_id change keeps true y = ap (λ z. z == id) (keeps y)
  same_id change keeps false y = refl

  moved :
      (test : CheckoutSession → Bool) (change : CheckoutSession → CheckoutSession)
      → ((y : CheckoutSession) → (change y).id ≡ y.id)
      → test c ≡ false
      → (db : Db) → There db
      → There (record db { checkout_sessions = update_where test change db.checkout_sessions })
  unfolding There
  moved test change keeps miss db there =
      find-update (is_session id) test change (λ y. same_id change keeps (test y) y)
        db.checkout_sessions there
      ∙ ap (λ b. some (if b then change c else c)) miss

  update_session-There :
      (test : CheckoutSession → Bool) (change : CheckoutSession → CheckoutSession) (x : ℕ)
      (step : CheckoutStep) (cause : CheckoutCause) (at : ℕ)
      → ((y : CheckoutSession) → (change y).id ≡ y.id)
      → test c ≡ false
      → Stays There (update_session test change x step cause at)
  unfolding update_session
  update_session-There test change x step cause at keeps miss = get_bind-Stays There _ (λ db.
      modify_bind-Stays There _ _ (moved test change keeps miss)
        (if-Stays There _ _ _ (step-There x step cause at) (pure-Stays There tt)))

  link_misses : (x g : ℕ) → is_unlinked x g c ≡ false
  link_misses x g = let l = linked_to in ground arith

  confirm_misses : (x a : ℕ) → is_unconfirmed x a c ≡ false
  confirm_misses x a = let l = confirmed in ground arith

  discard_misses : (x g : ℕ) → is_discardable x g c ≡ false
  discard_misses x g = let l = confirmed in ground arith

  update_linked :
      (x g account' session_id request_id at : ℕ) (step : CheckoutStep) (cause : CheckoutCause)
      → Stays There (
          update_session
            (is_unlinked x g)
            (link_to account' session_id request_id at)
            x
            step
            cause
            at)
  update_linked x g account' session_id request_id at step cause =
      update_session-There _ _ x step cause at (λ _. refl) (link_misses x g)

  update_confirmed :
      (x a request_id at : ℕ) (step : CheckoutStep) (cause : CheckoutCause)
      → Stays There (update_session (is_unconfirmed x a) (confirm_at request_id at) x step cause at)
  update_confirmed x a request_id at step cause =
      update_session-There _ _ x step cause at (λ _. refl) (confirm_misses x a)

  update_discarded :
      (x g g' hash at : ℕ) (step : CheckoutStep) (cause : CheckoutCause)
      → Stays There (update_session (is_discardable x g) (discard_to g' hash) x step cause at)
  update_discarded x g g' hash at step cause =
      update_session-There _ _ x step cause at (λ _. refl) (discard_misses x g)

  module _ (secrets : Secrets) (request : SalesRequest) (clock : ℕ → ℕ) where
    link_by-There :
        (handoff_token : ℕ) (actor : CheckoutActor)
        → Stays There (link_by secrets request clock handoff_token actor)
    unfolding link_by
    link_by-There handoff_token (holder account session_id) =
        search (staying, update_linked) depth 14
    link_by-There handoff_token _ = throw-Stays There _ _

    confirm_account-There :
        (token code : ℕ) (row : CheckoutRow) (a : Option ℕ)
        → Stays There (confirm_account secrets request clock token code row a)
    unfolding confirm_account
    confirm_account-There token code row none = throw-Stays There _ _
    confirm_account-There token code row (some a) = search (staying, update_confirmed) depth 14

    discard-There : (token : ℕ) → Stays There (discard_link secrets request clock token)
    unfolding discard_link
    discard-There token = search (staying, update_discarded) depth 14

    confirm-There : (token code : ℕ) → Stays There (confirm_link secrets request clock token code)
    unfolding confirm_link
    confirm-There token code = search (staying, confirm_account-There) depth 14

    link-There :
        (handoff_token : ℕ) → Stays There (link_checkout secrets request clock handoff_token)
    unfolding link_checkout
    link-There handoff_token = link_by-There handoff_token request.principal

  step_kept : (secrets : Secrets) {db db' : Db} → LinkStep secrets db db' → There db → There db'
  unfolding Stays
  step_kept secrets (linking request clock handoff_token db) =
      link-There secrets request clock handoff_token db
  step_kept secrets (confirming request clock token code db) =
      confirm-There secrets request clock token code db
  step_kept secrets (discarding request clock token db) =
      discard-There secrets request clock token db

  steps_kept : (secrets : Secrets) {db db' : Db} → LinkSteps secrets db db' → There db → There db'
  steps_kept secrets (no_more db) t = t
  steps_kept secrets (and_then steps step) t = step_kept secrets step (steps_kept secrets steps t)

-- A confirmed link is final: whatever calls link, confirm and discard links, of any principal,
-- with any tokens and codes and in any order, a session that is linked to an account and confirmed
-- stays in the store exactly as it is.
pub LinkSteps-final :
    (secrets : Secrets) (id : ℕ) (c : CheckoutSession) (account confirmed_at : ℕ) {db db' : Db}
    → c.holder_account ≡ some account
    → c.link_confirmed_at ≡ some confirmed_at
    → LinkSteps secrets db db'
    → find_where (is_session id) db.checkout_sessions ≡ some c
    → find_where (is_session id) db'.checkout_sessions ≡ some c
unfolding There
LinkSteps-final secrets id c account confirmed_at linked_to confirmed steps there =
    steps_kept id c account confirmed_at linked_to confirmed secrets steps there

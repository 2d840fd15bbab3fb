-- ===== src/Sales/Audit.antt =====
-- src/sales/audit.ts: the recorded steps of a checkout, and who caused them
-- (`ActingPrincipal` of src/auth/ports.ts).
use Prim.Native.String.{String}
use kippu_api.Base.{ℕ, Option, none, some, ◌∷◌, ◌++◌, []}
use kippu_api.Store.{CheckoutStep, M, modify}

pub data CheckoutActor : Type 0 where
  anonymous : CheckoutActor
  organiser : (organiser_id session_id : ℕ) → CheckoutActor
  operator : (organiser_id operator_id session_id : ℕ) → CheckoutActor
  holder : (account session_id : ℕ) → CheckoutActor
  reviewer : (reviewer_id session_id : ℕ) → CheckoutActor
  system : (organiser_id task : ℕ) → CheckoutActor
  payment_provider sweep_actor : CheckoutActor

pub record CheckoutCause : Type 0 where
  pub request_id : ℕ
  pub actor : CheckoutActor

abbrev pub actor_kind : CheckoutActor → String
actor_kind anonymous = "anonymous"
actor_kind (organiser _ _) = "organiser"
actor_kind (operator _ _ _) = "operator"
actor_kind (holder _ _) = "holder"
actor_kind (reviewer _ _) = "reviewer"
actor_kind (system _ _) = "system"
actor_kind payment_provider = "payment-provider"
actor_kind sweep_actor = "sweep"

-- `"sessionId" in actor ? actor.sessionId : null`
abbrev pub session_of : CheckoutActor → Option ℕ
session_of (organiser _ s) = some s
session_of (operator _ _ s) = some s
session_of (holder _ s) = some s
session_of (reviewer _ s) = some s
session_of _ = none

abbrev pub holder_of : CheckoutActor → Option ℕ
holder_of (holder a _) = some a
holder_of _ = none

unfoldable pub record_checkout_step : ℕ → CheckoutStep → CheckoutCause → ℕ → M (Unit {0})
record_checkout_step checkout_id step cause at = modify λ db. record db {
  checkout_audit =
      db.checkout_audit
      ++ record {
        checkout_id = checkout_id;
        step = step;
        request_id = cause.request_id;
        actor = actor_kind cause.actor;
        session_id = session_of cause.actor;
        holder_account = holder_of cause.actor;
        recorded_at = at;
      }
        ∷ [];
}

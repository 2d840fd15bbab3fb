-- ===== src/Examples/Linking.antt =====
-- Holds that are extended, and the session's link, once it is confirmed.
use kippu_api.Base.{◌==◌, ◌&&◌, ◌||◌, ◌≡◌, refl, some, find_where, All}
use kippu_api.Store.{after}
use kippu_api.Sales.Holds.{extend, SalesRequest}
use kippu_api.Sales.Audit.{holder}
use kippu_api.Sales.Lifetime.{Timed, extending, steps-Timed}
use kippu_api.Sales.Checkout.{unseated_at, BeginCheckoutInput}
use kippu_api.Sales.Checkout.Begin.{begin_checkout}
use kippu_api.Sales.Checkout.Begin.Guards.{
  LinkTest, is_linked_by, Coherent, beginning, SessionSteps-Coherent,
}
use kippu_api.Sales.Checkout.Link.{discard_link}
use kippu_api.Sales.Checkout.Link.Confirmed.{is_session, discarding, LinkSteps-final}
use kippu_api.Examples.Data.{ledger, ticket_of, request, clock, session, secrets, store}

steps-Timed_example : All Timed (after (extend 2 100 store)).holds
steps-Timed_example =
    steps-Timed ledger ticket_of
      (kippu_api.Sales.Lifetime.and_then (kippu_api.Sales.Lifetime.no_more store)
        (extending 2 100 store))
      (refl, tt)

session_there : find_where (is_session 2) store.checkout_sessions ≡ some session
unfolding find_where
session_there = refl

LinkSteps-final_example :
    find_where
      (is_session 2)
      (after (discard_link secrets request clock 21 store)).checkout_sessions
    ≡ some session
LinkSteps-final_example =
    LinkSteps-final secrets 2 session 40 31 refl refl
      (kippu_api.Sales.Checkout.Link.Confirmed.and_then
        (kippu_api.Sales.Checkout.Link.Confirmed.no_more store) (discarding request clock 21 store))
      session_there

abbrev input : BeginCheckoutInput
input = record { event = 1; zone = 1; class_id = 5; placement = unseated_at }

-- The link of the session in the store, and the one that account 45 makes by beginning a checkout.
abbrev made : LinkTest
made account session_id request_id at =
    (account == 40 && session_id == 41 && request_id == 60 && at == 30)
    || (account == 45 && session_id == 46 && request_id == 63 && at == 100)

abbrev own_request : SalesRequest
own_request = record { request_id = 63; principal = holder 45 46 }

SessionSteps-Coherent_example :
    All
      (Coherent made)
      (after (
        begin_checkout ledger ticket_of secrets own_request clock
          (λ d. some d)
          13
          14
          input
          store)).checkout_sessions
unfolding is_linked_by
SessionSteps-Coherent_example =
    SessionSteps-Coherent made ledger ticket_of secrets
      (kippu_api.Sales.Checkout.Begin.Guards.and_then
        (kippu_api.Sales.Checkout.Begin.Guards.no_more store)
        (beginning own_request clock (λ d. some d) 13 14 input store refl))
      (refl, tt)

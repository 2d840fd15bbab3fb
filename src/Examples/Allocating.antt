-- ===== src/Examples/Allocating.antt =====
-- A second hold, a granted ticket and a lower capacity of the event.
use kippu_api.Base.{
  ◌+◌, ◌≡◌, ◌≤◌, ◌<◌, ◌↔◌, refl, true, false, none, some, arith, count_where, find_where,
  exists_where, update_where,
}
use kippu_api.Store.{found, active, ok, done, after}
use kippu_api.Sales.Allocation.{
  class_quota, capacity_has_room, allocation_counts, counts_of, allocated_count, lapse_event,
}
use kippu_api.Sales.Allocation.Room.{capacity_has_room_iff}
use kippu_api.Sales.Allocation.Taken.{of_event, of_class, taken}
use kippu_api.Sales.Holds.{place}
use kippu_api.Sales.Holds.Limits.{place-Limit}
use kippu_api.Sales.Checkout.{unseated_at}
use kippu_api.Events.Capacity.{
  is_above, decrease, decrease_owned, check_issuance, can_decrease_capacity, relay_capacity,
}
use kippu_api.Events.Ownership.{owned_event}
use kippu_api.Events.Capacity.Decrease.{is_held_of, decrease-Limit}
use kippu_api.Events.Issuance.{IssueGrantedInput, reserve}
use kippu_api.Events.Issuance.Reserve.{reserve-Limit}
use kippu_api.Examples.Data.{event_with, ledger, ticket_of, accounts, request, store, second_target}

store-taken : taken ticket_of (of_event 1) store ≤ 2
unfolding taken count_where
store-taken = omega arith

store-quota : taken ticket_of (of_class 5) store ≤ 2
unfolding taken count_where
store-quota = omega arith

quota_is : class_quota 5 store ≡ some 2
unfolding class_quota find_where
quota_is = refl

place-Limit_example :
    taken ticket_of (of_event 1) (after (place ledger ticket_of request second_target 6 100 store))
    ≤ 2
place-Limit_example =
    place-Limit ledger ticket_of request second_target 6 100 store (of_event 1) 2
      (event_with active, refl, refl) store-taken

abbrev input : IssueGrantedInput
input = record { event = 1; zone = 1; class_id = 5; placement = unseated_at; holder = 40 }

reserve-Limit_example :
    taken ticket_of (of_class 5) (after (reserve ledger ticket_of 3 60 input none 8 100 store)) ≤ 2
reserve-Limit_example =
    reserve-Limit ledger ticket_of 3 60 input none 8 100 (event_with active) (of_class 5) 2 store
      refl refl tt quota_is store-quota

decrease_ends :
    decrease ledger accounts (ok (found 90)) 1 1 100 3 store
    ≡ done
        (record { event = 1; capacity = 1; cursor = 90 })
        (after (decrease ledger accounts (ok (found 90)) 1 1 100 3 store))
unfolding decrease decrease_owned check_issuance can_decrease_capacity relay_capacity owned_event
    allocation_counts counts_of allocated_count count_where exists_where class_quota find_where
    lapse_event update_where
decrease_ends = refl

decrease-Limit_example :
    (is_above 1 (some 2) ≡ false)
    × ((0
            + count_where
                (is_held_of 1)
                (after (decrease ledger accounts (ok (found 90)) 1 1 100 3 store)).holds
          ≤ 1)
        × (taken ticket_of
              (of_event 1)
              (after (decrease ledger accounts (ok (found 90)) 1 1 100 3 store))
            ≤ 1))
decrease-Limit_example =
    decrease-Limit ledger ticket_of accounts (ok (found 90)) 1 1 100 3 (event_with active) _ store _
      refl refl decrease_ends

capacity_has_room_iff_example :
    (capacity_has_room (event_with active) (counts_of second_target.target store) ≡ true)
    ↔ (allocated_count (event_with active) (counts_of second_target.target store) < 2)
capacity_has_room_iff_example =
    capacity_has_room_iff (event_with active) (counts_of second_target.target store) 2 refl

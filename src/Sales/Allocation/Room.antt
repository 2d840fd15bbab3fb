-- ===== src/Sales/Allocation/Room.antt =====
-- When an allocation fits: the tests by what remains, against the counts.
use kippu_api.Base.{◌+◌, ◌<◌, ◌≡◌, ◌↔◌, true, some, arith, ℕ}
use kippu_api.Store.{Event}
use kippu_api.Sales.Allocation.{
  AllocationCounts, capacity_has_room, allocated_count, quota_has_room,
}

-- Of a bounded event, capacity has room exactly when the allocated count, tickets issued and open
-- holds, is under the bound.
pub capacity_has_room_iff :
    (ev : Event) (c : AllocationCounts) (cap : ℕ)
    → ev.max_capacity ≡ some cap
    → (capacity_has_room ev c ≡ true) ↔ (allocated_count ev c < cap)
unfolding capacity_has_room allocated_count
capacity_has_room_iff ev c cap e = rw e (ground arith)

-- The same for a class's quota.
pub quota_has_room_iff :
    (c : AllocationCounts) (q : ℕ)
    → c.quota ≡ some q
    → (quota_has_room c ≡ true) ↔ (c.class_holds + c.class_purchased + c.class_granted < q)
unfolding quota_has_room
quota_has_room_iff c q e = rw e (ground arith)

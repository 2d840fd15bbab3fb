-- ===== src/Examples/Windows.antt =====
-- The organiser sets the event's pass window.
use kippu_api.Base.{◌≡◌, ◌≤◌, refl, false, exists_where, find_where}
use kippu_api.Store.{done, after}
use kippu_api.Events.Ownership.{owned_event}
use kippu_api.Events.PassWindow.{
  EventPassWindow, min_pass_window_ms, put_window, read_window, set_window,
}
use kippu_api.Events.PassWindow.Setting.{set_window-read}
use kippu_api.Examples.Data.{ledger, accounts, store}

abbrev half_minute : EventPassWindow
half_minute = record {
  event = 1;
  window_ms = 30000;
  is_default = false;
  minimum_ms = 10000;
  maximum_ms = 120000;
}

set_ends :
    set_window ledger accounts 60000 120000 3 60 1 30000 100 store
    ≡ done half_minute (after (set_window ledger accounts 60000 120000 3 60 1 30000 100 store))
unfolding set_window owned_event put_window read_window exists_where find_where
set_ends = refl

set_window-read_example :
    (min_pass_window_ms ≤ 30000)
    × (30000 ≤ 120000)
    × (half_minute.window_ms ≡ 30000)
    × ((read_window ledger accounts 60000 120000 1
          (after (set_window ledger accounts 60000 120000 3 60 1 30000 100 store))).window_ms
        ≡ 30000)
    × (read_window ledger accounts 60000 120000 2
          (after (set_window ledger accounts 60000 120000 3 60 1 30000 100 store))
        ≡ read_window ledger accounts 60000 120000 2 store)
set_window-read_example =
    set_window-read ledger accounts 60000 120000 3 60 1 30000 100 2 half_minute store _ refl
      set_ends

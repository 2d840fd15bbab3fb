-- ===== src/Events/PassWindow.antt =====
-- src/events/pass-window.ts: how long an access pass for an event stays valid. The profile's
-- default window, and the maximum that the ledger runs with, are parameters.
pub mod Setting
use kippu_api.Base.{
  ℕ, min, Bool, true, false, ◌||◌, Option, none, some, ◌∷◌, ◌==◌, ltb, is_some, if◌then◌else◌,
  exists_where, find_where, update_where,
}
use kippu_api.Store.{
  refused_request, bad_request, Ledger, PassWindow, Db, M, ◌>>=◌, ◌>>◌, get, modify, pure, throw,
  lift,
}
use kippu_api.Events.Ownership.{owned_event}

-- MIN_PASS_WINDOW_MS
abbrev pub min_pass_window_ms : ℕ
min_pass_window_ms = 10000

pub record EventPassWindow : Type 0 where
  pub event : ℕ
  pub window_ms : ℕ
  pub is_default : Bool
  pub minimum_ms : ℕ
  pub maximum_ms : ℕ

abbrev pub is_of_event : ℕ → PassWindow → Bool
is_of_event event w = w.event == event

module _ (ledger : Ledger) (account_of : ℕ → Option ℕ) (default_window max_pass_window : ℕ) where
  -- The profile's default, within the ledger's maximum.
  abbrev pub default_pass_window : ℕ
  default_pass_window = min default_window max_pass_window

  abbrev pub shown_window : ℕ → Option PassWindow → EventPassWindow
  shown_window event none = record {
    event = event;
    window_ms = default_pass_window;
    is_default = true;
    minimum_ms = min_pass_window_ms;
    maximum_ms = max_pass_window;
  }
  shown_window event (some w) = record {
    event = event;
    window_ms = w.window_ms;
    is_default = false;
    minimum_ms = min_pass_window_ms;
    maximum_ms = max_pass_window;
  }

  unfoldable pub read_window : ℕ → Db → EventPassWindow
  read_window event db = shown_window event (find_where (is_of_event event) db.event_pass_windows)

  unfoldable pub get_window : ℕ → ℕ → M EventPassWindow
  get_window organiser_id event = do
    db ← get
    _ ← lift (owned_event ledger account_of organiser_id event)
    pure (read_window event db)

  abbrev pub is_out : ℕ → Bool
  is_out window_ms = ltb window_ms min_pass_window_ms || ltb max_pass_window window_ms

  abbrev pub set_to : ℕ → ℕ → ℕ → ℕ → PassWindow → PassWindow
  set_to window_ms organiser_id request_id at w = record w {
    window_ms = window_ms;
    organiser_id = organiser_id;
    set_request_id = request_id;
    set_at = at;
  }

  -- INSERT … ON CONFLICT (event) DO UPDATE
  unfoldable pub put_window : ℕ → ℕ → ℕ → ℕ → ℕ → Db → Db
  put_window event window_ms organiser_id request_id at db =
      if exists_where (is_of_event event) db.event_pass_windows
      then record db {
        event_pass_windows =
            update_where (is_of_event event) (set_to window_ms organiser_id request_id at)
              db.event_pass_windows;
      }
      else record db {
        event_pass_windows =
            record {
              event = event;
              window_ms = window_ms;
              organiser_id = organiser_id;
              set_request_id = request_id;
              set_at = at;
            }
            ∷ db.event_pass_windows;
      }

  unfoldable pub set_window : ℕ → ℕ → ℕ → ℕ → ℕ → M EventPassWindow
  set_window organiser_id request_id event window_ms at =
      if is_out window_ms
      then throw (refused_request bad_request none)
      else (lift (owned_event ledger account_of organiser_id event) >>= λ _.
          modify (put_window event window_ms organiser_id request_id at)
          >> (get >>= λ db. pure (read_window event db)))

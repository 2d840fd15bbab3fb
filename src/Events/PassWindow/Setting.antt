-- ===== src/Events/PassWindow/Setting.antt =====
-- A window that is set is in the ledger's bounds, and is what is read back.
use kippu_api.Base.{
  ℕ, ◌≤◌, ◌≡◌, refl, sym, ap, ◌∙◌, inl, inr, Bool, true, false, Option, none, List, [], ◌∷◌, arith,
  ◌==◌, ==_iff, Bool-cases, if◌then◌else◌, exists_where, find_where, update_where,
}
use kippu_api.Store.{
  Event, Try, ok, fail, Ledger, PassWindow, Db, done, ◌>>=◌, ◌>>◌, get, modify, pure, throw, lift,
  refused_request, bad_request, after,
}
use kippu_api.Events.Ownership.{owned_event}
use kippu_api.Events.PassWindow.{
  min_pass_window_ms, EventPassWindow, is_of_event, shown_window, read_window, is_out, set_to,
  put_window, set_window,
}

-- What is found after an update of the rows of one event.
find_set :
    (event window organiser_id request_id at : ℕ) (ledger : Ledger) (account_of : ℕ → Option ℕ)
    (default_window max_window : ℕ) (ws : List PassWindow)
    → exists_where (is_of_event event) ws ≡ true
    → (shown_window ledger account_of default_window max_window event (
        find_where (is_of_event event) (
          update_where
            (is_of_event event)
            (set_to ledger account_of default_window max_window window organiser_id request_id at)
            ws))).window_ms
      ≡ window
unfolding exists_where find_where update_where
find_set event window organiser_id request_id at ledger account_of default_window max_window [] h =
    absurd (cc h)
find_set event window organiser_id request_id at ledger account_of default_window max_window
      (w ∷ ws) h =
    elim (Bool-cases (is_of_event event w)) [
      | inl hit ↦ rw (hit, hit) refl
      | inr miss ↦
          rw (miss, miss)
            (find_set event window organiser_id request_id at ledger account_of default_window
              max_window ws (rw miss at h))
    ]

module _ (ledger : Ledger) (account_of : ℕ → Option ℕ) (default_window max_window : ℕ) where
  put-read :
      (event window organiser_id request_id at : ℕ) (db : Db)
      → (read_window ledger account_of default_window max_window event (
          put_window ledger account_of default_window max_window event window organiser_id
            request_id at db)).window_ms
        ≡ window
  unfolding read_window put_window find_where
  put-read event window organiser_id request_id at db =
      elim (Bool-cases (exists_where (is_of_event event) db.event_pass_windows)) [
        | inl before ↦ rw before (
            find_set event window organiser_id request_id at ledger account_of default_window
              max_window db.event_pass_windows before)
        | inr fresh ↦ rw (fresh, (==_iff event event).1 refl) refl
      ]

  -- An event's window stays as it is when another event's is set.
  find_other :
      (event other window organiser_id request_id at : ℕ) (ws : List PassWindow)
      → (event == other) ≡ false
      → find_where (is_of_event other) (
          update_where
            (is_of_event event)
            (set_to ledger account_of default_window max_window window organiser_id request_id at)
            ws)
        ≡ find_where (is_of_event other) ws
  unfolding find_where update_where
  find_other event other window organiser_id request_id at [] differ = refl
  find_other event other window organiser_id request_id at (w ∷ ws) differ =
      let rest = find_other event other window organiser_id request_id at ws differ in
      elim (Bool-cases (is_of_event event w)) [
        | inl hit ↦
            let same_event : w.event ≡ event = (==_iff w.event event).0 hit in
            let miss : is_of_event other w ≡ false = ap (λ x. x == other) same_event ∙ differ in
            rw (hit, miss) rest
        | inr miss ↦ rw (miss, rest) refl
      ]

  put-other :
      (event other window organiser_id request_id at : ℕ) (db : Db)
      → (event == other) ≡ false
      → read_window ledger account_of default_window max_window other (
          put_window ledger account_of default_window max_window event window organiser_id
            request_id at db)
        ≡ read_window ledger account_of default_window max_window other db
  unfolding read_window put_window find_where
  put-other event other window organiser_id request_id at db differ =
      elim (Bool-cases (exists_where (is_of_event event) db.event_pass_windows)) [
        | inl before ↦ rw before (
            ap (shown_window ledger account_of default_window max_window other) (
              find_other event other window organiser_id request_id at db.event_pass_windows
                differ))
        | inr fresh ↦ rw (fresh, differ) refl
      ]

  in_bounds :
      (window : ℕ)
      → is_out ledger account_of default_window max_window window ≡ false
      → (min_pass_window_ms ≤ window) × (window ≤ max_window)
  in_bounds window h = (ground arith, ground arith)

  -- Where setting an event's pass window returns: the window is at least 10 seconds and at most the
  -- ledger's maximum, it is what is answered and what is read back of the store, and every other
  -- event reads as before.
  pub set_window-read :
      (organiser_id request_id event window at other : ℕ) (r : EventPassWindow) (db db' : Db)
      → (event == other) ≡ false
      → set_window ledger account_of default_window max_window organiser_id request_id event window
          at db
        ≡ done r db'
      → (min_pass_window_ms ≤ window)
        × (window ≤ max_window)
        × (r.window_ms ≡ window)
        × ((read_window ledger account_of default_window max_window event db').window_ms ≡ window)
        × (read_window ledger account_of default_window max_window other db'
            ≡ read_window ledger account_of default_window max_window other db)
  unfolding set_window
  set_window-read organiser_id request_id event window at other r db db' differ e =
      by_test _ refl _ refl e
    where
      put : Db
      put =
          put_window ledger account_of default_window max_window event window organiser_id
            request_id at db

      by_test :
          (b : Bool)
          → is_out ledger account_of default_window max_window window ≡ b
          → (owned : Try Event) → owned_event ledger account_of organiser_id event ≡ owned
          → (if b
                then throw (refused_request bad_request none)
                else (lift owned >>= λ (_ : Event).
                    modify (λ d.
                      put_window ledger account_of default_window max_window event window
                        organiser_id request_id at d)
                    >> (get >>= λ d.
                        pure (read_window ledger account_of default_window max_window event d))))
              db
            ≡ done r db'
          → (min_pass_window_ms ≤ window)
            × (window ≤ max_window)
            × (r.window_ms ≡ window)
            × ((read_window ledger account_of default_window max_window event db').window_ms
                ≡ window)
            × (read_window ledger account_of default_window max_window other db'
                ≡ read_window ledger account_of default_window max_window other db)
      by_test true out owned own h = absurd (cc h)
      by_test false out (fail x) own h = absurd (cc h)
      by_test false out (ok ev) own h =
          let (low, high) = in_bounds window out in
          let same_db : put ≡ db' = ap after h in
          let answer : read_window ledger account_of default_window max_window event put ≡ r =
            cc h in
          let read = put-read event window organiser_id request_id at db in
          (
            low,
            high,
            ap (λ (x : EventPassWindow). x.window_ms) (sym answer) ∙ read,
            rw (← same_db) read,
            rw (← same_db) (put-other event other window organiser_id request_id at db differ),
          )

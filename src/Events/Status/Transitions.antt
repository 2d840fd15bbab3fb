-- ===== src/Events/Status/Transitions.antt =====
-- What becomes of an event's sales when its status is changed.
use kippu_api.Base.{ℕ, zero, suc, ◌≡◌, refl, sym, ap, ◌∙◌, Bool, true, false, not, Option}
use kippu_api.Store.{
  Error, Try, ok, fail, Event, EventStatus, active, sealed, cancelled, finished, Answer, found,
  refused, Ledger, Db, M, Outcome, done, threw, after, ◌>>=◌, lift, spec, Stays, bound, bind-Stays,
  pure-Stays,
}
use kippu_api.Sales.Allocation.{sales_closed}
use kippu_api.Sales.Audit.{CheckoutCause}
use kippu_api.Events.Ownership.{owned_event}
use kippu_api.Events.Status.{
  SaleActions, SaleLaws, StatusChanged, retry, settle_status, submit, record_refunds, seal,
  cancel_current, cancel, finish,
}

-- Whether the ledger gave its refusal to a submission.
abbrev pub is_refusal : Try (Answer ℕ) → Bool
is_refusal (ok (refused _)) = true
is_refusal _ = false

module _ (ledger : Ledger) (account_of : ℕ → Option ℕ) (actions : SaleActions)
    (laws : SaleLaws actions) (cause : CheckoutCause) (event : ℕ) where
  closed_after_write :
      (status : EventStatus) (write : Try (Answer ℕ)) (now : Db)
      → sales_closed event now ≡ true
      → sales_closed event (
          after (
            (lift write >>= λ answer.
            settle_status ledger account_of actions cause event status true answer)
              now))
        ≡ not (is_refusal write)
  unfolding settle_status
  closed_after_write status (fail e) now closed = closed
  closed_after_write status (ok (found cursor)) now closed = closed
  closed_after_write status (ok (refused code)) now closed =
      reopened (actions.reopen_sales event cause now) (laws.reopens event cause now)
    where
      reopened :
          (o : Outcome (Unit {0}))
          → sales_closed event (after o) ≡ false
          → sales_closed event (
              after {A = StatusChanged}
                (elim o [ done a db' ↦ threw (spec code) db' | threw e db' ↦ threw e db' ]))
            ≡ false
      reopened (done u db') h = h
      reopened (threw e db') h = h

  submit-closed :
      (status : EventStatus) (write : Try (Answer ℕ)) (db db' : Db)
      → actions.release_all event cause db ≡ done tt db'
      → sales_closed event
          (after (submit ledger account_of actions cause event status true write db))
        ≡ not (is_refusal write)
  unfolding submit
  submit-closed status write db db' e =
      let closed : sales_closed event db' ≡ true =
        sym (ap (λ o. sales_closed event (after o)) e) ∙ laws.closes event cause db in
      rw (e, ◌>>=◌) (closed_after_write status write db' closed)

  submit-same :
      (status : EventStatus) (write : Try (Answer ℕ)) (db : Db)
      → after (submit ledger account_of actions cause event status false write db) ≡ db
  unfolding submit settle_status
  submit-same status (fail e) db = refl
  submit-same status (ok (found cursor)) db = refl
  submit-same status (ok (refused code)) db = refl

  tried :
      (P : Db → Type 0) (o : Outcome (Unit {0})) (again : Error → M (Unit {0}))
      → P (after o)
      → ((e : Error) → Stays P (again e))
      → P (after (elim o [ done u db' ↦ done u db' | threw e' db' ↦ again e' db' ]))
  unfolding Stays
  tried P (done u db') again q h = q
  tried P (threw e' db') again q h = h e' db' q

  -- Recording refunds neither closes nor reopens sales, however often it is tried.
  retry-Stays :
      (P : Db → Type 0) (m : M (Unit {0})) (n : ℕ) (e : Error) → Stays P m → Stays P (retry n m e)
  unfolding retry Stays
  retry-Stays P m zero e h db p = p
  retry-Stays P m (suc n) e h db p =
      tried P (m db) (retry n m) (h db p) (λ e'. retry-Stays P m n e' h)

  refunds-Stays :
      (b : Bool)
      → Stays
          (λ db. sales_closed event db ≡ b)
          (record_refunds ledger account_of actions cause event)
  unfolding record_refunds Stays
  refunds-Stays b = retry-Stays _ _ _ _ recorded
    where
      recorded :
          Stays (λ db. sales_closed event db ≡ b) (actions.record_cancellation_refunds event cause)
      recorded db p = laws.refunds_leave event cause db ∙ p

  cancel-closed :
      (write : Try (Answer ℕ)) (b : Bool) (db : Db)
      → sales_closed event
          (after (submit ledger account_of actions cause event cancelled true write db))
        ≡ b
      → sales_closed event
          (after (cancel_current ledger account_of actions cause event active write db))
        ≡ b
  unfolding cancel_current
  cancel-closed write b db h =
      bound (λ d. sales_closed event d ≡ b)
        (submit ledger account_of actions cause event cancelled true write db) _ h
        (λ changed. bind-Stays _ _ _ (refunds-Stays b) (λ _. pure-Stays _ changed))

  -- Sealing, finishing or cancelling an Active event of the organiser's, where releasing its sales
  -- returns: they are closed in the store that the call leaves, unless the ledger refused the new
  -- status, and then they are open, whether this call or an earlier one had closed them. A submission
  -- that got no answer leaves them closed.
  pub transitions-closed :
      (organiser_id : ℕ) (ev : Event) (write : Try (Answer ℕ)) (db db' : Db)
      → owned_event ledger account_of organiser_id event ≡ ok ev
      → ev.status ≡ active
      → actions.release_all event cause db ≡ done tt db'
      → (sales_closed event
            (after (seal ledger account_of actions cause event organiser_id write db))
          ≡ not (is_refusal write))
        × (sales_closed event
              (after (finish ledger account_of actions cause event organiser_id write db))
            ≡ not (is_refusal write))
        × (sales_closed event
              (after (cancel ledger account_of actions cause event organiser_id write db))
            ≡ not (is_refusal write))
  unfolding seal finish cancel
  transitions-closed organiser_id ev write db db' own on_sale e =
      rw (own, lift, ◌>>=◌, on_sale)
        (
          submit-closed sealed write db db' e,
          submit-closed finished write db db' e,
          cancel-closed write _ db (submit-closed cancelled write db db' e),
        )

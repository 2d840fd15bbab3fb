-- ===== src/Proofs.antt =====
-- src/proofs/service.ts: an organiser's request for a higher capacity, its artefact, and the decision of a
-- reviewer. What `checkArtefact` made of the artefact is an argument of the request, and so is what
-- became of putting it into the private storage; `write` is what became of the signed
-- `setEventCapacity`. An artefact is stored under its request's id, which its key contains; an id that
-- is no UUID is one that no row has.
pub mod Decided
pub mod Single
use kippu_api.Base.{
  ℕ, ◌≡◌, Bool, true, false, not, ◌&&◌, ◌||◌, Option, none, some, List, [], ◌∷◌, ◌==◌, ltb,
  if◌then◌else◌, is_some, append, exists_where, find_where, select_where, update_where, order_by,
}
use kippu_api.Store.{
  spec, refused_request, bad_request, not_found, conflict, decided_reason, pending_reason,
  artefact_reason, not_an_increase, failure, Try, ok, fail, Answer, Ledger, Event, On, ◌>>=◌, ◌>>◌,
  get, modify, pure, throw, lift, answered, in_transaction,
}
use kippu_api.Events.Ownership.{owned_event}

pub data ProofStatus : Type 0 where
  pending approved rejected : ProofStatus

abbrev pub is_pending : ProofStatus → Bool
is_pending pending = true
is_pending _ = false

-- An artefact that passed its check.
pub record Artefact : Type 0 where
  pub media_type : ℕ
  pub bytes : ℕ
  pub size : ℕ

pub record ProofRow : Type 0 where
  pub id : ℕ
  pub event : ℕ
  pub organiser_id : ℕ
  pub capacity : Option ℕ
  pub artefact_media_type : ℕ
  pub artefact_size : ℕ
  pub request_id : ℕ
  pub requested_at : ℕ
  pub status : ProofStatus
  pub reviewer_id : Option ℕ
  pub decision_request_id : Option ℕ
  pub decided_at : Option ℕ
  pub proof_id : Option ℕ
  pub receipt_cursor : Option ℕ

-- An object of the artefacts' storage.
pub record StoredArtefact : Type 0 where
  pub key : ℕ
  pub bytes : ℕ

pub record Proofs : Type 0 where
  pub rows : List ProofRow
  pub artefacts : List StoredArtefact

-- Who decides, with the request that the decision is audited as.
pub record ReviewerCaller : Type 0 where
  pub reviewer_id : ℕ
  pub request_id : ℕ

abbrev pub has_proof_id : ℕ → ProofRow → Bool
has_proof_id id r = r.id == id

abbrev pub is_event_pending : ℕ → ProofRow → Bool
is_event_pending event r = (r.event == event) && is_pending r.status

abbrev pub is_pending_of : ℕ → ProofRow → Bool
is_pending_of id r = (r.id == id) && is_pending r.status

-- A higher bound, or no bound in place of one.
unfoldable pub is_increase : Option ℕ → Option ℕ → Bool
is_increase none requested = false
is_increase (some current) none = true
is_increase (some current) (some requested) = ltb current requested

abbrev pub known_proof : Option ProofRow → Try ProofRow
known_proof none = fail (refused_request not_found none)
known_proof (some r) = ok r

abbrev pub checked_artefact : Option Artefact → Try Artefact
checked_artefact none = fail (refused_request bad_request (some artefact_reason))
checked_artefact (some x) = ok x

abbrev pub check_increase : Event → Option ℕ → Try (Unit {0})
check_increase ev capacity =
    if is_increase ev.max_capacity capacity
    then ok tt
    else fail (refused_request bad_request (some not_an_increase))

abbrev pub new_proof : ℕ → ℕ → ℕ → Option ℕ → Artefact → ℕ → ℕ → ProofRow
new_proof id event organiser_id capacity artefact request_id at = record {
  id = id;
  event = event;
  organiser_id = organiser_id;
  capacity = capacity;
  artefact_media_type = artefact.media_type;
  artefact_size = artefact.size;
  request_id = request_id;
  requested_at = at;
  status = pending;
  reviewer_id = none;
  decision_request_id = none;
  decided_at = none;
  proof_id = none;
  receipt_cursor = none;
}

-- The INSERT, which the index of the pending requests of an event refuses a second row.
unfoldable pub insert_proof : ProofRow → On Proofs ProofRow
insert_proof r = do
  s ← get
  if exists_where (is_event_pending r.event) s.rows
      then throw (refused_request conflict (some pending_reason))
      else (modify (λ t. record t { rows = append r t.rows }) >> pure r)

abbrev pub put_artefact : ℕ → Artefact → Proofs → Proofs
put_artefact key x s = record s { artefacts = record { key = key; bytes = x.bytes } ∷ s.artefacts }

abbrev pub approve_row : ReviewerCaller → ℕ → ℕ → ℕ → ProofRow → ProofRow
approve_row by proof cursor at r = record r {
  status = approved;
  reviewer_id = some by.reviewer_id;
  decision_request_id = some by.request_id;
  decided_at = some at;
  proof_id = some proof;
  receipt_cursor = some cursor;
}

abbrev pub reject_row : ReviewerCaller → ℕ → ProofRow → ProofRow
reject_row by at r = record r {
  status = rejected;
  reviewer_id = some by.reviewer_id;
  decision_request_id = some by.request_id;
  decided_at = some at;
}

abbrev pub change_proofs : (ProofRow → Bool) → (ProofRow → ProofRow) → Proofs → Proofs
change_proofs q f s = record s { rows = update_where q f s.rows }

abbrev pub is_newer : ProofRow → ProofRow → Bool
is_newer r x =
    ltb x.requested_at r.requested_at || ((r.requested_at == x.requested_at) && not (ltb x.id r.id))

abbrev pub is_earlier_request : ProofRow → ProofRow → Bool
is_earlier_request r x =
    ltb r.requested_at x.requested_at || ((r.requested_at == x.requested_at) && not (ltb x.id r.id))

module _ (ledger : Ledger) (account_of : ℕ → Option ℕ) where
  unfoldable pub request_increase :
      ℕ → ℕ → ℕ → Option ℕ → Option Artefact → ℕ → Try (Unit {0}) → ℕ → On Proofs ProofRow
  request_increase organiser_id request_id event capacity artefact id put at = do
    x ← lift (checked_artefact artefact)
    ev ← lift (owned_event ledger account_of organiser_id event)
    _ ← lift (check_increase ev capacity)
    s ← get
    if exists_where (is_event_pending event) s.rows
        then throw (refused_request conflict (some pending_reason))
        else (lift put >>= λ _.
            modify (put_artefact id x)
            >> insert_proof (new_proof id event organiser_id capacity x request_id at))

  unfoldable pub list_proofs : ℕ → ℕ → On Proofs (List ProofRow)
  list_proofs organiser_id event = do
    _ ← lift (owned_event ledger account_of organiser_id event)
    s ← get
    pure (order_by is_newer (select_where (λ (r : ProofRow). r.event == event) s.rows))

unfoldable pub queue : On Proofs (List ProofRow)
queue = do
  s ← get
  pure (order_by is_earlier_request (select_where (λ (r : ProofRow). is_pending r.status) s.rows))

abbrev pub stored_artefact : Option StoredArtefact → Try StoredArtefact
stored_artefact none = fail failure
stored_artefact (some x) = ok x

unfoldable pub find_proof : ℕ → On Proofs ProofRow
find_proof id = get >>= λ s. lift (known_proof (find_where (has_proof_id id) s.rows))

unfoldable pub artefact_of : ℕ → On Proofs StoredArtefact
artefact_of id = do
  r ← find_proof id
  s ← get
  lift (stored_artefact (find_where (λ (x : StoredArtefact). x.key == r.id) s.artefacts))

-- What the ledger answers to the signed write, by the organiser, the event, the capacity and the proof.
abbrev pub CapacityWrite : Type 0
CapacityWrite = ℕ → ℕ → Option ℕ → ℕ → Try (Answer ℕ)

abbrev pub approve_pending : CapacityWrite → ReviewerCaller → ℕ → ℕ → ProofRow → On Proofs ProofRow
approve_pending write by proof at r =
    if is_pending r.status
    then (lift (write r.organiser_id r.event r.capacity proof) >>= λ answer.
        answered answer >>= λ cursor.
        modify (change_proofs (has_proof_id r.id) (approve_row by proof cursor at))
        >> pure (approve_row by proof cursor at r))
    else throw (refused_request conflict (some decided_reason))

unfoldable pub approve : CapacityWrite → ReviewerCaller → ℕ → ℕ → ℕ → On Proofs ProofRow
approve write by id proof at = find_proof id >>= λ _.
    in_transaction (find_proof id >>= λ r. approve_pending write by proof at r)

abbrev pub reject_pending : ReviewerCaller → ℕ → ℕ → Option ProofRow → On Proofs ProofRow
reject_pending by id at none = throw (refused_request conflict (some decided_reason))
reject_pending by id at (some r) =
    modify (change_proofs (is_pending_of id) (reject_row by at)) >> pure (reject_row by at r)

unfoldable pub reject : ReviewerCaller → ℕ → ℕ → On Proofs ProofRow
reject by id at = find_proof id >>= λ _.
    get >>= λ s. reject_pending by id at (find_where (is_pending_of id) s.rows)

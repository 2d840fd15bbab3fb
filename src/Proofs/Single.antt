-- ===== src/Proofs/Single.antt =====
-- An event has at most one request that waits for its decision.
use kippu_api.Base.{
  ℕ, ◌≤◌, ◌+◌, ◌≡◌, refl, inl, inr, Bool, true, false, Option, none, some, List, [], ◌∷◌, arith,
  ◌==◌, Bool-cases, append, exists_where, count_where, one_if, All_pure, count-update-le,
  count-zero_of_not_exists, Keeps, ==_iff,
}
use kippu_api.Store.{Try, Ledger, Stays, staying}
use kippu_api.Proofs.{
  ProofRow, Proofs, Artefact, ReviewerCaller, CapacityWrite, has_proof_id, is_pending_of,
  is_event_pending, put_artefact, approve_row, reject_row, change_proofs, request_increase,
  insert_proof, find_proof, approve, reject_pending, reject,
}
use kippu_api.Proofs.Decided.{asks, approves, rejects, ProofSteps, ends, goes_on}

count-append :
    (p : ProofRow → Bool) (r : ProofRow) (xs : List ProofRow)
    → count_where p (append r xs) ≡ one_if (p r) + count_where p xs
unfolding count_where
count-append p r [] = refl
count-append p r (x ∷ xs) = omega (arith, count-append p r xs)

one_if_le : (b : Bool) → one_if b ≤ 1
one_if_le true = omega arith
one_if_le false = omega arith

module _ (event : ℕ) where
  unfoldable pub Single : Proofs → Type 0
  Single s = count_where (is_event_pending event) s.rows ≤ 1

  append-Single :
      (r : ProofRow) (s : Proofs)
      → Single s
      → exists_where (is_event_pending r.event) s.rows ≡ false
      → count_where (is_event_pending event) (append r s.rows) ≤ 1
  unfolding Single
  append-Single r s k free = elim (Bool-cases (r.event == event)) [
    | inl same ↦
        let is_event = (==_iff r.event event).0 same in
        let none_waits =
          count-zero_of_not_exists (is_event_pending event) s.rows (rw (← is_event) free) in
        let added = count-append (is_event_pending event) r s.rows in
        let one = one_if_le (is_event_pending event r) in omega (arith, none_waits, added, one)
    | inr other ↦
        let added = count-append (is_event_pending event) r s.rows in
        let zero_of : one_if (is_event_pending event r) ≡ 0 = rw other refl in
        omega (arith, added, zero_of)
  ]

  inserted-Single : (r : ProofRow) → Stays Single (insert_proof r)
  unfolding Stays insert_proof Single
  inserted-Single r s k = elim (Bool-cases (exists_where (is_event_pending r.event) s.rows)) [
    | inl taken ↦ rw taken k
    | inr free ↦ rw free (append-Single r s k free)
  ]

  stored-Single : (key : ℕ) (y : Artefact) (s : Proofs) → Single s → Single (put_artefact key y s)
  unfolding Single
  stored-Single key y s k = k

  approved-Single :
      (by : ReviewerCaller) (id proof at cursor : ℕ) (s : Proofs)
      → Single s
      → Single (change_proofs (has_proof_id id) (approve_row by proof cursor at) s)
  unfolding Single
  approved-Single by id proof at cursor s k =
      let p = is_event_pending event in
      let kept = count-update-le p (has_proof_id id) (approve_row by proof cursor at) s.rows (
        All_pure (Keeps p (has_proof_id id) (approve_row by proof cursor at)) (λ r e. ground arith)
          s.rows) in
      omega arith

  rejected-Single :
      (by : ReviewerCaller) (id at : ℕ) (s : Proofs)
      → Single s
      → Single (change_proofs (is_pending_of id) (reject_row by at) s)
  unfolding Single
  rejected-Single by id at s k =
      let p = is_event_pending event in
      let kept =
        count-update-le p (is_pending_of id) (reject_row by at) s.rows
          (All_pure (Keeps p (is_pending_of id) (reject_row by at)) (λ r e. ground arith) s.rows) in
      omega arith

  approve-Single :
      (write : CapacityWrite) (by : ReviewerCaller) (id proof at : ℕ)
      → Stays Single (approve write by id proof at)
  unfolding approve find_proof
  approve-Single write by id proof at = search (staying, approved-Single) depth 20

  reject_pending-Single :
      (by : ReviewerCaller) (id at : ℕ) (o : Option ProofRow)
      → Stays Single (reject_pending by id at o)
  unfolding Stays
  reject_pending-Single by id at none s k = k
  reject_pending-Single by id at (some r) s k = rejected-Single by id at s k

  reject-Single : (by : ReviewerCaller) (id at : ℕ) → Stays Single (reject by id at)
  unfolding reject find_proof
  reject-Single by id at = search (staying, reject_pending-Single) depth 20

  request-Single :
      (ledger : Ledger) (account_of : ℕ → Option ℕ) (organiser_id request_id asked : ℕ)
      (capacity : Option ℕ) (artefact : Option Artefact) (id : ℕ) (put : Try (Unit {0})) (at : ℕ)
      → Stays Single (
          request_increase ledger account_of organiser_id request_id asked capacity artefact id put
            at)
  unfolding request_increase
  request-Single ledger account_of organiser_id request_id asked capacity artefact id put at =
      search (staying, inserted-Single, stored-Single) depth 20

  module _ (ledger : Ledger) (account_of : ℕ → Option ℕ) (write : CapacityWrite) where
    -- At most one request of an event waits for its decision, under any sequence of requests,
    -- approvals and rejections.
    pub ProofSteps-Single :
        {s t : Proofs} → ProofSteps ledger account_of write s t → Single s → Single t
    unfolding Stays
    ProofSteps-Single (ends s) k = k
    ProofSteps-Single
          (goes_on (asks organiser_id request_id asked capacity artefact id put at s) steps) k =
        ProofSteps-Single steps (
          request-Single ledger account_of organiser_id request_id asked capacity artefact id put at
            s k)
    ProofSteps-Single (goes_on (approves by id proof at s) steps) k =
        ProofSteps-Single steps (approve-Single write by id proof at s k)
    ProofSteps-Single (goes_on (rejects by id at s) steps) k =
        ProofSteps-Single steps (reject-Single by id at s k)

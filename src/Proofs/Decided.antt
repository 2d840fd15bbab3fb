-- ===== src/Proofs/Decided.antt =====
-- A decision on a capacity proof is final, and an approval is of what was asked for.
use kippu_api.Base.{
  ℕ, ◌≡◌, refl, sym, ◌∙◌, subst, ap, some-injective, inl, inr, Bool, true, false, Option, none,
  some, List, [], ◌∷◌, arith, ◌==◌, ==_iff, Bool-cases, append, exists_where, find_where,
  update_where,
}
use kippu_api.Store.{
  refused_request, conflict, decided_reason, Try, ok, fail, Answer, found, refused, Ledger, done,
  threw, after, ◌>>=◌, ◌>>◌, modify, pure, lift, answered, in_transaction, On, Stays, staying,
  in_transaction-Stays,
}
use kippu_api.Proofs.{
  ProofRow, Proofs, Artefact, ReviewerCaller, CapacityWrite, is_pending, has_proof_id,
  is_pending_of, known_proof, approve_row, is_event_pending, put_artefact, reject_row,
  change_proofs, request_increase, insert_proof, find_proof, approve_pending, approve,
  reject_pending, reject,
}

module _ {A : Type 0} (p : A → Bool) where
  find-append :
      (x y : A) (xs : List A) → find_where p xs ≡ some x → find_where p (append y xs) ≡ some x
  unfolding find_where
  find-append x y [] e = absurd (cc e)
  find-append x y (z ∷ xs) e = elim (Bool-cases (p z)) [
    | inl hit ↦ rw hit (rw hit at e)
    | inr miss ↦ rw miss (find-append x y xs (rw miss at e))
  ]

  -- An update that leaves the row that is found, and changes no row into one that is found.
  find-update :
      (q : A → Bool) (f : A → A) (x : A)
      → q x ≡ false
      → ((y : A) → p (f y) ≡ p y)
      → (xs : List A) → find_where p xs ≡ some x
      → find_where p (update_where q f xs) ≡ some x
  unfolding find_where update_where
  find-update q f x out same [] e = absurd (cc e)
  find-update q f x out same (y ∷ xs) e = elim (Bool-cases (p y)) [
    | inl hit ↦
        let is_x : y ≡ x = some-injective _ _ (rw hit at e) in
        let kept : q y ≡ false = rw is_x out in rw (kept, hit) (rw hit at e)
    | inr miss ↦
        let rest = find-update q f x out same xs (rw miss at e) in
        elim (Bool-cases (q y)) [
          | inl changed ↦ rw (changed, same y, miss) rest
          | inr kept ↦ rw (kept, miss) rest
        ]
  ]

module _ (p : ProofRow → Bool) where
  passes : (xs : List ProofRow) {r : ProofRow} → find_where p xs ≡ some r → p r ≡ true
  unfolding find_where
  passes [] e = absurd (cc e)
  passes (y ∷ xs) {r} e = elim (Bool-cases (p y)) [
    | inl hit ↦ subst (λ z. p z ≡ true) (some-injective _ _ (rw hit at e)) hit
    | inr miss ↦ passes xs (rw miss at e)
  ]

module _ (id : ℕ) (x : ProofRow) where
  -- The row of the request is `x`.
  unfoldable pub Standing : Proofs → Type 0
  Standing s = find_where (has_proof_id id) s.rows ≡ some x

  module _ (out : is_pending x.status ≡ false) where
    -- Another request's row is not this one.
    other_row :
        (id' : ℕ) (r : ProofRow) (s : Proofs)
        → Standing s
        → find_where (has_proof_id id') s.rows ≡ some r
        → is_pending r.status ≡ true
        → (x.id == r.id) ≡ false
    unfolding Standing
    other_row id' r s k e waiting = elim (Bool-cases (x.id == r.id)) [
      | inl same ↦
          let x_id = (==_iff x.id id).0 (passes (has_proof_id id) s.rows k) in
          let r_id = (==_iff r.id id').0 (passes (has_proof_id id') s.rows e) in
          let same_ids = (==_iff x.id r.id).0 same in
          let ids : id' ≡ id = omega arith in
          let is_x : r ≡ x = some-injective _ _ (sym e ∙ rw ids k) in
          absurd (cc (rw is_x at waiting))
      | inr other ↦ other
    ]

    approved-Standing :
        (by : ReviewerCaller) (proof at cursor : ℕ) (r : ProofRow) (s : Proofs)
        → Standing s
        → (x.id == r.id) ≡ false
        → Standing (change_proofs (has_proof_id r.id) (approve_row by proof cursor at) s)
    unfolding Standing
    approved-Standing by proof at cursor r s k other =
        find-update (has_proof_id id) (has_proof_id r.id) (approve_row by proof cursor at) x other
          (λ y. refl) s.rows k

    written-Standing :
        (by : ReviewerCaller) (proof at : ℕ) (r : ProofRow) (s : Proofs) (t : Try (Answer ℕ))
        → Standing s
        → (x.id == r.id) ≡ false
        → Standing (
            after (
              (lift t >>= λ answer. answered answer >>= λ cursor.
              modify (change_proofs (has_proof_id r.id) (approve_row by proof cursor at))
              >> pure (approve_row by proof cursor at r))
                s))
    written-Standing by proof at r s (ok (found cursor)) k other =
        approved-Standing by proof at cursor r s k other
    written-Standing by proof at r s (ok (refused code)) k other = k
    written-Standing by proof at r s (fail e) k other = k

    approve_pending-Standing :
        (write : CapacityWrite) (by : ReviewerCaller) (proof at id' : ℕ) (r : ProofRow) (s : Proofs)
        → Standing s
        → find_where (has_proof_id id') s.rows ≡ some r
        → Standing (after (approve_pending write by proof at r s))
    approve_pending-Standing write by proof at id' r s k e =
        elim (Bool-cases (is_pending r.status)) [
          | inl waiting ↦ rw waiting (
              written-Standing by proof at r s (write r.organiser_id r.event r.capacity proof) k
                (other_row id' r s k e waiting))
          | inr closed ↦ rw closed k
        ]

    found-Standing :
        {B : Type 0} (id' : ℕ) (f : ProofRow → On Proofs B) (s : Proofs) (o : Option ProofRow)
        → Standing s
        → find_where (has_proof_id id') s.rows ≡ o
        → ((r : ProofRow)
            → find_where (has_proof_id id') s.rows ≡ some r
            → Standing (after (f r s)))
        → Standing (after ((lift (known_proof o) >>= f) s))
    found-Standing id' f s none k e h = k
    found-Standing id' f s (some r) k e h = h r e

    find_proof-Standing :
        {B : Type 0} (id' : ℕ) (f : ProofRow → On Proofs B) (s : Proofs)
        → Standing s
        → ((r : ProofRow)
            → find_where (has_proof_id id') s.rows ≡ some r
            → Standing (after (f r s)))
        → Standing (after ((find_proof id' >>= f) s))
    unfolding find_proof
    find_proof-Standing id' f s k h = found-Standing id' f s _ k refl h

    pub approve-Standing :
        (write : CapacityWrite) (by : ReviewerCaller) (id' proof at : ℕ)
        → Stays Standing (approve write by id' proof at)
    unfolding approve Stays
    approve-Standing write by id' proof at s k = find_proof-Standing id' _ s k (λ _ _.
        in_transaction-Stays Standing (find_proof id' >>= λ r. approve_pending write by proof at r)
          (λ t j.
            find_proof-Standing id' _ t j
              (λ r e. approve_pending-Standing write by proof at id' r t j e))
          s k)

    reject_pending-Standing :
        (by : ReviewerCaller) (id' at : ℕ) (s : Proofs) (o : Option ProofRow)
        → Standing s
        → Standing (after (reject_pending by id' at o s))
    unfolding Standing
    reject_pending-Standing by id' at s none k = k
    reject_pending-Standing by id' at s (some r) k =
        find-update (has_proof_id id) (is_pending_of id') (reject_row by at) x (ground arith)
          (λ y. refl) s.rows k

    pub reject-Standing : (by : ReviewerCaller) (id' at : ℕ) → Stays Standing (reject by id' at)
    unfolding reject Stays
    reject-Standing by id' at s k =
        find_proof-Standing id' _ s k (λ _ _. reject_pending-Standing by id' at s _ k)

    inserted-Standing : (r : ProofRow) → Stays Standing (insert_proof r)
    unfolding Stays insert_proof Standing
    inserted-Standing r s k = elim (Bool-cases (exists_where (is_event_pending r.event) s.rows)) [
      | inl taken ↦ rw taken k
      | inr free ↦ rw free (find-append (has_proof_id id) x r s.rows k)
    ]

    stored-Standing :
        (key : ℕ) (y : Artefact) (s : Proofs) → Standing s → Standing (put_artefact key y s)
    unfolding Standing
    stored-Standing key y s k = k

    pub request-Standing :
        (ledger : Ledger) (account_of : ℕ → Option ℕ) (organiser_id request_id event : ℕ)
        (capacity : Option ℕ) (artefact : Option Artefact) (new_id : ℕ) (put : Try (Unit {0}))
        (at : ℕ)
        → Stays Standing (
            request_increase ledger account_of organiser_id request_id event capacity artefact
              new_id put at)
    unfolding request_increase
    request-Standing ledger account_of organiser_id request_id event capacity artefact new_id put
          at =
        search (staying, inserted-Standing, stored-Standing) depth 20

finds :
    (id : ℕ) (x : ProofRow) (t : Proofs) (o : Option ProofRow)
    → o ≡ some x
    → lift (known_proof o) t ≡ done x t
finds id x t none e = absurd (cc e)
finds id x t (some y) e = ap (λ z. done z t) (some-injective _ _ e)

find_proof-finds :
    (id : ℕ) (x : ProofRow) (t : Proofs)
    → find_where (has_proof_id id) t.rows ≡ some x
    → find_proof id t ≡ done x t
unfolding find_proof
find_proof-finds id x t e = finds id x t _ e

decided_refused :
    (id : ℕ) (x : ProofRow) (write : CapacityWrite) (by : ReviewerCaller) (proof at : ℕ)
    (t : Proofs)
    → find_where (has_proof_id id) t.rows ≡ some x
    → is_pending x.status ≡ false
    → approve write by id proof at t ≡ threw (refused_request conflict (some decided_reason)) t
unfolding approve
decided_refused id x write by proof at t row out =
    rw (◌>>=◌, find_proof-finds id x t row)
      (rw (in_transaction, ◌>>=◌, find_proof-finds id x t row) (rw out refl))

-- The calls on the requests, one after another, in any order.
module _ (ledger : Ledger) (account_of : ℕ → Option ℕ) (write : CapacityWrite) where
  pub data ProofStep : Proofs → Proofs → Type 0 where
    asks :
        (organiser_id request_id event : ℕ) (capacity : Option ℕ) (artefact : Option Artefact)
        (id : ℕ) (put : Try (Unit {0})) (at : ℕ) (s : Proofs)
        → ProofStep s (
            after (
              request_increase ledger account_of organiser_id request_id event capacity artefact id
                put at s))
    approves :
        (by : ReviewerCaller) (id proof at : ℕ) (s : Proofs)
        → ProofStep s (after (approve write by id proof at s))
    rejects :
        (by : ReviewerCaller) (id at : ℕ) (s : Proofs) → ProofStep s (after (reject by id at s))

  pub data ProofSteps : Proofs → Proofs → Type 0 where
    ends : (s : Proofs) → ProofSteps s s
    goes_on : {s t u : Proofs} → ProofStep s t → ProofSteps t u → ProofSteps s u

  module _ (id : ℕ) (x : ProofRow) (out : is_pending x.status ≡ false) where
    step-Standing : {s t : Proofs} → ProofStep s t → Standing id x s → Standing id x t
    unfolding Stays
    step-Standing (asks organiser_id request_id event capacity artefact new_id put at s) k =
        request-Standing id x out ledger account_of organiser_id request_id event capacity artefact
          new_id put at s k
    step-Standing (approves by id' proof at s) k =
        approve-Standing id x out write by id' proof at s k
    step-Standing (rejects by id' at s) k = reject-Standing id x out by id' at s k

    steps-Standing : {s t : Proofs} → ProofSteps s t → Standing id x s → Standing id x t
    steps-Standing (ends s) k = k
    steps-Standing (goes_on step steps) k = steps-Standing steps (step-Standing step k)

  -- A decision is final: once a request is approved or rejected, its row stays as it is, whatever is
  -- asked, approved or rejected afterwards, and approving it is refused and changes nothing.
  pub decision_final :
      (id : ℕ) (x : ProofRow) (by : ReviewerCaller) (proof at : ℕ) (s t : Proofs)
      → find_where (has_proof_id id) s.rows ≡ some x
      → is_pending x.status ≡ false
      → ProofSteps s t
      → (find_where (has_proof_id id) t.rows ≡ some x)
        × (approve write by id proof at t
            ≡ threw (refused_request conflict (some decided_reason)) t)
  unfolding Standing
  decision_final id x by proof at s t row out steps =
      let later : find_where (has_proof_id id) t.rows ≡ some x =
        steps-Standing id x out steps row in
      (later, decided_refused id x write by proof at t later out)

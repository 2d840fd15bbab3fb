-- ===== src/Examples/Proving.antt =====
-- Requests for a higher capacity: one decided, and one asked for.
use kippu_api.Base.{◌≡◌, refl, none, some, [], ◌∷◌, arith, find_where, count_where}
use kippu_api.Store.{refused_request, conflict, decided_reason, ok, found, threw, after}
use kippu_api.Proofs.{
  ProofRow, Proofs, ReviewerCaller, CapacityWrite, approved, pending, has_proof_id, approve, reject,
}
use kippu_api.Proofs.Decided.{ProofSteps, approves, rejects, ends, goes_on, decision_final}
use kippu_api.Proofs.Single.{Single, ProofSteps-Single}
use kippu_api.Examples.Data.{ledger, accounts}

abbrev approved_row : ProofRow
approved_row = record {
  id = 8;
  event = 1;
  organiser_id = 3;
  capacity = some 500;
  artefact_media_type = 1;
  artefact_size = 2000;
  request_id = 21;
  requested_at = 100;
  status = approved;
  reviewer_id = some 4;
  decision_request_id = some 22;
  decided_at = some 200;
  proof_id = some 77;
  receipt_cursor = some 31;
}

abbrev pending_row : ProofRow
pending_row = record approved_row {
  id = 9;
  status = pending;
  reviewer_id = none;
  decision_request_id = none;
  decided_at = none;
  proof_id = none;
  receipt_cursor = none;
}

abbrev proofs : Proofs
proofs = record { rows = approved_row ∷ pending_row ∷ []; artefacts = [] }

abbrev reviewer : ReviewerCaller
reviewer = record { reviewer_id = 5; request_id = 23 }

-- The ledger accepts every capacity.
abbrev accepting : CapacityWrite
accepting organiser_id event capacity proof = ok (found 40)

-- The waiting request is rejected, and the approved one is tried again.
abbrev later_proofs : Proofs
later_proofs = after (approve accepting reviewer 8 78 310 (after (reject reviewer 9 300 proofs)))

abbrev later_steps : ProofSteps ledger accounts accepting proofs later_proofs
later_steps =
    goes_on (rejects reviewer 9 300 proofs) (goes_on (approves reviewer 8 78 310 _) (ends _))

decision_final_example :
    (find_where (has_proof_id 8) later_proofs.rows ≡ some approved_row)
    × (approve accepting reviewer 8 79 400 later_proofs
        ≡ threw (refused_request conflict (some decided_reason)) later_proofs)
unfolding find_where
decision_final_example =
    decision_final ledger accounts accepting 8 approved_row reviewer 79 400 proofs later_proofs refl
      refl later_steps

ProofSteps-Single_example : Single 1 later_proofs
unfolding Single count_where
ProofSteps-Single_example = ProofSteps-Single 1 ledger accounts accepting later_steps (omega arith)

-- ===== src/ProductionRelease/Gates.antt =====
-- `evaluate` of production_release/service.py: it runs a gate's checks, records the run and its
-- items, and moves the candidate's status.
use zhiniu.Prelude.{ℕ, suc, Option, none, some, List, [], ◌∷◌, ◌++◌, if◌then◌else◌}
use zhiniu.ProductionRelease.Models.{
  ReleaseStatus, draft, blocked, ready_closed, deployed_observing, ready_invites, GateType,
  closed_deployment, invite_activation, GateStatus, gate_passed, gate_blocked, passed, failed,
  GateCheck, ProductionReleaseCandidateRecord, ProductionReleaseGateItemRecord,
  ProductionReleaseGateRunRecord, Db,
}
use zhiniu.ProductionRelease.Environment.{Environment}
use zhiniu.ProductionRelease.Checks.{passes}
use zhiniu.ProductionRelease.Checks.Closed.{closed_deployment_checks}
use zhiniu.ProductionRelease.Checks.Invite.{invite_activation_checks}
use zhiniu.ProductionRelease.Tables.{
  ReleaseError, release_candidate_not_found, release_candidate_terminal,
  closed_deployment_gate_invalid_state, invite_activation_gate_invalid_state, Result, refused,
  committed, locked_candidate, set_status, is_terminal,
}

-- The states in which a gate may be evaluated, and the error otherwise.
abbrev pub gate_refusal : GateType → ReleaseStatus → Option ReleaseError
gate_refusal closed_deployment draft = none
gate_refusal closed_deployment blocked = none
gate_refusal closed_deployment ready_closed = none
gate_refusal closed_deployment status = some closed_deployment_gate_invalid_state
gate_refusal invite_activation deployed_observing = none
gate_refusal invite_activation ready_invites = none
gate_refusal invite_activation status = some invite_activation_gate_invalid_state

unfoldable pub gate_checks :
    GateType → Environment → Db → ProductionReleaseCandidateRecord → ℕ → List GateCheck
gate_checks closed_deployment env db candidate now =
    closed_deployment_checks env db.approvals candidate now
gate_checks invite_activation env db candidate now =
    invite_activation_checks env db.approvals candidate now

-- The rows of the checks; `draw` gives the identifiers.
abbrev item_rows :
    Environment → ℕ → ℕ → (ℕ → ℕ) → ℕ → List GateCheck → List ProductionReleaseGateItemRecord
item_rows env run_id finished_at draw i [] = []
item_rows env run_id finished_at draw i (item ∷ rest) =
    record {
      id = draw i;
      run_id = run_id;
      check_key = item.key;
      category = item.category;
      mandatory = item.mandatory;
      status = if item.passed then passed else failed;
      reason_code = item.reason_code;
      evidence_json = item.evidence;
      evidence_fingerprint = env.fingerprint item.evidence;
      checked_at = finished_at;
      expires_at = item.expires_at;
    }
    ∷ item_rows env run_id finished_at draw (suc i) rest

-- The status after a gate; a blocked invite gate leaves it.
unfoldable pub status_after : GateType → GateStatus → ReleaseStatus → ReleaseStatus
status_after closed_deployment gate_passed status = ready_closed
status_after closed_deployment gate_blocked status = blocked
status_after invite_activation gate_passed status = ready_invites
status_after invite_activation gate_blocked status = status

abbrev new_run :
    Environment
    → ProductionReleaseCandidateRecord
    → GateType
    → GateStatus
    → List GateCheck
    → ℕ
    → ℕ
    → ℕ
    → ProductionReleaseGateRunRecord
new_run env candidate gate_type status checks started_at finished_at fresh_id = record {
  id = fresh_id;
  candidate_id = candidate.id;
  gate_type = gate_type;
  status = status;
  result_fingerprint = env.result_fingerprint candidate.id gate_type status checks;
  started_at = started_at;
  finished_at = finished_at;
}

-- The rows that `evaluate` adds and the status that it sets, once the checks are known.
unfoldable pub record_gate :
    Environment
    → Db
    → ProductionReleaseCandidateRecord
    → GateType
    → List GateCheck
    → ℕ
    → ℕ
    → (ℕ → ℕ)
    → Db
record_gate env db candidate gate_type checks started_at finished_at draw =
    let status = if passes checks then gate_passed else gate_blocked in
    let run = new_run env candidate gate_type status checks started_at finished_at (draw 0) in
    record db {
      candidates =
          set_status candidate.id (status_after gate_type status candidate.status) db.candidates;
      runs = run ∷ db.runs;
      items = item_rows env (draw 0) finished_at draw 1 checks ++ db.items;
    }

unfoldable pub evaluate : Environment → Db → ℕ → GateType → ℕ → ℕ → (ℕ → ℕ) → Result
evaluate env db candidate_id gate_type started_at finished_at draw =
    elim (locked_candidate db candidate_id) [
      | none ↦ refused release_candidate_not_found
      | some candidate ↦
          if is_terminal candidate.status
          then refused release_candidate_terminal
          else elim (gate_refusal gate_type candidate.status) [
            | some error ↦ refused error
            | none ↦
                let checks = gate_checks gate_type env db candidate started_at in
                committed
                  (record_gate env db candidate gate_type checks started_at finished_at draw)
          ]
    ]

-- ===== src/ProductionRelease/Service.antt =====
-- `ProductionReleaseService` of production_release/service.py: create, approve
-- and record_event, and `evaluate` in Gates. Each is one transaction, which the lock on the candidate's row serialises; a
-- refusal leaves the tables as they were. The answers are read back from the tables.
pub mod Steps
pub mod Transitions
pub mod Approvals
pub mod Rules
pub mod Lifecycle
pub mod Terminal
use zhiniu.Prelude.{
  ℕ, zero, suc, Bool, true, false, not, ◌&&◌, ◌||◌, Option, none, some, List, [], ◌∷◌, ◌++◌, map,
  ◌==◌, if◌then◌else◌, find, any_by, strip,
}
use zhiniu.ProductionRelease.Models.{
  ReleaseStatus, draft, blocked, ready_closed, deployed_observing, ready_invites, released,
  rolled_back, rejected, GateType, closed_deployment, invite_activation, ApprovalRole, role_eq,
  ApprovalDecision, approved, declined, DeploymentEventType, deployed_event, released_event,
  failed_event, rolled_back_event, event_eq, GateStatus, gate_passed, gate_blocked, passed, failed,
  GateCheck, ProductionReleaseCandidateCreate, ProductionReleaseCandidateRecord,
  ProductionReleaseApprovalRecord, ProductionDeploymentEventRecord, ProductionReleaseGateItemRecord,
  ProductionReleaseGateRunRecord, Db,
}
use zhiniu.ProductionRelease.Environment.{Environment}
use zhiniu.ProductionRelease.Checks.{OperatorRole, approval_role_allowed, passes}
use zhiniu.ProductionRelease.Checks.Closed.{closed_deployment_checks}
use zhiniu.ProductionRelease.Checks.Invite.{invite_activation_checks}
use zhiniu.ProductionRelease.Tables.{
  ReleaseError, release_candidate_already_exists, release_candidate_not_found,
  release_candidate_terminal, closed_deployment_gate_invalid_state,
  invite_activation_gate_invalid_state, release_creator_cannot_approve,
  release_approval_role_not_allowed, release_approval_already_recorded,
  deployment_event_invalid_transition, closed_deployment_gate_no_longer_passes,
  invite_activation_gate_no_longer_passes, deployment_event_already_recorded, Result, refused,
  committed, locked_candidate, set_status, is_terminal,
}

-- The primary key and `uq_release_candidate_identity`
abbrev pub same_candidate :
    ProductionReleaseCandidateRecord → ProductionReleaseCandidateRecord → Bool
same_candidate a b =
    (a.id == b.id)
    || ((a.artifacts.commit_sha == b.artifacts.commit_sha)
        && (a.artifacts.configuration_fingerprint == b.artifacts.configuration_fingerprint))

abbrev pub new_candidate :
    ProductionReleaseCandidateCreate → ℕ → ℕ → ProductionReleaseCandidateRecord
new_candidate request actor_user_id fresh_id = record {
  id = fresh_id;
  status = draft;
  artifacts = request;
  created_by_user_id = actor_user_id;
}

unfoldable pub create : Db → ProductionReleaseCandidateCreate → ℕ → ℕ → Result
create db request actor_user_id fresh_id =
    let row = new_candidate request actor_user_id fresh_id in
    if any_by (same_candidate row) db.candidates
    then refused release_candidate_already_exists
    else committed (record db { candidates = row ∷ db.candidates })

-- The primary key, `uq_release_approval_role` and `uq_release_approval_actor`
abbrev pub same_approval : ProductionReleaseApprovalRecord → ProductionReleaseApprovalRecord → Bool
same_approval a b =
    (a.id == b.id)
    || ((a.candidate_id == b.candidate_id)
        && (role_eq a.approval_role b.approval_role || (a.actor_user_id == b.actor_user_id)))

abbrev pub is_declined : ApprovalDecision → Bool
is_declined declined = true
is_declined approved = false

abbrev pub new_approval :
    ℕ → ApprovalRole → ApprovalDecision → Option (List ℕ) → ℕ → ℕ → ProductionReleaseApprovalRecord
new_approval candidate_id approval_role decision note actor_user_id fresh_id = record {
  id = fresh_id;
  candidate_id = candidate_id;
  approval_role = approval_role;
  decision = decision;
  actor_user_id = actor_user_id;
  note = note;
}

unfoldable pub approve :
    Db → ℕ → ApprovalRole → ApprovalDecision → Option (List ℕ) → ℕ → OperatorRole → ℕ → Result
approve db candidate_id approval_role decision note actor_user_id operator_role fresh_id =
    elim (locked_candidate db candidate_id) [
      | none ↦ refused release_candidate_not_found
      | some candidate ↦
          if is_terminal candidate.status
          then refused release_candidate_terminal
          else if candidate.created_by_user_id == actor_user_id
          then refused release_creator_cannot_approve
          else if not (approval_role_allowed operator_role approval_role)
          then refused release_approval_role_not_allowed
          else let row =
              new_approval candidate.id approval_role decision note actor_user_id fresh_id in
            if any_by (same_approval row) db.approvals
            then refused release_approval_already_recorded
            else committed (record db {
              candidates =
                  if is_declined decision
                  then set_status candidate.id rejected db.candidates
                  else db.candidates;
              approvals = row ∷ db.approvals;
            })
    ]

-- `_assert_event_transition`
unfoldable pub event_allowed : DeploymentEventType → ReleaseStatus → Bool
event_allowed deployed_event ready_closed = true
event_allowed released_event ready_invites = true
event_allowed failed_event ready_closed = true
event_allowed failed_event deployed_observing = true
event_allowed failed_event ready_invites = true
event_allowed rolled_back_event deployed_observing = true
event_allowed rolled_back_event ready_invites = true
event_allowed rolled_back_event released = true
event_allowed event_type status = false

-- The gate that an event evaluates again, with the error when it no longer passes.
abbrev pub event_refusal :
    DeploymentEventType
    → Environment
    → Db
    → ProductionReleaseCandidateRecord
    → ℕ
    → Option ReleaseError
event_refusal deployed_event env db candidate now =
    if passes (closed_deployment_checks env db.approvals candidate now)
    then none
    else some closed_deployment_gate_no_longer_passes
event_refusal released_event env db candidate now =
    if passes (invite_activation_checks env db.approvals candidate now)
    then none
    else some invite_activation_gate_no_longer_passes
event_refusal event_type env db candidate now = none

abbrev pub event_status : DeploymentEventType → ReleaseStatus
event_status deployed_event = deployed_observing
event_status released_event = released
event_status failed_event = rolled_back
event_status rolled_back_event = rolled_back

-- The primary key and `uq_deployment_candidate_event`
abbrev pub same_event : ProductionDeploymentEventRecord → ProductionDeploymentEventRecord → Bool
same_event a b =
    (a.id == b.id) || ((a.candidate_id == b.candidate_id) && event_eq a.event_type b.event_type)

abbrev pub new_event :
    ℕ → DeploymentEventType → List ℕ → Option (List ℕ) → ℕ → ℕ → ProductionDeploymentEventRecord
new_event candidate_id event_type deployment_ref reason_code actor_user_id fresh_id = record {
  id = fresh_id;
  candidate_id = candidate_id;
  event_type = event_type;
  deployment_ref = strip deployment_ref;
  reason_code = reason_code;
  recorded_by_user_id = actor_user_id;
}

unfoldable pub record_event :
    Environment → Db → ℕ → DeploymentEventType → List ℕ → Option (List ℕ) → ℕ → ℕ → ℕ → Result
record_event env db candidate_id event_type deployment_ref reason_code actor_user_id now fresh_id =
    elim (locked_candidate db candidate_id) [
      | none ↦ refused release_candidate_not_found
      | some candidate ↦
          if not (event_allowed event_type candidate.status)
          then refused deployment_event_invalid_transition
          else elim (event_refusal event_type env db candidate now) [
            | some error ↦ refused error
            | none ↦
                let row =
                  new_event candidate.id event_type deployment_ref reason_code actor_user_id
                    fresh_id in
                if any_by (same_event row) db.events
                then refused deployment_event_already_recorded
                else committed (record db {
                  candidates = set_status candidate.id (event_status event_type) db.candidates;
                  events = row ∷ db.events;
                })
          ]
    ]

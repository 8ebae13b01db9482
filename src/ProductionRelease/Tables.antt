-- ===== src/ProductionRelease/Tables.antt =====
-- The errors of production_release/service.py, and the reads and writes of a candidate's row.
use zhiniu.Prelude.{ℕ, Bool, true, false, Option, List, map, ◌==◌, if◌then◌else◌, find}
use zhiniu.ProductionRelease.Models.{
  ReleaseStatus, released, rolled_back, rejected, ProductionReleaseCandidateRecord, Db,
}

pub data ReleaseError : Type 0 where
  release_candidate_already_exists release_candidate_not_found : ReleaseError
  release_candidate_terminal closed_deployment_gate_invalid_state : ReleaseError
  invite_activation_gate_invalid_state release_creator_cannot_approve : ReleaseError
  release_approval_role_not_allowed release_approval_already_recorded : ReleaseError
  deployment_event_invalid_transition closed_deployment_gate_no_longer_passes : ReleaseError
  invite_activation_gate_no_longer_passes deployment_event_already_recorded : ReleaseError

pub data Result : Type 0 where
  refused : ReleaseError → Result
  committed : Db → Result

-- `_locked_candidate`
unfoldable pub locked_candidate : Db → ℕ → Option ProductionReleaseCandidateRecord
locked_candidate db candidate_id = find (λ c. c.id == candidate_id) db.candidates

-- `candidate.status = status`
unfoldable pub set_status :
    ℕ
    → ReleaseStatus
    → List ProductionReleaseCandidateRecord
    → List ProductionReleaseCandidateRecord
set_status candidate_id status candidates =
    map (λ c. if c.id == candidate_id then record c { status = status } else c) candidates

-- `status in {"released", "rolled_back", "rejected"}`
abbrev pub is_terminal : ReleaseStatus → Bool
is_terminal released = true
is_terminal rolled_back = true
is_terminal rejected = true
is_terminal _ = false

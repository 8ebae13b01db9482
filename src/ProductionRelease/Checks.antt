-- ===== src/ProductionRelease/Checks.antt =====
-- The checks that the two gates of production_release/service.py share, and their pass.
pub mod Closed
pub mod Rows
pub mod Invite
pub mod Verdicts
use zhiniu.Prelude.{
  ℕ, ◌+◌, ◌*◌, Bool, true, false, not, ◌&&◌, ◌||◌, Option, none, some, List, [], ◌∷◌, codes, leb,
  if◌then◌else◌, find, all_by, ◌==◌,
}
use zhiniu.ProductionRelease.Models.{
  is_passed, GateType, closed_deployment, invite_activation, ApprovalRole, product_operations,
  role_eq, ApprovalDecision, approved, declined, EvidenceValue, flag, Evidence, GateCheck,
  ProductionReleaseApprovalRecord,
}
use zhiniu.ProductionRelease.Environment.{BetaReliabilityObservationRecord, Settings}

abbrev pub hours : ℕ → ℕ
hours n = n * 3600000000

abbrev pub invite_evidence_max_age : ℕ
invite_evidence_max_age = hours 24

abbrev pub restore_evidence_max_age : ℕ
restore_evidence_max_age = hours 72

abbrev pub reliability_evidence_max_age : ℕ
reliability_evidence_max_age = hours 24

-- The overall, freshness and duration eligibility. A difference of moments is compared by adding
-- to the earlier one.
unfoldable pub reliability_observation_eligible :
    Option BetaReliabilityObservationRecord → ℕ → Bool × Bool × Bool
reliability_observation_eligible none now = (false, false, false)
reliability_observation_eligible (some observation) now =
    let fresh =
      leb now (observation.window_ended_at + reliability_evidence_max_age)
      && leb observation.window_ended_at now in
    let has_48h = leb (observation.window_started_at + hours 48) observation.window_ended_at in
    (is_passed observation.status && fresh && has_48h, fresh, has_48h)

-- `_check`
unfoldable pub check : List ℕ → List ℕ → Bool → Evidence → Option (List ℕ) → Option ℕ → GateCheck
check key category passed evidence reason_code expires_at = record {
  key = key;
  category = category;
  passed = passed;
  reason_code = if passed then none else reason_code;
  evidence = evidence;
  expires_at = expires_at;
  mandatory = true;
}

-- `automation_gate_checks`
unfoldable pub automation_gate_checks : Settings → GateType → List GateCheck
automation_gate_checks settings closed_deployment =
    check (codes "automation.hard_disabled") (codes "automation") settings.automation_hard_disabled
      ((codes "hard_disabled", flag settings.automation_hard_disabled) ∷ [])
      (some (codes "automation_not_hard_disabled")) none
    ∷ []
automation_gate_checks settings invite_activation =
    check (codes "automation.emergency_stop") (codes "automation")
      (not settings.automation_hard_disabled)
      ((codes "hard_disabled", flag settings.automation_hard_disabled) ∷ [])
      (some (codes "automation_still_hard_disabled")) none
    ∷ check (codes "automation.watchlist_preparation") (codes "automation")
        settings.watchlist_preparation_enabled
        ((codes "watchlist_preparation_enabled", flag settings.watchlist_preparation_enabled) ∷ [])
        (some (codes "watchlist_preparation_disabled")) none
    ∷ []

pub data OperatorRole : Type 0 where
  operations security_admin other_role : OperatorRole

-- `approval_role_allowed`
unfoldable pub approval_role_allowed : OperatorRole → ApprovalRole → Bool
approval_role_allowed operations product_operations = true
approval_role_allowed operator_role product_operations = false
approval_role_allowed security_admin approval_role = true
approval_role_allowed operator_role approval_role = false

-- `all(not item.mandatory or item.passed for item in checks)`
unfoldable pub passes : List GateCheck → Bool
passes checks = all_by (λ item. not item.mandatory || item.passed) checks

-- `_approval`
unfoldable pub approval_of :
    List ProductionReleaseApprovalRecord → ℕ → ApprovalRole → Option ProductionReleaseApprovalRecord
approval_of approvals candidate_id role =
    find (λ a. (a.candidate_id == candidate_id) && role_eq a.approval_role role) approvals

-- `approval is not None and approval.decision == "approved"`
abbrev pub is_approved : Option ProductionReleaseApprovalRecord → Bool
is_approved none = false
is_approved (some a) = elim a.decision [ approved ↦ true | declined ↦ false ]

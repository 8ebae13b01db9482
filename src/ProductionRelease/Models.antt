-- ===== src/ProductionRelease/Models.antt =====
-- production_release/models.py and the tables of db.py that production_release/service.py writes.
-- Identifiers are numbers, a digest or a fingerprint is the number that stands for its text, and a
-- moment is its number of microseconds.
use zhiniu.Prelude.{ℕ, Bool, true, false, Option, List, codes}

pub data ReleaseStatus : Type 0 where
  draft blocked ready_closed deployed_observing : ReleaseStatus
  ready_invites released rolled_back rejected : ReleaseStatus

abbrev pub status_value : ReleaseStatus → List ℕ
status_value draft = codes "draft"
status_value blocked = codes "blocked"
status_value ready_closed = codes "ready_closed"
status_value deployed_observing = codes "deployed_observing"
status_value ready_invites = codes "ready_invites"
status_value released = codes "released"
status_value rolled_back = codes "rolled_back"
status_value rejected = codes "rejected"

pub data GateType : Type 0 where
  closed_deployment invite_activation : GateType

pub data ApprovalRole : Type 0 where
  engineering data_compliance product_operations : ApprovalRole

abbrev pub role_eq : ApprovalRole → ApprovalRole → Bool
role_eq engineering engineering = true
role_eq data_compliance data_compliance = true
role_eq product_operations product_operations = true
role_eq _ _ = false

abbrev pub role_value : ApprovalRole → List ℕ
role_value engineering = codes "engineering"
role_value data_compliance = codes "data_compliance"
role_value product_operations = codes "product_operations"

pub data ApprovalDecision : Type 0 where
  approved declined : ApprovalDecision

abbrev pub decision_value : ApprovalDecision → List ℕ
decision_value approved = codes "approved"
decision_value declined = codes "rejected"

-- In the source's words `deployed`, `released`, `failed` and `rolled_back`.
pub data DeploymentEventType : Type 0 where
  deployed_event released_event failed_event rolled_back_event : DeploymentEventType

abbrev pub event_eq : DeploymentEventType → DeploymentEventType → Bool
event_eq deployed_event deployed_event = true
event_eq released_event released_event = true
event_eq failed_event failed_event = true
event_eq rolled_back_event rolled_back_event = true
event_eq _ _ = false

-- `GateStatus` and `ArtifactStatus`
pub data GateStatus : Type 0 where
  gate_passed gate_blocked : GateStatus

pub data ArtifactStatus : Type 0 where
  passed failed : ArtifactStatus

abbrev pub is_passed : ArtifactStatus → Bool
is_passed passed = true
is_passed failed = false

abbrev pub artifact_value : ArtifactStatus → List ℕ
artifact_value passed = codes "passed"
artifact_value failed = codes "failed"

-- A value of a check's evidence; `reference` is the text of a UUID.
pub data EvidenceValue : Type 0 where
  missing : EvidenceValue
  text : List ℕ → EvidenceValue
  flag : Bool → EvidenceValue
  number reference : ℕ → EvidenceValue

abbrev pub Evidence : Type 0
Evidence = List (List ℕ × EvidenceValue)

pub record GateCheck : Type 0 where
  pub key : List ℕ
  pub category : List ℕ
  pub passed : Bool
  pub reason_code : Option (List ℕ)
  pub evidence : Evidence
  pub expires_at : Option ℕ
  pub mandatory : Bool

pub record ProductionReleaseCandidateCreate : Type 0 where
  pub commit_sha : ℕ
  pub migration_head : List ℕ
  pub api_image_digest : ℕ
  pub web_image_digest : ℕ
  pub configuration_fingerprint : ℕ
  pub sbom_sha256 : ℕ
  pub backup_sha256 : ℕ
  pub restore_verified_at : ℕ
  pub quality_gate_status : ArtifactStatus
  pub e2e_status : ArtifactStatus
  pub security_scan_status : ArtifactStatus

pub record ProductionReleaseCandidateRecord : Type 0 where
  pub id : ℕ
  pub status : ReleaseStatus
  pub artifacts : ProductionReleaseCandidateCreate
  pub created_by_user_id : ℕ

pub record ProductionReleaseApprovalRecord : Type 0 where
  pub id : ℕ
  pub candidate_id : ℕ
  pub approval_role : ApprovalRole
  pub decision : ApprovalDecision
  pub actor_user_id : ℕ
  pub note : Option (List ℕ)

pub record ProductionDeploymentEventRecord : Type 0 where
  pub id : ℕ
  pub candidate_id : ℕ
  pub event_type : DeploymentEventType
  pub deployment_ref : List ℕ
  pub reason_code : Option (List ℕ)
  pub recorded_by_user_id : ℕ

pub record ProductionReleaseGateRunRecord : Type 0 where
  pub id : ℕ
  pub candidate_id : ℕ
  pub gate_type : GateType
  pub status : GateStatus
  pub result_fingerprint : ℕ
  pub started_at : ℕ
  pub finished_at : ℕ

pub record ProductionReleaseGateItemRecord : Type 0 where
  pub id : ℕ
  pub run_id : ℕ
  pub check_key : List ℕ
  pub category : List ℕ
  pub mandatory : Bool
  pub status : ArtifactStatus
  pub reason_code : Option (List ℕ)
  pub evidence_json : Evidence
  pub evidence_fingerprint : ℕ
  pub checked_at : ℕ
  pub expires_at : Option ℕ

-- The tables; a new row is put first.
pub record Db : Type 0 where
  pub candidates : List ProductionReleaseCandidateRecord
  pub approvals : List ProductionReleaseApprovalRecord
  pub events : List ProductionDeploymentEventRecord
  pub runs : List ProductionReleaseGateRunRecord
  pub items : List ProductionReleaseGateItemRecord

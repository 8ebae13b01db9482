-- ===== src/ProductionRelease/Checks/Closed.antt =====
-- `_closed_deployment_checks` of production_release/service.py.
use zhiniu.Prelude.{
  ℕ, ◌+◌, Bool, true, false, Option, none, some, List, [], ◌∷◌, ◌++◌, codes, leb, text_eq, is_some,
  not,
}
use zhiniu.ProductionRelease.Models.{
  is_passed, artifact_value, closed_deployment, engineering, decision_value, text, number,
  EvidenceValue, GateCheck, ProductionReleaseCandidateRecord, ProductionReleaseApprovalRecord,
}
use zhiniu.ProductionRelease.Environment.{
  AppEnv, development, test, production, RegistrationMode, invite_only, closed, Environment,
}
use zhiniu.ProductionRelease.Checks.{
  restore_evidence_max_age, check, automation_gate_checks, approval_of, is_approved,
}

-- `MIGRATION_HEAD` of system.py
abbrev pub migration_head : List ℕ
migration_head = codes "20261006_0032"

abbrev app_env_value : AppEnv → List ℕ
app_env_value development = codes "development"
app_env_value test = codes "test"
app_env_value production = codes "production"

abbrev is_production : AppEnv → Bool
is_production production = true
is_production _ = false

abbrev pub registration_value : RegistrationMode → List ℕ
registration_value invite_only = codes "invite_only"
registration_value closed = codes "closed"

abbrev is_closed : RegistrationMode → Bool
is_closed closed = true
is_closed invite_only = false

abbrev or_missing : Option (List ℕ) → EvidenceValue
or_missing none = text (codes "missing")
or_missing (some v) = text v

-- `approval.decision if approval else "missing"`
abbrev pub decision_of : Option ProductionReleaseApprovalRecord → EvidenceValue
decision_of none = text (codes "missing")
decision_of (some a) = text (decision_value a.decision)

abbrev is_head : Option (List ℕ) → Bool
is_head none = false
is_head (some v) = text_eq v migration_head

abbrev outcome : Bool → EvidenceValue
outcome true = text (codes "passed")
outcome false = text (codes "failed")

module _ (env : Environment) (approvals : List ProductionReleaseApprovalRecord)
    (candidate : ProductionReleaseCandidateRecord) (now : ℕ) where
  unfoldable pub closed_deployment_checks : List GateCheck
  closed_deployment_checks =
      let artifacts = candidate.artifacts in
      let settings = env.settings in
      let secure = not (is_some env.runtime_reason) in
      let engineering_approval = approval_of approvals candidate.id engineering in
      let restore_expires_at = artifacts.restore_verified_at + restore_evidence_max_age in
      check (codes "environment.production") (codes "runtime") (is_production settings.app_env)
          ((codes "app_env", text (app_env_value settings.app_env)) ∷ [])
          (some (codes "release_environment_not_production")) none
        ∷ check (codes "runtime.security") (codes "security") secure
            ((codes "validation", outcome secure) ∷ []) env.runtime_reason none
        ∷ check (codes "migration.database_head") (codes "database") (is_head env.alembic_version)
            ((codes "current", or_missing env.alembic_version)
              ∷ (codes "expected", text migration_head)
              ∷ [])
            (some (codes "migration_not_at_head")) none
        ∷ check (codes "migration.candidate_head") (codes "database")
            (text_eq artifacts.migration_head migration_head)
            ((codes "candidate", text artifacts.migration_head)
              ∷ (codes "expected", text migration_head)
              ∷ [])
            (some (codes "candidate_migration_not_at_head")) none
        ∷ check (codes "artifact.quality_gate") (codes "engineering")
            (is_passed artifacts.quality_gate_status)
            ((codes "status", text (artifact_value artifacts.quality_gate_status)) ∷ [])
            (some (codes "quality_gate_failed")) none
        ∷ check (codes "artifact.e2e") (codes "engineering") (is_passed artifacts.e2e_status)
            ((codes "status", text (artifact_value artifacts.e2e_status)) ∷ [])
            (some (codes "e2e_failed")) none
        ∷ check (codes "artifact.security_scan") (codes "security")
            (is_passed artifacts.security_scan_status)
            ((codes "status", text (artifact_value artifacts.security_scan_status)) ∷ [])
            (some (codes "security_scan_failed")) none
        ∷ check (codes "backup.restore_fresh") (codes "recovery") (leb now restore_expires_at)
            ((codes "verified_at", text (env.isoformat artifacts.restore_verified_at))
              ∷ (codes "max_age_hours", number 72)
              ∷ [])
            (some (codes "restore_evidence_stale")) (some restore_expires_at)
        ∷ check (codes "registration.closed") (codes "access")
            (is_closed settings.registration_mode)
            ((codes "registration_mode", text (registration_value settings.registration_mode)) ∷ [])
            (some (codes "registration_not_closed")) none
        ∷ automation_gate_checks settings closed_deployment
      ++ check (codes "approval.engineering") (codes "approval") (is_approved engineering_approval)
          ((codes "decision", decision_of engineering_approval) ∷ [])
          (some (codes "engineering_approval_missing")) none
        ∷ []

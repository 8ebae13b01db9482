-- ===== src/ProductionRelease/Checks/Invite.antt =====
-- `_invite_activation_checks` of production_release/service.py.
use zhiniu.Prelude.{
  ℕ, ◌+◌, false, none, some, List, [], ◌∷◌, ◌++◌, codes, ltb, text_eq, is_some, ◌&&◌, ◌==◌,
}
use mathlib.Core.Option.{map}
use zhiniu.ProductionRelease.Models.{
  status_value, artifact_value, invite_activation, engineering, data_compliance, product_operations,
  ApprovalRole, role_value, missing, text, flag, number, reference, GateCheck,
  ProductionReleaseCandidateRecord, ProductionReleaseApprovalRecord,
}
use zhiniu.ProductionRelease.Environment.{Environment}
use zhiniu.ProductionRelease.Checks.{
  reliability_evidence_max_age, reliability_observation_eligible, check, automation_gate_checks,
  approval_of, is_approved,
}
use zhiniu.ProductionRelease.Checks.Closed.{registration_value, decision_of}
use zhiniu.ProductionRelease.Checks.Rows.{
  is_fresh, expiry, is_observed, is_invite_only, review_value, is_review_approved, or_else,
  release_observation, latest_acceptance, latest_diagnostic, latest_delivery, latest_event,
  active_users, severe_feedback, email_runtime_ok, email_runtime_source,
}

abbrev approval_check : List ProductionReleaseApprovalRecord → ℕ → ApprovalRole → GateCheck
approval_check approvals candidate_id role =
    let approval = approval_of approvals candidate_id role in
    check (codes "approval." ++ role_value role) (codes "approval") (is_approved approval)
      ((codes "decision", decision_of approval) ∷ [])
      (some (role_value role ++ codes "_approval_missing")) none

module _ (env : Environment) (approvals : List ProductionReleaseApprovalRecord)
    (candidate : ProductionReleaseCandidateRecord) (now : ℕ) where
  abbrev reliability_check : GateCheck
  reliability_check =
      let reliability = release_observation env candidate in
      let (eligible, fresh, has_48h) = reliability_observation_eligible reliability now in
      check (codes "reliability.observation") (codes "quality") eligible
        ((codes "observation_id", or_else missing (λ o. reference o.id) reliability)
          ∷ (
            codes "status",
            text (or_else (codes "missing") (λ o. artifact_value o.status) reliability),
          )
          ∷ (codes "fresh", flag fresh)
          ∷ (codes "window_48h", flag has_48h)
          ∷ (codes "release_bound", flag (is_some reliability))
          ∷ [])
        (some (codes "beta_reliability_observation_unavailable"))
        (map (λ o. o.window_ended_at + reliability_evidence_max_age) reliability)

  abbrev acceptance_check : GateCheck
  acceptance_check =
      let acceptance = latest_acceptance env in
      let fresh = is_fresh now (map (λ r. r.finished_at) acceptance) in
      check (codes "provider.acceptance") (codes "provider")
        (or_else false
          (λ r.
            text_eq r.status (codes "passed")
            && r.beta_eligible
            && text_eq r.usage_scope (codes "production")
            && fresh)
          acceptance)
        ((codes "run_id", or_else missing (λ r. reference r.id) acceptance)
          ∷ (codes "status", text (or_else (codes "missing") (λ r. r.status) acceptance))
          ∷ (codes "usage_scope", or_else missing (λ r. text r.usage_scope) acceptance)
          ∷ (codes "fresh", flag fresh)
          ∷ [])
        (some (codes "production_provider_acceptance_unavailable"))
        (expiry (map (λ r. r.finished_at) acceptance))

  abbrev email_checks : List GateCheck
  email_checks =
      let diagnostic = latest_diagnostic env in
      let delivery = latest_delivery env in
      let event = latest_event env in
      let checked_at = map (λ r. r.checked_at) diagnostic in
      let delivered_at = or_else none (λ r. r.delivered_at) delivery in
      let received_at = map (λ r. r.received_at) event in
      check (codes "email.runtime") (codes "email") (email_runtime_ok env)
        ((codes "source", text (email_runtime_source env))
          ∷ (codes "enabled", flag (email_runtime_ok env))
          ∷ [])
        (some (codes "production_resend_runtime_unavailable")) none
      ∷ check (codes "email.diagnostic") (codes "email")
          (or_else false (λ r. text_eq r.status (codes "healthy") && is_fresh now checked_at)
            diagnostic)
          ((codes "status", text (or_else (codes "missing") (λ r. r.status) diagnostic))
            ∷ (codes "fresh", flag (is_fresh now checked_at))
            ∷ [])
          (some (codes "resend_diagnostic_unhealthy")) (expiry checked_at)
      ∷ check (codes "email.delivered") (codes "email") (is_fresh now delivered_at)
          ((codes "delivery_id", or_else missing (λ r. reference r.id) delivery)
            ∷ (codes "fresh", flag (is_fresh now delivered_at))
            ∷ [])
          (some (codes "recent_delivered_email_missing")) (expiry delivered_at)
      ∷ check (codes "email.webhook") (codes "email") (is_fresh now received_at)
          ((codes "event_id", or_else missing (λ r. reference r.id) event)
            ∷ (codes "fresh", flag (is_fresh now received_at))
            ∷ [])
          (some (codes "recent_resend_webhook_missing")) (expiry received_at)
      ∷ []

  unfoldable pub invite_activation_checks : List GateCheck
  invite_activation_checks =
      let settings = env.settings in
      check (codes "deployment.observing") (codes "deployment") (is_observed candidate.status)
          ((codes "status", text (status_value candidate.status)) ∷ [])
          (some (codes "closed_deployment_not_recorded")) none
        ∷ reliability_check
        ∷ check (codes "registration.invite_only") (codes "access")
            (is_invite_only settings.registration_mode)
            ((codes "registration_mode", text (registration_value settings.registration_mode)) ∷ [])
            (some (codes "registration_not_invite_only")) none
        ∷ check (codes "approval.legal") (codes "compliance")
            (is_review_approved settings.legal_review_status)
            ((codes "status", text (review_value settings.legal_review_status)) ∷ [])
            (some (codes "legal_review_not_approved")) none
        ∷ check (codes "approval.data_use") (codes "compliance")
            (is_review_approved settings.data_use_status)
            ((codes "status", text (review_value settings.data_use_status)) ∷ [])
            (some (codes "data_use_not_approved")) none
        ∷ acceptance_check
        ∷ email_checks
      ++ check (codes "feedback.p0_p1_zero") (codes "quality") (severe_feedback env == 0)
          ((codes "open_p0_p1", number (severe_feedback env)) ∷ [])
          (some (codes "open_p0_p1_feedback")) none
        ∷ check (codes "capacity.available") (codes "access")
            (ltb (active_users env) settings.beta_max_active_users)
            ((codes "active_users", number (active_users env))
              ∷ (codes "capacity", number settings.beta_max_active_users)
              ∷ [])
            (some (codes "beta_capacity_reached")) none
        ∷ automation_gate_checks settings invite_activation
      ++ approval_check approvals candidate.id engineering
        ∷ approval_check approvals candidate.id data_compliance
        ∷ approval_check approvals candidate.id product_operations
        ∷ []

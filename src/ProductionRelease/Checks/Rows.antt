-- ===== src/ProductionRelease/Checks/Rows.antt =====
-- The rows that `_invite_activation_checks` of production_release/service.py selects.
use zhiniu.Prelude.{
  ℕ, ◌+◌, Bool, true, false, Option, none, some, List, [], ◌∷◌, codes, leb, ltb, text_eq, not, ◌&&◌,
  ◌||◌, filter_by, count_by, if◌then◌else◌, ◌==◌,
}
use mathlib.Core.Option.{map}
use zhiniu.ProductionRelease.Models.{
  ReleaseStatus, deployed_observing, ready_invites, ProductionReleaseCandidateRecord,
}
use zhiniu.ProductionRelease.Environment.{
  RegistrationMode, invite_only, closed, ReviewStatus, review_required, review_approved,
  review_blocked, BetaReliabilityObservationRecord, ProviderAcceptanceRunRecord,
  ProviderDiagnosticRunRecord, TransactionalEmailDeliveryRecord,
  TransactionalEmailProviderEventRecord, Environment,
}
use zhiniu.ProductionRelease.Checks.{invite_evidence_max_age}

-- `order_by(key.desc()).limit(1)`: the first row of the greatest key
abbrev pub newest {ℓ} : {A : Type ℓ} → (A → ℕ) → List A → Option A
newest key [] = none
newest key (x ∷ xs) = elim (newest key xs) [
  | none ↦ some x
  | some y ↦ if ltb (key x) (key y) then some y else some x
]

-- The key of a nullable moment: the database puts null first in a descending order.
abbrev pub newest_delivery :
    List TransactionalEmailDeliveryRecord → Option TransactionalEmailDeliveryRecord
newest_delivery [] = none
newest_delivery (x ∷ xs) = elim (newest_delivery xs) [
  | none ↦ some x
  | some y ↦ elim x.delivered_at [
    | none ↦ some x
    | some a ↦ elim y.delivered_at [ none ↦ some y | some b ↦ if ltb a b then some y else some x ]
  ]
]

-- `row and row.moment >= now - INVITE_EVIDENCE_MAX_AGE`
abbrev pub is_fresh : ℕ → Option ℕ → Bool
is_fresh now none = false
is_fresh now (some moment) = leb now (moment + invite_evidence_max_age)

abbrev pub expiry : Option ℕ → Option ℕ
expiry moment = map (λ m. m + invite_evidence_max_age) moment

abbrev pub is_observed : ReleaseStatus → Bool
is_observed deployed_observing = true
is_observed ready_invites = true
is_observed _ = false

abbrev pub is_invite_only : RegistrationMode → Bool
is_invite_only invite_only = true
is_invite_only closed = false

abbrev pub review_value : ReviewStatus → List ℕ
review_value review_required = codes "review_required"
review_value review_approved = codes "approved"
review_value review_blocked = codes "blocked"

abbrev pub is_review_approved : ReviewStatus → Bool
is_review_approved review_approved = true
is_review_approved _ = false

abbrev pub or_else {ℓ κ} : {A : Type ℓ} {B : Type κ} → B → (A → B) → Option A → B
or_else d f none = d
or_else d f (some a) = f a

abbrev pub is_of_release :
    ProductionReleaseCandidateRecord → BetaReliabilityObservationRecord → Bool
is_of_release candidate o =
    let artifacts = candidate.artifacts in
    o.is_production
    && (o.release_commit == artifacts.commit_sha)
    && (o.api_image_digest == artifacts.api_image_digest)
    && (o.web_image_digest == artifacts.web_image_digest)
    && (o.configuration_fingerprint == artifacts.configuration_fingerprint)
    && text_eq o.migration_head artifacts.migration_head

module _ (env : Environment) where
  -- The latest observation of the very release that the candidate describes.
  unfoldable pub release_observation :
      ProductionReleaseCandidateRecord → Option BetaReliabilityObservationRecord
  release_observation candidate =
      newest (λ o. o.created_at) (filter_by (is_of_release candidate) env.observations)

  abbrev pub latest_acceptance : Option ProviderAcceptanceRunRecord
  latest_acceptance =
      newest (λ r. r.created_at)
        (filter_by (λ r. text_eq r.environment (codes "production")) env.acceptance_runs)

  abbrev pub latest_diagnostic : Option ProviderDiagnosticRunRecord
  latest_diagnostic =
      newest (λ r. r.checked_at)
        (filter_by (λ r. text_eq r.provider (codes "resend") && text_eq r.target (codes "active"))
          env.diagnostics)

  abbrev pub latest_delivery : Option TransactionalEmailDeliveryRecord
  latest_delivery =
      newest_delivery (filter_by (λ r. text_eq r.status (codes "delivered")) env.deliveries)

  abbrev pub latest_event : Option TransactionalEmailProviderEventRecord
  latest_event =
      newest (λ r. r.received_at)
        (filter_by
          (λ r. text_eq r.provider (codes "resend") && text_eq r.status (codes "processed"))
          env.provider_events)

  abbrev pub active_users : ℕ
  active_users = count_by (λ status. text_eq status (codes "active")) env.user_statuses

  abbrev pub severe_feedback : ℕ
  severe_feedback =
      count_by
        (λ f.
          (text_eq f.severity (codes "P0") || text_eq f.severity (codes "P1"))
          && not (text_eq f.status (codes "resolved") || text_eq f.status (codes "closed")))
        env.feedback

  abbrev pub email_runtime_ok : Bool
  email_runtime_ok =
      or_else false (λ r. r.enabled && r.has_api_key && r.has_webhook_secret) env.resend_runtime

  abbrev pub email_runtime_source : List ℕ
  email_runtime_source = or_else (codes "unavailable") (λ r. r.source) env.resend_runtime

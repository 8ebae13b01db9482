-- ===== src/ProductionRelease/Checks/Verdicts.antt =====
-- What a gate that passes has checked.
use zhiniu.Prelude.{
  ℕ, zero, suc, ◌+◌, ◌≤◌, ◌≡◌, refl, subst, inl, inr, Bool, true, false, some, List, [], ◌∷◌, arith,
  ltb, filter_by, get_elem?, All, Bool-cases, Option-cases,
}
use zhiniu.ProductionRelease.Models.{
  passed, ApprovalRole, engineering, data_compliance, product_operations, approved, GateCheck,
  ProductionReleaseCandidateRecord, ProductionReleaseApprovalRecord,
}
use zhiniu.ProductionRelease.Environment.{
  invite_only, closed, BetaReliabilityObservationRecord, Environment,
}
use zhiniu.ProductionRelease.Checks.{
  hours, reliability_observation_eligible, check, automation_gate_checks, passes, approval_of,
  is_approved,
}
use zhiniu.ProductionRelease.Checks.Closed.{closed_deployment_checks}
use zhiniu.ProductionRelease.Checks.Invite.{invite_activation_checks}
use zhiniu.ProductionRelease.Checks.Rows.{is_of_release, release_observation, newest}

-- A mandatory check of a list that passes has passed.
passes_at :
    (checks : List GateCheck) (i : ℕ) (c : GateCheck)
    → passes checks ≡ true
    → get_elem? checks i ≡ some c
    → c.mandatory ≡ true
    → c.passed ≡ true
unfolding passes
passes_at [] i c h at m = ground arith
passes_at (x ∷ xs) zero c h at m = ground arith
passes_at (x ∷ xs) (suc i) c h at m = passes_at xs i c (ground (arith, h)) at m

module _ (env : Environment) (approvals : List ProductionReleaseApprovalRecord)
    (candidate : ProductionReleaseCandidateRecord) (now : ℕ) where
  closed_gate :
      passes (closed_deployment_checks env approvals candidate now) ≡ true
      → (env.settings.registration_mode ≡ closed)
        × (env.settings.automation_hard_disabled ≡ true)
        × (is_approved (approval_of approvals candidate.id engineering) ≡ true)
  unfolding closed_deployment_checks automation_gate_checks check
  closed_gate h =
      let checks = closed_deployment_checks env approvals candidate now in
      let mode = passes_at checks 8 _ h refl refl in
      (ground arith, passes_at checks 9 _ h refl refl, passes_at checks 10 _ h refl refl)

  invite_gate :
      passes (invite_activation_checks env approvals candidate now) ≡ true
      → (env.settings.registration_mode ≡ invite_only)
        × (env.settings.automation_hard_disabled ≡ false)
        × ((reliability_observation_eligible (release_observation env candidate) now).0 ≡ true)
        × (is_approved (approval_of approvals candidate.id engineering) ≡ true)
        × (is_approved (approval_of approvals candidate.id data_compliance) ≡ true)
        × (is_approved (approval_of approvals candidate.id product_operations) ≡ true)
  unfolding invite_activation_checks automation_gate_checks check
  invite_gate h =
      let checks = invite_activation_checks env approvals candidate now in
      let mode = passes_at checks 2 _ h refl refl in
      let stop = passes_at checks 12 _ h refl refl in
      (
        ground arith,
        ground arith,
        passes_at checks 1 _ h refl refl,
        passes_at checks 14 _ h refl refl,
        passes_at checks 15 _ h refl refl,
        passes_at checks 16 _ h refl refl,
      )

-- No state of the system passes both gates, whatever candidates, approvals and moments they are
-- evaluated for.
pub gates_exclusive :
    (env : Environment) (xs ys : List ProductionReleaseApprovalRecord)
    (a b : ProductionReleaseCandidateRecord) (s t : ℕ)
    → passes (closed_deployment_checks env xs a s) ≡ true
    → passes (invite_activation_checks env ys b t) ≡ false
gates_exclusive env xs ys a b s t h =
    elim (Bool-cases (passes (invite_activation_checks env ys b t))) [
      | inr fails ↦ fails
      | inl both ↦
          let mode = (closed_gate env xs a s h).0 in
          let mode' = (invite_gate env ys b t both).0 in absurd (cc (mode, mode'))
    ]

-- The approval of a role that a gate has found.
pub approval_of-approved :
    (approvals : List ProductionReleaseApprovalRecord) (candidate_id : ℕ) (role : ApprovalRole)
    → is_approved (approval_of approvals candidate_id role) ≡ true
    → (a : ProductionReleaseApprovalRecord) × (approval_of approvals candidate_id role ≡ some a)
      × (a.decision ≡ approved)
approval_of-approved approvals candidate_id role h =
    elim (Option-cases (approval_of approvals candidate_id role)) [
      | inl none_found ↦ absurd (cc (rw none_found at h))
      | inr (a, found) ↦ (a, found, ground (arith, rw found at h))
    ]

pub invite_gate-approvals :
    (env : Environment) (approvals : List ProductionReleaseApprovalRecord)
    (candidate : ProductionReleaseCandidateRecord) (now : ℕ)
    → passes (invite_activation_checks env approvals candidate now) ≡ true
    → (role : ApprovalRole)
    → (a : ProductionReleaseApprovalRecord) × (approval_of approvals candidate.id role ≡ some a)
      × (a.decision ≡ approved)
invite_gate-approvals env approvals candidate now h engineering =
    let facts = invite_gate env approvals candidate now h in
    approval_of-approved approvals candidate.id engineering facts.3
invite_gate-approvals env approvals candidate now h data_compliance =
    let facts = invite_gate env approvals candidate now h in
    approval_of-approved approvals candidate.id data_compliance facts.4
invite_gate-approvals env approvals candidate now h product_operations =
    let facts = invite_gate env approvals candidate now h in
    approval_of-approved approvals candidate.id product_operations facts.5

module _ {ℓ} {A : Type ℓ} where
  filter_by-All : (p : A → Bool) (xs : List A) → All (λ x. p x ≡ true) (filter_by p xs)
  filter_by-All p [] = tt
  filter_by-All p (x ∷ xs) = elim (Bool-cases (p x)) [
    | inl keep ↦ rw keep (keep, filter_by-All p xs)
    | inr drop ↦ rw drop (filter_by-All p xs)
  ]

  newest-All {κ} :
      (P : A → Type κ) (key : A → ℕ) (xs : List A) (a : A) → All P xs → newest key xs ≡ some a → P a
  newest-All P key [] a all h = ground arith
  newest-All P key (x ∷ xs) a all h = elim (Option-cases (newest key xs)) [
    | inl alone ↦ subst P (ground (arith, rw alone at h)) all.0
    | inr (y, best) ↦
        let py = newest-All P key xs y all.1 best in
        elim (Bool-cases (ltb (key x) (key y))) [
          | inl later ↦ subst P (ground (arith, rw (best, later) at h)) py
          | inr earlier ↦ subst P (ground (arith, rw (best, earlier) at h)) all.0
        ]
  ]

of_release :
    (candidate : ProductionReleaseCandidateRecord) (o : BetaReliabilityObservationRecord)
    → is_of_release candidate o ≡ true
    → (o.is_production ≡ true)
      × (o.release_commit ≡ candidate.artifacts.commit_sha)
      × (o.api_image_digest ≡ candidate.artifacts.api_image_digest)
      × (o.web_image_digest ≡ candidate.artifacts.web_image_digest)
      × (o.configuration_fingerprint ≡ candidate.artifacts.configuration_fingerprint)
of_release candidate o h = (ground arith, ground arith, ground arith, ground arith, ground arith)

eligible-some :
    (o : BetaReliabilityObservationRecord) (now : ℕ)
    → (reliability_observation_eligible (some o) now).0 ≡ true
    → (o.status ≡ passed)
      × (o.window_started_at + hours 48 ≤ o.window_ended_at)
      × (o.window_ended_at ≤ now)
      × (now ≤ o.window_ended_at + hours 24)
unfolding reliability_observation_eligible
eligible-some o now h = (ground arith, ground arith, ground arith, ground arith)

-- An invite gate that passes rests on a passed observation in production of this very release:
-- its commit, its images and its configuration, over at least 48 hours, and ended in the last 24.
pub invite_gate-observation :
    (env : Environment) (approvals : List ProductionReleaseApprovalRecord)
    (candidate : ProductionReleaseCandidateRecord) (now : ℕ)
    → passes (invite_activation_checks env approvals candidate now) ≡ true
    → (o : BetaReliabilityObservationRecord) × (release_observation env candidate ≡ some o)
      × (o.is_production ≡ true)
      × (o.release_commit ≡ candidate.artifacts.commit_sha)
      × (o.api_image_digest ≡ candidate.artifacts.api_image_digest)
      × (o.web_image_digest ≡ candidate.artifacts.web_image_digest)
      × (o.configuration_fingerprint ≡ candidate.artifacts.configuration_fingerprint)
      × (o.status ≡ passed)
      × (o.window_started_at + hours 48 ≤ o.window_ended_at)
      × (o.window_ended_at ≤ now)
      × (now ≤ o.window_ended_at + hours 24)
unfolding release_observation reliability_observation_eligible
invite_gate-observation env approvals candidate now h =
    let eligible = (invite_gate env approvals candidate now h).2 in
    elim (Option-cases (release_observation env candidate)) [
      | inl absent ↦ absurd (cc (rw absent at eligible))
      | inr (o, found) ↦
          let own =
            newest-All (λ x. is_of_release candidate x ≡ true) (λ x. x.created_at)
              (filter_by (is_of_release candidate) env.observations) o
              (filter_by-All (is_of_release candidate) env.observations) found in
          let (of_production, commit, api, web, configuration) = of_release candidate o own in
          let (status, long, past, fresh) = eligible-some o now (rw found at eligible) in
          (o, found, of_production, commit, api, web, configuration, status, long, past, fresh)
    ]

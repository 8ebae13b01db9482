-- ===== src/ProductionRelease/Tests/Released.antt =====
-- The theorems applied to the candidate of Tests, and to one that is rejected.
use zhiniu.Prelude.{◌≡◌, ◌≢◌, refl, inl, true, none, some, codes}
use zhiniu.ProductionRelease.Models.{
  data_compliance, product_operations, deployed_observing, ready_invites, rejected, draft,
  ApprovalRole, engineering, approved, declined, ProductionReleaseCandidateRecord,
  ProductionReleaseApprovalRecord, Db, released_event,
}
use zhiniu.ProductionRelease.Checks.{
  hours, security_admin, reliability_observation_eligible, check, automation_gate_checks,
  approval_role_allowed, passes, approval_of,
}
use zhiniu.ProductionRelease.Checks.Closed.{closed_deployment_checks}
use zhiniu.ProductionRelease.Checks.Invite.{invite_activation_checks}
use zhiniu.ProductionRelease.Checks.Rows.{release_observation}
use zhiniu.ProductionRelease.Tables.{locked_candidate, set_status}
use zhiniu.ProductionRelease.Gates.{gate_checks, status_after, record_gate, evaluate}
use zhiniu.ProductionRelease.Service.{create, approve, event_allowed, record_event}
use zhiniu.ProductionRelease.Service.Steps.{Step, creates, records}
use zhiniu.ProductionRelease.Service.Transitions.{Follows, Step-Follows}
use zhiniu.ProductionRelease.Service.Lifecycle.{released_approvals}
use zhiniu.ProductionRelease.Service.Terminal.{Steps, done, ◌then◌, ended_stays}
use zhiniu.ProductionRelease.Tests.{
  artifacts, closed_env, invite_env, db_of, db1, db6, db7, db8, candidate, reached, found,
}

released_approvals_example :
    (a : ApprovalRole → ProductionReleaseApprovalRecord) × ((role : ApprovalRole)
      → (approval_of db8.approvals 10 role ≡ some (a role))
        × ((a role).decision ≡ approved)
        × ((a role).actor_user_id ≢ 1))
    × ((a engineering).actor_user_id ≢ (a data_compliance).actor_user_id)
    × ((a engineering).actor_user_id ≢ (a product_operations).actor_user_id)
    × ((a data_compliance).actor_user_id ≢ (a product_operations).actor_user_id)
released_approvals_example = released_approvals db8 10 candidate reached found refl

abbrev waiting : ProductionReleaseCandidateRecord
waiting = record candidate { status = ready_invites }

waiting_found : locked_candidate db7 10 ≡ some waiting
unfolding create approve evaluate record_event locked_candidate set_status record_gate gate_checks
    status_after event_allowed approval_role_allowed passes check automation_gate_checks approval_of
    closed_deployment_checks invite_activation_checks release_observation
    reliability_observation_eligible
waiting_found = refl

release : Step db7 db8
unfolding create approve evaluate record_event locked_candidate set_status record_gate gate_checks
    status_after event_allowed approval_role_allowed passes check automation_gate_checks approval_of
    closed_deployment_checks invite_activation_checks release_observation
    reliability_observation_eligible
release = records invite_env 10 released_event (codes "v1") none 1 (hours 171) 31 refl

Step-Follows_example :
    (c' : ProductionReleaseCandidateRecord) × (locked_candidate db8 10 ≡ some c')
    × Follows waiting c'
Step-Follows_example = Step-Follows db7 db8 10 waiting release waiting_found

abbrev rejected_db : Db
rejected_db = db_of (approve db1 10 engineering declined none 2 security_admin 20)

abbrev later_db : Db
later_db = db_of (create rejected_db (record artifacts { commit_sha = 99 }) 1 11)

abbrev rejected_candidate : ProductionReleaseCandidateRecord
rejected_candidate = record candidate { status = rejected }

rejected_found : locked_candidate rejected_db 10 ≡ some rejected_candidate
unfolding create approve locked_candidate set_status approval_role_allowed
rejected_found = refl

later : Steps rejected_db later_db
unfolding create approve locked_candidate set_status approval_role_allowed
later = creates (record artifacts { commit_sha = 99 }) 1 11 refl then done

ended_stays_example :
    (c' : ProductionReleaseCandidateRecord) × (locked_candidate later_db 10 ≡ some c')
    × (c'.status ≡ rejected)
    × (c'.artifacts ≡ artifacts)
    × (c'.created_by_user_id ≡ 1)
ended_stays_example =
    ended_stays rejected_db later_db 10 rejected_candidate later rejected_found (inl refl)

abbrev observed : ProductionReleaseCandidateRecord
observed = record candidate { status = deployed_observing }

abbrev drafted : ProductionReleaseCandidateRecord
drafted = record candidate { status = draft }

closed_passes :
    passes (closed_deployment_checks closed_env db6.approvals drafted (hours 105)) ≡ true
unfolding create approve evaluate record_event locked_candidate set_status record_gate gate_checks
    status_after event_allowed approval_role_allowed passes check automation_gate_checks approval_of
    closed_deployment_checks invite_activation_checks release_observation
    reliability_observation_eligible
closed_passes = refl

invite_passes :
    passes (invite_activation_checks invite_env db6.approvals observed (hours 170)) ≡ true
unfolding create approve evaluate record_event locked_candidate set_status record_gate gate_checks
    status_after event_allowed approval_role_allowed passes check automation_gate_checks approval_of
    closed_deployment_checks invite_activation_checks release_observation
    reliability_observation_eligible
invite_passes = refl

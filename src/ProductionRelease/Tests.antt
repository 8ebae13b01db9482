-- ===== src/ProductionRelease/Tests.antt =====
-- A candidate from its creation to its release.
mod Released
use zhiniu.Prelude.{
  ℕ, ◌+◌, ◌≤◌, ◌≡◌, ◌≢◌, refl, inl, inr, true, false, none, some, List, [], ◌∷◌, codes,
}
use zhiniu.ProductionRelease.Models.{
  closed_deployment, invite_activation, released, rejected, passed, ApprovalRole, engineering,
  data_compliance, product_operations, approved, declined, deployed_event, released_event,
  ProductionReleaseCandidateCreate, ProductionReleaseCandidateRecord,
  ProductionReleaseApprovalRecord, Db,
}
use zhiniu.ProductionRelease.Environment.{
  production, closed, invite_only, review_approved, Settings, BetaReliabilityObservationRecord,
  Environment,
}
use zhiniu.ProductionRelease.Checks.{
  hours, operations, security_admin, reliability_observation_eligible, check,
  automation_gate_checks, approval_role_allowed, passes, approval_of,
}
use zhiniu.ProductionRelease.Checks.Closed.{closed_deployment_checks, migration_head}
use zhiniu.ProductionRelease.Checks.Invite.{invite_activation_checks}
use zhiniu.ProductionRelease.Checks.Rows.{release_observation}
use zhiniu.ProductionRelease.Checks.Verdicts.{gates_exclusive, invite_gate-observation}
use zhiniu.ProductionRelease.Tables.{Result, refused, committed, locked_candidate, set_status}
use zhiniu.ProductionRelease.Gates.{gate_checks, status_after, record_gate, evaluate}
use zhiniu.ProductionRelease.Service.{create, approve, event_allowed, record_event}
use zhiniu.ProductionRelease.Service.Steps.{
  Step, creates, evaluates, approves, records, Reachable, empty, after,
}
use zhiniu.ProductionRelease.Service.Transitions.{Follows, Step-Follows}
use zhiniu.ProductionRelease.Service.Lifecycle.{released_approvals}
use zhiniu.ProductionRelease.Service.Terminal.{Steps, done, ◌then◌, ended_stays}

abbrev pub artifacts : ProductionReleaseCandidateCreate
artifacts = record {
  commit_sha = 71;
  migration_head = migration_head;
  api_image_digest = 72;
  web_image_digest = 73;
  configuration_fingerprint = 74;
  sbom_sha256 = 75;
  backup_sha256 = 76;
  restore_verified_at = hours 100;
  quality_gate_status = passed;
  e2e_status = passed;
  security_scan_status = passed;
}

abbrev closed_settings : Settings
closed_settings = record {
  app_env = production;
  registration_mode = closed;
  beta_max_active_users = 2;
  legal_review_status = review_approved;
  data_use_status = review_approved;
  automation_hard_disabled = true;
  watchlist_preparation_enabled = false;
}

abbrev observation : BetaReliabilityObservationRecord
observation = record {
  id = 81;
  is_production = true;
  status = passed;
  release_commit = 71;
  api_image_digest = 72;
  web_image_digest = 73;
  migration_head = migration_head;
  configuration_fingerprint = 74;
  window_started_at = hours 110;
  window_ended_at = hours 160;
  created_at = hours 161;
}

abbrev pub closed_env : Environment
closed_env = record {
  settings = closed_settings;
  runtime_reason = none;
  alembic_version = some migration_head;
  observations = observation ∷ [];
  acceptance_runs =
      record {
        id = 82;
        environment = codes "production";
        usage_scope = codes "production";
        status = codes "passed";
        beta_eligible = true;
        finished_at = hours 160;
        created_at = hours 160;
      }
      ∷ [];
  diagnostics =
      record {
        provider = codes "resend";
        target = codes "active";
        status = codes "healthy";
        checked_at = hours 160;
      }
      ∷ [];
  deliveries = record { id = 83; status = codes "delivered"; delivered_at = some (hours 160) } ∷ [];
  provider_events =
      record {
        id = 84;
        provider = codes "resend";
        status = codes "processed";
        received_at = hours 160;
      }
      ∷ [];
  feedback = [];
  user_statuses = codes "active" ∷ [];
  resend_runtime = some (record {
    source = codes "database";
    enabled = true;
    has_api_key = true;
    has_webhook_secret = true;
  });
  isoformat = λ moment. moment ∷ [];
  fingerprint = λ evidence. 0;
  result_fingerprint = λ id gate status checks. 0;
}

abbrev pub invite_env : Environment
invite_env = record closed_env {
  settings = record closed_settings {
    registration_mode = invite_only;
    automation_hard_disabled = false;
    watchlist_preparation_enabled = true;
  };
}

abbrev pub db_of : Result → Db
db_of (committed db) = db
db_of (refused e) = record { candidates = []; approvals = []; events = []; runs = []; items = [] }

abbrev pub db0 : Db
db0 = record { candidates = []; approvals = []; events = []; runs = []; items = [] }

abbrev pub db1 : Db
db1 = db_of (create db0 artifacts 1 10)

abbrev db2 : Db
db2 = db_of (approve db1 10 engineering approved none 2 security_admin 20)

abbrev db3 : Db
db3 = db_of (evaluate closed_env db2 10 closed_deployment (hours 105) (hours 105) (λ i. i))

abbrev db4 : Db
db4 = db_of (record_event closed_env db3 10 deployed_event (codes " v1 ") none 1 (hours 106) 30)

abbrev db5 : Db
db5 = db_of (approve db4 10 data_compliance approved none 3 security_admin 21)

abbrev pub db6 : Db
db6 = db_of (approve db5 10 product_operations approved none 4 operations 22)

abbrev pub db7 : Db
db7 = db_of (evaluate invite_env db6 10 invite_activation (hours 170) (hours 170) (λ i. 100 + i))

abbrev pub db8 : Db
db8 = db_of (record_event invite_env db7 10 released_event (codes "v1") none 1 (hours 171) 31)

abbrev pub candidate : ProductionReleaseCandidateRecord
candidate = record { id = 10; status = released; artifacts = artifacts; created_by_user_id = 1 }

pub reached : Reachable db8
unfolding create approve evaluate record_event locked_candidate set_status record_gate gate_checks
    status_after event_allowed approval_role_allowed passes check automation_gate_checks approval_of
    closed_deployment_checks invite_activation_checks release_observation
    reliability_observation_eligible
reached =
    after
      (after
        (after
          (after
            (after
              (after
                (after (after empty (creates artifacts 1 10 refl))
                  (approves 10 engineering approved none 2 security_admin 20 refl))
                (evaluates closed_env 10 closed_deployment (hours 105) (hours 105) (λ i. i) refl))
              (records closed_env 10 deployed_event (codes " v1 ") none 1 (hours 106) 30 refl))
            (approves 10 data_compliance approved none 3 security_admin 21 refl))
          (approves 10 product_operations approved none 4 operations 22 refl))
        (evaluates invite_env 10 invite_activation (hours 170) (hours 170) (λ i. 100 + i) refl))
      (records invite_env 10 released_event (codes "v1") none 1 (hours 171) 31 refl)

pub found : locked_candidate db8 10 ≡ some candidate
unfolding create approve evaluate record_event locked_candidate set_status record_gate gate_checks
    status_after event_allowed approval_role_allowed passes check automation_gate_checks approval_of
    closed_deployment_checks invite_activation_checks release_observation
    reliability_observation_eligible
found = refl

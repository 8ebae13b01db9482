-- ===== src/AccessControl/Tests.antt =====
-- Runs of access_control/ at concrete inputs, and the theorems applied to them.
mod Redeeming
use mathlib.Core.List.{foldl}
use zhiniu.Prelude.{
  ℕ, ◌+◌, ◌*◌, ◌≤◌, ◌<◌, ◌%◌, true, false, ◌≡◌, refl, none, some, List, [], ◌∷◌, ◌++◌, ◌↔◌, arith,
  codes, min, inl, inr, Option, all_by, length,
}
use zhiniu.DateTime.{DateTime, IsDateTime, stamp, add_days, is_leap, days_in_month}
use zhiniu.AccessControl.Codes.{
  CodeDomain, inv, act, generate_code, canonicalize_code, compact_code, code_body, code_hmac,
  code_prefix, domain_text, in_alphabet, groups_of_four,
}
use zhiniu.AccessControl.Codes.RoundTrip.{
  canonicalize-generate, canonicalize-IsBody, canonicalize_idempotent, IsBody,
}
use zhiniu.AccessControl.Store.{
  month, active, User, AccessActivationCodeRecord, PlanVersionRecord, SubscriptionRecord, Db,
  Settings, ok,
}
use zhiniu.AccessControl.Terms.{add_calendar_term}
use zhiniu.AccessControl.Terms.Order.{add_calendar_term_months, add_calendar_term-later, months_of}
use zhiniu.AccessControl.Entitlements.{
  AccessStatus, basic, enabled, expired, EffectiveEntitlements, activation_available,
  effective_entitlements, select_plan, get_subscription,
}
use zhiniu.AccessControl.Entitlements.Status.{IsPaid, entitlements_status}
use zhiniu.AccessControl.Issuing.{
  Draws, IssuedAccessCode, issue_access_code, issued_batch, issued_code, with_issued,
  advanced_plan_version_id,
}
use zhiniu.AccessControl.Issuing.Redeemable.{IsNew, issued_digest, issued_code_activates}
use zhiniu.AccessControl.Activation.Steps.{IsPlanned}
use zhiniu.AccessControl.Activation.{
  Environment, Grant, find_activation, usable_batch, plan_grant, activate, answer,
}

abbrev pub moment : ℕ → ℕ → ℕ → DateTime
moment y m d = record { year = y; month = m; day = d; micros = 3600000000 }

abbrev pub digest : List ℕ → List ℕ → ℕ
digest secret message = foldl (λ h c. (h * 131 + c) % 1000000007) 7 (secret ++ message)

abbrev pub settings : Settings
settings = record {
  access_activation_enabled = true;
  app_env = codes "test";
  commercialization_status = codes "pending";
  support_contact_url = [];
  registration_invite_hmac_secret = codes "invite-secret";
  access_activation_hmac_secret = codes "access-secret";
}

abbrev pub environment : Environment
environment = record {
  settings = settings;
  hmac = digest;
  subscription_id = 500;
  redemption_id = 600;
  clock = moment 2026 1 31;
}

abbrev pub user : User
user = record {
  id = 7;
  email = codes "user@example.com";
  password_hash = codes "hash of old";
  base_plan_version_id = 1;
  status = codes "active";
  last_login_at = none;
  email_verified_at = some (moment 2025 12 1);
  password_changed_at = none;
}

abbrev pub base_plan : PlanVersionRecord
base_plan = record { id = 1; features = (codes "screening", false) ∷ []; limits = [] }

abbrev pub advanced_plan : PlanVersionRecord
advanced_plan = record {
  id = 0x10000000000040008000000000000009;
  features = (codes "screening", true) ∷ [];
  limits = (codes "watchlist", 50) ∷ [];
}

abbrev pub subscription : SubscriptionRecord
subscription = record {
  id = 400;
  user_id = 7;
  plan_code = codes "advanced";
  plan_version_id = 0x10000000000040008000000000000009;
  status = active;
  current_period_start = moment 2026 1 1;
  current_period_end = moment 2026 1 31;
  activation_source = codes "activation_code";
  revoked_at = none;
}

abbrev pub store : Db
store = record {
  users = user ∷ [];
  plan_versions = base_plan ∷ advanced_plan ∷ [];
  subscriptions = subscription ∷ [];
  batches = [];
  activation_codes = [];
  redemptions = [];
  invite_batches = [];
  invites = [];
}

abbrev pub body : List ℕ
body = codes "ABCDEFGHJKLMNPQRSTUVWXYZ23"

generate_act : generate_code act body ≡ codes "ACT-ABCD-EFGH-JKLM-NPQR-STUV-WXYZ-23"
unfolding generate_code
generate_act = refl

canonicalize-generate_example :
    canonicalize_code (generate_code act body) act ≡ some (domain_text act ++ body)
canonicalize-generate_example = canonicalize-generate act body refl refl

typed : canonicalize_code (codes " inv-abcd efgh") inv ≡ some (codes "INVABCDEFGH")
unfolding canonicalize_code compact_code code_body
typed = refl

canonicalize-IsBody_example :
    (t : List ℕ) × (codes "INVABCDEFGH" ≡ domain_text inv ++ t)
    × IsBody inv t
    × (all_by in_alphabet t ≡ true)
canonicalize-IsBody_example =
    canonicalize-IsBody inv (codes " inv-abcd efgh") (codes "INVABCDEFGH") typed

-- The last day of January goes to the last day of February.
pub add_month : add_calendar_term (moment 2026 1 31) month ≡ some (moment 2026 2 28)
unfolding add_calendar_term days_in_month
add_month = refl

moment-IsDateTime : IsDateTime (moment 2026 1 31)
unfolding days_in_month
moment-IsDateTime = omega arith

add_calendar_term_months_example :
    let d = moment 2026 1 31 in
    let e = moment 2026 2 28 in
    (e.year * 12 + e.month ≡ d.year * 12 + d.month + months_of month)
    × (e.day ≡ min d.day (days_in_month e.year e.month))
    × (e.micros ≡ d.micros)
add_calendar_term_months_example =
    add_calendar_term_months (moment 2026 1 31) (moment 2026 2 28) month moment-IsDateTime add_month

-- The user has paid access up to the end of January 30.
abbrev entitlements : EffectiveEntitlements
entitlements = record {
  access_status = enabled;
  valid_until = some (moment 2026 1 31);
  features = (codes "screening", true) ∷ [];
  limits = (codes "watchlist", 50) ∷ [];
}

entitled : effective_entitlements store 7 (moment 2026 1 20) ≡ ok entitlements
unfolding effective_entitlements select_plan
entitled = refl

entitlements_status_example :
    ((entitlements.access_status ≡ enabled) ↔ IsPaid subscription (moment 2026 1 20))
    × ((entitlements.access_status ≡ expired)
        ↔ (stamp subscription.current_period_end ≤ stamp (moment 2026 1 20)))
    × (entitlements.valid_until ≡ some subscription.current_period_end)
entitlements_status_example =
    entitlements_status store 7 (moment 2026 1 20) subscription entitlements refl entitled

-- ===== src/AccessControl/Entitlements.antt =====
-- `effective_entitlements`, `access_envelope` and `activation_available` of
-- access_control/service.py.
pub mod Status
use zhiniu.Prelude.{
  ℕ, Bool, true, false, not, ◌&&◌, Option, none, some, List, [], codes, text_eq, find, ◌==◌,
  if◌then◌else◌,
}
use zhiniu.DateTime.{DateTime, before, not_after}
use zhiniu.AccessControl.Store.{
  SubscriptionStatus, active, other_status, User, PlanVersionRecord, SubscriptionRecord, Db,
  Settings, Result, ok, err, base_plan_version_not_found, subscription_plan_version_not_found,
  user_not_found, ◌>>=◌, or_raise,
}

pub data AccessStatus : Type 0 where
  basic enabled expired : AccessStatus

pub record EffectiveEntitlements : Type 0 where
  pub access_status : AccessStatus
  pub valid_until : Option DateTime
  pub features : List (List ℕ × Bool)
  pub limits : List (List ℕ × ℕ)

-- The response models: `AccessActivationResponse` is an envelope with the last two fields.
pub record AccessEnvelope : Type 0 where
  pub entitlements : EffectiveEntitlements
  pub open entitlements use *
  pub activation_available : Bool
  pub support_contact_url : Option (List ℕ)

abbrev pub is_active : SubscriptionStatus → Bool
is_active active = true
is_active other_status = false

-- `session.get` and the `select ... where` of the service
abbrev pub get_user : Db → ℕ → Option User
get_user db user_id = find (λ u. u.id == user_id) db.users

abbrev pub get_plan : Db → ℕ → Option PlanVersionRecord
get_plan db plan_id = find (λ p. p.id == plan_id) db.plan_versions

abbrev pub get_subscription : Db → ℕ → Option SubscriptionRecord
get_subscription db user_id = find (λ s. s.user_id == user_id) db.subscriptions

-- The test of the paid period at a moment.
abbrev pub in_force : SubscriptionRecord → DateTime → Bool
in_force s at =
    is_active s.status
    && not (elim s.revoked_at [ none ↦ false | some _ ↦ true ])
    && not_after s.current_period_start at
    && before at s.current_period_end

abbrev entitlements_of : AccessStatus → Option DateTime → PlanVersionRecord → EffectiveEntitlements
entitlements_of status valid_until plan = record {
  access_status = status;
  valid_until = valid_until;
  features = plan.features;
  limits = plan.limits;
}

-- The branch on the subscription, once the user's base plan is known.
unfoldable pub select_plan :
    Db → PlanVersionRecord → Option SubscriptionRecord → DateTime → Result EffectiveEntitlements
select_plan db base none at = ok (entitlements_of basic none base)
select_plan db base (some s) at =
    if in_force s at
    then (do
      advanced ← or_raise (get_plan db s.plan_version_id) subscription_plan_version_not_found
      ok (entitlements_of enabled (some s.current_period_end) advanced))
    else if not_after s.current_period_end at
    then ok (entitlements_of expired (some s.current_period_end) base)
    else ok (entitlements_of basic (some s.current_period_end) base)

-- `effective_entitlements`; `at` is the argument `now`, or the clock where that is None
unfoldable pub effective_entitlements : Db → ℕ → DateTime → Result EffectiveEntitlements
effective_entitlements db user_id at = do
  user ← or_raise (get_user db user_id) user_not_found
  base ← or_raise (get_plan db user.base_plan_version_id) base_plan_version_not_found
  select_plan db base (get_subscription db user_id) at

-- `activation_available`
unfoldable pub activation_available : Settings → Bool
activation_available settings =
    if not settings.access_activation_enabled
    then false
    else if not (text_eq settings.app_env (codes "production"))
    then true
    else text_eq settings.commercialization_status (codes "approved")

-- `value or None` on a text
abbrev text_or_none : List ℕ → Option (List ℕ)
text_or_none [] = none
text_or_none text = some text

-- `access_envelope`, read at the time of the clock
unfoldable pub access_envelope : Settings → Db → ℕ → DateTime → Result AccessEnvelope
access_envelope settings db user_id clock = do
  entitlements ← effective_entitlements db user_id clock
  ok (record {
    entitlements = entitlements;
    activation_available = activation_available settings;
    support_contact_url = text_or_none settings.support_contact_url;
  })

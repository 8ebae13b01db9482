-- ===== src/AccessControl/Entitlements/Status.antt =====
-- When a user has paid access.
use zhiniu.Prelude.{ℕ, ◌≡◌, ◌↔◌, ◌≤◌, ◌<◌, none, some, arith, inl, inr, Option-cases, subst}
use zhiniu.DateTime.{DateTime, stamp}
use zhiniu.AccessControl.Store.{active, User, PlanVersionRecord, SubscriptionRecord, Db, ok}
use zhiniu.AccessControl.Entitlements.{
  enabled, expired, EffectiveEntitlements, get_user, get_plan, get_subscription, select_plan,
  effective_entitlements,
}

-- What the subscription of a user says of a moment.
abbrev pub IsPaid : SubscriptionRecord → DateTime → Type 0
IsPaid s at =
    (s.status ≡ active)
    × (s.revoked_at ≡ none)
    × (stamp s.current_period_start ≤ stamp at)
    × (stamp at < stamp s.current_period_end)

effective-select :
    (db : Db) (user_id : ℕ) (at : DateTime) (e : EffectiveEntitlements)
    → effective_entitlements db user_id at ≡ ok e
    → (base : PlanVersionRecord) × (select_plan db base (get_subscription db user_id) at ≡ ok e)
unfolding effective_entitlements
effective-select db user_id at e k = elim (Option-cases (get_user db user_id)) [
  | inl missing ↦ ground arith
  | inr (user, found) ↦ elim (Option-cases (get_plan db user.base_plan_version_id)) [
    | inl missing ↦ ground arith
    | inr (base, known) ↦ (base, ground arith)
  ]
]

select_plan_status :
    (db : Db) (base : PlanVersionRecord) (at : DateTime) (s : SubscriptionRecord)
    (e : EffectiveEntitlements)
    → select_plan db base (some s) at ≡ ok e
    → ((e.access_status ≡ enabled) ↔ IsPaid s at)
      × ((e.access_status ≡ expired) ↔ (stamp s.current_period_end ≤ stamp at))
      × (e.valid_until ≡ some s.current_period_end)
unfolding select_plan
select_plan_status db base at s e k = ground arith

-- The status of an answer is read off the subscription: enabled exactly in a paid period that has
-- not been revoked, expired exactly from its end on, and the end is what the answer reports.
pub entitlements_status :
    (db : Db) (user_id : ℕ) (at : DateTime) (s : SubscriptionRecord) (e : EffectiveEntitlements)
    → get_subscription db user_id ≡ some s
    → effective_entitlements db user_id at ≡ ok e
    → ((e.access_status ≡ enabled) ↔ IsPaid s at)
      × ((e.access_status ≡ expired) ↔ (stamp s.current_period_end ≤ stamp at))
      × (e.valid_until ≡ some s.current_period_end)
unfolding effective_entitlements
entitlements_status db user_id at s e h k =
    let (base, g) = effective-select db user_id at e k in
    select_plan_status db base at s e (subst (λ o. select_plan db base o at ≡ ok e) h g)

-- A paid period of the row is what the entitlements report, with the features of its plan.
pub paid-enabled :
    (user_id : ℕ) (at : DateTime) (db' : Db) (u : User) (base plan : PlanVersionRecord)
    (s : SubscriptionRecord)
    → get_user db' user_id ≡ some u
    → get_plan db' u.base_plan_version_id ≡ some base
    → get_subscription db' user_id ≡ some s
    → get_plan db' s.plan_version_id ≡ some plan
    → IsPaid s at
    → effective_entitlements db' user_id at
      ≡ ok (record {
        access_status = enabled;
        valid_until = some s.current_period_end;
        features = plan.features;
        limits = plan.limits;
      })
unfolding effective_entitlements select_plan
paid-enabled db' u base plan s hu hb hs hp paid = ground arith

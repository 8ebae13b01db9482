-- ===== src/AccessControl/Activation/Repeat.antt =====
-- The same code again, and what the user may do after a redemption.
use zhiniu.Prelude.{
  ℕ, true, ◌≡◌, refl, ap, ◌∙◌, inl, inr, none, some, List, arith, Option-cases, find-append_none,
  find-map, ==_refl, ◌==◌, ◌&&◌, if◌then◌else◌,
}
use zhiniu.DateTime.{DateTime, IsDateTime}
use zhiniu.AccessControl.Codes.{act, code_hmac}
use zhiniu.AccessControl.Store.{
  AccessActivationCodeRecord, AccessActivationRedemptionRecord, PlanVersionRecord, User, Db, ok,
}
use zhiniu.AccessControl.Entitlements.{
  get_subscription, get_user, get_plan, effective_entitlements, enabled,
}
use zhiniu.AccessControl.Entitlements.Status.{paid-enabled}
use zhiniu.AccessControl.Activation.{
  Environment, Grant, find_activation, get_code, get_redemption, mark_redeemed,
  granted_subscription, redeem, answer, activate,
}
use zhiniu.AccessControl.Activation.Grants.{
  HasBegun, plan_grant-IsGrant, granted-plan, granted-IsPaid, get_subscription-redeem,
}
use zhiniu.AccessControl.Activation.Steps.{IsPlanned, planned-eq, reused-eq}

-- Another request of the same service: other identifiers and another clock.
abbrev pub later_request : Environment → ℕ → ℕ → DateTime → Environment
later_request env subscription_id redemption_id clock = record env {
  subscription_id = subscription_id;
  redemption_id = redemption_id;
  clock = clock;
}

-- The row of the code after the redemption.
abbrev redeemed_code :
    ℕ
    → DateTime
    → AccessActivationCodeRecord
    → AccessActivationCodeRecord
    → AccessActivationCodeRecord
redeemed_code user_id at activation c =
    if c.id == activation.id then mark_redeemed user_id at c else c

same_code :
    (user_id : ℕ) (at : DateTime) (activation c : AccessActivationCodeRecord) (digest : ℕ)
    → ((redeemed_code user_id at activation c).code_hmac == digest) ≡ (c.code_hmac == digest)
same_code user_id at activation c digest = ground arith

-- The checks of the user and the code pass again, on the marked row.
find_activation-redeem :
    (env : Environment) (db : Db) (user_id : ℕ) (code : List ℕ) (at : DateTime)
    (activation : AccessActivationCodeRecord) (g : Grant) (s r : ℕ) (clock : DateTime)
    → find_activation env db user_id code ≡ ok activation
    → find_activation
        (later_request env s r clock)
        (redeem env db user_id activation at g)
        user_id
        code
      ≡ ok (mark_redeemed user_id at activation)
unfolding find_activation redeem
find_activation-redeem env db user_id code at activation g s r clock h =
    elim (Option-cases (code_hmac env.hmac code act env.settings.access_activation_hmac_secret)) [
      | inl malformed ↦ ground arith
      | inr (digest, formed) ↦ elim (Option-cases (get_code db digest)) [
        | inl unknown ↦ ground arith
        | inr (c, known) ↦ ground (
          arith,
          formed,
          known,
          find-map (λ x. x.code_hmac == digest) (redeemed_code user_id at activation)
              db.activation_codes c (λ x. same_code user_id at activation x digest) known,
        )
      ]
    ]

recorded :
    (env : Environment) (db : Db) (user_id : ℕ) (activation : AccessActivationCodeRecord)
    (at : DateTime) (g : Grant)
    → get_redemption db activation.id user_id ≡ none
    → (r : AccessActivationRedemptionRecord) × (get_redemption
          (redeem env db user_id activation at g)
          activation.id
          user_id
        ≡ some r)
      × (r.id ≡ env.redemption_id)
unfolding redeem
recorded env db user_id activation at g h =
    let row : AccessActivationRedemptionRecord = record {
      id = env.redemption_id;
      activation_code_id = activation.id;
      user_id = user_id;
      plan_version_id = g.batch.plan_version_id;
      term_kind = g.term_kind;
      previous_period_end = g.previous_end;
      new_period_start = g.period_start;
      new_period_end = g.period_end;
      redeemed_at = at;
    } in
    (
      row,
      find-append_none (λ r. (r.activation_code_id == activation.id) && (r.user_id == user_id))
          db.redemptions row h (rw (==_refl activation.id, ==_refl user_id)),
      refl,
    )

module _ (env : Environment) (db : Db) (user_id : ℕ) (code : List ℕ) (at : DateTime) where
  -- After a redemption, the same request at any later moment gives no more time: it changes
  -- nothing and answers with the identifier of the first redemption, marked as reused.
  pub activate_again :
      (activation : AccessActivationCodeRecord) (g : Grant) (s r : ℕ) (clock again : DateTime)
      → IsPlanned env db user_id code at activation g
      → let db' = (activate env db user_id code at).1 in
        let env' = later_request env s r clock in
        activate env' db' user_id code again ≡ (answer env' db' user_id env.redemption_id true, db')
  activate_again activation g s r clock again h =
      let env' = later_request env s r clock in
      let db' = redeem env db user_id activation at g in
      let e = ap (λ p. p.1) (planned-eq env db user_id code at activation g h) in
      let (row, found, id) = recorded env db user_id activation at g h.fresh in
      rw e (
        reused-eq env' db' user_id code again (mark_redeemed user_id at activation) row
          (find_activation-redeem env db user_id code at activation g s r clock h.checked) found
        ∙ ap (λ k. (answer env' db' user_id k true, db')) id)

  -- At the moment of a redemption the user's entitlements are those of the plan of the batch alone,
  -- up to the end of the granted period: whatever the base plan has is replaced, not added to.
  pub activation_entitles :
      (activation : AccessActivationCodeRecord) (g : Grant) (u : User)
      (base plan : PlanVersionRecord)
      → IsDateTime at
      → HasBegun (get_subscription db user_id) at
      → IsPlanned env db user_id code at activation g
      → get_user db user_id ≡ some u
      → get_plan db u.base_plan_version_id ≡ some base
      → get_plan db g.batch.plan_version_id ≡ some plan
      → effective_entitlements (activate env db user_id code at).1 user_id at
        ≡ ok (record {
          access_status = enabled;
          valid_until = some g.period_end;
          features = plan.features;
          limits = plan.limits;
        })
  unfolding redeem
  activation_entitles activation g u base plan v begun h hu hb hp =
      let row = get_subscription db user_id in
      let s = granted_subscription env.subscription_id user_id at g row in
      let i = plan_grant-IsGrant db user_id activation at g h.planned in
      let (same_plan, same_end) = granted-plan env.subscription_id user_id at g row in
      let (paid, _) =
        granted-IsPaid env.subscription_id user_id at g row v begun i.from_end i.from_start
          i.to_end in
      let e = ap (λ p. p.1) (planned-eq env db user_id code at activation g h) in
      rw e (
        paid-enabled user_id at (redeem env db user_id activation at g) u base plan s hu hb
          (get_subscription-redeem env db user_id activation at g) (rw same_plan hp) paid
        ∙ rw same_end)

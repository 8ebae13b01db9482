-- ===== src/AccessControl/Activation/Grants.antt =====
-- What a redemption gives: time that is never less than what was there, and paid access in it.
use zhiniu.Prelude.{
  ℕ, true, ◌≡◌, ◌≤◌, ◌<◌, refl, sym, ap, ◌∙◌, inl, inr, Option, none, some, List, arith,
  find-append_none, find-replace, find-holds, ==_refl, ◌==◌,
}
use zhiniu.DateTime.{DateTime, IsDateTime, stamp}
use zhiniu.AccessControl.Store.{
  AccessActivationCodeRecord, SubscriptionRecord, Db, Result-cases, ok,
}
use zhiniu.AccessControl.Terms.{add_calendar_term}
use zhiniu.AccessControl.Terms.Order.{add_calendar_term-later}
use zhiniu.AccessControl.Entitlements.{get_subscription}
use zhiniu.AccessControl.Entitlements.Status.{IsPaid}
use zhiniu.AccessControl.Activation.{
  Environment, Grant, plan_grant, usable_batch, end_of, period_start_of, granted_subscription,
  put_subscription, redeem, activate,
}
use zhiniu.AccessControl.Activation.Steps.{IsPlanned, planned-eq}

-- What `plan_grant` fixes.
pub record IsGrant (db : Db) (user_id : ℕ) (at : DateTime) (g : Grant) : Type 0 where
  pub from_end : g.previous_end ≡ end_of (get_subscription db user_id)
  pub from_start : g.period_start ≡ period_start_of at g.previous_end
  pub to_end : add_calendar_term g.period_start g.batch.term_kind ≡ some g.period_end
  pub term : g.term_kind ≡ g.batch.term_kind

pub plan_grant-IsGrant :
    (db : Db) (user_id : ℕ) (activation : AccessActivationCodeRecord) (at : DateTime) (g : Grant)
    → plan_grant db user_id activation at ≡ ok g
    → IsGrant db user_id at g
unfolding plan_grant
plan_grant-IsGrant db user_id activation at g h =
    elim (Result-cases (usable_batch db activation at)) [
      | inl (e, bad) ↦ ground arith
      | inr (b, good) ↦ ground arith
    ]

granted_user :
    (new_id user_id : ℕ) (at : DateTime) (g : Grant) (o : Option SubscriptionRecord)
    → ((s : SubscriptionRecord) → o ≡ some s → (s.user_id == user_id) ≡ true)
    → ((granted_subscription new_id user_id at g o).user_id == user_id) ≡ true
unfolding granted_subscription
granted_user new_id user_id at g none h = ==_refl user_id
granted_user new_id user_id at g (some s) h = h s refl

find-put :
    (db : Db) (new_id user_id : ℕ) (at : DateTime) (g : Grant) (o : Option SubscriptionRecord)
    → get_subscription db user_id ≡ o
    → get_subscription
        (record db {
          subscriptions =
              put_subscription (granted_subscription new_id user_id at g o) o db.subscriptions;
        })
        user_id
      ≡ some (granted_subscription new_id user_id at g o)
unfolding put_subscription
find-put db new_id user_id at g none h =
    find-append_none (λ s. s.user_id == user_id) db.subscriptions
      (granted_subscription new_id user_id at g none) h
      (granted_user new_id user_id at g none (λ s e. cc))
find-put db new_id user_id at g (some old) h =
    find-replace (λ s. s.user_id == user_id) (λ s. s.id) db.subscriptions old
      (granted_subscription new_id user_id at g (some old)) h
      (granted_user new_id user_id at g (some old)
        (λ s e. find-holds (λ r. r.user_id == user_id) db.subscriptions s (h ∙ e)))

-- The row of the user after a redemption is the granted one.
pub get_subscription-redeem :
    (env : Environment) (db : Db) (user_id : ℕ) (activation : AccessActivationCodeRecord)
    (at : DateTime) (g : Grant)
    → get_subscription (redeem env db user_id activation at g) user_id
      ≡ some (granted_subscription env.subscription_id user_id at g (get_subscription db user_id))
unfolding redeem
get_subscription-redeem env db user_id activation at g =
    find-put db env.subscription_id user_id at g (get_subscription db user_id) refl

-- The user's row, where there is one, ends at a date that exists and has begun by the moment.
abbrev pub HasBegun : Option SubscriptionRecord → DateTime → Type 0
HasBegun none at = Unit
HasBegun (some s) at = IsDateTime s.current_period_end × (stamp s.current_period_start ≤ stamp at)

-- The end of the earlier period, if any, lies before a moment.
abbrev pub EndsBefore : Option SubscriptionRecord → DateTime → Type 0
EndsBefore none e = Unit
EndsBefore (some s) e = stamp s.current_period_end < stamp e

pub granted-plan :
    (new_id user_id : ℕ) (at : DateTime) (g : Grant) (o : Option SubscriptionRecord)
    → let s = granted_subscription new_id user_id at g o in
      (s.plan_version_id ≡ g.batch.plan_version_id) × (s.current_period_end ≡ g.period_end)
unfolding granted_subscription
granted-plan new_id user_id at g none = (refl, refl)
granted-plan new_id user_id at g (some s) = (refl, refl)

pub granted-IsPaid :
    (new_id user_id : ℕ) (at : DateTime) (g : Grant) (o : Option SubscriptionRecord)
    → IsDateTime at
    → HasBegun o at
    → g.previous_end ≡ end_of o
    → g.period_start ≡ period_start_of at g.previous_end
    → add_calendar_term g.period_start g.batch.term_kind ≡ some g.period_end
    → let s = granted_subscription new_id user_id at g o in
      IsPaid s at × EndsBefore o s.current_period_end
unfolding granted_subscription
granted-IsPaid new_id user_id at g none v begun e f t =
    ground (arith, add_calendar_term-later at g.period_end g.batch.term_kind v)
granted-IsPaid new_id user_id at g (some s) v begun e f t = ground (
  arith,
  add_calendar_term-later at g.period_end g.batch.term_kind v,
  add_calendar_term-later s.current_period_end g.period_end g.batch.term_kind begun.0,
)

module _ (env : Environment) (db : Db) (user_id : ℕ) (code : List ℕ) (at : DateTime) where
  -- A redemption puts the user into a paid period at its moment, under the plan of the batch, and
  -- the period ends one term after the later of that moment and the earlier end, so later than
  -- both.
  pub redemption_extends :
      (activation : AccessActivationCodeRecord) (g : Grant)
      → IsDateTime at
      → HasBegun (get_subscription db user_id) at
      → IsPlanned env db user_id code at activation g
      → (s : SubscriptionRecord) × (get_subscription (activate env db user_id code at).1 user_id
          ≡ some s)
        × IsPaid s at
        × (s.plan_version_id ≡ g.batch.plan_version_id)
        × (add_calendar_term
              (period_start_of at (end_of (get_subscription db user_id)))
              g.batch.term_kind
            ≡ some s.current_period_end)
        × EndsBefore (get_subscription db user_id) s.current_period_end
  redemption_extends activation g v begun h =
      let row = get_subscription db user_id in
      let s = granted_subscription env.subscription_id user_id at g row in
      let i = plan_grant-IsGrant db user_id activation at g h.planned in
      let (plan, end_eq) = granted-plan env.subscription_id user_id at g row in
      let (paid, ends) =
        granted-IsPaid env.subscription_id user_id at g row v begun i.from_end i.from_start
          i.to_end in
      (
        s,
        ap (λ r. get_subscription r.1 user_id) (planned-eq env db user_id code at activation g h)
            ∙ get_subscription-redeem env db user_id activation at g,
        paid,
        plan,
        ap (λ p. add_calendar_term (period_start_of at p) g.batch.term_kind) (sym i.from_end)
            ∙ ap (λ p. add_calendar_term p g.batch.term_kind) (sym i.from_start)
            ∙ i.to_end
            ∙ ap some (sym end_eq),
        ends,
      )

-- ===== src/AccessControl/Activation/Steps.antt =====
-- An activation leaves the database as it is, or it carries out one planned redemption.
use zhiniu.Prelude.{ℕ, true, false, ◌≡◌, ap, ◌∙◌, inl, inr, none, some, List, Option-cases}
use zhiniu.DateTime.{DateTime}
use zhiniu.AccessControl.Store.{
  AccessActivationCodeRecord, AccessActivationRedemptionRecord, Db, AccessError, Result,
  Result-cases, ok, err,
}
use zhiniu.AccessControl.Activation.{
  Environment, AccessActivationResponse, Grant, get_redemption, find_activation, plan_grant, redeem,
  answer, commit_grant, reuse_or_grant, activate_found, activate,
}

-- What a redemption rests on: the code passed the checks, it had no redemption by the user, and
-- a grant was planned.
pub record IsPlanned (env : Environment) (db : Db) (user_id : ℕ) (code : List ℕ) (at : DateTime)
    (activation : AccessActivationCodeRecord) (g : Grant) : Type 0 where
  pub checked : find_activation env db user_id code ≡ ok activation
  pub fresh : get_redemption db activation.id user_id ≡ none
  pub planned : plan_grant db user_id activation at ≡ ok g

-- How an activation ended, with the database it left.
pub data Ends (env : Environment) (db : Db) (user_id : ℕ) (code : List ℕ) (at : DateTime)
    : Result AccessActivationResponse × Db → Type 0 where
  refused : (e : AccessError) → Ends env db user_id code at (err e, db)
  repeated :
      (redemption_id : ℕ)
      → Ends env db user_id code at (answer env db user_id redemption_id true, db)
  redeemed :
      (activation : AccessActivationCodeRecord) (g : Grant)
      → IsPlanned env db user_id code at activation g
      → Ends env db user_id code at (
        answer env (redeem env db user_id activation at g) user_id env.redemption_id false,
        redeem env db user_id activation at g,
      )

module _ (env : Environment) (db : Db) (user_id : ℕ) (code : List ℕ) (at : DateTime) where
  pub planned-eq :
      (activation : AccessActivationCodeRecord) (g : Grant)
      → IsPlanned env db user_id code at activation g
      → activate env db user_id code at ≡ (
        answer env (redeem env db user_id activation at g) user_id env.redemption_id false,
        redeem env db user_id activation at g,
      )
  unfolding activate
  planned-eq activation g h =
      ap (activate_found env db user_id at) h.checked
      ∙ ap (reuse_or_grant env db user_id activation at) h.fresh
      ∙ ap (commit_grant env db user_id activation at) h.planned

  pub reused-eq :
      (activation : AccessActivationCodeRecord) (r : AccessActivationRedemptionRecord)
      → find_activation env db user_id code ≡ ok activation
      → get_redemption db activation.id user_id ≡ some r
      → activate env db user_id code at ≡ (answer env db user_id r.id true, db)
  unfolding activate
  reused-eq activation r h k =
      ap (activate_found env db user_id at) h ∙ ap (reuse_or_grant env db user_id activation at) k

  -- Every activation ends in one of the three ways.
  pub activate-Ends : Ends env db user_id code at (activate env db user_id code at)
  unfolding activate
  activate-Ends = elim (Result-cases (find_activation env db user_id code)) [
    | inl (e, bad) ↦ rw bad (refused e)
    | inr (activation, good) ↦ elim (Option-cases (get_redemption db activation.id user_id)) [
      | inr (existing, old) ↦ rw (good, old) (repeated existing.id)
      | inl fresh ↦ elim (Result-cases (plan_grant db user_id activation at)) [
        | inl (e, bad) ↦ rw (good, fresh, bad) (refused e)
        | inr (g, plan) ↦
            rw (good, fresh, plan)
              (redeemed activation g (record { checked = good; fresh = fresh; planned = plan }))
      ]
    ]
  ]

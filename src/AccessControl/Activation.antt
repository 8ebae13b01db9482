-- ===== src/AccessControl/Activation.antt =====
-- `AccessControlService.activate` of access_control/service.py. The rows that it reads are locked,
-- so an activation is one step on the database; what it raises before the commit changes nothing.
pub mod Steps
pub mod Grants
pub mod Repeat
pub mod Invariant
use zhiniu.Prelude.{
  ℕ, Bool, true, false, not, ◌&&◌, ◌||◌, Option, none, some, List, [], ◌∷◌, ◌++◌, codes, find,
  is_some, map, ◌==◌, if◌then◌else◌,
}
use zhiniu.DateTime.{DateTime, before, not_after, later}
use zhiniu.AccessControl.Codes.{act, code_hmac}
use zhiniu.AccessControl.Store.{
  TermKind, month, year, other_term, active, User, SubscriptionRecord, AccessActivationBatchRecord,
  AccessActivationCodeRecord, AccessActivationRedemptionRecord, Db, Settings, AccessError, Result,
  ok, err, access_activation_unavailable, activation_code_unavailable, email_verification_required,
  date_out_of_range, ◌>>=◌, ◌>>◌, require, or_raise,
}
use zhiniu.AccessControl.Terms.{add_calendar_term}
use zhiniu.AccessControl.Entitlements.{
  AccessEnvelope, get_user, get_subscription, activation_available, access_envelope,
}

-- The identifiers that `uuid4` draws for the new rows, and the keyed digest of the library.
pub record Environment : Type 0 where
  pub settings : Settings
  pub hmac : List ℕ → List ℕ → ℕ
  pub subscription_id : ℕ
  pub redemption_id : ℕ
  -- the clock when the envelope of the answer is read
  pub clock : DateTime

pub record AccessActivationResponse : Type 0 where
  pub access : AccessEnvelope
  pub redemption_id : ℕ
  pub reused : Bool

abbrev pub get_batch : Db → ℕ → Option AccessActivationBatchRecord
get_batch db batch_id = find (λ b. b.id == batch_id) db.batches

abbrev pub get_code : Db → ℕ → Option AccessActivationCodeRecord
get_code db digest = find (λ c. c.code_hmac == digest) db.activation_codes

abbrev pub get_redemption : Db → ℕ → ℕ → Option AccessActivationRedemptionRecord
get_redemption db code_id user_id =
    find (λ r. (r.activation_code_id == code_id) && (r.user_id == user_id)) db.redemptions

-- The checks on the user and the code, up to the select of an earlier redemption.
unfoldable pub find_activation : Environment → Db → ℕ → List ℕ → Result AccessActivationCodeRecord
find_activation env db user_id code = do
  require (activation_available env.settings) access_activation_unavailable
  user ← or_raise (get_user db user_id) activation_code_unavailable
  require (is_some user.email_verified_at) email_verification_required
  digest ←
      or_raise (code_hmac env.hmac code act env.settings.access_activation_hmac_secret)
        activation_code_unavailable
  activation ← or_raise (get_code db digest) activation_code_unavailable
  require (activation.assigned_user_id == user_id) activation_code_unavailable
  ok activation

-- The batch of a code that may still be redeemed at a moment.
unfoldable pub usable_batch :
    Db → AccessActivationCodeRecord → DateTime → Result AccessActivationBatchRecord
usable_batch db activation at = do
  batch ← or_raise (get_batch db activation.batch_id) activation_code_unavailable
  require
      (not (
        is_some activation.redeemed_at
        || is_some activation.revoked_at
        || is_some batch.revoked_at
        || not_after activation.expires_at at
        || not_after batch.expires_at at))
      activation_code_unavailable
  ok batch

-- What a redemption writes: the subscription row, and the values of the redemption row.
pub record Grant : Type 0 where
  pub batch : AccessActivationBatchRecord
  pub term_kind : TermKind
  pub previous_end : Option DateTime
  pub period_start : DateTime
  pub period_end : DateTime

-- `max(effective_at, previous_end) if previous_end else effective_at`
abbrev pub period_start_of : DateTime → Option DateTime → DateTime
period_start_of at none = at
period_start_of at (some previous_end) = later at previous_end

abbrev pub end_of : Option SubscriptionRecord → Option DateTime
end_of none = none
end_of (some s) = some s.current_period_end

abbrev pub known_term : TermKind → Bool
known_term month = true
known_term year = true
known_term other_term = false

unfoldable pub plan_grant : Db → ℕ → AccessActivationCodeRecord → DateTime → Result Grant
plan_grant db user_id activation at = do
  batch ← usable_batch db activation at
  let previous_end = end_of (get_subscription db user_id)
  let period_start = period_start_of at previous_end
  require (known_term batch.term_kind) activation_code_unavailable
  period_end ← or_raise (add_calendar_term period_start batch.term_kind) date_out_of_range
  ok (record {
    batch = batch;
    term_kind = batch.term_kind;
    previous_end = previous_end;
    period_start = period_start;
    period_end = period_end;
  })

-- The subscription row after the grant, for a user without one and with one.
pub granted_subscription : ℕ → ℕ → DateTime → Grant → Option SubscriptionRecord → SubscriptionRecord
granted_subscription new_id user_id at g none = record {
  id = new_id;
  user_id = user_id;
  plan_code = codes "advanced";
  plan_version_id = g.batch.plan_version_id;
  status = active;
  current_period_start = g.period_start;
  current_period_end = g.period_end;
  activation_source = codes "activation_code";
  revoked_at = none;
}
granted_subscription new_id user_id at g (some s) = record s {
  plan_code = codes "advanced";
  plan_version_id = g.batch.plan_version_id;
  status = active;
  current_period_start = if before at s.current_period_end then s.current_period_start else at;
  current_period_end = g.period_end;
  activation_source = codes "activation_code";
  revoked_at = none;
}

-- The attributes of the row are set where it is; a new row is added.
pub put_subscription :
    SubscriptionRecord
    → Option SubscriptionRecord
    → List SubscriptionRecord
    → List SubscriptionRecord
put_subscription s none rows = rows ++ s ∷ []
put_subscription s (some old) rows = map (λ r. if r.id == old.id then s else r) rows

abbrev pub mark_redeemed : ℕ → DateTime → AccessActivationCodeRecord → AccessActivationCodeRecord
mark_redeemed user_id at c = record c { redeemed_by_user_id = some user_id; redeemed_at = some at }

-- The writes of a redemption and their commit.
pub redeem : Environment → Db → ℕ → AccessActivationCodeRecord → DateTime → Grant → Db
unfolding granted_subscription put_subscription
redeem env db user_id activation at g =
    let row = get_subscription db user_id in
    let s = granted_subscription env.subscription_id user_id at g row in
    record db {
      subscriptions = put_subscription s row db.subscriptions;
      activation_codes =
          map (λ c. if c.id == activation.id then mark_redeemed user_id at c else c)
            db.activation_codes;
      redemptions =
          db.redemptions
          ++ record {
            id = env.redemption_id;
            activation_code_id = activation.id;
            user_id = user_id;
            plan_version_id = g.batch.plan_version_id;
            term_kind = g.term_kind;
            previous_period_end = g.previous_end;
            new_period_start = g.period_start;
            new_period_end = g.period_end;
            redeemed_at = at;
          }
            ∷ [];
    }

-- The answer, which reads the entitlements once more.
abbrev pub answer : Environment → Db → ℕ → ℕ → Bool → Result AccessActivationResponse
answer env db user_id redemption_id reused = do
  access ← access_envelope env.settings db user_id env.clock
  ok (record { access = access; redemption_id = redemption_id; reused = reused })

-- The commit of a planned grant; a refusal of the plan leaves the database alone.
abbrev pub commit_grant :
    Environment
    → Db
    → ℕ
    → AccessActivationCodeRecord
    → DateTime
    → Result Grant
    → Result AccessActivationResponse × Db
commit_grant env db user_id activation at (err e) = (err e, db)
commit_grant env db user_id activation at (ok g) =
    let db' = redeem env db user_id activation at g in
    (answer env db' user_id env.redemption_id false, db')

-- The branch on an earlier redemption of the code by the user.
abbrev pub reuse_or_grant :
    Environment
    → Db
    → ℕ
    → AccessActivationCodeRecord
    → DateTime
    → Option AccessActivationRedemptionRecord
    → Result AccessActivationResponse × Db
reuse_or_grant env db user_id activation at (some existing) =
    (answer env db user_id existing.id true, db)
reuse_or_grant env db user_id activation at none =
    commit_grant env db user_id activation at (plan_grant db user_id activation at)

abbrev pub activate_found :
    Environment
    → Db
    → ℕ
    → DateTime
    → Result AccessActivationCodeRecord
    → Result AccessActivationResponse × Db
activate_found env db user_id at (err e) = (err e, db)
activate_found env db user_id at (ok activation) =
    reuse_or_grant env db user_id activation at (get_redemption db activation.id user_id)

-- `activate`; `at` is the argument `now`
pub activate : Environment → Db → ℕ → List ℕ → DateTime → Result AccessActivationResponse × Db
activate env db user_id code at =
    activate_found env db user_id at (find_activation env db user_id code)

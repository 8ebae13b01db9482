-- ===== src/AccessControl/Tests/Redeeming.antt =====
-- A code that is issued and then activated, twice.
use zhiniu.Prelude.{
  ℕ, ◌+◌, ◌<◌, true, ◌≡◌, refl, some, List, [], ◌∷◌, ◌++◌, arith, codes, length, all_by, ◌==◌,
  if◌then◌else◌, Bool-cases, inl, inr,
}
use zhiniu.DateTime.{DateTime, IsDateTime, stamp, add_days, days_in_month}
use zhiniu.AccessControl.Codes.{
  canonicalize_code, in_alphabet, compact_code, code_body, code_hmac, code_prefix,
}
use zhiniu.AccessControl.Store.{
  month, AccessActivationCodeRecord, RegistrationInviteRecord, SubscriptionRecord, Db, ok,
}
use zhiniu.AccessControl.Terms.{add_calendar_term}
use zhiniu.AccessControl.Entitlements.{
  enabled, activation_available, effective_entitlements, get_subscription,
}
use zhiniu.AccessControl.Entitlements.Status.{IsPaid}
use zhiniu.AccessControl.Issuing.{
  Draws, IssuedAccessCode, GeneratedCodeBatch, generate_registration_invites, issue_access_code,
  issued_batch, issued_code, with_issued, advanced_plan_version_id,
}
use zhiniu.AccessControl.Issuing.Redeemable.{IsNew, issued_digest, issued_code_activates}
use zhiniu.AccessControl.Activation.Steps.{IsPlanned}
use zhiniu.AccessControl.Activation.{
  Grant, find_activation, usable_batch, plan_grant, period_start_of, end_of, activate, answer,
}
use zhiniu.AccessControl.Tests.{
  moment, digest, settings, environment, user, base_plan, advanced_plan, store, body, add_month,
}
use zhiniu.AccessControl.Activation.Grants.{HasBegun, EndsBefore, redemption_extends}
use zhiniu.AccessControl.Activation.Repeat.{later_request, activate_again, activation_entitles}
use zhiniu.AccessControl.Activation.Invariant.{IsConsistent, activate-IsConsistent}
use zhiniu.AccessControl.Issuing.Invites.{IsOpen, Agree, generate_registration_invites_lem}

abbrev draws : Draws
draws = record { batch_id = 30; row_id = λ i. 40 + i; body = λ i. body }

abbrev until : DateTime
until = moment 2026 1 27

seven_days : add_days 7 (moment 2026 1 20) ≡ some until
unfolding add_days days_in_month
seven_days = refl

at-IsDateTime : IsDateTime (moment 2026 1 20)
unfolding days_in_month
at-IsDateTime = omega arith

begun : HasBegun (get_subscription store 7) (moment 2026 1 20)
unfolding days_in_month
begun = (omega arith, omega arith)

draws-IsNew : IsNew environment store draws 7
draws-IsNew = record {
  drawn = refl;
  clean = refl;
  new_digest = refl;
  new_batch = refl;
  new_code = refl;
}

available : activation_available settings ≡ true
unfolding activation_available
available = refl

issued_code_activates_example :
    (r : IssuedAccessCode) × (db' : Db) × (s : SubscriptionRecord) × (issue_access_code digest
        settings draws store
        (codes " User@Example.com")
        month
        7
        (codes "ops")
        (moment 2026 1 20)
      ≡ ok (r, db'))
    × (get_subscription (activate environment db' 7 r.code (moment 2026 1 20)).1 7 ≡ some s)
    × (s.plan_version_id ≡ advanced_plan_version_id)
    × (s.current_period_end ≡ moment 2026 2 28)
issued_code_activates_example =
    issued_code_activates environment store draws (codes " User@Example.com") month 7 (codes "ops")
      (moment 2026 1 20) until (moment 2026 1 20) (moment 2026 2 28) user user refl refl seven_days
      draws-IsNew available refl refl (omega arith) refl add_month

-- The store after the code was issued.
abbrev code : List ℕ
code = codes "act-abcd-efgh-jklm-npqr-stuv-wxyz-23"

abbrev issued : Db
issued = with_issued store draws code (issued_digest environment draws) month (codes "ops") 7 until

abbrev activation : AccessActivationCodeRecord
activation = issued_code draws code (issued_digest environment draws) 7 until

abbrev grant : Grant
grant = record {
  batch = issued_batch draws month (codes "ops") until;
  term_kind = month;
  previous_end = some (moment 2026 1 31);
  period_start = moment 2026 1 31;
  period_end = moment 2026 2 28;
}

found_activation : find_activation environment issued 7 code ≡ ok activation
unfolding find_activation activation_available code_hmac canonicalize_code compact_code code_body
    code_prefix
found_activation = refl

planned : plan_grant issued 7 activation (moment 2026 1 20) ≡ ok grant
unfolding plan_grant usable_batch add_calendar_term days_in_month
planned = refl

is_planned : IsPlanned environment issued 7 code (moment 2026 1 20) activation grant
is_planned = record { checked = found_activation; fresh = refl; planned = planned }

redemption_extends_example :
    let at = moment 2026 1 20 in
    (s : SubscriptionRecord) × (get_subscription (activate environment issued 7 code at).1 7
      ≡ some s)
    × IsPaid s at
    × (s.plan_version_id ≡ grant.batch.plan_version_id)
    × (add_calendar_term (period_start_of at (end_of (get_subscription issued 7))) month
        ≡ some s.current_period_end)
    × EndsBefore (get_subscription issued 7) s.current_period_end
redemption_extends_example =
    redemption_extends environment issued 7 code (moment 2026 1 20) activation grant at-IsDateTime
      begun is_planned

activate_again_example :
    let db' = (activate environment issued 7 code (moment 2026 1 20)).1 in
    let env' = later_request environment 501 601 (moment 2026 2 1) in
    activate env' db' 7 code (moment 2026 2 1) ≡ (answer env' db' 7 600 true, db')
activate_again_example =
    activate_again environment issued 7 code (moment 2026 1 20) activation grant 501 601
      (moment 2026 2 1) (moment 2026 2 1) is_planned

activation_entitles_example :
    effective_entitlements
      (activate environment issued 7 code (moment 2026 1 20)).1
      7
      (moment 2026 1 20)
    ≡ ok (record {
      access_status = enabled;
      valid_until = some (moment 2026 2 28);
      features = (codes "screening", true) ∷ [];
      limits = (codes "watchlist", 50) ∷ [];
    })
activation_entitles_example =
    activation_entitles environment issued 7 code (moment 2026 1 20) activation grant user base_plan
      advanced_plan at-IsDateTime begun is_planned refl refl refl

issued-IsConsistent : IsConsistent issued
issued-IsConsistent = record { once = λ k. omega arith; marked = (λ unmarked. refl, tt) }

activate-IsConsistent_example :
    IsConsistent (activate environment issued 7 code (moment 2026 1 20)).1
activate-IsConsistent_example =
    activate-IsConsistent environment issued 7 code (moment 2026 1 20) issued-IsConsistent

abbrev invite_draws : Draws
invite_draws = record {
  batch_id = 31;
  row_id = λ i. 50 + i;
  body = λ i. if i == 0 then codes "ABCDEFGH" else codes "JKLMNPQR";
}

drawn_well :
    (i : ℕ) → (length (invite_draws.body i) ≡ 8) × (all_by in_alphabet (invite_draws.body i) ≡ true)
drawn_well i = elim (Bool-cases (i == 0)) [
  | inl first ↦ rw first (refl, refl)
  | inr later ↦ rw later (refl, refl)
]

generate_registration_invites_lem_example :
    (b : GeneratedCodeBatch) × (db' : Db) × (rows : List RegistrationInviteRecord)
    × (generate_registration_invites digest settings invite_draws store 2 7
          (codes "ops")
          (moment 2026 1 20)
        ≡ ok (b, db'))
    × (length b.codes ≡ 2)
    × (db'.invites ≡ store.invites ++ rows)
    × Agree (IsOpen digest settings b.batch_id b.expires_at) b.codes rows
    × (stamp (moment 2026 1 20) < stamp b.expires_at)
generate_registration_invites_lem_example =
    generate_registration_invites_lem digest settings invite_draws store 2 7 (codes "ops")
      (moment 2026 1 20) until refl refl at-IsDateTime seven_days drawn_well refl

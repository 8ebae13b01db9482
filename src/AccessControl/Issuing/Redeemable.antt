-- ===== src/AccessControl/Issuing/Redeemable.antt =====
-- An issued access code can be activated by the user it was issued to.
use zhiniu.Prelude.{
  ℕ, ◌<◌, true, ◌≡◌, refl, ap, ◌∙◌, none, some, List, ◌∷◌, ◌++◌, arith, codes, length, all_by,
  is_some, find, find-append_none, ==_refl, text_eq, leb, false, ◌==◌,
}
use zhiniu.DateTime.{DateTime, stamp, add_days}
use zhiniu.AccessControl.Codes.{act, generate_code, code_hmac, in_alphabet}
use zhiniu.AccessControl.Codes.RoundTrip.{code_hmac-generate}
use zhiniu.AccessControl.Store.{TermKind, User, SubscriptionRecord, Db, ok}
use zhiniu.AccessControl.Terms.{add_calendar_term}
use zhiniu.AccessControl.Entitlements.{activation_available, get_user, get_subscription}
use zhiniu.AccessControl.Activation.{
  Environment, Grant, find_activation, usable_batch, plan_grant, get_code, get_batch,
  get_redemption, known_term, period_start_of, end_of, granted_subscription, activate,
}
use zhiniu.AccessControl.Activation.Steps.{planned-eq}
use zhiniu.AccessControl.Activation.Grants.{granted-plan, get_subscription-redeem}
use zhiniu.AccessControl.Issuing.{
  Draws, IssuedAccessCode, issued_batch, issued_code, email_key, within, with_issued,
  issue_access_code, advanced_plan_version_id,
}

leb_of_lt : {a b : ℕ} → a < b → leb b a ≡ false
leb_of_lt h = ground arith

-- The digest of the code whose characters were drawn first.
abbrev pub issued_digest : Environment → Draws → ℕ
issued_digest env draws =
    env.hmac env.settings.access_activation_hmac_secret
      (codes "ACT" ++ b':' ∷ (codes "ACT" ++ draws.body 0))

-- What `uuid4`, `choice` and the digest must not repeat, and the characters drawn.
pub record IsNew (env : Environment) (db : Db) (draws : Draws) (user_id : ℕ) : Type 0 where
  pub drawn : length (draws.body 0) ≡ 26
  pub clean : all_by in_alphabet (draws.body 0) ≡ true
  pub new_digest : get_code db (issued_digest env draws) ≡ none
  pub new_batch : get_batch db draws.batch_id ≡ none
  pub new_code : get_redemption db (draws.row_id 0) user_id ≡ none

module _ (env : Environment) (db : Db) (draws : Draws) (user_id : ℕ)
    (new : IsNew env db draws user_id) where
  hmac_lem :
      code_hmac env.hmac
        (generate_code act (draws.body 0))
        act
        env.settings.access_activation_hmac_secret
      ≡ some (issued_digest env draws)
  hmac_lem =
      code_hmac-generate env.hmac act (draws.body 0) env.settings.access_activation_hmac_secret
        new.drawn new.clean

  module _ (term : TermKind) (operator : List ℕ) (until : DateTime) where
    abbrev issued_db : Db
    issued_db =
        with_issued db draws (generate_code act (draws.body 0)) (issued_digest env draws) term
          operator user_id until

    find_issued :
        (u : User)
        → activation_available env.settings ≡ true
        → get_user db user_id ≡ some u
        → is_some u.email_verified_at ≡ true
        → find_activation env issued_db user_id (generate_code act (draws.body 0))
          ≡ ok (
              issued_code draws
                (generate_code act (draws.body 0))
                (issued_digest env draws)
                user_id
                until)
    unfolding find_activation
    find_issued u available known verified =
        let row =
          issued_code draws (generate_code act (draws.body 0)) (issued_digest env draws) user_id
            until in
        rw (
          available,
          known,
          verified,
          hmac_lem,
          find-append_none (λ c. c.code_hmac == issued_digest env draws) db.activation_codes row
              new.new_digest (==_refl (issued_digest env draws)),
          ==_refl user_id,
        )

    plan_issued :
        (at period_end : DateTime)
        → stamp at < stamp until
        → known_term term ≡ true
        → add_calendar_term (period_start_of at (end_of (get_subscription db user_id))) term
          ≡ some period_end
        → (g : Grant) × (plan_grant issued_db user_id
              (issued_code draws
                (generate_code act (draws.body 0))
                (issued_digest env draws)
                user_id
                until)
              at
            ≡ ok g)
          × (g.batch ≡ issued_batch draws term operator until)
          × (g.period_end ≡ period_end)
    unfolding plan_grant usable_batch
    plan_issued at period_end early known_kind ends =
        let batch = issued_batch draws term operator until in
        (
          record {
            batch = batch;
            term_kind = term;
            previous_end = end_of (get_subscription db user_id);
            period_start = period_start_of at (end_of (get_subscription db user_id));
            period_end = period_end;
          },
          rw (
            find-append_none (λ b. b.id == draws.batch_id) db.batches batch new.new_batch
                (==_refl draws.batch_id),
            leb_of_lt early,
            known_kind,
            ends,
          ),
          refl,
          refl,
        )

-- An access code that has been issued works: for a verified user, at any moment before the code
-- ends, its activation leaves the user with a subscription to the advanced plan that ends one term
-- after the later of that moment and the earlier end.
pub issued_code_activates :
    (env : Environment) (db : Db) (draws : Draws) (email : List ℕ) (term : TermKind) (days : ℕ)
    (operator : List ℕ) (now until at period_end : DateTime) (u v : User)
    → within 1 days 90 ≡ true
    → find (λ w. text_eq w.email (email_key email)) db.users ≡ some v
    → add_days days now ≡ some until
    → IsNew env db draws v.id
    → activation_available env.settings ≡ true
    → get_user db v.id ≡ some u
    → is_some u.email_verified_at ≡ true
    → stamp at < stamp until
    → known_term term ≡ true
    → add_calendar_term (period_start_of at (end_of (get_subscription db v.id))) term
      ≡ some period_end
    → (r : IssuedAccessCode) × (db' : Db) × (s : SubscriptionRecord) × (issue_access_code env.hmac
          env.settings draws db email term days operator now
        ≡ ok (r, db'))
      × (get_subscription (activate env db' v.id r.code at).1 v.id ≡ some s)
      × (s.plan_version_id ≡ advanced_plan_version_id)
      × (s.current_period_end ≡ period_end)
unfolding issue_access_code
issued_code_activates env db draws email term days operator now until at period_end u v d found e
      new available known verified early kind ends =
    let code = generate_code act (draws.body 0) in
    let db' = with_issued db draws code (issued_digest env draws) term operator v.id until in
    let row = issued_code draws code (issued_digest env draws) v.id until in
    let (g, planned, batch, end_eq) =
      plan_issued env db draws v.id new term operator until at period_end early kind ends in
    let s = granted_subscription env.subscription_id v.id at g (get_subscription db' v.id) in
    let (plan, last) = granted-plan env.subscription_id v.id at g (get_subscription db' v.id) in
    (
      record {
        batch_id = draws.batch_id;
        assigned_user_id = v.id;
        code = code;
        expires_at = until;
      },
      db',
      s,
      rw (d, found, e, hmac_lem env db draws v.id new, new.new_digest),
      ap (λ p. get_subscription p.1 v.id)
            (planned-eq env db' v.id code at row g (record {
              checked =
                  find_issued env db draws v.id new term operator until u available known verified;
              fresh = new.new_code;
              planned = planned;
            }))
          ∙ get_subscription-redeem env db' v.id row at g,
      plan ∙ ap (λ b. b.plan_version_id) batch,
      last ∙ end_eq,
    )

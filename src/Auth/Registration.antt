-- ===== src/Auth/Registration.antt =====
-- `AuthService.register` of auth/service.py. In a controlled beta the advisory lock makes a
-- registration one step; the invite is locked for the transaction.
use zhiniu.Prelude.{
  ℕ, Bool, true, false, not, ◌&&◌, ◌||◌, Option, none, some, List, [], ◌∷◌, ◌++◌, codes, find,
  is_some, map, text_eq, any_by, count_by, ltb, ◌==◌, if◌then◌else◌,
}
use zhiniu.DateTime.{DateTime, not_after}
use zhiniu.AccessControl.Codes.{inv, code_hmac}
use zhiniu.AccessControl.Store.{User, RegistrationInviteRecord, RegistrationInviteBatchRecord}
use zhiniu.Auth.Store.{
  AuthDb, Request, BetaInviteRecipientRecord, BetaInviteCohortRecord, Result, ok,
  registration_closed, beta_capacity_reached, invalid_or_unavailable_invitation, integrity_error,
  email_already_registered, ◌>>=◌, ◌>>◌, require, or_raise, except_integrity,
}
use zhiniu.Auth.Legal.{Acceptances, validate_registration_acceptances, registration_acceptances}
use zhiniu.Auth.Sessions.{
  AuthenticatedSession, normalize_email, is_active, user_by_email, create_session_record,
}
use zhiniu.Auth.Emails.{create_email_verification, deliver_email}
use zhiniu.Auth.Passwords.{validate_password}

-- access_control/service.py
abbrev pub basic_plan_version_id : ℕ
basic_plan_version_id = 0x10000000000040008000000000000008

-- DEFAULT_WATCHLIST_NAME
abbrev pub default_watchlist_name : List ℕ
default_watchlist_name = codes "核心观察"

-- `recipient_email_hmac` of invite_beta/security.py
abbrev pub recipient_email_hmac : Request → List ℕ → ℕ
recipient_email_hmac rq email =
    rq.hmac rq.settings.registration_invite_hmac_secret
      (codes "BETA-INVITE:" ++ normalize_email rq email)

abbrev pub get_invite : AuthDb → ℕ → Option RegistrationInviteRecord
get_invite db digest = find (λ i. i.code_hmac == digest) db.access.invites

abbrev pub get_invite_batch : AuthDb → ℕ → Option RegistrationInviteBatchRecord
get_invite_batch db batch_id = find (λ b. b.id == batch_id) db.access.invite_batches

abbrev pub same_id : Option ℕ → ℕ → Bool
same_id none id = false
same_id (some x) id = x == id

abbrev pub get_recipient : AuthDb → ℕ → Option BetaInviteRecipientRecord
get_recipient db invite_id = find (λ r. same_id r.invite_id invite_id) db.recipients

abbrev pub get_cohort : AuthDb → ℕ → Option BetaInviteCohortRecord
get_cohort db cohort_id = find (λ c. c.id == cohort_id) db.cohorts

-- A controlled beta has room for one more active user.
abbrev pub has_capacity : Request → AuthDb → Bool
has_capacity rq db =
    if text_eq rq.settings.beta_mode (codes "controlled")
    then ltb (count_by is_active db.access.users) rq.settings.beta_max_active_users
    else true

-- The invite of a code, with its batch, while it may be used.
unfoldable pub usable_invite : Request → AuthDb → List ℕ → Result RegistrationInviteRecord
usable_invite rq db invitation_code = do
  digest ←
      or_raise (code_hmac rq.hmac invitation_code inv rq.settings.registration_invite_hmac_secret)
        invalid_or_unavailable_invitation
  invite ← or_raise (get_invite db digest) invalid_or_unavailable_invitation
  batch ← or_raise (get_invite_batch db invite.batch_id) invalid_or_unavailable_invitation
  require
      (not (
        is_some invite.consumed_at
        || is_some invite.revoked_at
        || is_some batch.revoked_at
        || not_after invite.expires_at rq.now
        || not_after batch.expires_at rq.now))
      invalid_or_unavailable_invitation
  ok invite

-- An invite for a recipient of a beta is good for that address, in an active cohort, once.
abbrev pub recipient_fits : Request → AuthDb → List ℕ → BetaInviteRecipientRecord → Bool
recipient_fits rq db email recipient = elim (get_cohort db recipient.cohort_id) [
  | none ↦ false
  | some cohort ↦
      text_eq cohort.status (codes "active")
      && text_eq recipient.status (codes "queued")
      && (recipient.email_hmac == recipient_email_hmac rq email)
]

abbrev pub check_recipient :
    Request → AuthDb → List ℕ → Option BetaInviteRecipientRecord → Result (Unit {0})
check_recipient rq db email none = ok tt
check_recipient rq db email (some recipient) =
    require (recipient_fits rq db email recipient) invalid_or_unavailable_invitation

abbrev pub new_user : Request → List ℕ → List ℕ → User
new_user rq email password = record {
  id = rq.user_uuid;
  email = email;
  password_hash = rq.hash_password password;
  base_plan_version_id = basic_plan_version_id;
  status = codes "active";
  last_login_at = some rq.now;
  email_verified_at = none;
  password_changed_at = none;
}

abbrev pub consume_invite :
    DateTime → ℕ → ℕ → List RegistrationInviteRecord → List RegistrationInviteRecord
consume_invite now user_id invite_id rows =
    map
      (λ i.
        if i.id == invite_id
        then record i { consumed_by_user_id = some user_id; consumed_at = some now }
        else i)
      rows

abbrev pub register_recipient : Request → AuthDb → Option BetaInviteRecipientRecord → AuthDb
register_recipient rq db none = db
register_recipient rq db (some recipient) = record db {
  recipients =
      map
        (λ r.
          if r.id == recipient.id
          then record r {
            user_id = some rq.user_uuid;
            status = codes "registered";
            registered_at = some rq.now;
          }
          else r)
        db.recipients;
  onboarding =
      db.onboarding
      ++ record {
        user_id = rq.user_uuid;
        recipient_id = recipient.id;
        schema_version = codes "invite-beta-onboarding-v1";
      }
        ∷ [];
}

-- A recipient has one onboarding state.
abbrev pub is_onboarded : AuthDb → Option BetaInviteRecipientRecord → Bool
is_onboarded db none = false
is_onboarded db (some recipient) = any_by (λ o. o.recipient_id == recipient.id) db.onboarding

-- The rows that are pending when the session is created.
unfoldable pub with_registration :
    Request
    → AuthDb
    → User
    → RegistrationInviteRecord
    → Option BetaInviteRecipientRecord
    → Acceptances
    → AuthDb
unfolding registration_acceptances
with_registration rq db user invite recipient acceptances =
    register_recipient rq
      (record db {
        access = record db.access {
          users = db.access.users ++ user ∷ [];
          invites = consume_invite rq.now user.id invite.id db.access.invites;
        };
        watchlists =
            db.watchlists
            ++ record { user_id = user.id; name = default_watchlist_name; is_default = true } ∷ [];
        alert_settings = db.alert_settings ++ record { user_id = user.id } ∷ [];
        acceptances = db.acceptances ++ registration_acceptances rq user.id acceptances;
      })
      recipient

-- The part inside `try`.
unfoldable pub finish_registration :
    Request → AuthDb → User → Result (AuthenticatedSession × AuthDb)
unfolding create_session_record create_email_verification deliver_email
finish_registration rq db user = do
  created ← create_session_record rq db user
  verification ← create_email_verification rq created.1 user
  ok (created.0, (deliver_email rq verification.1).1)

-- The checks before the first write.
unfoldable pub admit_registration :
    Request → AuthDb → List ℕ → List ℕ → List ℕ → Acceptances → Result RegistrationInviteRecord
unfolding validate_password validate_registration_acceptances usable_invite
admit_registration rq db email password invitation_code acceptances = do
  validate_password password rq.settings.auth_password_min_length
  require (text_eq rq.settings.registration_mode (codes "invite_only")) registration_closed
  validate_registration_acceptances acceptances
  require (has_capacity rq db) beta_capacity_reached
  invite ← usable_invite rq db invitation_code
  check_recipient rq db email (get_recipient db invite.id)
  ok invite

-- `register`. The address is unique in the table of users, which the flush of the new user checks
-- before the `try` begins; within it the error of a unique constraint is turned into another.
unfoldable pub register :
    Request
    → AuthDb
    → List ℕ
    → List ℕ
    → List ℕ
    → Acceptances
    → Result (AuthenticatedSession × AuthDb)
unfolding admit_registration with_registration finish_registration
register rq db email password invitation_code acceptances = do
  let normalized = normalize_email rq email
  invite ← admit_registration rq db normalized password invitation_code acceptances
  let user = new_user rq normalized password
  require (not (is_some (user_by_email db normalized))) integrity_error
  let recipient = get_recipient db invite.id
  except_integrity email_already_registered (
      require (not (is_onboarded db recipient)) integrity_error
      >> finish_registration rq (with_registration rq db user invite recipient acceptances) user)

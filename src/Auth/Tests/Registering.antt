-- ===== src/Auth/Tests/Registering.antt =====
-- Registrations at concrete inputs.
use zhiniu.Prelude.{◌≤◌, ◌≢◌, ◌⊎◌, true, ◌≡◌, refl, none, [], ◌∷◌, codes, arith}
use zhiniu.DateTime.{add_days, next_day, add_minutes, days_in_month}
use zhiniu.AccessControl.Codes.{code_hmac, canonicalize_code, compact_code, code_body}
use zhiniu.AccessControl.Store.{RegistrationInviteRecord, RegistrationInviteBatchRecord}
use zhiniu.Auth.Store.{
  AuthDb, AuthError, Request, err, invalid_or_unavailable_invitation, integrity_error,
  email_already_registered, ok,
}
use zhiniu.Auth.Legal.{validate_registration_acceptances, required_registration_documents}
use zhiniu.Auth.Sessions.{AuthenticatedSession, create_session_record}
use zhiniu.Auth.Emails.{create_email_verification, draw_code}
use zhiniu.Auth.Passwords.{validate_password}
use zhiniu.Auth.Registration.{
  register, admit_registration, usable_invite, with_registration, finish_registration,
}
use zhiniu.Auth.Service.{Operation, registers, run_all}
use zhiniu.Auth.Refusals.{register_taken}
use zhiniu.Auth.Registered.Invites.{invite_once}
use zhiniu.Auth.Registered.Members.{IsUnique, active_count, run_all-IsUnique, capacity_kept}
use zhiniu.Auth.Tests.{moment, digest, request, member, access, store, succeeds, outcome}
use zhiniu.Auth.Tests.Entering.{acceptances}

abbrev invite : RegistrationInviteRecord
invite = record {
  id = 50;
  batch_id = 31;
  code_hmac = digest (codes "invite-secretINV:INVABCDEFGH");
  code_prefix = codes "INV-ABCD";
  expires_at = moment 10 9;
  consumed_by_user_id = none;
  consumed_at = none;
  revoked_at = none;
}

abbrev batch : RegistrationInviteBatchRecord
batch = record {
  id = 31;
  quantity = 1;
  expires_at = moment 10 9;
  created_by_operator = codes "ops";
  revoked_at = none;
}

abbrev inviting : AuthDb
inviting = record store {
  access = record access { invite_batches = batch ∷ []; invites = invite ∷ [] };
}

abbrev register_new : Request × Operation
register_new = (
  request,
  registers (codes "new@example.com") (codes "a password") (codes "ABCD-EFGH") acceptances,
)

register_run :
    succeeds (
      register request inviting
        (codes "new@example.com")
        (codes "a password")
        (codes "ABCD-EFGH")
        acceptances)
    ≡ true
unfolding register admit_registration usable_invite validate_password
    validate_registration_acceptances required_registration_documents code_hmac canonicalize_code
    compact_code code_body with_registration finish_registration create_session_record add_days
    next_day days_in_month add_minutes create_email_verification draw_code
register_run = refl

abbrev registered :
    (p : AuthenticatedSession × AuthDb) × (register request inviting
        (codes "new@example.com")
        (codes "a password")
        (codes "ABCD-EFGH")
        acceptances
      ≡ ok p)
registered =
    outcome
      (register request inviting (codes "new@example.com") (codes "a password") (codes "ABCD-EFGH")
        acceptances)
      register_run

invite_once_example :
    (usable_invite request (run_all (register_new ∷ []) registered.0.1) (codes "ABCD-EFGH")
      ≡ err invalid_or_unavailable_invitation)
    × ((e : AuthError) × (register request
            (run_all (register_new ∷ []) registered.0.1)
            (codes "third@example.com")
            (codes "a password")
            (codes "ABCD-EFGH")
            acceptances
          ≡ err e))
invite_once_example =
    invite_once request inviting (codes "new@example.com") (codes "a password") (codes "ABCD-EFGH")
      acceptances registered.0 registered.1 (register_new ∷ []) request (codes "third@example.com")
      (codes "a password") acceptances refl refl

inviting-IsUnique : IsUnique inviting
inviting-IsUnique email = ground arith

run_all-IsUnique_example : IsUnique (run_all (register_new ∷ register_new ∷ []) inviting)
run_all-IsUnique_example =
    run_all-IsUnique (register_new ∷ register_new ∷ []) inviting inviting-IsUnique

capacity_kept_example : active_count (run_all (register_new ∷ register_new ∷ []) inviting) ≤ 2
capacity_kept_example =
    capacity_kept (register_new ∷ register_new ∷ []) inviting 2 ((refl, refl), ((refl, refl), tt))
      (omega arith)

-- With all checks passed, a taken address ends in the error of the database.
taken_raises :
    register request inviting
      (codes "user@example.com")
      (codes "a password")
      (codes "ABCD-EFGH")
      acceptances
    ≡ err integrity_error
unfolding register admit_registration usable_invite validate_password
    validate_registration_acceptances required_registration_documents code_hmac canonicalize_code
    compact_code code_body
taken_raises = refl

register_taken_example :
    (e : AuthError) × (register request inviting
        (codes "user@example.com")
        (codes "a password")
        (codes "ABCD-EFGH")
        acceptances
      ≡ err e)
    × (e ≢ email_already_registered)
    × ((admit_registration request inviting
            (codes "user@example.com")
            (codes "a password")
            (codes "ABCD-EFGH")
            acceptances
          ≡ err e)
        ⊎ ((i : RegistrationInviteRecord) × (admit_registration request inviting
                (codes "user@example.com")
                (codes "a password")
                (codes "ABCD-EFGH")
                acceptances
              ≡ ok i)
            × (e ≡ integrity_error)))
register_taken_example =
    register_taken request inviting (codes "user@example.com") (codes "a password")
      (codes "ABCD-EFGH") acceptances member refl

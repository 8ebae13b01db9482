-- ===== src/Auth/Registered.antt =====
-- What a registration of auth/service.py requires.
pub mod Invites
pub mod Members
use zhiniu.Prelude.{
  ℕ, ◌≤◌, Bool, true, false, not, ◌≡◌, refl, sym, subst, inl, inr, Option, none, some, List, [],
  ◌∷◌, ◌++◌, map, is_some, codes, text_eq, leb, ltb, length, arith, if◌then◌else◌, ◌==◌,
  Option-cases, find,
}
use zhiniu.AccessControl.Codes.{inv, code_hmac}
use zhiniu.AccessControl.Store.{User, RegistrationInviteRecord, RegistrationInviteBatchRecord}
use zhiniu.Auth.Store.{
  AuthDb, Request, BetaInviteRecipientRecord, Result, ok, err, email_already_registered,
  integrity_error, invalid_or_unavailable_invitation, ◌>>◌, require,
}
use zhiniu.Auth.Safe.{
  Safe, returned, Safe->>=, Safe-or_raise, Safe-require, Safe-then, Safe-map, Safe-except,
  Safe-self, Safe-eq-ok,
}
use zhiniu.Auth.Legal.{Acceptances, validate_registration_acceptances}
use zhiniu.Auth.Sessions.{
  AuthenticatedSession, normalize_email, user_by_email, create_session_record,
}
use zhiniu.Auth.Passwords.{validate_password}
use zhiniu.Auth.Registration.{
  has_capacity, usable_invite, get_recipient, check_recipient, new_user, is_onboarded,
  with_registration, finish_registration, admit_registration, register,
}

-- The checks of a registration that is admitted.
pub record IsAdmitted (rq : Request) (db : AuthDb) (email password code : List ℕ)
    (acceptances : Acceptances) (invite : RegistrationInviteRecord) : Type 0 where
  pub fine_password : validate_password password rq.settings.auth_password_min_length ≡ ok tt
  pub invite_only : text_eq rq.settings.registration_mode (codes "invite_only") ≡ true
  pub legal : validate_registration_acceptances acceptances ≡ ok tt
  pub capacity : has_capacity rq db ≡ true
  pub usable : usable_invite rq db code ≡ ok invite
  pub recipient : check_recipient rq db email (get_recipient db invite.id) ≡ ok tt

admit_registration-IsAdmitted :
    (rq : Request) (db : AuthDb) (email password code : List ℕ) (acceptances : Acceptances)
    → Safe
        (IsAdmitted rq db email password code acceptances)
        (admit_registration rq db email password code acceptances)
unfolding admit_registration
admit_registration-IsAdmitted rq db email password code acceptances =
    Safe->>= (validate_password password rq.settings.auth_password_min_length) λ _ a.
      Safe-require (text_eq rq.settings.registration_mode (codes "invite_only")) _ λ b.
        Safe->>= (validate_registration_acceptances acceptances) λ _ c.
          Safe-require (has_capacity rq db) _ λ d. Safe->>= (usable_invite rq db code) λ invite e.
            Safe->>= (check_recipient rq db email (get_recipient db invite.id)) λ _ f.
              returned (record {
                fine_password = a;
                invite_only = b;
                legal = c;
                capacity = d;
                usable = e;
                recipient = f;
              })

-- A registration that succeeds.
pub record IsRegistration (rq : Request) (db : AuthDb) (email password code : List ℕ)
    (acceptances : Acceptances) (p : AuthenticatedSession × AuthDb) : Type 0 where
  pub invite : RegistrationInviteRecord
  pub admitted : IsAdmitted rq db (normalize_email rq email) password code acceptances invite
  pub new_address : user_by_email db (normalize_email rq email) ≡ none
  pub finished :
      let user = new_user rq (normalize_email rq email) password in
      finish_registration rq
        (with_registration rq db user invite (get_recipient db invite.id) acceptances)
        user
      ≡ ok p

pub register-IsRegistration :
    (rq : Request) (db : AuthDb) (email password code : List ℕ) (acceptances : Acceptances)
    → Safe
        (IsRegistration rq db email password code acceptances)
        (register rq db email password code acceptances)
unfolding register
register-IsRegistration rq db email password code acceptances =
    let normalized = normalize_email rq email in
    let user = new_user rq normalized password in
    Safe-then (admit_registration-IsAdmitted rq db normalized password code acceptances) λ invite a.
      Safe-require (not (is_some (user_by_email db normalized))) _ λ b.
        Safe-except email_already_registered (
          Safe-require (not (is_onboarded db (get_recipient db invite.id))) _ λ c.
            Safe-map
              (Safe-self (
                finish_registration rq
                  (with_registration rq db user invite (get_recipient db invite.id) acceptances)
                  user))
              λ p d. record {
                invite = invite;
                admitted = a;
                new_address = ground (arith, b);
                finished = d;
              })

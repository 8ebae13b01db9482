-- ===== src/Auth/Refusals.antt =====
-- The errors of a registration of auth/service.py, and which of them it never raises.
use zhiniu.Prelude.{
  ℕ, Bool, true, false, ◌≡◌, ◌≢◌, ◌⊎◌, refl, inl, inr, Option, none, some, List, [], ◌∷◌, arith,
}
use zhiniu.AccessControl.Store.{User, RegistrationInviteRecord}
use zhiniu.Auth.Store.{
  AuthDb, BetaInviteRecipientRecord, AuthError, Request, Result, Result-cases, ok, err,
  email_already_registered, integrity_error, ◌>>=◌, require, or_raise,
}
use zhiniu.Auth.Legal.{
  Acceptances, LegalDocument, accepts, each_accepted, validate_registration_acceptances,
}
use zhiniu.Auth.Sessions.{normalize_email, user_by_email}
use zhiniu.Auth.Passwords.{validate_password}
use zhiniu.Auth.Registration.{check_recipient, usable_invite, admit_registration, register}

-- The answer that the address has an account.
abbrev says_taken : AuthError → Bool
says_taken email_already_registered = true
says_taken other = false

-- An outcome that does not answer so.
data IsSilent {A : Type 0} : Result A → Type 0 where
  returned : {a : A} → IsSilent (ok a)
  raised : {e : AuthError} → says_taken e ≡ false → IsSilent (err e)

IsSilent->>= :
    {A B : Type 0} {m : Result A} {f : A → Result B}
    → IsSilent m
    → ((a : A) → IsSilent (f a))
    → IsSilent (m >>= f)
IsSilent->>= returned h = h _
IsSilent->>= (raised e) h = raised e

require-IsSilent : (b : Bool) (e : AuthError) → says_taken e ≡ false → IsSilent (require b e)
require-IsSilent true e h = returned
require-IsSilent false e h = raised h

or_raise-IsSilent :
    {A : Type 0} (o : Option A) (e : AuthError) → says_taken e ≡ false → IsSilent (or_raise o e)
or_raise-IsSilent none e h = raised h
or_raise-IsSilent (some a) e h = returned

each_accepted-IsSilent :
    (acceptances : Acceptances) (ds : List LegalDocument) → IsSilent (each_accepted acceptances ds)
each_accepted-IsSilent acceptances [] = returned
each_accepted-IsSilent acceptances (d ∷ ds) =
    IsSilent->>= (require-IsSilent (accepts acceptances d) _ refl)
      λ _. each_accepted-IsSilent acceptances ds

usable_invite-IsSilent :
    (rq : Request) (db : AuthDb) (code : List ℕ) → IsSilent (usable_invite rq db code)
unfolding usable_invite
usable_invite-IsSilent rq db code =
    search (IsSilent->>=, require-IsSilent, or_raise-IsSilent, returned) depth 12

check_recipient-IsSilent :
    (rq : Request) (db : AuthDb) (email : List ℕ) (recipient : Option BetaInviteRecipientRecord)
    → IsSilent (check_recipient rq db email recipient)
check_recipient-IsSilent rq db email none = returned
check_recipient-IsSilent rq db email (some r) = search require-IsSilent

admit_registration-IsSilent :
    (rq : Request) (db : AuthDb) (email password code : List ℕ) (acceptances : Acceptances)
    → IsSilent (admit_registration rq db email password code acceptances)
unfolding admit_registration validate_password validate_registration_acceptances
admit_registration-IsSilent rq db email password code acceptances =
    search
      (
        IsSilent->>=, require-IsSilent, returned, each_accepted-IsSilent, usable_invite-IsSilent,
        check_recipient-IsSilent,
      )
      depth 12

silent_error :
    {A : Type 0} (r : Result A) (e : AuthError)
    → IsSilent r
    → r ≡ err e
    → e ≢ email_already_registered
silent_error (ok a) e s h = absurd (ground (arith, h))
silent_error (err x) e (raised q) h = λ named. ground (arith, q, h, named)

-- With an address that has an account, in whatever state, for every password, code and consent: the
-- registration is refused, with the error of the first check that fails or else with the error of
-- the database, and never with the answer that the address is registered.
pub register_taken :
    (rq : Request) (db : AuthDb) (email password code : List ℕ) (acceptances : Acceptances)
    (user : User)
    → user_by_email db (normalize_email rq email) ≡ some user
    → let admission =
        admit_registration rq db (normalize_email rq email) password code acceptances in
      (e : AuthError) × (register rq db email password code acceptances ≡ err e)
      × (e ≢ email_already_registered)
      × ((admission ≡ err e)
          ⊎ ((invite : RegistrationInviteRecord) × (admission ≡ ok invite) × (e ≡ integrity_error)))
unfolding register
register_taken rq db email password code acceptances user taken =
    let normalized = normalize_email rq email in
    elim (Result-cases (admit_registration rq db normalized password code acceptances)) [
      | inl (e, refused) ↦ (
        e,
        rw refused refl,
        silent_error _ e (admit_registration-IsSilent rq db normalized password code acceptances)
            refused,
        inl refused,
      )
      | inr (invite, admitted) ↦ (
        integrity_error,
        rw (admitted, taken) refl,
        (λ named. ground (arith, named)),
        inr (invite, admitted, refl),
      )
    ]

-- ===== src/Auth/Preserved.antt =====
-- The writes of auth/service.py keep the spent rows of the tables spent.
pub mod Requests
pub mod Sequences
use zhiniu.Prelude.{
  ℕ, Bool, true, false, ◌||◌, ◌≡◌, refl, Option, none, some, Option-cases, inl, inr, List, [], ◌∷◌,
  ◌++◌, map, is_some, find, ◌==◌, arith, Bool-cases,
}
use zhiniu.DateTime.{DateTime, add_minutes}
use zhiniu.AccessControl.Store.{User, RegistrationInviteRecord}
use zhiniu.AccessControl.Entitlements.{get_user}
use zhiniu.Auth.Store.{
  UserSessionRecord, EmailVerificationTokenRecord, PasswordResetTokenRecord, AuthDb, Request,
  Result, UserLegalAcceptanceRecord, TransactionalEmailDeliveryRecord, or_raise, date_overflow,
  email_verification_unavailable, ok, err, after,
}
use zhiniu.Auth.Safe.{Safe, returned, Safe->>=, Safe-map, Safe-except, Safe-if, Safe-after}
use zhiniu.Auth.Kept.{Keeps, IsSpent, Keeps-append, Keeps-map}
use zhiniu.Auth.Legal.{Acceptances, accept_legal_documents}
use zhiniu.Auth.Passwords.{request_password_reset, confirm_password_reset, reset_password}
use zhiniu.Auth.Emails.{
  deliver_found, verification_row, draw_code, create_email_verification, deliver_email,
}
use zhiniu.Auth.Sessions.{
  login, with_users, create_session_record, AuthenticatedSession, session_by_hash, authenticate,
  hash_token,
}
use zhiniu.Auth.Sessions.Ending.{logout}

-- Who ended a row.
abbrev pub revoked : UserSessionRecord → Bool
revoked s = is_some s.revoked_at

abbrev pub reset_spent : PasswordResetTokenRecord → Bool
reset_spent t = is_some t.consumed_at || is_some t.revoked_at

abbrev pub token_spent : EmailVerificationTokenRecord → Bool
token_spent t = is_some t.consumed_at || is_some t.revoked_at

abbrev pub invite_spent : RegistrationInviteRecord → Bool
invite_spent i = is_some i.consumed_at || is_some i.revoked_at

pub record Kept (db : AuthDb) (db' : AuthDb) : Type 0 where
  pub sessions : Keeps (λ s. s.token_hash) revoked db.sessions db'.sessions
  pub resets : Keeps (λ t. t.token_hash) reset_spent db.resets db'.resets
  pub verifications : Keeps (λ t. t.token_hash) token_spent db.verifications db'.verifications
  pub invites : Keeps (λ i. i.code_hmac) invite_spent db.access.invites db'.access.invites

pub Kept-refl : (db : AuthDb) → Kept db db
Kept-refl db = record {
  sessions = λ h s. s;
  resets = λ h s. s;
  verifications = λ h s. s;
  invites = λ h s. s;
}

pub Kept-trans : (a b c : AuthDb) → Kept a b → Kept b c → Kept a c
Kept-trans a b c h k = record {
  sessions = λ x s. k.sessions x (h.sessions x s);
  resets = λ x s. k.resets x (h.resets x s);
  verifications = λ x s. k.verifications x (h.verifications x s);
  invites = λ x s. k.invites x (h.invites x s);
}

module _ (base : AuthDb) where
  -- The writes to a table, after others.
  pub added_session :
      (db : AuthDb) (row : UserSessionRecord)
      → Kept base db
      → Kept base (record db { sessions = db.sessions ++ row ∷ [] })
  added_session db row k = record {
    sessions = λ h x. Keeps-append _ revoked db.sessions (row ∷ []) h (k.sessions h x);
    resets = k.resets;
    verifications = k.verifications;
    invites = k.invites;
  }

  pub mapped_sessions :
      (db : AuthDb) (f : UserSessionRecord → UserSessionRecord)
      → ((s : UserSessionRecord) → (f s).token_hash ≡ s.token_hash)
      → ((s : UserSessionRecord) → revoked s ≡ true → revoked (f s) ≡ true)
      → Kept base db
      → Kept base (record db { sessions = map f db.sessions })
  mapped_sessions db f same stays k = record {
    sessions = λ h x. Keeps-map _ revoked f db.sessions same stays h (k.sessions h x);
    resets = k.resets;
    verifications = k.verifications;
    invites = k.invites;
  }

  pub mapped_resets :
      (db : AuthDb) (f : PasswordResetTokenRecord → PasswordResetTokenRecord)
      → ((t : PasswordResetTokenRecord) → (f t).token_hash ≡ t.token_hash)
      → ((t : PasswordResetTokenRecord) → reset_spent t ≡ true → reset_spent (f t) ≡ true)
      → Kept base db
      → Kept base (record db { resets = map f db.resets })
  mapped_resets db f same stays k = record {
    sessions = k.sessions;
    resets = λ h x. Keeps-map _ reset_spent f db.resets same stays h (k.resets h x);
    verifications = k.verifications;
    invites = k.invites;
  }

  pub added_reset :
      (db : AuthDb) (row : PasswordResetTokenRecord)
      → Kept base db
      → Kept base (record db { resets = db.resets ++ row ∷ [] })
  added_reset db row k = record {
    sessions = k.sessions;
    resets = λ h x. Keeps-append _ reset_spent db.resets (row ∷ []) h (k.resets h x);
    verifications = k.verifications;
    invites = k.invites;
  }

  pub mapped_verifications :
      (db : AuthDb) (f : EmailVerificationTokenRecord → EmailVerificationTokenRecord)
      → ((t : EmailVerificationTokenRecord) → (f t).token_hash ≡ t.token_hash)
      → ((t : EmailVerificationTokenRecord) → token_spent t ≡ true → token_spent (f t) ≡ true)
      → Kept base db
      → Kept base (record db { verifications = map f db.verifications })
  mapped_verifications db f same stays k = record {
    sessions = k.sessions;
    resets = k.resets;
    verifications =
        λ h x. Keeps-map _ token_spent f db.verifications same stays h (k.verifications h x);
    invites = k.invites;
  }

  pub added_verification :
      (db : AuthDb) (row : EmailVerificationTokenRecord)
      → Kept base db
      → Kept base (record db { verifications = db.verifications ++ row ∷ [] })
  added_verification db row k = record {
    sessions = k.sessions;
    resets = k.resets;
    verifications =
        λ h x. Keeps-append _ token_spent db.verifications (row ∷ []) h (k.verifications h x);
    invites = k.invites;
  }

  pub mapped_invites :
      (db : AuthDb) (users : List User) (f : RegistrationInviteRecord → RegistrationInviteRecord)
      → ((i : RegistrationInviteRecord) → (f i).code_hmac ≡ i.code_hmac)
      → ((i : RegistrationInviteRecord) → invite_spent i ≡ true → invite_spent (f i) ≡ true)
      → Kept base db
      → Kept base (record db {
        access = record db.access { users = users; invites = map f db.access.invites };
      })
  mapped_invites db users f same stays k = record {
    sessions = k.sessions;
    resets = k.resets;
    verifications = k.verifications;
    invites = λ h x. Keeps-map _ invite_spent f db.access.invites same stays h (k.invites h x);
  }

  -- Other tables are written.
  pub elsewhere :
      (db db' : AuthDb)
      → Kept base db
      → db'.sessions ≡ db.sessions
      → db'.resets ≡ db.resets
      → db'.verifications ≡ db.verifications
      → db'.access.invites ≡ db.access.invites
      → Kept base db'
  elsewhere db db' k s r v i = record {
    sessions = λ h x. rw s (k.sessions h x);
    resets = λ h x. rw r (k.resets h x);
    verifications = λ h x. rw v (k.verifications h x);
    invites = λ h x. rw i (k.invites h x);
  }

  pub changed_users :
      (db : AuthDb) (users : List User) → Kept base db → Kept base (with_users db users)
  changed_users db users k = elsewhere db (with_users db users) k refl refl refl refl

  pub delivered_row :
      (rq : Request) (db : AuthDb) (found : Option TransactionalEmailDeliveryRecord)
      → Kept base db
      → Kept base (deliver_found rq db found).1
  delivered_row rq db none k = k
  delivered_row rq db (some d) k = elsewhere db _ k refl refl refl refl

  pub created_session :
      (rq : Request) (db : AuthDb) (user : User)
      → Kept base db
      → Safe (λ p. Kept base p.1) (create_session_record rq db user)
  unfolding create_session_record
  created_session rq db user k = search (Safe->>=, returned, added_session, k) depth 8

  pub created_verification :
      (rq : Request) (db : AuthDb) (user : User)
      → Kept base db
      → Safe (λ p. Kept base p.1) (create_email_verification rq db user)
  unfolding create_email_verification
  created_verification rq db user k =
      Safe->>= {A = List ℕ} (or_raise (draw_code rq db user.id 0 10) email_verification_unavailable)
        λ code _.
          Safe->>=
            (or_raise (add_minutes rq.settings.email_verification_code_ttl_minutes rq.now)
              date_overflow)
            λ t _. returned (
              elsewhere _ _ (added_verification db (verification_row rq user code t) k) refl refl
                refl refl)

  pub delivered_email :
      (rq : Request) (db : AuthDb) → Kept base db → Kept base (deliver_email rq db).1
  unfolding deliver_email
  delivered_email rq db k = delivered_row rq db _ k

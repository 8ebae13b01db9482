-- ===== src/Auth/Accounts.antt =====
-- The accounts of the table of users under the requests to auth/service.py: addresses are unique,
-- and a controlled beta has no more active users than it may.
use zhiniu.Prelude.{ℕ, ◌≡◌, refl, Option, none, some, List, [], ◌∷◌, map, arith, if◌then◌else◌}
use zhiniu.AccessControl.Store.{User}
use zhiniu.AccessControl.Entitlements.{get_user}
use zhiniu.Auth.Store.{
  TransactionalEmailDeliveryRecord, UserSessionRecord, EmailVerificationTokenRecord, AuthDb,
  Request, ok, ◌>>=◌,
}
use zhiniu.Auth.Safe.{Safe, returned, Safe->>=, Safe-then, Safe-if}
use zhiniu.Auth.Legal.{Acceptances, accept_legal_documents}
use zhiniu.Auth.Sessions.{
  change_user, create_session_record, login, authenticate, authenticate_user, authenticate_row,
  elevate_operator_session, session_by_hash, hash_token, with_users,
}
use zhiniu.Auth.Sessions.Ending.{logout, revoke_session}
use zhiniu.Auth.Emails.{
  deliver_found, deliver_email, create_email_verification, consume_email_verification, verify_email,
  verify_email_code, resend_verification, revoke_verifications, Resent, message_sent,
  delivery_unavailable,
}
use zhiniu.Auth.Passwords.{request_password_reset, reset_for, confirm_password_reset}

-- The columns that say who has an account, and whether it is active.
abbrev pub accounts : List User → List (List ℕ × List ℕ)
accounts users = map (λ u. (u.email, u.status)) users

pub accounts-change_user :
    (user_id : ℕ) (f : User → User) (users : List User)
    → ((u : User) → (f u).email ≡ u.email)
    → ((u : User) → (f u).status ≡ u.status)
    → accounts (change_user user_id f users) ≡ accounts users
accounts-change_user user_id f [] e s = refl
accounts-change_user user_id f (u ∷ us) e s =
    ground (arith, accounts-change_user user_id f us e s, e u, s u)

abbrev pub Same : AuthDb → AuthDb → Type 0
Same base db = accounts db.access.users ≡ accounts base.access.users

module _ (base : AuthDb) where
  pub delivered_row :
      (rq : Request) (db : AuthDb) (found : Option TransactionalEmailDeliveryRecord)
      → Same base db
      → Same base (deliver_found rq db found).1
  delivered_row rq db none k = k
  delivered_row rq db (some d) k = k

  pub delivered_email :
      (rq : Request) (db : AuthDb) → Same base db → Same base (deliver_email rq db).1
  unfolding deliver_email
  delivered_email rq db k = delivered_row rq db _ k

  pub created_session :
      (rq : Request) (db : AuthDb) (user : User)
      → Same base db
      → Safe (λ p. Same base p.1) (create_session_record rq db user)
  unfolding create_session_record
  created_session rq db user k = search (Safe->>=, returned, k) depth 8

  pub created_verification :
      (rq : Request) (db : AuthDb) (user : User)
      → Same base db
      → Safe (λ p. Same base p.1) (create_email_verification rq db user)
  unfolding create_email_verification
  created_verification rq db user k = search (Safe->>=, returned, k) depth 8

module _ (rq : Request) (db : AuthDb) where
  pub login-Same : (email password : List ℕ) → Safe (λ p. Same db p.1) (login rq db email password)
  unfolding login
  login-Same email password = search (Safe->>=, created_session, seen) depth 8
    where
      seen :
          (user : User)
          → Same db (
              with_users db (
                change_user user.id
                  (λ u. record u { last_login_at = some rq.now })
                  db.access.users))
      seen user = accounts-change_user user.id _ db.access.users (λ u. refl) (λ u. refl)

  pub consume_email_verification-Same :
      (found : Option EmailVerificationTokenRecord)
      → Safe (λ p. Same db p.1) (consume_email_verification rq db found)
  unfolding consume_email_verification
  consume_email_verification-Same found = search (Safe->>=, Safe-if, returned, seen) depth 12
    where
      seen :
          (user : User)
          → accounts (
              change_user user.id
                (λ u. record u { email_verified_at = some rq.now })
                db.access.users)
            ≡ accounts db.access.users
      seen user = accounts-change_user user.id _ db.access.users (λ u. refl) (λ u. refl)

  pub confirm_password_reset-Same :
      (token password : List ℕ)
      → Safe (λ p. Same db p.1) (confirm_password_reset rq db token password)
  unfolding confirm_password_reset
  confirm_password_reset-Same token password = search (Safe->>=, returned, seen) depth 10
    where
      seen :
          (user : User)
          → accounts (
              change_user user.id
                (λ u. record u {
                  password_hash = rq.hash_password password;
                  password_changed_at = some rq.now;
                })
                db.access.users)
            ≡ accounts db.access.users
      seen user = accounts-change_user user.id _ db.access.users (λ u. refl) (λ u. refl)

  pub reset_for-Same : (user : Option User) → Safe (λ p. Same db p.1) (reset_for rq db user)
  reset_for-Same none = returned refl
  reset_for-Same (some user) = search (Safe->>=, returned, delivered_email) depth 10

  pub verify_email-Same : (token : List ℕ) → Safe (λ p. Same db p.1) (verify_email rq db token)
  unfolding verify_email
  verify_email-Same token = consume_email_verification-Same _

  pub verify_email_code-Same :
      (user_id : ℕ) (code : List ℕ) → Safe (λ p. Same db p.1) (verify_email_code rq db user_id code)
  unfolding verify_email_code
  verify_email_code-Same user_id code = search (Safe->>=, consume_email_verification-Same) depth 4

  pub resend_verification-Same :
      (user_id : ℕ) → Safe (λ p. Same db p.1) (resend_verification rq db user_id)
  unfolding resend_verification
  resend_verification-Same user_id = search (Safe->>=, Safe-if, returned, resent) depth 8
    where
      resent :
          (user : User)
          → Safe
              (λ (p : Resent × AuthDb). Same db p.1)
              (create_email_verification rq
                  (record db {
                    verifications = revoke_verifications rq.now user.id db.verifications;
                  })
                  user
                >>= λ created.
                    let (on_its_way, db') = deliver_email rq created.1 in
                    ok ((if on_its_way then message_sent else delivery_unavailable), db'))
      resent user =
          Safe-then (created_verification db rq _ user refl)
            λ p k. returned (delivered_email db rq p.1 k)

  pub request_password_reset-Same :
      (email : List ℕ) → Safe (λ p. Same db p.1) (request_password_reset rq db email)
  unfolding request_password_reset
  request_password_reset-Same email = reset_for-Same _

  pub elevate_operator_session-Same :
      (token : List ℕ) (minutes : ℕ)
      → Safe (λ p. Same db p.1) (elevate_operator_session rq db token minutes)
  unfolding elevate_operator_session
  elevate_operator_session-Same token minutes = search (Safe->>=, Safe-if, returned) depth 8

  pub accept_legal_documents-Same :
      (user_id : ℕ) (acceptances : Acceptances)
      → Safe (λ p. Same db p.1) (accept_legal_documents rq db user_id acceptances)
  unfolding accept_legal_documents
  accept_legal_documents-Same user_id acceptances = search (Safe->>=, returned) depth 8

  pub logout-Same : (token : List ℕ) → Same db (logout rq db token)
  unfolding logout
  logout-Same token = ground arith

  pub revoke_session-Same :
      (user_id session_id : ℕ) → Same db (revoke_session rq db user_id session_id).1
  unfolding revoke_session
  revoke_session-Same user_id session_id = ground arith

  pub authenticate_user-Same :
      (row : UserSessionRecord) (user : Option User) → Same db (authenticate_user rq db row user).1
  authenticate_user-Same row none = refl
  authenticate_user-Same row (some user) = ground arith

  pub authenticate_row-Same :
      (row : Option UserSessionRecord) → Same db (authenticate_row rq db row).1
  authenticate_row-Same none = refl
  authenticate_row-Same (some row) =
      ground (arith, authenticate_user-Same row (get_user db.access row.user_id))

  pub authenticate-Same : (token : List ℕ) → Same db (authenticate rq db token).1
  unfolding authenticate
  authenticate-Same token =
      ground (arith, authenticate_row-Same (session_by_hash db (hash_token rq token)))

-- ===== src/Auth/Preserved/Requests.antt =====
-- Every request to auth/service.py, but a registration, keeps the spent rows of the tables spent.
use zhiniu.Prelude.{
  ℕ, Bool, true, false, not, ◌&&◌, is_some, ◌≡◌, refl, Option, none, some, List, [], ◌∷◌, ◌++◌,
  codes, map, if◌then◌else◌, arith,
}
use zhiniu.DateTime.{DateTime}
use zhiniu.AccessControl.Store.{User}
use zhiniu.AccessControl.Entitlements.{get_user}
use zhiniu.Auth.Store.{
  UserSessionRecord, EmailVerificationTokenRecord, PasswordResetTokenRecord, AuthDb, Request,
  UserLegalAcceptanceRecord, ok, ◌>>=◌,
}
use zhiniu.Auth.Safe.{Safe, returned, Safe->>=, Safe-then, Safe-if}
use zhiniu.Auth.Legal.{Acceptances, accept_legal_documents}
use zhiniu.Auth.Sessions.{
  with_users, login, authenticate, authenticate_row, authenticate_user, touch, is_stale,
  elevate_operator_session, is_empty, elevate_rows, session_by_hash, hash_token,
}
use zhiniu.Auth.Sessions.Ending.{revoke_all_sessions, logout, revoke_session, is_open_session}
use zhiniu.Auth.Emails.{
  verify_email, verify_email_code, verify_rows, revoke_verifications, delivery_row,
  create_email_verification, Resent, message_sent, delivery_unavailable, consume_email_verification,
  resend_verification, deliver_email,
}
use zhiniu.Auth.Passwords.{
  request_password_reset, reset_for, revoke_resets, reset_row, confirm_password_reset,
  reset_password,
}
use zhiniu.Auth.Preserved.{
  Kept, revoked, Kept-refl, mapped_sessions, mapped_resets, added_reset, mapped_verifications,
  elsewhere, changed_users, created_session, created_verification, delivered_email,
}

Kept-if :
    (base x y : AuthDb) (b : Bool) → Kept base x → Kept base y → Kept base (if b then x else y)
Kept-if base x y true h k = h
Kept-if base x y false h k = k

module _ (rq : Request) (db : AuthDb) where
  mapped :
      (f : UserSessionRecord → UserSessionRecord)
      → ((s : UserSessionRecord) → (f s).token_hash ≡ s.token_hash)
      → ((s : UserSessionRecord) → revoked s ≡ true → revoked (f s) ≡ true)
      → Kept db (record db { sessions = map f db.sessions })
  mapped f same stays = mapped_sessions db db f same stays (Kept-refl db)

  pub login-Kept : (email password : List ℕ) → Safe (λ p. Kept db p.1) (login rq db email password)
  unfolding login
  login-Kept email password = search (Safe->>=, created_session, changed_users, Kept-refl) depth 8

  pub touch-Kept : (row : UserSessionRecord) → Kept db (touch rq db row)
  touch-Kept row =
      Kept-if db _ _ (is_stale rq.now row) (mapped _ (λ s. ground arith) (λ s h. ground arith))
        (Kept-refl db)

  pub authenticate_user-Kept :
      (row : UserSessionRecord) (user : Option User) → Kept db (authenticate_user rq db row user).1
  authenticate_user-Kept row none = Kept-refl db
  authenticate_user-Kept row (some user) = ground (arith, touch-Kept row, Kept-refl db)

  pub authenticate_row-Kept :
      (row : Option UserSessionRecord) → Kept db (authenticate_row rq db row).1
  authenticate_row-Kept none = Kept-refl db
  authenticate_row-Kept (some row) =
      ground (arith, authenticate_user-Kept row (get_user db.access row.user_id), Kept-refl db)

  pub reset_for-Kept : (user : Option User) → Safe (λ p. Kept db p.1) (reset_for rq db user)
  reset_for-Kept none = returned (Kept-refl db)
  reset_for-Kept (some user) = search (Safe->>=, returned, requested) depth 10
    where
      requested :
          (t : DateTime)
          → Kept db
              (deliver_email rq (record db {
                resets = revoke_resets rq.now user.id db.resets ++ reset_row rq user.id t ∷ [];
                deliveries =
                    db.deliveries
                    ++ delivery_row rq user.id (codes "reset_password") (codes "v1") ∷ [];
              })).1
      requested t = delivered_email db rq _ (
          elsewhere db
            (record db {
              resets = revoke_resets rq.now user.id db.resets ++ reset_row rq user.id t ∷ [];
            })
            _
            (added_reset db (record db { resets = revoke_resets rq.now user.id db.resets })
              (reset_row rq user.id t)
              (mapped_resets db db _ (λ t. ground arith) (λ t h. ground arith) (Kept-refl db)))
            refl refl refl refl)

  pub confirm_password_reset-Kept :
      (token password : List ℕ)
      → Safe (λ p. Kept db p.1) (confirm_password_reset rq db token password)
  unfolding confirm_password_reset
  confirm_password_reset-Kept token password = search (Safe->>=, returned, reset_done) depth 10
    where
      reset_done :
          (row : PasswordResetTokenRecord) (user : User)
          → Kept db (reset_password rq db row user password)
      reset_done row user =
          elsewhere db _ _
            (mapped_sessions db _ _ (λ s. ground arith) (λ s h. ground arith)
              (mapped_resets db db _ (λ t. ground arith) (λ t h. ground arith) (Kept-refl db)))
            refl refl refl refl

  pub consume_email_verification-Kept :
      (found : Option EmailVerificationTokenRecord)
      → Safe (λ p. Kept db p.1) (consume_email_verification rq db found)
  unfolding consume_email_verification
  consume_email_verification-Kept found =
      search (Safe->>=, Safe-if, returned, verified_rows, Kept-refl) depth 12
    where
      verified_rows :
          (row : EmailVerificationTokenRecord) (user_id : ℕ) (users : List User)
          → Kept db (record (with_users db users) {
            verifications = verify_rows rq.now user_id row db.verifications;
          })
      verified_rows row user_id users =
          mapped_verifications db (with_users db users) _ (λ t. ground arith) (λ t h. ground arith)
            (changed_users db db users (Kept-refl db))

  pub accept_legal_documents-Kept :
      (user_id : ℕ) (acceptances : Acceptances)
      → Safe (λ p. Kept db p.1) (accept_legal_documents rq db user_id acceptances)
  unfolding accept_legal_documents
  accept_legal_documents-Kept user_id acceptances = search (Safe->>=, returned, accepted) depth 8
    where
      accepted :
          (rows : List UserLegalAcceptanceRecord) → Kept db (record db { acceptances = rows })
      accepted rows = elsewhere db db _ (Kept-refl db) refl refl refl refl

  pub logout-Kept : (token : List ℕ) → Kept db (logout rq db token)
  unfolding logout
  logout-Kept token =
      Kept-if db _ _ (is_empty token) (Kept-refl db)
        (mapped _ (λ s. ground arith) (λ s h. ground arith))

  pub verify_email-Kept : (token : List ℕ) → Safe (λ p. Kept db p.1) (verify_email rq db token)
  unfolding verify_email
  verify_email-Kept token = consume_email_verification-Kept _

  pub request_password_reset-Kept :
      (email : List ℕ) → Safe (λ p. Kept db p.1) (request_password_reset rq db email)
  unfolding request_password_reset
  request_password_reset-Kept email = reset_for-Kept _

  pub verify_email_code-Kept :
      (user_id : ℕ) (code : List ℕ) → Safe (λ p. Kept db p.1) (verify_email_code rq db user_id code)
  unfolding verify_email_code
  verify_email_code-Kept user_id code = search (Safe->>=, consume_email_verification-Kept) depth 4

  pub resend_verification-Kept :
      (user_id : ℕ) → Safe (λ p. Kept db p.1) (resend_verification rq db user_id)
  unfolding resend_verification
  resend_verification-Kept user_id = search (Safe->>=, Safe-if, returned, resent, Kept-refl) depth 8
    where
      resent :
          (user : User)
          → Safe
              (λ (p : Resent × AuthDb). Kept db p.1)
              (create_email_verification rq
                  (record db {
                    verifications = revoke_verifications rq.now user.id db.verifications;
                  })
                  user
                >>= λ created.
                    let (on_its_way, db') = deliver_email rq created.1 in
                    ok ((if on_its_way then message_sent else delivery_unavailable), db'))
      resent user =
          Safe-then
            (created_verification db rq _ user (
              mapped_verifications db db _ (λ t. ground arith) (λ t h. ground arith)
                (Kept-refl db)))
            λ p k. returned (delivered_email db rq p.1 k)

  pub elevate_operator_session-Kept :
      (token : List ℕ) (minutes : ℕ)
      → Safe (λ p. Kept db p.1) (elevate_operator_session rq db token minutes)
  unfolding elevate_operator_session
  elevate_operator_session-Kept token minutes =
      search (Safe->>=, Safe-if, returned, elevated, Kept-refl) depth 8
    where
      elevated :
          (until : DateTime)
          → Kept db (record db { sessions = elevate_rows rq token until db.sessions })
      elevated until = mapped _ (λ s. ground arith) (λ s h. ground arith)

  pub revoke_all_sessions-Kept : (user_id : ℕ) → Kept db (revoke_all_sessions rq db user_id).1
  unfolding revoke_all_sessions
  revoke_all_sessions-Kept user_id = mapped _ (λ s. ground arith) (λ s h. ground arith)

  pub revoke_session-Kept :
      (user_id session_id : ℕ) → Kept db (revoke_session rq db user_id session_id).1
  unfolding revoke_session
  revoke_session-Kept user_id session_id = ground (
    arith,
    Kept-refl db,
    mapped
        (λ s.
          if is_open_session user_id session_id s && not (is_some s.revoked_at)
          then record s { revoked_at = some rq.now }
          else s)
        (λ s. ground arith) (λ s h. ground arith),
  )

  pub authenticate-Kept : (token : List ℕ) → Kept db (authenticate rq db token).1
  unfolding authenticate
  authenticate-Kept token =
      ground (arith, authenticate_row-Kept (session_by_hash db (hash_token rq token)), Kept-refl db)

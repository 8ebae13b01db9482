-- ===== src/Auth/Passwords.antt =====
-- Password resets of auth/service.py.
use zhiniu.Prelude.{
  ℕ, Bool, not, ◌&&◌, Option, none, some, List, [], ◌∷◌, ◌++◌, codes, find, is_some, map, text_eq,
  any_by, ltb, leb, length, ◌==◌, if◌then◌else◌,
}
use zhiniu.DateTime.{DateTime, not_after, add_minutes}
use zhiniu.AccessControl.Store.{User}
use zhiniu.AccessControl.Entitlements.{get_user}
use zhiniu.Auth.Store.{
  PasswordResetTokenRecord, AuthDb, Request, Result, ok, date_overflow, integrity_error,
  password_too_short, password_too_long, password_reset_invalid, password_reset_expired, ◌>>=◌,
  ◌>>◌, require, or_raise,
}
use zhiniu.Auth.Sessions.{hash_token, is_active, normalize_email, change_user, with_users}
use zhiniu.Auth.Sessions.Ending.{revoke_rows}
use zhiniu.Auth.Emails.{delivery_row, deliver_email}

unfoldable pub validate_password : List ℕ → ℕ → Result (Unit {0})
validate_password value min_length =
    require (not (ltb (length value) min_length)) password_too_short
    >> require (leb (length value) 128) password_too_long

-- Neither consumed nor revoked.
abbrev pub is_unused_reset : PasswordResetTokenRecord → Bool
is_unused_reset t = not (is_some t.consumed_at) && not (is_some t.revoked_at)

abbrev pub revoke_resets :
    DateTime → ℕ → List PasswordResetTokenRecord → List PasswordResetTokenRecord
revoke_resets now user_id rows =
    map
      (λ t.
        if (t.user_id == user_id) && is_unused_reset t
        then record t { revoked_at = some now }
        else t)
      rows

abbrev pub reset_row : Request → ℕ → DateTime → PasswordResetTokenRecord
reset_row rq user_id expires_at = record {
  id = rq.token_uuid;
  user_id = user_id;
  token_hash = hash_token rq rq.token;
  expires_at = expires_at;
  consumed_at = none;
  revoked_at = none;
}

-- `select(User).where(User.email == ..., User.status == "active")`
abbrev pub active_user_by_email : AuthDb → List ℕ → Option User
active_user_by_email db email = find (λ u. text_eq u.email email && is_active u) db.access.users

-- What a request for a reset does with the user it has found; an address that is not known gets
-- the same answer.
abbrev pub reset_for : Request → AuthDb → Option User → Result (Unit {0} × AuthDb)
reset_for rq db none = ok (tt, db)
reset_for rq db (some user) = do
  expires_at ← or_raise (add_minutes rq.settings.password_reset_ttl_minutes rq.now) date_overflow
  let row = reset_row rq user.id expires_at
  require (not (any_by (λ t. t.token_hash == row.token_hash) db.resets)) integrity_error
  ok (
    tt,
    (deliver_email rq (record db {
      resets = revoke_resets rq.now user.id db.resets ++ row ∷ [];
      deliveries =
          db.deliveries ++ delivery_row rq user.id (codes "reset_password") (codes "v1") ∷ [];
    })).1,
  )

unfoldable pub request_password_reset : Request → AuthDb → List ℕ → Result (Unit {0} × AuthDb)
request_password_reset rq db email =
    reset_for rq db (active_user_by_email db (normalize_email rq email))

abbrev pub reset_by_hash : AuthDb → ℕ → Option PasswordResetTokenRecord
reset_by_hash db digest = find (λ t. t.token_hash == digest) db.resets

-- The token is consumed, and the other unused ones of the user are revoked.
abbrev pub consume_reset :
    DateTime
    → ℕ
    → PasswordResetTokenRecord
    → List PasswordResetTokenRecord
    → List PasswordResetTokenRecord
consume_reset now user_id row rows =
    map
      (λ t.
        if t.id == row.id
        then record t { consumed_at = some now }
        else if (t.user_id == user_id) && is_unused_reset t
        then record t { revoked_at = some now }
        else t)
      rows

-- The writes of a confirmed reset.
abbrev pub reset_password : Request → AuthDb → PasswordResetTokenRecord → User → List ℕ → AuthDb
reset_password rq db row user new_password =
    let with_password = λ (u : User). record u {
      password_hash = rq.hash_password new_password;
      password_changed_at = some rq.now;
    } in
    record (with_users db (change_user user.id with_password db.access.users)) {
      resets = consume_reset rq.now user.id row db.resets;
      sessions = revoke_rows rq.now (λ s. s.user_id == user.id) db.sessions;
    }

unfoldable pub confirm_password_reset :
    Request → AuthDb → List ℕ → List ℕ → Result (Unit {0} × AuthDb)
unfolding validate_password
confirm_password_reset rq db token new_password = do
  validate_password new_password rq.settings.auth_password_min_length
  row ← or_raise (reset_by_hash db (hash_token rq token)) password_reset_invalid
  require (is_unused_reset row) password_reset_invalid
  require (not (not_after row.expires_at rq.now)) password_reset_expired
  user ← or_raise (get_user db.access row.user_id) password_reset_invalid
  require (is_active user) password_reset_invalid
  ok (tt, reset_password rq db row user new_password)

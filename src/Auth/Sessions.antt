-- ===== src/Auth/Sessions.antt =====
-- The sessions of auth/service.py: login and the checks of a token.
pub mod Ending
use zhiniu.Prelude.{
  ℕ, Bool, true, false, not, ◌&&◌, ◌||◌, Option, none, some, List, [], ◌∷◌, ◌++◌, codes, find,
  is_some, map, strip, text_eq, any_by, filter_by, count_by, ◌==◌, if◌then◌else◌, sort_by,
}
use zhiniu.DateTime.{DateTime, before, not_after, add_days, add_minutes}
use zhiniu.AccessControl.Store.{User}
use zhiniu.AccessControl.Entitlements.{get_user}
use zhiniu.Auth.Store.{
  UserSessionRecord, AuthDb, Request, Result, ok, integrity_error, date_overflow,
  invalid_credentials, ◌>>=◌, ◌>>◌, require, or_raise,
}

-- domain/models.py, without the columns that are left out
pub record UserAccount : Type 0 where
  pub id : ℕ
  pub email : List ℕ
  pub status : List ℕ
  pub last_login_at : Option DateTime
  pub email_verified_at : Option DateTime
  pub password_changed_at : Option DateTime

pub record UserSession : Type 0 where
  pub id : ℕ
  pub user_id : ℕ
  pub created_at : DateTime
  pub last_used_at : DateTime
  pub expires_at : DateTime
  pub revoked_at : Option DateTime
  pub is_current : Bool

pub record AuthenticatedSession : Type 0 where
  pub user : UserAccount
  pub session : UserSession
  pub token : List ℕ
  pub csrf_token : List ℕ

abbrev pub user_to_domain : User → UserAccount
user_to_domain u = record {
  id = u.id;
  email = u.email;
  status = u.status;
  last_login_at = u.last_login_at;
  email_verified_at = u.email_verified_at;
  password_changed_at = u.password_changed_at;
}

abbrev pub session_to_domain : UserSessionRecord → Bool → UserSession
session_to_domain row is_current = record {
  id = row.id;
  user_id = row.user_id;
  created_at = row.created_at;
  last_used_at = row.last_used_at;
  expires_at = row.expires_at;
  revoked_at = row.revoked_at;
  is_current = is_current;
}

-- `if not token`
abbrev pub is_empty : List ℕ → Bool
is_empty [] = true
is_empty (c ∷ cs) = false

abbrev pub normalize_email : Request → List ℕ → List ℕ
normalize_email rq value = rq.lower (strip value)

abbrev pub hash_token : Request → List ℕ → ℕ
hash_token rq token = rq.sha256 token

abbrev pub is_active : User → Bool
is_active u = text_eq u.status (codes "active")

abbrev pub user_by_email : AuthDb → List ℕ → Option User
user_by_email db email = find (λ u. text_eq u.email email) db.access.users

-- Attributes of a row are set by its identifier.
abbrev pub change_user : ℕ → (User → User) → List User → List User
change_user user_id f users = map (λ u. if u.id == user_id then f u else u) users

abbrev pub with_users : AuthDb → List User → AuthDb
with_users db users = record db { access = record db.access { users = users } }

abbrev pub session_row : Request → ℕ → DateTime → UserSessionRecord
session_row rq user_id expires_at = record {
  id = rq.session_uuid;
  user_id = user_id;
  token_hash = hash_token rq rq.token;
  csrf_token_hash = hash_token rq rq.csrf_token;
  created_at = rq.database_now;
  last_used_at = rq.now;
  expires_at = expires_at;
  revoked_at = none;
  operator_elevated_until = none;
}

-- `_create_session_record`; the digests of the tokens are unique in the table
unfoldable pub create_session_record :
    Request → AuthDb → User → Result (AuthenticatedSession × AuthDb)
create_session_record rq db user = do
  expires_at ← or_raise (add_days rq.settings.auth_session_days rq.now) date_overflow
  let row = session_row rq user.id expires_at
  require (not (any_by (λ s. s.token_hash == row.token_hash) db.sessions)) integrity_error
  ok (
    record {
      user = user_to_domain user;
      session = session_to_domain row true;
      token = rq.token;
      csrf_token = rq.csrf_token;
    },
    record db { sessions = db.sessions ++ row ∷ [] },
  )

unfoldable pub login : Request → AuthDb → List ℕ → List ℕ → Result (AuthenticatedSession × AuthDb)
unfolding create_session_record
login rq db email password = do
  user ← or_raise (user_by_email db (normalize_email rq email)) invalid_credentials
  require (is_active user) invalid_credentials
  require (rq.verify_password password user.password_hash) invalid_credentials
  let seen = λ (u : User). record u { last_login_at = some rq.now }
  create_session_record rq (with_users db (change_user user.id seen db.access.users)) (seen user)

abbrev pub session_by_hash : AuthDb → ℕ → Option UserSessionRecord
session_by_hash db digest = find (λ s. s.token_hash == digest) db.sessions

-- `row.revoked_at is None and row.expires_at > now`
abbrev pub is_live : DateTime → UserSessionRecord → Bool
is_live now row = not (is_some row.revoked_at) && before now row.expires_at

-- `(now - row.last_used_at) > timedelta(minutes=10)`
abbrev pub is_stale : DateTime → UserSessionRecord → Bool
is_stale now row = elim (add_minutes 10 row.last_used_at) [ none ↦ false | some t ↦ before t now ]

abbrev pub touch : Request → AuthDb → UserSessionRecord → AuthDb
touch rq db row =
    if is_stale rq.now row
    then record db {
      sessions =
          map (λ s. if s.id == row.id then record s { last_used_at = rq.now } else s) db.sessions;
    }
    else db

-- What `authenticate` does with the user of a live row, and with the row.
abbrev pub authenticate_user :
    Request → AuthDb → UserSessionRecord → Option User → Option UserAccount × AuthDb
authenticate_user rq db row none = (none, db)
authenticate_user rq db row (some user) =
    if is_active user then (some (user_to_domain user), touch rq db row) else (none, db)

abbrev pub authenticate_row :
    Request → AuthDb → Option UserSessionRecord → Option UserAccount × AuthDb
authenticate_row rq db none = (none, db)
authenticate_row rq db (some row) =
    if is_live rq.now row
    then authenticate_user rq db row (get_user db.access row.user_id)
    else (none, db)

unfoldable pub authenticate : Request → AuthDb → List ℕ → Option UserAccount × AuthDb
authenticate rq db token =
    if is_empty token
    then (none, db)
    else authenticate_row rq db (session_by_hash db (hash_token rq token))

unfoldable pub verify_current_password : Request → AuthDb → ℕ → List ℕ → Bool
verify_current_password rq db user_id password = elim (get_user db.access user_id) [
  | none ↦ false
  | some user ↦ is_active user && rq.verify_password password user.password_hash
]

-- The row that `where(token_hash == ..., revoked_at is null, expires_at > now)` selects; a digest
-- stands in one row.
abbrev pub if_live : DateTime → Option UserSessionRecord → Option UserSessionRecord
if_live now none = none
if_live now (some row) = if is_live now row then some row else none

abbrev pub live_session : Request → AuthDb → List ℕ → Option UserSessionRecord
live_session rq db token = if_live rq.now (session_by_hash db (hash_token rq token))

abbrev pub elevate_rows :
    Request → List ℕ → DateTime → List UserSessionRecord → List UserSessionRecord
elevate_rows rq token elevated_until rows =
    map
      (λ s.
        if (s.token_hash == hash_token rq token) && is_live rq.now s
        then record s { operator_elevated_until = some elevated_until }
        else s)
      rows

unfoldable pub elevate_operator_session :
    Request → AuthDb → List ℕ → ℕ → Result (Option DateTime × AuthDb)
elevate_operator_session rq db token minutes =
    if is_empty token
    then ok (none, db)
    else or_raise (add_minutes minutes rq.now) date_overflow >>= λ elevated_until. ok (
      (if is_some (live_session rq db token) then some elevated_until else none),
      record db { sessions = elevate_rows rq token elevated_until db.sessions },
    )

unfoldable pub operator_elevation : Request → AuthDb → List ℕ → Option DateTime
operator_elevation rq db token =
    if is_empty token
    then none
    else elim (live_session rq db token) [ none ↦ none | some s ↦ s.operator_elevated_until ]

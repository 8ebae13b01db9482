-- ===== src/Auth/Entering.antt =====
-- Login with a password, and the new password after a reset.
use zhiniu.Prelude.{
  ℕ, true, false, not, ◌&&◌, ◌≡◌, refl, sym, ◌∙◌, subst, ap, inl, inr, some, List, [], ◌∷◌, ◌++◌,
  find, any_by, any_by-find, find-append_none, find-map, find-holds, arith, if◌then◌else◌, ◌==◌,
  ==_iff, ==_refl, Option-cases,
}
use mathlib.Core.Option.{some-injective}
use zhiniu.DateTime.{DateTime, before, add_days}
use zhiniu.AccessControl.Store.{User}
use zhiniu.AccessControl.Entitlements.{get_user}
use zhiniu.Auth.Store.{
  UserSessionRecord, PasswordResetTokenRecord, AuthDb, Request, ok, err, invalid_credentials,
}
use zhiniu.Auth.Safe.{Safe, returned, Safe-or_raise, Safe-require, Safe-eq-ok}
use zhiniu.Auth.Sessions.{
  AuthenticatedSession, is_active, is_empty, session_row, create_session_record, login,
  user_by_email, normalize_email, change_user, authenticate, verify_current_password,
  user_to_domain, hash_token, is_live, session_by_hash,
}
use zhiniu.Auth.Sessions.Ending.{validate_csrf}
use zhiniu.Auth.Passwords.{confirm_password_reset, reset_by_hash, reset_password}
use zhiniu.Auth.Ended.{confirm_password_reset-IsReset}

abbrev pub seen_at : DateTime → User → User
seen_at now u = record u { last_login_at = some now }

-- A login that succeeds.
pub record IsLogin (rq : Request) (db : AuthDb) (email password : List ℕ)
    (p : AuthenticatedSession × AuthDb) : Type 0 where
  pub user : User
  pub until : DateTime
  pub found : user_by_email db (normalize_email rq email) ≡ some user
  pub active : is_active user ≡ true
  pub verified : rq.verify_password password user.password_hash ≡ true
  pub ends : add_days rq.settings.auth_session_days rq.now ≡ some until
  pub fresh : any_by (λ s. s.token_hash == hash_token rq rq.token) db.sessions ≡ false
  pub users : p.1.access.users ≡ change_user user.id (seen_at rq.now) db.access.users
  pub sessions : p.1.sessions ≡ db.sessions ++ session_row rq user.id until ∷ []
  pub token : p.0.token ≡ rq.token
  pub csrf_token : p.0.csrf_token ≡ rq.csrf_token

pub login-IsLogin :
    (rq : Request) (db : AuthDb) (email password : List ℕ)
    → Safe (IsLogin rq db email password) (login rq db email password)
unfolding login create_session_record
login-IsLogin rq db email password =
    Safe-or_raise (user_by_email db (normalize_email rq email)) _ λ user a.
      Safe-require (is_active user) _ λ b.
        Safe-require (rq.verify_password password user.password_hash) _ λ c.
          Safe-or_raise (add_days rq.settings.auth_session_days rq.now) _ λ until d.
            Safe-require (not (any_by (λ s. s.token_hash == hash_token rq rq.token) db.sessions)) _
              λ e. returned (record {
                user = user;
                until = until;
                found = a;
                active = b;
                verified = c;
                ends = d;
                fresh = ground (arith, e);
                users = refl;
                sessions = refl;
                token = refl;
                csrf_token = refl;
              })

-- A login is refused as one of unknown credentials whenever no user has the address, the user is not
-- active, or the password is not the user's; the answer does not tell which.
pub login_refused :
    (rq : Request) (db : AuthDb) (email password : List ℕ)
    → ((user : User)
        → user_by_email db (normalize_email rq email) ≡ some user
        → (is_active user && rq.verify_password password user.password_hash) ≡ false)
    → login rq db email password ≡ err invalid_credentials
unfolding login
login_refused rq db email password wrong =
    elim (Option-cases (user_by_email db (normalize_email rq email))) [
      | inl unknown ↦ rw unknown refl
      | inr (user, known) ↦ rw known (ground (arith, wrong user known))
    ]

-- A user is found by the identifier after a change of other columns.
changed_user :
    (f : User → User) (users : List User) (user : User)
    → ((u : User) → (f u).id ≡ u.id)
    → find (λ u. u.id == user.id) users ≡ some user
    → find (λ u. u.id == user.id) (change_user user.id f users) ≡ some (f user)
changed_user f users user same found =
    find-map (λ u. u.id == user.id) (λ u. if u.id == user.id then f u else u) users user
      (λ u. ground (arith, same u)) found
    ∙ ap some (rw (==_refl user.id) refl)

-- A live row lets its token in.
live_row :
    (rq : Request) (db : AuthDb) (token csrf_token : List ℕ) (row : UserSessionRecord) (user : User)
    → is_empty token ≡ false
    → is_empty csrf_token ≡ false
    → session_by_hash db (hash_token rq token) ≡ some row
    → is_live rq.now row ≡ true
    → get_user db.access row.user_id ≡ some user
    → is_active user ≡ true
    → row.csrf_token_hash ≡ hash_token rq csrf_token
    → ((authenticate rq db token).0 ≡ some (user_to_domain user))
      × (validate_csrf rq db token csrf_token ≡ true)
unfolding authenticate validate_csrf
live_row rq db token csrf_token row user full csrf_full found live owner active csrf = (
  rw (full, found, live, owner, active) refl,
  rw (full, csrf_full, found, live, csrf) (==_refl (hash_token rq csrf_token)),
)

-- The token of a login is authenticated as the user, and its csrf token is accepted with it, at
-- every moment before the session ends, where the user is found by the identifier.
pub login_authenticates :
    (rq : Request) (db : AuthDb) (email password : List ℕ) (p : AuthenticatedSession × AuthDb)
    (later : Request) (user : User) (until : DateTime)
    → login rq db email password ≡ ok p
    → user_by_email db (normalize_email rq email) ≡ some user
    → get_user db.access user.id ≡ some user
    → add_days rq.settings.auth_session_days rq.now ≡ some until
    → later.sha256 ≡ rq.sha256
    → before later.now until ≡ true
    → is_empty rq.token ≡ false
    → is_empty rq.csrf_token ≡ false
    → ((authenticate later p.1 p.0.token).0 ≡ some (user_to_domain (seen_at rq.now user)))
      × (validate_csrf later p.1 p.0.token p.0.csrf_token ≡ true)
login_authenticates rq db email password p later user until h by_email by_id ends same in_time full
      csrf =
    let r = Safe-eq-ok p (login-IsLogin rq db email password) h in
    let same_user = some-injective r.user user (sym r.found ∙ by_email) in
    let same_end = some-injective r.until until (sym r.ends ∙ ends) in
    live_row later p.1 p.0.token p.0.csrf_token (session_row rq user.id until) (seen_at rq.now user)
      (rw r.token full) (rw r.csrf_token csrf)
      (rw (r.sessions, r.token, same_user, same_end, same)
        (find-append_none (λ s. s.token_hash == rq.sha256 rq.token) db.sessions
          (session_row rq user.id until)
          (any_by-find (λ s. s.token_hash == rq.sha256 rq.token) db.sessions r.fresh)
          (==_refl (rq.sha256 rq.token))))
      in_time
      (rw (r.users, same_user)
        (changed_user (seen_at rq.now) db.access.users user (λ u. refl) by_id))
      (subst (λ u. is_active u ≡ true) same_user r.active) (rw (r.csrf_token, same) refl)

current_after :
    (rq : Request) (db : AuthDb) (row : PasswordResetTokenRecord) (user : User) (password : List ℕ)
    (later : Request)
    → find (λ u. u.id == user.id) db.access.users ≡ some user
    → is_active user ≡ true
    → later.verify_password password (rq.hash_password password) ≡ true
    → verify_current_password later (reset_password rq db row user password) user.id password ≡ true
unfolding verify_current_password
current_after rq db row user password later found active law =
    let with_password : User → User = λ u. record u {
      password_hash = rq.hash_password password;
      password_changed_at = some rq.now;
    } in
    rw
      (
        verify_current_password,
        changed_user with_password db.access.users user (λ u. refl) found,
        active,
      )
      law

-- After a password is reset, the new password is the current one of the token's owner, where the
-- library accepts a password with its own hash.
pub reset_sets_password :
    (rq : Request) (db : AuthDb) (token password : List ℕ) (p : Unit {0} × AuthDb)
    (row : PasswordResetTokenRecord) (later : Request)
    → confirm_password_reset rq db token password ≡ ok p
    → reset_by_hash db (rq.sha256 token) ≡ some row
    → later.verify_password password (rq.hash_password password) ≡ true
    → verify_current_password later p.1 row.user_id password ≡ true
reset_sets_password rq db token password p row later h found law =
    let r = Safe-eq-ok p (confirm_password_reset-IsReset rq db token password) h in
    let same_row = some-injective r.row row (sym r.found ∙ found) in
    let own =
      (==_iff _ _).0 (find-holds (λ u. u.id == r.row.user_id) db.access.users r.user r.owner) in
    rw (r.written, ap (λ t. t.user_id) (sym same_row), sym own)
      (current_after rq db r.row r.user password later (rw own r.owner) r.active law)

-- ===== src/Auth/Ended.antt =====
-- What a request that ends sessions or tokens leaves.
use zhiniu.Prelude.{
  ℕ, true, false, not, ◌≡◌, refl, sym, subst, none, some, List, arith, ◌==◌, ==_iff, find-holds,
  any_by, any_by-false, Bool-cases, inl, inr,
}
use mathlib.Core.Option.{some-injective}
use zhiniu.DateTime.{not_after}
use zhiniu.AccessControl.Store.{User}
use zhiniu.AccessControl.Entitlements.{get_user}
use zhiniu.Auth.Store.{
  UserSessionRecord, PasswordResetTokenRecord, AuthDb, Request, ok, err, password_reset_invalid,
}
use zhiniu.Auth.Safe.{Safe, returned, Safe->>=, Safe-or_raise, Safe-require, Safe-eq-ok}
use zhiniu.Auth.Service.{Operation, run, run_all, logs_out, revokes, revokes_all}
use zhiniu.Auth.Preserved.{revoked, reset_spent}
use zhiniu.Auth.Preserved.Sequences.{run_all-Kept}
use zhiniu.Auth.Kept.{IsSpent, map-IsSpent}
use zhiniu.Auth.Sessions.{
  authenticate, is_empty, operator_elevation, hash_token, is_active, session_by_hash,
}
use zhiniu.Auth.Sessions.Ending.{
  is_open_session, logout, revoke_session, revoke_all_sessions, validate_csrf,
}
use zhiniu.Auth.Passwords.{
  is_unused_reset, reset_by_hash, reset_password, confirm_password_reset, validate_password,
}

-- What a confirmed reset has found.
pub record IsReset (rq : Request) (db : AuthDb) (token password : List ℕ) (p : Unit {0} × AuthDb)
    : Type 0 where
  pub row : PasswordResetTokenRecord
  pub user : User
  pub found : reset_by_hash db (hash_token rq token) ≡ some row
  pub unused : is_unused_reset row ≡ true
  pub in_time : not_after row.expires_at rq.now ≡ false
  pub owner : get_user db.access row.user_id ≡ some user
  pub active : is_active user ≡ true
  pub written : p.1 ≡ reset_password rq db row user password

pub confirm_password_reset-IsReset :
    (rq : Request) (db : AuthDb) (token password : List ℕ)
    → Safe (IsReset rq db token password) (confirm_password_reset rq db token password)
unfolding confirm_password_reset
confirm_password_reset-IsReset rq db token password =
    Safe->>= (validate_password password rq.settings.auth_password_min_length) λ _ _.
      Safe-or_raise (reset_by_hash db (hash_token rq token)) _ λ row h.
        Safe-require (is_unused_reset row) _ λ i.
          Safe-require (not (not_after row.expires_at rq.now)) _ λ j.
            Safe-or_raise (get_user db.access row.user_id) _ λ user k.
              Safe-require (is_active user) _ λ l. returned (record {
                row = row;
                user = user;
                found = h;
                unused = i;
                in_time = ground (arith, j);
                owner = k;
                active = l;
                written = refl;
              })

-- A spent reset token is refused.
pub spent_reset :
    (rq : Request) (db : AuthDb) (token password : List ℕ)
    → validate_password password rq.settings.auth_password_min_length ≡ ok tt
    → IsSpent (λ t. t.token_hash) reset_spent (rq.sha256 token) db.resets
    → confirm_password_reset rq db token password ≡ err password_reset_invalid
unfolding confirm_password_reset
spent_reset rq db token password fine (t, found, gone) = rw (fine, found) (ground arith)

-- A revoked session is of no use.
pub record IsUseless (rq : Request) (db : AuthDb) (token : List ℕ) : Type 0 where
  pub no_account : (authenticate rq db token).0 ≡ none
  pub no_elevation : operator_elevation rq db token ≡ none
  pub no_csrf : (csrf_token : List ℕ) → validate_csrf rq db token csrf_token ≡ false

pub revoked-IsUseless :
    (rq : Request) (db : AuthDb) (token : List ℕ)
    → IsSpent (λ s. s.token_hash) revoked (rq.sha256 token) db.sessions
    → IsUseless rq db token
unfolding authenticate operator_elevation validate_csrf
revoked-IsUseless rq db token (s, found, gone) = record {
  no_account = ground (arith, found, gone);
  no_elevation = ground (arith, found, gone);
  no_csrf = λ csrf_token. ground (arith, found, gone);
}

module _ (rq : Request) (db : AuthDb) (token password : List ℕ) (p : Unit {0} × AuthDb)
    (h : confirm_password_reset rq db token password ≡ ok p) where
  reset_of : IsReset rq db token password p
  reset_of = Safe-eq-ok p (confirm_password_reset-IsReset rq db token password) h

  owner_id : reset_of.user.id ≡ reset_of.row.user_id
  owner_id =
      (==_iff _ _).0
        (find-holds (λ u. u.id == reset_of.row.user_id) db.access.users _ reset_of.owner)

  -- After a password is reset with a token, no session that the owner of the token had can be used
  -- again: whatever requests follow, its token is not authenticated, it has no operator elevation,
  -- and every csrf token is refused.
  pub reset_ends_sessions :
      (os : List (Request × Operation)) (later : Request) (row : PasswordResetTokenRecord)
      (s : UserSessionRecord) (session_token : List ℕ)
      → reset_by_hash db (rq.sha256 token) ≡ some row
      → session_by_hash db (later.sha256 session_token) ≡ some s
      → s.user_id ≡ row.user_id
      → IsUseless later (run_all os p.1) session_token
  reset_ends_sessions os later row s session_token found_row found same =
      let r = reset_of in
      revoked-IsUseless later (run_all os p.1) session_token (
        (run_all-Kept os p.1).sessions (later.sha256 session_token) (
          subst (λ t. IsSpent (λ s. s.token_hash) revoked (later.sha256 session_token) t.sessions)
            (sym r.written)
            (map-IsSpent (λ s. s.token_hash) revoked _ db.sessions (later.sha256 session_token) s
              (λ x. ground arith) found
              (ground (arith, owner_id, found_row, r.found, same, some-injective row r.row)))))

  -- A reset token works once: whatever requests follow, a reset with it and with any password that
  -- is long enough is refused as invalid.
  pub reset_once :
      (os : List (Request × Operation)) (later : Request) (again : List ℕ)
      → later.sha256 ≡ rq.sha256
      → validate_password again later.settings.auth_password_min_length ≡ ok tt
      → confirm_password_reset later (run_all os p.1) token again ≡ err password_reset_invalid
  reset_once os later again same fine =
      let r = reset_of in
      spent_reset later (run_all os p.1) token again fine (
        (run_all-Kept os p.1).resets (later.sha256 token) (
          subst (λ t. IsSpent (λ t. t.token_hash) reset_spent (later.sha256 token) t.resets)
            (sym r.written)
            (map-IsSpent (λ t. t.token_hash) reset_spent _ db.resets (later.sha256 token) r.row
              (λ x. ground arith) (rw same r.found) (ground arith))))

-- A request that is to end a session.
pub data Ends (rq : Request) (s : UserSessionRecord) : Operation → Type 0 where
  by_token :
      (token : List ℕ)
      → s.token_hash ≡ rq.sha256 token
      → is_empty token ≡ false
      → Ends rq s (logs_out token)
  by_owner : Ends rq s (revokes s.user_id s.id)
  by_all : Ends rq s (revokes_all s.user_id)

-- A session that its owner ends, by logging out, by its identifier or with all the others, is of no
-- use to its token again, whatever requests follow.
pub ended_session :
    (rq : Request) (db : AuthDb) (o : Operation) (os : List (Request × Operation)) (later : Request)
    (s : UserSessionRecord) (token : List ℕ)
    → Ends rq s o
    → session_by_hash db (later.sha256 token) ≡ some s
    → IsUseless later (run_all os (run (rq, o) db)) token
unfolding run logout revoke_session revoke_all_sessions
ended_session rq db o os later s token e found =
    revoked-IsUseless later _ token
      ((run_all-Kept os (run (rq, o) db)).sessions (later.sha256 token) (ended e))
  where
    ended :
        {o : Operation}
        → Ends rq s o
        → IsSpent (λ s. s.token_hash) revoked (later.sha256 token) (run (rq, o) db).sessions
    ended (by_token t same full) =
        rw (full, run, logout)
          (map-IsSpent (λ s. s.token_hash) revoked _ db.sessions (later.sha256 token) s
            (λ x. ground arith) found (ground arith))
    ended by_owner = elim (Bool-cases (any_by (is_open_session s.user_id s.id) db.sessions)) [
      | inl some_open ↦
          rw (some_open, run, revoke_session)
            (map-IsSpent (λ s. s.token_hash) revoked _ db.sessions (later.sha256 token) s
              (λ x. ground arith) found (ground arith))
      | inr none_open ↦
          rw (none_open, run, revoke_session)
            (
              s,
              found,
              ground (
                arith,
                any_by-false (is_open_session s.user_id s.id)
                    (λ s. s.token_hash == later.sha256 token) db.sessions s none_open found,
              ),
            )
    ]
    ended by_all =
        map-IsSpent (λ s. s.token_hash) revoked _ db.sessions (later.sha256 token) s
          (λ x. ground arith) found (ground arith)

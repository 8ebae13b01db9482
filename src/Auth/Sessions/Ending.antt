-- ===== src/Auth/Sessions/Ending.antt =====
-- The ways to end a session of auth/service.py, and the list of a user's sessions.
use zhiniu.Prelude.{
  ℕ, Bool, true, false, not, ◌&&◌, ◌||◌, none, some, List, is_some, map, any_by, filter_by,
  count_by, ◌==◌, if◌then◌else◌, sort_by,
}
use zhiniu.DateTime.{DateTime, not_after}
use zhiniu.Auth.Store.{UserSessionRecord, AuthDb, Request}
use zhiniu.Auth.Sessions.{
  UserSession, session_to_domain, is_empty, hash_token, is_live, live_session,
}

-- The rows of a selection are revoked, unless they already are.
abbrev pub revoke_rows :
    DateTime → (UserSessionRecord → Bool) → List UserSessionRecord → List UserSessionRecord
revoke_rows at chosen rows =
    map
      (λ s. if chosen s && not (is_some s.revoked_at) then record s { revoked_at = some at } else s)
      rows

unfoldable pub revoke_all_sessions : Request → AuthDb → ℕ → ℕ × AuthDb
revoke_all_sessions rq db user_id = (
  count_by (λ s. (s.user_id == user_id) && not (is_some s.revoked_at)) db.sessions,
  record db {
    sessions =
        map
          (λ s.
            if (s.user_id == user_id) && not (is_some s.revoked_at)
            then record s { revoked_at = some rq.now; operator_elevated_until = none }
            else s)
          db.sessions;
  },
)

unfoldable pub logout : Request → AuthDb → List ℕ → AuthDb
logout rq db token = if is_empty token then db else record db {
  sessions = revoke_rows rq.now (λ s. s.token_hash == hash_token rq token) db.sessions;
}

unfoldable pub validate_csrf : Request → AuthDb → List ℕ → List ℕ → Bool
validate_csrf rq db token csrf_token =
    if is_empty token || is_empty csrf_token then false else elim (live_session rq db token) [
      | none ↦ false
      | some s ↦ s.csrf_token_hash == hash_token rq csrf_token
    ]

-- `order_by(created_at.desc())`
abbrev pub newer : UserSessionRecord → UserSessionRecord → Bool
newer a b = not_after b.created_at a.created_at

unfoldable pub list_sessions : Request → AuthDb → ℕ → List ℕ → List UserSession
list_sessions rq db user_id current =
    map
      (λ row.
        session_to_domain row (not (is_empty current) && (row.token_hash == hash_token rq current)))
      (filter_by (is_live rq.now)
        (sort_by newer (filter_by (λ s. s.user_id == user_id) db.sessions)))

abbrev pub is_open_session : ℕ → ℕ → UserSessionRecord → Bool
is_open_session user_id session_id s =
    (s.id == session_id) && (s.user_id == user_id) && not (is_some s.revoked_at)

unfoldable pub revoke_session : Request → AuthDb → ℕ → ℕ → Bool × AuthDb
revoke_session rq db user_id session_id =
    if any_by (is_open_session user_id session_id) db.sessions
    then (
      true,
      record db { sessions = revoke_rows rq.now (is_open_session user_id session_id) db.sessions },
    )
    else (false, db)

-- ===== src/Auth/Service.antt =====
-- The requests to auth/service.py that write, as one type, and what a sequence of them leaves.
use zhiniu.Prelude.{ℕ, List, [], ◌∷◌}
use zhiniu.Auth.Store.{AuthDb, Request, after}
use zhiniu.Auth.Legal.{Acceptances, accept_legal_documents}
use zhiniu.Auth.Sessions.{login, authenticate, elevate_operator_session}
use zhiniu.Auth.Sessions.Ending.{revoke_all_sessions, logout, revoke_session}
use zhiniu.Auth.Emails.{verify_email, verify_email_code, resend_verification}
use zhiniu.Auth.Passwords.{request_password_reset, confirm_password_reset}
use zhiniu.Auth.Registration.{register}

pub data Operation : Type 0 where
  registers : List ℕ → List ℕ → List ℕ → Acceptances → Operation
  logs_in : List ℕ → List ℕ → Operation
  authenticates : List ℕ → Operation
  elevates : List ℕ → ℕ → Operation
  revokes_all : ℕ → Operation
  logs_out : List ℕ → Operation
  revokes : ℕ → ℕ → Operation
  verifies : List ℕ → Operation
  verifies_code : ℕ → List ℕ → Operation
  resends : ℕ → Operation
  requests_reset : List ℕ → Operation
  confirms_reset : List ℕ → List ℕ → Operation
  accepts_documents : ℕ → Acceptances → Operation

-- An operation with the request that carries it, on the tables; what it raises changes nothing.
unfoldable pub run : Request × Operation → AuthDb → AuthDb
run (rq, registers email password code acceptances) db =
    after db (register rq db email password code acceptances)
run (rq, logs_in email password) db = after db (login rq db email password)
run (rq, authenticates token) db = (authenticate rq db token).1
run (rq, elevates token minutes) db = after db (elevate_operator_session rq db token minutes)
run (rq, revokes_all user_id) db = (revoke_all_sessions rq db user_id).1
run (rq, logs_out token) db = logout rq db token
run (rq, revokes user_id session_id) db = (revoke_session rq db user_id session_id).1
run (rq, verifies token) db = after db (verify_email rq db token)
run (rq, verifies_code user_id code) db = after db (verify_email_code rq db user_id code)
run (rq, resends user_id) db = after db (resend_verification rq db user_id)
run (rq, requests_reset email) db = after db (request_password_reset rq db email)
run (rq, confirms_reset token password) db = after db (confirm_password_reset rq db token password)
run (rq, accepts_documents user_id acceptances) db =
    after db (accept_legal_documents rq db user_id acceptances)

abbrev pub run_all : List (Request × Operation) → AuthDb → AuthDb
run_all [] db = db
run_all (o ∷ os) db = run_all os (run o db)

-- ===== src/Auth/Preserved/Sequences.antt =====
-- A registration keeps the spent rows of the tables spent, and so does a sequence of requests.
use zhiniu.Prelude.{ℕ, refl, Option, none, some, List, [], ◌∷◌, ◌++◌, arith}
use zhiniu.AccessControl.Store.{User, RegistrationInviteRecord}
use zhiniu.Auth.Store.{AuthDb, Request, BetaInviteRecipientRecord}
use zhiniu.Auth.Safe.{Safe, returned, Safe->>=, Safe-then, Safe-except, Safe-after}
use zhiniu.Auth.Legal.{Acceptances}
use zhiniu.Auth.Registration.{register, register_recipient, with_registration, finish_registration}
use zhiniu.Auth.Service.{
  Operation, registers, logs_in, authenticates, elevates, revokes_all, logs_out, revokes, verifies,
  verifies_code, resends, requests_reset, confirms_reset, accepts_documents, run, run_all,
}
use zhiniu.Auth.Preserved.{
  Kept, Kept-refl, Kept-trans, mapped_invites, elsewhere, created_session, created_verification,
  delivered_email,
}
use zhiniu.Auth.Preserved.Requests.{
  login-Kept, confirm_password_reset-Kept, accept_legal_documents-Kept, logout-Kept,
  verify_email-Kept, request_password_reset-Kept, verify_email_code-Kept, resend_verification-Kept,
  elevate_operator_session-Kept, revoke_all_sessions-Kept, revoke_session-Kept, authenticate-Kept,
}

module _ (rq : Request) (db : AuthDb) where
  register_recipient-Kept :
      (base db' : AuthDb) (recipient : Option BetaInviteRecipientRecord)
      → Kept base db'
      → Kept base (register_recipient rq db' recipient)
  register_recipient-Kept base db' none k = k
  register_recipient-Kept base db' (some recipient) k = elsewhere base db' _ k refl refl refl refl

  with_registration-Kept :
      (user : User) (invite : RegistrationInviteRecord)
      (recipient : Option BetaInviteRecipientRecord) (acceptances : Acceptances)
      → Kept db (with_registration rq db user invite recipient acceptances)
  unfolding with_registration
  with_registration-Kept user invite recipient acceptances =
      register_recipient-Kept db _ recipient (
        elsewhere db _ _
          (mapped_invites db db (db.access.users ++ user ∷ []) _ (λ i. ground arith)
            (λ i h. ground arith) (Kept-refl db))
          refl refl refl refl)

  pub finish_registration-Kept :
      (db' : AuthDb) (user : User)
      → Kept db db'
      → Safe (λ p. Kept db p.1) (finish_registration rq db' user)
  unfolding finish_registration
  finish_registration-Kept db' user k = Safe-then (created_session db rq db' user k) λ p h.
      Safe-then (created_verification db rq p.1 user h)
        λ q e. returned (delivered_email db rq q.1 e)

  register-Kept :
      (email password code : List ℕ) (acceptances : Acceptances)
      → Safe (λ p. Kept db p.1) (register rq db email password code acceptances)
  unfolding register
  register-Kept email password code acceptances =
      search (Safe->>=, Safe-except, finish_registration-Kept, with_registration-Kept) depth 8

-- One request, and a sequence of them.
pub run-Kept : (o : Request × Operation) (db : AuthDb) → Kept db (run o db)
unfolding run
run-Kept (rq, registers email password code acceptances) db =
    Safe-after (Kept db) (Kept-refl db) (register-Kept rq db email password code acceptances)
run-Kept (rq, logs_in email password) db =
    Safe-after (Kept db) (Kept-refl db) (login-Kept rq db email password)
run-Kept (rq, authenticates token) db = authenticate-Kept rq db token
run-Kept (rq, elevates token minutes) db =
    Safe-after (Kept db) (Kept-refl db) (elevate_operator_session-Kept rq db token minutes)
run-Kept (rq, revokes_all user_id) db = revoke_all_sessions-Kept rq db user_id
run-Kept (rq, logs_out token) db = logout-Kept rq db token
run-Kept (rq, revokes user_id session_id) db = revoke_session-Kept rq db user_id session_id
run-Kept (rq, verifies token) db =
    Safe-after (Kept db) (Kept-refl db) (verify_email-Kept rq db token)
run-Kept (rq, verifies_code user_id code) db =
    Safe-after (Kept db) (Kept-refl db) (verify_email_code-Kept rq db user_id code)
run-Kept (rq, resends user_id) db =
    Safe-after (Kept db) (Kept-refl db) (resend_verification-Kept rq db user_id)
run-Kept (rq, requests_reset email) db =
    Safe-after (Kept db) (Kept-refl db) (request_password_reset-Kept rq db email)
run-Kept (rq, confirms_reset token password) db =
    Safe-after (Kept db) (Kept-refl db) (confirm_password_reset-Kept rq db token password)
run-Kept (rq, accepts_documents user_id acceptances) db =
    Safe-after (Kept db) (Kept-refl db) (accept_legal_documents-Kept rq db user_id acceptances)

pub run_all-Kept : (os : List (Request × Operation)) (db : AuthDb) → Kept db (run_all os db)
run_all-Kept [] db = Kept-refl db
run_all-Kept (o ∷ os) db =
    Kept-trans db (run o db) (run_all os (run o db)) (run-Kept o db) (run_all-Kept os (run o db))

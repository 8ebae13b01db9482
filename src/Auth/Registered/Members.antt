-- ===== src/Auth/Registered/Members.antt =====
-- The accounts under the requests of auth/service.py: addresses are unique, and registrations keep to
-- the limit of a controlled beta.
use zhiniu.Prelude.{
  ℕ, ◌+◌, ◌≤◌, Bool, ◌≡◌, refl, sym, ap, ◌∙◌, subst, inl, inr, Option, none, some, List, [], ◌∷◌,
  ◌++◌, map, codes, text_eq, text_eq-eq, count_by, count_by-append, count_by-map, count_by_zero,
  arith, Bool-cases, All,
}
use zhiniu.AccessControl.Store.{User}
use zhiniu.Auth.Store.{AuthDb, Request, BetaInviteRecipientRecord}
use zhiniu.Auth.Safe.{Safe, returned, Safe-then, Safe-map, Safe-eq-ok, Safe-after}
use zhiniu.Auth.Legal.{Acceptances}
use zhiniu.Auth.Sessions.{AuthenticatedSession, normalize_email, is_active}
use zhiniu.Auth.Sessions.Ending.{revoke_all_sessions}
use zhiniu.Auth.Registration.{
  new_user, register_recipient, with_registration, finish_registration, get_recipient,
}
use zhiniu.Auth.Service.{
  Operation, registers, logs_in, authenticates, elevates, revokes_all, logs_out, revokes, verifies,
  verifies_code, resends, requests_reset, confirms_reset, accepts_documents, run, run_all,
}
use zhiniu.Auth.Accounts.{
  accounts, Same, created_session, created_verification, delivered_email, login-Same, logout-Same,
  authenticate-Same, elevate_operator_session-Same, revoke_session-Same, verify_email-Same,
  verify_email_code-Same, resend_verification-Same, request_password_reset-Same,
  confirm_password_reset-Same, accept_legal_documents-Same,
}
use zhiniu.Auth.Registered.{IsRegistration, register-IsRegistration}

finish_registration-Same :
    (rq : Request) (db : AuthDb) (user : User)
    → Safe (λ p. Same db p.1) (finish_registration rq db user)
unfolding finish_registration
finish_registration-Same rq db user = Safe-then (created_session db rq db user refl) λ p h.
    Safe-then (created_verification db rq p.1 user h) λ q e. returned (delivered_email db rq q.1 e)

register_recipient-accounts :
    (rq : Request) (db : AuthDb) (recipient : Option BetaInviteRecipientRecord)
    → accounts (register_recipient rq db recipient).access.users ≡ accounts db.access.users
register_recipient-accounts rq db none = refl
register_recipient-accounts rq db (some r) = refl

map-append : {A B : Type 0} (f : A → B) (xs ys : List A) → map f (xs ++ ys) ≡ map f xs ++ map f ys
map-append f [] ys = refl
map-append f (x ∷ xs) ys = ap (λ t. f x ∷ t) (map-append f xs ys)

-- A registration adds one active account.
registered_account :
    (rq : Request) (db : AuthDb) (email password code : List ℕ) (acceptances : Acceptances)
    (p : AuthenticatedSession × AuthDb)
    → IsRegistration rq db email password code acceptances p
    → accounts p.1.access.users
      ≡ accounts db.access.users ++ (normalize_email rq email, codes "active") ∷ []
unfolding with_registration
registered_account rq db email password code acceptances p r =
    let user = new_user rq (normalize_email rq email) password in
    let recipient = get_recipient db r.invite.id in
    let db' = with_registration rq db user r.invite recipient acceptances in
    Safe-eq-ok p (finish_registration-Same rq db' user) r.finished
    ∙ register_recipient-accounts rq _ recipient
    ∙ map-append _ db.access.users (user ∷ [])

-- Every other request leaves the accounts as they are.
data Change (rq : Request) (db db' : AuthDb) : Type 0 where
  same : Same db db' → Change rq db db'
  one_more :
      (email password code : List ℕ) (acceptances : Acceptances) (p : AuthenticatedSession × AuthDb)
      → IsRegistration rq db email password code acceptances p
      → db' ≡ p.1
      → Change rq db db'

run-Change : (rq : Request) (o : Operation) (db : AuthDb) → Change rq db (run (rq, o) db)
unfolding run revoke_all_sessions
run-Change rq (registers email password code acceptances) db =
    Safe-after (Change rq db) (same refl) (
      Safe-map (register-IsRegistration rq db email password code acceptances)
        λ p r. one_more email password code acceptances p r refl)
run-Change rq (logs_in email password) db =
    same (Safe-after (Same db) refl (login-Same rq db email password))
run-Change rq (authenticates token) db = same (authenticate-Same rq db token)
run-Change rq (elevates token minutes) db =
    same (Safe-after (Same db) refl (elevate_operator_session-Same rq db token minutes))
run-Change rq (revokes_all user_id) db = same refl
run-Change rq (logs_out token) db = same (logout-Same rq db token)
run-Change rq (revokes user_id session_id) db = same (revoke_session-Same rq db user_id session_id)
run-Change rq (verifies token) db = same (Safe-after (Same db) refl (verify_email-Same rq db token))
run-Change rq (verifies_code user_id code) db =
    same (Safe-after (Same db) refl (verify_email_code-Same rq db user_id code))
run-Change rq (resends user_id) db =
    same (Safe-after (Same db) refl (resend_verification-Same rq db user_id))
run-Change rq (requests_reset email) db =
    same (Safe-after (Same db) refl (request_password_reset-Same rq db email))
run-Change rq (confirms_reset token password) db =
    same (Safe-after (Same db) refl (confirm_password_reset-Same rq db token password))
run-Change rq (accepts_documents user_id acceptances) db =
    same (Safe-after (Same db) refl (accept_legal_documents-Same rq db user_id acceptances))

-- No address has two accounts.
abbrev pub IsUnique : AuthDb → Type 0
IsUnique db = (email : List ℕ) → count_by (λ u. text_eq u.email email) db.access.users ≤ 1

-- The active users of the table.
abbrev pub active_count : AuthDb → ℕ
active_count db = count_by is_active db.access.users

count_accounts :
    (p : List ℕ × List ℕ → Bool) (users : List User)
    → count_by p (accounts users) ≡ count_by (λ u. p (u.email, u.status)) users
count_accounts p users = count_by-map p (λ u. (u.email, u.status)) users

kept_count :
    (p : List ℕ × List ℕ → Bool) (db db' : AuthDb)
    → Same db db'
    → count_by (λ u. p (u.email, u.status)) db'.access.users
      ≡ count_by (λ u. p (u.email, u.status)) db.access.users
kept_count p db db' e =
    sym (count_accounts p db'.access.users) ∙ ap (count_by p) e ∙ count_accounts p db.access.users

added_count :
    (p : List ℕ × List ℕ → Bool) (db db' : AuthDb) (a : List ℕ × List ℕ)
    → accounts db'.access.users ≡ accounts db.access.users ++ a ∷ []
    → count_by (λ u. p (u.email, u.status)) db'.access.users
      ≡ count_by (λ u. p (u.email, u.status)) db.access.users + count_by p (a ∷ [])
added_count p db db' a e =
    sym (count_accounts p db'.access.users)
    ∙ ap (count_by p) e
    ∙ count_by-append p (accounts db.access.users) (a ∷ [])
    ∙ ap (λ n. n + count_by p (a ∷ [])) (count_accounts p db.access.users)

Change-IsUnique : (rq : Request) (db db' : AuthDb) → Change rq db db' → IsUnique db → IsUnique db'
Change-IsUnique rq db db' (same e) u email =
    rw (kept_count (λ a. text_eq a.0 email) db db' e) (u email)
Change-IsUnique rq db db' (one_more email' password code acceptances p r w) u email =
    let normalized = normalize_email rq email' in
    let e =
      added_count (λ a. text_eq a.0 email) db db' (normalized, codes "active")
        (ap (λ t. accounts t.access.users) w
          ∙ registered_account rq db email' password code acceptances p r) in
    elim (Bool-cases (text_eq normalized email)) [
      | inl taken ↦
          let zero =
            subst (λ m. count_by (λ u. text_eq u.email m) db.access.users ≡ 0)
              (text_eq-eq normalized email taken)
              (count_by_zero (λ u. text_eq u.email normalized) db.access.users r.new_address) in
          omega (arith, rw taken at e, zero)
      | inr other ↦ omega (arith, rw other at e, u email)
    ]

-- No address has two accounts, whatever requests are made of the auth service.
pub run_all-IsUnique :
    (os : List (Request × Operation)) (db : AuthDb) → IsUnique db → IsUnique (run_all os db)
run_all-IsUnique [] db u = u
run_all-IsUnique ((rq, o) ∷ os) db u =
    run_all-IsUnique os (run (rq, o) db)
      (Change-IsUnique rq db (run (rq, o) db) (run-Change rq o db) u)

-- A request of a controlled beta with a limit.
abbrev pub IsControlled : ℕ → Request × Operation → Type 0
IsControlled limit (rq, o) =
    (rq.settings.beta_mode ≡ codes "controlled") × (rq.settings.beta_max_active_users ≡ limit)

Change-capacity :
    (rq : Request) (o : Operation) (db db' : AuthDb) (limit : ℕ)
    → IsControlled limit (rq, o)
    → Change rq db db'
    → active_count db ≤ limit
    → active_count db' ≤ limit
Change-capacity rq o db db' limit c (same e) h =
    rw (kept_count (λ a. text_eq a.1 (codes "active")) db db' e) h
Change-capacity rq o db db' limit (mode, max) (one_more email password code acceptances p r w) h =
    let e =
      added_count (λ a. text_eq a.1 (codes "active")) db db'
        (normalize_email rq email, codes "active")
        (ap (λ t. accounts t.access.users) w
          ∙ registered_account rq db email password code acceptances p r) in
    let room = rw (mode, max) at r.admitted.capacity in rw e (ground (arith, room))

-- The requests of the auth service keep to the limit of a controlled beta: any sequence of them, each
-- under the same limit, leaves no more active users than the limit if there were no more before it.
-- Other services that change the status of users are not among these requests.
pub capacity_kept :
    (os : List (Request × Operation)) (db : AuthDb) (limit : ℕ)
    → All (IsControlled limit) os
    → active_count db ≤ limit
    → active_count (run_all os db) ≤ limit
capacity_kept [] db limit c h = h
capacity_kept ((rq, o) ∷ os) db limit c h =
    capacity_kept os (run (rq, o) db) limit c.1
      (Change-capacity rq o db (run (rq, o) db) limit c.0 (run-Change rq o db) h)

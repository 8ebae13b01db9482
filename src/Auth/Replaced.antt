-- ===== src/Auth/Replaced.antt =====
-- Tokens that a later one, or the use of another, puts out of use.
use zhiniu.Prelude.{
  ℕ, true, false, not, ◌&&◌, ◌||◌, ◌≡◌, refl, sym, ◌∙◌, subst, Option, none, some, List, [], ◌∷◌,
  ◌++◌, find, find-holds, is_some, arith, ◌==◌, ==_iff, any_by, codes, text_eq,
}
use mathlib.Core.Option.{some-injective}
use zhiniu.DateTime.{add_minutes, not_after}
use zhiniu.AccessControl.Store.{User}
use zhiniu.AccessControl.Entitlements.{get_user}
use zhiniu.Auth.Store.{
  EmailVerificationTokenRecord, PasswordResetTokenRecord, AuthDb, Request, ok, err,
  password_reset_invalid,
}
use zhiniu.Auth.Safe.{Safe, returned, Safe-if, Safe-or_raise, Safe-require, Safe-eq-ok}
use zhiniu.Auth.Sessions.{normalize_email, hash_token}
use zhiniu.Auth.Emails.{
  Verified, verified, already_verified, verify_rows, consume_email_verification, verify_email,
  delivery_row,
}
use zhiniu.Auth.Passwords.{
  request_password_reset, reset_for, reset_row, revoke_resets, reset_by_hash, active_user_by_email,
  confirm_password_reset, validate_password,
}
use zhiniu.Auth.Service.{Operation, run_all}
use zhiniu.Auth.Kept.{IsSpent, Keeps-append, map-IsSpent}
use zhiniu.Auth.Preserved.{Kept-refl, reset_spent, token_spent, delivered_email}
use zhiniu.Auth.Preserved.Sequences.{run_all-Kept}
use zhiniu.Auth.Ended.{spent_reset}

-- A request for a reset puts every token that the user had out of use.
reset_for-IsSpent :
    (rq : Request) (db : AuthDb) (user : User) (digest : ℕ) (row : PasswordResetTokenRecord)
    → reset_by_hash db digest ≡ some row
    → row.user_id ≡ user.id
    → Safe
        (λ p. IsSpent (λ t. t.token_hash) reset_spent digest p.1.resets)
        (reset_for rq db (some user))
reset_for-IsSpent rq db user digest row found own =
    Safe-or_raise (add_minutes rq.settings.password_reset_ttl_minutes rq.now) _ λ t _.
      Safe-require (not (any_by (λ x. x.token_hash == hash_token rq rq.token) db.resets)) _ λ _.
        let revoked_rows = revoke_resets rq.now user.id db.resets in
        let db' : AuthDb = record db {
          resets = revoked_rows ++ reset_row rq user.id t ∷ [];
          deliveries =
              db.deliveries ++ delivery_row rq user.id (codes "reset_password") (codes "v1") ∷ [];
        } in
        returned (
          (delivered_email db' rq db' (Kept-refl db')).resets digest (
            Keeps-append (λ t. t.token_hash) reset_spent revoked_rows (reset_row rq user.id t ∷ [])
              digest
              (map-IsSpent (λ t. t.token_hash) reset_spent _ db.resets digest row
                (λ x. ground arith) found (ground (arith, own)))))

-- Once a user has asked for another reset, the tokens asked for before are refused, whatever
-- requests follow.
pub request_replaces :
    (rq : Request) (db : AuthDb) (email token password : List ℕ) (p : Unit {0} × AuthDb)
    (os : List (Request × Operation)) (later : Request) (user : User)
    (row : PasswordResetTokenRecord)
    → request_password_reset rq db email ≡ ok p
    → active_user_by_email db (normalize_email rq email) ≡ some user
    → reset_by_hash db (later.sha256 token) ≡ some row
    → row.user_id ≡ user.id
    → validate_password password later.settings.auth_password_min_length ≡ ok tt
    → confirm_password_reset later (run_all os p.1) token password ≡ err password_reset_invalid
unfolding request_password_reset
request_replaces rq db email token password p os later user row h known found own fine =
    spent_reset later (run_all os p.1) token password fine (
      (run_all-Kept os p.1).resets (later.sha256 token) (
        Safe-eq-ok p (reset_for-IsSpent rq db user (later.sha256 token) row found own)
          (rw known at h)))

-- What a verification that is new has found and written.
pub record IsVerification (rq : Request) (db : AuthDb) (found : Option EmailVerificationTokenRecord)
    (p : Verified × AuthDb) : Type 0 where
  pub row : EmailVerificationTokenRecord
  pub user : User
  pub there : found ≡ some row
  pub unspent : token_spent row ≡ false
  pub owner : get_user db.access row.user_id ≡ some user
  pub unverified : user.email_verified_at ≡ none
  pub in_time : not_after row.expires_at rq.now ≡ false
  pub same_address : text_eq row.email_snapshot user.email ≡ true
  pub rows : p.1.verifications ≡ verify_rows rq.now user.id row db.verifications

abbrev pub NewOnly : Type 0 → Verified → Type 0
NewOnly P verified = P
NewOnly P already_verified = Unit

consume_email_verification-IsVerification :
    (rq : Request) (db : AuthDb) (found : Option EmailVerificationTokenRecord)
    → Safe
        (λ p. NewOnly (IsVerification rq db found p) p.0)
        (consume_email_verification rq db found)
unfolding consume_email_verification
consume_email_verification-IsVerification rq db found = Safe-or_raise found _ λ row a.
    Safe-require (not (is_some row.revoked_at)) _ λ b.
      Safe-or_raise (get_user db.access row.user_id) _ λ user c.
        Safe-if (is_some row.consumed_at || is_some user.email_verified_at) (λ d. returned tt)
          λ d.
            Safe-require
              (not (not_after row.expires_at rq.now) && text_eq row.email_snapshot user.email) _
              λ e. returned (record {
                row = row;
                user = user;
                there = a;
                unspent = ground (arith, b, d);
                owner = c;
                unverified = ground (arith, d);
                in_time = ground (arith, e);
                same_address = ground (arith, e);
                rows = refl;
              })

-- A spent token verifies nothing.
spent_verification :
    (rq : Request) (db : AuthDb) (token : List ℕ) (q : Verified × AuthDb)
    → IsSpent (λ t. t.token_hash) token_spent (rq.sha256 token) db.verifications
    → verify_email rq db token ≡ ok q
    → q.0 ≡ already_verified
unfolding verify_email
spent_verification rq db token (already_verified, db') spent h = refl
spent_verification rq db token (verified, db') (row, found, gone) h =
    let v = Safe-eq-ok (verified, db') (consume_email_verification-IsVerification rq db _) h in
    absurd (ground (arith, v.unspent, gone, some-injective row v.row (sym found ∙ v.there)))

-- Once a token has verified an address, no token that its owner had verifies again, whatever
-- requests follow: it is refused, or the answer is that the address is verified already.
pub verified_once :
    (rq : Request) (db : AuthDb) (token other : List ℕ) (db' : AuthDb)
    (os : List (Request × Operation)) (later : Request) (row : EmailVerificationTokenRecord)
    (t : EmailVerificationTokenRecord) (q : Verified × AuthDb)
    → verify_email rq db token ≡ ok (verified, db')
    → find (λ x. x.token_hash == rq.sha256 token) db.verifications ≡ some row
    → find (λ x. x.token_hash == later.sha256 other) db.verifications ≡ some t
    → t.user_id ≡ row.user_id
    → verify_email later (run_all os db') other ≡ ok q
    → q.0 ≡ already_verified
unfolding verify_email
verified_once rq db token other db' os later row t q h found_row found own again =
    let v = Safe-eq-ok (verified, db') (consume_email_verification-IsVerification rq db _) h in
    let same_row = some-injective v.row row (sym v.there ∙ found_row) in
    let owner =
      (==_iff _ _).0 (find-holds (λ u. u.id == v.row.user_id) db.access.users v.user v.owner) in
    spent_verification later (run_all os db') other q
      ((run_all-Kept os db').verifications (later.sha256 other) (
        subst (λ r. IsSpent (λ x. x.token_hash) token_spent (later.sha256 other) r) (sym v.rows)
          (map-IsSpent (λ x. x.token_hash) token_spent _ db.verifications (later.sha256 other) t
            (λ x. ground arith) found (ground (arith, own, owner, same_row)))))
      again

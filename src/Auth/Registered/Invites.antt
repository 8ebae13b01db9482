-- ===== src/Auth/Registered/Invites.antt =====
-- An invite is used once.
use zhiniu.Prelude.{
  ℕ, false, not, ◌||◌, ◌≡◌, refl, sym, ◌∙◌, inl, inr, Option, none, some, List, is_some, arith,
  Option-cases,
}
use zhiniu.DateTime.{not_after}
use zhiniu.AccessControl.Codes.{inv, code_hmac}
use zhiniu.AccessControl.Store.{RegistrationInviteRecord, RegistrationInviteBatchRecord}
use zhiniu.Auth.Store.{
  AuthDb, AuthError, Request, BetaInviteRecipientRecord, Result-cases, ok, err,
  invalid_or_unavailable_invitation,
}
use zhiniu.Auth.Safe.{Safe, returned, Safe-or_raise, Safe-require, Safe-eq-ok}
use zhiniu.Auth.Legal.{Acceptances}
use zhiniu.Auth.Sessions.{AuthenticatedSession, normalize_email}
use zhiniu.Auth.Registration.{
  usable_invite, get_invite, get_invite_batch, get_recipient, new_user, register_recipient,
  with_registration, register,
}
use zhiniu.Auth.Service.{Operation, run_all}
use zhiniu.Auth.Kept.{IsSpent, map-IsSpent}
use zhiniu.Auth.Preserved.{Kept-refl, invite_spent}
use zhiniu.Auth.Preserved.Sequences.{run_all-Kept, finish_registration-Kept}
use zhiniu.Auth.Registered.{register-IsRegistration}

-- An invite that may be used.
pub record IsUsable (rq : Request) (db : AuthDb) (code : List ℕ) (invite : RegistrationInviteRecord)
    : Type 0 where
  pub digest : ℕ
  pub batch : RegistrationInviteBatchRecord
  pub formed : code_hmac rq.hmac code inv rq.settings.registration_invite_hmac_secret ≡ some digest
  pub found : get_invite db digest ≡ some invite
  pub of_batch : get_invite_batch db invite.batch_id ≡ some batch
  pub fresh : invite.consumed_at ≡ none
  pub unrevoked : invite.revoked_at ≡ none
  pub batch_open : batch.revoked_at ≡ none
  pub in_time : not_after invite.expires_at rq.now ≡ false
  pub batch_in_time : not_after batch.expires_at rq.now ≡ false

pub usable_invite-IsUsable :
    (rq : Request) (db : AuthDb) (code : List ℕ)
    → Safe (IsUsable rq db code) (usable_invite rq db code)
unfolding usable_invite
usable_invite-IsUsable rq db code =
    Safe-or_raise (code_hmac rq.hmac code inv rq.settings.registration_invite_hmac_secret) _
      λ digest a. Safe-or_raise (get_invite db digest) _ λ invite b.
        Safe-or_raise (get_invite_batch db invite.batch_id) _ λ batch c.
          Safe-require
            (not (
              is_some invite.consumed_at
              || is_some invite.revoked_at
              || is_some batch.revoked_at
              || not_after invite.expires_at rq.now
              || not_after batch.expires_at rq.now))
            _
            λ d. returned (record {
              digest = digest;
              batch = batch;
              formed = a;
              found = b;
              of_batch = c;
              fresh = ground (arith, d);
              unrevoked = ground (arith, d);
              batch_open = ground (arith, d);
              in_time = ground (arith, d);
              batch_in_time = ground (arith, d);
            })

spent_invite :
    (rq : Request) (db : AuthDb) (code : List ℕ) (digest : ℕ)
    → code_hmac rq.hmac code inv rq.settings.registration_invite_hmac_secret ≡ some digest
    → IsSpent (λ i. i.code_hmac) invite_spent digest db.access.invites
    → usable_invite rq db code ≡ err invalid_or_unavailable_invitation
unfolding usable_invite
spent_invite rq db code digest formed (i, found, gone) =
    elim (Option-cases (get_invite_batch db i.batch_id)) [
      | inl none_there ↦ rw (formed, found, none_there) refl
      | inr (batch, there) ↦ rw (formed, found, there) (ground (arith, gone))
    ]

register_recipient-invites :
    (rq : Request) (db : AuthDb) (recipient : Option BetaInviteRecipientRecord)
    → (register_recipient rq db recipient).access.invites ≡ db.access.invites
register_recipient-invites rq db none = refl
register_recipient-invites rq db (some r) = refl

module _ (rq : Request) (db : AuthDb) (email password code : List ℕ) (acceptances : Acceptances)
    (p : AuthenticatedSession × AuthDb)
    (h : register rq db email password code acceptances ≡ ok p) where
  consumed_invite :
      (digest : ℕ) × (code_hmac rq.hmac code inv rq.settings.registration_invite_hmac_secret
        ≡ some digest)
      × IsSpent (λ i. i.code_hmac) invite_spent digest p.1.access.invites
  unfolding with_registration
  consumed_invite =
      let r = Safe-eq-ok p (register-IsRegistration rq db email password code acceptances) h in
      let u = Safe-eq-ok r.invite (usable_invite-IsUsable rq db code) r.admitted.usable in
      let user = new_user rq (normalize_email rq email) password in
      let recipient = get_recipient db r.invite.id in
      let db' = with_registration rq db user r.invite recipient acceptances in
      let kept =
        Safe-eq-ok p (finish_registration-Kept rq db' db' user (Kept-refl db')) r.finished in
      (
        u.digest,
        u.formed,
        kept.invites u.digest (
            rw (register_recipient-invites rq _ recipient) (
              map-IsSpent (λ i. i.code_hmac) invite_spent _ db.access.invites u.digest r.invite
                (λ x. ground arith) u.found (ground arith))),
      )

  -- A code for an invite registers one user: whatever requests follow a registration with it, the
  -- invite cannot be used again, and no other registration with the code succeeds.
  pub invite_once :
      (os : List (Request × Operation)) (later : Request) (email' password' : List ℕ)
      (acceptances' : Acceptances)
      → later.hmac ≡ rq.hmac
      → later.settings.registration_invite_hmac_secret ≡ rq.settings.registration_invite_hmac_secret
      → (usable_invite later (run_all os p.1) code ≡ err invalid_or_unavailable_invitation)
        × ((e : AuthError) × (register later (run_all os p.1) email' password' code acceptances'
              ≡ err e))
  invite_once os later email' password' acceptances' same_hmac same_secret =
      let (digest, formed, spent) = consumed_invite in
      let db' = run_all os p.1 in
      let refused =
        spent_invite later db' code digest (rw (same_hmac, same_secret) formed)
          ((run_all-Kept os p.1).invites digest spent) in
      (
        refused,
        elim (Result-cases (register later db' email' password' code acceptances')) [
          | inl e ↦ e
          | inr (q, done) ↦
              let again =
                Safe-eq-ok q (register-IsRegistration later db' email' password' code acceptances')
                  done in
              absurd (ground (arith, sym refused ∙ again.admitted.usable))
        ],
      )

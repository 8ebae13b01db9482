-- ===== src/Auth/Emails.antt =====
-- The emails of auth/service.py: `_create_email_verification`, `_deliver_email` and the verification
-- of an address. The text of a message is left out; the provider's answer is part of the request.
use zhiniu.Prelude.{
  ℕ, zero, suc, ◌+◌, ◌/◌, ◌%◌, Bool, true, false, not, ◌&&◌, ◌||◌, Option, none, some, List, [],
  ◌∷◌, ◌++◌, codes, find, is_some, map, text_eq, any_by, all_by, take, length, leb, ◌==◌,
  if◌then◌else◌,
}
use zhiniu.DateTime.{DateTime, not_after, add_minutes}
use zhiniu.AccessControl.Store.{User}
use zhiniu.AccessControl.Entitlements.{get_user}
use zhiniu.Auth.Store.{
  EmailVerificationTokenRecord, TransactionalEmailDeliveryRecord, pending, sent, failed,
  EmailOutcome, queued, queue_unavailable, gateway_sent, gateway_failed, AuthDb, Request, Result,
  ok, date_overflow, email_verification_invalid, email_verification_expired,
  email_verification_unavailable, user_not_found, ◌>>=◌, ◌>>◌, require, or_raise,
}
use zhiniu.Auth.Sessions.{hash_token, change_user, with_users}

-- `f"{randbelow(1_000_000):06d}"`
abbrev pub digit : ℕ → ℕ
digit n = b'0' + n % 10

abbrev pub six_digits : ℕ → List ℕ
six_digits n =
    digit (n / 100000)
    ∷ digit (n / 10000)
    ∷ digit (n / 1000)
    ∷ digit (n / 100)
    ∷ digit (n / 10)
    ∷ digit n
    ∷ []

-- `code.isascii() and code.isdigit()`
abbrev pub is_digits : List ℕ → Bool
is_digits code = all_by (λ c. leb b'0' c && leb c b'9') code

abbrev pub hash_email_verification_code : Request → ℕ → List ℕ → ℕ
hash_email_verification_code rq user_id code =
    hash_token rq (rq.uuid_text user_id ++ codes ":" ++ code)

-- The loop over at most `left` draws, from the draw `index` on.
unfoldable pub draw_code : Request → AuthDb → ℕ → ℕ → ℕ → Option (List ℕ)
draw_code rq db user_id index zero = none
draw_code rq db user_id index (suc left) =
    let rest = draw_code rq db user_id (index + 1) left in
    let code = six_digits (rq.randbelow index) in
    if any_by (λ t. t.token_hash == hash_email_verification_code rq user_id code) db.verifications
    then rest
    else some code

abbrev pub delivery_row : Request → ℕ → List ℕ → List ℕ → TransactionalEmailDeliveryRecord
delivery_row rq user_id template_key template_version = record {
  id = rq.delivery_uuid;
  user_id = user_id;
  template_key = template_key;
  template_version = template_version;
  provider = rq.provider_name;
  logical_delivery_key = (template_key, rq.token_uuid);
  status = pending;
  provider_message_id = none;
  sent_at = none;
  error_code = none;
}

abbrev pub verification_row : Request → User → List ℕ → DateTime → EmailVerificationTokenRecord
verification_row rq user code expires_at = record {
  id = rq.token_uuid;
  user_id = user.id;
  token_hash = hash_email_verification_code rq user.id code;
  email_snapshot = user.email;
  expires_at = expires_at;
  consumed_at = none;
  revoked_at = none;
}

-- `_create_email_verification`; the code is what the message shows
unfoldable pub create_email_verification : Request → AuthDb → User → Result (List ℕ × AuthDb)
unfolding draw_code
create_email_verification rq db user = do
  code ← or_raise (draw_code rq db user.id 0 10) email_verification_unavailable
  expires_at ←
      or_raise (add_minutes rq.settings.email_verification_code_ttl_minutes rq.now) date_overflow
  ok (
    code,
    record db {
      verifications = db.verifications ++ verification_row rq user code expires_at ∷ [];
      deliveries =
          db.deliveries ++ delivery_row rq user.id (codes "verify_email") (codes "v3") ∷ [];
    },
  )

-- The delivery row after the provider's answer; whether the message is on its way.
abbrev pub delivered :
    EmailOutcome → TransactionalEmailDeliveryRecord → Bool × TransactionalEmailDeliveryRecord
delivered queued d = (true, record d { provider = codes "resend" })
delivered queue_unavailable d = (
  false,
  record d {
    provider = codes "resend";
    status = failed;
    error_code = some (codes "email_dispatch_unavailable");
  },
)
delivered (gateway_sent provider message_id at) d = (
  true,
  record d {
    provider = provider;
    provider_message_id = some (take 200 message_id);
    status = sent;
    sent_at = some at;
    error_code = none;
  },
)
delivered (gateway_failed error) d =
    (false, record d { status = failed; error_code = some (take 80 error) })

-- `_deliver_email`, on the delivery that the request has added
abbrev pub deliver_found :
    Request → AuthDb → Option TransactionalEmailDeliveryRecord → Bool × AuthDb
deliver_found rq db none = (false, db)
deliver_found rq db (some d) =
    let (on_its_way, d') = delivered rq.outcome d in
    (
      on_its_way,
      record db {
        deliveries = map (λ x. if x.id == rq.delivery_uuid then d' else x) db.deliveries;
      },
    )

unfoldable pub deliver_email : Request → AuthDb → Bool × AuthDb
deliver_email rq db = deliver_found rq db (find (λ d. d.id == rq.delivery_uuid) db.deliveries)

-- Neither consumed nor revoked.
abbrev pub is_unused : EmailVerificationTokenRecord → Bool
is_unused t = not (is_some t.consumed_at) && not (is_some t.revoked_at)

pub data Verified : Type 0 where
  verified already_verified : Verified

-- The writes of a verification.
abbrev pub verify_rows :
    DateTime
    → ℕ
    → EmailVerificationTokenRecord
    → List EmailVerificationTokenRecord
    → List EmailVerificationTokenRecord
verify_rows now user_id row rows =
    map
      (λ t.
        if t.id == row.id
        then record t { consumed_at = some now }
        else if (t.user_id == user_id) && is_unused t
        then record t { revoked_at = some now }
        else t)
      rows

-- `_consume_email_verification`
unfoldable pub consume_email_verification :
    Request → AuthDb → Option EmailVerificationTokenRecord → Result (Verified × AuthDb)
consume_email_verification rq db found = do
  row ← or_raise found email_verification_invalid
  require (not (is_some row.revoked_at)) email_verification_invalid
  user ← or_raise (get_user db.access row.user_id) email_verification_invalid
  if is_some row.consumed_at || is_some user.email_verified_at
      then ok (already_verified, db)
      else (require (not (not_after row.expires_at rq.now) && text_eq row.email_snapshot user.email)
            email_verification_expired
          >> ok (
            verified,
            record (with_users db (
                change_user user.id (λ u. record u { email_verified_at = some rq.now })
                  db.access.users)) {
                    verifications = verify_rows rq.now user.id row db.verifications;
                  },
          ))

unfoldable pub verify_email : Request → AuthDb → List ℕ → Result (Verified × AuthDb)
unfolding consume_email_verification
verify_email rq db token =
    consume_email_verification rq db
      (find (λ t. t.token_hash == hash_token rq token) db.verifications)

unfoldable pub verify_email_code : Request → AuthDb → ℕ → List ℕ → Result (Verified × AuthDb)
unfolding consume_email_verification
verify_email_code rq db user_id code =
    require ((length code == 6) && is_digits code) email_verification_invalid
    >> consume_email_verification rq db (
        find
          (λ t.
            (t.user_id == user_id)
            && (t.token_hash == hash_email_verification_code rq user_id code))
          db.verifications)

pub data Resent : Type 0 where
  already_done message_sent delivery_unavailable : Resent

-- The unused tokens of the user are revoked.
abbrev pub revoke_verifications :
    DateTime → ℕ → List EmailVerificationTokenRecord → List EmailVerificationTokenRecord
revoke_verifications now user_id rows =
    map
      (λ t. if (t.user_id == user_id) && is_unused t then record t { revoked_at = some now } else t)
      rows

unfoldable pub resend_verification : Request → AuthDb → ℕ → Result (Resent × AuthDb)
unfolding create_email_verification deliver_email
resend_verification rq db user_id = do
  user ← or_raise (get_user db.access user_id) user_not_found
  if is_some user.email_verified_at
      then ok (already_done, db)
      else (create_email_verification rq
            (record db { verifications = revoke_verifications rq.now user.id db.verifications })
            user
          >>= λ created.
              let (on_its_way, db') = deliver_email rq created.1 in
              ok ((if on_its_way then message_sent else delivery_unavailable), db'))

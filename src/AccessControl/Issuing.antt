-- ===== src/AccessControl/Issuing.antt =====
-- `generate_registration_invites` and `issue_access_code` of access_control/service.py.
-- The labels of the batches, which the code only stores, are left out.
pub mod Redeemable
pub mod Invites
use zhiniu.Prelude.{
  ℕ, zero, suc, ◌+◌, Bool, true, not, ◌&&◌, is_some, any_by, ◌==◌, Option, none, some, List, [],
  ◌∷◌, ◌++◌, map, text_eq, find, leb, if◌then◌else◌,
}
use zhiniu.DateTime.{DateTime, add_days}
use zhiniu.AccessControl.Codes.{
  CodeDomain, inv, act, generate_code, code_hmac, code_prefix, strip_left, strip_right,
}
use zhiniu.AccessControl.Store.{
  TermKind, User, AccessActivationBatchRecord, AccessActivationCodeRecord,
  RegistrationInviteBatchRecord, RegistrationInviteRecord, Db, Settings, Result, ok, err,
  invalid_invite_count, invalid_invite_expiry, invalid_activation_expiry, user_not_found,
  invalid_code_format, date_out_of_range, unique_violation, ◌>>=◌, ◌>>◌, require, or_raise,
}

-- ADVANCED_PLAN_VERSION_ID
abbrev pub advanced_plan_version_id : ℕ
advanced_plan_version_id = 0x10000000000040008000000000000009

-- What `uuid4` and `choice` draw in one call, by the order of the draws.
pub record Draws : Type 0 where
  pub batch_id : ℕ
  pub row_id : ℕ → ℕ
  pub body : ℕ → List ℕ

abbrev pub within : ℕ → ℕ → ℕ → Bool
within low value high = leb low value && leb value high

abbrev pub to_lower : ℕ → ℕ
to_lower c = if leb b'A' c && leb c b'Z' then c + 32 else c

-- `user_email.strip().lower()`
abbrev pub email_key : List ℕ → List ℕ
email_key email = map to_lower (strip_right (strip_left email))

pub record GeneratedCodeBatch : Type 0 where
  pub batch_id : ℕ
  pub codes : List (List ℕ)
  pub expires_at : DateTime

pub record IssuedAccessCode : Type 0 where
  pub batch_id : ℕ
  pub assigned_user_id : ℕ
  pub code : List ℕ
  pub expires_at : DateTime

abbrev pub invite_row : Draws → ℕ → List ℕ → ℕ → DateTime → RegistrationInviteRecord
invite_row draws index code digest expires_at = record {
  id = draws.row_id index;
  batch_id = draws.batch_id;
  code_hmac = digest;
  code_prefix = code_prefix code;
  expires_at = expires_at;
  consumed_by_user_id = none;
  consumed_at = none;
  revoked_at = none;
}

-- The loop over `range(count)`, from a draw on: the codes and the rows, or the error of a code
-- without a digest.
pub invite_rows :
    (List ℕ → List ℕ → ℕ)
    → Settings
    → Draws
    → DateTime
    → ℕ
    → ℕ
    → Result (List (List ℕ) × List RegistrationInviteRecord)
invite_rows hmac settings draws expires_at index zero = ok ([], [])
invite_rows hmac settings draws expires_at index (suc left) =
    let rest = invite_rows hmac settings draws expires_at (index + 1) left in
    let code = generate_code inv (draws.body index) in
    do
      digest ←
          or_raise (code_hmac hmac code inv settings.registration_invite_hmac_secret)
            invalid_code_format
      tail ← rest
      ok (code ∷ tail.0, invite_row draws index code digest expires_at ∷ tail.1)

-- The unique constraint on a column of digests: the added ones differ from the rows' and from each
-- other.
abbrev pub all_new : List ℕ → List ℕ → Bool
all_new known [] = true
all_new known (digest ∷ rest) =
    not (any_by (λ d. d == digest) known) && all_new (digest ∷ known) rest

abbrev pub with_invites : Db → Draws → ℕ → List ℕ → DateTime → List RegistrationInviteRecord → Db
with_invites db draws count operator expires_at rows = record db {
  invite_batches =
      db.invite_batches
      ++ record {
        id = draws.batch_id;
        quantity = count;
        expires_at = expires_at;
        created_by_operator = operator;
        revoked_at = none;
      }
        ∷ [];
  invites = db.invites ++ rows;
}

-- `generate_registration_invites` at the moment `now`; an error commits nothing, and the
-- commit raises for a digest that is there already
pub generate_registration_invites :
    (List ℕ → List ℕ → ℕ)
    → Settings
    → Draws
    → Db
    → ℕ
    → ℕ
    → List ℕ
    → DateTime
    → Result (GeneratedCodeBatch × Db)
generate_registration_invites hmac settings draws db count expires_in_days operator now = do
  require (within 1 count 500) invalid_invite_count
  require (within 1 expires_in_days 90) invalid_invite_expiry
  expires_at ← or_raise (add_days expires_in_days now) date_out_of_range
  rows ← invite_rows hmac settings draws expires_at 0 count
  require (all_new (map (λ i. i.code_hmac) db.invites) (map (λ i. i.code_hmac) rows.1))
      unique_violation
  ok (
    record { batch_id = draws.batch_id; codes = rows.0; expires_at = expires_at },
    with_invites db draws count operator expires_at rows.1,
  )

-- The rows that `issue_access_code` adds.
abbrev pub issued_batch : Draws → TermKind → List ℕ → DateTime → AccessActivationBatchRecord
issued_batch draws term_kind operator expires_at = record {
  id = draws.batch_id;
  plan_version_id = advanced_plan_version_id;
  term_kind = term_kind;
  quantity = 1;
  expires_at = expires_at;
  created_by_operator = operator;
  revoked_at = none;
}

abbrev pub issued_code : Draws → List ℕ → ℕ → ℕ → DateTime → AccessActivationCodeRecord
issued_code draws code digest user_id expires_at = record {
  id = draws.row_id 0;
  batch_id = draws.batch_id;
  code_hmac = digest;
  code_prefix = code_prefix code;
  assigned_user_id = user_id;
  expires_at = expires_at;
  redeemed_by_user_id = none;
  redeemed_at = none;
  revoked_at = none;
}

abbrev pub with_issued : Db → Draws → List ℕ → ℕ → TermKind → List ℕ → ℕ → DateTime → Db
with_issued db draws code digest term_kind operator user_id expires_at = record db {
  batches = db.batches ++ issued_batch draws term_kind operator expires_at ∷ [];
  activation_codes = db.activation_codes ++ issued_code draws code digest user_id expires_at ∷ [];
}

-- `issue_access_code` at the moment `now`; an error commits nothing, and the
-- commit raises for a digest that is there already
pub issue_access_code :
    (List ℕ → List ℕ → ℕ)
    → Settings
    → Draws
    → Db
    → List ℕ
    → TermKind
    → ℕ
    → List ℕ
    → DateTime
    → Result (IssuedAccessCode × Db)
issue_access_code hmac settings draws db user_email term_kind expires_in_days operator now = do
  require (within 1 expires_in_days 90) invalid_activation_expiry
  user ← or_raise (find (λ u. text_eq u.email (email_key user_email)) db.users) user_not_found
  expires_at ← or_raise (add_days expires_in_days now) date_out_of_range
  let code = generate_code act (draws.body 0)
  digest ←
      or_raise (code_hmac hmac code act settings.access_activation_hmac_secret) invalid_code_format
  require (not (is_some (find (λ c. c.code_hmac == digest) db.activation_codes))) unique_violation
  ok (
    record {
      batch_id = draws.batch_id;
      assigned_user_id = user.id;
      code = code;
      expires_at = expires_at;
    },
    with_issued db draws code digest term_kind operator user.id expires_at,
  )

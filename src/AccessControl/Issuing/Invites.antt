-- ===== src/AccessControl/Issuing/Invites.antt =====
-- What a batch of registration invites holds.
use zhiniu.Prelude.{
  ℕ, zero, suc, ◌+◌, ◌<◌, true, ◌≡◌, refl, ap, map, inl, inr, none, some, List, [], ◌∷◌, ◌++◌,
  arith, codes, Option-cases, length, all_by,
}
use zhiniu.DateTime.{DateTime, IsDateTime, stamp, add_days}
use zhiniu.DateTime.Calendar.{add_days-later}
use zhiniu.AccessControl.Codes.{inv, generate_code, code_hmac, in_alphabet}
use zhiniu.AccessControl.Codes.RoundTrip.{code_hmac-generate}
use zhiniu.AccessControl.Store.{RegistrationInviteRecord, Db, Settings, Result-cases, ok}
use zhiniu.AccessControl.Issuing.{
  Draws, all_new, GeneratedCodeBatch, within, with_invites, invite_row, invite_rows,
  generate_registration_invites,
}

-- An invite that may be used for a code until a moment.
abbrev pub IsOpen :
    (List ℕ → List ℕ → ℕ) → Settings → ℕ → DateTime → List ℕ → RegistrationInviteRecord → Type 0
IsOpen hmac settings batch_id until code row =
    (code_hmac hmac code inv settings.registration_invite_hmac_secret ≡ some row.code_hmac)
    × (row.batch_id ≡ batch_id)
    × (row.expires_at ≡ until)
    × (row.consumed_at ≡ none)
    × (row.revoked_at ≡ none)

-- The codes and the rows agree, one by one.
abbrev pub Agree :
    (List ℕ → RegistrationInviteRecord → Type 0)
    → List (List ℕ)
    → List RegistrationInviteRecord
    → Type 0
Agree P [] [] = Unit
Agree P [] (r ∷ rs) = ⊥
Agree P (c ∷ cs) [] = ⊥
Agree P (c ∷ cs) (r ∷ rs) = P c r × Agree P cs rs

module _ (hmac : List ℕ → List ℕ → ℕ) (settings : Settings) (draws : Draws) where
  invite_rows-Agree :
      (until : DateTime) (index left : ℕ) {rows : List (List ℕ) × List RegistrationInviteRecord}
      → invite_rows hmac settings draws until index left ≡ ok rows
      → (length rows.0 ≡ left) × Agree (IsOpen hmac settings draws.batch_id until) rows.0 rows.1
  unfolding invite_rows
  invite_rows-Agree until index zero h = ground arith
  invite_rows-Agree until index (suc left) h =
      let code = generate_code inv (draws.body index) in
      elim (Option-cases (code_hmac hmac code inv settings.registration_invite_hmac_secret)) [
        | inl malformed ↦ ground arith
        | inr (digest, formed) ↦
            elim (Result-cases (invite_rows hmac settings draws until (index + 1) left)) [
              | inl (e, bad) ↦ ground arith
              | inr (tail, good) ↦
                  ground (
                    arith,
                    formed,
                    good,
                    invite_rows-Agree until (index + 1) left {rows = tail} good,
                  )
            ]
      ]

  -- The digests of the codes that are drawn from an index on.
  abbrev drawn_digests : ℕ → ℕ → List ℕ
  drawn_digests index zero = []
  drawn_digests index (suc left) =
      hmac settings.registration_invite_hmac_secret
        (codes "INV" ++ b':' ∷ (codes "INV" ++ draws.body index))
      ∷ drawn_digests (index + 1) left

  pub invite_rows_total :
      (until : DateTime) (index left : ℕ)
      → ((i : ℕ) → (length (draws.body i) ≡ 8) × (all_by in_alphabet (draws.body i) ≡ true))
      → (rows : List (List ℕ) × List RegistrationInviteRecord) × (invite_rows hmac settings draws
            until index left
          ≡ ok rows)
        × (map (λ i. i.code_hmac) rows.1 ≡ drawn_digests index left)
  unfolding invite_rows
  invite_rows_total until index zero drawn = (([], []), refl, refl)
  invite_rows_total until index (suc left) drawn =
      let (tail, good, same) = invite_rows_total until (index + 1) left drawn in
      let (n, a) = drawn index in
      let code = generate_code inv (draws.body index) in
      let secret = settings.registration_invite_hmac_secret in
      let digest = hmac secret (codes "INV" ++ b':' ∷ (codes "INV" ++ draws.body index)) in
      (
        (code ∷ tail.0, invite_row draws index code digest until ∷ tail.1),
        rw (code_hmac-generate hmac inv (draws.body index) secret n a, good) refl,
        ap (λ ds. digest ∷ ds) same,
      )

  -- With counts and days in range, draws from the alphabet, and digests that differ from each other
  -- and from those of the table, as many codes come back as were asked for; the invites are those
  -- that were there and then one open row for each code, in order, which is found by the digest of
  -- its code and ends with the batch, after now.
  pub generate_registration_invites_lem :
      (db : Db) (count days : ℕ) (operator : List ℕ) (now until : DateTime)
      → within 1 count 500 ≡ true
      → within 1 days 90 ≡ true
      → IsDateTime now
      → add_days days now ≡ some until
      → ((i : ℕ) → (length (draws.body i) ≡ 8) × (all_by in_alphabet (draws.body i) ≡ true))
      → all_new (map (λ i. i.code_hmac) db.invites) (drawn_digests 0 count) ≡ true
      → (b : GeneratedCodeBatch) × (db' : Db) × (rows : List RegistrationInviteRecord)
        × (generate_registration_invites hmac settings draws db count days operator now
            ≡ ok (b, db'))
        × (length b.codes ≡ count)
        × (db'.invites ≡ db.invites ++ rows)
        × Agree (IsOpen hmac settings b.batch_id b.expires_at) b.codes rows
        × (stamp now < stamp b.expires_at)
  unfolding generate_registration_invites
  generate_registration_invites_lem db count days operator now until c d v e drawn new =
      let (rows, good, same) = invite_rows_total until 0 count drawn in
      let (n, agree) = invite_rows-Agree until 0 count good in
      (
        record { batch_id = draws.batch_id; codes = rows.0; expires_at = until },
        with_invites db draws count operator until rows.1,
        rows.1,
        rw (c, d, e, good, same, new) refl,
        n,
        refl,
        agree,
        add_days-later days now until (ground arith) v e,
      )

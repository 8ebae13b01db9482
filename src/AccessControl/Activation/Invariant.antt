-- ===== src/AccessControl/Activation/Invariant.antt =====
-- No code is ever redeemed twice.
use zhiniu.Prelude.{
  ℕ, ◌≡◌, ◌≤◌, refl, sym, ap, ◌∙◌, subst, inl, inr, none, List, [], ◌∷◌, ◌++◌, arith, Option-cases,
  ◌==◌, Bool-cases, ==_iff, if◌then◌else◌, All, All-map, count_by, count_by-append, find-All,
}
use zhiniu.DateTime.{DateTime}
use zhiniu.AccessControl.Codes.{act, code_hmac}
use zhiniu.AccessControl.Store.{
  AccessActivationCodeRecord, AccessActivationRedemptionRecord, Db, Result, ok,
}
use zhiniu.AccessControl.Activation.{
  Environment, Grant, AccessActivationResponse, find_activation, usable_batch, plan_grant, get_code,
  mark_redeemed, redeem, activate,
}
use zhiniu.AccessControl.Activation.Steps.{Ends, refused, repeated, redeemed, activate-Ends}

-- The redemptions of a code.
abbrev pub redemptions_of : ℕ → List AccessActivationRedemptionRecord → ℕ
redemptions_of code_id rows = count_by (λ r. r.activation_code_id == code_id) rows

-- A code that is not marked has no redemption.
abbrev pub IsMarked : List AccessActivationRedemptionRecord → AccessActivationCodeRecord → Type 0
IsMarked rows c = c.redeemed_at ≡ none → redemptions_of c.id rows ≡ 0

-- The unique constraint of the redemptions, and the agreement of the two tables.
pub record IsConsistent (db : Db) : Type 0 where
  pub once : (code_id : ℕ) → redemptions_of code_id db.redemptions ≤ 1
  pub marked : All (IsMarked db.redemptions) db.activation_codes

-- A grant is planned for an unmarked code only.
planned_unmarked :
    (db : Db) (user_id : ℕ) (activation : AccessActivationCodeRecord) (at : DateTime) (g : Grant)
    → plan_grant db user_id activation at ≡ ok g
    → activation.redeemed_at ≡ none
unfolding plan_grant usable_batch
planned_unmarked db user_id activation at g h = ground arith

module _ (env : Environment) (db : Db) (user_id : ℕ) (code : List ℕ) (at : DateTime) where
  -- The code that the checks return is a row of the table.
  found_code :
      (P : AccessActivationCodeRecord → Type 0) (activation : AccessActivationCodeRecord)
      → find_activation env db user_id code ≡ ok activation
      → All P db.activation_codes
      → P activation
  unfolding find_activation
  found_code P activation h all =
      elim (Option-cases (code_hmac env.hmac code act env.settings.access_activation_hmac_secret)) [
        | inl malformed ↦ ground arith
        | inr (digest, formed) ↦ elim (Option-cases (get_code db digest)) [
          | inl unknown ↦ ground arith
          | inr (c, known) ↦
              subst P (ground arith)
                (find-All P (λ x. x.code_hmac == digest) db.activation_codes c all known)
        ]
      ]

  -- Another code keeps its redemptions; the redeemed one is marked.
  IsMarked-append :
      (activation c : AccessActivationCodeRecord) (r : AccessActivationRedemptionRecord)
      → r.activation_code_id ≡ activation.id
      → IsMarked db.redemptions c
      → IsMarked
          (db.redemptions ++ r ∷ [])
          (if c.id == activation.id then mark_redeemed user_id at c else c)
  IsMarked-append activation c r e m unmarked =
      ground (arith, m, count_by-append (λ x. x.activation_code_id == c.id) db.redemptions (r ∷ []))

  redemptions_of-append_le :
      (k activation_id : ℕ) (r : AccessActivationRedemptionRecord)
      → r.activation_code_id ≡ activation_id
      → redemptions_of k db.redemptions ≤ 1
      → redemptions_of activation_id db.redemptions ≡ 0
      → redemptions_of k (db.redemptions ++ r ∷ []) ≤ 1
  redemptions_of-append_le k activation_id r e h z = elim (Bool-cases (r.activation_code_id == k)) [
    | inl same ↦
        rw (count_by-append (λ x. x.activation_code_id == k) db.redemptions (r ∷ []), same)
          (omega (
            arith,
            ap (λ t. redemptions_of t db.redemptions)
                (sym e ∙ (==_iff r.activation_code_id k).0 same),
          ))
    | inr other ↦
        rw (count_by-append (λ x. x.activation_code_id == k) db.redemptions (r ∷ []), other)
          (omega arith)
  ]

  redeem-IsConsistent :
      (activation : AccessActivationCodeRecord) (g : Grant)
      → IsConsistent db
      → redemptions_of activation.id db.redemptions ≡ 0
      → IsConsistent (redeem env db user_id activation at g)
  unfolding redeem
  redeem-IsConsistent activation g c zero_before = record {
    once = λ k. redemptions_of-append_le k activation.id _ refl (c.once k) zero_before;
    marked =
        All-map (IsMarked db.redemptions)
          (IsMarked (redeem env db user_id activation at g).redemptions)
          (λ c. if c.id == activation.id then mark_redeemed user_id at c else c) db.activation_codes
          (λ c. IsMarked-append activation c _ refl) c.marked;
  }

  -- No code is redeemed twice: the rule that a code has at most one redemption, and none while it is
  -- not marked, holds after every activation, whether it was refused, repeated or carried out.
  pub activate-IsConsistent : IsConsistent db → IsConsistent (activate env db user_id code at).1
  activate-IsConsistent c = kept (activate-Ends env db user_id code at)
    where
      kept :
          {p : Result AccessActivationResponse × Db}
          → Ends env db user_id code at p
          → IsConsistent p.1
      kept (refused e) = c
      kept (repeated id) = c
      kept (redeemed activation g h) = redeem-IsConsistent activation g c (
          found_code (IsMarked db.redemptions) activation h.checked c.marked
            (planned_unmarked db user_id activation at g h.planned))

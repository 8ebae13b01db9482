-- ===== src/ProductionRelease/Service/Approvals.antt =====
-- The table of approvals under its unique constraints.
use zhiniu.Prelude.{
  ℕ, ◌≡◌, ◌≢◌, sym, ap, ◌∙◌, subst, inl, inr, true, false, ◌&&◌, some, List, [], ◌∷◌, arith,
  Bool-cases, any_by, find-holds, ◌==◌,
}
use mathlib.Core.Option.{some-injective}
use zhiniu.ProductionRelease.Models.{
  ApprovalRole, role_eq, approved, ProductionReleaseApprovalRecord,
}
use zhiniu.ProductionRelease.Checks.{approval_of}
use zhiniu.ProductionRelease.Service.{same_approval}
use zhiniu.ProductionRelease.Service.Transitions.{found_fails}

-- No two rows violate a unique constraint.
abbrev pub IsUnique : List ProductionReleaseApprovalRecord → Type 0
IsUnique [] = Unit
IsUnique (a ∷ rest) = (any_by (same_approval a) rest ≡ false) × IsUnique rest

-- The approval of a role stands.
abbrev pub IsApproved : List ProductionReleaseApprovalRecord → ℕ → ApprovalRole → Type 0
IsApproved approvals id role =
    (a : ProductionReleaseApprovalRecord) × (approval_of approvals id role ≡ some a)
    × (a.decision ≡ approved)

role_eq_sound : (r s : ApprovalRole) → role_eq r s ≡ true → r ≡ s
role_eq_sound r s h = ground arith

role_eq_refl : (r : ApprovalRole) → role_eq r r ≡ true
role_eq_refl r = ground arith

-- The row that is found is of the candidate and the role.
pub approval_of-holds :
    (approvals : List ProductionReleaseApprovalRecord) (id : ℕ) (role : ApprovalRole)
    (a : ProductionReleaseApprovalRecord)
    → approval_of approvals id role ≡ some a
    → (a.candidate_id ≡ id) × (a.approval_role ≡ role)
unfolding approval_of
approval_of-holds approvals id role a h =
    let hit =
      find-holds (λ x. (x.candidate_id == id) && role_eq x.approval_role role) approvals a h in
    (ground (arith, hit), role_eq_sound a.approval_role role (ground (arith, hit)))

-- A row that violates no constraint replaces no approval.
pub IsApproved-add :
    (row : ProductionReleaseApprovalRecord) (approvals : List ProductionReleaseApprovalRecord)
    (id : ℕ) (role : ApprovalRole)
    → any_by (same_approval row) approvals ≡ false
    → IsApproved approvals id role
    → IsApproved (row ∷ approvals) id role
unfolding approval_of
IsApproved-add row approvals id role free (a, found, yes_) =
    let p = λ (x : ProductionReleaseApprovalRecord).
      (x.candidate_id == id) && role_eq x.approval_role role in
    let apart = found_fails p (same_approval row) approvals a found free in
    let (owner, kind) = approval_of-holds approvals id role a found in
    elim (Bool-cases ((row.candidate_id == id) && role_eq row.approval_role role)) [
      | inr other ↦ (a, rw other found, yes_)
      | inl same ↦
          let role' = role_eq_sound row.approval_role role (ground (arith, same)) in
          let clash = role_eq_refl role in
          absurd (ground (arith, rw (owner, kind, role', clash) at apart, same))
    ]

-- Approvals of two roles of one candidate are by different actors.
pub IsUnique-actors :
    (approvals : List ProductionReleaseApprovalRecord) (id : ℕ) (r s : ApprovalRole)
    (a b : ProductionReleaseApprovalRecord)
    → IsUnique approvals
    → approval_of approvals id r ≡ some a
    → approval_of approvals id s ≡ some b
    → r ≢ s
    → a.actor_user_id ≢ b.actor_user_id
unfolding approval_of
IsUnique-actors [] id r s a b u ha hb ne same = cc ha
IsUnique-actors (x ∷ rest) id r s a b u ha hb ne same =
    let p = λ (y : ProductionReleaseApprovalRecord).
      (y.candidate_id == id) && role_eq y.approval_role r in
    let q = λ (y : ProductionReleaseApprovalRecord).
      (y.candidate_id == id) && role_eq y.approval_role s in
    let (oa, ra) = approval_of-holds (x ∷ rest) id r a ha in
    let (ob, rb) = approval_of-holds (x ∷ rest) id s b hb in
    elim (Bool-cases (p x)) [
      | inl hit ↦
          let xa : x ≡ a = some-injective x a (rw hit at ha) in
          elim (Bool-cases (q x)) [
            | inl both ↦ ne (
                sym ra
                ∙ ap (λ y. y.approval_role) (sym xa ∙ some-injective x b (rw both at hb))
                ∙ rb)
            | inr miss ↦
                let apart = found_fails q (same_approval x) rest b (rw miss at hb) u.0 in
                absurd
                  (ground (arith, subst (λ y. same_approval y b ≡ false) xa apart, oa, ob, same))
          ]
      | inr miss ↦ elim (Bool-cases (q x)) [
        | inl hit ↦
            let xb : x ≡ b = some-injective x b (rw hit at hb) in
            let apart = found_fails p (same_approval x) rest a (rw miss at ha) u.0 in
            absurd (ground (arith, subst (λ y. same_approval y a ≡ false) xb apart, oa, ob, same))
        | inr miss' ↦ IsUnique-actors rest id r s a b u.1 (rw miss at ha) (rw miss' at hb) ne same
      ]
    ]

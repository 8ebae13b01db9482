-- ===== src/ProductionRelease/Service/Rules.antt =====
-- The rules of the tables, which the single writes keep.
use zhiniu.Prelude.{
  All-impl, ℕ, ◌≡◌, ◌≢◌, refl, sym, ◌∙◌, subst, inl, inr, Bool, true, false, some, List, [], ◌∷◌,
  map, arith, Bool-cases, any_by, find, All, All-map, ◌==◌, ==_iff, if◌then◌else◌,
}
use mathlib.Core.Option.{some-injective}
use zhiniu.ProductionRelease.Models.{
  ReleaseStatus, released, ApprovalRole, ProductionReleaseCandidateRecord,
  ProductionReleaseApprovalRecord, Db,
}
use zhiniu.ProductionRelease.Tables.{set_status}
use zhiniu.ProductionRelease.Service.Approvals.{IsUnique, IsApproved}

-- The foreign key of the approvals.
abbrev pub IsKnown :
    List ProductionReleaseCandidateRecord → ProductionReleaseApprovalRecord → Type 0
IsKnown candidates a = any_by (λ c. c.id == a.candidate_id) candidates ≡ true

-- An approval is by another user than the one who created the candidate.
abbrev pub IsIndependent :
    ProductionReleaseCandidateRecord → ProductionReleaseApprovalRecord → Type 0
IsIndependent c a = (c.id == a.candidate_id) ≡ true → c.created_by_user_id ≢ a.actor_user_id

-- A released candidate has the three approvals.
abbrev pub IsBacked :
    List ProductionReleaseApprovalRecord → ProductionReleaseCandidateRecord → Type 0
IsBacked approvals c = c.status ≡ released → (role : ApprovalRole) → IsApproved approvals c.id role

-- The primary key of the candidates.
abbrev pub IsKeyed : List ProductionReleaseCandidateRecord → Type 0
IsKeyed [] = Unit
IsKeyed (c ∷ rest) = (any_by (λ x. x.id == c.id) rest ≡ false) × IsKeyed rest

pub record IsSound (db : Db) : Type 0 where
  pub keyed : IsKeyed db.candidates
  pub unique : IsUnique db.approvals
  pub known : All (IsKnown db.candidates) db.approvals
  pub independent : All (λ a. All (λ c. IsIndependent c a) db.candidates) db.approvals
  pub backed : All (IsBacked db.approvals) db.candidates

module _ {ℓ} {A : Type ℓ} where
  pub any_by-map :
      (p : A → Bool) (f : A → A) (xs : List A)
      → ((x : A) → p (f x) ≡ p x)
      → any_by p (map f xs) ≡ any_by p xs
  any_by-map p f [] same = refl
  any_by-map p f (x ∷ xs) same = rw (same x, any_by-map p f xs same)

  pub any_by-find : (p : A → Bool) (xs : List A) (a : A) → find p xs ≡ some a → any_by p xs ≡ true
  any_by-find p [] a h = ground arith
  any_by-find p (x ∷ xs) a h = elim (Bool-cases (p x)) [
    | inl hit ↦ ground (arith, hit)
    | inr miss ↦ ground (arith, miss, any_by-find p xs a (rw miss at h))
  ]

  pub any_by-clash :
      (p q : A → Bool) (xs : List A)
      → any_by p xs ≡ true
      → any_by q xs ≡ false
      → ¬ ((x : A) → p x ≡ true → q x ≡ true)
  any_by-clash p q [] h k step = cc h
  any_by-clash p q (x ∷ xs) h k step = elim (Bool-cases (p x)) [
    | inl hit ↦ ground (arith, k, step x hit)
    | inr miss ↦ any_by-clash p q xs (ground (arith, h, miss)) (ground (arith, k)) step
  ]

-- Under the primary key, what holds of the row that is found holds of every row of its key.
pub keyed-All :
    (P : ProductionReleaseCandidateRecord → Type 0) (cs : List ProductionReleaseCandidateRecord)
    (id : ℕ) (c : ProductionReleaseCandidateRecord)
    → IsKeyed cs
    → find (λ x. x.id == id) cs ≡ some c
    → P c
    → All (λ x. (x.id == id) ≡ true → P x) cs
keyed-All P [] id c keyed h pc = tt
keyed-All P (x ∷ cs) id c keyed h pc = elim (Bool-cases (x.id == id)) [
  | inl hit ↦
      let x_is : x ≡ c = some-injective x c (rw hit at h) in
      let key = (==_iff x.id id).0 hit in (λ e. subst P (sym x_is) pc, others x.id key cs keyed.0)
  | inr miss ↦ (λ e. absurd (cc (miss, e)), keyed-All P cs id c keyed.1 (rw miss at h) pc)
]
  where
    others :
        (k : ℕ)
        → k ≡ id
        → (l : List ProductionReleaseCandidateRecord) → any_by (λ x. x.id == k) l ≡ false
        → All (λ x. (x.id == id) ≡ true → P x) l
    others k e [] free = tt
    others k e (y ∷ l) free =
        (λ hit. absurd (ground (arith, free, e, hit)), others k e l (ground (arith, free)))

-- The rules survive a change of one status that is backed.
pub set_status-IsSound :
    (db : Db) (id : ℕ) (t : ReleaseStatus)
    → IsSound db
    → (t ≡ released → (role : ApprovalRole) → IsApproved db.approvals id role)
    → IsSound (record db { candidates = set_status id t db.candidates })
unfolding set_status
set_status-IsSound db id t sound backing =
    let f =
      λ (x : ProductionReleaseCandidateRecord). if x.id == id then record x { status = t } else x in
    record {
      keyed = keyed_map db.candidates sound.keyed;
      unique = sound.unique;
      known =
          All-impl (IsKnown db.candidates) (IsKnown (map f db.candidates)) db.approvals
            (λ a h.
              any_by-map (λ c. c.id == a.candidate_id) f db.candidates (λ c. ground arith) ∙ h)
            sound.known;
      independent =
          All-impl (λ a. All (λ c. IsIndependent c a) db.candidates)
            (λ a. All (λ c. IsIndependent c a) (map f db.candidates)) db.approvals
            (λ a h.
              All-map (λ c. IsIndependent c a) (λ c. IsIndependent c a) f db.candidates
                (λ c. keep c a) h)
            sound.independent;
      backed =
          All-map (IsBacked db.approvals) (IsBacked db.approvals) f db.candidates step sound.backed;
    }
  where
    keyed_map :
        (cs : List ProductionReleaseCandidateRecord)
        → IsKeyed cs
        → IsKeyed (map (λ x. if x.id == id then record x { status = t } else x) cs)
    keyed_map [] h = tt
    keyed_map (c ∷ cs) h = elim (Bool-cases (c.id == id)) [
      | inl same ↦ rw same (
        any_by-map (λ x. x.id == c.id) (λ x. if x.id == id then record x { status = t } else x) cs
              (λ x. ground arith)
            ∙ h.0,
        keyed_map cs h.1,
      )
      | inr other ↦ rw other (
        any_by-map (λ x. x.id == c.id) (λ x. if x.id == id then record x { status = t } else x) cs
              (λ x. ground arith)
            ∙ h.0,
        keyed_map cs h.1,
      )
    ]

    keep :
        (c : ProductionReleaseCandidateRecord) (a : ProductionReleaseApprovalRecord)
        → IsIndependent c a
        → IsIndependent (if c.id == id then record c { status = t } else c) a
    keep c a h = elim (Bool-cases (c.id == id)) [ inl same ↦ rw same h | inr other ↦ rw other h ]

    step :
        (c : ProductionReleaseCandidateRecord)
        → IsBacked db.approvals c
        → IsBacked db.approvals (if c.id == id then record c { status = t } else c)
    step c h = elim (Bool-cases (c.id == id)) [
      | inr other ↦ rw other h
      | inl same ↦ rw same (λ e role.
          subst (λ i. IsApproved db.approvals i role) (sym ((==_iff c.id id).0 same))
            (backing e role))
    ]

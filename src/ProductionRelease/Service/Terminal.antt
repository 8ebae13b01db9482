-- ===== src/ProductionRelease/Service/Terminal.antt =====
-- A candidate that is rejected or rolled back stays so.
use zhiniu.Prelude.{ℕ, ◌≡◌, refl, sym, ◌∙◌, inl, inr, ◌⊎◌, some}
use zhiniu.ProductionRelease.Models.{
  ReleaseStatus, rolled_back, rejected, ProductionReleaseCandidateRecord, Db,
}
use zhiniu.ProductionRelease.Tables.{locked_candidate}
use zhiniu.ProductionRelease.Service.Steps.{Step}
use zhiniu.ProductionRelease.Service.Transitions.{
  Moves, stays, closed_fails, observed_fails, invites_fail, rolls_back, rejects, Step-Follows,
}

-- Any number of operations.
infixr 5 ◌then◌
pub data Steps : Db → Db → Type 0 where
  done : {db : Db} → Steps db db
  ◌then◌ : {db mid db' : Db} → Step db mid → Steps mid db' → Steps db db'

rejected_stays : (s t : ReleaseStatus) → Moves s t → s ≡ rejected → t ≡ rejected
rejected_stays s t stays e = e
rejected_stays s t (rejects open_) e = refl
rejected_stays s t m e = absurd (cc e)

rolled_back_stays : (s t : ReleaseStatus) → Moves s t → s ≡ rolled_back → t ≡ rolled_back
rolled_back_stays s t stays e = e
rolled_back_stays s t (rejects open_) e = absurd (cc (rw e at open_))
rolled_back_stays s t closed_fails e = refl
rolled_back_stays s t observed_fails e = refl
rolled_back_stays s t invites_fail e = refl
rolled_back_stays s t rolls_back e = refl
rolled_back_stays s t m e = absurd (cc e)

-- Whatever sequence of operations follows, a rejected candidate stays rejected, and one that has
-- been rolled back stays rolled back, with the artifacts and the creator it had.
pub ended_stays :
    (db db' : Db) (id : ℕ) (c : ProductionReleaseCandidateRecord)
    → Steps db db'
    → locked_candidate db id ≡ some c
    → (c.status ≡ rejected) ⊎ (c.status ≡ rolled_back)
    → (c' : ProductionReleaseCandidateRecord) × (locked_candidate db' id ≡ some c')
      × (c'.status ≡ c.status)
      × (c'.artifacts ≡ c.artifacts)
      × (c'.created_by_user_id ≡ c.created_by_user_id)
ended_stays db db' id c done found ended = (c, found, refl, refl, refl)
ended_stays db db' id c (◌then◌ {mid = mid} step rest) found ended =
    let (d, there, follows) = Step-Follows db mid id c step found in
    let (kept, same) : ((d.status ≡ rejected) ⊎ (d.status ≡ rolled_back)) × (d.status ≡ c.status) =
      elim ended [
        | inl r ↦ let k = rejected_stays c.status d.status follows.moves r in (inl k, k ∙ sym r)
        | inr r ↦ let k = rolled_back_stays c.status d.status follows.moves r in (inr k, k ∙ sym r)
      ] in
    let (e, last, status, artifacts, creator) = ended_stays mid db' id d rest there kept in
    (e, last, status ∙ same, artifacts ∙ follows.artifacts, creator ∙ follows.creator)
